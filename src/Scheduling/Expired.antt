-- ===== src/Scheduling/Expired.antt =====
-- `scheduler_wakeup_expired_sleepers` over the ready list and the list of timed sleepers.
use mathlib.Core.Path.{subst, fun_ext}
use aalto_buenos.Prelude.{
  ℕ, zero, suc, ◌+◌, ◌≤◌, ◌<◌, ◌≡◌, ◌≢◌, refl, sym, ap, ◌∙◌, arith, List, [], ◌∷◌, ◌++◌, Bool,
  length, dec_lt, ltb-true, ltb-false, Result, ok,
}
use aalto_buenos.Prelude.Int.{pos, none_id}
use aalto_buenos.Threads.{Kernel, Thread, ready, max_threads, update, set_state}
use aalto_buenos.Threads.Links.{All, All-map, All-append_left, All-append_right, NotIn}
use aalto_buenos.Threads.Bounded.{length-le_of_Distinct}
use aalto_buenos.Scheduler.{wakeup_loop, wakeup_expired_sleepers, add_to_ready_list}
use aalto_buenos.Scheduler.Enqueue.{is_high, enqueue}
use aalto_buenos.Scheduler.ReadyList.{Added, add_to_ready_list_lem}
use aalto_buenos.Sleepq.Queues.{Queues, NotIn-ready, All-zip}
use aalto_buenos.Sleepq.Readied.{Readied, Readied-Queues}
use aalto_buenos.Scheduling.Sleepers.{
  Sleepers, IsAsleep, SameSleeper, Sleepers-agree, Queues-same, wakeup,
}

-- The ready list with threads put on it one by one.
unfoldable pub enqueue_all : (ℕ → Bool) → List ℕ → List ℕ → List ℕ
enqueue_all high [] ready_q = ready_q
enqueue_all high (t ∷ ts) ready_q = enqueue_all high ts (enqueue high t ready_q)

-- A thread that has been woken.
abbrev pub IsUp : (ℕ → Thread) → ℕ → Type 0
IsUp threads t = ((threads t).state ≡ ready) × ((threads t).wakeup_time ≡ 0)

pub record Woken (k : Kernel) (ready_q : List ℕ) (waiting : ℕ → List ℕ) (sleepers : List ℕ)
    (cur_time : ℕ) (r : Result Kernel) : Type 0 where
  pub after : Kernel
  pub returns : r ≡ ok after
  pub gone : List ℕ
  pub rest : List ℕ
  pub split : sleepers ≡ gone ++ rest
  pub were_due : All (λ t. wakeup k.threads t < cur_time) gone
  pub not_due : All (λ t. cur_time ≤ wakeup k.threads t) rest
  pub queued : Queues after (enqueue_all (is_high k.threads) gone ready_q) waiting
  pub still : Sleepers after rest
  pub up : All (IsUp after.threads) gone
  pub untouched :
      (x : ℕ)
      → NotIn x gone
      → after.threads x ≡ record (k.threads x) { next = (after.threads x).next }
  pub same_current : after.current ≡ k.current

-- Nobody is due: the loop stops.
none_due :
    {k : Kernel} {ready_q : List ℕ} {waiting : ℕ → List ℕ} {sleepers : List ℕ} {cur_time : ℕ}
    {r : Result Kernel}
    → Queues k ready_q waiting
    → Sleepers k sleepers
    → All (λ t. cur_time ≤ wakeup k.threads t) sleepers
    → r ≡ ok k
    → Woken k ready_q waiting sleepers cur_time r
none_due {k} {sleepers = sleepers} q s a e = record {
  after = k;
  returns = e;
  gone = [];
  rest = sleepers;
  split = refl;
  were_due = tt;
  not_due = a;
  queued = unfold enqueue_all in q;
  still = s;
  up = tt;
  untouched = λ x n. refl;
  same_current = refl;
}

-- One round of the loop: thread `t` at the head of the sleepers is due.
abbrev woken : Kernel → ℕ → Kernel
woken k t = record k {
  threads =
      update k.threads t (record (k.threads t) { next_sleeper_id = none_id; wakeup_time = 0 });
}

abbrev stepped : Kernel → Kernel → ℕ → Kernel
stepped k k' t = record k' {
  threads = set_state k'.threads t ready;
  next_sleeper = (k.threads t).next_sleeper_id;
}

loop_step :
    (fuel cur_time : ℕ) (k k' : Kernel) (t : ℕ)
    → k.next_sleeper ≡ pos t
    → wakeup k.threads t < cur_time
    → add_to_ready_list (woken k t) (pos t) ≡ ok k'
    → wakeup_loop (suc fuel) cur_time k ≡ wakeup_loop fuel cur_time (stepped k k' t)
unfolding wakeup_loop
loop_step fuel cur_time k k' t e due returns = ground (arith, e, ltb-true due, returns)

module _ {k : Kernel} {ready_q : List ℕ} {waiting : ℕ → List ℕ} (q : Queues k ready_q waiting)
    (t : ℕ) (ts : List ℕ) (s : Sleepers k (t ∷ ts))
    (asleep : All (IsAsleep k.threads) (t ∷ ts)) where
  woken_queues : Queues (woken k t) ready_q waiting
  woken_queues =
      Queues-same (woken k t) refl refl refl (λ x. ground arith)
        (All-map ready_q (λ x a. ground arith) q.ready_awake) q

  new : NotIn t ready_q
  new = NotIn-ready k.threads t ready_q (λ e. cc) q.ready_states

  a : Added (woken k t) t ready_q
  a = add_to_ready_list_lem (woken k t) t ready_q woken_queues.ready_list s.chain.1 s.below.0 new

  same_high : is_high (woken k t).threads ≡ is_high k.threads
  same_high = fun_ext λ x. ground arith

  next_queues : Queues (stepped k a.after t) (enqueue (is_high k.threads) t ready_q) waiting
  next_queues =
      subst (λ h. Queues (stepped k a.after t) (enqueue h t ready_q) waiting) same_high
        (Readied-Queues woken_queues awake new a readied)
    where
      awake : ((woken k t).threads t).sleeps_on ≡ 0
      awake = ground (arith, asleep.0)

      readied : Readied (woken k t) a.after (stepped k a.after t) t
      readied = record {
        same_head = refl;
        same_tail = refl;
        same_sleepq = refl;
        same_link = λ x. ground arith;
        same_state = λ x ne. ground (arith, ap (λ (th : Thread). th.state) (a.frame.same_fields x));
        is_ready = ground arith;
      }

  other_threads :
      (x : ℕ)
      → t ≢ x
      → (stepped k a.after t).threads x
        ≡ record (k.threads x) { next = ((stepped k a.after t).threads x).next }
  other_threads x ne = ground (arith, a.frame.same_fields x)

  this_thread : IsUp (stepped k a.after t).threads t
  this_thread =
      (ground arith, ground (arith, ap (λ (th : Thread). th.wakeup_time) (a.frame.same_fields t)))

  same_sleepers : All (SameSleeper k.threads (stepped k a.after t).threads) ts
  same_sleepers =
      All-map ts
        (λ x ne. (
          ap (λ (th : Thread). th.next_sleeper_id) (other_threads x ne),
          ap (λ (th : Thread). th.wakeup_time) (other_threads x ne),
        ))
        s.distinct.0

  next-Sleepers : Sleepers (stepped k a.after t) ts
  next-Sleepers =
      Sleepers-agree (record k { next_sleeper = (k.threads t).next_sleeper_id })
        (stepped k a.after t) ts refl same_sleepers
        (record {
          chain = s.chain.2;
          distinct = s.distinct.1;
          below = s.below.1;
          sorted = s.sorted.1;
        })

  next-IsAsleep : All (IsAsleep (stepped k a.after t).threads) ts
  next-IsAsleep =
      All-zip ts
        (λ x ne b. (
          ap (λ (th : Thread). th.state) (other_threads x ne) ∙ b.0,
          ap (λ (th : Thread). th.sleeps_on) (other_threads x ne) ∙ b.1,
        ))
        s.distinct.0 asleep.1

  after_high : is_high (stepped k a.after t).threads ≡ is_high k.threads
  after_high =
      (fun_ext λ x. ground (arith, ap (λ (th : Thread). th.priority) (a.frame.same_fields x)))
      ∙ same_high

  -- What the rest of the loop does, with this thread's wake-up put before it.
  prepend :
      (cur_time : ℕ) (r : Result Kernel)
      → wakeup k.threads t < cur_time
      → Woken (stepped k a.after t) (enqueue (is_high k.threads) t ready_q) waiting ts cur_time r
      → Woken k ready_q waiting (t ∷ ts) cur_time r
  unfolding enqueue_all
  prepend cur_time r due w = record {
    after = w.after;
    returns = w.returns;
    gone = t ∷ w.gone;
    rest = w.rest;
    split = ap (◌∷◌ t) w.split;
    were_due = (due, All-zip w.gone (λ x e lt. omega (arith, e, lt)) times_gone w.were_due);
    not_due = All-zip w.rest (λ x e le. omega (arith, e, le)) times_rest w.not_due;
    queued =
        subst
          (λ h.
            Queues w.after (enqueue_all h w.gone (enqueue (is_high k.threads) t ready_q)) waiting)
          after_high w.queued;
    still = w.still;
    up = (up_first, w.up);
    untouched = λ x n. ground (arith, w.untouched x n.1, other_threads x (λ e. n.0 (sym e)));
    same_current = w.same_current ∙ a.frame.same_current;
  }
    where
      first_left : NotIn t w.gone
      first_left = All-append_left _ w.gone w.rest (subst (NotIn t) w.split s.distinct.0)

      up_first : IsUp w.after.threads t
      up_first = (
        ap (λ (th : Thread). th.state) (w.untouched t first_left) ∙ this_thread.0,
        ap (λ (th : Thread). th.wakeup_time) (w.untouched t first_left) ∙ this_thread.1,
      )

      times :
          All (λ x. wakeup (stepped k a.after t).threads x ≡ wakeup k.threads x) (w.gone ++ w.rest)
      times = subst (All _) w.split (All-map ts (λ x e. e.1) same_sleepers)

      times_gone : All (λ x. wakeup (stepped k a.after t).threads x ≡ wakeup k.threads x) w.gone
      times_gone = All-append_left _ w.gone w.rest times

      times_rest : All (λ x. wakeup (stepped k a.after t).threads x ≡ wakeup k.threads x) w.rest
      times_rest = All-append_right _ w.gone w.rest times

  one_round :
      (fuel cur_time : ℕ)
      → wakeup k.threads t < cur_time
      → wakeup_loop (suc fuel) cur_time k ≡ wakeup_loop fuel cur_time (stepped k a.after t)
  one_round fuel cur_time due = loop_step fuel cur_time k a.after t s.chain.0 due a.returns

-- The loop, with fuel for one more round than there are sleepers.
pub wakeup_loop_lem :
    (fuel : ℕ) {k : Kernel} {ready_q : List ℕ} {waiting : ℕ → List ℕ} (sleepers : List ℕ)
    (cur_time : ℕ)
    → length sleepers < fuel
    → Queues k ready_q waiting
    → Sleepers k sleepers
    → All (IsAsleep k.threads) sleepers
    → Woken k ready_q waiting sleepers cur_time (wakeup_loop fuel cur_time k)
wakeup_loop_lem zero sleepers cur_time l q s asleep = absurd (omega arith)
wakeup_loop_lem (suc fuel) [] cur_time l q s asleep =
    none_due q s tt (unfold wakeup_loop in rw s.chain refl)
wakeup_loop_lem (suc fuel) {k} (t ∷ ts) cur_time l q s asleep =
    elim (dec_lt (wakeup k.threads t) cur_time) [
      | yes due ↦
          subst (Woken k _ _ (t ∷ ts) cur_time) (sym (one_round q t ts s asleep fuel cur_time due))
            (prepend q t ts s asleep cur_time _ due (
              wakeup_loop_lem fuel ts cur_time (omega arith) (next_queues q t ts s asleep)
                (next-Sleepers q t ts s asleep) (next-IsAsleep q t ts s asleep)))
      | no late ↦
          none_due q s
            (omega (arith, late), All-map ts (λ x le. omega (arith, le, late)) s.sorted.0)
            (unfold wakeup_loop in
              rw
                (s.chain.0, ltb-false {a = wakeup k.threads t} {b = cur_time} (omega (arith, late)))
                refl)
    ]

-- With well-formed queues and a well-formed list of timed sleepers, all asleep,
-- `scheduler_wakeup_expired_sleepers` returns: the sleepers split into a front that is due, each of
-- which becomes ready and joins the ready list in order, and a rest that is not due and sleeps on;
-- no other thread changes but in its link.
pub wakeup_expired_lem :
    {k : Kernel} {ready_q : List ℕ} {waiting : ℕ → List ℕ} (sleepers : List ℕ) (cur_time : ℕ)
    → Queues k ready_q waiting
    → Sleepers k sleepers
    → All (IsAsleep k.threads) sleepers
    → Woken k ready_q waiting sleepers cur_time (wakeup_expired_sleepers k cur_time)
unfolding wakeup_expired_sleepers
wakeup_expired_lem sleepers cur_time q s asleep =
    wakeup_loop_lem (max_threads + 1) sleepers cur_time
      (omega (arith, length-le_of_Distinct max_threads sleepers s.distinct s.below)) q s asleep

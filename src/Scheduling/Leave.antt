-- ===== src/Scheduling/Leave.antt =====
-- Where the thread that `scheduler_schedule` takes the processor from goes.
use mathlib.Core.Path.{subst}
use aalto_buenos.Prelude.{
  ℕ, ◌≤◌, ◌<◌, ◌≡◌, ◌≢◌, ◌⊎◌, refl, sym, ap, arith, List, [], ◌∷◌, ◌++◌, true, false, Bool-cases,
  inl, inr, ℕ_discrete, Result, ok,
}
use aalto_buenos.Threads.{
  Kernel, Thread, ThreadState, free, ready, sleeping, is_dying, max_threads, idle_thread_tid,
  set_state,
}
use aalto_buenos.Threads.Links.{All, All-map, NotIn, Seg-positive}
use aalto_buenos.Scheduler.{leave, wakeup_expired_sleepers}
use aalto_buenos.Scheduler.Enqueue.{is_high, enqueue}
use aalto_buenos.Scheduler.ReadyList.{Added, add_to_ready_list_lem}
use aalto_buenos.Sleepq.Queues.{Queues, NotIn-ready}
use aalto_buenos.Sleepq.Readied.{Readied, Readied-Queues}
use aalto_buenos.Scheduling.Sleepers.{
  Sleepers, IsAsleep, SameSleeper, Sleepers-agree, Queues-same, wakeup,
}
use aalto_buenos.Scheduling.Expired.{enqueue_all, Woken, wakeup_expired_lem}

-- What becomes of thread `t` when it loses the processor: the threads that wake up, those that
-- sleep on, the ready list, and the state of `t`.
pub data Leaving (k : Kernel) (t : ℕ) (ready_q sleepers : List ℕ) (cur_time : ℕ)
    : List ℕ → List ℕ → List ℕ → ThreadState → Type 0 where
  dies :
      is_dying (k.threads t).state ≡ true
      → Leaving k t ready_q sleepers cur_time [] sleepers ready_q free
  blocks :
      is_dying (k.threads t).state ≡ false
      → ((k.threads t).sleeps_on ≢ 0) ⊎ ((k.threads t).wakeup_time ≢ 0)
      → Leaving k t ready_q sleepers cur_time [] sleepers ready_q sleeping
  idles :
      (gone rest : List ℕ)
      → is_dying (k.threads t).state ≡ false
      → t ≡ idle_thread_tid
      → sleepers ≡ gone ++ rest
      → All (λ x. wakeup k.threads x < cur_time) gone
      → All (λ x. cur_time ≤ wakeup k.threads x) rest
      → Leaving k t ready_q sleepers cur_time gone rest
          (enqueue_all (is_high k.threads) gone ready_q)
          ready
  yields :
      is_dying (k.threads t).state ≡ false
      → t ≢ idle_thread_tid
      → (k.threads t).sleeps_on ≡ 0
      → (k.threads t).wakeup_time ≡ 0
      → Leaving k t ready_q sleepers cur_time [] sleepers
          (enqueue (is_high k.threads) t ready_q)
          ready

-- The kernel once `t` has left.
pub record Left (k : Kernel) (t : ℕ) (waiting : ℕ → List ℕ) (gone still queue : List ℕ)
    (s : ThreadState) (r : Result Kernel) : Type 0 where
  pub after : Kernel
  pub returns : r ≡ ok after
  pub queued : Queues after queue waiting
  pub sleepers : Sleepers after still
  pub left_state : (after.threads t).state ≡ s
  pub untouched :
      (x : ℕ)
      → x ≢ t
      → NotIn x gone
      → after.threads x ≡ record (k.threads x) { next = (after.threads x).next }
  pub same_current : after.current ≡ k.current

abbrev restated : Kernel → ℕ → ThreadState → Kernel
restated k t s = record k { threads = set_state k.threads t s }

restated-Queues :
    {k : Kernel} {queue : List ℕ} {waiting : ℕ → List ℕ} (t : ℕ) (s : ThreadState)
    → NotIn t queue
    → Queues k queue waiting
    → Queues (restated k t s) queue waiting
restated-Queues {k} {queue} t s out q =
    Queues-same (restated k t s) refl refl refl (λ x. ground arith)
      (All-map queue (λ x ne. ground arith) out) q

pub All-same :
    (k k' : Kernel) (ts : List ℕ)
    → ((x : ℕ) → SameSleeper k.threads k'.threads x)
    → All (SameSleeper k.threads k'.threads) ts
All-same k k' [] f = tt
All-same k k' (t ∷ ts) f = (f t, All-same k k' ts f)

restated-Sleepers :
    {k : Kernel} {ts : List ℕ} (t : ℕ) (s : ThreadState)
    → Sleepers k ts
    → Sleepers (restated k t s) ts
restated-Sleepers {k} {ts} t s =
    Sleepers-agree k (restated k t s) ts refl (All-same k (restated k t s) ts (λ x. ground arith))

-- Only the state of `t` changes.
only_state :
    {k : Kernel} {ready_q sleepers : List ℕ} {waiting : ℕ → List ℕ} (t : ℕ) (s : ThreadState)
    → NotIn t ready_q
    → Queues k ready_q waiting
    → Sleepers k sleepers
    → Left k t waiting [] sleepers ready_q s (ok (restated k t s))
only_state {k} t s out q sl = record {
  after = restated k t s;
  returns = refl;
  queued = restated-Queues t s out q;
  sleepers = restated-Sleepers t s sl;
  left_state = ground arith;
  untouched = λ x ne n. ground arith;
  same_current = refl;
}

abbrev Leaves : Kernel → ℕ → List ℕ → (ℕ → List ℕ) → List ℕ → ℕ → Result Kernel → Type 0
Leaves k t ready_q waiting sleepers cur_time r =
    (gone : List ℕ) × (still : List ℕ) × (queue : List ℕ) × (s : ThreadState) × Leaving k t ready_q
      sleepers cur_time gone still queue s
    × Left k t waiting gone still queue s r

module _ {k : Kernel} {t : ℕ} {ready_q sleepers : List ℕ} {waiting : ℕ → List ℕ}
    (q : Queues k ready_q waiting) (sl : Sleepers k sleepers) (lt : t < max_threads)
    (not_ready : (k.threads t).state ≢ ready) (alive : is_dying (k.threads t).state ≡ false) where
  new : NotIn t ready_q
  new = NotIn-ready k.threads t ready_q not_ready q.ready_states

  leave_blocked :
      (cur_time : ℕ)
      → ((k.threads t).sleeps_on ≢ 0) ⊎ ((k.threads t).wakeup_time ≢ 0)
      → leave k t cur_time ≡ ok (restated k t sleeping)
  unfolding leave
  leave_blocked cur_time (inl ne) = ground (arith, alive, ne)
  leave_blocked cur_time (inr ne) = ground (arith, alive, ne)

  -- The idle thread looks after the sleepers.
  leave_idle :
      (cur_time : ℕ)
      → t ≡ idle_thread_tid
      → (k.threads t).sleeps_on ≡ 0
      → (k.threads t).wakeup_time ≡ 0
      → All (IsAsleep k.threads) sleepers
      → Leaves k t ready_q waiting sleepers cur_time (leave k t cur_time)
  unfolding leave
  leave_idle cur_time e z w asleep = (
    woken.gone,
    woken.rest,
    enqueue_all (is_high k.threads) woken.gone ready_q,
    ready,
    idles woken.gone woken.rest alive e woken.split woken.were_due woken.not_due,
    record {
      after = restated woken.after t ready;
      returns = ground (arith, alive, e, z, w, woken.returns);
      queued = restated-Queues t ready out woken.queued;
      sleepers = restated-Sleepers t ready woken.still;
      left_state = ground arith;
      untouched = λ x ne n. ground (arith, woken.untouched x n, ne);
      same_current = woken.same_current;
    },
  )
    where
      woken : Woken k ready_q waiting sleepers cur_time (wakeup_expired_sleepers k cur_time)
      woken = wakeup_expired_lem sleepers cur_time q sl asleep

      out : NotIn t (enqueue_all (is_high k.threads) woken.gone ready_q)
      out =
          All-map _ (λ x p f. omega (arith, e, f, p))
            (Seg-positive _ _ _ _ woken.queued.ready_list.chain)

  -- Any other thread goes back to the ready list.
  leave_yielding :
      (cur_time : ℕ)
      → t ≢ idle_thread_tid
      → (k.threads t).sleeps_on ≡ 0
      → (k.threads t).wakeup_time ≡ 0
      → Leaves k t ready_q waiting sleepers cur_time (leave k t cur_time)
  unfolding leave
  leave_yielding cur_time ne z w = (
    [],
    sleepers,
    enqueue (is_high k.threads) t ready_q,
    ready,
    yields alive ne z w,
    record {
      after = restated a.after t ready;
      returns = ground (arith, alive, ne, z, w, a.returns);
      queued = Readied-Queues q z new a readied;
      sleepers =
          Sleepers-agree k (restated a.after t ready) sleepers a.frame.same_next_sleeper
            (All-same k (restated a.after t ready) sleepers same_sleeper) sl;
      left_state = ground arith;
      untouched = λ x ne n. ground (arith, a.frame.same_fields x, ne);
      same_current = a.frame.same_current;
    },
  )
    where
      a : Added k t ready_q
      a = add_to_ready_list_lem k t ready_q q.ready_list (omega (arith, ne)) lt new

      same_sleeper : (x : ℕ) → SameSleeper k.threads (restated a.after t ready).threads x
      same_sleeper x = (
        ground (arith, ap (λ (th : Thread). th.next_sleeper_id) (a.frame.same_fields x)),
        ground (arith, ap (λ (th : Thread). th.wakeup_time) (a.frame.same_fields x)),
      )

      readied : Readied k a.after (restated a.after t ready) t
      readied = record {
        same_head = refl;
        same_tail = refl;
        same_sleepq = refl;
        same_link = λ x. ground arith;
        same_state = λ x ne. ground (arith, ap (λ (th : Thread). th.state) (a.frame.same_fields x));
        is_ready = ground arith;
      }

pub leave_lem :
    {k : Kernel} (t : ℕ) {ready_q sleepers : List ℕ} {waiting : ℕ → List ℕ} (cur_time : ℕ)
    → Queues k ready_q waiting
    → Sleepers k sleepers
    → t < max_threads
    → (k.threads t).state ≢ ready
    → (t ≡ idle_thread_tid → All (IsAsleep k.threads) sleepers)
    → Leaves k t ready_q waiting sleepers cur_time (leave k t cur_time)
leave_lem {k} t {ready_q} {sleepers} {waiting} cur_time q sl lt not_ready asleep =
    elim (Bool-cases (is_dying (k.threads t).state)) [
      | inl dead ↦
          subst (Leaves k t ready_q waiting sleepers cur_time) (sym (leave_dead dead))
            ([], sleepers, ready_q, free, dies dead, only_state t free out q sl)
      | inr alive ↦ elim (ℕ_discrete (k.threads t).sleeps_on 0) [
        | no ne ↦ blocked alive (inl ne)
        | yes z ↦ elim (ℕ_discrete (k.threads t).wakeup_time 0) [
          | no ne ↦ blocked alive (inr ne)
          | yes w ↦ elim (ℕ_discrete t idle_thread_tid) [
            | yes e ↦ leave_idle q sl lt not_ready alive cur_time e z w (asleep e)
            | no ne ↦ leave_yielding q sl lt not_ready alive cur_time ne z w
          ]
        ]
      ]
    ]
  where
    out : NotIn t ready_q
    out = NotIn-ready k.threads t ready_q not_ready q.ready_states

    leave_dead : is_dying (k.threads t).state ≡ true → leave k t cur_time ≡ ok (restated k t free)
    leave_dead dead = unfold leave in ground (arith, dead)

    blocked :
        is_dying (k.threads t).state ≡ false
        → ((k.threads t).sleeps_on ≢ 0) ⊎ ((k.threads t).wakeup_time ≢ 0)
        → Leaves k t ready_q waiting sleepers cur_time (leave k t cur_time)
    blocked alive b =
        subst (Leaves k t ready_q waiting sleepers cur_time)
          (sym (leave_blocked q sl lt not_ready alive cur_time b))
          ([], sleepers, ready_q, sleeping, blocks alive b, only_state t sleeping out q sl)

-- ===== src/Sleepq/Wake.antt =====
-- What both wake-ups do with a thread that they find, on all the lists.
use mathlib.Core.Path.{fun_ext, subst}
use aalto_buenos.Prelude.{
  ℕ, ◌<◌, ◌≡◌, ◌≢◌, refl, sym, ap, ◌∙◌, arith, List, [], ◌∷◌, ◌++◌, Bool, true, false,
  if◌then◌else◌, ◌==◌, Bool-cases, inl, inr, ok,
}
use aalto_buenos.Prelude.Int.{ℤ, pos, none_id}
use aalto_buenos.Threads.{Kernel, Thread, ready, is_sleeping, update, set_state, hashtable_size}
use aalto_buenos.Threads.Links.{All-append_left, All-append_right, All-last, last, Seg-positive}
use aalto_buenos.Threads.Splice.{NotIn-of_Distinct}
use aalto_buenos.Scheduler.Enqueue.{links, is_high, enqueue}
use aalto_buenos.Scheduler.ReadyList.{Added, add_to_ready_list_lem}
use aalto_buenos.Sleepq.{unlink, wake_thread}
use aalto_buenos.Sleepq.Search.{last_or}
use aalto_buenos.Sleepq.Unlink.{AtHead, Behind, at_head-Queues, behind-Queues}
use aalto_buenos.Sleepq.Queues.{Waits, Slot, Queues, NotIn-awake}
use aalto_buenos.Sleepq.Readied.{Readied, Readied-Queues}

-- `unlink`, with the thread made ready or not.
abbrev left : Kernel → ℕ → ℤ → ℕ → Bool → Kernel
left k slot prev w s =
    let u = unlink k slot prev w in
    record u { threads = if s then set_state u.threads w ready else u.threads }

left-AtHead : (k : Kernel) (slot w : ℕ) (s : Bool) → AtHead k (left k slot none_id w s) slot w
unfolding unlink
left-AtHead k slot w s = record {
  same_head = refl;
  same_tail = refl;
  slot_heads = λ h. refl;
  same = λ x ne. ground arith;
}

left-Behind :
    (k : Kernel) (slot c w : ℕ) (s : Bool) → 0 < c → c ≢ w → Behind k (left k slot (pos c) w s) c w
unfolding unlink
left-Behind k slot c w s pc ne = record {
  same_head = ground arith;
  same_tail = ground arith;
  slot_heads = λ h. ground arith;
  same = λ x a b. ground arith;
  past = ground arith;
  same_wait = ground arith;
}

module _ {k : Kernel} {ready_q : List ℕ} {waiting : ℕ → List ℕ} (q : Queues k ready_q waiting)
    (slot : ℕ) (front : List ℕ) (w : ℕ) (ls : List ℕ) (in_range : slot < hashtable_size)
    (eq : waiting slot ≡ front ++ (w ∷ ls)) where
  here : Slot k.threads (k.sleepq slot) slot (front ++ (w ∷ ls))
  here = rw (← eq) (q.slots slot in_range)

  left-Queues :
      (s : Bool)
      → Queues (left k slot (last_or none_id front) w s) ready_q (update waiting slot (front ++ ls))
  left-Queues s = go front eq here
    where
      go :
          (xs : List ℕ)
          → waiting slot ≡ xs ++ (w ∷ ls)
          → Slot k.threads (k.sleepq slot) slot (xs ++ (w ∷ ls))
          → Queues (left k slot (last_or none_id xs) w s) ready_q (update waiting slot (xs ++ ls))
      go [] e sl = at_head-Queues q slot w ls in_range (left-AtHead k slot w s) e
      go (p ∷ ps) e sl = behind-Queues q slot w ls in_range p ps e (
          left-Behind k slot (last p ps) w s
            (All-last _ p ps (
              All-append_left _ (p ∷ ps) (w ∷ ls) (
                Seg-positive (links k.threads) (k.sleepq slot) none_id (p ∷ ps ++ (w ∷ ls))
                  sl.chain)))
            (λ e.
              All-last _ p ps
                (All-append_left _ (p ∷ ps) ls (NotIn-of_Distinct (p ∷ ps) ls w sl.distinct))
                (sym e)))

  -- What the thread that is woken, and the others, look like afterwards.
  pub record Woken : Type 0 where
    pub after : Kernel
    pub returns : wake_thread k slot (last_or none_id front) w ≡ ok after
    pub queued :
        Queues after
          (if is_sleeping (k.threads w).state
            then enqueue (is_high k.threads) w ready_q
            else ready_q)
          (update waiting slot (front ++ ls))
    pub awake : (after.threads w).sleeps_on ≡ 0
    pub state :
        (after.threads w).state
        ≡ (if is_sleeping (k.threads w).state then ready else (k.threads w).state)
    pub others :
        (x : ℕ)
        → w ≢ x
        → ((after.threads x).sleeps_on ≡ (k.threads x).sleeps_on)
          × ((after.threads x).state ≡ (k.threads x).state)
    pub priorities : (x : ℕ) → (after.threads x).priority ≡ (k.threads x).priority

  prev : ℤ
  prev = last_or none_id front

  unlinked : Kernel
  unlinked = unlink k slot prev w

  fields :
      (x : ℕ)
      → w ≢ x
      → ((unlinked.threads x).sleeps_on ≡ (k.threads x).sleeps_on)
        × ((unlinked.threads x).state ≡ (k.threads x).state)
  unfolding unlinked unlink
  fields x ne = ground arith

  own_fields :
      ((unlinked.threads w).sleeps_on ≡ 0) × ((unlinked.threads w).state ≡ (k.threads w).state)
  unfolding unlinked unlink
  own_fields = ground arith

  same_priority : (x : ℕ) → (unlinked.threads x).priority ≡ (k.threads x).priority
  unfolding unlinked unlink
  same_priority x = ground arith

  woken_running : is_sleeping (k.threads w).state ≡ false → Woken
  unfolding unlinked prev
  woken_running h = record {
    after = unlinked;
    returns = unfold wake_thread in rw (own_fields.1, h);
    queued = rw h (left-Queues false);
    awake = own_fields.0;
    state = rw h own_fields.1;
    others = fields;
    priorities = same_priority;
  }

  -- It had gone to sleep, and is put on the ready list.
  w-Waits : Waits k.threads slot w
  w-Waits = (All-append_right _ front (w ∷ ls) here.waits).0

  readied : Kernel
  readied = left k slot prev w true

  added : Added readied w ready_q
  unfolding readied prev
  added =
      add_to_ready_list_lem readied w ready_q (left-Queues true).ready_list
        (All-append_right _ front (w ∷ ls)
          (Seg-positive (links k.threads) (k.sleepq slot) none_id (front ++ (w ∷ ls)) here.chain)).0
        (All-append_right _ front (w ∷ ls) here.below).0
        (NotIn-awake k.threads w ready_q w-Waits.0 q.ready_awake)

  kept_state : (x : ℕ) → (added.after.threads x).state ≡ (readied.threads x).state
  kept_state x = ap (λ (th : Thread). th.state) (added.frame.same_fields x)

  kept_wait : (x : ℕ) → (added.after.threads x).sleeps_on ≡ (readied.threads x).sleeps_on
  kept_wait x = ap (λ (th : Thread). th.sleeps_on) (added.frame.same_fields x)

  readied_fields :
      (x : ℕ)
      → ((readied.threads x).sleeps_on ≡ (unlinked.threads x).sleeps_on)
        × ((readied.threads x).priority ≡ (unlinked.threads x).priority)
  unfolding readied unlinked
  readied_fields x = ground arith

  readied_states :
      ((readied.threads w).state ≡ ready)
      × ((x : ℕ) → w ≢ x → (readied.threads x).state ≡ (unlinked.threads x).state)
  unfolding readied unlinked
  readied_states = (ground arith, λ x ne. ground arith)

  after_priority : (x : ℕ) → (added.after.threads x).priority ≡ (k.threads x).priority
  after_priority x =
      ap (λ (th : Thread). th.priority) (added.frame.same_fields x)
      ∙ (readied_fields x).1
      ∙ same_priority x

  same_high : is_high readied.threads ≡ is_high k.threads
  same_high = fun_ext λ x. ap (λ n. n == 0) ((readied_fields x).1 ∙ same_priority x)

  after_Readied : Readied readied added.after added.after w
  after_Readied = record {
    same_head = refl;
    same_tail = refl;
    same_sleepq = refl;
    same_link = λ x. (refl, refl);
    same_state = λ x ne. kept_state x;
    is_ready = kept_state w ∙ readied_states.0;
  }

  readied_queues : Queues readied ready_q (update waiting slot (front ++ ls))
  unfolding readied prev
  readied_queues = left-Queues true

  readied_awake : (readied.threads w).sleeps_on ≡ 0
  readied_awake = (readied_fields w).0 ∙ own_fields.0

  queued_after :
      Queues added.after (enqueue (is_high k.threads) w ready_q) (update waiting slot (front ++ ls))
  queued_after =
      subst (λ h. Queues added.after (enqueue h w ready_q) (update waiting slot (front ++ ls)))
        same_high
        (Readied-Queues readied_queues readied_awake
          (NotIn-awake k.threads w ready_q w-Waits.0 q.ready_awake) added after_Readied)

  returned : is_sleeping (k.threads w).state ≡ true → wake_thread k slot prev w ≡ ok added.after
  unfolding readied unlinked
  returned h = unfold wake_thread in rw (own_fields.1, h) added.returns

  woken_sleeping : is_sleeping (k.threads w).state ≡ true → Woken
  woken_sleeping h = record {
    after = added.after;
    returns = unfold prev in returned h;
    queued = rw h queued_after;
    awake = kept_wait w ∙ readied_awake;
    state = rw h (kept_state w ∙ readied_states.0);
    others = λ x ne. (
      kept_wait x ∙ (readied_fields x).0 ∙ (fields x ne).0,
      kept_state x ∙ readied_states.1 x ne ∙ (fields x ne).1,
    );
    priorities = after_priority;
  }

  -- Both wake-ups: the thread leaves its slot; if it slept it is ready and on the ready list.
  pub wake_thread_lem : Woken
  wake_thread_lem = elim (Bool-cases (is_sleeping (k.threads w).state)) [
    | inl h ↦ woken_sleeping h
    | inr h ↦ woken_running h
  ]

-- ===== src/Sleepq/Readied.antt =====
-- A thread that waits for nothing goes to the ready list, and all queues stay well formed.
use aalto_buenos.Prelude.{ℕ, ◌<◌, ◌≡◌, ◌≢◌, sym, ap, ◌∙◌, List, [], ◌∷◌, Bool, Bool-cases, inl, inr}
use aalto_buenos.Prelude.Int.{ℤ, none_id}
use aalto_buenos.Threads.{Kernel, Thread, ready, hashtable_size}
use aalto_buenos.Threads.Links.{All, All-map, All-append, NotIn, Seg-agree}
use aalto_buenos.Scheduler.Enqueue.{links, is_high, ReadyList, insert_high, enqueue}
use aalto_buenos.Scheduler.ReadyList.{Added}
use aalto_buenos.Sleepq.Queues.{
  Slot, Queues, SameLink, Slot-agree, NotIn-awake, NotIn-waiting, All-zip,
}

All-insert_high {ℓ} :
    (P : ℕ → Type ℓ) (high : ℕ → Bool) (t : ℕ) (ts : List ℕ)
    → P t
    → All P ts
    → All P (insert_high high t ts)
unfolding insert_high
All-insert_high P high t [] h a = (h, tt)
All-insert_high P high t (x ∷ xs) h a = elim (Bool-cases (high x)) [
  | inl e ↦ rw e (a.0, All-insert_high P high t xs h a.1)
  | inr e ↦ rw e (h, a)
]

pub All-enqueue {ℓ} :
    (P : ℕ → Type ℓ) (high : ℕ → Bool) (t : ℕ) (ts : List ℕ)
    → P t
    → All P ts
    → All P (enqueue high t ts)
unfolding enqueue
All-enqueue P high t ts h a = elim (Bool-cases (high t)) [
  | inl e ↦ rw e (All-insert_high P high t ts h a)
  | inr e ↦ rw e (All-append P ts (t ∷ []) a (h, tt))
]

-- `k''` has the lists of `k'`, and the thread states of `k` but for `t`, which is ready.
pub record Readied (k k' k'' : Kernel) (t : ℕ) : Type 0 where
  pub same_head : k''.ready_head ≡ k'.ready_head
  pub same_tail : k''.ready_tail ≡ k'.ready_tail
  pub same_sleepq : k''.sleepq ≡ k'.sleepq
  pub same_link : (x : ℕ) → SameLink k'.threads k''.threads x
  pub same_state : (x : ℕ) → t ≢ x → (k''.threads x).state ≡ (k.threads x).state
  pub is_ready : (k''.threads t).state ≡ ready

pub Readied-Queues :
    {k k'' : Kernel} {t : ℕ} {ready_q : List ℕ} {waiting : ℕ → List ℕ}
    → Queues k ready_q waiting
    → (k.threads t).sleeps_on ≡ 0
    → NotIn t ready_q
    → (a : Added k t ready_q) → Readied k a.after k'' t
    → Queues k'' (enqueue (is_high k.threads) t ready_q) waiting
Readied-Queues {k} {k''} {t} {ready_q} {waiting} q z new a s = record {
  ready_list = listed;
  ready_states =
      All-enqueue _ (is_high k.threads) t ready_q s.is_ready
        (All-zip ready_q (λ x ne e. s.same_state x ne ∙ e) new q.ready_states);
  ready_awake =
      All-enqueue _ (is_high k.threads) t ready_q (awake t ∙ z)
        (All-map ready_q (λ x e. awake x ∙ e) q.ready_awake);
  slots = slot;
}
  where
    awake : (x : ℕ) → (k''.threads x).sleeps_on ≡ (k.threads x).sleeps_on
    awake x = (s.same_link x).1 ∙ ap (λ (th : Thread). th.sleeps_on) (a.frame.same_fields x)

    listed : ReadyList k'' (enqueue (is_high k.threads) t ready_q)
    listed = record {
      chain = rw (s.same_head) (
          Seg-agree (links a.after.threads) _ _ none_id _
            (All-enqueue _ (is_high k.threads) t ready_q (s.same_link t).0
              (All-map ready_q (λ x e. (s.same_link x).0) q.ready_awake))
            a.queued.chain);
      tail = rw (s.same_tail) a.queued.tail;
      distinct = a.queued.distinct;
      below = a.queued.below;
    }

    slot : (h : ℕ) → h < hashtable_size → Slot k''.threads (k''.sleepq h) h (waiting h)
    slot h lt =
        let e : k''.sleepq h ≡ k.sleepq h =
          ap (λ (f : ℕ → ℤ). f h) (s.same_sleepq ∙ a.frame.same_sleepq) in
        rw e (
          Slot-agree k.threads k''.threads (k.sleepq h) h (waiting h)
            (All-zip (waiting h)
              (λ x ne w. (
                (s.same_link x).0
                    ∙ a.frame.same_links x (λ eq. ne (sym eq))
                        (NotIn-awake k.threads x ready_q w.0 q.ready_awake),
                awake x,
              ))
              (NotIn-waiting k.threads t h (waiting h) z (q.slots h lt).waits) (q.slots h lt).waits)
            (q.slots h lt))

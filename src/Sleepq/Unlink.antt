-- ===== src/Sleepq/Unlink.antt =====
-- A thread leaves its slot, and every other list stays as it is.
use aalto_buenos.Prelude.{
  ℕ, ◌<◌, ◌≡◌, ◌≢◌, arith, List, ◌∷◌, ◌++◌, if◌then◌else◌, ◌==◌, ==_iff, Bool-cases, inl, inr,
  ℕ_discrete,
}
use aalto_buenos.Threads.{Kernel, update, hashtable_size}
use aalto_buenos.Threads.Links.{All-map, All-append_left, All-append_right, All-last, NotIn, last}
use aalto_buenos.Threads.Splice.{Chain-remove, Distinct-remove, All-remove, NotIn-of_Distinct}
use aalto_buenos.Scheduler.Enqueue.{links}
use aalto_buenos.Sleepq.Queues.{
  Waits, Slot, Queues, SameReady, Slot-agree, NotIn-other_slot, NotIn-awake, ready_part,
  ReadyPart-agree, queues, All-zip,
}

-- `k'` is `k` with thread `w` unlinked from the head of its slot.
pub record AtHead (k k' : Kernel) (slot w : ℕ) : Type 0 where
  pub same_head : k'.ready_head ≡ k.ready_head
  pub same_tail : k'.ready_tail ≡ k.ready_tail
  pub slot_heads : (h : ℕ) → k'.sleepq h ≡ (if slot == h then links k.threads w else k.sleepq h)
  pub same : (x : ℕ) → w ≢ x → SameReady k.threads k'.threads x

-- `k'` is `k` with thread `w` unlinked from behind thread `c`.
pub record Behind (k k' : Kernel) (c w : ℕ) : Type 0 where
  pub same_head : k'.ready_head ≡ k.ready_head
  pub same_tail : k'.ready_tail ≡ k.ready_tail
  pub slot_heads : (h : ℕ) → k'.sleepq h ≡ k.sleepq h
  pub same : (x : ℕ) → w ≢ x → c ≢ x → SameReady k.threads k'.threads x
  pub past : links k'.threads c ≡ links k.threads w
  pub same_wait : (k'.threads c).sleeps_on ≡ (k.threads c).sleeps_on

module _ {k k' : Kernel} {ready_q : List ℕ} {waiting : ℕ → List ℕ} (q : Queues k ready_q waiting)
    (slot w : ℕ) (ls : List ℕ) (in_range : slot < hashtable_size) where
  pub at_head-Queues :
      AtHead k k' slot w → waiting slot ≡ w ∷ ls → Queues k' ready_q (update waiting slot ls)
  at_head-Queues u eq =
      queues
        (ReadyPart-agree k k' ready_q u.same_head u.same_tail
          (All-map ready_q (λ x ne. u.same x ne)
            (NotIn-awake k.threads w ready_q here.waits.0.0 q.ready_awake))
          (ready_part q))
        others
    where
      here : Slot k.threads (k.sleepq slot) slot (w ∷ ls)
      here = rw (← eq) (q.slots slot in_range)

      others :
          (h : ℕ) → h < hashtable_size → Slot k'.threads (k'.sleepq h) h (update waiting slot ls h)
      others h lt = elim (Bool-cases (slot == h)) [
        | inl s ↦
            rw (u.slot_heads h, s, ← (==_iff slot h).0 s)
              (Slot-agree k.threads _ (links k.threads w) slot ls
                (All-map ls (λ x ne. (u.same x ne).0) here.distinct.0)
                (record {
                  chain = here.chain.2;
                  distinct = here.distinct.1;
                  below = here.below.1;
                  waits = here.waits.1;
                }))
        | inr ne ↦
            rw (u.slot_heads h, ne)
              (Slot-agree k.threads _ (k.sleepq h) h (waiting h)
                (All-map (waiting h) (λ x d. (u.same x d).0)
                  (NotIn-other_slot k.threads w h (waiting h) (ground (arith, here.waits.0))
                    (q.slots h lt).waits))
                (q.slots h lt))
      ]

  module _ (p : ℕ) (ps : List ℕ) (eq : waiting slot ≡ p ∷ ps ++ (w ∷ ls))
      (u : Behind k k' (last p ps) w) where
    here : Slot k.threads (k.sleepq slot) slot (p ∷ ps ++ (w ∷ ls))
    here = rw (← eq) (q.slots slot in_range)

    w-Waits : Waits k.threads slot w
    w-Waits = (All-append_right _ (p ∷ ps) (w ∷ ls) here.waits).0

    c-Waits : Waits k.threads slot (last p ps)
    c-Waits = All-last _ p ps (All-append_left _ (p ∷ ps) (w ∷ ls) here.waits)

    w_out : NotIn w (p ∷ ps ++ ls)
    w_out = NotIn-of_Distinct (p ∷ ps) ls w here.distinct

    waits_after : (x : ℕ) → w ≢ x → (k'.threads x).sleeps_on ≡ (k.threads x).sleeps_on
    waits_after x ne = elim (ℕ_discrete (last p ps) x) [
      | yes e ↦ rw (← e) u.same_wait
      | no d ↦ (u.same x ne d).0.1
    ]

    Slot-here : Slot k'.threads (k.sleepq slot) slot (p ∷ ps ++ ls)
    Slot-here = record {
      chain =
          Chain-remove (links k.threads) (links k'.threads) (k.sleepq slot) p ps ls w
            (λ x a b. (u.same x b a).0.0) u.past here.distinct here.chain;
      distinct = Distinct-remove (p ∷ ps) ls w here.distinct;
      below = All-remove _ (p ∷ ps) ls w here.below;
      waits =
          All-zip (p ∷ ps ++ ls) (λ x ne a. rw (waits_after x ne) a) w_out
            (All-remove _ (p ∷ ps) ls w here.waits);
    }

    pub behind-Queues : Queues k' ready_q (update waiting slot (p ∷ ps ++ ls))
    behind-Queues =
        queues
          (ReadyPart-agree k k' ready_q u.same_head u.same_tail
            (All-zip ready_q (λ x a b. u.same x a b)
              (NotIn-awake k.threads w ready_q w-Waits.0 q.ready_awake)
              (NotIn-awake k.threads (last p ps) ready_q c-Waits.0 q.ready_awake))
            (ready_part q))
          others
      where
        others :
            (h : ℕ)
            → h < hashtable_size
            → Slot k'.threads (k'.sleepq h) h (update waiting slot (p ∷ ps ++ ls) h)
        others h lt = elim (Bool-cases (slot == h)) [
          | inl s ↦ rw (u.slot_heads h, s, ← (==_iff slot h).0 s) Slot-here
          | inr ne ↦
              rw (u.slot_heads h, ne)
                (Slot-agree k.threads _ (k.sleepq h) h (waiting h)
                  (All-zip (waiting h) (λ x a b. (u.same x a b).0)
                    (NotIn-other_slot k.threads w h (waiting h) (ground (arith, w-Waits))
                      (q.slots h lt).waits)
                    (NotIn-other_slot k.threads (last p ps) h (waiting h) (ground (arith, c-Waits))
                      (q.slots h lt).waits))
                  (q.slots h lt))
        ]

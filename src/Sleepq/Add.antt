-- ===== src/Sleepq/Add.antt =====
-- `sleepq_add` on the lists of waiting threads.
use aalto_buenos.Prelude.{
  ℕ, zero, suc, ◌<◌, ◌≡◌, ◌≢◌, refl, ap, ◌∙◌, arith, List, [], ◌∷◌, ◌++◌, append-nil, true, ◌==◌,
  length, Bool-cases, inl, inr, ok, ==_iff,
}
use aalto_buenos.Prelude.Int.{pos, none_id}
use aalto_buenos.Threads.{Kernel, Thread, ready, update, set_next, max_threads, hashtable_size}
use aalto_buenos.Threads.Links.{
  Chain, All, All-map, All-append, All-last, NotIn, last, Seg-agree, Chain-rest,
}
use aalto_buenos.Threads.Splice.{Chain-insert, Distinct-insert}
use aalto_buenos.Threads.Bounded.{length-le_of_Distinct}
use aalto_buenos.Scheduler.Enqueue.{links}
use aalto_buenos.Sleepq.{hash, find_tail, add}
use aalto_buenos.Sleepq.Queues.{
  Waits, Slot, Queues, SameReady, Slot-agree, NotIn-other_slot, NotIn-awake, NotIn-waiting,
  NotIn-ready, ready_part, ReadyPart-agree, queues, All-zip,
}

find_tail_lem :
    (threads : ℕ → Thread) (fuel p : ℕ) (ps : List ℕ)
    → length ps < fuel
    → Chain (links threads) (links threads p) ps
    → find_tail fuel threads p ≡ ok (last p ps)
unfolding find_tail
find_tail_lem threads zero p ps l c = absurd (omega arith)
find_tail_lem threads (suc fuel) p [] l c = rw c
find_tail_lem threads (suc fuel) p (q ∷ qs) l c =
    ground (arith, c, find_tail_lem threads fuel q qs (omega arith) c.2)

-- The thread that goes to sleep: it runs, and waits for nothing yet.
pub record IsRunner (k : Kernel) (t : ℕ) : Type 0 where
  pub not_idle : 0 < t
  pub in_table : t < max_threads
  pub not_ready : (k.threads t).state ≢ ready
  pub awake : (k.threads t).sleeps_on ≡ 0

abbrev entry : Kernel → ℕ → ℕ → Thread
entry k t resource = record (k.threads t) { next = none_id; sleeps_on = resource }

-- The kernel after the call, for an empty slot and for one with the last thread `c`.
abbrev first_in : Kernel → ℕ → ℕ → Kernel
first_in k t resource = record k {
  threads = update k.threads t (entry k t resource);
  sleepq = update k.sleepq (hash resource) (pos t);
}

abbrev last_in : Kernel → ℕ → ℕ → ℕ → Kernel
last_in k t resource c = record k {
  threads = set_next (update k.threads t (entry k t resource)) c (pos t);
}

add_to_empty :
    (k : Kernel) (cpu t resource : ℕ)
    → k.current cpu ≡ t
    → 0 < t
    → k.sleepq (hash resource) ≡ none_id
    → add k true cpu resource ≡ ok (first_in k t resource)
unfolding add
add_to_empty k cpu t resource e pt h = rw e (ground arith)

add_behind :
    (k : Kernel) (cpu t resource p c : ℕ)
    → k.current cpu ≡ t
    → 0 < t
    → k.sleepq (hash resource) ≡ pos p
    → 0 < p
    → find_tail max_threads (update k.threads t (entry k t resource)) p ≡ ok c
    → add k true cpu resource ≡ ok (last_in k t resource c)
unfolding add
add_behind k cpu t resource p c e pt h pp f = rw e (ground arith)

module _ {k : Kernel} {ready_q : List ℕ} {waiting : ℕ → List ℕ} (q : Queues k ready_q waiting)
    (t : ℕ) (run : IsRunner k t) (resource : ℕ) (is_address : resource ≢ 0) where
  first_in-Queues : Queues (first_in k t resource) ready_q (update waiting (hash resource) (t ∷ []))
  first_in-Queues =
      queues
        (ReadyPart-agree k _ ready_q refl refl
          (All-map ready_q (λ x ne. ground arith)
            (NotIn-ready k.threads t ready_q run.not_ready q.ready_states))
          (ready_part q))
        slot
    where
      slot :
          (h : ℕ)
          → h < hashtable_size
          → Slot
              (first_in k t resource).threads
              ((first_in k t resource).sleepq h)
              h
              (update waiting (hash resource) (t ∷ []) h)
      slot h lt = elim (Bool-cases (hash resource == h)) [
        | inl e ↦ rw e (record {
          chain = (refl, run.not_idle, ground arith);
          distinct = (tt, tt);
          below = (run.in_table, tt);
          waits = (ground arith, tt);
        })
        | inr ne ↦ rw ne (
            Slot-agree k.threads _ (k.sleepq h) h (waiting h)
              (All-map (waiting h) (λ x d. ground arith)
                (NotIn-waiting k.threads t h (waiting h) run.awake (q.slots h lt).waits))
              (q.slots h lt))
      ]

  module _ (p : ℕ) (ps : List ℕ) (full : waiting (hash resource) ≡ p ∷ ps) where
    here : Slot k.threads (k.sleepq (hash resource)) (hash resource) (p ∷ ps)
    here = rw (← full) (q.slots (hash resource) (omega arith))

    c-Waits : Waits k.threads (hash resource) (last p ps)
    c-Waits = All-last _ p ps here.waits

    c_ne : last p ps ≢ t
    c_ne e = c-Waits.0 (ap (λ x. (k.threads x).sleeps_on) e ∙ run.awake)

    new : NotIn t (p ∷ ps)
    new = NotIn-waiting k.threads t (hash resource) (p ∷ ps) run.awake here.waits

    Slot-here :
        Slot
          (last_in k t resource (last p ps)).threads
          (k.sleepq (hash resource))
          (hash resource)
          (p ∷ ps ++ (t ∷ []))
    Slot-here = record {
      chain =
          Chain-insert (links k.threads) _ (k.sleepq (hash resource)) p ps [] t run.not_idle
            (λ x a b. ground arith) (ground arith) (ground (arith, c_ne, end))
            (rw append-nil here.distinct) (rw append-nil new) (rw append-nil here.chain);
      distinct = Distinct-insert (p ∷ ps) [] t (rw append-nil here.distinct) (rw append-nil new);
      below = All-append _ (p ∷ ps) (t ∷ []) here.below (run.in_table, tt);
      waits =
          All-append _ (p ∷ ps) (t ∷ []) (All-zip (p ∷ ps) (λ x ne w. ground arith) new here.waits)
            (ground (arith, c_ne), tt);
    }
      where
        end : links k.threads (last p ps) ≡ none_id
        end =
            Chain-rest (links k.threads) (k.sleepq (hash resource)) p ps []
              (rw append-nil here.chain)

    last_in-Queues :
        Queues
          (last_in k t resource (last p ps))
          ready_q
          (update waiting (hash resource) (p ∷ ps ++ (t ∷ [])))
    last_in-Queues = queues (ReadyPart-agree k _ ready_q refl refl same (ready_part q)) slot
      where
        same : All (SameReady k.threads (last_in k t resource (last p ps)).threads) ready_q
        same =
            All-zip ready_q (λ x ne d. ground arith)
              (NotIn-ready k.threads t ready_q run.not_ready q.ready_states)
              (NotIn-awake k.threads (last p ps) ready_q c-Waits.0 q.ready_awake)

        slot :
            (h : ℕ)
            → h < hashtable_size
            → Slot
                (last_in k t resource (last p ps)).threads
                (k.sleepq h)
                h
                (update waiting (hash resource) (p ∷ ps ++ (t ∷ [])) h)
        slot h lt = elim (Bool-cases (hash resource == h)) [
          | inl e ↦ rw (e, ← (==_iff (hash resource) h).0 e) Slot-here
          | inr ne ↦ rw ne (
              Slot-agree k.threads _ (k.sleepq h) h (waiting h)
                (All-zip (waiting h) (λ x a b. ground arith)
                  (NotIn-waiting k.threads t h (waiting h) run.awake (q.slots h lt).waits)
                  (NotIn-other_slot k.threads (last p ps) h (waiting h) (ground (arith, c-Waits))
                    (q.slots h lt).waits))
                (q.slots h lt))
        ]

  walk :
      (p : ℕ) (ps : List ℕ)
      → Slot k.threads (k.sleepq (hash resource)) (hash resource) (p ∷ ps)
      → NotIn t (p ∷ ps)
      → Chain
          (links (update k.threads t (entry k t resource)))
          (links (update k.threads t (entry k t resource)) p)
          ps
  walk p ps slot out =
      let same : links (update k.threads t (entry k t resource)) p ≡ links k.threads p =
        ground (arith, out.0) in
      rw same (
        Seg-agree (links k.threads) _ (links k.threads p) none_id ps
          (All-map ps (λ x ne. ground arith) out.1) slot.chain.2)

  -- With well-formed queues and interrupts off, `sleepq_add` by a running thread that is not the
  -- idle thread and waits for nothing yet returns, puts the thread at the end of the slot of the
  -- resource, whose address is not 0, and leaves every other queue as it is.
  pub add_lem :
      (cpu : ℕ)
      → k.current cpu ≡ t
      → (k' : Kernel) × (add k true cpu resource ≡ ok k')
        × Queues k' ready_q (update waiting (hash resource) (waiting (hash resource) ++ (t ∷ [])))
  add_lem cpu e = go (waiting (hash resource)) refl
    where
      go :
          (ts : List ℕ)
          → waiting (hash resource) ≡ ts
          → (k' : Kernel) × (add k true cpu resource ≡ ok k')
            × Queues k' ready_q
                (update waiting (hash resource) (waiting (hash resource) ++ (t ∷ [])))
      go [] w =
          let slot : Slot k.threads (k.sleepq (hash resource)) (hash resource) [] =
            rw (← w) (q.slots (hash resource) (omega arith)) in
          (
            first_in k t resource,
            add_to_empty k cpu t resource e run.not_idle slot.chain,
            rw w first_in-Queues,
          )
      go (p ∷ ps) w =
          let slot : Slot k.threads (k.sleepq (hash resource)) (hash resource) (p ∷ ps) =
            here p ps w in
          let out : NotIn t (p ∷ ps) = new p ps w in
          (
            last_in k t resource (last p ps),
            add_behind k cpu t resource p (last p ps) e run.not_idle slot.chain.0 slot.chain.1 (
                find_tail_lem _ max_threads p ps
                  (omega
                    (arith, length-le_of_Distinct max_threads (p ∷ ps) slot.distinct slot.below))
                  (walk p ps slot out)),
            rw w (last_in-Queues p ps w),
          )

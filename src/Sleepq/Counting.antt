-- ===== src/Sleepq/Counting.antt =====
-- One thread more and one thread less of a slot waits for a resource.
use mathlib.Core.Path.{subst}
use aalto_buenos.Prelude.{
  ℕ, suc, ◌≡◌, ◌≢◌, ap, arith, List, [], ◌∷◌, ◌++◌, true, if◌then◌else◌, ◌==◌, ok,
}
use aalto_buenos.Threads.{Kernel}
use aalto_buenos.Threads.Links.{All-map, NotIn, Distinct}
use aalto_buenos.Threads.Splice.{NotIn-of_Distinct}
use aalto_buenos.Sleepq
use aalto_buenos.Sleepq.{hash}
use aalto_buenos.Sleepq.Queues.{Queues, Slot, NotIn-waiting}
use aalto_buenos.Sleepq.Add.{IsRunner}
use aalto_buenos.Sleepq.Wake.{Woken}
use aalto_buenos.Sleepq.WakeOne.{hash-lt}
use aalto_buenos.Sleepq.Waiters.{waiters, waiters-append, waiters-agree, add-sleeps_on}

module _ {k : Kernel} {ready_q : List ℕ} {waiting : ℕ → List ℕ} (q : Queues k ready_q waiting)
    (t cpu address : ℕ) (run : IsRunner k t) (is_address : address ≢ 0)
    (here : k.current cpu ≡ t) where
  slot : Slot k.threads (k.sleepq (hash address)) (hash address) (waiting (hash address))
  slot = q.slots (hash address) (hash-lt address)

  -- One more thread of the slot waits for the resource.
  pub one_more :
      (k' : Kernel)
      → Sleepq.add k true cpu address ≡ ok k'
      → waiters k'.threads address (waiting (hash address) ++ (t ∷ []))
        ≡ suc (waiters k.threads address (waiting (hash address)))
  one_more k' e = omega (
    arith,
    waiters-append k'.threads address (waiting (hash address)) (t ∷ []),
    waiters-agree k.threads k'.threads address (waiting (hash address))
        (All-map (waiting (hash address)) (λ x ne. ground (arith, changed x, ne)) out),
    itself,
  )
    where
      changed :
          (x : ℕ) → (k'.threads x).sleeps_on ≡ (if t == x then address else (k.threads x).sleeps_on)
      changed x =
          ground
            (arith, here, add-sleeps_on k k' cpu address (ground (arith, here, run.not_idle)) e x)

      out : NotIn t (waiting (hash address))
      out = NotIn-waiting k.threads t (hash address) (waiting (hash address)) run.awake slot.waits

      itself : waiters k'.threads address (t ∷ []) ≡ 1
      itself = unfold waiters in ground (arith, changed t)

module _ {k : Kernel} {ready_q : List ℕ} {waiting : ℕ → List ℕ} (q : Queues k ready_q waiting)
    (address : ℕ) where
  -- One thread less waits for the resource.
  pub one_less :
      (front : List ℕ) (w : ℕ) (ls : List ℕ) (eq : waiting (hash address) ≡ front ++ (w ∷ ls))
      → (k.threads w).sleeps_on ≡ address
      → (o : Woken q (hash address) front w ls (hash-lt address) eq)
      → suc (waiters o.after.threads address (front ++ ls))
        ≡ waiters k.threads address (waiting (hash address))
  one_less front w ls eq waits o = omega (
    arith,
    ap (waiters k.threads address) eq,
    waiters-append k.threads address front (w ∷ ls),
    waiters-append k.threads address front ls,
    waiters-agree k.threads o.after.threads address (front ++ ls)
        (All-map (front ++ ls) (λ x ne. (o.others x ne).0) out),
    itself,
  )
    where
      out : NotIn w (front ++ ls)
      out =
          NotIn-of_Distinct front ls w
            (subst Distinct eq (q.slots (hash address) (hash-lt address)).distinct)

      itself : waiters k.threads address (w ∷ ls) ≡ suc (waiters k.threads address ls)
      itself = unfold waiters in ground (arith, waits)

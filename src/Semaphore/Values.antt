-- ===== src/Semaphore/Values.antt =====
-- The value of a semaphore under `semaphore_P` and `semaphore_V`: below zero it counts the threads
-- that wait.
use aalto_buenos.Prelude.{
  ℕ, zero, suc, ℕ_discrete, ◌^◌, ◌-◌, ◌+◌, ◌≡◌, ◌≢◌, refl, sym, ap, ◌∙◌, arith, List, [], ◌∷◌, ◌++◌,
  Bool, true, false, Result, ok,
}
use aalto_buenos.Prelude.Int.{ℤ, pos, negsuc, is_positive, is_negative, incr, decr}
use aalto_buenos.Threads.{Kernel, Thread, update}
use aalto_buenos.Threads.Links.{All}
use aalto_buenos.Sleepq.{hash}
use aalto_buenos.Sleepq.Queues.{Queues}
use aalto_buenos.Sleepq.Add.{IsRunner, add_lem}
use aalto_buenos.Sleepq.Wake.{Woken}
use aalto_buenos.Sleepq.WakeOne.{hash-lt, woke, nobody, wake_lem}
use aalto_buenos.Semaphore.{Semaphore, lower, raise, incr_int}
use aalto_buenos.Sleepq.Counting.{one_more, one_less}
use aalto_buenos.Sleepq.Waiters.{waiters, waiters-none}

-- How many threads a value says are waiting.
abbrev pub debt : ℤ → ℕ
debt (pos n) = 0
debt (negsuc n) = suc n

-- The threads that wait for the semaphore, among those of its slot, are as many as its value says.
abbrev pub IsBalanced : Semaphore → (ℕ → Thread) → ℕ → List ℕ → Type 0
IsBalanced sem threads address ts = waiters threads address ts ≡ debt sem.value

-- How `semaphore_P` ends.
pub data LowerOutcome (sem : Semaphore) (k : Kernel) (t address : ℕ) (ready_q : List ℕ)
    (waiting : ℕ → List ℕ) (r : Result (Semaphore × Kernel × Bool)) : Type 0 where
  passes :
      (n : ℕ)
      → sem.value ≡ pos (suc n)
      → r ≡ ok (record sem { value = pos n }, k, false)
      → LowerOutcome sem k t address ready_q waiting r
  blocks :
      (sem' : Semaphore) (k' : Kernel)
      → is_positive sem.value ≡ false
      → r ≡ ok (sem', k', true)
      → debt sem'.value ≡ suc (debt sem.value)
      → Queues k' ready_q (update waiting (hash address) (waiting (hash address) ++ (t ∷ [])))
      → IsBalanced sem' k'.threads address (waiting (hash address) ++ (t ∷ []))
      → LowerOutcome sem k t address ready_q waiting r

module _ {k : Kernel} {ready_q : List ℕ} {waiting : ℕ → List ℕ} (q : Queues k ready_q waiting)
    (t cpu address : ℕ) (run : IsRunner k t) (is_address : address ≢ 0)
    (here : k.current cpu ≡ t) where
  lower-blocks :
      (sem : Semaphore)
      → IsBalanced sem k.threads address (waiting (hash address))
      → is_positive sem.value ≡ false
      → is_negative (decr sem.value) ≡ true
      → debt (decr sem.value) ≡ suc (debt sem.value)
      → LowerOutcome sem k t address ready_q waiting (lower sem k cpu address)
  lower-blocks sem b np neg grows =
      let (k', e, queued) = add_lem q t run address is_address cpu here in
      blocks (record sem { value = decr sem.value }) k' np (unfold lower in rw (neg, e) refl) grows
        queued (one_more q t cpu address run is_address here k' e ∙ ap suc b ∙ sym grows)

  -- With well-formed queues, as many threads of its slot waiting for the semaphore, whose address
  -- is not 0, as its value is below zero, and a running thread that is not the idle thread and
  -- waits for nothing, `semaphore_P` either lowers a positive value and goes on, or puts the thread
  -- at the end of the slot and gives up the processor, one thread more waiting and the value one
  -- further below zero, with the queues well formed.
  pub lower_lem :
      (sem : Semaphore)
      → IsBalanced sem k.threads address (waiting (hash address))
      → LowerOutcome sem k t address ready_q waiting (lower sem k cpu address)
  lower_lem sem b = go sem.value refl
    where
      go :
          (v : ℤ)
          → sem.value ≡ v
          → LowerOutcome sem k t address ready_q waiting (lower sem k cpu address)
      go (pos zero) e = lower-blocks sem b (rw e refl) (rw e refl) (rw e refl)
      go (pos (suc n)) e = passes n e (unfold lower in ground (arith, e))
      go (negsuc n) e = lower-blocks sem b (rw e refl) (rw e refl) (ground (arith, e))

-- How `semaphore_V` ends.
pub data RaiseOutcome (sem : Semaphore) {k : Kernel} {ready_q : List ℕ} {waiting : ℕ → List ℕ}
    (q : Queues k ready_q waiting) (address : ℕ) (r : Result (Semaphore × Kernel)) : Type 0 where
  frees :
      (n : ℕ)
      → sem.value ≡ pos n
      → r ≡ ok (record sem { value = pos (n + 1) }, k)
      → RaiseOutcome sem q address r
  wakes :
      (front : List ℕ) (w : ℕ) (ls : List ℕ) (eq : waiting (hash address) ≡ front ++ (w ∷ ls))
      → All (λ t. (k.threads t).sleeps_on ≢ address) front
      → (k.threads w).sleeps_on ≡ address
      → (o : Woken q (hash address) front w ls (hash-lt address) eq)
      → suc (debt (incr sem.value)) ≡ debt sem.value
      → r ≡ ok (record sem { value = incr sem.value }, o.after)
      → IsBalanced (record sem { value = incr sem.value }) o.after.threads address (front ++ ls)
      → RaiseOutcome sem q address r

module _ {k : Kernel} {ready_q : List ℕ} {waiting : ℕ → List ℕ} (q : Queues k ready_q waiting)
    (address : ℕ) where
  raise-wakes :
      (sem : Semaphore)
      → IsBalanced sem k.threads address (waiting (hash address))
      → is_positive (incr sem.value) ≡ false
      → suc (debt (incr sem.value)) ≡ debt sem.value
      → incr_int sem.value ≡ incr sem.value
      → RaiseOutcome sem q address (raise sem k address)
  raise-wakes sem b np shrinks small = elim (wake_lem q address) [
    | woke front w ls eq others waits o e ↦
        wakes front w ls eq others waits o shrinks (unfold raise in rw (small, np, e) refl)
          (omega (arith, one_less q address front w ls eq waits o, b, shrinks))
    | nobody out e ↦
        absurd
          (omega (arith, waiters-none k.threads address (waiting (hash address)) out, b, shrinks))
  ]

  -- With well-formed queues, as many threads of its slot waiting for the semaphore as its value is
  -- below zero, and a value below the largest int, `semaphore_V` returns: a value that is not
  -- negative grows by one and nobody is woken; otherwise the first thread that waits for the
  -- semaphore is woken, so one thread less waits, and the number of the waiting still is what the
  -- value is below zero.
  pub raise_lem :
      (sem : Semaphore)
      → IsBalanced sem k.threads address (waiting (hash address))
      → sem.value ≢ pos (2 ^ 31 - 1)
      → RaiseOutcome sem q address (raise sem k address)
  raise_lem sem b limit = go sem.value refl
    where
      go : (v : ℤ) → sem.value ≡ v → RaiseOutcome sem q address (raise sem k address)
      go (pos n) e = elim (ℕ_discrete n (2 ^ 31 - 1)) [
        | yes last ↦ absurd (limit (e ∙ ap pos last))
        | no inside ↦ frees n e (unfold raise in ground (arith, e, inside))
      ]
      go (negsuc zero) e = raise-wakes sem b (rw e refl) (rw e refl) (rw e refl)
      go (negsuc (suc n)) e = raise-wakes sem b (rw e refl) (rw e refl) (rw e refl)

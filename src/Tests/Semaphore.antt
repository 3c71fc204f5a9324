-- ===== src/Tests/Semaphore.antt =====
-- kernel/semaphore.c with one thread that waits.
use aalto_buenos.Prelude.{arith, refl, [], ◌∷◌}
use aalto_buenos.Prelude.Int.{pos, negsuc}
use aalto_buenos.Sleepq.{hash}
use aalto_buenos.Semaphore.{Semaphore, lower, raise}
use aalto_buenos.Sleepq.Waiters.{waiters}
use aalto_buenos.Semaphore.Values.{IsBalanced, LowerOutcome, lower_lem, RaiseOutcome, raise_lem}
use aalto_buenos.Tests.Threads.{entries, busy, waiting, busy-Queues, busy-IsRunner}

abbrev contended : Semaphore
contended = record { value = negsuc 0; creator = pos 2 }

contended-IsBalanced : IsBalanced contended entries 500 (waiting (hash 500))
unfolding waiters
contended-IsBalanced = refl

lower_example : LowerOutcome contended busy 1 500 (2 ∷ 3 ∷ []) waiting (lower contended busy 0 500)
lower_example =
    lower_lem busy-Queues 1 0 500 busy-IsRunner (λ e. absurd (omega (arith, e))) refl contended
      contended-IsBalanced

raise_example : RaiseOutcome contended busy-Queues 500 (raise contended busy 500)
raise_example = raise_lem busy-Queues 500 contended contended-IsBalanced (λ e. ground (arith, e))

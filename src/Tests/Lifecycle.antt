-- ===== src/Tests/Lifecycle.antt =====
-- kernel/thread.c on a small thread table.
use aalto_buenos.Prelude.{ℕ, ◌+◌, ◌%◌, ◌^◌, ◌<◌, ◌≡◌, arith, refl, [], ◌∷◌}
use aalto_buenos.Prelude.Int.{none_id}
use aalto_buenos.Threads.{Kernel, free, ready, max_threads, idle_thread_tid}
use aalto_buenos.Sleepq.Queues.{Queues}
use aalto_buenos.Scheduling.Sleepers.{Sleepers}
use aalto_buenos.Lifecycle.{sleep}
use aalto_buenos.Lifecycle.Slept.{Slept}
use aalto_buenos.Lifecycle.Sleep.{sleep_lem}
use aalto_buenos.Lifecycle.Create.{IsClean}
use aalto_buenos.Lifecycle.Boot.{started, started_lem}
use aalto_buenos.Tests.Threads.{busy, waiting, busy-Queues, busy-Sleepers}

sleep_example :
    (o : Slept busy 1 ((20 + 30) % 2 ^ 32) (5 ∷ []) (sleep busy 1 20 30)) × Queues o.after
      (2 ∷ 3 ∷ [])
      waiting
sleep_example =
    sleep_lem (5 ∷ []) 1 20 30 busy-Queues busy-Sleepers (omega arith) (omega arith) (ground arith)

abbrev empty : Kernel
empty = record busy { ready_head = none_id; ready_tail = none_id }

started_example :
    Queues (started 4096 99 empty) [] (λ h. [])
    × Sleepers (started 4096 99 empty) []
    × IsClean (started 4096 99 empty).threads
    × (((started 4096 99 empty).threads idle_thread_tid).state ≡ ready)
    × ((x : ℕ) → 0 < x → x < max_threads → ((started 4096 99 empty).threads x).state ≡ free)
started_example = started_lem 4096 99 empty refl refl

-- ===== src/Tests/Locks.antt =====
-- kernel/lock_cond.c with one thread that waits.
use aalto_buenos.Prelude.{ℕ, ◌≡◌, arith, refl, [], ◌∷◌, true}
use aalto_buenos.Prelude.Int.{pos}
use aalto_buenos.Sleepq.{hash}
use aalto_buenos.Sleepq.Waiters.{waiters}
use aalto_buenos.Locks.{Lock, lock_acquire, lock_release, lock_resume, reserved_thread}
use aalto_buenos.Locks.Ownership.{
  IsLock, ReleaseOutcome, release_lem, AcquireOutcome, acquire_lem, resume_lem,
}
use aalto_buenos.Tests.Threads.{entries, busy, waiting, busy-Queues, busy-IsRunner}

abbrev held_by : ℕ → Lock
held_by t = record {
  locked_id = pos t;
  nested_locking_count = 1;
  waiting_thread_count = 1;
  is_used = true;
}

held_by-IsLock : (t : ℕ) → IsLock (held_by t) entries 500 (waiting (hash 500))
unfolding waiters
held_by-IsLock t = record { counted = refl; open_free = λ e. absurd (ground (arith, e)) }

release_example : ReleaseOutcome (held_by 1) busy-Queues 500 (lock_release (held_by 1) busy 0 500)
release_example = release_lem busy-Queues (held_by 1) 0 500 refl (omega arith) (held_by-IsLock 1)

acquire_example :
    AcquireOutcome (held_by 3) busy 1 500 (2 ∷ 3 ∷ []) waiting (lock_acquire (held_by 3) busy 0 500)
acquire_example =
    acquire_lem busy-Queues (held_by 3) 1 0 500 busy-IsRunner (λ e. absurd (omega (arith, e))) refl
      (held_by-IsLock 3)

abbrev handed : Lock
handed = record {
  locked_id = reserved_thread;
  nested_locking_count = 0;
  waiting_thread_count = 2;
  is_used = true;
}

handed-IsLock : IsLock handed entries 500 (waiting (hash 500))
unfolding waiters
handed-IsLock = record { counted = refl; open_free = λ e. absurd (ground (arith, e)) }

resume_example :
    ((lock_resume handed 2).locked_id ≡ pos 2)
    × IsLock (lock_resume handed 2) entries 500 (waiting (hash 500))
resume_example = resume_lem handed 2 refl (omega arith) handed-IsLock

-- ===== src/Threads.antt =====
-- kernel/thread.h and the tables that kernel/thread.c, kernel/scheduler.c and kernel/sleepq.c
-- share: the thread table, whose `next` field links both the ready list and the sleep queues, and
-- whose `next_sleeper_id` field links the timed sleepers.
pub mod Links
pub mod Splice
pub mod Bounded
use aalto_buenos.Prelude.{ℕ, ◌%◌, Bool, if◌then◌else◌, ◌==◌}
use aalto_buenos.Prelude.Int.{ℤ}

-- CONFIG_MAX_THREADS
abbrev pub max_threads : ℕ
max_threads = 32

-- SLEEPQ_HASHTABLE_SIZE
abbrev pub hashtable_size : ℕ
hashtable_size = 127

abbrev pub idle_thread_tid : ℕ
idle_thread_tid = 0

abbrev pub priority_high : ℕ
priority_high = 0

abbrev pub priority_normal : ℕ
priority_normal = 1

-- `thread_state_t`
pub data ThreadState : Type 0 where
  free running ready sleeping nonready dying : ThreadState

abbrev pub is_free : ThreadState → Bool
is_free free = Bool.true
is_free _ = Bool.false

abbrev pub is_ready : ThreadState → Bool
is_ready ready = Bool.true
is_ready _ = Bool.false

abbrev pub is_sleeping : ThreadState → Bool
is_sleeping sleeping = Bool.true
is_sleeping _ = Bool.false

abbrev pub is_dying : ThreadState → Bool
is_dying dying = Bool.true
is_dying _ = Bool.false

-- The part of `context_t` that the kernel's C code writes; a new thread's other registers are 0.
pub record Context : Type 0 where
  pub sp : ℕ
  pub ra : ℕ
  pub a0 : ℕ
  pub pc : ℕ
  pub status : ℕ
  pub prev_context : ℕ

-- `thread_table_t`. A pointer is 0 where it is NULL.
pub record Thread : Type 0 where
  pub context : Context
  pub user_context : ℕ
  pub state : ThreadState
  pub sleeps_on : ℕ
  pub pagetable : ℕ
  pub process_id : ℤ
  pub next : ℤ
  pub next_sleeper_id : ℤ
  pub wakeup_time : ℕ
  pub priority : ℕ
  pub userland_pid : ℤ

-- A table indexed by number, and a write to it.
abbrev pub update {ℓ} : {A : Type ℓ} → (ℕ → A) → ℕ → A → ℕ → A
update f i a j = if i == j then a else f j

-- `thread_table`, `sleepq_hashtable`, `scheduler_ready_to_run`, `scheduler_current_thread` and
-- `thread_next_sleeper_id`. Entries past the end of an array are never read: the theorems keep
-- every index below its bound.
pub record Kernel : Type 0 where
  pub threads : ℕ → Thread
  pub sleepq : ℕ → ℤ
  pub ready_head : ℤ
  pub ready_tail : ℤ
  pub current : ℕ → ℕ
  pub next_sleeper : ℤ

abbrev pub set_next : (ℕ → Thread) → ℕ → ℤ → ℕ → Thread
set_next threads t n = update threads t (record (threads t) { next = n })

abbrev pub set_state : (ℕ → Thread) → ℕ → ThreadState → ℕ → Thread
set_state threads t s = update threads t (record (threads t) { state = s })

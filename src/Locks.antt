-- ===== src/Locks.antt =====
-- kernel/lock_cond.c: locks that their holder may take again, and condition variables, over the
-- sleep queues. The resource of a lock or condition is the address of its spinlock. `lock_acquire`
-- and `condition_wait` are modelled in parts, before and behind the point where the thread sleeps.
pub mod Ownership
use aalto_buenos.Prelude.{
  ℕ, zero, suc, ◌+◌, ◌-◌, ◌%◌, ◌^◌, Bool, true, false, not, if◌then◌else◌, ltb, ◌==◌, Option, none,
  some, Result, ok, panic, assert, ◌>>=◌, ◌>>◌,
}
use aalto_buenos.Prelude.Int.{ℤ, pos, negsuc, eq_ℤ}
use aalto_buenos.Threads.{Kernel, update}
use aalto_buenos.Sleepq

-- CONFIG_MAX_LOCKS; CONFIG_MAX_CONDITION_VARIABLES is the same number
abbrev pub max_locks : ℕ
max_locks = 128

-- LOCK_NO_THREAD and LOCK_RESERVED_THREAD
abbrev pub no_thread : ℤ
no_thread = negsuc 0

abbrev pub reserved_thread : ℤ
reserved_thread = negsuc 1

-- `lock_t` and `cond_t`
pub record Lock : Type 0 where
  pub locked_id : ℤ
  pub nested_locking_count : ℕ
  pub waiting_thread_count : ℕ
  pub is_used : Bool

pub record Cond : Type 0 where
  pub waiting_thread_count : ℕ
  pub is_used : Bool

-- `++` and `--` on a `uint32_t`
abbrev pub succ32 : ℕ → ℕ
succ32 n = (n + 1) % 2 ^ 32

abbrev pub pred32 : ℕ → ℕ
pred32 n = (n + (2 ^ 32 - 1)) % 2 ^ 32

abbrev pub unused_lock : Lock
unused_lock = record {
  locked_id = no_thread;
  nested_locking_count = 0;
  waiting_thread_count = 0;
  is_used = false;
}

-- The loops of `lock_table_init` and `cond_table_init`, with `n` rounds left.
unfoldable pub lock_table_init : ℕ → ℕ → (ℕ → Lock) → ℕ → Lock
lock_table_init zero i table = table
lock_table_init (suc n) i table = lock_table_init n (i + 1) (update table i unused_lock)

unfoldable pub cond_table_init : ℕ → ℕ → (ℕ → Cond) → ℕ → Cond
cond_table_init zero i table = table
cond_table_init (suc n) i table =
    cond_table_init n (i + 1)
      (update table i (record { waiting_thread_count = 0; is_used = false }))

-- `lock_create` from entry `i` on, with `n` rounds left
unfoldable pub lock_create : ℕ → ℕ → (ℕ → Lock) → Result (ℕ × (ℕ → Lock))
lock_create zero i table = panic
lock_create (suc n) i table =
    let rest = lock_create n (i + 1) table in
    if (table i).is_used then rest else ok (i, update table i (record (table i) { is_used = true }))

unfoldable pub lock_destroy : Lock → Result Lock
lock_destroy lock = do assert (eq_ℤ lock.locked_id no_thread); ok (record lock { is_used = false })

-- `lock_acquire` on processor `cpu`, up to its return or to the point where the thread gives up the
-- processor, which the last component says.
unfoldable pub lock_acquire : Lock → Kernel → ℕ → ℕ → Result (Lock × Kernel × Bool)
lock_acquire lock k cpu address =
    let me = pos (k.current cpu) in
    if eq_ℤ lock.locked_id no_thread
    then ok (record lock { locked_id = me; nested_locking_count = 1 }, k, false)
    else if eq_ℤ lock.locked_id me
    then ok (record lock { nested_locking_count = succ32 lock.nested_locking_count }, k, false)
    else (do
      k' ← Sleepq.add k true cpu address
      ok (record lock { waiting_thread_count = succ32 lock.waiting_thread_count }, k', true))

-- The rest of `lock_acquire` when thread `me` has been woken.
unfoldable pub lock_resume : Lock → ℕ → Lock
lock_resume lock me = record lock {
  waiting_thread_count = pred32 lock.waiting_thread_count;
  locked_id = pos me;
  nested_locking_count = 1;
}

unfoldable pub lock_release : Lock → Kernel → ℕ → ℕ → Result (Lock × Kernel)
lock_release lock k cpu address = do
  assert (eq_ℤ lock.locked_id (pos (k.current cpu)))
  if ltb 1 lock.nested_locking_count
      then ok (record lock { nested_locking_count = pred32 lock.nested_locking_count }, k)
      else if ltb 0 lock.waiting_thread_count
      then (do
        k' ← Sleepq.wake k address
        ok (record lock { nested_locking_count = 0; locked_id = reserved_thread }, k'))
      else ok (record lock { nested_locking_count = 0; locked_id = no_thread }, k)

-- `condition_create` from entry `i` on, with `n` rounds left
unfoldable pub condition_create : ℕ → ℕ → (ℕ → Cond) → Result (ℕ × (ℕ → Cond))
condition_create zero i table = panic
condition_create (suc n) i table =
    let rest = condition_create n (i + 1) table in
    if (table i).is_used then rest else ok (i, update table i (record (table i) { is_used = true }))

unfoldable pub condition_destroy : Option Cond → Result Cond
condition_destroy none = panic
condition_destroy (some cond) = do
  assert (cond.waiting_thread_count == 0)
  ok (record cond { is_used = false })

-- `condition_wait` up to the point where the thread gives up the processor; woken, it calls
-- `lock_acquire`. The addresses are those of the condition and of the lock.
unfoldable pub condition_wait : Cond → Lock → Kernel → ℕ → ℕ → ℕ → Result (Cond × Lock × Kernel)
unfolding lock_release
condition_wait cond lock k cpu cond_address lock_address = do
  k' ← Sleepq.add k true cpu cond_address
  (lock', k'') ← lock_release lock k' cpu lock_address
  ok (record cond { waiting_thread_count = succ32 cond.waiting_thread_count }, lock', k'')

unfoldable pub condition_signal : Cond → Kernel → ℕ → Result (Cond × Kernel)
condition_signal cond k address =
    if ltb 0 cond.waiting_thread_count
    then (do
      k' ← Sleepq.wake k address
      ok (record cond { waiting_thread_count = pred32 cond.waiting_thread_count }, k'))
    else ok (cond, k)

unfoldable pub condition_broadcast : Cond → Kernel → ℕ → Result (Cond × Kernel)
condition_broadcast cond k address =
    if ltb 0 cond.waiting_thread_count
    then (do k' ← Sleepq.wake_all k address; ok (record cond { waiting_thread_count = 0 }, k'))
    else ok (cond, k)

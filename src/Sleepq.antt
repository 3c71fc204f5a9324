-- ===== src/Sleepq.antt =====
-- kernel/sleepq.c: threads that wait for a resource, in a hash table of linked lists. Each function
-- holds `sleepq_slock` with interrupts off, and the wake-ups `thread_table_slock` as well, so each
-- is one step. A resource is an address, used as a key only.
pub mod Queues
pub mod Add
pub mod Readied
pub mod Search
pub mod Unlink
pub mod Wake
pub mod WakeOne
pub mod WakeAll
pub mod WakeLoop
pub mod Waiters
pub mod Counting
use aalto_buenos.Prelude.{
  ℕ, zero, suc, ◌+◌, ◌%◌, Bool, true, false, not, if◌then◌else◌, ◌==◌, Result, ok, panic, hang,
  assert, ◌>>=◌, ◌>>◌,
}
use aalto_buenos.Prelude.Int.{ℤ, pos, none_id, is_positive, to_index}
use aalto_buenos.Threads.{
  Kernel, Thread, ThreadState, ready, is_sleeping, update, set_next, set_state, max_threads,
  hashtable_size, idle_thread_tid,
}
use aalto_buenos.Scheduler.{add_to_ready_list}

abbrev pub hash : ℕ → ℕ
hash resource = resource % hashtable_size

-- `for (i = i0; i < i0 + n; i++) sleepq_hashtable[i] = -1;`
unfoldable pub clear_table : ℕ → ℕ → (ℕ → ℤ) → ℕ → ℤ
clear_table zero i table = table
clear_table (suc n) i table = clear_table n (i + 1) (update table i none_id)

unfoldable pub init : Kernel → Kernel
unfolding clear_table
init k = record k { sleepq = clear_table hashtable_size 0 k.sleepq }

-- `while (thread_table[prev].next > 0) prev = thread_table[prev].next;`
unfoldable pub find_tail : ℕ → (ℕ → Thread) → ℕ → Result ℕ
find_tail zero threads prev = hang
find_tail (suc fuel) threads prev =
    let next = (threads prev).next in
    let rest = find_tail fuel threads (to_index next) in if is_positive next then rest else ok prev

-- `masked` says that interrupts are off on this processor, `cpu` which it is.
unfoldable pub add : Kernel → Bool → ℕ → ℕ → Result Kernel
add k masked cpu resource = do
  assert masked
  let my_tid = k.current cpu
  let entry = record (k.threads my_tid) { next = none_id; sleeps_on = resource }
  let threads = update k.threads my_tid entry
  assert (not (my_tid == idle_thread_tid))
  let head = k.sleepq (hash resource)
  if not (is_positive head)
      then ok
          (record k { threads = threads; sleepq = update k.sleepq (hash resource) (pos my_tid) })
      else (do
        prev ← find_tail max_threads threads (to_index head)
        ok (record k { threads = set_next threads prev (pos my_tid) }))

-- `while (first > 0 && thread_table[first].sleeps_on != resource)`, with the `prev` and `first`
-- that it ends with
unfoldable pub find_waiter : ℕ → (ℕ → Thread) → ℕ → ℤ → ℤ → Result (ℤ × ℤ)
find_waiter zero threads resource prev first = hang
find_waiter (suc fuel) threads resource prev first =
    let rest = find_waiter fuel threads resource first (threads (to_index first)).next in
    if is_positive first
    then if (threads (to_index first)).sleeps_on == resource then ok (prev, first) else rest
    else ok (prev, first)

-- Takes thread `w` out of its queue and clears its entry.
unfoldable pub unlink : Kernel → ℕ → ℤ → ℕ → Kernel
unlink k slot prev w =
    let next = (k.threads w).next in
    let threads = if is_positive prev then set_next k.threads (to_index prev) next else k.threads in
    record k {
      sleepq = if is_positive prev then k.sleepq else update k.sleepq slot next;
      threads = update threads w (record (threads w) { sleeps_on = 0; next = none_id });
    }

-- What both wake-ups do with the thread that they find: it is readied if it has gone to sleep
-- already, and goes on running if it has not.
unfoldable pub wake_thread : Kernel → ℕ → ℤ → ℕ → Result Kernel
unfolding unlink
wake_thread k slot prev w =
    let u = unlink k slot prev w in
    if is_sleeping (u.threads w).state
    then add_to_ready_list (record u { threads = set_state u.threads w ready }) (pos w)
    else ok u

unfoldable pub wake : Kernel → ℕ → Result Kernel
wake k resource = do
  (prev, first) ←
      find_waiter (max_threads + 1) k.threads resource none_id (k.sleepq (hash resource))
  if is_positive first then wake_thread k (hash resource) prev (to_index first) else ok k

-- The outer loop of `sleepq_wake_all`. Its test fails after a search that finds no waiter.
unfoldable pub wake_loop : ℕ → Kernel → ℕ → ℤ → ℤ → Result Kernel
wake_loop zero k resource prev first = hang
wake_loop (suc fuel) k resource prev first =
    if is_positive first
    then (do
      (prev', first') ← find_waiter (max_threads + 1) k.threads resource prev first
      if is_positive first'
          then (do
            k' ← wake_thread k (hash resource) prev' (to_index first')
            wake_loop fuel k' resource prev' (k.threads (to_index first')).next)
          else ok k)
    else ok k

unfoldable pub wake_all : Kernel → ℕ → Result Kernel
wake_all k resource = wake_loop (max_threads + 1) k resource none_id (k.sleepq (hash resource))

-- ===== src/Scheduler.antt =====
-- kernel/scheduler.c: the ready list, the timed sleepers and the choice of the next thread. Each
-- function runs with interrupts off and `thread_table_slock` held, so it is one step.
pub mod Enqueue
pub mod Splicing
pub mod ReadyList
pub mod Dequeue
use aalto_buenos.Prelude.{
  ℕ, zero, suc, ◌+◌, Bool, true, false, ◌&&◌, not, if◌then◌else◌, ltb, ◌==◌, Result, ok, panic,
  hang, assert, ◌>>=◌, ◌>>◌,
}
use aalto_buenos.Prelude.Int.{ℤ, pos, negsuc, none_id, is_negative, eq_ℤ, to_index}
use aalto_buenos.Threads.{
  Kernel, Thread, ThreadState, free, running, ready, sleeping, is_ready, is_dying, update, set_next,
  set_state, max_threads, idle_thread_tid, priority_high,
}

-- The walk from `curr` along the threads of high priority; where it stops is the result.
unfoldable pub last_high : ℕ → (ℕ → Thread) → ℕ → Result ℕ
last_high zero threads curr = hang
last_high (suc fuel) threads curr =
    let next = (threads curr).next in
    let rest = last_high fuel threads (to_index next) in
    if not (eq_ℤ next none_id) && (threads (to_index next)).priority == priority_high
    then rest
    else ok curr

-- `scheduler_add_to_ready_list` past its assertions
unfoldable pub link_ready : Kernel → ℕ → Result Kernel
link_ready k t =
    let head = to_index k.ready_head in
    if is_negative k.ready_tail
    then ok (record k {
      ready_head = pos t;
      ready_tail = pos t;
      threads = set_next k.threads t none_id;
    })
    else if (k.threads t).priority == priority_high
    then if (k.threads head).priority == priority_high
      then (do
        curr ← last_high max_threads k.threads head
        let next = (k.threads curr).next
        ok (record k {
          threads = set_next (set_next k.threads curr (pos t)) t next;
          ready_tail = if eq_ℤ next none_id then pos t else k.ready_tail;
        }))
      else ok (record k { threads = set_next k.threads t k.ready_head; ready_head = pos t })
    else ok (record k {
      threads = set_next (set_next k.threads (to_index k.ready_tail) (pos t)) t none_id;
      ready_tail = pos t;
    })

unfoldable pub add_to_ready_list : Kernel → ℤ → Result Kernel
add_to_ready_list k t = do
  assert (not (eq_ℤ t (pos idle_thread_tid)))
  assert (not (is_negative t) && ltb (to_index t) max_threads)
  link_ready k (to_index t)

-- The thread that is removed, or the idle thread.
unfoldable pub remove_first_ready : Kernel → Result (ℕ × Kernel)
remove_first_ready k = do
  let t = k.ready_head
  assert (not (eq_ℤ t (pos idle_thread_tid)))
  if is_negative t then ok (idle_thread_tid, k) else (do
    assert (is_ready (k.threads (to_index t)).state)
    ok (
      to_index t,
      record k {
        ready_tail = if eq_ℤ k.ready_tail t then none_id else k.ready_tail;
        ready_head = (k.threads (to_index t)).next;
      },
    ))

-- `scheduler_add_ready`, and `thread_run`, which calls it
unfoldable pub add_ready : Kernel → ℤ → Result Kernel
add_ready k t = do
  k' ← add_to_ready_list k t
  ok (record k' { threads = set_state k'.threads (to_index t) ready })

-- The loop of `scheduler_wakeup_expired_sleepers`.
unfoldable pub wakeup_loop : ℕ → ℕ → Kernel → Result Kernel
wakeup_loop zero cur_time k = hang
wakeup_loop (suc fuel) cur_time k =
    let t = to_index k.next_sleeper in
    let woken = record (k.threads t) { next_sleeper_id = none_id; wakeup_time = 0 } in
    if eq_ℤ k.next_sleeper none_id
    then ok k
    else if ltb (k.threads t).wakeup_time cur_time
    then (do
      k' ← add_to_ready_list (record k { threads = update k.threads t woken }) k.next_sleeper
      wakeup_loop fuel cur_time (record k' {
        threads = set_state k'.threads t ready;
        next_sleeper = (k.threads t).next_sleeper_id;
      }))
    else ok k

-- `cur_time` is what `rtc_get_msec` returns.
unfoldable pub wakeup_expired_sleepers : Kernel → ℕ → Result Kernel
wakeup_expired_sleepers k cur_time = wakeup_loop (max_threads + 1) cur_time k

-- What `scheduler_schedule` does with the thread that it takes the processor from.
unfoldable pub leave : Kernel → ℕ → ℕ → Result Kernel
leave k t cur_time =
    let th = k.threads t in
    if is_dying th.state
    then ok (record k { threads = set_state k.threads t free })
    else if not (th.sleeps_on == 0)
    then ok (record k { threads = set_state k.threads t sleeping })
    else if not (th.wakeup_time == 0)
    then ok (record k { threads = set_state k.threads t sleeping })
    else (do
      k' ←
          (if t == idle_thread_tid
            then wakeup_expired_sleepers k cur_time
            else add_to_ready_list k (pos t))
      ok (record k' { threads = set_state k'.threads t ready }))

-- The timer is set for the next slice at the end; its length is a random number of the hardware's.
unfoldable pub schedule : Kernel → ℕ → ℕ → Result Kernel
unfolding leave
schedule k cpu cur_time = do
  left ← leave k (k.current cpu) cur_time
  (t, k') ← remove_first_ready left
  ok (record k' { threads = set_state k'.threads t running; current = update k'.current cpu t })

-- ===== src/Lifecycle.antt =====
-- kernel/thread.c: the thread table at the start, the creation, the timed sleep and the end of a
-- thread. The addresses of `thread_stack_areas`, `thread_finish` and `_idle_thread_wait_loop` are
-- the linker's, so they are arguments. What needs no lock is one step with what holds it.
pub mod Create
pub mod Boot
pub mod Walk
pub mod Order
pub mod Slept
pub mod Sleep
use aalto_buenos.Prelude.{
  ℕ, zero, suc, ◌+◌, ◌-◌, ◌*◌, ◌%◌, ◌^◌, Bool, true, false, ◌||◌, not, if◌then◌else◌, ltb, ◌==◌,
  Result, ok, hang, assert, ◌>>=◌, ◌>>◌,
}
use aalto_buenos.Prelude.Int.{ℤ, pos, none_id, is_negative, eq_ℤ, to_index}
use aalto_buenos.Threads.{
  Kernel, Thread, ThreadState, Context, free, ready, nonready, dying, is_free, update, max_threads,
  idle_thread_tid, priority_high, priority_normal,
}

-- CONFIG_THREAD_STACKSIZE
abbrev pub stack_size : ℕ
stack_size = 4096

-- `sizeof(context_t)`: 34 words
abbrev pub context_size : ℕ
context_size = 136

-- INTERRUPT_MASK_ALL | INTERRUPT_MASK_MASTER
abbrev pub all_interrupts : ℕ
all_interrupts = 0xff01

-- where the context of a thread that is in no exception lies
abbrev pub context_address : ℕ → ℕ → ℕ
context_address stacks tid = (stacks + stack_size * tid + stack_size - context_size) % 2 ^ 32

abbrev pub stack_pointer : ℕ → ℕ → ℕ
stack_pointer stacks tid = (stacks + stack_size * tid + stack_size - 4 - context_size) % 2 ^ 32

-- The body of the loop of `thread_table_init`. The context is memory that is not written here.
abbrev pub initial_entry : Context → Thread
initial_entry context = record {
  context = context;
  user_context = 0;
  state = free;
  sleeps_on = 0;
  pagetable = 0;
  process_id = none_id;
  next = none_id;
  next_sleeper_id = none_id;
  wakeup_time = 0;
  priority = priority_normal;
  userland_pid = none_id;
}

-- `for (i = i0; i < i0 + n; i++)`
unfoldable pub init_entries : ℕ → ℕ → (ℕ → Thread) → ℕ → Thread
init_entries zero i threads = threads
init_entries (suc n) i threads =
    init_entries n (i + 1) (update threads i (initial_entry (threads i).context))

-- `thread_table_init`
unfoldable pub init : ℕ → ℕ → Kernel → Kernel
unfolding init_entries
init stacks wait_loop k =
    let threads = init_entries max_threads 0 k.threads in
    let idle = threads idle_thread_tid in
    let context = record (idle.context) {
      sp = stack_pointer stacks idle_thread_tid;
      pc = wait_loop;
      status = all_interrupts;
      prev_context = context_address stacks idle_thread_tid;
    } in
    record k {
      next_sleeper = none_id;
      threads = update threads idle_thread_tid (record idle { context = context; state = ready });
    }

-- The search for a free entry from `next_tid` on, with `n` rounds left from round `i`; -1 if there
-- is none.
unfoldable pub find_free : ℕ → ℕ → ℕ → (ℕ → Thread) → ℤ
find_free zero i next_tid threads = none_id
find_free (suc n) i next_tid threads =
    let t = (i + next_tid) % max_threads in
    let rest = find_free n (i + 1) next_tid threads in
    if t == idle_thread_tid then rest else if is_free (threads t).state then pos t else rest

-- The entry of a new thread.
abbrev pub new_entry : ℕ → ℕ → ℕ → ℕ → ℕ → ℕ → Thread → Thread
new_entry stacks finish tid func arg priority entry = record entry {
  context = record {
    sp = (stacks + stack_size * tid + stack_size - 4 - context_size - 4) % 2 ^ 32;
    ra = finish;
    a0 = arg;
    pc = func;
    status = all_interrupts;
    prev_context = context_address stacks tid;
  };
  user_context = 0;
  state = nonready;
  pagetable = 0;
  sleeps_on = 0;
  process_id = none_id;
  next = none_id;
  priority = priority;
}

-- `thread_create_with_priority`, with its static `next_tid`: the thread or -1, and the new
-- `next_tid`.
unfoldable pub create_with_priority : ℕ → ℕ → ℕ → Kernel → ℕ → ℕ → ℕ → Result (ℤ × ℕ × Kernel)
unfolding find_free
create_with_priority stacks finish next_tid k func arg p =
    let found = find_free max_threads 0 next_tid k.threads in
    let tid = to_index found in
    let entry = new_entry stacks finish tid func arg p (k.threads tid) in
    if is_negative found then ok (found, next_tid, k) else (do
      assert (p == priority_high || p == priority_normal)
      ok (found, (tid + 1) % max_threads, record k { threads = update k.threads tid entry }))

-- `thread_create`, with a static `next_tid` of its own
unfoldable pub create : ℕ → ℕ → ℕ → Kernel → ℕ → ℕ → Result (ℤ × ℕ × Kernel)
unfolding find_free
create stacks finish next_tid k func arg =
    let found = find_free max_threads 0 next_tid k.threads in
    let tid = to_index found in
    let entry = new_entry stacks finish tid func arg priority_normal (k.threads tid) in
    if is_negative found
    then ok (found, next_tid, k)
    else ok (found, (tid + 1) % max_threads, record k { threads = update k.threads tid entry })

-- What `thread_finish` does before it gives up the processor for good.
unfoldable pub finish : Kernel → ℕ → Result Kernel
finish k my_tid = do
  assert ((k.threads my_tid).pagetable == 0)
  ok (record k { threads = update k.threads my_tid (record (k.threads my_tid) { state = dying }) })

-- The `while (1)` of `thread_sleep`: `it`, `prev`, `is_tail` and `is_top` when it is left.
unfoldable pub find_place : ℕ → (ℕ → Thread) → ℕ → ℕ → ℤ → Bool → Result (ℕ × ℤ × Bool × Bool)
find_place zero threads wakeup_time it prev is_top = hang
find_place (suc fuel) threads wakeup_time it prev is_top =
    let next = (threads it).next_sleeper_id in
    let rest = find_place fuel threads wakeup_time (to_index next) (pos it) false in
    if ltb wakeup_time (threads it).wakeup_time
    then ok (it, prev, false, is_top)
    else if eq_ℤ next none_id
    then ok (it, prev, true, is_top)
    else rest

abbrev pub set_next_sleeper : (ℕ → Thread) → ℕ → ℤ → ℕ → Thread
set_next_sleeper threads t n = update threads t (record (threads t) { next_sleeper_id = n })

-- `thread_sleep` up to the point where it gives up the processor; `cur_time` is the clock's.
unfoldable pub sleep : Kernel → ℕ → ℕ → ℕ → Result Kernel
sleep k my_tid cur_time milliseconds =
    let wakeup_time = (cur_time + milliseconds) % 2 ^ 32 in
    let entry = record (k.threads my_tid) { wakeup_time = wakeup_time } in
    let threads = update k.threads my_tid entry in
    if eq_ℤ k.next_sleeper none_id
    then ok
        (record k { next_sleeper = pos my_tid; threads = set_next_sleeper threads my_tid none_id })
    else (do
      (it, prev, is_tail, is_top) ←
          find_place (max_threads + 1) threads wakeup_time (to_index k.next_sleeper) none_id true
      if is_tail
          then ok (record k {
            threads = set_next_sleeper (set_next_sleeper threads it (pos my_tid)) my_tid none_id;
          })
          else if is_top
          then ok (record k {
            threads = set_next_sleeper threads my_tid k.next_sleeper;
            next_sleeper = pos my_tid;
          })
          else (do
            assert (not (eq_ℤ prev none_id))
            ok (record k {
              threads =
                  set_next_sleeper (set_next_sleeper threads my_tid (pos it)) (to_index prev)
                    (pos my_tid);
            })))

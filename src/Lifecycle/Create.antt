-- ===== src/Lifecycle/Create.antt =====
-- `thread_create` and `thread_create_with_priority`: which entry a new thread gets, and the
-- queues beside it.
use aalto_buenos.Prelude.{
  ℕ, ◌+◌, ◌*◌, ◌%◌, ◌≤◌, ◌<◌, ◌≡◌, ◌≢◌, ◌⊎◌, refl, List, true, false, Result, ok,
}
use aalto_buenos.Prelude.Int.{ℤ, pos, none_id}
use aalto_buenos.Threads.{
  Kernel, Thread, is_free, update, max_threads, idle_thread_tid, priority_normal, nonready,
}
use aalto_buenos.Sleepq.Queues.{Queues}
use aalto_buenos.Scheduling.Sleepers.{Sleepers}
use aalto_buenos.Lifecycle.{create_with_priority, create, new_entry, stack_size, context_size}

-- An entry that the search passes by.
abbrev pub IsTaken : (ℕ → Thread) → ℕ → Type 0
IsTaken threads t = (t ≡ idle_thread_tid) ⊎ (is_free (threads t).state ≡ false)

-- The search meets the entries in a circle from `next_tid` on.
abbrev pub entry_at : ℕ → ℕ → ℕ
entry_at next_tid j = (j + next_tid) % max_threads

pub data Search (threads : ℕ → Thread) (next_tid i n : ℕ) (r : ℤ) : Type 0 where
  hit :
      (j : ℕ)
      → j < i + n
      → entry_at next_tid j ≢ idle_thread_tid
      → is_free (threads (entry_at next_tid j)).state ≡ true
      → ((m : ℕ) → i ≤ m → m < j → IsTaken threads (entry_at next_tid m))
      → r ≡ pos (entry_at next_tid j)
      → Search threads next_tid i n r
  full :
      ((m : ℕ) → i ≤ m → m < i + n → IsTaken threads (entry_at next_tid m))
      → r ≡ none_id
      → Search threads next_tid i n r

-- A free entry waits for nothing.
abbrev pub IsClean : (ℕ → Thread) → Type 0
IsClean threads =
    (x : ℕ) → x < max_threads → is_free (threads x).state ≡ true → (threads x).sleeps_on ≡ 0

abbrev with_entry : Kernel → ℕ → Thread → Kernel
with_entry k t e = record k { threads = update k.threads t e }

-- The entry of a new thread `t` that starts with `func arg` and ends in `finish`: it waits for nothing,
-- is in no list and belongs to no process, and its context stands on its own stack.
pub record IsNewEntry (stacks finish func arg p t : ℕ) (old new : Thread) : Type 0 where
  pub starts_at : new.context.pc ≡ func
  pub argument : new.context.a0 ≡ arg
  pub returns_to : new.context.ra ≡ finish
  pub interrupts : new.context.status ≡ 0xff01
  pub stack : new.context.sp + (4 + context_size + 4) ≡ stacks + stack_size * (t + 1)
  pub saved : new.context.prev_context + context_size ≡ stacks + stack_size * (t + 1)
  pub in_kernel : (new.user_context ≡ 0) × (new.pagetable ≡ 0) × (new.process_id ≡ none_id)
  pub waits : (new.state ≡ nonready) × (new.sleeps_on ≡ 0) × (new.next ≡ none_id)
  pub priority : new.priority ≡ p
  pub kept :
      (new.next_sleeper_id ≡ old.next_sleeper_id)
      × (new.wakeup_time ≡ old.wakeup_time)
      × (new.userland_pid ≡ old.userland_pid)

-- How the creation of a thread of priority `p` ends.
pub data Creation (k : Kernel) (stacks finish next_tid func arg p : ℕ) (ready_q ts : List ℕ)
    (waiting : ℕ → List ℕ) (r : Result (ℤ × ℕ × Kernel)) : Type 0 where
  made :
      (j t : ℕ) (k' : Kernel)
      → j < max_threads
      → t ≡ entry_at next_tid j
      → 0 < t
      → is_free (k.threads t).state ≡ true
      → ((m : ℕ) → m < j → IsTaken k.threads (entry_at next_tid m))
      → r ≡ ok (pos t, (t + 1) % max_threads, k')
      → IsNewEntry stacks finish func arg p t (k.threads t) (k'.threads t)
      → ((x : ℕ) → t ≢ x → k'.threads x ≡ k.threads x)
      → Queues k' ready_q waiting
      → Sleepers k' ts
      → IsClean k'.threads
      → Creation k stacks finish next_tid func arg p ready_q ts waiting r
  table_full :
      ((t : ℕ) → 0 < t → t < max_threads → is_free (k.threads t).state ≡ false)
      → r ≡ ok (none_id, next_tid, k)
      → Creation k stacks finish next_tid func arg p ready_q ts waiting r

module _ {k : Kernel} {ready_q ts : List ℕ} {waiting : ℕ → List ℕ} (q : Queues k ready_q waiting)
    (s : Sleepers k ts) (clean : IsClean k.threads) (stacks finish func arg p t : ℕ)
    (lt : t < max_threads) (fr : is_free (k.threads t).state ≡ true) where
  entry : Thread
  entry = new_entry stacks finish t func arg p (k.threads t)

-- `thread_create` is `thread_create_with_priority` with normal priority, for one and the same value
-- of their static counters.
pub create-normal :
    (stacks finish next_tid : ℕ) (k : Kernel) (func arg : ℕ)
    → create stacks finish next_tid k func arg
      ≡ create_with_priority stacks finish next_tid k func arg priority_normal
unfolding create create_with_priority
create-normal stacks finish next_tid k func arg = refl

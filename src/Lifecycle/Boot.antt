-- ===== src/Lifecycle/Boot.antt =====
-- The tables after `thread_table_init` and `sleepq_init`, as the kernel starts.
use aalto_buenos.Prelude.{ℕ, zero, suc, ◌+◌, ◌<◌, ◌≡◌, refl, ap, arith, [], ℕ_discrete}
use aalto_buenos.Prelude.Int.{ℤ, none_id}
use aalto_buenos.Threads.{
  Kernel, Thread, free, ready, update, max_threads, hashtable_size, idle_thread_tid,
}
use aalto_buenos.Sleepq
use aalto_buenos.Sleepq.{clear_table}
use aalto_buenos.Sleepq.Queues.{Queues}
use aalto_buenos.Scheduling.Sleepers.{Sleepers}
use aalto_buenos.Lifecycle
use aalto_buenos.Lifecycle.{init_entries, initial_entry}
use aalto_buenos.Lifecycle.Create.{IsClean}

clear_table_lem :
    (n i : ℕ) (table : ℕ → ℤ) (h : ℕ)
    → h < n + i
    → (h < i → table h ≡ none_id)
    → clear_table n i table h ≡ none_id
unfolding clear_table
clear_table_lem zero i table h lt done = done (omega arith)
clear_table_lem (suc n) i table h lt done =
    clear_table_lem n (i + 1) (update table i none_id) h (omega arith) cleared
  where
    cleared : h < i + 1 → update table i none_id h ≡ none_id
    cleared below = elim (ℕ_discrete i h) [
      | yes e ↦ ground (arith, e)
      | no ne ↦ ground (arith, ne, done (omega arith))
    ]

-- Every entry below `i + n` is as `thread_table_init` leaves it.
init_entries_lem :
    (n i : ℕ) (threads : ℕ → Thread) (x : ℕ)
    → x < n + i
    → (x < i → threads x ≡ initial_entry (threads x).context)
    → init_entries n i threads x ≡ initial_entry (init_entries n i threads x).context
unfolding init_entries
init_entries_lem zero i threads x lt done = done (omega arith)
init_entries_lem (suc n) i threads x lt done =
    init_entries_lem n (i + 1) (update threads i (initial_entry (threads i).context)) x
      (omega arith) written
  where
    written :
        x < i + 1
        → update threads i (initial_entry (threads i).context) x
          ≡ initial_entry (update threads i (initial_entry (threads i).context) x).context
    written below = elim (ℕ_discrete i x) [
      | yes e ↦ ground (arith, e)
      | no ne ↦ ground (arith, ne, done (omega arith))
    ]

-- The kernel with its tables set up.
abbrev pub started : ℕ → ℕ → Kernel → Kernel
started stacks wait_loop k = Sleepq.init (Lifecycle.init stacks wait_loop k)

-- With an empty ready list, `thread_table_init` and then `sleepq_init` establish the invariants:
-- the queues and the list of sleepers are empty and well formed, no free entry waits for anything,
-- the idle thread is ready and every other entry of the table is free.
pub started_lem :
    (stacks wait_loop : ℕ) (k : Kernel)
    → k.ready_head ≡ none_id
    → k.ready_tail ≡ none_id
    → Queues (started stacks wait_loop k) [] (λ h. [])
      × Sleepers (started stacks wait_loop k) []
      × IsClean (started stacks wait_loop k).threads
      × (((started stacks wait_loop k).threads idle_thread_tid).state ≡ ready)
      × ((x : ℕ) → 0 < x → x < max_threads → ((started stacks wait_loop k).threads x).state ≡ free)
unfolding Sleepq.init Lifecycle.init
started_lem stacks wait_loop k eh et = (
  record {
    ready_list = record { chain = eh; tail = et; distinct = tt; below = tt };
    ready_states = tt;
    ready_awake = tt;
    slots = λ h lt. record {
      chain = clear_table_lem hashtable_size 0 k.sleepq h (omega arith) (λ b. absurd (omega arith));
      distinct = tt;
      below = tt;
      waits = tt;
    };
  },
  record { chain = refl; distinct = tt; below = tt; sorted = tt },
  clean,
  ground arith,
  others,
)
  where
    entry :
        (x : ℕ)
        → x < max_threads
        → init_entries max_threads 0 k.threads x
          ≡ initial_entry (init_entries max_threads 0 k.threads x).context
    entry x lt =
        init_entries_lem max_threads 0 k.threads x (omega arith) (λ b. absurd (omega arith))

    others :
        (x : ℕ) → 0 < x → x < max_threads → ((started stacks wait_loop k).threads x).state ≡ free
    others x pt lt =
        unfold Sleepq.init Lifecycle.init in
        ground (arith, pt, ap (λ (t : Thread). t.state) (entry x lt))

    clean : IsClean (started stacks wait_loop k).threads
    clean x lt e =
        unfold Sleepq.init Lifecycle.init in
        ground (arith, ap (λ (t : Thread). t.sleeps_on) (entry x lt))

-- ===== src/Tests/Threads.antt =====
-- kernel/scheduler.c, kernel/sleepq.c and kernel/thread.c on a small thread table.
use mathlib.Core.Path.{subst}
use aalto_buenos.Prelude.{
  ℕ, ◌<◌, ◌≡◌, arith, refl, List, [], ◌∷◌, ◌++◌, true, ok, ◌==◌, if◌then◌else◌, ℕ_discrete,
}
use aalto_buenos.Prelude.Int.{pos, none_id}
use aalto_buenos.Threads.{
  Thread, Kernel, ThreadState, running, ready, sleeping, free, update, hashtable_size,
}
use aalto_buenos.Scheduler.{schedule, wakeup_expired_sleepers}
use aalto_buenos.Scheduler.Enqueue.{ReadyList}
use aalto_buenos.Scheduler.ReadyList.{Added, add_to_ready_list_lem}
use aalto_buenos.Sleepq.{hash, add, wake_all}
use aalto_buenos.Sleepq.Queues.{Slot, Queues}
use aalto_buenos.Sleepq.Add.{IsRunner, add_lem}
use aalto_buenos.Sleepq.WakeOne.{WakeOutcome, wake_lem}
use aalto_buenos.Sleepq.WakeAll.{WokenAll}
use aalto_buenos.Sleepq.WakeLoop.{wake_all_lem}
use aalto_buenos.Scheduling.Sleepers.{Sleepers}
use aalto_buenos.Scheduling.Expired.{Woken, wakeup_expired_lem}
use aalto_buenos.Scheduling.Leave.{Leaving}
use aalto_buenos.Scheduling.Schedule.{Switched, schedule_lem}

abbrev pub blank : Thread
blank = record {
  context = record { sp = 0; ra = 0; a0 = 0; pc = 0; status = 0; prev_context = 0 };
  user_context = 0;
  state = free;
  sleeps_on = 0;
  pagetable = 0;
  process_id = none_id;
  next = none_id;
  next_sleeper_id = none_id;
  wakeup_time = 0;
  priority = 1;
  userland_pid = none_id;
}

-- Thread 1 runs, 2 (of high priority) and 3 are ready, 4 waits for the resource at 500, and 5
-- sleeps until 70.
abbrev pub entries : ℕ → Thread
entries t =
    if t == 0
    then record blank { state = ready }
    else if t == 1
    then record blank { state = running }
    else if t == 2
    then record blank { state = ready; next = pos 3; priority = 0 }
    else if t == 3
    then record blank { state = ready }
    else if t == 4
    then record blank { state = sleeping; sleeps_on = 500 }
    else if t == 5
    then record blank { state = sleeping; wakeup_time = 70 }
    else blank

abbrev pub busy : Kernel
busy = record {
  threads = entries;
  sleepq = λ h. if h == 119 then pos 4 else none_id;
  ready_head = pos 2;
  ready_tail = pos 3;
  current = λ cpu. 1;
  next_sleeper = pos 5;
}

abbrev pub waiting : ℕ → List ℕ
waiting h = if h == 119 then 4 ∷ [] else []

busy-ReadyList : ReadyList busy (2 ∷ 3 ∷ [])
busy-ReadyList = record {
  chain = ground arith;
  tail = refl;
  distinct = ground arith;
  below = ground arith;
}

busy-Slot : (h : ℕ) → h < hashtable_size → Slot entries (busy.sleepq h) h (waiting h)
busy-Slot h lt = elim (ℕ_discrete 119 h) [
  | yes e ↦
      subst (λ x. Slot entries (busy.sleepq x) x (waiting x)) e
        (record {
          chain = ground arith;
          distinct = ground arith;
          below = ground arith;
          waits = ground arith;
        })
  | no ne ↦ record {
    chain = ground (arith, ne);
    distinct = ground (arith, ne);
    below = ground (arith, ne);
    waits = ground (arith, ne);
  }
]

pub busy-Queues : Queues busy (2 ∷ 3 ∷ []) waiting
busy-Queues = record {
  ready_list = busy-ReadyList;
  ready_states = (refl, (refl, tt));
  ready_awake = (refl, (refl, tt));
  slots = busy-Slot;
}

pub busy-Sleepers : Sleepers busy (5 ∷ [])
busy-Sleepers = record {
  chain = ground arith;
  distinct = ground arith;
  below = ground arith;
  sorted = ground arith;
}

add_to_ready_list_example : Added busy 5 (2 ∷ 3 ∷ [])
add_to_ready_list_example =
    add_to_ready_list_lem busy 5 (2 ∷ 3 ∷ []) busy-ReadyList (omega arith) (omega arith)
      (ground arith)

pub busy-IsRunner : IsRunner busy 1
busy-IsRunner = record {
  not_idle = omega arith;
  in_table = omega arith;
  not_ready = ground arith;
  awake = refl;
}

add_example :
    (k' : Kernel) × (add busy true 0 500 ≡ ok k')
    × Queues k' (2 ∷ 3 ∷ []) (update waiting (hash 500) (waiting (hash 500) ++ (1 ∷ [])))
add_example = add_lem busy-Queues 1 busy-IsRunner 500 (ground arith) 0 refl

wake_example : WakeOutcome busy-Queues 500
wake_example = wake_lem busy-Queues 500

wake_all_example :
    WokenAll busy (2 ∷ 3 ∷ []) waiting 500 [] (waiting (hash 500)) (wake_all busy 500)
wake_all_example = wake_all_lem busy-Queues 500

wakeup_expired_example :
    Woken busy (2 ∷ 3 ∷ []) waiting (5 ∷ []) 100 (wakeup_expired_sleepers busy 100)
wakeup_expired_example =
    wakeup_expired_lem (5 ∷ []) 100 busy-Queues busy-Sleepers ((refl, refl), tt)

schedule_example :
    (gone : List ℕ) × (still : List ℕ) × (queue : List ℕ) × (s : ThreadState) × Leaving busy 1
      (2 ∷ 3 ∷ [])
      (5 ∷ [])
      100
      gone
      still
      queue
      s
    × Switched busy 0 1 waiting gone still queue s (schedule busy 0 100)
schedule_example =
    schedule_lem 0 100 busy-Queues busy-Sleepers (omega arith) (ground arith)
      (λ e. ground (arith, e))

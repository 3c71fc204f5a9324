-- ===== src/Scheduling/Schedule.antt =====
-- `scheduler_schedule`: who gets the processor.
use aalto_buenos.Prelude.{ℕ, ◌<◌, ◌≡◌, ◌≢◌, refl, arith, List, [], ◌∷◌, Result, ok}
use aalto_buenos.Prelude.Int.{ℤ}
use aalto_buenos.Threads.{
  Kernel, ThreadState, running, ready, max_threads, idle_thread_tid, update, set_state,
}
use aalto_buenos.Threads.Links.{Chain, All, All-map, NotIn, Distinct}
use aalto_buenos.Scheduler.{leave, schedule, remove_first_ready}
use aalto_buenos.Scheduler.Enqueue.{ReadyList}
use aalto_buenos.Scheduler.Dequeue.{first, rest_of, remove_first_ready_lem}
use aalto_buenos.Sleepq.Queues.{Queues, queues}
use aalto_buenos.Scheduling.Sleepers.{Sleepers, IsAsleep, Sleepers-agree, Queues-same}
use aalto_buenos.Scheduling.Leave.{Leaving, Left, leave_lem, All-same}

-- The kernel when the chosen thread runs.
pub record Switched (k : Kernel) (cpu t : ℕ) (waiting : ℕ → List ℕ) (gone still queue : List ℕ)
    (s : ThreadState) (r : Result Kernel) : Type 0 where
  pub after : Kernel
  pub returns : r ≡ ok after
  pub queued : Queues after (rest_of queue) waiting
  pub sleepers : Sleepers after still
  pub runs : after.current cpu ≡ first queue
  pub same_others : (c : ℕ) → c ≢ cpu → after.current c ≡ k.current c
  pub is_running : (after.threads (first queue)).state ≡ running
  pub left_state : t ≢ first queue → (after.threads t).state ≡ s
  pub untouched :
      (x : ℕ)
      → x ≢ t
      → x ≢ first queue
      → NotIn x gone
      → after.threads x ≡ record (k.threads x) { next = (after.threads x).next }

abbrev dispatched : Kernel → ℕ → ℕ → Kernel
dispatched k cpu t = record k {
  threads = set_state k.threads t running;
  current = update k.current cpu t;
}

abbrev Removed : Kernel → List ℕ → Type 0
Removed k queue =
    (k' : Kernel) × (remove_first_ready k ≡ ok (first queue, k'))
    × ReadyList k' (rest_of queue)
    × (k'.threads ≡ k.threads)
    × (k'.sleepq ≡ k.sleepq)
    × (k'.current ≡ k.current)
    × (k'.next_sleeper ≡ k.next_sleeper)

All-rest : (P : ℕ → Type 0) (ts : List ℕ) → All P ts → All P (rest_of ts)
All-rest P [] a = tt
All-rest P (t ∷ ts) a = a.1

first-NotIn_rest :
    (next : ℕ → ℤ) (h : ℤ) (ts : List ℕ)
    → Chain next h ts
    → Distinct ts
    → NotIn (first ts) (rest_of ts)
first-NotIn_rest next h [] c d = tt
first-NotIn_rest next h (t ∷ ts) c d = d.0

-- The thread in front of the ready list gets the processor.
dispatch :
    {k : Kernel} {t : ℕ} {waiting : ℕ → List ℕ} {gone still queue : List ℕ} {s : ThreadState}
    (cpu cur_time : ℕ)
    → k.current cpu ≡ t
    → (l : Left k t waiting gone still queue s (leave k t cur_time)) → Removed l.after queue
    → Switched k cpu t waiting gone still queue s (schedule k cpu cur_time)
unfolding schedule
dispatch {k} {t} {waiting} {still = still} {queue} {s} cpu cur_time e l
      (k', returns, listed, et, es, ec, en) =
    record {
      after = dispatched k' cpu (first queue);
      returns = rw (e, l.returns, returns) refl;
      queued =
          Queues-same (dispatched k' cpu (first queue)) refl refl refl (λ x. ground arith)
            (All-map (rest_of queue) (λ x ne. ground arith)
              (first-NotIn_rest _ _ queue l.queued.ready_list.chain l.queued.ready_list.distinct))
            removed;
      sleepers =
          Sleepers-agree l.after (dispatched k' cpu (first queue)) still en
            (All-same l.after (dispatched k' cpu (first queue)) still
              (λ x. (ground (arith, et), ground (arith, et))))
            l.sleepers;
      runs = ground arith;
      same_others = λ c ne. ground (arith, ne, ec, l.same_current);
      is_running = ground arith;
      left_state = λ ne. ground (arith, ne, et, l.left_state);
      untouched = λ x ne nf n. ground (arith, l.untouched x ne n, ne, nf, et);
    }
  where
    removed : Queues k' (rest_of queue) waiting
    removed =
        queues
          (record {
            list = listed;
            states =
                rw et
                  (All-rest (λ x. (l.after.threads x).state ≡ ready) queue l.queued.ready_states);
            awake =
                rw et
                  (All-rest (λ x. (l.after.threads x).sleeps_on ≡ 0) queue l.queued.ready_awake);
          })
          (λ h lt. rw (et, es) (l.queued.slots h lt))

-- With the queues and the list of timed sleepers well formed, the running thread in the table and
-- not marked ready, and all timed sleepers asleep when the idle thread runs, `scheduler_schedule`
-- returns: a dying thread is freed, one that waits or has a wake-up time goes to sleep, the idle
-- thread readies the sleepers that are due, and any other thread is queued by priority; then the
-- first thread of the ready list (the idle thread if there is none) runs on this processor, and the
-- queues and sleepers are well formed again.
pub schedule_lem :
    {k : Kernel} (cpu : ℕ) {ready_q sleepers : List ℕ} {waiting : ℕ → List ℕ} (cur_time : ℕ)
    → Queues k ready_q waiting
    → Sleepers k sleepers
    → k.current cpu < max_threads
    → (k.threads (k.current cpu)).state ≢ ready
    → (k.current cpu ≡ idle_thread_tid → All (IsAsleep k.threads) sleepers)
    → (gone : List ℕ) × (still : List ℕ) × (queue : List ℕ) × (s : ThreadState) × Leaving k
        (k.current cpu)
        ready_q
        sleepers
        cur_time
        gone
        still
        queue
        s
      × Switched k cpu (k.current cpu) waiting gone still queue s (schedule k cpu cur_time)
schedule_lem {k} cpu cur_time q sl lt not_ready asleep =
    let (gone, still, queue, s, how, l) =
      leave_lem (k.current cpu) cur_time q sl lt not_ready asleep in
    (
      gone,
      still,
      queue,
      s,
      how,
      dispatch cpu cur_time refl l
          (remove_first_ready_lem l.after queue l.queued.ready_list l.queued.ready_states),
    )

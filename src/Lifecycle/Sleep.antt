-- ===== src/Lifecycle/Sleep.antt =====
-- `thread_sleep` on the list of timed sleepers and the queues.
use mathlib.Core.Path.{subst}
use aalto_buenos.Prelude.{ℕ, ◌+◌, ◌%◌, ◌^◌, ◌<◌, ap, arith, List, [], ◌∷◌, true, ok}
use aalto_buenos.Prelude.Int.{none_id}
use aalto_buenos.Threads.{Kernel, Thread, max_threads}
use aalto_buenos.Threads.Links.{All-map, NotIn, last}
use aalto_buenos.Threads.Bounded.{length-le_of_Distinct}
use aalto_buenos.Sleepq.Queues.{Queues}
use aalto_buenos.Scheduling.Sleepers.{Sleepers, Queues-same}
use aalto_buenos.Lifecycle.{find_place, sleep}
use aalto_buenos.Lifecycle.Walk.{Walk, at_tail, at_top, inside, find_place-Walk}
use aalto_buenos.Lifecycle.Slept.{
  timed, timed-Sleepers, Slept, alone, on_top, behind_last, between, Slept-alone, Slept-on_top,
  Slept-last, Slept-between,
}

-- The walk is enough, as the sleepers are at most as many as the entries of the thread table.
walk :
    (k : Kernel) (x : ℕ) (xs : List ℕ) (t at : ℕ)
    → Sleepers (timed k t at) (x ∷ xs)
    → Walk
        (timed k t at).threads
        at
        true
        x
        xs
        none_id
        (find_place (max_threads + 1) (timed k t at).threads at x none_id true)
walk k x xs t at s =
    find_place-Walk (max_threads + 1) (timed k t at).threads at x xs none_id true
      (omega (arith, length-le_of_Distinct max_threads (x ∷ xs) s.distinct s.below)) s.chain.2

sleep_some :
    {k : Kernel} (x : ℕ) (xs : List ℕ) (t cur_time milliseconds : ℕ)
    → Sleepers k (x ∷ xs)
    → 0 < t
    → t < max_threads
    → NotIn t (x ∷ xs)
    → Slept k t ((cur_time + milliseconds) % 2 ^ 32) (x ∷ xs) (sleep k t cur_time milliseconds)
unfolding sleep
sleep_some {k} x xs t cur_time milliseconds s pt lt new =
    elim (walk k x xs t at (timed-Sleepers t at s pt lt new)) [
      | at_tail prev top ins e ↦
          subst (Slept k t at (x ∷ xs)) {x = ok (behind_last (timed k t at) (last x xs) t)}
            (ground (arith, s.chain.0, e)) (Slept-last x xs t at s pt lt new (ins t))
      | at_top ins e ↦
          subst (Slept k t at (x ∷ xs)) {x = ok (on_top (timed k t at) t)}
            (ground (arith, s.chain.0, e)) (Slept-on_top x xs t at s pt lt new (ins t))
      | inside front y rest split ins e ↦
          subst (Slept k t at (x ∷ xs)) {x = ok (between (timed k t at) (last x front) t y)}
            (ground (arith, s.chain.0, e))
            (Slept-between x xs t at s pt lt new front y rest split (ins t))
    ]
  where
    at : ℕ
    at = (cur_time + milliseconds) % 2 ^ 32

-- With well-formed queues and a well-formed list of timed sleepers, `thread_sleep` by a thread of
-- the table that is not the idle thread and not among the sleepers gets to the point where it gives
-- up the processor: the thread has its wake-up time and stands in the list behind the sleepers that
-- wake up no later and before the others, the list and the queues are well formed, and no other
-- field of the kernel's tables changes.
pub sleep_lem :
    {k : Kernel} (ts : List ℕ) (t cur_time milliseconds : ℕ) {ready_q : List ℕ}
    {waiting : ℕ → List ℕ}
    → Queues k ready_q waiting
    → Sleepers k ts
    → 0 < t
    → t < max_threads
    → NotIn t ts
    → (o : Slept k t ((cur_time + milliseconds) % 2 ^ 32) ts (sleep k t cur_time milliseconds))
      × Queues o.after ready_q waiting
sleep_lem {k} ts t cur_time milliseconds {ready_q} q s pt lt new =
    let o = slept ts s new in
    (
      o,
      Queues-same o.after o.same_head o.same_tail o.same_sleepq
          (λ x. (
            ap (λ (th : Thread). th.next) (o.same_entries x),
            ap (λ (th : Thread). th.sleeps_on) (o.same_entries x),
          ))
          (All-map ready_q (λ x a. ap (λ (th : Thread). th.state) (o.same_entries x)) q.ready_awake)
          q,
    )
  where
    slept :
        (ts : List ℕ)
        → Sleepers k ts
        → NotIn t ts
        → Slept k t ((cur_time + milliseconds) % 2 ^ 32) ts (sleep k t cur_time milliseconds)
    slept [] s n =
        subst (Slept k t _ []) {x = ok (alone (timed k t ((cur_time + milliseconds) % 2 ^ 32)) t)}
          (unfold sleep in ground (arith, s.chain))
          (Slept-alone t ((cur_time + milliseconds) % 2 ^ 32) s pt lt)
    slept (x ∷ xs) s n = sleep_some x xs t cur_time milliseconds s pt lt n

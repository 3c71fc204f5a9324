-- ===== src/Sleepq/WakeOne.antt =====
-- `sleepq_wake` on all the lists.
use aalto_buenos.Prelude.{ℕ, ◌+◌, ◌<◌, ◌≡◌, ◌≢◌, arith, List, ◌∷◌, ◌++◌, ok}
use aalto_buenos.Prelude.Int.{ℤ, pos, none_id}
use aalto_buenos.Threads.{Kernel, max_threads, hashtable_size}
use aalto_buenos.Threads.Links.{All, All-append_right, Seg-positive}
use aalto_buenos.Threads.Bounded.{length-le_of_Distinct}
use aalto_buenos.Scheduler.Enqueue.{links}
use aalto_buenos.Sleepq.{hash, wake, find_waiter, wake_thread}
use aalto_buenos.Sleepq.Search.{last_or, Search, hit, miss, search_lem}
use aalto_buenos.Sleepq.Queues.{Slot, Queues}
use aalto_buenos.Sleepq.Wake.{Woken, wake_thread_lem}

pub hash-lt : (resource : ℕ) → hash resource < hashtable_size
hash-lt resource = omega arith

-- How `sleepq_wake` ends.
pub data WakeOutcome {k : Kernel} {ready_q : List ℕ} {waiting : ℕ → List ℕ}
    (q : Queues k ready_q waiting) (resource : ℕ) : Type 0 where
  woke :
      (front : List ℕ) (w : ℕ) (ls : List ℕ) (eq : waiting (hash resource) ≡ front ++ (w ∷ ls))
      → All (λ t. (k.threads t).sleeps_on ≢ resource) front
      → (k.threads w).sleeps_on ≡ resource
      → (o : Woken q (hash resource) front w ls (hash-lt resource) eq)
      → wake k resource ≡ ok o.after
      → WakeOutcome q resource
  nobody :
      All (λ t. (k.threads t).sleeps_on ≢ resource) (waiting (hash resource))
      → wake k resource ≡ ok k
      → WakeOutcome q resource

wake_found :
    (k k' : Kernel) (resource : ℕ) (prev : ℤ) (w : ℕ)
    → 0 < w
    → find_waiter (max_threads + 1) k.threads resource none_id (k.sleepq (hash resource))
      ≡ ok (prev, pos w)
    → wake_thread k (hash resource) prev w ≡ ok k'
    → wake k resource ≡ ok k'
unfolding wake
wake_found k k' resource prev w pw f r = ground (arith, f, r)

wake_missed :
    (k : Kernel) (resource : ℕ) (prev : ℤ)
    → find_waiter (max_threads + 1) k.threads resource none_id (k.sleepq (hash resource))
      ≡ ok (prev, none_id)
    → wake k resource ≡ ok k
unfolding wake
wake_missed k resource prev f = ground (arith, f)

-- With well-formed queues, `sleepq_wake` returns: it takes out of its slot exactly the first thread
-- that waits for the resource, which joins the ready list if it sleeps, and changes nothing when no
-- thread waits for the resource; the queues stay well formed.
pub wake_lem :
    {k : Kernel} {ready_q : List ℕ} {waiting : ℕ → List ℕ} (q : Queues k ready_q waiting)
    (resource : ℕ)
    → WakeOutcome q resource
wake_lem {k} {waiting = waiting} q resource = found (
    search_lem k.threads resource (max_threads + 1) none_id (k.sleepq (hash resource))
      (waiting (hash resource))
      (omega (
        arith,
        length-le_of_Distinct max_threads (waiting (hash resource)) here.distinct here.below,
      ))
      here.chain)
  where
    here : Slot k.threads (k.sleepq (hash resource)) (hash resource) (waiting (hash resource))
    here = q.slots (hash resource) (omega arith)

    found :
        Search k.threads resource
          (max_threads + 1)
          none_id
          (k.sleepq (hash resource))
          (waiting (hash resource))
        → WakeOutcome q resource
    found (miss a f) = nobody a (wake_missed k resource _ f)
    found (hit front w ls eq e a f) =
        let o : Woken q (hash resource) front w ls (hash-lt resource) eq =
          wake_thread_lem q (hash resource) front w ls (hash-lt resource) eq in
        let pw : 0 < w =
          (All-append_right _ front (w ∷ ls) (
            Seg-positive (links k.threads) (k.sleepq (hash resource)) none_id (front ++ (w ∷ ls))
              (rw (← eq) here.chain))).0 in
        woke front w ls eq a e o
          (wake_found k o.after resource (last_or none_id front) w pw f o.returns)

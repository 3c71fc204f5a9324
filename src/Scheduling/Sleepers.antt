-- ===== src/Scheduling/Sleepers.antt =====
-- The timed sleepers, in the order in which they wake up.
use aalto_buenos.Prelude.{ℕ, ◌≤◌, ◌<◌, ◌≡◌, arith, List, [], ◌∷◌}
use aalto_buenos.Prelude.Int.{ℤ, none_id}
use aalto_buenos.Threads.{Kernel, Thread, sleeping, max_threads, hashtable_size}
use aalto_buenos.Threads.Links.{Chain, All, All-map, Distinct, Seg-agree}
use aalto_buenos.Threads.Bounded.{Below}
use aalto_buenos.Sleepq.Queues.{
  Slot, Queues, SameLink, Slot-agree, ReadyPart-agree, ready_part, queues, All-zip,
}

-- The `next_sleeper_id` fields.
abbrev pub sleeper_links : (ℕ → Thread) → ℕ → ℤ
sleeper_links threads t = (threads t).next_sleeper_id

abbrev pub wakeup : (ℕ → Thread) → ℕ → ℕ
wakeup threads t = (threads t).wakeup_time

-- Nobody wakes up before the thread in front of it.
abbrev pub IsSorted : (ℕ → ℕ) → List ℕ → Type 0
IsSorted time [] = Unit
IsSorted time (t ∷ ts) = All (λ x. time t ≤ time x) ts × IsSorted time ts

-- A thread whose `thread_sleep` has given up the processor.
abbrev pub IsAsleep : (ℕ → Thread) → ℕ → Type 0
IsAsleep threads t = ((threads t).state ≡ sleeping) × ((threads t).sleeps_on ≡ 0)

pub record Sleepers (k : Kernel) (ts : List ℕ) : Type 0 where
  pub chain : Chain (sleeper_links k.threads) k.next_sleeper ts
  pub distinct : Distinct ts
  pub below : Below max_threads ts
  pub sorted : IsSorted (wakeup k.threads) ts

-- What the list of sleepers sees of a thread.
abbrev pub SameSleeper : (ℕ → Thread) → (ℕ → Thread) → ℕ → Type 0
SameSleeper threads threads' t =
    ((threads' t).next_sleeper_id ≡ (threads t).next_sleeper_id)
    × ((threads' t).wakeup_time ≡ (threads t).wakeup_time)

pub IsSorted-agree :
    (time time' : ℕ → ℕ) (ts : List ℕ)
    → All (λ t. time' t ≡ time t) ts
    → IsSorted time ts
    → IsSorted time' ts
IsSorted-agree time time' [] a s = tt
IsSorted-agree time time' (t ∷ ts) a s =
    (All-zip ts (λ x e le. omega (arith, e, le, a.0)) a.1 s.0, IsSorted-agree time time' ts a.1 s.1)

pub Sleepers-agree :
    (k k' : Kernel) (ts : List ℕ)
    → k'.next_sleeper ≡ k.next_sleeper
    → All (SameSleeper k.threads k'.threads) ts
    → Sleepers k ts
    → Sleepers k' ts
Sleepers-agree k k' ts e a s = record {
  chain = rw e (
      Seg-agree (sleeper_links k.threads) (sleeper_links k'.threads) k.next_sleeper none_id ts
        (All-map ts (λ t q. q.0) a) s.chain);
  distinct = s.distinct;
  below = s.below;
  sorted =
      IsSorted-agree (wakeup k.threads) (wakeup k'.threads) ts (All-map ts (λ t q. q.1) a) s.sorted;
}

-- The queues see the links of a thread, what it waits for, and the state of those in the ready list.
pub Queues-same :
    {k : Kernel} (k' : Kernel) {ready_q : List ℕ} {waiting : ℕ → List ℕ}
    → k'.ready_head ≡ k.ready_head
    → k'.ready_tail ≡ k.ready_tail
    → k'.sleepq ≡ k.sleepq
    → ((x : ℕ) → SameLink k.threads k'.threads x)
    → All (λ t. (k'.threads t).state ≡ (k.threads t).state) ready_q
    → Queues k ready_q waiting
    → Queues k' ready_q waiting
Queues-same {k} k' {ready_q} {waiting} eh et es a b q =
    queues (ReadyPart-agree k k' ready_q eh et (All-map ready_q (λ t s. (a t, s)) b) (ready_part q))
      slot
  where
    All-same : (ts : List ℕ) → All (SameLink k.threads k'.threads) ts
    All-same [] = tt
    All-same (t ∷ ts) = (a t, All-same ts)

    slot : (h : ℕ) → h < hashtable_size → Slot k'.threads (k'.sleepq h) h (waiting h)
    slot h lt = rw es (
        Slot-agree k.threads k'.threads (k.sleepq h) h (waiting h) (All-same (waiting h))
          (q.slots h lt))

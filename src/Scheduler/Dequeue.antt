-- ===== src/Scheduler/Dequeue.antt =====
-- `scheduler_remove_first_ready` on the list of ready threads.
use aalto_buenos.Prelude.{ℕ, ◌≡◌, refl, arith, List, [], ◌∷◌, ok}
use aalto_buenos.Prelude.Int.{none_id}
use aalto_buenos.Threads.{Kernel, ready, idle_thread_tid}
use aalto_buenos.Threads.Links.{All, NotIn-last}
use aalto_buenos.Scheduler.{remove_first_ready}
use aalto_buenos.Scheduler.Enqueue.{links, ReadyList}

-- What the scheduler takes from the list, and what it leaves.
abbrev pub first : List ℕ → ℕ
first [] = idle_thread_tid
first (t ∷ ts) = t

abbrev pub rest_of : List ℕ → List ℕ
rest_of [] = []
rest_of (t ∷ ts) = ts

-- `scheduler_remove_first_ready` on a well-formed list of ready threads returns its first thread,
-- or the idle thread if it is empty; what stays is the rest of the list, and no thread's entry
-- changes.
pub remove_first_ready_lem :
    (k : Kernel) (ts : List ℕ)
    → ReadyList k ts
    → All (λ t. (k.threads t).state ≡ ready) ts
    → (k' : Kernel) × (remove_first_ready k ≡ ok (first ts, k'))
      × ReadyList k' (rest_of ts)
      × (k'.threads ≡ k.threads)
      × (k'.sleepq ≡ k.sleepq)
      × (k'.current ≡ k.current)
      × (k'.next_sleeper ≡ k.next_sleeper)
remove_first_ready_lem k [] r a =
    (k, unfold remove_first_ready in rw (r.chain), r, refl, refl, refl, refl)
remove_first_ready_lem k (t ∷ []) r a = (
  record k { ready_tail = none_id; ready_head = links k.threads t },
  unfold remove_first_ready in ground (arith, r, a),
  record { chain = r.chain.2; tail = refl; distinct = tt; below = tt },
  refl,
  refl,
  refl,
  refl,
)
remove_first_ready_lem k (t ∷ y ∷ ys) r a = (
  record k { ready_head = links k.threads t },
  unfold remove_first_ready in
      ground (arith, r, a, NotIn-last t y ys r.distinct.0.0 r.distinct.0.1),
  record { chain = r.chain.2; tail = r.tail; distinct = r.distinct.1; below = r.below.1 },
  refl,
  refl,
  refl,
  refl,
)

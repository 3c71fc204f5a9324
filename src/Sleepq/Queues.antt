-- ===== src/Sleepq/Queues.antt =====
-- The lists that the hash table of sleep queues stands for, beside the ready list.
use aalto_buenos.Prelude.{ℕ, ◌%◌, ◌<◌, ◌≡◌, ◌≢◌, sym, ap, ◌∙◌, List, [], ◌∷◌}
use aalto_buenos.Prelude.Int.{ℤ, none_id}
use aalto_buenos.Threads.{Kernel, Thread, ready, max_threads, hashtable_size}
use aalto_buenos.Threads.Links.{Chain, All, All-map, NotIn, Distinct, Seg-agree}
use aalto_buenos.Threads.Bounded.{Below}
use aalto_buenos.Scheduler.Enqueue.{links, ReadyList}

-- A thread that waits in slot `h`.
abbrev pub Waits : (ℕ → Thread) → ℕ → ℕ → Type 0
Waits threads h t = ((threads t).sleeps_on ≢ 0) × ((threads t).sleeps_on % hashtable_size ≡ h)

-- Slot `h` holds the threads of the list, in the order in which they came.
pub record Slot (threads : ℕ → Thread) (head : ℤ) (h : ℕ) (ts : List ℕ) : Type 0 where
  pub chain : Chain (links threads) head ts
  pub distinct : Distinct ts
  pub below : Below max_threads ts
  pub waits : All (Waits threads h) ts

-- A thread is in the ready list if it waits for nothing, and in the slot of what it waits for
-- else, so in one list at most.
pub record Queues (k : Kernel) (ready_q : List ℕ) (waiting : ℕ → List ℕ) : Type 0 where
  pub ready_list : ReadyList k ready_q
  pub ready_states : All (λ t. (k.threads t).state ≡ ready) ready_q
  pub ready_awake : All (λ t. (k.threads t).sleeps_on ≡ 0) ready_q
  pub slots : (h : ℕ) → h < hashtable_size → Slot k.threads (k.sleepq h) h (waiting h)

-- What a slot sees of a thread.
abbrev pub SameLink : (ℕ → Thread) → (ℕ → Thread) → ℕ → Type 0
SameLink threads threads' t =
    ((threads' t).next ≡ (threads t).next) × ((threads' t).sleeps_on ≡ (threads t).sleeps_on)

-- From two facts about each thread of a list to a third.
pub All-zip {ℓ} :
    {P Q R : ℕ → Type ℓ} (ts : List ℕ)
    → ((t : ℕ) → P t → Q t → R t)
    → All P ts
    → All Q ts
    → All R ts
All-zip [] f a b = tt
All-zip (t ∷ ts) f a b = (f t a.0 b.0, All-zip ts f a.1 b.1)

pub Slot-agree :
    (threads threads' : ℕ → Thread) (head : ℤ) (h : ℕ) (ts : List ℕ)
    → All (SameLink threads threads') ts
    → Slot threads head h ts
    → Slot threads' head h ts
Slot-agree threads threads' head h ts a s = record {
  chain =
      Seg-agree (links threads) (links threads') head none_id ts (All-map ts (λ t q. q.0) a)
        s.chain;
  distinct = s.distinct;
  below = s.below;
  waits = All-zip ts (λ t q w. rw (q.1) w) a s.waits;
}

-- Threads of different slots, and a thread that waits and one that does not, are different.
pub NotIn-other_slot :
    (threads : ℕ → Thread) (i h : ℕ) (ts : List ℕ)
    → (threads i).sleeps_on % hashtable_size ≢ h
    → All (Waits threads h) ts
    → NotIn i ts
NotIn-other_slot threads i h ts ne a =
    All-map ts (λ t w e. ne (ap (λ x. (threads x).sleeps_on % hashtable_size) e ∙ w.1)) a

pub NotIn-awake :
    (threads : ℕ → Thread) (i : ℕ) (ts : List ℕ)
    → (threads i).sleeps_on ≢ 0
    → All (λ t. (threads t).sleeps_on ≡ 0) ts
    → NotIn i ts
NotIn-awake threads i ts ne a = All-map ts (λ t w e. ne (ap (λ x. (threads x).sleeps_on) e ∙ w)) a

pub NotIn-waiting :
    (threads : ℕ → Thread) (i h : ℕ) (ts : List ℕ)
    → (threads i).sleeps_on ≡ 0
    → All (Waits threads h) ts
    → NotIn i ts
NotIn-waiting threads i h ts z a =
    All-map ts (λ t w e. w.0 (sym (ap (λ x. (threads x).sleeps_on) e) ∙ z)) a

-- A thread that is not ready is not in the ready list.
pub NotIn-ready :
    (threads : ℕ → Thread) (i : ℕ) (ts : List ℕ)
    → (threads i).state ≢ ready
    → All (λ t. (threads t).state ≡ ready) ts
    → NotIn i ts
NotIn-ready threads i ts ne a = All-map ts (λ t w e. ne (ap (λ x. (threads x).state) e ∙ w)) a

-- What the ready list sees of a thread.
abbrev pub SameReady : (ℕ → Thread) → (ℕ → Thread) → ℕ → Type 0
SameReady threads threads' t =
    SameLink threads threads' t × ((threads' t).state ≡ (threads t).state)

-- The ready list stays where its threads do.
pub record ReadyPart (k : Kernel) (ready_q : List ℕ) : Type 0 where
  pub list : ReadyList k ready_q
  pub states : All (λ t. (k.threads t).state ≡ ready) ready_q
  pub awake : All (λ t. (k.threads t).sleeps_on ≡ 0) ready_q

pub ready_part :
    {k : Kernel} {ready_q : List ℕ} {waiting : ℕ → List ℕ}
    → Queues k ready_q waiting
    → ReadyPart k ready_q
ready_part q = record { list = q.ready_list; states = q.ready_states; awake = q.ready_awake }

pub ReadyPart-agree :
    (k k' : Kernel) (ready_q : List ℕ)
    → k'.ready_head ≡ k.ready_head
    → k'.ready_tail ≡ k.ready_tail
    → All (SameReady k.threads k'.threads) ready_q
    → ReadyPart k ready_q
    → ReadyPart k' ready_q
ReadyPart-agree k k' [] eh et a q = record {
  list = record { chain = eh ∙ q.list.chain; tail = et ∙ q.list.tail; distinct = tt; below = tt };
  states = tt;
  awake = tt;
}
ReadyPart-agree k k' (t ∷ ts) eh et a q = record {
  list = record {
    chain = rw eh (
        Seg-agree (links k.threads) (links k'.threads) k.ready_head none_id (t ∷ ts)
          (All-map (t ∷ ts) (λ x s. s.0.0) a) q.list.chain);
    tail = et ∙ q.list.tail;
    distinct = q.list.distinct;
    below = q.list.below;
  };
  states = All-zip (t ∷ ts) (λ x s e. s.1 ∙ e) a q.states;
  awake = All-zip (t ∷ ts) (λ x s e. s.0.1 ∙ e) a q.awake;
}

pub queues :
    {k : Kernel} {ready_q : List ℕ} {waiting : ℕ → List ℕ}
    → ReadyPart k ready_q
    → ((h : ℕ) → h < hashtable_size → Slot k.threads (k.sleepq h) h (waiting h))
    → Queues k ready_q waiting
queues r s = record {
  ready_list = r.list;
  ready_states = r.states;
  ready_awake = r.awake;
  slots = s;
}

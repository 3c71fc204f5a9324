-- ===== src/Scheduler/Enqueue.antt =====
-- `scheduler_add_to_ready_list` on the list of ready threads: behind the high priority threads at
-- its front if the thread's priority is high, and else at its end.
use aalto_buenos.Prelude.{
  ℕ, zero, suc, ◌<◌, ◌≡◌, refl, ap, arith, List, [], ◌∷◌, ◌++◌, Bool, if◌then◌else◌, ◌==◌, length,
  ok, Bool-cases, inl, inr,
}
use aalto_buenos.Prelude.Int.{ℤ, pos, none_id}
use aalto_buenos.Threads.{Kernel, Thread, max_threads, priority_high}
use aalto_buenos.Threads.Links.{Chain, Distinct, last}
use aalto_buenos.Threads.Bounded.{Below}
use aalto_buenos.Scheduler.{last_high}

-- The `next` fields.
abbrev pub links : (ℕ → Thread) → ℕ → ℤ
links threads t = (threads t).next

abbrev pub is_high : (ℕ → Thread) → ℕ → Bool
is_high threads t = (threads t).priority == priority_high

-- `tail` is the last thread of the list, or negative.
abbrev pub IsTail : ℤ → List ℕ → Type 0
IsTail tail [] = tail ≡ none_id
IsTail tail (t ∷ ts) = tail ≡ pos (last t ts)

-- `scheduler_ready_to_run` holds the threads of the list.
pub record ReadyList (k : Kernel) (ts : List ℕ) : Type 0 where
  pub chain : Chain (links k.threads) k.ready_head ts
  pub tail : IsTail k.ready_tail ts
  pub distinct : Distinct ts
  pub below : Below max_threads ts

-- Behind the threads of high priority that the list begins with.
unfoldable pub insert_high : (ℕ → Bool) → ℕ → List ℕ → List ℕ
insert_high high t [] = t ∷ []
insert_high high t (x ∷ xs) = if high x then x ∷ insert_high high t xs else t ∷ x ∷ xs

-- The order of the ready list, as the scheduler promises it.
unfoldable pub enqueue : (ℕ → Bool) → ℕ → List ℕ → List ℕ
enqueue high t ts = if high t then insert_high high t ts else ts ++ (t ∷ [])

-- The walk over the front of the list stops at its last thread of high priority, where the new
-- thread belongs.
pub record HighEnd (threads : ℕ → Thread) (fuel p : ℕ) (ts : List ℕ) : Type 0 where
  pub front : List ℕ
  pub rest : List ℕ
  pub split : ts ≡ front ++ rest
  pub found : last_high fuel threads p ≡ ok (last p front)
  pub place : (t : ℕ) → insert_high (is_high threads) t ts ≡ front ++ (t ∷ rest)

pub last_high-HighEnd :
    (threads : ℕ → Thread) (fuel p : ℕ) (ts : List ℕ)
    → length ts < fuel
    → Chain (links threads) (links threads p) ts
    → HighEnd threads fuel p ts
unfolding last_high insert_high
last_high-HighEnd threads zero p ts l c = absurd (omega arith)
last_high-HighEnd threads (suc fuel) p [] l c = record {
  front = [];
  rest = [];
  split = refl;
  found = rw c;
  place = λ t. refl;
}
last_high-HighEnd threads (suc fuel) p (q ∷ qs) l c = elim (Bool-cases (is_high threads q)) [
  | inl h ↦
      let r = last_high-HighEnd threads fuel q qs (omega arith) c.2 in
      record {
        front = q ∷ r.front;
        rest = r.rest;
        split = ap (◌∷◌ q) r.split;
        found = rw (c.0, h) r.found;
        place = λ t. rw (h, r.place t);
      }
  | inr h ↦ record {
    front = [];
    rest = q ∷ qs;
    split = refl;
    found = rw (c.0, h);
    place = λ t. rw h;
  }
]

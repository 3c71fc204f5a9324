-- ===== src/Sleepq/Waiters.antt =====
-- How many threads of a slot wait for one resource, and what adding and waking a thread does to
-- their number.
use aalto_buenos.Prelude.{
  ℕ, ◌+◌, ◌<◌, ◌≡◌, ◌≢◌, refl, sym, ap, ◌∙◌, arith, List, [], ◌∷◌, ◌++◌, true, if◌then◌else◌, ◌==◌,
  Result, ok, panic, hang, outside, ◌>>=◌, Bool-cases, inl, inr,
}
use aalto_buenos.Prelude.Int.{pos, none_id, is_positive, to_index}
use aalto_buenos.Threads.{Kernel, Thread, update, set_next, max_threads}
use aalto_buenos.Threads.Links.{All}
use aalto_buenos.Sleepq.{hash, add, find_tail}

unfoldable pub waiters : (ℕ → Thread) → ℕ → List ℕ → ℕ
waiters threads resource [] = 0
waiters threads resource (t ∷ ts) =
    (if (threads t).sleeps_on == resource then 1 else 0) + waiters threads resource ts

pub waiters-append :
    (threads : ℕ → Thread) (resource : ℕ) (xs ys : List ℕ)
    → waiters threads resource (xs ++ ys)
      ≡ waiters threads resource xs + waiters threads resource ys
unfolding waiters
waiters-append threads resource [] ys = omega arith
waiters-append threads resource (x ∷ xs) ys = omega (arith, waiters-append threads resource xs ys)

pub waiters-agree :
    (threads threads' : ℕ → Thread) (resource : ℕ) (ts : List ℕ)
    → All (λ t. (threads' t).sleeps_on ≡ (threads t).sleeps_on) ts
    → waiters threads' resource ts ≡ waiters threads resource ts
unfolding waiters
waiters-agree threads threads' resource [] a = refl
waiters-agree threads threads' resource (t ∷ ts) a =
    rw (a.0, waiters-agree threads threads' resource ts a.1) refl

pub waiters-none :
    (threads : ℕ → Thread) (resource : ℕ) (ts : List ℕ)
    → All (λ t. (threads t).sleeps_on ≢ resource) ts
    → waiters threads resource ts ≡ 0
unfolding waiters
waiters-none threads resource [] a = refl
waiters-none threads resource (t ∷ ts) a = ground (arith, a.0, waiters-none threads resource ts a.1)

abbrev threads_of : Kernel → Result Kernel → ℕ → Thread
threads_of k (ok k') = k'.threads
threads_of k panic = k.threads
threads_of k hang = k.threads
threads_of k outside = k.threads

abbrev waiting_entry : Kernel → ℕ → ℕ → ℕ → Thread
waiting_entry k t resource =
    update k.threads t (record (k.threads t) { next = none_id; sleeps_on = resource })

-- `sleepq_add` behind the thread that the search for the tail finds.
abbrev behind : Kernel → ℕ → ℕ → ℕ → Result Kernel
behind k t resource prev =
    ok (record k { threads = set_next (waiting_entry k t resource) prev (pos t) })

behind-sleeps_on :
    (k k' : Kernel) (t resource : ℕ) (r : Result ℕ)
    → (r >>= behind k t resource) ≡ ok k'
    → (x : ℕ) → (k'.threads x).sleeps_on ≡ (if t == x then resource else (k.threads x).sleeps_on)
behind-sleeps_on k k' t resource (ok prev) e x =
    sym (ap (λ r. (threads_of k r x).sleeps_on) e) ∙ ground arith
behind-sleeps_on k k' t resource panic e x = absurd (ground (arith, e))
behind-sleeps_on k k' t resource hang e x = absurd (ground (arith, e))
behind-sleeps_on k k' t resource outside e x = absurd (ground (arith, e))

-- `sleepq_add` changes what no other thread waits for.
pub add-sleeps_on :
    (k k' : Kernel) (cpu resource : ℕ)
    → 0 < k.current cpu
    → add k true cpu resource ≡ ok k'
    → (x : ℕ)
    → (k'.threads x).sleeps_on ≡ (if k.current cpu == x then resource else (k.threads x).sleeps_on)
unfolding add
add-sleeps_on k k' cpu resource pt e x =
    elim (Bool-cases (is_positive (k.sleepq (hash resource)))) [
      | inl full ↦
          behind-sleeps_on k k' (k.current cpu) resource
            (find_tail max_threads (waiting_entry k (k.current cpu) resource)
              (to_index (k.sleepq (hash resource))))
            (sym (ground (arith, pt, full)) ∙ e) x
      | inr empty ↦ sym (ap (λ r. (threads_of k r x).sleeps_on) e) ∙ ground (arith, pt, empty)
    ]

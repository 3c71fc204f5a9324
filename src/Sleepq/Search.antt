-- ===== src/Sleepq/Search.antt =====
-- The search that both wake-ups make for the next thread that waits for a resource.
use aalto_buenos.Prelude.{
  ℕ, zero, suc, ◌<◌, ◌≡◌, ◌≢◌, refl, ap, arith, List, [], ◌∷◌, ◌++◌, length, ok, ℕ_discrete,
}
use aalto_buenos.Prelude.Int.{ℤ, pos, none_id}
use aalto_buenos.Threads.{Thread}
use aalto_buenos.Threads.Links.{Chain, All, last}
use aalto_buenos.Scheduler.Enqueue.{links}
use aalto_buenos.Sleepq.{find_waiter}

-- The last thread of the list, or `d`.
abbrev pub last_or : ℤ → List ℕ → ℤ
last_or d [] = d
last_or d (t ∷ ts) = pos (last t ts)

pub data Search (threads : ℕ → Thread) (resource fuel : ℕ) (prev first : ℤ) (ts : List ℕ)
    : Type 0 where
  hit :
      (front : List ℕ) (w : ℕ) (ls : List ℕ)
      → ts ≡ front ++ (w ∷ ls)
      → (threads w).sleeps_on ≡ resource
      → All (λ t. (threads t).sleeps_on ≢ resource) front
      → find_waiter fuel threads resource prev first ≡ ok (last_or prev front, pos w)
      → Search threads resource fuel prev first ts
  miss :
      All (λ t. (threads t).sleeps_on ≢ resource) ts
      → find_waiter fuel threads resource prev first ≡ ok (last_or prev ts, none_id)
      → Search threads resource fuel prev first ts

last_or-cons : (d : ℤ) (t : ℕ) (ts : List ℕ) → last_or (pos t) ts ≡ last_or d (t ∷ ts)
last_or-cons d t [] = refl
last_or-cons d t (x ∷ xs) = refl

pub search_lem :
    (threads : ℕ → Thread) (resource fuel : ℕ) (prev first : ℤ) (ts : List ℕ)
    → length ts < fuel
    → Chain (links threads) first ts
    → Search threads resource fuel prev first ts
unfolding find_waiter
search_lem threads resource zero prev first ts l c = absurd (omega arith)
search_lem threads resource (suc fuel) prev first [] l c = miss tt (rw c)
search_lem threads resource (suc fuel) prev first (t ∷ ts) l c =
    elim (ℕ_discrete ((threads t).sleeps_on) resource) [
      | yes e ↦ hit [] t ts refl e tt (ground (arith, c))
      | no ne ↦
          elim (search_lem threads resource fuel first (links threads t) ts (omega arith) c.2) [
            | hit front w ls s e a f ↦
                hit (t ∷ front) w ls (ap (◌∷◌ t) s) e (ne, a)
                  (ground (arith, c, f, last_or-cons prev t front))
            | miss a f ↦ miss (ne, a) (ground (arith, c, f, last_or-cons prev t ts))
          ]
    ]

-- ===== src/Lifecycle/Order.antt =====
-- The order of the timed sleepers with a thread put among them.
use aalto_buenos.Prelude.{ℕ, ◌≤◌, ◌≡◌, refl, arith, List, [], ◌∷◌, dec_lt, ltb-true, ltb-false}
use aalto_buenos.Threads.Links.{All, All-map}
use aalto_buenos.Scheduling.Sleepers.{IsSorted}
use aalto_buenos.Lifecycle.Walk.{insert_sleeper}

All-insert_sleeper {ℓ} :
    (P : ℕ → Type ℓ) (time : ℕ → ℕ) (t at : ℕ) (ts : List ℕ)
    → P t
    → All P ts
    → All P (insert_sleeper time t at ts)
unfolding insert_sleeper
All-insert_sleeper P time t at [] h a = (h, tt)
All-insert_sleeper P time t at (x ∷ xs) h a = elim (dec_lt at (time x)) [
  | yes lt ↦ rw (ltb-true lt) (h, a)
  | no le ↦
      rw (ltb-false {a = at} {b = time x} (omega (arith, le)))
        (a.0, All-insert_sleeper P time t at xs h a.1)
]

pub insert_sleeper-IsSorted :
    (time : ℕ → ℕ) (t : ℕ) (ts : List ℕ)
    → IsSorted time ts
    → IsSorted time (insert_sleeper time t (time t) ts)
unfolding insert_sleeper
insert_sleeper-IsSorted time t [] s = (tt, tt)
insert_sleeper-IsSorted time t (x ∷ xs) s = elim (dec_lt (time t) (time x)) [
  | yes lt ↦ rw (ltb-true lt) ((omega arith, All-map xs (λ y le. omega (arith, le, lt)) s.0), s)
  | no late ↦ rw (ltb-false {a = time t} {b = time x} (omega (arith, late))) (
    All-insert_sleeper (λ y. time x ≤ time y) time t (time t) xs (omega (arith, late)) s.0,
    insert_sleeper-IsSorted time t xs s.1,
  )
]

pub insert_sleeper-agree :
    (time time' : ℕ → ℕ) (t at : ℕ) (ts : List ℕ)
    → All (λ x. time' x ≡ time x) ts
    → insert_sleeper time' t at ts ≡ insert_sleeper time t at ts
unfolding insert_sleeper
insert_sleeper-agree time time' t at [] a = refl
insert_sleeper-agree time time' t at (x ∷ xs) a =
    rw (a.0, insert_sleeper-agree time time' t at xs a.1) refl

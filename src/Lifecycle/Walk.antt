-- ===== src/Lifecycle/Walk.antt =====
-- Where `thread_sleep` puts a thread among the timed sleepers.
use aalto_buenos.Prelude.{
  ℕ, zero, suc, ◌≤◌, ◌<◌, ◌≡◌, refl, ap, arith, List, [], ◌∷◌, ◌++◌, Bool, true, false,
  if◌then◌else◌, ltb, length, dec_lt, ltb-true, ltb-false, Result, ok,
}
use aalto_buenos.Prelude.Int.{ℤ, pos}
use aalto_buenos.Threads.{Thread}
use aalto_buenos.Threads.Links.{Chain, last}
use aalto_buenos.Scheduling.Sleepers.{sleeper_links, wakeup}
use aalto_buenos.Lifecycle.{find_place}

-- In front of the first thread that wakes up later.
unfoldable pub insert_sleeper : (ℕ → ℕ) → ℕ → ℕ → List ℕ → List ℕ
insert_sleeper time t at [] = t ∷ []
insert_sleeper time t at (x ∷ xs) =
    if ltb at (time x) then t ∷ x ∷ xs else x ∷ insert_sleeper time t at xs

-- How the walk over the sleepers `x ∷ xs` ends.
pub data Walk (threads : ℕ → Thread) (at : ℕ) (top : Bool) (x : ℕ) (xs : List ℕ) (prev : ℤ)
    (r : Result (ℕ × ℤ × Bool × Bool)) : Type 0 where
  at_tail :
      (prev' : ℤ) (top' : Bool)
      → ((t : ℕ) → insert_sleeper (wakeup threads) t at (x ∷ xs) ≡ (x ∷ xs) ++ (t ∷ []))
      → r ≡ ok (last x xs, prev', true, top')
      → Walk threads at top x xs prev r
  at_top :
      ((t : ℕ) → insert_sleeper (wakeup threads) t at (x ∷ xs) ≡ t ∷ x ∷ xs)
      → r ≡ ok (x, prev, false, top)
      → Walk threads at top x xs prev r
  inside :
      (front : List ℕ) (y : ℕ) (rest : List ℕ)
      → xs ≡ front ++ (y ∷ rest)
      → ((t : ℕ) → insert_sleeper (wakeup threads) t at (x ∷ xs) ≡ (x ∷ front) ++ (t ∷ y ∷ rest))
      → r ≡ ok (y, pos (last x front), false, false)
      → Walk threads at top x xs prev r

-- One more sleeper in front of the walk.
Walk-on :
    {threads : ℕ → Thread} {at x y : ℕ} {ys : List ℕ} {prev : ℤ} {top : Bool}
    {r : Result (ℕ × ℤ × Bool × Bool)}
    → wakeup threads x ≤ at
    → Walk threads at false y ys (pos x) r
    → Walk threads at top x (y ∷ ys) prev r
unfolding insert_sleeper
Walk-on le (at_tail prev' top' ins e) = at_tail prev' top' (λ t. rw (ltb-false le, ins t) refl) e
Walk-on {y = y} {ys} le (at_top ins e) = inside [] y ys refl (λ t. rw (ltb-false le, ins t) refl) e
Walk-on {y = y} le (inside front z rest split ins e) =
    inside (y ∷ front) z rest (ap (◌∷◌ y) split) (λ t. rw (ltb-false le, ins t) refl) e

pub find_place-Walk :
    (fuel : ℕ) (threads : ℕ → Thread) (at x : ℕ) (xs : List ℕ) (prev : ℤ) (top : Bool)
    → length xs < fuel
    → Chain (sleeper_links threads) (sleeper_links threads x) xs
    → Walk threads at top x xs prev (find_place fuel threads at x prev top)
unfolding find_place insert_sleeper
find_place-Walk zero threads at x xs prev top l c = absurd (omega arith)
find_place-Walk (suc fuel) threads at x [] prev top l c = elim (dec_lt at (wakeup threads x)) [
  | yes lt ↦ at_top (λ t. rw (ltb-true lt) refl) (rw (ltb-true lt) refl)
  | no late ↦ at_tail prev top (λ t. ground (arith, late)) (ground (arith, late, c))
]
find_place-Walk (suc fuel) threads at x (y ∷ ys) prev top l c =
    elim (dec_lt at (wakeup threads x)) [
      | yes lt ↦ at_top (λ t. rw (ltb-true lt) refl) (rw (ltb-true lt) refl)
      | no late ↦
          rw (c.0, ltb-false {a = at} {b = wakeup threads x} (omega (arith, late)))
            (Walk-on (omega (arith, late))
              (find_place-Walk fuel threads at y ys (pos x) false (omega arith) c.2))
    ]

-- ===== src/Threads/Bounded.antt =====
-- A list of distinct thread numbers below a bound is no longer than the bound, so that a walk along
-- it of as many steps comes to its end.
use aalto_buenos.Prelude.{
  ℕ, zero, suc, ◌≤◌, ◌<◌, ◌≡◌, ◌≢◌, refl, arith, List, [], ◌∷◌, if◌then◌else◌, ◌==◌, length,
  ℕ_discrete, Bool-cases, inl, inr,
}
use aalto_buenos.Threads.Links.{All, NotIn, Distinct}

abbrev pub Below : ℕ → List ℕ → Type 0
Below n = All (λ t. t < n)

-- The list without the number `n`.
without : ℕ → List ℕ → List ℕ
without n [] = []
without n (t ∷ ts) = if n == t then without n ts else t ∷ without n ts

All-without {ℓ} : (P : ℕ → Type ℓ) (n : ℕ) (ts : List ℕ) → All P ts → All P (without n ts)
unfolding without
All-without P n [] a = tt
All-without P n (t ∷ ts) a = elim (Bool-cases (n == t)) [
  | inl e ↦ rw e (All-without P n ts a.1)
  | inr e ↦ rw e (a.0, All-without P n ts a.1)
]

Below-without : (n : ℕ) (ts : List ℕ) → Below (suc n) ts → Below n (without n ts)
unfolding without
Below-without n [] b = tt
Below-without n (t ∷ ts) b = elim (Bool-cases (n == t)) [
  | inl e ↦ rw e (Below-without n ts b.1)
  | inr e ↦ rw e (ground arith, Below-without n ts b.1)
]

Distinct-without : (n : ℕ) (ts : List ℕ) → Distinct ts → Distinct (without n ts)
unfolding without
Distinct-without n [] d = tt
Distinct-without n (t ∷ ts) d = elim (Bool-cases (n == t)) [
  | inl e ↦ rw e (Distinct-without n ts d.1)
  | inr e ↦ rw e (All-without (λ x. t ≢ x) n ts d.0, Distinct-without n ts d.1)
]

without_absent : (n : ℕ) (ts : List ℕ) → NotIn n ts → length (without n ts) ≡ length ts
unfolding without
without_absent n [] a = refl
without_absent n (t ∷ ts) a = ground (arith, a.0, without_absent n ts a.1)

length-le-without : (n : ℕ) (ts : List ℕ) → Distinct ts → length ts ≤ suc (length (without n ts))
unfolding without
length-le-without n [] d = omega arith
length-le-without n (t ∷ ts) d = elim (ℕ_discrete n t) [
  | yes e ↦ ground (arith, without_absent n ts (rw e d.0))
  | no ne ↦ ground (arith, length-le-without n ts d.1)
]

pub length-le_of_Distinct : (n : ℕ) (ts : List ℕ) → Distinct ts → Below n ts → length ts ≤ n
length-le_of_Distinct n [] d b = omega arith
length-le_of_Distinct zero (t ∷ ts) d b = absurd (omega arith)
length-le_of_Distinct (suc n) (t ∷ ts) d b = omega (
  arith,
  length-le-without n (t ∷ ts) d,
  length-le_of_Distinct n (without n (t ∷ ts)) (Distinct-without n (t ∷ ts) d)
      (Below-without n (t ∷ ts) b),
)

-- ===== src/Process/Children.antt =====
-- The process table: starting a process, and the list of children that a parent keeps.
use aalto_buenos.Prelude.{
  ℕ, zero, suc, ◌+◌, ◌≤◌, ◌<◌, ◌≡◌, refl, ap, ◌∙◌, List, [], ◌∷◌, Bool, true, false, ◌&&◌, arith,
  Option, none, some, ℕ_discrete, Bool-cases, inl, inr,
}
use mathlib.Core.Path.{subst}
use aalto_buenos.Prelude.Int.{ℤ, pos, negsuc, none_id, eq_ℤ}
use aalto_buenos.Threads.Links.{All}
use aalto_buenos.Process.{Proc, Table, find_free}

-- The list that starts at `h` and follows `next` is `cs`.
abbrev pub Siblings : (ℕ → ℤ) → ℤ → List ℕ → Type 0
Siblings next h [] = h ≡ none_id
Siblings next h (c ∷ cs) = (h ≡ pos c) × Siblings next (next c) cs

abbrev pub next_of : Table → ℕ → ℤ
next_of table i = (table i).next

-- The children of a process, the last one first.
abbrev pub Children : Table → ℕ → List ℕ → Type 0
Children table p cs = Siblings (next_of table) (table p).last_child_pid cs

abbrev pub IsFree : Proc → Type 0
IsFree p = (p.tid ≡ none_id) × (p.parent_pid ≡ none_id)

pub Siblings-agree :
    (next next' : ℕ → ℤ) (h : ℤ) (cs : List ℕ)
    → All (λ c. next' c ≡ next c) cs
    → Siblings next h cs
    → Siblings next' h cs
Siblings-agree next next' h [] all s = s
Siblings-agree next next' h (c ∷ cs) (e, all) (here, s) =
    (here, rw e (Siblings-agree next next' (next c) cs all s))

pub eq_ℤ-none_id : (x : ℤ) → eq_ℤ x none_id ≡ true → x ≡ none_id
eq_ℤ-none_id (pos n) e = cc
eq_ℤ-none_id (negsuc n) e = ap negsuc (ground (arith, e))

-- What the search for a free row finds.
pub data FreeOutcome (n i : ℕ) (table : Table) (r : Option ℕ) : Type 0 where
  no_row : r ≡ none → ((j : ℕ) → i ≤ j → j < i + n → ¬ IsFree (table j)) → FreeOutcome n i table r
  row :
      (k : ℕ)
      → r ≡ some k
      → i ≤ k
      → k < i + n
      → IsFree (table k)
      → ((j : ℕ) → i ≤ j → j < k → ¬ IsFree (table j))
      → FreeOutcome n i table r

is_free_row : Proc → Bool
is_free_row p = eq_ℤ p.tid none_id && eq_ℤ p.parent_pid none_id

is_free_row-true : (p : Proc) → is_free_row p ≡ true → IsFree p
unfolding is_free_row
is_free_row-true p e =
    (eq_ℤ-none_id p.tid (ground (arith, e)), eq_ℤ-none_id p.parent_pid (ground (arith, e)))

is_free_row-false : (p : Proc) → is_free_row p ≡ false → ¬ IsFree p
unfolding is_free_row
is_free_row-false p e (t, par) =
    let test : (eq_ℤ p.tid none_id && eq_ℤ p.parent_pid none_id) ≡ true =
      ap (λ x. eq_ℤ x none_id && eq_ℤ p.parent_pid none_id) t ∙ ap (λ x. eq_ℤ x none_id) par in
    ground (arith, test, e)

pub find_free-FreeOutcome : (n i : ℕ) (table : Table) → FreeOutcome n i table (find_free n i table)
unfolding find_free is_free_row
find_free-FreeOutcome zero i table = no_row refl (λ j lo hi. absurd (omega arith))
find_free-FreeOutcome (suc n) i table = elim (Bool-cases (is_free_row (table i))) [
  | inl e ↦
      row i (rw e refl) (omega arith) (omega arith) (is_free_row-true (table i) e)
        (λ j lo hi. absurd (omega arith))
  | inr e ↦ rw e (later (is_free_row-false (table i) e) (find_free-FreeOutcome n (i + 1) table))
]
  where
    from_here :
        ¬ IsFree (table i)
        → (k : ℕ) → ((j : ℕ) → i + 1 ≤ j → j < k → ¬ IsFree (table j))
        → (j : ℕ) → i ≤ j
        → j < k
        → ¬ IsFree (table j)
    from_here nf k all j lo hi = elim (ℕ_discrete i j) [
      | yes e ↦ subst (λ x. ¬ IsFree (table x)) {x = i} e nf
      | no ne ↦ all j (omega arith) hi
    ]

    later :
        ¬ IsFree (table i)
        → FreeOutcome n (i + 1) table (find_free n (i + 1) table)
        → FreeOutcome (suc n) i table (find_free n (i + 1) table)
    later nf (no_row e all) = no_row e (λ j lo hi. from_here nf (i + 1 + n) all j lo (omega arith))
    later nf (row k e lo hi free all) =
        row k e (omega arith) (omega arith) free (from_here nf k all)

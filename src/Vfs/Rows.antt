-- ===== src/Vfs/Rows.antt =====
-- fs/vfs.c: what a search for a row finds, and what a lookup of a mountpoint finds.
use aalto_buenos.Prelude.{
  ℕ, zero, suc, ◌≤◌, ◌<◌, ◌≡◌, refl, ◌∙◌, ap, inl, inr, List, [], ◌∷◌, ◌++◌, Bool, true, false,
  if◌then◌else◌, length, get_or, set, drop, sym, ◌↔◌, Option, some, arith, Bool-cases, dec_lt,
}
use mathlib.Core.Path.{subst}
use aalto_buenos.Prelude.Int.{ℤ, pos, negsuc, eq_ℤ}
use aalto_buenos.Prelude.Outcomes.{ret, ◌>>=◌, accessed}
use aalto_buenos.Libc.{stringcmp}
use aalto_buenos.Libc.Strings.{IsText, stringcmp_lem}
use aalto_buenos.Vfs.{Entry, no_entry, find_row}
use aalto_buenos.Vfs.Mounts.{find_mountpoint}

-- The row is the first that satisfies the test, or all rows fail it.
pub record IsFirstRow {ℓ} {A : Type ℓ} (p : A → Bool) (rows : List A) (d : A) (i : ℕ) : Type ℓ where
  pub below : i ≤ length rows
  pub here : i < length rows → p (get_or rows i d) ≡ true
  pub before : (j : ℕ) → j < i → p (get_or rows j d) ≡ false

pub find_row-IsFirstRow {ℓ} :
    {A : Type ℓ} (p : A → Bool) (rows : List A) (d : A) → IsFirstRow p rows d (find_row p rows)
unfolding find_row
find_row-IsFirstRow p [] d = record {
  below = omega arith;
  here = λ h. absurd (omega arith);
  before = λ j h. absurd (omega arith);
}
find_row-IsFirstRow {A} p (row ∷ rows) d = elim (Bool-cases (p row)) [
  | inl e ↦
      rw e (record { below = omega arith; here = λ h. e; before = λ j h. absurd (omega arith) })
  | inr e ↦ rw e (later e (find_row-IsFirstRow p rows d))
]
  where
    earlier :
        p row ≡ false
        → IsFirstRow p rows d (find_row p rows)
        → (j : ℕ) → j < suc (find_row p rows)
        → p (get_or (row ∷ rows) j d) ≡ false
    earlier e r zero h = e
    earlier e r (suc j) h = r.before j (omega arith)

    later :
        p row ≡ false
        → IsFirstRow p rows d (find_row p rows)
        → IsFirstRow p (row ∷ rows) d (suc (find_row p rows))
    later e r = record {
      below = omega (arith, r.below);
      here = λ h. r.here (omega arith);
      before = earlier e r;
    }

-- A mountpoint is the text `name`, with its zero and whatever stands behind it.
pub record IsNamed (e : Entry) : Type 0 where
  pub name : List ℕ
  pub rest : List ℕ
  pub text : IsText name
  pub bytes : e.mountpoint ≡ name ++ (0 ∷ rest)

abbrev pub AreNamed : List Entry → Type 0
AreNamed [] = Unit {0}
AreNamed (e ∷ rows) = IsNamed e × AreNamed rows

-- The mountpoint of the row is the text `t`.
abbrev pub IsCalled : List ℕ → Entry → Type 0
IsCalled t e = (rest : List ℕ) × (e.mountpoint ≡ t ++ (0 ∷ rest))

-- The row is the first that is called `t`, or no row is.
pub record IsMountpoint (rows : List Entry) (t : List ℕ) (i : ℕ) : Type 0 where
  pub below : i ≤ length rows
  pub here : i < length rows → IsCalled t (get_or rows i no_entry)
  pub before : (j : ℕ) → j < i → ¬ IsCalled t (get_or rows j no_entry)

pub text_unique : (a b x y : List ℕ) → IsText a → IsText b → a ++ (0 ∷ x) ≡ b ++ (0 ∷ y) → a ≡ b
text_unique [] [] x y ta tb e = refl
text_unique [] (d ∷ b) x y ta (nd, hd, tb) e = absurd (nd (sym (ap (λ s. get_or s 0 0) e)))
text_unique (c ∷ a) [] x y (nc, hc, ta) tb e = absurd (nc (ap (λ s. get_or s 0 0) e))
text_unique (c ∷ a) (d ∷ b) x y (nc, hc, ta) (nd, hd, tb) e =
    let head : c ≡ d = ap (λ s. get_or s 0 0) e in
    let tail : a ≡ b = text_unique a b x y ta tb (ap (drop 1) e) in λ i. head i ∷ tail i

-- The comparison of a row's mountpoint with a text decides whether the row is called that.
data CallOutcome (t : List ℕ) (e : Entry) (r : Option ℤ) : Type 0 where
  same : IsCalled t e → r ≡ some (pos 0) → CallOutcome t e r
  other : (d : ℤ) → ¬ IsCalled t e → eq_ℤ d (pos 0) ≡ false → r ≡ some d → CallOutcome t e r

eq_ℤ-zero : (d : ℤ) → eq_ℤ d (pos 0) ≡ true → d ≡ pos 0
eq_ℤ-zero (pos n) h = ground (arith, h)
eq_ℤ-zero (negsuc n) h = cc

stringcmp-CallOutcome :
    (t y : List ℕ) (e : Entry)
    → IsText t
    → IsNamed e
    → CallOutcome t e (stringcmp e.mountpoint (t ++ (0 ∷ y)))
stringcmp-CallOutcome t y e is_text n =
    subst (λ m. CallOutcome t e (stringcmp m (t ++ (0 ∷ y)))) {x = n.name ++ (0 ∷ n.rest)}
      (sym n.bytes) (go (stringcmp_lem n.name t n.rest y n.text is_text))
  where
    go :
        (r : ℤ) × (stringcmp (n.name ++ (0 ∷ n.rest)) (t ++ (0 ∷ y)) ≡ some r)
          × ((r ≡ pos 0) ↔ (n.name ≡ t))
        → CallOutcome t e (stringcmp (n.name ++ (0 ∷ n.rest)) (t ++ (0 ∷ y)))
    go (r, run, iff) = elim (Bool-cases (eq_ℤ r (pos 0))) [
      | inl z ↦
          let zero_r : r ≡ pos 0 = eq_ℤ-zero r z in
          same (n.rest, n.bytes ∙ ap (λ s. s ++ (0 ∷ n.rest)) (iff.0 zero_r)) (run ∙ ap some zero_r)
      | inr nz ↦ other r (λ c. not_called nz c) nz run
    ]
      where
        not_called : eq_ℤ r (pos 0) ≡ false → ¬ IsCalled t e
        not_called nz (rest, bytes) =
            let zero_r : r ≡ pos 0 =
              iff.1 (text_unique n.name t n.rest rest n.text is_text (sym n.bytes ∙ bytes)) in
            let zero_test : eq_ℤ r (pos 0) ≡ true = ap (λ z. eq_ℤ z (pos 0)) zero_r in cc

-- A lookup finds the first row that is called the text, or goes through all rows.
pub find_mountpoint-IsMountpoint :
    (rows : List Entry) (t y : List ℕ)
    → AreNamed rows
    → IsText t
    → (i : ℕ) × (find_mountpoint rows (t ++ (0 ∷ y)) ≡ ret i) × IsMountpoint rows t i
unfolding find_mountpoint
find_mountpoint-IsMountpoint [] t y named text = (
  0,
  refl,
  record {
    below = omega arith;
    here = λ h. absurd (omega arith);
    before = λ j h. absurd (omega arith);
  },
)
find_mountpoint-IsMountpoint (e ∷ rows) t y (n, named) text =
    row (stringcmp e.mountpoint (t ++ (0 ∷ y))) (stringcmp-CallOutcome t y e text n)
      (find_mountpoint-IsMountpoint rows t y named text)
  where
    Found : Option ℤ → Type 0
    Found r =
        (i : ℕ) × ((accessed r >>= λ d.
        if eq_ℤ d (pos 0) then ret 0 else find_mountpoint rows (t ++ (0 ∷ y)) >>= λ k. ret (suc k))
          ≡ ret i)
        × IsMountpoint (e ∷ rows) t i

    before_suc :
        (k : ℕ)
        → ¬ IsCalled t e
        → IsMountpoint rows t k
        → (j : ℕ) → j < suc k
        → ¬ IsCalled t (get_or (e ∷ rows) j no_entry)
    before_suc k nc m zero h = nc
    before_suc k nc m (suc j) h = m.before j (omega arith)

    row :
        (r : Option ℤ)
        → CallOutcome t e r
        → (i : ℕ) × (find_mountpoint rows (t ++ (0 ∷ y)) ≡ ret i) × IsMountpoint rows t i
        → Found r
    row r (same c e') rest = (
      0,
      rw e' refl,
      record { below = omega arith; here = λ h. c; before = λ j h. absurd (omega arith) },
    )
    row r (other d nc nz e') (k, run, m) = (
      suc k,
      rw (e', nz, run) refl,
      record {
        below = omega (arith, m.below);
        here = λ h. m.here (omega arith);
        before = before_suc k nc m;
      },
    )

-- A lookup goes by the mountpoints alone.
pub find_mountpoint-set :
    (rows : List Entry) (i fs : ℕ) (name : List ℕ)
    → find_mountpoint (set rows i (record (get_or rows i no_entry) { filesystem = fs })) name
      ≡ find_mountpoint rows name
unfolding find_mountpoint
find_mountpoint-set [] i fs name = refl
find_mountpoint-set (e ∷ rows) zero fs name = refl
find_mountpoint-set (e ∷ rows) (suc i) fs name = rw (find_mountpoint-set rows i fs name) refl

pub IsMountpoint-unique :
    (rows : List Entry) (t : List ℕ) (i j : ℕ)
    → IsMountpoint rows t i
    → IsMountpoint rows t j
    → i ≡ j
IsMountpoint-unique rows t i j mi mj = elim (dec_lt i j) [
  | yes lt ↦ absurd (mj.before i lt (mi.here (omega (arith, mj.below))))
  | no ge ↦ elim (dec_lt j i) [
    | yes lt ↦ absurd (mi.before j lt (mj.here (omega (arith, mi.below))))
    | no ge' ↦ omega arith
  ]
]

-- A lookup that is known to be for the row `i` finds it.
pub IsMountpoint-find_mountpoint :
    (rows : List Entry) (t y : List ℕ) (i : ℕ)
    → AreNamed rows
    → IsText t
    → IsMountpoint rows t i
    → find_mountpoint rows (t ++ (0 ∷ y)) ≡ ret i
IsMountpoint-find_mountpoint rows t y i named text mi =
    go (find_mountpoint-IsMountpoint rows t y named text)
  where
    go :
        (j : ℕ) × (find_mountpoint rows (t ++ (0 ∷ y)) ≡ ret j) × IsMountpoint rows t j
        → find_mountpoint rows (t ++ (0 ∷ y)) ≡ ret i
    go (j, run, mj) = run ∙ ap ret (IsMountpoint-unique rows t j i mj mi)

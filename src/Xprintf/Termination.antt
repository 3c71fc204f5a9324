-- ===== src/Xprintf/Termination.antt =====
-- vxnprintf of lib/xprintf.c: formats on which its loops end, and formats on which they do not.
use aalto_buenos.Prelude.{
  ℕ, zero, suc, ◌+◌, ◌-◌, ◌*◌, ◌%◌, ◌^◌, ◌≤◌, ◌<◌, ◌≡◌, ◌≢◌, refl, List, [], ◌∷◌, Bool, true, false,
  if◌then◌else◌, length, arith, if-holds, ◌==◌, ◌&&◌, leb, ltb, not, Bool-cases, inl, inr, ◌||◌,
  ltb-true,
}
use mathlib.Core.Path.{subst}
use aalto_buenos.Prelude.Int.{ℤ, pos}
use aalto_buenos.Xprintf.{
  Run, done, outside, hang, then_do, Modifiers, Modifier, more, no_more, Arg, number, text, Out,
  Step, go_on, break, scan_int, set_prec, set_width, read_modifier, read_modifiers, use_number,
  use_text, put_text, convert, convert_behind, print_step, print_loop, finish, vxnprintf, snprintf,
  no_modifiers, put, text_room,
}

-- The format has no digit nine.
abbrev pub HasNoNine : List ℕ → Type 0
HasNoNine [] = Unit {0}
HasNoNine (c ∷ fmt) = (c ≢ 57) × HasNoNine fmt

-- The run has ended, and `P` holds of what it returned.
abbrev pub Ends {ℓ} : {A : Type ℓ} → (A → Type 0) → Run A → Type 0
Ends P (done a) = P a
Ends P outside = Unit {0}
Ends P hang = ⊥

Ends-then_do {ℓ κ} :
    {A : Type ℓ} {B : Type κ} (P : A → Type 0) (Q : B → Type 0) (r : Run A) (next : A → Run B)
    → Ends P r
    → ((a : A) → P a → Ends Q (next a))
    → Ends Q (then_do r next)
Ends-then_do P Q (done a) next h step = step a h
Ends-then_do P Q outside next h step = tt
Ends-then_do P Q hang next h step = elim h [ ]

-- A rest of a format, no longer than `n`.
abbrev pub IsRest : ℕ → List ℕ → Type 0
IsRest n fmt = (length fmt ≤ n) × HasNoNine fmt

abbrev pub IsRestOfScan : ℕ → ℕ × List ℕ → Type 0
IsRestOfScan n (value, fmt) = IsRest n fmt

scan_int-Ends : (n value : ℕ) (s : List ℕ) → IsRest n s → Ends (IsRestOfScan n) (scan_int value s)
unfolding scan_int
scan_int-Ends n value [] h = tt
scan_int-Ends n value (c ∷ s) (le, (ne, all)) =
    if-holds (Ends (IsRestOfScan n)) (ltb 48 c && ltb c 57) _ _
      (scan_int-Ends n ((10 * value + (c - 48)) % 2 ^ 32) s (omega arith, all)) (le, (ne, all))

scan_width-Ends :
    (n ch : ℕ) (fmt : List ℕ)
    → IsRest n fmt
    → ch ≢ 57
    → (leb 49 ch && leb ch 57) ≡ true
    → Ends (IsRestOfScan n) (scan_int 0 (ch ∷ fmt))
unfolding scan_int
scan_width-Ends n ch fmt h ne test =
    let consumed : (ltb 48 ch && ltb ch 57) ≡ true = ground (arith, test, ne) in
    rw consumed (scan_int-Ends n ((10 * 0 + (ch - 48)) % 2 ^ 32) fmt h)

abbrev pub IsRestOfModifier : ℕ → Modifier → Type 0
IsRestOfModifier n (more m fmt) = IsRest n fmt
IsRestOfModifier n no_more = Unit {0}

read_modifier-Ends :
    (n : ℕ) (m : Modifiers) (ch : ℕ) (fmt : List ℕ)
    → IsRest n fmt
    → ch ≢ 57
    → Ends (IsRestOfModifier n) (read_modifier m ch fmt)
unfolding read_modifier
read_modifier-Ends n m ch fmt h ne = test (ch == 35) _ _ h (
    test (ch == 48) _ _ h (
      test (ch == 32) _ _ h (
        test (ch == 43) _ _ h (
          test (ch == 45) _ _ h (
            test (ch == 46) _ _
              (Ends-then_do (IsRestOfScan n) (IsRestOfModifier n) (scan_int 0 fmt) (set_prec m)
                (scan_int-Ends n 0 fmt h) (λ r k. keep_prec r k))
              width)))))
  where
    test :
        (b : Bool) (x y : Run Modifier)
        → Ends (IsRestOfModifier n) x
        → Ends (IsRestOfModifier n) y
        → Ends (IsRestOfModifier n) (if b then x else y)
    test = if-holds (Ends (IsRestOfModifier n))

    keep_prec : (r : ℕ × List ℕ) → IsRestOfScan n r → Ends (IsRestOfModifier n) (set_prec m r)
    keep_prec (value, rest) k = k

    keep_width : (r : ℕ × List ℕ) → IsRestOfScan n r → Ends (IsRestOfModifier n) (set_width m r)
    keep_width (value, rest) k = k

    width : Ends (IsRestOfModifier n) (
        if leb 49 ch && leb ch 57
        then then_do (scan_int 0 (ch ∷ fmt)) (set_width m)
        else done no_more)
    width = elim (Bool-cases (leb 49 ch && leb ch 57)) [
      | inl e ↦ rw e (
          Ends-then_do (IsRestOfScan n) (IsRestOfModifier n) (scan_int 0 (ch ∷ fmt)) (set_width m)
            (scan_width-Ends n ch fmt h ne e) (λ r k. keep_width r k))
      | inr e ↦ rw e tt
    ]

abbrev pub IsRestOfModifiers : ℕ → Modifiers × ℕ × List ℕ → Type 0
IsRestOfModifiers n (m, ch, fmt) = IsRest n fmt

read_modifiers-Ends :
    (n fuel : ℕ) (m : Modifiers) (ch : ℕ) (fmt : List ℕ)
    → length fmt < fuel
    → IsRest n fmt
    → ch ≢ 57
    → Ends (IsRestOfModifiers n) (read_modifiers fuel m ch fmt)
unfolding read_modifiers
read_modifiers-Ends n zero m ch fmt lt h ne = absurd (omega arith)
read_modifiers-Ends n (suc fuel) m ch fmt lt h ne =
    round (read_modifier m ch fmt) (read_modifier-Ends (length fmt) m ch fmt (omega arith, h.1) ne)
      (λ m' c rest l k ne'. read_modifiers-Ends n fuel m' c rest l k ne')
  where
    round :
        (r : Run Modifier)
        → Ends (IsRestOfModifier (length fmt)) r
        → ((m' : Modifiers) (c : ℕ) (rest : List ℕ)
            → length rest < fuel
            → IsRest n rest
            → c ≢ 57
            → Ends (IsRestOfModifiers n) (read_modifiers fuel m' c rest))
        → Ends (IsRestOfModifiers n) (elim r [
          | done (more m' []) ↦ outside
          | done (more m' (c ∷ rest)) ↦
              let next = read_modifiers fuel m' c rest in
              if c == 0 then done (m', 0, rest) else next
          | done no_more ↦ done (m, ch, fmt)
          | outside ↦ outside
          | hang ↦ hang
        ])
    round (done (more m' [])) k later = tt
    round (done (more m' (c ∷ rest))) (le, (ne', all)) later =
        if-holds (Ends (IsRestOfModifiers n)) (c == 0) _ _ (omega (arith, h.0), all)
          (later m' c rest (omega arith) (omega (arith, h.0), all) ne')
    round (done no_more) k later = h
    round outside k later = tt
    round hang k later = elim k [ ]

-- `Ends` of a run that never hangs
abbrev pub Returns : Run Out → Type 0
Returns r = Ends (λ (o : Out). Unit {0}) r

put_text-Returns : (tty : Bool) (n : ℕ) (s : List ℕ) (o : Out) → Returns (put_text tty n s o)
unfolding put_text
put_text-Returns tty zero s o = tt
put_text-Returns tty (suc n) [] o = tt
put_text-Returns tty (suc n) (c ∷ s) o =
    if-holds Returns (c == 0) _ _ tt (put_text-Returns tty n s (put tty c o))

use_number-Returns : (args : List Arg) (o : Out) (f : ℕ → Out → Out) → Returns (use_number args o f)
use_number-Returns [] o f = tt
use_number-Returns (number n ∷ args) o f = tt
use_number-Returns (text s ∷ args) o f = tt

use_text-Returns :
    (args : List Arg) (o : Out) (f : List ℕ → Out → Run Out)
    → ((s : List ℕ) (o' : Out) → Returns (f s o'))
    → Returns (use_text args o f)
use_text-Returns [] o f h = tt
use_text-Returns (number n ∷ args) o f h = tt
use_text-Returns (text s ∷ args) o f h = h s _

convert-Returns :
    (tty : Bool) (size : ℕ) (m : Modifiers) (ch : ℕ) (o : Out) → Returns (convert tty size m ch o)
unfolding convert
convert-Returns tty size m ch o = test (ch == 105 || ch == 100) _ _ (numeric _) (
    test (ch == 111) _ _ (numeric _) (
      test (ch == 117) _ _ (numeric _) (
        test (ch == 112) _ _ (numeric _) (
          test (ch == 120) _ _ (numeric _) (
            test (ch == 88) _ _ (numeric _) (
              test (ch == 99) _ _ (numeric _) (
                test (ch == 115) _ _
                  (use_text-Returns o.args o _
                    (λ s o'. put_text-Returns tty (text_room size m.prec o'.written) s o'))
                  tt)))))))
  where
    test : (b : Bool) (x y : Run Out) → Returns x → Returns y → Returns (if b then x else y)
    test = if-holds Returns

    numeric : (f : ℕ → Out → Out) → Returns (use_number o.args o f)
    numeric f = use_number-Returns o.args o f

-- A round breaks, or goes on with a shorter format.
abbrev pub IsShorter : ℕ → Step → Type 0
IsShorter n (go_on fmt o) = (length fmt < n) × HasNoNine fmt
IsShorter n (break o) = Unit {0}

print_step-Ends :
    (tty : Bool) (size fuel : ℕ) (fmt : List ℕ) (o : Out)
    → length fmt < suc fuel
    → HasNoNine fmt
    → Ends (IsShorter (length fmt)) (print_step tty size fuel fmt o)
unfolding print_step convert_behind
print_step-Ends tty size fuel [] o lt all = tt
print_step-Ends tty size fuel (c ∷ []) o lt (ne, all) =
    if-holds (Ends (IsShorter 1)) (c == 0) _ _ tt
      (if-holds (Ends (IsShorter 1)) (not (c == 37)) _ _ (omega arith, all) tt)
print_step-Ends tty size fuel (c ∷ ch ∷ rest) o lt (nc, (ne, all)) =
    if-holds (Ends (IsShorter (length (c ∷ ch ∷ rest)))) (c == 0) _ _ tt (
      if-holds (Ends (IsShorter (length (c ∷ ch ∷ rest)))) (not (c == 37)) _ _
        (omega arith, (ne, all))
        (if-holds (Ends (IsShorter (length (c ∷ ch ∷ rest)))) (ch == 0) _ _ tt (
          Ends-then_do (IsRestOfModifiers (length rest)) (IsShorter (length (c ∷ ch ∷ rest)))
            (read_modifiers fuel no_modifiers ch rest) (convert_behind tty size o)
            (read_modifiers-Ends (length rest) fuel no_modifiers ch rest (omega arith)
              (omega arith, all) ne)
            behind)))
  where
    behind :
        (r : Modifiers × ℕ × List ℕ)
        → IsRestOfModifiers (length rest) r
        → Ends (IsShorter (length (c ∷ ch ∷ rest))) (convert_behind tty size o r)
    behind (m, ch', fmt) (le, all') =
        if-holds (Ends (IsShorter (length (c ∷ ch ∷ rest)))) (ch' == 0) _ _ tt (
          Ends-then_do (λ (o' : Out). Unit {0}) (IsShorter (length (c ∷ ch ∷ rest)))
            (convert tty size m ch' o) (λ o'. done (go_on fmt o'))
            (convert-Returns tty size m ch' o) (λ o' u. (omega arith, all')))

print_loop-Returns :
    (tty : Bool) (size fuel : ℕ) (fmt : List ℕ) (o : Out)
    → length fmt < fuel
    → HasNoNine fmt
    → Returns (print_loop tty size fuel fmt o)
unfolding print_loop
print_loop-Returns tty size zero fmt o lt all = absurd (omega arith)
print_loop-Returns tty size (suc fuel) fmt o lt all =
    if-holds Returns (ltb o.written size) _ _
      (round (λ fmt' o' l a. print_loop-Returns tty size fuel fmt' o' l a)
        (print_step tty size fuel fmt o) (print_step-Ends tty size fuel fmt o lt all))
      tt
  where
    round :
        ((fmt' : List ℕ) (o' : Out)
          → length fmt' < fuel
          → HasNoNine fmt'
          → Returns (print_loop tty size fuel fmt' o'))
        → (r : Run Step) → Ends (IsShorter (length fmt)) r
        → Returns (elim r [
          | done (go_on fmt' o') ↦ print_loop tty size fuel fmt' o'
          | done (break o') ↦ done o'
          | outside ↦ outside
          | hang ↦ hang
        ])
    round later (done (go_on fmt' o')) (l, a) = later fmt' o' (omega arith) a
    round later (done (break o')) h = tt
    round later outside h = tt
    round later hang h = elim h [ ]

-- On a format that holds no digit nine, `snprintf` ends: one round of each loop for every character
-- of the format, and one more, is enough.
pub snprintf-ends :
    (size fuel : ℕ) (fmt : List ℕ) (args : List Arg)
    → HasNoNine fmt
    → length fmt < fuel
    → snprintf size fmt args fuel ≢ hang
unfolding snprintf vxnprintf finish
snprintf-ends size fuel fmt args all lt e =
    subst (Ends (λ (r : List ℕ × ℤ). Unit {0})) {x = snprintf size fmt args fuel} e (
      if-holds (Ends (λ (r : List ℕ × ℤ). Unit {0})) (size == 0) _ _ tt (
        Ends-then_do (λ (o : Out). Unit {0}) (λ (r : List ℕ × ℤ). Unit {0})
          (print_loop false size fuel fmt start) (finish false size)
          (print_loop-Returns false size fuel fmt start lt all)
          (λ o u. if-holds (Ends (λ (r : List ℕ × ℤ). Unit {0})) (o.written == size) _ _ tt tt)))
  where
    start : Out
    start = record { chars = []; written = 0; args = args }

read_modifiers-nine :
    (fuel : ℕ) (m : Modifiers) (fmt : List ℕ) → read_modifiers fuel m 57 fmt ≡ hang
unfolding read_modifiers read_modifier scan_int
read_modifiers-nine zero m fmt = refl
read_modifiers-nine (suc fuel) m fmt = read_modifiers-nine fuel (record m { width = pos 0 }) fmt

print_loop-nine :
    (size fuel : ℕ) (fmt : List ℕ) (o : Out)
    → o.written < size
    → print_loop false size fuel (37 ∷ 57 ∷ fmt) o ≡ hang
unfolding print_loop print_step
print_loop-nine size zero fmt o lt = refl
print_loop-nine size (suc fuel) fmt o lt =
    simp (ltb-true lt, read_modifiers-nine fuel no_modifiers fmt) refl

pub snprintf-nine_hangs :
    (size fuel : ℕ) (fmt : List ℕ) (args : List Arg)
    → 0 < size
    → snprintf size (37 ∷ 57 ∷ fmt) args fuel ≡ hang
unfolding snprintf vxnprintf
snprintf-nine_hangs size fuel fmt args lt =
    let test : (size == 0) ≡ false = ground (arith, lt) in
    simp (test, print_loop-nine size fuel fmt (record { chars = []; written = 0; args = args }) lt)
      refl

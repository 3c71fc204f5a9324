-- ===== src/Xprintf/Bounds.antt =====
-- vxnprintf of lib/xprintf.c: how much it writes into a buffer.
use aalto_buenos.Prelude.{
  length-take, ℕ, zero, suc, ◌+◌, ◌-◌, ◌%◌, ◌≤◌, ◌<◌, ◌≡◌, refl, ap, ◌⊎◌, inl, inr, List, [], ◌∷◌,
  ◌++◌, Bool, true, false, if◌then◌else◌, length, length-append, take, arith, if-holds, ◌==◌, ◌||◌,
  Bool-cases, ltb, ltb-true, dec_lt, ltb-false, not, ==-false, ℕ_discrete,
}
use mathlib.Core.Path.{subst}
use aalto_buenos.Prelude.Int.{ℤ, pos, negsuc, none_id}
use aalto_buenos.Xprintf.{
  Run, done, outside, hang, then_do, Flags, Modifiers, Arg, number, text, Out, printc, put, put_all,
  print_uint, put_sign, put_signed, put_unsigned, put_hex, put_text, text_room, use_number,
  use_text, convert, Step, go_on, break, convert_behind, print_step, print_loop, finish, vxnprintf,
  snprintf, is_minus, backwards, reversed_uint, read_modifiers, no_modifiers,
}

-- No number among the arguments is negative as an `int`.
abbrev pub AreNatural : List Arg → Type 0
AreNatural [] = Unit {0}
AreNatural (number n ∷ args) = (is_minus n ≡ false) × AreNatural args
AreNatural (text s ∷ args) = AreNatural args

-- `buf` has moved by `written` bytes, and those fit into the buffer.
pub record Fits (size : ℕ) (o : Out) : Type 0 where
  pub below : o.written ≤ size
  pub moved : length o.chars ≡ o.written
  pub natural : AreNatural o.args

-- What holds of a run that ends.
abbrev pub Ensures {ℓ} : {A : Type ℓ} → (A → Type 0) → Run A → Type 0
Ensures P (done a) = P a
Ensures P outside = Unit {0}
Ensures P hang = Unit {0}

Ensures-then_do {ℓ κ} :
    {A : Type ℓ} {B : Type κ} (P : A → Type 0) (Q : B → Type 0) (r : Run A) (next : A → Run B)
    → Ensures P r
    → ((a : A) → P a → Ensures Q (next a))
    → Ensures Q (then_do r next)
Ensures-then_do P Q (done a) next h step = step a h
Ensures-then_do P Q outside next h step = tt
Ensures-then_do P Q hang next h step = tt

-- What holds of every run that ends.
Ensures-always {ℓ} : {A : Type ℓ} (r : Run A) → Ensures (λ (a : A). Unit {0}) r
Ensures-always (done a) = tt
Ensures-always outside = tt
Ensures-always hang = tt

put-Fits : (size c : ℕ) (o : Out) → Fits size o → o.written < size → Fits size (put false c o)
unfolding put printc
put-Fits size c o fits lt = record {
  below = omega arith;
  moved = omega (arith, length-append o.chars (c ∷ []), fits.moved);
  natural = fits.natural;
}

put_all-Fits :
    (size : ℕ) (cs : List ℕ) (o : Out)
    → Fits size o
    → length cs + o.written ≤ size
    → Fits size (put_all false cs o)
unfolding put_all
put_all-Fits size [] o fits le = fits
put_all-Fits size (c ∷ cs) o fits le =
    put_all-Fits size cs (put false c o) (put-Fits size c o fits (omega arith))
      (unfold put in omega arith)

print_uint-Fits :
    (size n base : ℕ) (smalls : Bool) (prec width : ℤ) (o : Out)
    → Fits size o
    → Fits size (put_all false (print_uint (size - o.written) n base smalls prec width) o)
unfolding print_uint
print_uint-Fits size n base smalls prec width o fits = put_all-Fits size _ o fits (
    omega (
      arith,
      length-take (size - o.written) (backwards (reversed_uint n base smalls prec width)),
      fits.below,
    ))

put_sign-Fits :
    (size : ℕ) (f : Flags) (arg : ℕ) (o : Out)
    → is_minus arg ≡ false
    → Fits size o
    → o.written < size
    → Fits size (put_sign false f arg o)
unfolding put_sign
put_sign-Fits size f arg o nat fits lt = elim (Bool-cases f.sign) [
  | inl e ↦ rw (nat, e) (put-Fits size 43 o fits lt)
  | inr e ↦ elim (Bool-cases f.space) [
    | inl e' ↦ rw (nat, e, e') (put-Fits size 32 o fits lt)
    | inr e' ↦ rw (nat, e, e') fits
  ]
]

put_signed-Fits :
    (size : ℕ) (f : Flags) (arg : ℕ) (o : Out)
    → is_minus arg ≡ false
    → Fits size o
    → o.written < size
    → Fits size (put_signed false size f arg o)
unfolding put_signed
put_signed-Fits size f arg o nat fits lt =
    print_uint-Fits size _ 10 f.smalls (pos 0) (pos 0) (put_sign false f arg o)
      (put_sign-Fits size f arg o nat fits lt)

put_unsigned-Fits :
    (size : ℕ) (m : Modifiers) (base uarg : ℕ) (o : Out)
    → Fits size o
    → Fits size (put_unsigned false size m base uarg o)
unfolding put_unsigned
put_unsigned-Fits size m base uarg o fits = print_uint-Fits size uarg base _ _ _ o fits

put_hex-Fits :
    (size : ℕ) (m : Modifiers) (uarg : ℕ) (o : Out)
    → Fits size o
    → o.written < size
    → Fits size (put_hex false size m uarg o)
unfolding put_hex
put_hex-Fits size m uarg o fits lt =
    if-holds (Fits size) m.flags.alt _ _ (put_unsigned-Fits size _ 16 uarg _ second)
      (put_unsigned-Fits size m 16 uarg o fits)
  where
    o' : Out
    o' = put false 48 o

    second : Fits size (if ltb o'.written size then put false 120 o' else o')
    second = elim (Bool-cases (ltb o'.written size)) [
      | inl e ↦ rw e (put-Fits size 120 o' (put-Fits size 48 o fits lt) (ground (arith, e)))
      | inr e ↦ rw e (put-Fits size 48 o fits lt)
    ]

put_text-Fits :
    (size n : ℕ) (s : List ℕ) (o : Out)
    → Fits size o
    → n + o.written ≤ size
    → Ensures (Fits size) (put_text false n s o)
unfolding put_text
put_text-Fits size zero s o fits le = fits
put_text-Fits size (suc n) [] o fits le = tt
put_text-Fits size (suc n) (c ∷ s) o fits le = elim (Bool-cases (c == 0)) [
  | inl e ↦ rw e fits
  | inr e ↦ rw e (
      put_text-Fits size n s (put false c o) (put-Fits size c o fits (omega arith))
        (unfold put in omega arith))
]

use_number-Fits :
    (size : ℕ) (args : List Arg) (o : Out) (f : ℕ → Out → Out)
    → Fits size o
    → AreNatural args
    → o.written < size
    → ((n : ℕ) (o' : Out)
        → is_minus n ≡ false
        → Fits size o'
        → o'.written < size
        → Fits size (f n o'))
    → Ensures (Fits size) (use_number args o f)
use_number-Fits size [] o f fits nat lt h = tt
use_number-Fits size (text s ∷ args) o f fits nat lt h = tt
use_number-Fits size (number n ∷ args) o f fits (here, nat) lt h =
    h n (record o { args = args }) here
      (record { below = fits.below; moved = fits.moved; natural = nat }) lt

use_text-Fits :
    (size : ℕ) (args : List Arg) (o : Out) (f : List ℕ → Out → Run Out)
    → Fits size o
    → AreNatural args
    → ((s : List ℕ) (o' : Out) → Fits size o' → Ensures (Fits size) (f s o'))
    → Ensures (Fits size) (use_text args o f)
use_text-Fits size [] o f fits nat h = tt
use_text-Fits size (number n ∷ args) o f fits nat h = tt
use_text-Fits size (text s ∷ args) o f fits nat h =
    h s (record o { args = args })
      (record { below = fits.below; moved = fits.moved; natural = nat })

text_room-le :
    (size : ℕ) (p : ℤ) (written : ℕ) → written ≤ size → text_room size p written + written ≤ size
text_room-le size (pos p) written le = ground arith
text_room-le size (negsuc p) written le = omega arith

convert-Fits :
    (size : ℕ) (m : Modifiers) (ch : ℕ) (o : Out)
    → Fits size o
    → o.written < size
    → Ensures (Fits size) (convert false size m ch o)
unfolding convert
convert-Fits size m ch o fits lt =
    test (ch == 105 || ch == 100) _ _ (numeric _ (λ n o'. put_signed-Fits size m.flags n o')) (
      test (ch == 111) _ _ (numeric _ (λ n o' nat. λ f l. put_unsigned-Fits size m 8 n o' f)) (
        test (ch == 117) _ _ (numeric _ (λ n o' nat. λ f l. put_unsigned-Fits size m 10 n o' f)) (
          test (ch == 112) _ _ (numeric _ (λ n o' nat. put_hex-Fits size _ n o')) (
            test (ch == 120) _ _ (numeric _ (λ n o' nat. put_hex-Fits size _ n o')) (
              test (ch == 88) _ _ (numeric _ (λ n o' nat. put_hex-Fits size m n o')) (
                test (ch == 99) _ _ (numeric _ (λ n o' nat. put-Fits size (n % 256) o')) (
                  test (ch == 115) _ _
                    (use_text-Fits size o.args o _ fits fits.natural (λ s o' f.
                      put_text-Fits size _ s o' f (text_room-le size m.prec o'.written f.below)))
                    (put-Fits size ch o fits lt))))))))
  where
    test :
        (b : Bool) (x y : Run Out)
        → Ensures (Fits size) x
        → Ensures (Fits size) y
        → Ensures (Fits size) (if b then x else y)
    test = if-holds (Ensures (Fits size))

    numeric :
        (f : ℕ → Out → Out)
        → ((n : ℕ) (o' : Out)
            → is_minus n ≡ false
            → Fits size o'
            → o'.written < size
            → Fits size (f n o'))
        → Ensures (Fits size) (use_number o.args o f)
    numeric f = use_number-Fits size o.args o f fits fits.natural lt

-- What holds of the output after one round.
abbrev pub Step-Fits : ℕ → Step → Type 0
Step-Fits size (go_on fmt o) = Fits size o
Step-Fits size (break o) = Fits size o

convert_behind-Fits :
    (size : ℕ) (o : Out) (m : Modifiers) (ch : ℕ) (fmt : List ℕ)
    → Fits size o
    → o.written < size
    → Ensures (Step-Fits size) (convert_behind false size o (m, ch, fmt))
unfolding convert_behind
convert_behind-Fits size o m ch fmt fits lt =
    if-holds (Ensures (Step-Fits size)) (ch == 0) (done (break o)) _ fits (
      Ensures-then_do (Fits size) (Step-Fits size) (convert false size m ch o)
        (λ o'. done (go_on fmt o')) (convert-Fits size m ch o fits lt) (λ o' h. h))

print_step-Fits :
    (size fuel : ℕ) (fmt : List ℕ) (o : Out)
    → Fits size o
    → o.written < size
    → Ensures (Step-Fits size) (print_step false size fuel fmt o)
unfolding print_step
print_step-Fits size fuel [] o fits lt = tt
print_step-Fits size fuel (c ∷ []) o fits lt =
    if-holds (Ensures (Step-Fits size)) (c == 0) _ _ fits
      (if-holds (Ensures (Step-Fits size)) (not (c == 37)) _ _ (put-Fits size c o fits lt) tt)
print_step-Fits size fuel (c ∷ ch ∷ rest) o fits lt =
    if-holds (Ensures (Step-Fits size)) (c == 0) _ _ fits (
      if-holds (Ensures (Step-Fits size)) (not (c == 37)) _ _ (put-Fits size c o fits lt) (
        if-holds (Ensures (Step-Fits size)) (ch == 0) _ _ fits (
          Ensures-then_do (λ r. Unit {0}) (Step-Fits size)
            (read_modifiers fuel no_modifiers ch rest) (convert_behind false size o)
            (Ensures-always (read_modifiers fuel no_modifiers ch rest)) behind)))
  where
    behind :
        (r : Modifiers × ℕ × List ℕ)
        → Unit {0}
        → Ensures (Step-Fits size) (convert_behind false size o r)
    behind (m, ch', fmt) u = convert_behind-Fits size o m ch' fmt fits lt

print_loop-Fits :
    (size fuel : ℕ) (fmt : List ℕ) (o : Out)
    → Fits size o
    → Ensures (Fits size) (print_loop false size fuel fmt o)
unfolding print_loop
print_loop-Fits size zero fmt o fits = tt
print_loop-Fits size (suc fuel) fmt o fits = elim (dec_lt o.written size) [
  | no ge ↦ simp (ltb-false {a = o.written} {b = size} (omega arith)) fits
  | yes lt ↦ simp (ltb-true lt) (
      go (λ fmt' o' h. print_loop-Fits size fuel fmt' o' h) (print_step false size fuel fmt o)
        (print_step-Fits size fuel fmt o fits lt))
]
  where
    go :
        ((fmt' : List ℕ) (o' : Out)
          → Fits size o'
          → Ensures (Fits size) (print_loop false size fuel fmt' o'))
        → (r : Run Step) → Ensures (Step-Fits size) r
        → Ensures (Fits size) (elim r [
          | done (go_on fmt' o') ↦ print_loop false size fuel fmt' o'
          | done (break o') ↦ done o'
          | outside ↦ outside
          | hang ↦ hang
        ])
    go later (done (go_on fmt' o')) h = later fmt' o' h
    go later (done (break o')) h = h
    go later outside h = tt
    go later hang h = tt

-- What `snprintf` returns with the bytes it has written: their number without the last, or -1 when
-- the text was cut off; they fit into the buffer, and the last is zero.
pub record IsPrinted (size : ℕ) (bytes : List ℕ) (r : ℤ) : Type 0 where
  pub fits : length bytes ≤ size
  pub count : (r ≡ pos (length bytes - 1)) ⊎ ((r ≡ none_id) × (length bytes ≡ size))
  pub front : List ℕ
  pub terminated : bytes ≡ front ++ (0 ∷ [])

abbrev pub IsReturned : ℕ → List ℕ × ℤ → Type 0
IsReturned size (bytes, r) = IsPrinted size bytes r

finish-IsPrinted :
    (size : ℕ) (o : Out) → 0 < size → Fits size o → Ensures (IsReturned size) (finish false size o)
unfolding finish printc
finish-IsPrinted size o lt fits = elim (ℕ_discrete o.written size) [
  | yes e ↦
      let same : (o.written == size) ≡ true = ground (arith, e) in
      simp same (record {
        fits = omega (
          arith,
          length-append (take (o.written - 1) o.chars) (0 ∷ []),
          length-take (o.written - 1) o.chars,
          fits.moved,
        );
        count = inr (
          refl,
          omega (
            arith,
            length-append (take (o.written - 1) o.chars) (0 ∷ []),
            length-take (o.written - 1) o.chars,
            fits.moved,
          ),
        );
        front = take (o.written - 1) o.chars;
        terminated = refl;
      })
  | no ne ↦ simp (==-false ne) (record {
    fits = omega (arith, length-append o.chars (0 ∷ []), fits.moved, fits.below);
    count = inl (ap pos (omega (arith, length-append o.chars (0 ∷ []), fits.moved)));
    front = o.chars;
    terminated = refl;
  })
]

-- When no number among the arguments is negative, whatever the format, and `snprintf` with a buffer
-- that is not empty returns, the bytes it has written fit into the buffer and end in a zero, and it
-- returns their number without the zero, or -1 when they fill the buffer.
pub snprintf_lem :
    (size fuel : ℕ) (fmt : List ℕ) (args : List Arg) (bytes : List ℕ) (r : ℤ)
    → 0 < size
    → AreNatural args
    → snprintf size fmt args fuel ≡ done (bytes, r)
    → IsPrinted size bytes r
unfolding snprintf vxnprintf
snprintf_lem size fuel fmt args bytes r lt nat run =
    subst (Ensures (IsReturned size)) {x = snprintf size fmt args fuel} run (
      let test : (size == 0) ≡ false = ground (arith, lt) in
      simp test (
        Ensures-then_do (Fits size) (IsReturned size) (print_loop false size fuel fmt start)
          (finish false size)
          (print_loop-Fits size fuel fmt start
            (record { below = omega arith; moved = refl; natural = nat }))
          (λ o fits. finish-IsPrinted size o lt fits)))
  where
    start : Out
    start = record { chars = []; written = 0; args = args }

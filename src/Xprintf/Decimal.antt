-- ===== src/Xprintf/Decimal.antt =====
-- What "%d" of lib/xprintf.c prints, and that atoi of lib/libc.c reads it back.
use aalto_buenos.Prelude.{
  take-all, ℕ, suc, ◌+◌, ◌-◌, ◌^◌, ◌≤◌, ◌<◌, ◌≡◌, refl, sym, ap, ◌∙◌, List, [], ◌∷◌, ◌++◌,
  append-nil, append_assoc, true, false, if◌then◌else◌, Bool, length, length-append, arith, some,
  ltb, ltb-true, ==-false, ◌==◌, Bool-cases, inl, inr,
}
use aalto_buenos.Prelude.Int.{pos}
use aalto_buenos.Libc.{atoi}
use aalto_buenos.Libc.Numbers.{Sign, bare, minus, sign_text, signed32, atoi_lem}
use aalto_buenos.Libc.Numbers.{is_minus as has_minus}
use aalto_buenos.Xprintf.{
  done, Arg, number, Out, put, put_all, printc, print_uint, reversed_uint, pad_to, reversed_digits,
  put_sign, put_signed, no_flags, print_loop, print_step, read_modifiers, read_modifier, convert,
  convert_behind, finish, snprintf, vxnprintf, is_minus,
}
use aalto_buenos.Xprintf.Digits.{
  decimal_digits, length-backwards, Shows, decimal_digits-Shows, decimal_digits-nonempty,
  length-decimal,
}

-- the text of a 32-bit `int`
abbrev pub shown : ℕ → List ℕ
shown n = if is_minus n then 45 ∷ decimal_digits (2 ^ 32 - n) else decimal_digits n

length-decimal_digits : (n : ℕ) → n < 2 ^ 32 → length (decimal_digits n) ≤ 10
length-decimal_digits n lt =
    omega
      (arith, length-backwards (reversed_digits 32 false 10 n), length-decimal 9 n (omega arith))

put_all_lem :
    (cs : List ℕ) (o : Out)
    → put_all false cs o
      ≡ record { chars = o.chars ++ cs; written = o.written + length cs; args = o.args }
unfolding put_all put printc
put_all_lem [] o =
    let p : o.chars ≡ o.chars ++ [] = sym (append-nil o.chars) in
    let q : o.written ≡ o.written + 0 = omega arith in
    λ i. record { chars = p i; written = q i; args = o.args }
put_all_lem (c ∷ cs) o =
    let p : (o.chars ++ (c ∷ [])) ++ cs ≡ o.chars ++ (c ∷ cs) = append_assoc o.chars (c ∷ []) cs in
    let q : o.written + 1 + length cs ≡ o.written + suc (length cs) = omega arith in
    put_all_lem cs (put false c o) ∙ λ i. record { chars = p i; written = q i; args = o.args }

pad_to-zero : (c : ℕ) (rev : List ℕ) → pad_to (pos 0) c rev ≡ rev
unfolding pad_to
pad_to-zero c rev =
    let none_missing : 0 - length rev ≡ 0 = omega arith in rw none_missing (append-nil rev)

print_uint-decimal :
    (size n : ℕ)
    → n < 2 ^ 32
    → 11 ≤ size
    → print_uint size n 10 false (pos 0) (pos 0) ≡ decimal_digits n
unfolding print_uint reversed_uint
print_uint-decimal size n lt le =
    rw
      (
        pad_to-zero 48 (reversed_digits 32 false 10 n),
        pad_to-zero 32 (reversed_digits 32 false 10 n),
      )
      (take-all size (decimal_digits n) (omega (arith, length-decimal_digits n lt)))

with_length :
    (cs : List ℕ) (w : ℕ) (args : List Arg)
    → w ≡ length cs
    → ◌≡◌ {A = Out}
        (record { chars = cs; written = w; args = args })
        (record { chars = cs; written = length cs; args = args })
with_length cs w args e = λ i. record { chars = cs; written = e i; args = args }

put_signed_lem :
    (size n : ℕ) (args : List Arg)
    → n < 2 ^ 32
    → 12 ≤ size
    → put_signed false size no_flags n (record { chars = []; written = 0; args = args })
      ≡ record { chars = shown n; written = length (shown n); args = args }
unfolding put_signed put_sign
put_signed_lem size n args lt le = by_sign (is_minus n) refl
  where
    start : Out
    start = record { chars = []; written = 0; args = args }

    before : Bool → Out
    before b = if b then put false 45 start else start

    text : Bool → List ℕ
    text b = if b then 45 ∷ decimal_digits (2 ^ 32 - n) else decimal_digits n

    by_sign :
        (b : Bool)
        → is_minus n ≡ b
        → put_all false
            (print_uint
              (size - (before b).written)
              (if b then 2 ^ 32 - n else n)
              10
              false
              (pos 0)
              (pos 0))
            (before b)
          ≡ record { chars = text b; written = length (text b); args = args }
    by_sign true e =
        let big : 2 ^ 31 ≤ n = ground (arith, e) in
        let one : (put false 45 start).written ≡ 1 = unfold put in refl in
        rw
          (print_uint-decimal (size - (put false 45 start).written) (2 ^ 32 - n) (omega arith)
            (omega (arith, one)))
          (put_all_lem (decimal_digits (2 ^ 32 - n)) (put false 45 start)
            ∙ (unfold put printc in
                with_length (45 ∷ decimal_digits (2 ^ 32 - n)) _ args (omega arith)))
    by_sign false e =
        rw (print_uint-decimal (size - start.written) n lt (omega arith)) (
          put_all_lem (decimal_digits n) start
          ∙ with_length (decimal_digits n) _ args (omega arith))

length-shown : (n : ℕ) → n < 2 ^ 32 → length (shown n) ≤ 11
length-shown n lt = elim (Bool-cases (is_minus n)) [
  | inl e ↦
      let big : 2 ^ 31 ≤ n = ground (arith, e) in
      rw e (omega (arith, length-decimal_digits (2 ^ 32 - n) (omega arith)))
  | inr e ↦ rw e (omega (arith, length-decimal_digits n lt))
]

finish_short :
    (size : ℕ) (cs : List ℕ) (args : List Arg)
    → length cs < size
    → finish false size (record { chars = cs; written = length cs; args = args })
      ≡ done (cs ++ (0 ∷ []), pos (length cs))
unfolding finish printc
finish_short size cs args lt =
    rw (==-false {a = length cs} {b = size} (λ e. absurd (omega (arith, e)))) refl

snprintf-shown :
    (size n f : ℕ) (args : List Arg) (rest : List ℕ)
    → n < 2 ^ 32
    → 12 ≤ size
    → snprintf size (37 ∷ 100 ∷ 0 ∷ rest) (number n ∷ args) (suc (suc (suc f)))
      ≡ done (shown n ++ (0 ∷ []), pos (length (shown n)))
unfolding snprintf vxnprintf print_loop print_step read_modifiers read_modifier convert_behind
    convert
snprintf-shown size n f args rest lt le = rw (put_signed_lem size n args lt le) (
    let zero_size : (size == 0) ≡ false = ground (arith, le) in
    let room : ltb 0 size ≡ true = ground (arith, le) in
    let short : ltb (length (shown n)) size ≡ true = ltb-true (omega (arith, length-shown n lt)) in
    rw (zero_size, room, short)
      (finish_short size (shown n) args (omega (arith, length-shown n lt))))

atoi-Shows :
    (sign : Sign) (n : ℕ) (ds : List ℕ)
    → Shows n ds
    → 0 < length ds
    → atoi (sign_text sign (ds ++ (0 ∷ []))) ≡ some (signed32 (has_minus sign) n)
atoi-Shows sign n [] s lt = absurd (omega arith)
atoi-Shows sign n (d ∷ ds) s lt =
    atoi_lem [] sign d ds 0 [] tt s.all refl ∙ ap (λ v. some (signed32 (has_minus sign) v)) s.value

shown-atoi : (n : ℕ) → n < 2 ^ 32 → atoi (shown n ++ (0 ∷ [])) ≡ some n
shown-atoi n lt = elim (Bool-cases (is_minus n)) [
  | inl e ↦
      let big : 2 ^ 31 ≤ n = ground (arith, e) in
      rw e (
        atoi-Shows minus (2 ^ 32 - n) (decimal_digits (2 ^ 32 - n))
          (decimal_digits-Shows (2 ^ 32 - n) (omega arith)) (decimal_digits-nonempty (2 ^ 32 - n))
        ∙ ap some (omega arith))
  | inr e ↦ rw e (
      atoi-Shows bare n (decimal_digits n) (decimal_digits-Shows n lt) (decimal_digits-nonempty n)
      ∙ ap some (omega arith))
]

-- For every 32-bit number and a buffer of at least 12 bytes, `snprintf` with the format "%d" prints
-- a text, whose length it returns, and `atoi` reads that text back as the same number, negative
-- numbers included.
pub snprintf-atoi :
    (size n f : ℕ) (args : List Arg) (rest : List ℕ)
    → n < 2 ^ 32
    → 12 ≤ size
    → (text : List ℕ) × (snprintf size (37 ∷ 100 ∷ 0 ∷ rest) (number n ∷ args) (suc (suc (suc f)))
        ≡ done (text, pos (length text - 1)))
      × (atoi text ≡ some n)
snprintf-atoi size n f args rest lt le = (
  shown n ++ (0 ∷ []),
  snprintf-shown size n f args rest lt le
      ∙ ap (λ l. done (shown n ++ (0 ∷ []), pos l))
          (omega (arith, length-append (shown n) (0 ∷ []))),
  shown-atoi n lt,
)

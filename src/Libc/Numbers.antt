-- ===== src/Libc/Numbers.antt =====
-- atoi of lib/libc.c against the number that a text shows.
use aalto_buenos.Prelude.{
  ℕ, ◌+◌, ◌-◌, ◌*◌, ◌%◌, ◌^◌, ◌≤◌, ◌≡◌, refl, List, [], ◌∷◌, ◌++◌, arith, some, Bool, true, false,
}
use aalto_buenos.Libc.{is_space, is_digit, skip_spaces, add_digit, read_digits, read_signed, atoi}

pub data Sign : Type 0 where
  bare : Sign
  plus : Sign
  minus : Sign

abbrev pub sign_text : Sign → List ℕ → List ℕ
sign_text bare s = s
sign_text plus s = 43 ∷ s
sign_text minus s = 45 ∷ s

abbrev pub is_minus : Sign → Bool
is_minus minus = true
is_minus bare = false
is_minus plus = false

-- the number with `v` in front of the digits `ds`
abbrev pub numeral : ℕ → List ℕ → ℕ
numeral v [] = v
numeral v (c ∷ ds) = numeral (10 * v + (c - 48)) ds

abbrev pub AreDigits : List ℕ → Type 0
AreDigits [] = Unit {0}
AreDigits (c ∷ ds) = (is_digit c ≡ true) × AreDigits ds

abbrev pub AreSpaces : List ℕ → Type 0
AreSpaces [] = Unit {0}
AreSpaces (c ∷ s) = (is_space c ≡ true) × AreSpaces s

-- a number with its sign, in 32 bits of two's complement
abbrev pub signed32 : Bool → ℕ → ℕ
signed32 true n = (2 ^ 32 - n % 2 ^ 32) % 2 ^ 32
signed32 false n = n % 2 ^ 32

add_digit-signed32 :
    (b : Bool) (v c : ℕ)
    → is_digit c ≡ true
    → add_digit b (signed32 b v) c ≡ signed32 b (10 * v + (c - 48))
unfolding add_digit
add_digit-signed32 true v c d =
    let lo : 48 ≤ c = ground (arith, d) in let hi : c ≤ 57 = ground (arith, d) in omega arith
add_digit-signed32 false v c d = omega arith

read_digits_lem :
    (b : Bool) (v : ℕ) (ds : List ℕ) (c : ℕ) (rest : List ℕ)
    → AreDigits ds
    → is_digit c ≡ false
    → read_digits b (signed32 b v) (ds ++ (c ∷ rest)) ≡ some (signed32 b (numeral v ds))
unfolding read_digits
read_digits_lem b v [] c rest all stop = rw stop refl
read_digits_lem b v (d ∷ ds) c rest (hd, all) stop =
    rw (hd, add_digit-signed32 b v d hd) (read_digits_lem b (10 * v + (d - 48)) ds c rest all stop)

read_signed_lem :
    (sign : Sign) (d : ℕ) (ds : List ℕ) (c : ℕ) (rest : List ℕ)
    → AreDigits (d ∷ ds)
    → is_digit c ≡ false
    → read_signed (sign_text sign (d ∷ ds ++ (c ∷ rest)))
      ≡ some (signed32 (is_minus sign) (numeral 0 (d ∷ ds)))
unfolding read_signed
read_signed_lem bare d ds c rest (hd, all) stop =
    ground (arith, hd, read_digits_lem false 0 (d ∷ ds) c rest (hd, all) stop)
read_signed_lem plus d ds c rest all stop = read_digits_lem false 0 (d ∷ ds) c rest all stop
read_signed_lem minus d ds c rest all stop = read_digits_lem true 0 (d ∷ ds) c rest all stop

skip_spaces_lem :
    (spaces : List ℕ) (c : ℕ) (s : List ℕ)
    → AreSpaces spaces
    → is_space c ≡ false
    → skip_spaces (spaces ++ (c ∷ s)) ≡ some (c ∷ s)
unfolding skip_spaces
skip_spaces_lem [] c s all stop = rw stop refl
skip_spaces_lem (w ∷ spaces) c s (hw, all) stop = rw hw (skip_spaces_lem spaces c s all stop)

sign_text-skip :
    (spaces : List ℕ) (sign : Sign) (d : ℕ) (s : List ℕ)
    → AreSpaces spaces
    → is_digit d ≡ true
    → skip_spaces (spaces ++ sign_text sign (d ∷ s)) ≡ some (sign_text sign (d ∷ s))
sign_text-skip spaces bare d s all hd = skip_spaces_lem spaces d s all (ground (arith, hd))
sign_text-skip spaces plus d s all hd = skip_spaces_lem spaces 43 (d ∷ s) all refl
sign_text-skip spaces minus d s all hd = skip_spaces_lem spaces 45 (d ∷ s) all refl

pub atoi_lem :
    (spaces : List ℕ) (sign : Sign) (d : ℕ) (ds : List ℕ) (c : ℕ) (rest : List ℕ)
    → AreSpaces spaces
    → AreDigits (d ∷ ds)
    → is_digit c ≡ false
    → atoi (spaces ++ sign_text sign (d ∷ ds ++ (c ∷ rest)))
      ≡ some (signed32 (is_minus sign) (numeral 0 (d ∷ ds)))
unfolding atoi
atoi_lem spaces sign d ds c rest sp (hd, all) stop =
    rw (sign_text-skip spaces sign d (ds ++ (c ∷ rest)) sp hd, atoi)
      (read_signed_lem sign d ds c rest (hd, all) stop)

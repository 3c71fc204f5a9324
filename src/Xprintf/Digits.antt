-- ===== src/Xprintf/Digits.antt =====
-- print_uint of lib/xprintf.c: how many digits a number has, and what they show.
use aalto_buenos.Prelude.{
  ℕ, zero, suc, ◌+◌, ◌-◌, ◌*◌, ◌/◌, ◌%◌, ◌^◌, ◌≤◌, ◌<◌, ◌≡◌, refl, List, [], ◌∷◌, ◌++◌, Bool, false,
  length, length-append, length-replicate, arith, replicate, min, sym, ℕ_discrete, ==-false,
}
use aalto_buenos.Prelude.Int.{ℤ, pos, negsuc}
use aalto_buenos.Libc.Numbers.{numeral, AreDigits}
use aalto_buenos.Xprintf.{digit, reversed_digits, pad_to, at_most_11, reversed_uint, backwards}

-- `b` to the power of `k`
abbrev pub power : ℕ → ℕ → ℕ
power b zero = 1
power b (suc k) = b * power b k

-- The bases that `vxnprintf` prints in.
pub data IsBase (base : ℕ) : Type 0 where
  octal : base ≡ 8 → IsBase base
  decimal : base ≡ 10 → IsBase base
  hexadecimal : base ≡ 16 → IsBase base

div-lt_octal : (base n p : ℕ) → IsBase base → n < 8 * p → n / base < p
div-lt_octal base n p (octal e) lt = rw e (omega arith)
div-lt_octal base n p (decimal e) lt = rw e (omega arith)
div-lt_octal base n p (hexadecimal e) lt = rw e (omega arith)

-- A number below the power `k + 1` of `b` has at most `k + 1` digits in a base of at least `b`.
length-reversed_digits :
    (b f k : ℕ) (smalls : Bool) (base n : ℕ)
    → ((m p : ℕ) → m < b * p → m / base < p)
    → n < power b (suc k)
    → length (reversed_digits f smalls base n) ≤ suc k
unfolding reversed_digits
length-reversed_digits b zero k smalls base n d lt = omega arith
length-reversed_digits b (suc f) zero smalls base n d lt =
    let z : n / base < 1 = d n 1 lt in ground (arith, z)
length-reversed_digits b (suc f) (suc k) smalls base n d lt =
    ground (arith, length-reversed_digits b f k smalls base (n / base) d (d n (power b (suc k)) lt))

pub length-decimal :
    (k n : ℕ) → n < power 10 (suc k) → length (reversed_digits 32 false 10 n) ≤ suc k
length-decimal k n lt = length-reversed_digits 10 32 k false 10 n (λ m p h. omega arith) lt

length-pad_to :
    (count : ℤ) (c k : ℕ) (rev : List ℕ)
    → length rev ≤ 11
    → length (pad_to (at_most_11 count) c rev) ≤ 11
unfolding pad_to
length-pad_to (pos n) c k rev le = omega (
  arith,
  length-append rev (replicate (min n 11 - length rev) c),
  length-replicate (min n 11 - length rev) c,
)
length-pad_to (negsuc n) c k rev le = le

pub length-reversed_uint :
    (n base : ℕ) (smalls : Bool) (prec width : ℤ)
    → IsBase base
    → n < 2 ^ 32
    → length (reversed_uint n base smalls prec width) ≤ 11
unfolding reversed_uint
length-reversed_uint n base smalls prec width b lt = length-pad_to width 32 0 _ (
    length-pad_to prec 48 0 _ (
      length-reversed_digits 8 32 10 smalls base n (λ m p h. div-lt_octal base m p b h)
        (omega arith)))

pub length-backwards : (rev : List ℕ) → length (backwards rev) ≡ length rev
unfolding backwards
length-backwards [] = refl
length-backwards (c ∷ rev) =
    omega (arith, length-append (backwards rev) (c ∷ []), length-backwards rev)

-- the digits of a number, as it is printed with no precision and no width
abbrev pub decimal_digits : ℕ → List ℕ
decimal_digits n = backwards (reversed_digits 32 false 10 n)

numeral-append :
    (v : ℕ) (ds : List ℕ) (c : ℕ) → numeral v (ds ++ (c ∷ [])) ≡ 10 * numeral v ds + (c - 48)
numeral-append v [] c = refl
numeral-append v (d ∷ ds) c = numeral-append (10 * v + (d - 48)) ds c

AreDigits-append :
    (ds : List ℕ) (c : ℕ) → AreDigits ds → 48 ≤ c → c ≤ 57 → AreDigits (ds ++ (c ∷ []))
AreDigits-append [] c all lo hi = (ground arith, tt)
AreDigits-append (d ∷ ds) c (hd, all) lo hi = (hd, AreDigits-append ds c all lo hi)

-- `ds` are the digits of `n`.
pub record Shows (n : ℕ) (ds : List ℕ) : Type 0 where
  pub value : numeral 0 ds ≡ n
  pub all : AreDigits ds

Shows-append :
    (n c : ℕ) (ds : List ℕ) → Shows (n / 10) ds → c ≡ 48 + n % 10 → Shows n (ds ++ (c ∷ []))
Shows-append n c ds s e = record {
  value = omega (arith, numeral-append 0 ds c, s.value, e);
  all = AreDigits-append ds c s.all (omega arith) (omega arith);
}

digit-decimal : (n : ℕ) → digit false (n % 10) ≡ 48 + n % 10
digit-decimal n = ground arith

reversed_digits-Shows :
    (f n : ℕ) → n < power 10 f → Shows n (backwards (reversed_digits f false 10 n))
unfolding reversed_digits backwards
reversed_digits-Shows zero n lt = record { value = omega arith; all = tt }
reversed_digits-Shows (suc f) n lt = elim (ℕ_discrete (n / 10) 0) [
  | yes e ↦ rw e (
      Shows-append n (digit false (n % 10)) [] (record { value = sym e; all = tt })
        (digit-decimal n))
  | no ne ↦ rw (==-false ne) (
      Shows-append n (digit false (n % 10)) (backwards (reversed_digits f false 10 (n / 10)))
        (reversed_digits-Shows f (n / 10) (omega arith)) (digit-decimal n))
]

pub decimal_digits-Shows : (n : ℕ) → n < 2 ^ 32 → Shows n (decimal_digits n)
decimal_digits-Shows n lt = reversed_digits-Shows 32 n (omega arith)

pub decimal_digits-nonempty : (n : ℕ) → 0 < length (decimal_digits n)
decimal_digits-nonempty n =
    let some_digit : 0 < length (reversed_digits 32 false 10 n) =
      unfold reversed_digits in omega arith in
    omega (arith, length-backwards (reversed_digits 32 false 10 n), some_digit)

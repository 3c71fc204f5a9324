-- ===== src/Prelude/Bits.antt =====
-- The bits of a machine word, and what `&`, `|`, `~` and `1 << j` do to each of them.
use Prim.Native.Nat.{
  ℕ, zero, suc, ◌+◌, ◌-◌, ◌*◌, ◌/◌, ◌%◌, ◌^◌, ◌≤◌, ◌<◌, min, max, bit_and, bit_or, digits,
  bit_and-bitwise, bit_or-bitwise,
}
use mathlib.Core.Path.{◌≡◌, refl, sym, ap, ◌∙◌}
use native.Mathlib.Nat.{pow-suc, one-le-pow, div-div-eq-div-mul, mul_comm, div-one}
use native.Mathlib.Omega.{arith}
use aalto_buenos.Prelude.Tests.{◌==◌, if◌then◌else◌}

-- Bit `k` of `w`, lowest first.
pub test_bit : ℕ → ℕ → ℕ
test_bit w zero = w % 2
test_bit w (suc k) = test_bit (w / 2) k

-- `(w >> k) & 1`
pub shift-test_bit : (k w : ℕ) → w / 2 ^ k % 2 ≡ test_bit w k
unfolding test_bit
shift-test_bit zero w = ap (λ (t : ℕ). t % 2) (div-one w)
shift-test_bit (suc k) w =
    ap (λ (t : ℕ). t % 2)
      (ap (λ (t : ℕ). w / t) (pow-suc 2 k ∙ mul_comm (2 ^ k) 2)
        ∙ sym (div-div-eq-div-mul w 2 (2 ^ k)))
    ∙ shift-test_bit k (w / 2)

pub test_bit-lt : (k w : ℕ) → test_bit w k < 2
unfolding test_bit
test_bit-lt zero w = omega arith
test_bit-lt (suc k) w = test_bit-lt k (w / 2)

pub test_bit-zero : (k : ℕ) → test_bit 0 k ≡ 0
unfolding test_bit
test_bit-zero zero = refl
test_bit-zero (suc k) = test_bit-zero k

-- `&` and `|` go through the binary digits on fuel; more fuel than the first operand changes nothing.
module _ (rest : ℕ → ℕ) (digit : ℕ → ℕ → ℕ) where
  more_fuel :
      (most n : ℕ)
      → n ≤ most
      → (a b : ℕ) → a ≤ n
      → digits rest digit most a b ≡ digits rest digit n a b
  more_fuel (suc most) (suc n) more (suc c) b le =
      omega (arith, more_fuel most n (omega arith) (suc c / 2) (b / 2) (omega arith))
  more_fuel (suc most) (suc n) more zero b le = refl
  more_fuel (suc most) zero more zero b le = refl
  more_fuel zero zero more zero b le = refl
  more_fuel most zero more (suc c) b le = absurd (omega arith)
  more_fuel zero (suc n) more a b le = absurd (omega arith)

  halve :
      (c b : ℕ)
      → digits rest digit (suc c) (suc c) b
        ≡ digits rest digit (suc c / 2) (suc c / 2) (b / 2) * 2 + digit (suc c % 2) (b % 2)
  halve c b = omega (arith, more_fuel c (suc c / 2) (omega arith) (suc c / 2) (b / 2) (omega arith))

pub bit_and-step : (a b : ℕ) → bit_and a b ≡ bit_and (a / 2) (b / 2) * 2 + min (a % 2) (b % 2)
bit_and-step (suc c) b =
    omega (
      arith,
      halve (λ y. 0) min c b,
      bit_and-bitwise (suc c) b,
      bit_and-bitwise (suc c / 2) (b / 2),
    )
bit_and-step zero b = ground (arith, and_zero b, and_zero (b / 2))
  where
    and_zero : (x : ℕ) → bit_and 0 x ≡ 0
    and_zero x = bit_and-bitwise 0 x

bit_or-step : (a b : ℕ) → bit_or a b ≡ bit_or (a / 2) (b / 2) * 2 + max (a % 2) (b % 2)
bit_or-step (suc c) b =
    omega
      (arith, halve (λ y. y) max c b, bit_or-bitwise (suc c) b, bit_or-bitwise (suc c / 2) (b / 2))
bit_or-step zero b = ground (arith, or_zero b, or_zero (b / 2))
  where
    or_zero : (x : ℕ) → bit_or 0 x ≡ x
    or_zero x = bit_or-bitwise 0 x

test_bit-bit_and : (k a b : ℕ) → test_bit (bit_and a b) k ≡ min (test_bit a k) (test_bit b k)
unfolding test_bit
test_bit-bit_and zero a b = omega (arith, bit_and-step a b)
test_bit-bit_and (suc k) a b =
    ap (λ t. test_bit t k) {x = bit_and a b / 2} (omega (arith, bit_and-step a b))
    ∙ test_bit-bit_and k (a / 2) (b / 2)

test_bit-bit_or : (k a b : ℕ) → test_bit (bit_or a b) k ≡ max (test_bit a k) (test_bit b k)
unfolding test_bit
test_bit-bit_or zero a b = omega (arith, bit_or-step a b)
test_bit-bit_or (suc k) a b =
    ap (λ t. test_bit t k) {x = bit_or a b / 2} (omega (arith, bit_or-step a b))
    ∙ test_bit-bit_or k (a / 2) (b / 2)

test_bit-pow : (k j : ℕ) → test_bit (2 ^ j) k ≡ (if j == k then 1 else 0)
unfolding test_bit
test_bit-pow zero zero = refl
test_bit-pow zero (suc j) = ground (arith, pow-suc 2 j)
test_bit-pow (suc k) zero = ground (arith, test_bit-zero k)
test_bit-pow (suc k) (suc j) =
    ap (λ t. test_bit t k) {x = 2 ^ suc j / 2} {y = 2 ^ j} (omega (arith, pow-suc 2 j))
    ∙ ground (arith, test_bit-pow k j)

-- `~x` in `n` bits
test_bit-complement :
    (n k x : ℕ) → x < 2 ^ n → k < n → test_bit (2 ^ n - 1 - x) k + test_bit x k ≡ 1
unfolding test_bit
test_bit-complement zero k x h p = absurd (omega arith)
test_bit-complement (suc n) zero x h p = omega (arith, pow-suc 2 n)
test_bit-complement (suc n) (suc k) x h p =
    ap (λ t. test_bit t k + test_bit (x / 2) k) {x = (2 ^ suc n - 1 - x) / 2}
      (omega (arith, pow-suc 2 n))
    ∙ test_bit-complement n k (x / 2) (omega (arith, pow-suc 2 n)) (omega arith)

pub pow_mono : (j n : ℕ) → j < n → 2 ^ j < 2 ^ n
pow_mono j zero h = absurd (omega arith)
pow_mono zero (suc n) h = omega (arith, pow-suc 2 n, one-le-pow n 2 (omega arith))
pow_mono (suc j) (suc n) h = omega (arith, pow-suc 2 n, pow-suc 2 j, pow_mono j n (omega arith))

pub bit_and-lt : (n a b : ℕ) → a < 2 ^ n → bit_and a b < 2 ^ n
bit_and-lt zero a b h = ground (arith, bit_and-bitwise 0 b)
bit_and-lt (suc n) a b h = omega (
  arith,
  pow-suc 2 n,
  bit_and-step a b,
  bit_and-lt n (a / 2) (b / 2) (omega (arith, pow-suc 2 n)),
)

pub bit_or-lt : (n a b : ℕ) → a < 2 ^ n → b < 2 ^ n → bit_or a b < 2 ^ n
bit_or-lt zero a b h q = ground (arith, bit_or-bitwise 0 0)
bit_or-lt (suc n) a b h q = omega (
  arith,
  pow-suc 2 n,
  bit_or-step a b,
  bit_or-lt n (a / 2) (b / 2) (omega (arith, pow-suc 2 n)) (omega (arith, pow-suc 2 n)),
)

-- Setting and clearing bit `j` of an `n`-bit word.
pub test_bit-set :
    (w j k : ℕ) → test_bit (bit_or w (2 ^ j)) k ≡ (if j == k then 1 else test_bit w k)
test_bit-set w j k = ground (arith, test_bit-bit_or k w (2 ^ j), test_bit-pow k j, test_bit-lt k w)

pub test_bit-clear :
    (n w j k : ℕ)
    → j < n
    → k < n
    → test_bit (bit_and w (2 ^ n - 1 - 2 ^ j)) k ≡ (if j == k then 0 else test_bit w k)
test_bit-clear n w j k hj hk = ground (
  arith,
  test_bit-bit_and k w (2 ^ n - 1 - 2 ^ j),
  test_bit-complement n k (2 ^ j) (pow_mono j n hj) hk,
  test_bit-pow k j,
  test_bit-lt k w,
)

-- A word whose `n` bits are all set is the largest.
pub eq_of_all_set : (n w : ℕ) → w < 2 ^ n → ((k : ℕ) → k < n → test_bit w k ≡ 1) → w ≡ 2 ^ n - 1
unfolding test_bit
eq_of_all_set zero w h all = omega arith
eq_of_all_set (suc n) w h all = omega (
  arith,
  pow-suc 2 n,
  all 0 (omega arith),
  eq_of_all_set n (w / 2) (omega (arith, pow-suc 2 n)) (λ k hk. all (suc k) (omega arith)),
)

pub test_bit-all_set : (n k : ℕ) → k < n → test_bit (2 ^ n - 1) k ≡ 1
test_bit-all_set n k h =
    let c : test_bit (2 ^ n - 1 - 0) k + test_bit 0 k ≡ 1 =
      test_bit-complement n k 0 (omega (arith, one-le-pow n 2 (omega arith))) h in
    let e : 2 ^ n - 1 - 0 ≡ 2 ^ n - 1 = omega arith in
    omega (arith, ap (λ t. test_bit t k) e, c, test_bit-zero k)

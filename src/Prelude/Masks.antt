-- ===== src/Prelude/Masks.antt =====
-- `x & 3` and `x & 0xfffffffc`, the alignment masks, as arithmetic.
use Prim.Native.Nat.{ℕ, zero, suc, ◌-◌, ◌/◌, ◌%◌, ◌^◌, ◌<◌, bit_and}
use mathlib.Core.Path.{◌≡◌, ap}
use native.Mathlib.Nat.{pow-suc, one-le-pow}
use native.Mathlib.Omega.{arith}
use aalto_buenos.Prelude.Bits.{bit_and-step, bit_and-lt}

-- A mask of `n` ones leaves an `n`-bit number as it is.
bit_and-ones : (n a : ℕ) → a < 2 ^ n → bit_and a (2 ^ n - 1) ≡ a
bit_and-ones zero a h = omega (arith, bit_and-lt 0 a 0 h, bit_and-lt 0 a (2 ^ 0 - 1) h)
bit_and-ones (suc n) a h =
    let half : (2 ^ suc n - 1) / 2 ≡ 2 ^ n - 1 = omega (arith, pow-suc 2 n) in
    omega (
      arith,
      pow-suc 2 n,
      one-le-pow n 2 (omega arith),
      bit_and-step a (2 ^ suc n - 1),
      ap (bit_and (a / 2)) half,
      bit_and-ones n (a / 2) (omega (arith, pow-suc 2 n)),
    )

bit_and-nil : (n a : ℕ) → a < 2 ^ n → bit_and a 0 ≡ 0
bit_and-nil zero a h = omega (arith, bit_and-lt 0 a 0 h)
bit_and-nil (suc n) a h =
    omega (arith, pow-suc 2 n, bit_and-step a 0, bit_and-nil n (a / 2) (omega (arith, pow-suc 2 n)))

pub bit_and-three : (x : ℕ) → x < 2 ^ 32 → bit_and x 3 ≡ x % 4
bit_and-three x h =
    omega
      (arith, bit_and-step x 3, bit_and-step (x / 2) 1, bit_and-nil 30 (x / 2 / 2) (omega arith))

pub bit_and-align : (x : ℕ) → x < 2 ^ 32 → bit_and x 0xfffffffc ≡ x - x % 4
bit_and-align x h = omega (
  arith,
  bit_and-step x 0xfffffffc,
  bit_and-step (x / 2) 0x7ffffffe,
  bit_and-ones 30 (x / 2 / 2) (omega arith),
)

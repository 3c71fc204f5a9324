-- ===== src/Pagepool/Count.antt =====
-- The number of clear bits of a bitmap, and how the bitmap operations change it.
use aalto_buenos.Prelude.{
  ℕ, zero, suc, ◌+◌, ◌-◌, ◌*◌, ◌≤◌, ◌<◌, ◌≡◌, refl, ap, arith, length, dec_lt, ℕ_discrete,
}
use aalto_buenos.Bitmap.{Bitmap, get_at, set_at}
use aalto_buenos.Bitmap.Bits.{get_at-lt, get_at-set_at}

unfoldable pub count_clear : Bitmap → ℕ → ℕ
count_clear bm zero = 0
count_clear bm (suc n) = count_clear bm n + (1 - get_at bm n)

pub count_clear-le : (bm : Bitmap) (n : ℕ) → count_clear bm n ≤ n
unfolding count_clear
count_clear-le bm zero = omega arith
count_clear-le bm (suc n) = omega (arith, count_clear-le bm n)

-- A change above the range does not count.
count_clear-set_at_of_le :
    (bm : Bitmap) (n p v : ℕ)
    → p < 32 * length bm
    → v < 2
    → n ≤ p
    → count_clear (set_at bm p v) n ≡ count_clear bm n
unfolding count_clear
count_clear-set_at_of_le bm zero p v h hv le = refl
count_clear-set_at_of_le bm (suc n) p v h hv le =
    ground (arith, count_clear-set_at_of_le bm n p v, get_at-set_at bm p n v)

pub count_clear-set_at :
    (bm : Bitmap) (n p v : ℕ)
    → p < 32 * length bm
    → v < 2
    → p < n
    → count_clear (set_at bm p v) n + v ≡ count_clear bm n + get_at bm p
unfolding count_clear
count_clear-set_at bm zero p v h hv lt = absurd (omega arith)
count_clear-set_at bm (suc n) p v h hv lt = elim (dec_lt p n) [
  | yes below ↦ ground (arith, count_clear-set_at bm n p v, get_at-set_at bm p n v)
  | no last ↦
      let e : p ≡ n = omega arith in
      ground (
        arith,
        count_clear-set_at_of_le bm n p v h hv (omega arith),
        get_at-set_at bm p n v,
        ap (get_at bm) e,
        get_at-lt bm n,
      )
]

pub count_clear-pos : (bm : Bitmap) (n q : ℕ) → q < n → get_at bm q ≡ 0 → 0 < count_clear bm n
unfolding count_clear
count_clear-pos bm zero q h z = absurd (omega arith)
count_clear-pos bm (suc n) q h z = elim (ℕ_discrete q n) [
  | yes e ↦ let z' : get_at bm n ≡ 0 = rw (← e) z in omega arith
  | no ne ↦ omega (arith, count_clear-pos bm n q (omega arith) z)
]

pub count_clear-eq-zero :
    (bm : Bitmap) (n : ℕ) → ((q : ℕ) → q < n → get_at bm q ≡ 1) → count_clear bm n ≡ 0
unfolding count_clear
count_clear-eq-zero bm zero all = refl
count_clear-eq-zero bm (suc n) all =
    omega (arith, all n (omega arith), count_clear-eq-zero bm n (λ q h. all q (omega arith)))

-- All bits from `r` on are clear, those below are set.
pub count_clear-above :
    (bm : Bitmap) (r n : ℕ)
    → ((q : ℕ) → q < r → get_at bm q ≡ 1)
    → ((q : ℕ) → r ≤ q → q < n + r → get_at bm q ≡ 0)
    → count_clear bm (n + r) ≡ n
unfolding count_clear
count_clear-above bm r zero low high = count_clear-eq-zero bm (0 + r) (λ q h. low q (omega arith))
count_clear-above bm r (suc n) low high =
    let e : suc n + r ≡ suc (n + r) = omega arith in
    rw e (
      omega (
        arith,
        high (n + r) (omega arith) (omega arith),
        count_clear-above bm r n low (λ q a b. high q a (omega arith)),
      ))

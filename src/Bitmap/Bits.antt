-- ===== src/Bitmap/Bits.antt =====
-- What `bitmap_init`, `bitmap_get` and `bitmap_set` do to each bit.
use aalto_buenos.Prelude.{
  ℕ, zero, suc, ◌+◌, ◌-◌, ◌*◌, ◌/◌, ◌%◌, ◌^◌, ◌≤◌, ◌<◌, ◌≡◌, ◌≢◌, refl, ap, [], ◌∷◌, ◌&&◌, arith,
  if◌then◌else◌, ltb, leb, ◌==◌, get_or, set, length, length-set, get_or-set_self, get_or-set_ne,
  ok, ℕ_discrete,
}
use aalto_buenos.Prelude.Int.{pos}
use aalto_buenos.Prelude.Bits.{
  test_bit, test_bit-zero, shift-test_bit, test_bit-lt, test_bit-set, test_bit-clear, bit_and-lt,
  bit_or-lt, pow_mono,
}
use aalto_buenos.Bitmap.{Bitmap, init, clear_words, get_at, set_at, updated_word, sizeof}

-- Every word fits 32 bits.
abbrev pub IsWords : Bitmap → Type 0
IsWords [] = Unit
IsWords (w ∷ ws) = (w < 2 ^ 32) × IsWords ws

pub get_or-lt : (bm : Bitmap) (i : ℕ) → IsWords bm → get_or bm i 0 < 2 ^ 32
get_or-lt [] i v = omega arith
get_or-lt (w ∷ ws) zero v = v.0
get_or-lt (w ∷ ws) (suc i) v = get_or-lt ws i v.1

set-IsWords : (bm : Bitmap) (i w : ℕ) → IsWords bm → w < 2 ^ 32 → IsWords (set bm i w)
set-IsWords [] i w v h = tt
set-IsWords (x ∷ xs) zero w v h = (h, v.1)
set-IsWords (x ∷ xs) (suc i) w v h = (v.0, set-IsWords xs i w v.1 h)

pub get_at-test_bit : (bm : Bitmap) (p : ℕ) → get_at bm p ≡ test_bit (get_or bm (p / 32) 0) (p % 32)
unfolding get_at
get_at-test_bit bm p = shift-test_bit (p % 32) (get_or bm (p / 32) 0)

pub get_at-lt : (bm : Bitmap) (p : ℕ) → get_at bm p < 2
get_at-lt bm p = omega (arith, get_at-test_bit bm p, test_bit-lt (p % 32) (get_or bm (p / 32) 0))

test_bit-updated_word :
    (w j k v : ℕ)
    → j < 32
    → k < 32
    → v < 2
    → test_bit (updated_word w j v) k ≡ (if j == k then v else test_bit w k)
unfolding updated_word
test_bit-updated_word w j k v hj hk hv = ground (arith, test_bit-clear 32 w j k, test_bit-set w j k)

-- After `bitmap_set` of a bit inside the words to 0 or 1, `bitmap_get` reads the new value at this
-- bit and the old value at every other one.
pub get_at-set_at :
    (bm : Bitmap) (p q v : ℕ)
    → p < 32 * length bm
    → v < 2
    → get_at (set_at bm p v) q ≡ (if p == q then v else get_at bm q)
get_at-set_at bm p q v h hv = elim (ℕ_discrete (p / 32) (q / 32)) [
  | yes e ↦ ground (
    arith,
    same e,
    get_at-test_bit bm q,
    get_at-test_bit (set_at bm p v) q,
    test_bit-updated_word (get_or bm (p / 32) 0) (p % 32) (q % 32) v,
    ap (λ t. get_or bm t 0) e,
  )
  | no ne ↦ ground (arith, other ne, get_at-test_bit bm q, get_at-test_bit (set_at bm p v) q)
]
  where
    same :
        p / 32 ≡ q / 32
        → get_or (set_at bm p v) (q / 32) 0 ≡ updated_word (get_or bm (p / 32) 0) (p % 32) v
    same e = rw (← e) (unfold set_at in get_or-set_self bm (p / 32) _ 0 (omega arith))

    other : p / 32 ≢ q / 32 → get_or (set_at bm p v) (q / 32) 0 ≡ get_or bm (q / 32) 0
    other ne = unfold set_at in get_or-set_ne bm (p / 32) (q / 32) _ 0 ne

pub length-set_at : (bm : Bitmap) (p v : ℕ) → length (set_at bm p v) ≡ length bm
unfolding set_at
length-set_at bm p v = length-set bm (p / 32) _

pub set_at-IsWords : (bm : Bitmap) (p v : ℕ) → IsWords bm → IsWords (set_at bm p v)
unfolding set_at updated_word
set_at-IsWords bm p v ws = set-IsWords bm (p / 32) _ ws fits
  where
    word : ℕ
    word = get_or bm (p / 32) 0

    fits : updated_word word (p % 32) v < 2 ^ 32
    fits = ground (
      arith,
      get_or-lt bm (p / 32) ws,
      bit_and-lt 32 word (2 ^ 32 - 1 - 2 ^ (p % 32)),
      bit_or-lt 32 word (2 ^ (p % 32)),
      pow_mono (p % 32) 32 (omega arith),
    )

pub length-clear_words : (n i : ℕ) (bm : Bitmap) → length (clear_words n i bm) ≡ length bm
unfolding clear_words
length-clear_words zero i bm = refl
length-clear_words (suc n) i bm =
    omega (arith, length-clear_words n (i + 1) (set bm i 0), length-set bm i 0)

get_or-clear_words :
    (n i j : ℕ) (bm : Bitmap)
    → n + i ≤ length bm
    → get_or (clear_words n i bm) j 0 ≡ (if leb i j && ltb j (n + i) then 0 else get_or bm j 0)
unfolding clear_words
get_or-clear_words zero i j bm h = ground arith
get_or-clear_words (suc n) i j bm h = elim (ℕ_discrete i j) [
  | yes e ↦ rw (← e) (
      ground (
        arith,
        get_or-clear_words n (i + 1) i (set bm i 0) (omega (arith, length-set bm i 0)),
        get_or-set_self bm i 0 0 (omega arith),
      ))
  | no ne ↦ ground (
    arith,
    get_or-clear_words n (i + 1) j (set bm i 0) (omega (arith, length-set bm i 0)),
    get_or-set_ne bm i j 0 0 ne,
  )
]

clear_words-IsWords : (n i : ℕ) (bm : Bitmap) → IsWords bm → IsWords (clear_words n i bm)
unfolding clear_words
clear_words-IsWords zero i bm ws = ws
clear_words-IsWords (suc n) i bm ws =
    clear_words-IsWords n (i + 1) (set bm i 0) (set-IsWords bm i 0 ws (omega arith))

-- `bitmap_init` with a size that fits the words keeps their number, leaves words of 32 bits, and
-- clears every bit below the size.
pub init_lem :
    (bm : Bitmap) (size : ℕ)
    → IsWords bm
    → sizeof size ≤ 4 * length bm
    → (bm' : Bitmap) × (init bm (pos size) ≡ ok bm')
      × (length bm' ≡ length bm)
      × IsWords bm'
      × ((q : ℕ) → q < size → get_at bm' q ≡ 0)
unfolding init sizeof
init_lem bm size ws h = (
  clear_words ((size + 31) / 32) 0 bm,
  ground (arith, h),
  length-clear_words ((size + 31) / 32) 0 bm,
  clear_words-IsWords ((size + 31) / 32) 0 bm ws,
  clear,
)
  where
    clear : (q : ℕ) → q < size → get_at (clear_words ((size + 31) / 32) 0 bm) q ≡ 0
    clear q lt =
        let w : get_or (clear_words ((size + 31) / 32) 0 bm) (q / 32) 0 ≡ 0 =
          ground (arith, get_or-clear_words ((size + 31) / 32) 0 (q / 32) bm (omega arith)) in
        omega (
          arith,
          get_at-test_bit (clear_words ((size + 31) / 32) 0 bm) q,
          ap (λ t. test_bit t (q % 32)) w,
          test_bit-zero (q % 32),
        )

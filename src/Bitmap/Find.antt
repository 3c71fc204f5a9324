-- ===== src/Bitmap/Find.antt =====
-- `bitmap_findnset` against a description of the lowest clear bit.
use aalto_buenos.Prelude.{
  Result, ℕ, zero, suc, ◌+◌, ◌*◌, ◌/◌, ◌%◌, ◌≤◌, ◌<◌, ◌≡◌, ◌≢◌, refl, ap, arith, if◌then◌else◌, leb,
  get_or, length, ◌==◌, ok, ℕ_discrete, dec_lt,
}
use aalto_buenos.Prelude.Int.{ℤ, pos, none_id}
use aalto_buenos.Prelude.Bits.{test_bit, eq_of_all_set, test_bit-all_set}
use aalto_buenos.Bitmap.{
  Bitmap, full_word, get_at, set_at, sizeof, Scan, found, unused_tail, no_clear_bit, scan_word,
  find_from, findnset,
}
use aalto_buenos.Bitmap.Bits.{
  IsWords, get_or-lt, get_at-test_bit, get_at-lt, get_at-set_at, set_at-IsWords, length-set_at,
}

-- All bits from `lo` up to `hi` are set.
abbrev pub AllSet : Bitmap → ℕ → ℕ → Type 0
AllSet bm lo hi = (q : ℕ) → lo ≤ q → q < hi → get_at bm q ≡ 1

-- `p` is the lowest clear bit below `l`.
pub record IsFirstClear (bm : Bitmap) (l p : ℕ) : Type 0 where
  pub below : p < l
  pub clear : get_at bm p ≡ 0
  pub before : AllSet bm 0 p

AllSet-extend :
    (bm : Bitmap) (lo mid : ℕ) → AllSet bm lo mid → get_at bm mid ≢ 0 → AllSet bm lo (mid + 1)
AllSet-extend bm lo mid all ne q a b = elim (ℕ_discrete q mid) [
  | yes e ↦ rw e (omega (arith, get_at-lt bm mid))
  | no d ↦ all q a (omega arith)
]

-- How the scan of one word ends: at its first clear bit, or at the word's end.
data WordScan (bm : Bitmap) (l base j : ℕ) (s : Scan) : Type 0 where
  hit :
      (k : ℕ)
      → j ≤ k
      → k < 32
      → get_at bm (base + k) ≡ 0
      → AllSet bm (base + j) (base + k)
      → s ≡ (if leb l (base + k) then unused_tail else found (base + k))
      → WordScan bm l base j s
  full : AllSet bm (base + j) (base + 32) → s ≡ no_clear_bit → WordScan bm l base j s

scan_word-WordScan :
    (bm : Bitmap) (l base n j : ℕ) → n + j ≡ 32 → WordScan bm l base j (scan_word bm l base n j)
unfolding scan_word
scan_word-WordScan bm l base zero j e = full (λ q a b. absurd (omega arith)) refl
scan_word-WordScan bm l base (suc n) j e = elim (ℕ_discrete (get_at bm (base + j)) 0) [
  | yes z ↦ hit j (omega arith) (omega arith) z (λ q a b. absurd (omega arith)) (ground arith)
  | no ne ↦ elim (scan_word-WordScan bm l base n (j + 1) (omega arith)) [
    | hit k jk kl z all s ↦ hit k (omega arith) kl z (step ne k all) (ground arith)
    | full all s ↦ full (step ne 32 all) (ground arith)
  ]
]
  where
    step :
        get_at bm (base + j) ≢ 0
        → (k : ℕ) → AllSet bm (base + (j + 1)) (base + k)
        → AllSet bm (base + j) (base + k)
    step ne k all q a b = elim (ℕ_discrete q (base + j)) [
      | yes e' ↦ rw e' (omega (arith, get_at-lt bm (base + j)))
      | no d ↦ all q (omega arith) b
    ]

-- The word test of the outer loop: a word of ones has no clear bit, any other has one.
full_word-AllSet :
    (bm : Bitmap) (i : ℕ) → get_or bm i 0 ≡ full_word → AllSet bm (i * 32) (i * 32 + 32)
full_word-AllSet bm i e q a b =
    let w : q / 32 ≡ i = omega arith in
    omega (
      arith,
      get_at-test_bit bm q,
      ap (λ t. test_bit (get_or bm t 0) (q % 32)) w,
      ap (λ t. test_bit t (q % 32)) e,
      test_bit-all_set 32 (q % 32) (omega arith),
    )

full_word_of_AllSet :
    (bm : Bitmap) (i : ℕ)
    → IsWords bm
    → AllSet bm (i * 32) (i * 32 + 32)
    → get_or bm i 0 ≡ full_word
full_word_of_AllSet bm i ws all = eq_of_all_set 32 (get_or bm i 0) (get_or-lt bm i ws) bit_is_set
  where
    bit_is_set : (k : ℕ) → k < 32 → test_bit (get_or bm i 0) k ≡ 1
    bit_is_set k h =
        let w : (i * 32 + k) / 32 ≡ i = omega arith in
        let r : (i * 32 + k) % 32 ≡ k = omega arith in
        omega (
          arith,
          all (i * 32 + k) (omega arith) (omega arith),
          get_at-test_bit bm (i * 32 + k),
          ap (λ t. test_bit (get_or bm t 0) ((i * 32 + k) % 32)) w,
          ap (λ t. test_bit (get_or bm i 0) t) r,
        )

-- The two ways that a search below `l` may end, with the bitmap that it leaves.
pub data FindOutcome (bm : Bitmap) (l : ℕ) (r : ℤ × Bitmap) : Type 0 where
  taken : (p : ℕ) → IsFirstClear bm l p → r ≡ (pos p, set_at bm p 1) → FindOutcome bm l r
  none_left : AllSet bm 0 l → r ≡ (none_id, bm) → FindOutcome bm l r

-- The search returns, in one of the two ways.
abbrev pub Found : Bitmap → ℕ → Result (ℤ × Bitmap) → Type 0
Found bm l x = (r : ℤ × Bitmap) × (x ≡ ok r) × FindOutcome bm l r

AllSet-join : (bm : Bitmap) (mid hi : ℕ) → AllSet bm 0 mid → AllSet bm mid hi → AllSet bm 0 hi
AllSet-join bm mid hi lower upper q a b = elim (dec_lt q mid) [
  | yes lo ↦ lower q a lo
  | no up ↦ upper q (omega arith) b
]

-- One round of the outer loop, given what the rest of the loop comes to.
find_round :
    (bm : Bitmap) (l n i : ℕ)
    → IsWords bm
    → i < length bm
    → suc n + i ≡ (l + 31) / 32
    → AllSet bm 0 (i * 32)
    → (AllSet bm 0 ((i + 1) * 32) → Found bm l (find_from bm l n (i + 1)))
    → Found bm l (find_from bm l (suc n) i)
unfolding find_from
find_round bm l n i ws inside e before rest = elim (ℕ_discrete (get_or bm i 0) full_word) [
  | yes whole ↦
      let (r, eq, o) = rest (through (full_word-AllSet bm i whole)) in
      (r, ground (arith, inside, whole, eq), o)
  | no part ↦ elim (scan_word-WordScan bm l (i * 32) 32 0 (omega arith)) [
    | hit k jk kl z all s ↦ elim (dec_lt (i * 32 + k) l) [
      | yes lt ↦ (
        (pos (i * 32 + k), set_at bm (i * 32 + k) 1),
        ground (arith, inside, part, s, lt),
        taken (i * 32 + k) (record { below = lt; clear = z; before = up_to k all }) refl,
      )
      | no ge ↦ (
        (none_id, bm),
        ground (arith, inside, part, s, ge),
        none_left (λ q a b. up_to k all q a (omega arith)) refl,
      )
    ]
    | full all s ↦ absurd (part (full_word_of_AllSet bm i ws (λ q a b. all q (omega arith) b)))
  ]
]
  where
    through : AllSet bm (i * 32) (i * 32 + 32) → AllSet bm 0 ((i + 1) * 32)
    through all q a b = AllSet-join bm (i * 32) (i * 32 + 32) before all q a (omega arith)

    up_to : (k : ℕ) → AllSet bm (i * 32 + 0) (i * 32 + k) → AllSet bm 0 (i * 32 + k)
    up_to k all = AllSet-join bm (i * 32) (i * 32 + k) before (λ q a b. all q (omega arith) b)

find_from-Found :
    (bm : Bitmap) (l n i : ℕ)
    → IsWords bm
    → l ≤ 32 * length bm
    → n + i ≡ (l + 31) / 32
    → AllSet bm 0 (i * 32)
    → Found bm l (find_from bm l n i)
find_from-Found bm l zero i ws fits e before =
    ((none_id, bm), (unfold find_from in refl), none_left (λ q a b. before q a (omega arith)) refl)
find_from-Found bm l (suc n) i ws fits e before =
    find_round bm l n i ws (omega arith) e before
      (find_from-Found bm l n (i + 1) ws fits (omega arith))

pub findnset-Found :
    (bm : Bitmap) (l : ℕ) → IsWords bm → l ≤ 32 * length bm → Found bm l (findnset bm (pos l))
unfolding findnset sizeof
findnset-Found bm l ws fits =
    find_from-Found bm l (sizeof l / 4) 0 ws fits (omega arith) (λ q a b. absurd (omega arith))

-- What `bitmap_findnset` returns and which bits it leaves.
pub data MarkOutcome (bm : Bitmap) (l : ℕ) (r : ℤ × Bitmap) : Type 0 where
  marked :
      (p : ℕ) (bm' : Bitmap)
      → IsFirstClear bm l p
      → r ≡ (pos p, bm')
      → get_at bm' p ≡ 1
      → ((q : ℕ) → q ≢ p → get_at bm' q ≡ get_at bm q)
      → length bm' ≡ length bm
      → IsWords bm'
      → MarkOutcome bm l r
  no_bit : AllSet bm 0 l → r ≡ (none_id, bm) → MarkOutcome bm l r

FindOutcome-MarkOutcome :
    (bm : Bitmap) (l : ℕ) (r : ℤ × Bitmap)
    → IsWords bm
    → l ≤ 32 * length bm
    → FindOutcome bm l r
    → MarkOutcome bm l r
FindOutcome-MarkOutcome bm l r ws fits (none_left all e) = no_bit all e
FindOutcome-MarkOutcome bm l r ws fits (taken p first e) =
    marked p (set_at bm p 1) first e (ground (arith, bit p)) (λ q ne. ground (arith, bit q, ne))
      (length-set_at bm p 1) (set_at-IsWords bm p 1 ws)
  where
    bit : (q : ℕ) → get_at (set_at bm p 1) q ≡ (if p == q then 1 else get_at bm q)
    bit q = get_at-set_at bm p q 1 (omega (arith, first.below)) (omega arith)

-- `bitmap_findnset` on 32-bit words and a length that is not negative and within the words returns
-- the lowest clear bit below the length, after which this bit reads as 1 and every other bit as
-- before, or returns -1 and changes nothing when every bit below the length is set.
pub findnset_lem :
    (bm : Bitmap) (l : ℕ)
    → IsWords bm
    → l ≤ 32 * length bm
    → (r : ℤ × Bitmap) × (findnset bm (pos l) ≡ ok r) × MarkOutcome bm l r
findnset_lem bm l ws fits =
    let (r, e, o) = findnset-Found bm l ws fits in (r, e, FindOutcome-MarkOutcome bm l r ws fits o)

-- ===== src/Bitmap.antt =====
-- lib/bitmap.c: the allocation bitmap of the page pool and of the file systems, an array of
-- 32-bit words. Set bits mark what is in use.
pub mod Bits
pub mod Find
use Prim.Native.Nat.{bit_and, bit_or}
use aalto_buenos.Prelude.{
  ℕ, zero, suc, ◌+◌, ◌-◌, ◌*◌, ◌/◌, ◌%◌, ◌^◌, List, [], ◌∷◌, Bool, true, false, if◌then◌else◌, ltb,
  leb, ◌==◌, get_or, set, replicate, Result, ok, panic, outside, length, ◌>>=◌,
}
use aalto_buenos.Prelude.Int.{ℤ, pos, negsuc, none_id}

-- `bitmap_t *`
abbrev pub Bitmap : Type 0
Bitmap = List ℕ

abbrev pub word_bits : ℕ
word_bits = 32

abbrev pub full_word : ℕ
full_word = 2 ^ 32 - 1

-- bytes that `num_bits` bits take
unfoldable pub sizeof : ℕ → ℕ
sizeof num_bits = (num_bits + 31) / 32 * 4

-- `for(i = i0; i < i0 + n; i++) bitmap[i] = 0;`
unfoldable pub clear_words : ℕ → ℕ → Bitmap → Bitmap
clear_words zero i bitmap = bitmap
clear_words (suc n) i bitmap = clear_words n (i + 1) (set bitmap i 0)

unfoldable pub init : Bitmap → ℤ → Result Bitmap
init bitmap (pos size) =
    if leb ((size + 31) / 32) (length bitmap)
    then ok (clear_words ((size + 31) / 32) 0 bitmap)
    else outside
init bitmap (negsuc _) = panic

-- `bitmap_get` past its assertion, inside the words
unfoldable pub get_at : Bitmap → ℕ → ℕ
get_at bitmap p = get_or bitmap (p / 32) 0 / 2 ^ (p % 32) % 2

unfoldable pub get : Bitmap → ℤ → Result ℕ
get bitmap (pos p) = if ltb (p / 32) (length bitmap) then ok (get_at bitmap p) else outside
get bitmap (negsuc _) = panic

-- `word & ~(1 << j)` or `word | (1 << j)`
unfoldable pub updated_word : ℕ → ℕ → ℕ → ℕ
updated_word word j value =
    if value == 0 then bit_and word (2 ^ 32 - 1 - 2 ^ j) else bit_or word (2 ^ j)

-- `bitmap_set` past its assertion and its test that `value` is 0 or 1, inside the words
unfoldable pub set_at : Bitmap → ℕ → ℕ → Bitmap
unfolding updated_word
set_at bitmap p value = set bitmap (p / 32) (updated_word (get_or bitmap (p / 32) 0) (p % 32) value)

unfoldable pub set_bit : Bitmap → ℤ → ℕ → Result Bitmap
set_bit bitmap (pos p) value =
    if leb value 1
    then (if ltb (p / 32) (length bitmap) then ok (set_at bitmap p value) else outside)
    else panic
set_bit bitmap (negsuc _) value = panic

-- What the inner loop of `bitmap_findnset` meets.
pub data Scan : Type 0 where
  found : ℕ → Scan
  unused_tail : Scan
  no_clear_bit : Scan

-- `for (j = j0; j < 32; j++)` over one word, with `n` rounds left
unfoldable pub scan_word : Bitmap → ℕ → ℕ → ℕ → ℕ → Scan
scan_word bitmap l base zero j = no_clear_bit
scan_word bitmap l base (suc n) j =
    let rest = scan_word bitmap l base n (j + 1) in
    if get_at bitmap (base + j) == 0
    then if leb l (base + j) then unused_tail else found (base + j)
    else rest

-- `for (i = i0; i < bitmap_sizeof(l)/4; i++)`, with `n` rounds left
unfoldable pub find_from : Bitmap → ℕ → ℕ → ℕ → Result (ℤ × Bitmap)
find_from bitmap l zero i = ok (none_id, bitmap)
find_from bitmap l (suc n) i =
    let rest = find_from bitmap l n (i + 1) in
    let scanned : Result (ℤ × Bitmap) = elim (scan_word bitmap l (i * 32) 32 0) [
      | found p ↦ ok (pos p, set_at bitmap p 1)
      | unused_tail ↦ ok (none_id, bitmap)
      | no_clear_bit ↦ rest
    ] in
    if ltb i (length bitmap)
    then (if get_or bitmap i 0 == full_word then rest else scanned)
    else outside

unfoldable pub findnset : Bitmap → ℤ → Result (ℤ × Bitmap)
findnset bitmap (pos l) = find_from bitmap l (sizeof l / 4) 0
findnset bitmap (negsuc _) = panic

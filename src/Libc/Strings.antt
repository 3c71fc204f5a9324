-- ===== src/Libc/Strings.antt =====
-- strlen, stringcmp, stringcopy and the TTY lines of lib/libc.c against texts without zeros.
use aalto_buenos.Prelude.{
  ℕ, zero, suc, ◌+◌, ◌-◌, ◌≤◌, ◌<◌, ◌≡◌, ◌≢◌, refl, ◌↔◌, List, [], ◌∷◌, ◌++◌, length, take, drop,
  arith, some, ℕ_discrete,
}
use aalto_buenos.Prelude.Int.{ℤ, pos}
use aalto_buenos.Libc.{strlen, stringcmp, char_difference, pad, copy_chars, stringcopy, kwrite}

-- Characters: bytes other than the terminating zero.
abbrev pub IsText : List ℕ → Type 0
IsText [] = Unit {0}
IsText (c ∷ s) = (c ≢ 0) × (c < 256) × IsText s

pub strlen_lem : (s rest : List ℕ) → IsText s → strlen (s ++ (0 ∷ rest)) ≡ some (length s)
unfolding strlen
strlen_lem [] rest t = refl
strlen_lem (c ∷ s) rest (ne, b, t) = ground (arith, strlen_lem s rest t, ne)

char_difference-zero : (c d : ℕ) → c < 256 → d < 256 → (char_difference c d ≡ pos 0) ↔ (c ≡ d)
unfolding char_difference
char_difference-zero c d hc hd = ground arith

pub stringcmp_lem :
    (a b x y : List ℕ)
    → IsText a
    → IsText b
    → (r : ℤ) × (stringcmp (a ++ (0 ∷ x)) (b ++ (0 ∷ y)) ≡ some r) × ((r ≡ pos 0) ↔ (a ≡ b))
unfolding stringcmp
stringcmp_lem [] [] x y ta tb = (pos 0, refl, ground arith)
stringcmp_lem [] (d ∷ b) x y ta (ne, hd, tb) = (
  char_difference 0 d,
  ground (arith, ne),
  ground (arith, char_difference-zero 0 d (omega arith) hd, ne),
)
stringcmp_lem (c ∷ a) [] x y (ne, hc, ta) tb = (
  char_difference c 0,
  ground (arith, ne),
  ground (arith, char_difference-zero c 0 hc (omega arith), ne),
)
stringcmp_lem (c ∷ a) (d ∷ b) x y (nc, hc, ta) (nd, hd, tb) = elim (ℕ_discrete c d) [
  | yes e ↦ same e (stringcmp_lem a b x y ta tb)
  | no ne ↦ (
    char_difference c d,
    ground (arith, ne, nc, nd),
    ground (arith, char_difference-zero c d hc hd, ne),
  )
]
  where
    same :
        c ≡ d
        → (r : ℤ) × (stringcmp (a ++ (0 ∷ x)) (b ++ (0 ∷ y)) ≡ some r) × ((r ≡ pos 0) ↔ (a ≡ b))
        → (r : ℤ) × (stringcmp (c ∷ a ++ (0 ∷ x)) (d ∷ b ++ (0 ∷ y)) ≡ some r)
          × ((r ≡ pos 0) ↔ (c ∷ a ≡ d ∷ b))
    same e (r, run, iff) = (r, ground (arith, run, nc, nd, e), ground (arith, iff, e))

pad-zero : (n : ℕ) (target : List ℕ) → pad n (0 ∷ target) ≡ some (0 ∷ target)
unfolding pad
pad-zero zero target = refl
pad-zero (suc n) target = pad-zero n target

copy_chars_lem :
    (n : ℕ) (target s rest : List ℕ)
    → IsText s
    → n < length target
    → copy_chars n target (s ++ (0 ∷ rest))
      ≡ some (take n s ++ (0 ∷ drop (suc (length (take n s))) target))
unfolding copy_chars
copy_chars_lem n [] s rest t lt = absurd (omega arith)
copy_chars_lem zero (x ∷ target) s rest t lt = refl
copy_chars_lem (suc n) (x ∷ target) [] rest t lt = pad-zero (n + 1) target
copy_chars_lem (suc n) (x ∷ target) (c ∷ s) rest (ne, b, t) lt =
    ground (arith, ne, copy_chars_lem n target s rest t (omega arith))

-- For a text and a buffer of at least `buflen` bytes, with `buflen` above 0, `stringcopy` leaves
-- the first `buflen` - 1 characters of the text, one zero, and behind it the bytes that the buffer
-- held before.
pub stringcopy_lem :
    (target s rest : List ℕ) (buflen : ℕ)
    → IsText s
    → 0 < buflen
    → buflen ≤ length target
    → stringcopy target (s ++ (0 ∷ rest)) buflen
      ≡ some (take (buflen - 1) s ++ (0 ∷ drop (suc (length (take (buflen - 1) s))) target))
unfolding stringcopy
stringcopy_lem target s rest buflen t lo hi =
    copy_chars_lem (buflen - 1) target s rest t (omega arith)

pub kwrite_lem : (s rest : List ℕ) → IsText s → kwrite (s ++ (0 ∷ rest)) ≡ some s
unfolding kwrite
kwrite_lem [] rest t = refl
kwrite_lem (c ∷ s) rest (ne, b, t) = ground (arith, kwrite_lem s rest t, ne)

-- ===== src/Libc.antt =====
-- lib/libc.c: strings, memory and atoi. A pointer into an array is the list of the bytes from there
-- to the array's end, and an access behind the end gives `none`; the functions on memory take
-- addresses into a function from addresses to bytes.
pub mod Strings
pub mod Memory
pub mod Numbers
use aalto_buenos.Prelude.{
  ℕ, zero, suc, ◌+◌, ◌-◌, ◌*◌, ◌/◌, ◌%◌, ◌^◌, List, [], ◌∷◌, Bool, true, false, if◌then◌else◌, ltb,
  leb, ◌==◌, ◌&&◌, ◌||◌, not, Option, none, some,
}
use aalto_buenos.Prelude.Int.{ℤ, pos, sub_ℕ}

-- one more character in front of what the rest of a loop comes to
abbrev pub cons_some : ℕ → Option (List ℕ) → Option (List ℕ)
cons_some c none = none
cons_some c (some s) = some (c ∷ s)

abbrev pub suc_some : Option ℕ → Option ℕ
suc_some none = none
suc_some (some n) = some (suc n)

unfoldable pub strlen : List ℕ → Option ℕ
strlen [] = none
strlen (c ∷ str) = let rest = strlen str in if c == 0 then some 0 else suc_some rest

-- `*str1-*str2`, of signed characters
unfoldable pub char_difference : ℕ → ℕ → ℤ
char_difference c d = sub_ℕ ((c + 128) % 256) ((d + 128) % 256)

unfoldable pub stringcmp : List ℕ → List ℕ → Option ℤ
stringcmp [] str2 = none
stringcmp (c ∷ str1) [] = none
stringcmp (c ∷ str1) (d ∷ str2) =
    let rest = stringcmp str1 str2 in
    if c == 0 && d == 0
    then some (pos 0)
    else if c == 0 || d == 0 || not (c == d)
    then some (char_difference c d)
    else rest

-- `while(i < buflen) { *target = '\0'; i++; }`, with `n` rounds left
unfoldable pub pad : ℕ → List ℕ → Option (List ℕ)
pad zero target = some target
pad (suc n) [] = none
pad (suc n) (x ∷ target) = pad n (0 ∷ target)

-- the loop of `stringcopy`, with `n` rounds left, and what the array at `target` holds after it
unfoldable pub copy_chars : ℕ → List ℕ → List ℕ → Option (List ℕ)
copy_chars n [] source = none
copy_chars zero (x ∷ target) source = some (0 ∷ target)
copy_chars (suc n) (x ∷ target) [] = none
copy_chars (suc n) (x ∷ target) (c ∷ source) =
    let rest = cons_some c (copy_chars n target source) in
    if c == 0 then pad (n + 1) (c ∷ target) else rest

unfoldable pub stringcopy : List ℕ → List ℕ → ℕ → Option (List ℕ)
stringcopy target source buflen = copy_chars (buflen - 1) target source

abbrev pub Memory : Type 0
Memory = ℕ → ℕ

abbrev pub store : Memory → ℕ → ℕ → Memory
store m a v = λ x. if x == a then v else m x

-- `for(i = 0; i < n; i++) t[i] = s[i];`
unfoldable pub copy_bytes : ℕ → ℕ → ℕ → Memory → Memory
copy_bytes zero t s m = m
copy_bytes (suc n) t s m = copy_bytes n (t + 1) (s + 1) (store m t (m s))

-- `*tgt = *src` on 32-bit words
unfoldable pub copy_word : ℕ → ℕ → Memory → Memory
copy_word tgt src m = λ x. if leb tgt x && ltb x (tgt + 4) then m (src + (x - tgt)) else m x

unfoldable pub copy_words : ℕ → ℕ → ℕ → Memory → Memory
copy_words zero tgt src m = m
copy_words (suc n) tgt src m = copy_words n (tgt + 4) (src + 4) (copy_word tgt src m)

unfoldable pub memcopy : ℕ → ℕ → ℕ → Memory → Memory
memcopy buflen target source m =
    if not (target % 4 == 0) || not (source % 4 == 0)
    then copy_bytes buflen target source m
    else copy_bytes (buflen % 4) (target + buflen / 4 * 4) (source + buflen / 4 * 4)
        (copy_words (buflen / 4) target source m)

unfoldable pub memoryset : ℕ → ℕ → ℕ → Memory → Memory
memoryset target value zero m = m
memoryset target value (suc n) m = memoryset (target + 1) value n (store m target value)

-- `s[i] == ' ' || s[i] == '\t' || s[i] == '\r' || s[i] == '\n'`
abbrev pub is_space : ℕ → Bool
is_space c = c == 32 || c == 9 || c == 13 || c == 10

abbrev pub is_digit : ℕ → Bool
is_digit c = leb 48 c && leb c 57

unfoldable pub skip_spaces : List ℕ → Option (List ℕ)
skip_spaces [] = none
skip_spaces (c ∷ s) = let rest = skip_spaces s in if is_space c then rest else some (c ∷ s)

-- `10*value + sign*(int)(s[i]-'0')`, an `int` in 32 bits of two's complement
unfoldable pub add_digit : Bool → ℕ → ℕ → ℕ
add_digit is_minus value c =
    (10 * value + (if is_minus then 2 ^ 32 - (c - 48) else c - 48)) % 2 ^ 32

unfoldable pub read_digits : Bool → ℕ → List ℕ → Option ℕ
read_digits is_minus value [] = none
read_digits is_minus value (c ∷ s) =
    let rest = read_digits is_minus (add_digit is_minus value c) s in
    if is_digit c then rest else some value

-- the code behind the white space: the sign, then the digits
unfoldable pub read_signed : List ℕ → Option ℕ
read_signed [] = none
read_signed (c ∷ s) =
    if c == 0
    then some 0
    else if c == 45
    then read_digits true 0 s
    else if c == 43
    then read_digits false 0 s
    else read_digits false 0 (c ∷ s)

unfoldable pub atoi : List ℕ → Option ℕ
atoi s = elim (skip_spaces s) [ none ↦ none | some rest ↦ read_signed rest ]

-- `kwrite`: the characters that the TTY gets
unfoldable pub kwrite : List ℕ → Option (List ℕ)
kwrite [] = none
kwrite (c ∷ s) = let rest = cons_some c (kwrite s) in if c == 0 then some [] else rest

-- `kread`: the characters stored for a line that the TTY sends; `n` is `len - 1 - count`
unfoldable pub read_line : ℕ → List ℕ → Option (List ℕ)
read_line n [] = none
read_line zero (ch ∷ input) = some (0 ∷ [])
read_line (suc n) (ch ∷ input) =
    let rest = cons_some ch (read_line n input) in if ch == 10 then some (0 ∷ []) else rest

unfoldable pub kread : ℕ → List ℕ → Option (List ℕ)
kread len input = read_line (len - 1) input

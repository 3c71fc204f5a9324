-- ===== src/Xprintf.antt =====
-- lib/xprintf.c: formatted output into a buffer or to the TTY. The arguments are a list, and a
-- format or a string that is read behind its end, or an argument that is missing, is `outside`.
pub mod Digits
pub mod Bounds
pub mod Decimal
pub mod Termination
pub mod Printed
use aalto_buenos.Prelude.{
  ℕ, zero, suc, ◌+◌, ◌-◌, ◌*◌, ◌/◌, ◌%◌, ◌^◌, List, [], ◌∷◌, ◌++◌, Bool, true, false, if◌then◌else◌,
  ltb, leb, ◌==◌, ◌&&◌, ◌||◌, not, length, take, replicate, min,
}
use aalto_buenos.Prelude.Int.{ℤ, pos, negsuc, none_id, decr}

-- A run that ends, reads what is not there, or is still in its loop when the fuel is out.
pub data Run {ℓ} (A : Type ℓ) : Type ℓ where
  done : A → Run A
  outside : Run A
  hang : Run A

abbrev pub then_do {ℓ κ} : {A : Type ℓ} {B : Type κ} (r : Run A) (next : A → Run B) → Run B
then_do (done a) next = next a
then_do outside next = outside
then_do hang next = hang

pub record Flags : Type 0 where
  pub smalls : Bool
  pub alt : Bool
  pub zeropad : Bool
  pub left : Bool
  pub space : Bool
  pub sign : Bool

-- The flags, `width` and `prec` of one conversion.
pub record Modifiers : Type 0 where
  pub flags : Flags
  pub width : ℤ
  pub prec : ℤ

pub data Arg : Type 0 where
  number : ℕ → Arg
  text : List ℕ → Arg

-- The bytes written at `buf`, or sent to the TTY, the count `written`, and the arguments left.
pub record Out : Type 0 where
  pub chars : List ℕ
  pub written : ℕ
  pub args : List Arg

unfoldable pub printc : Bool → List ℕ → ℕ → List ℕ
printc tty chars c = if tty && c == 0 then chars else chars ++ (c ∷ [])

-- `printc(buf++, c, flags); written++;`
unfoldable pub put : Bool → ℕ → Out → Out
unfolding printc
put tty c o = record o { chars = printc tty o.chars c; written = o.written + 1 }

unfoldable pub put_all : Bool → List ℕ → Out → Out
put_all tty [] o = o
put_all tty (c ∷ cs) o = put_all tty cs (put tty c o)

-- `digits[n % base]`, from the half of the table that `FLAG_SMALLS` selects
abbrev pub digit : Bool → ℕ → ℕ
digit smalls d = if ltb d 10 then 48 + d else if smalls then 87 + d else 55 + d

-- the do-while loop that fills `rev`, with `fuel` rounds left
unfoldable pub reversed_digits : ℕ → Bool → ℕ → ℕ → List ℕ
reversed_digits zero smalls base n = []
reversed_digits (suc fuel) smalls base n =
    let rest = reversed_digits fuel smalls base (n / base) in
    digit smalls (n % base) ∷ (if n / base == 0 then [] else rest)

-- `while(i < count) { rev[i] = c; i++; }`, for a `count` that may be negative
unfoldable pub pad_to : ℤ → ℕ → List ℕ → List ℕ
pad_to (pos count) c rev = rev ++ replicate (count - length rev) c
pad_to (negsuc count) c rev = rev

-- `MIN(n, 11)`
abbrev pub at_most_11 : ℤ → ℤ
at_most_11 (pos n) = pos (min n 11)
at_most_11 (negsuc n) = negsuc n

-- `rev` before it is output
unfoldable pub reversed_uint : ℕ → ℕ → Bool → ℤ → ℤ → List ℕ
reversed_uint n base smalls prec width =
    pad_to (at_most_11 width) 32 (pad_to (at_most_11 prec) 48 (reversed_digits 32 smalls base n))

-- the array from its last element to its first
unfoldable pub backwards : List ℕ → List ℕ
backwards [] = []
backwards (c ∷ rev) = backwards rev ++ (c ∷ [])

-- the characters that `print_uint` outputs, `size` of them at most
unfoldable pub print_uint : ℕ → ℕ → ℕ → Bool → ℤ → ℤ → List ℕ
print_uint size n base smalls prec width =
    take size (backwards (reversed_uint n base smalls prec width))

-- `scan_int`: the bits of the `int`, which wraps around, and the text behind it
unfoldable pub scan_int : ℕ → List ℕ → Run (ℕ × List ℕ)
scan_int value [] = outside
scan_int value (c ∷ s) =
    let rest = scan_int ((10 * value + (c - 48)) % 2 ^ 32) s in
    if ltb 48 c && ltb c 57 then rest else done (value, c ∷ s)

-- What one round of the loop over the modifiers does with `ch`.
pub data Modifier : Type 0 where
  more : Modifiers → List ℕ → Modifier
  no_more : Modifier

-- the `int` with these bits
abbrev pub signed : ℕ → ℤ
signed n = if ltb n (2 ^ 31) then pos n else negsuc (2 ^ 32 - 1 - n)

abbrev pub set_prec : Modifiers → ℕ × List ℕ → Run Modifier
set_prec m (n, fmt) = done (more (record m { prec = signed n }) fmt)

abbrev pub set_width : Modifiers → ℕ × List ℕ → Run Modifier
set_width m (n, fmt) = done (more (record m { width = signed n }) fmt)

unfoldable pub read_modifier : Modifiers → ℕ → List ℕ → Run Modifier
read_modifier m ch fmt =
    if ch == 35
    then done (more (record m { flags = record m.flags { alt = true } }) fmt)
    else if ch == 48
    then done (more (record m { flags = record m.flags { zeropad = true } }) fmt)
    else if ch == 32
    then done (more (record m { flags = record m.flags { space = true } }) fmt)
    else if ch == 43
    then done (more (record m { flags = record m.flags { sign = true } }) fmt)
    else if ch == 45
    then done (more (record m { flags = record m.flags { left = true } }) fmt)
    else if ch == 46
    then then_do (scan_int 0 fmt) (set_prec m)
    else if leb 49 ch && leb ch 57
    then then_do (scan_int 0 (ch ∷ fmt)) (set_width m)
    else done no_more

-- the loop over the modifiers: what it has read, the character behind them, and the text behind
unfoldable pub read_modifiers : ℕ → Modifiers → ℕ → List ℕ → Run (Modifiers × ℕ × List ℕ)
read_modifiers zero m ch fmt = hang
read_modifiers (suc fuel) m ch fmt = elim (read_modifier m ch fmt) [
  | done (more m' []) ↦ outside
  | done (more m' (c ∷ rest)) ↦
      let next = read_modifiers fuel m' c rest in if c == 0 then done (m', 0, rest) else next
  | done no_more ↦ done (m, ch, fmt)
  | outside ↦ outside
  | hang ↦ hang
]

-- an `int` argument that is negative, in 32 bits
abbrev pub is_minus : ℕ → Bool
is_minus arg = leb (2 ^ 31) arg

-- what is output in front of the digits of a signed number
unfoldable pub put_sign : Bool → Flags → ℕ → Out → Out
put_sign tty f arg o =
    let o' = if is_minus arg then put tty 45 o else o in
    if f.sign then put tty 43 o' else if f.space then put tty 32 o' else o'

unfoldable pub put_signed : Bool → ℕ → Flags → ℕ → Out → Out
put_signed tty size f arg o =
    let o' = put_sign tty f arg o in
    let n = if is_minus arg then 2 ^ 32 - arg else arg in
    put_all tty (print_uint (size - o'.written) n 10 f.smalls (pos 0) (pos 0)) o'

-- `a < b`
abbrev pub lt_ℤ : ℤ → ℤ → Bool
lt_ℤ (pos a) (pos b) = ltb a b
lt_ℤ (pos a) (negsuc b) = false
lt_ℤ (negsuc a) (pos b) = true
lt_ℤ (negsuc a) (negsuc b) = ltb b a

unfoldable pub put_unsigned : Bool → ℕ → Modifiers → ℕ → ℕ → Out → Out
put_unsigned tty size m base uarg o =
    let prec = if lt_ℤ m.prec m.width && m.flags.zeropad then m.width else m.prec in
    put_all tty (print_uint (size - o.written) uarg base m.flags.smalls prec m.width) o

-- the case of 'p', 'x' and 'X'
unfoldable pub put_hex : Bool → ℕ → Modifiers → ℕ → Out → Out
put_hex tty size m uarg o =
    let o' = put tty 48 o in
    let o'' = if ltb o'.written size then put tty 120 o' else o' in
    if m.flags.alt
    then put_unsigned tty size (record m { width = decr (decr m.width) }) 16 uarg o''
    else put_unsigned tty size m 16 uarg o

-- the case of 's', with `n` characters still allowed
unfoldable pub put_text : Bool → ℕ → List ℕ → Out → Run Out
put_text tty zero s o = done o
put_text tty (suc n) [] o = outside
put_text tty (suc n) (c ∷ s) o =
    let rest = put_text tty n s (put tty c o) in if c == 0 then done o else rest

-- `w - written`, the bound of the case of 's'
abbrev pub text_room : ℕ → ℤ → ℕ → ℕ
text_room size (negsuc p) written = size - written
text_room size (pos p) written = if ltb (written + p) size then p else size - written

-- `va_arg(ap, int)` and its use
abbrev pub use_number : List Arg → Out → (ℕ → Out → Out) → Run Out
use_number (number n ∷ args) o f = done (f n (record o { args = args }))
use_number (text s ∷ args) o f = outside
use_number [] o f = outside

-- `va_arg(ap, char*)` and its use
abbrev pub use_text : List Arg → Out → (List ℕ → Out → Run Out) → Run Out
use_text (text s ∷ args) o f = f s (record o { args = args })
use_text (number n ∷ args) o f = outside
use_text [] o f = outside

-- the switch over the type of the argument
unfoldable pub convert : Bool → ℕ → Modifiers → ℕ → Out → Run Out
convert tty size m ch o =
    if ch == 105 || ch == 100
    then use_number o.args o (put_signed tty size m.flags)
    else if ch == 111
    then use_number o.args o (put_unsigned tty size m 8)
    else if ch == 117
    then use_number o.args o (put_unsigned tty size m 10)
    else if ch == 112
    then use_number o.args o
        (put_hex tty size (record m { flags = record m.flags { alt = true; smalls = true } }))
    else if ch == 120
    then use_number o.args o
        (put_hex tty size (record m { flags = record m.flags { smalls = true } }))
    else if ch == 88
    then use_number o.args o (put_hex tty size m)
    else if ch == 99
    then use_number o.args o (λ n o'. put tty (n % 256) o')
    else if ch == 115
    then use_text o.args o (λ s o'. put_text tty (text_room size m.prec o'.written) s o')
    else done (put tty ch o)

-- One round of the main loop: it goes on with the format behind, or it breaks.
pub data Step : Type 0 where
  go_on : List ℕ → Out → Step
  break : Out → Step

abbrev pub no_flags : Flags
no_flags = record {
  smalls = false;
  alt = false;
  zeropad = false;
  left = false;
  space = false;
  sign = false;
}

abbrev pub no_modifiers : Modifiers
no_modifiers = record { flags = no_flags; width = none_id; prec = none_id }

unfoldable pub convert_behind : Bool → ℕ → Out → Modifiers × ℕ × List ℕ → Run Step
convert_behind tty size o (m, ch, fmt) =
    if ch == 0
    then done (break o)
    else then_do (convert tty size m ch o) (λ o'. done (go_on fmt o'))

unfoldable pub print_step : Bool → ℕ → ℕ → List ℕ → Out → Run Step
print_step tty size fuel [] o = outside
print_step tty size fuel (c ∷ fmt) o =
    if c == 0
    then done (break o)
    else if not (c == 37)
    then done (go_on fmt (put tty c o))
    else elim fmt [
      | [] ↦ outside
      | ch ∷ rest ↦
          if ch == 0
          then done (break o)
          else then_do (read_modifiers fuel no_modifiers ch rest) (convert_behind tty size o)
    ]

unfoldable pub print_loop : Bool → ℕ → ℕ → List ℕ → Out → Run Out
print_loop tty size zero fmt o = hang
print_loop tty size (suc fuel) fmt o =
    if ltb o.written size
    then elim (print_step tty size fuel fmt o) [
      | done (go_on fmt' o') ↦ print_loop tty size fuel fmt' o'
      | done (break o') ↦ done o'
      | outside ↦ outside
      | hang ↦ hang
    ]
    else done o

-- the end of `vxnprintf`: the bytes of the buffer, or what the TTY got, and the number returned
unfoldable pub finish : Bool → ℕ → Out → Run (List ℕ × ℤ)
finish tty size o =
    if o.written == size
    then done (if tty then o.chars else take (o.written - 1) o.chars ++ (0 ∷ []), none_id)
    else done (printc tty o.chars 0, pos o.written)

unfoldable pub vxnprintf : Bool → ℕ → List ℕ → List Arg → ℕ → Run (List ℕ × ℤ)
vxnprintf tty size fmt args fuel =
    if size == 0
    then done ([], pos 0)
    else then_do (print_loop tty size fuel fmt (record { chars = []; written = 0; args = args }))
        (finish tty size)

-- `snprintf` and `vsnprintf`
unfoldable pub snprintf : ℕ → List ℕ → List Arg → ℕ → Run (List ℕ × ℤ)
snprintf size fmt args fuel = vxnprintf false size fmt args fuel

-- `kprintf` and `kvprintf`
unfoldable pub kprintf : List ℕ → List Arg → ℕ → Run (List ℕ × ℤ)
kprintf fmt args fuel = vxnprintf true (2 ^ 31 - 1) fmt args fuel

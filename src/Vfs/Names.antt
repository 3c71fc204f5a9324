-- ===== src/Vfs/Names.antt =====
-- Paths "[volume]file" and "file" of fs/vfs.c, and the names that vfs_parse_pathname finds in them.
use aalto_buenos.Prelude.{
  ℕ, zero, suc, ◌≤◌, ◌<◌, ◌≡◌, ◌≢◌, refl, sym, ap, ◌∙◌, get_or, List, [], ◌∷◌, ◌++◌, Bool, true,
  false, length, drop, arith, ℕ_discrete, ==-false,
}
use mathlib.Core.Path.{subst}
use aalto_buenos.Prelude.Outcomes.{Outcome, ret, ◌>>=◌}
use aalto_buenos.Libc.Strings.{IsText}
use aalto_buenos.Vfs.{name_length}
use aalto_buenos.Vfs.Paths.{
  Volume, bad, volume, Filename, bad_name, filename, cons_volume, cons_filename, volume_chars,
  filename_chars, Parsed, parse_error, parsed, with_filename, with_volume, parse_pathname,
}

-- a buffer that holds a name: what stood there is kept behind the terminating zero
abbrev pub holding : List ℕ → List ℕ → List ℕ
holding name buf = name ++ (0 ∷ drop (suc (length name)) buf)

abbrev pub HasNoBracket : List ℕ → Type 0
HasNoBracket [] = Unit {0}
HasNoBracket (c ∷ s) = (c ≢ 93) × HasNoBracket s

-- The text begins with a volume's name of less than `n` characters and a bracket.
abbrev HasVolume : ℕ → List ℕ → Type 0
HasVolume n t =
    (v : List ℕ) × (t' : List ℕ) × (t ≡ v ++ (93 ∷ t')) × (length v < n) × HasNoBracket v

HasVolume-nil : (n : ℕ) → ¬ HasVolume n []
HasVolume-nil n ([], t', e, lt, nb) = omega (arith, ap length e)
HasVolume-nil n (c ∷ v, t', e, lt, nb) = omega (arith, ap length e)

HasVolume-cons : (n c : ℕ) (t : List ℕ) → c ≢ 93 → HasVolume (suc n) (c ∷ t) → HasVolume n t
HasVolume-cons n c t ne ([], t', e, lt, nb) = absurd (ne (ap (λ s. get_or s 0 0) e))
HasVolume-cons n c t ne (d ∷ v, t', e, lt, nb) = (v, t', ap (drop 1) e, omega arith, nb.1)

-- How the loop over the volume's name ends on the text `t` of a path.
data VolumeOutcome (n : ℕ) (t rest buf : List ℕ) (r : Outcome Volume) : Type 0 where
  rejected : ¬ HasVolume n t → r ≡ ret bad → VolumeOutcome n t rest buf r
  accepted :
      (v t' : List ℕ)
      → t ≡ v ++ (93 ∷ t')
      → length v < n
      → HasNoBracket v
      → IsText t'
      → r ≡ ret (volume (t' ++ (0 ∷ rest)) (holding v buf))
      → VolumeOutcome n t rest buf r

cons-VolumeOutcome :
    (n c x : ℕ) (t rest buf : List ℕ) (r : Outcome Volume)
    → c ≢ 93
    → VolumeOutcome n t rest buf r
    → VolumeOutcome (suc n) (c ∷ t) rest (x ∷ buf) (cons_volume c r)
cons-VolumeOutcome n c x t rest buf r ne (rejected no_volume e) =
    rejected (λ h. no_volume (HasVolume-cons n c t ne h)) (rw e refl)
cons-VolumeOutcome n c x t rest buf r ne (accepted v t' split lt nb text e) =
    accepted (c ∷ v) t' (ap (λ s. c ∷ s) split) (omega arith) (ne, nb) text (rw e refl)

volume_chars-VolumeOutcome :
    (n : ℕ) (t rest buf : List ℕ)
    → IsText t
    → n ≤ length buf
    → VolumeOutcome n t rest buf (volume_chars n (t ++ (0 ∷ rest)) buf)
unfolding volume_chars
volume_chars-VolumeOutcome zero t rest buf text le = rejected (λ h. omega (arith, h.3)) refl
volume_chars-VolumeOutcome (suc n) t rest [] text le = absurd (omega arith)
volume_chars-VolumeOutcome (suc n) [] rest (x ∷ buf) text le = rejected (HasVolume-nil (suc n)) refl
volume_chars-VolumeOutcome (suc n) (c ∷ t) rest (x ∷ buf) (ne, lt, text) le =
    elim (ℕ_discrete c 93) [
      | yes e ↦ rw e (accepted [] t refl (omega arith) tt text refl)
      | no other ↦
          rw (==-false ne, ==-false other)
            (cons-VolumeOutcome n c x t rest buf _ other
              (volume_chars-VolumeOutcome n t rest buf text (omega arith)))
    ]

volume_chars_lem :
    (n : ℕ) (v path buf : List ℕ)
    → IsText v
    → HasNoBracket v
    → length v < n
    → n ≤ length buf
    → volume_chars n (v ++ (93 ∷ path)) buf ≡ ret (volume path (holding v buf))
unfolding volume_chars
volume_chars_lem zero v path buf text nb lt le = absurd (omega arith)
volume_chars_lem (suc n) v path [] text nb lt le = absurd (omega arith)
volume_chars_lem (suc n) [] path (x ∷ buf) text nb lt le = refl
volume_chars_lem (suc n) (c ∷ v) path (x ∷ buf) (ne, b, text) (other, nb) lt le =
    rw
      (
        ==-false ne,
        ==-false other,
        volume_chars_lem n v path buf text nb (omega arith) (omega arith),
      )
      refl

-- A file's name of less than `n` characters; it is not empty where the loop begins.
abbrev IsName : ℕ → Bool → List ℕ → Type 0
IsName n is_first t = (length t < n) × (is_first ≡ true → 0 < length t)

data FilenameOutcome (n : ℕ) (is_first : Bool) (t buf : List ℕ) (r : Outcome Filename)
    : Type 0 where
  rejected : ¬ IsName n is_first t → r ≡ ret bad_name → FilenameOutcome n is_first t buf r
  accepted :
      length t < n
      → (is_first ≡ true → 0 < length t)
      → r ≡ ret (filename (holding t buf))
      → FilenameOutcome n is_first t buf r

filename_chars-FilenameOutcome :
    (n : ℕ) (is_first : Bool) (t rest buf : List ℕ)
    → IsText t
    → n ≤ length buf
    → FilenameOutcome n is_first t buf (filename_chars n is_first (t ++ (0 ∷ rest)) buf)
unfolding filename_chars
filename_chars-FilenameOutcome zero b t rest buf text le =
    FilenameOutcome.rejected (λ h. omega (arith, h.0)) refl
filename_chars-FilenameOutcome (suc n) b t rest [] text le = absurd (omega arith)
filename_chars-FilenameOutcome (suc n) true [] rest (x ∷ buf) text le =
    FilenameOutcome.rejected (λ h. omega (arith, h.1 refl)) refl
filename_chars-FilenameOutcome (suc n) false [] rest (x ∷ buf) text le =
    FilenameOutcome.accepted (omega arith) (λ e. cc) refl
filename_chars-FilenameOutcome (suc n) b (c ∷ t) rest (x ∷ buf) (ne, lt, text) le =
    rw (==-false ne) (front (filename_chars-FilenameOutcome n false t rest buf text (omega arith)))
  where
    front :
        FilenameOutcome n false t buf (filename_chars n false (t ++ (0 ∷ rest)) buf)
        → FilenameOutcome
            (suc n)
            b
            (c ∷ t)
            (x ∷ buf)
            (cons_filename c (filename_chars n false (t ++ (0 ∷ rest)) buf))
    front (FilenameOutcome.rejected no_name e) =
        FilenameOutcome.rejected (λ h. no_name (omega (arith, h.0), λ w. cc)) (rw e refl)
    front (FilenameOutcome.accepted short first e) =
        FilenameOutcome.accepted (omega arith) (λ h. omega arith) (rw e refl)

filename_chars_lem :
    (n : ℕ) (is_first : Bool) (f rest buf : List ℕ)
    → IsText f
    → (is_first ≡ true → 0 < length f)
    → length f < n
    → n ≤ length buf
    → filename_chars n is_first (f ++ (0 ∷ rest)) buf ≡ ret (filename (holding f buf))
unfolding filename_chars
filename_chars_lem zero b f rest buf text nonempty lt le = absurd (omega arith)
filename_chars_lem (suc n) b f rest [] text nonempty lt le = absurd (omega arith)
filename_chars_lem (suc n) true [] rest (x ∷ buf) text nonempty lt le =
    absurd (omega (arith, nonempty refl))
filename_chars_lem (suc n) false [] rest (x ∷ buf) text nonempty lt le = refl
filename_chars_lem (suc n) b (c ∷ f) rest (x ∷ buf) (ne, h, text) nonempty lt le =
    rw
      (
        ==-false ne,
        filename_chars_lem n false f rest buf text (λ e. cc) (omega arith) (omega arith),
      )
      refl

pub parse_pathname-volume :
    (v f rest volumebuf filenamebuf : List ℕ)
    → IsText v
    → HasNoBracket v
    → length v ≤ 14
    → IsText f
    → 0 < length f
    → length f ≤ 15
    → name_length ≤ length volumebuf
    → name_length ≤ length filenamebuf
    → parse_pathname (91 ∷ v ++ (93 ∷ f ++ (0 ∷ rest))) volumebuf filenamebuf
      ≡ ret (parsed (holding v volumebuf) (holding f filenamebuf))
unfolding parse_pathname
parse_pathname-volume v f rest vb fb tv nb lv tf nonempty lf bv bf =
    rw
      (
        volume_chars_lem 15 v (f ++ (0 ∷ rest)) vb tv nb (omega arith) (omega arith),
        filename_chars_lem 16 true f rest fb tf (λ e. nonempty) (omega arith) bf,
      )
      refl

-- The two forms of a path with the volume `v` and the file `f`.
pub data IsPathOf (v f t : List ℕ) : Type 0 where
  with_brackets : t ≡ 91 ∷ v ++ (93 ∷ f) → length v ≤ 14 → HasNoBracket v → IsPathOf v f t
  bare : v ≡ [] → t ≡ f → get_or f 0 0 ≢ 91 → IsPathOf v f t

-- The text is no path with a file's name of 1 to 15 characters.
abbrev pub IsNoPath : List ℕ → Type 0
IsNoPath t = (v f : List ℕ) → IsPathOf v f t → 0 < length f → ¬ (length f ≤ 15)

bracket_unique :
    (v w f g : List ℕ) → HasNoBracket v → HasNoBracket w → v ++ (93 ∷ f) ≡ w ++ (93 ∷ g) → f ≡ g
bracket_unique [] [] f g nv nw e = ap (drop 1) e
bracket_unique [] (d ∷ w) f g nv nw e = absurd (nw.0 (sym (ap (λ s. get_or s 0 0) e)))
bracket_unique (c ∷ v) [] f g nv nw e = absurd (nv.0 (ap (λ s. get_or s 0 0) e))
bracket_unique (c ∷ v) (d ∷ w) f g nv nw e = bracket_unique v w f g nv.1 nw.1 (ap (drop 1) e)

pub data ParseOutcome (t volumebuf filenamebuf : List ℕ) (r : Outcome Parsed) : Type 0 where
  rejected : IsNoPath t → r ≡ ret parse_error → ParseOutcome t volumebuf filenamebuf r
  accepted :
      (v f : List ℕ)
      → IsPathOf v f t
      → 0 < length f
      → length f ≤ 15
      → r ≡ ret (parsed (holding v volumebuf) (holding f filenamebuf))
      → ParseOutcome t volumebuf filenamebuf r

filename-ParseOutcome :
    (t v f rest vb fb : List ℕ)
    → IsText f
    → 16 ≤ length fb
    → IsPathOf v f t
    → ((w g : List ℕ) → IsPathOf w g t → g ≡ f)
    → ParseOutcome t vb fb
        (filename_chars 16 true (f ++ (0 ∷ rest)) fb >>= with_filename (holding v vb))
filename-ParseOutcome t v f rest vb fb text le path same =
    go (filename_chars 16 true (f ++ (0 ∷ rest)) fb)
      (filename_chars-FilenameOutcome 16 true f rest fb text le)
  where
    go :
        (r : Outcome Filename)
        → FilenameOutcome 16 true f fb r
        → ParseOutcome t vb fb (r >>= with_filename (holding v vb))
    go r (FilenameOutcome.rejected no_name e) =
        ParseOutcome.rejected
          (λ w g p pos_len short.
            no_name
              (omega (arith, ap length (same w g p)), λ z. omega (arith, ap length (same w g p))))
          (rw e refl)
    go r (FilenameOutcome.accepted short nonempty e) =
        ParseOutcome.accepted v f path (nonempty refl) (omega arith) (rw e refl)

bare_unique : (t : List ℕ) → get_or t 0 0 ≢ 91 → (w g : List ℕ) → IsPathOf w g t → g ≡ t
bare_unique t ne w g (with_brackets e short nb) = absurd (ne (ap (λ s. get_or s 0 0) e))
bare_unique t ne w g (bare a e no_bracket) = sym e

-- `vfs_parse_pathname` of a terminated path never leaves two buffers of 16 bytes: the path is
-- "[volume]file" with a volume of at most 14 characters, or "file" and the volume is empty, the
-- file has 1 to 15 characters, and the buffers hold the two names with their zeros; or it returns
-- VFS_ERROR, and the text has neither form.
pub parse_pathname_lem :
    (t rest volumebuf filenamebuf : List ℕ)
    → IsText t
    → name_length ≤ length volumebuf
    → name_length ≤ length filenamebuf
    → ParseOutcome t volumebuf filenamebuf (parse_pathname (t ++ (0 ∷ rest)) volumebuf filenamebuf)
unfolding parse_pathname
parse_pathname_lem t rest [] fb text bv bf = absurd (omega arith)
parse_pathname_lem [] rest (x ∷ vb) fb text bv bf =
    filename-ParseOutcome [] [] [] rest (x ∷ vb) fb text bf
      (bare refl refl (λ h. ground (arith, h))) (bare_unique [] (λ h. ground (arith, h)))
parse_pathname_lem (c ∷ t) rest (x ∷ vb) fb (ne, b, text) bv bf = elim (ℕ_discrete c 91) [
  | no other ↦ rw (==-false other) (
      filename-ParseOutcome (c ∷ t) [] (c ∷ t) rest (x ∷ vb) fb (ne, b, text) bf
        (bare refl refl other) (bare_unique (c ∷ t) other))
  | yes e ↦ rw e (
      named_volume (volume_chars 15 (t ++ (0 ∷ rest)) (x ∷ vb))
        (volume_chars-VolumeOutcome 15 t rest (x ∷ vb) text (omega arith)))
]
  where
    volume_of : (v f : List ℕ) → IsPathOf v f (91 ∷ t) → HasVolume 15 t
    volume_of v f (with_brackets e short nb) = (v, f, ap (drop 1) e, omega arith, nb)
    volume_of v f (bare a e no_bracket) = absurd (no_bracket (sym (ap (λ s. get_or s 0 0) e)))

    same_file :
        (v f w g : List ℕ) → t ≡ v ++ (93 ∷ f) → HasNoBracket v → IsPathOf w g (91 ∷ t) → g ≡ f
    same_file v f w g split nb (with_brackets e short nw) =
        bracket_unique w v g f nw nb (sym (ap (drop 1) e) ∙ split)
    same_file v f w g split nb (bare a e no_bracket) =
        absurd (no_bracket (sym (ap (λ s. get_or s 0 0) e)))

    named_volume :
        (r : Outcome Volume)
        → VolumeOutcome 15 t rest (x ∷ vb) r
        → ParseOutcome (91 ∷ t) (x ∷ vb) fb (r >>= with_volume fb)
    named_volume r (VolumeOutcome.rejected no_volume e) =
        ParseOutcome.rejected (λ v f p a b. no_volume (volume_of v f p)) (rw e refl)
    named_volume r (VolumeOutcome.accepted v f split lt nb tf e) = rw e (
        filename-ParseOutcome (91 ∷ t) v f rest (x ∷ vb) fb tf bf
          (with_brackets (ap (λ s. 91 ∷ s) split) (omega arith) nb)
          (λ w g p. same_file v f w g split nb p))

IsText-front : (v s : List ℕ) → IsText (v ++ s) → IsText v
IsText-front [] s text = tt
IsText-front (c ∷ v) s (ne, lt, text) = (ne, lt, IsText-front v s text)

pub IsPathOf-IsText : (v f t : List ℕ) → IsPathOf v f t → IsText t → IsText v
IsPathOf-IsText v f t (with_brackets e short nb) text =
    IsText-front v (93 ∷ f) (subst IsText {x = t} e text).2
IsPathOf-IsText v f t (bare e e' no_bracket) text = rw e tt

-- ===== src/Vfs/Paths.antt =====
-- vfs_parse_pathname of fs/vfs.c, and what it makes of a path.
use aalto_buenos.Prelude.{ℕ, zero, suc, ◌-◌, List, [], ◌∷◌, Bool, true, false, if◌then◌else◌, ◌==◌}
use aalto_buenos.Prelude.Outcomes.{Outcome, ret, failed, outside, ◌>>=◌}
use aalto_buenos.Vfs.{name_length}

-- What the first loop comes to: `VFS_ERROR`, or the path behind the volume and the buffer.
pub data Volume : Type 0 where
  bad : Volume
  volume : List ℕ → List ℕ → Volume

-- What the second loop comes to: `VFS_ERROR`, or the buffer.
pub data Filename : Type 0 where
  bad_name : Filename
  filename : List ℕ → Filename

abbrev pub cons_volume : ℕ → Outcome Volume → Outcome Volume
cons_volume c failed = failed
cons_volume c outside = outside
cons_volume c (ret bad) = ret bad
cons_volume c (ret (volume path buf)) = ret (volume path (c ∷ buf))

abbrev pub cons_filename : ℕ → Outcome Filename → Outcome Filename
cons_filename c failed = failed
cons_filename c outside = outside
cons_filename c (ret bad_name) = ret bad_name
cons_filename c (ret (filename buf)) = ret (filename (c ∷ buf))

-- `*volumebuf = '\0'` behind the loop
abbrev pub end_volume : List ℕ → List ℕ → Outcome Volume
end_volume path [] = outside
end_volume path (v ∷ volumebuf) = ret (volume path (0 ∷ volumebuf))

-- the loop over the volume's name, with `n` rounds left
unfoldable pub volume_chars : ℕ → List ℕ → List ℕ → Outcome Volume
volume_chars zero path volumebuf = ret bad
volume_chars (suc n) [] volumebuf = outside
volume_chars (suc n) (c ∷ path) [] =
    if c == 0 then ret bad else if c == 93 then end_volume path [] else outside
volume_chars (suc n) (c ∷ path) (v ∷ volumebuf) =
    let rest = cons_volume c (volume_chars n path volumebuf) in
    if c == 0 then ret bad else if c == 93 then end_volume path (v ∷ volumebuf) else rest

-- the loop over the file's name, with `n` rounds left; in the first round the name is empty
unfoldable pub filename_chars : ℕ → Bool → List ℕ → List ℕ → Outcome Filename
filename_chars zero is_first path filenamebuf = ret bad_name
filename_chars (suc n) is_first [] filenamebuf = outside
filename_chars (suc n) is_first (c ∷ path) [] = outside
filename_chars (suc n) is_first (c ∷ path) (f ∷ filenamebuf) =
    let rest = cons_filename c (filename_chars n false path filenamebuf) in
    if c == 0 then (if is_first then ret bad_name else ret (filename (c ∷ filenamebuf))) else rest

-- `VFS_ERROR`, or `VFS_OK` and the two buffers
pub data Parsed : Type 0 where
  parse_error : Parsed
  parsed : List ℕ → List ℕ → Parsed

abbrev pub with_filename : List ℕ → Filename → Outcome Parsed
with_filename volumebuf bad_name = ret parse_error
with_filename volumebuf (filename buf) = ret (parsed volumebuf buf)

abbrev pub with_volume : List ℕ → Volume → Outcome Parsed
with_volume filenamebuf bad = ret parse_error
with_volume filenamebuf (volume path volumebuf) =
    filename_chars name_length true path filenamebuf >>= with_filename volumebuf

unfoldable pub parse_pathname : List ℕ → List ℕ → List ℕ → Outcome Parsed
parse_pathname [] volumebuf filenamebuf = outside
parse_pathname (c ∷ path) volumebuf filenamebuf =
    (if c == 91
      then volume_chars (name_length - 1) path volumebuf
      else end_volume (c ∷ path) volumebuf)
    >>= with_volume filenamebuf

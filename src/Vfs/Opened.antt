-- ===== src/Vfs/Opened.antt =====
-- vfs_open and vfs_close of fs/vfs.c: every way a call may end.
use aalto_buenos.Prelude.{
  ℕ, ◌<◌, ◌≡◌, ◌≢◌, refl, sym, ◌∙◌, ap, List, ◌∷◌, ◌++◌, true, false, if◌then◌else◌, length, get_or,
  set, set-set, set-get_or, get_or-set_self, arith, Bool-cases, inl, inr, leb, ltb, ◌==◌, ==-false,
  ==_iff, ℕ_discrete, dec_lt, ltb-true,
}
use mathlib.Core.Path.{subst}
use aalto_buenos.Prelude.Int.{ℤ, pos, negsuc, is_negative, to_index}
use aalto_buenos.Prelude.Outcomes.{Outcome, ret, ◌>>=◌}
use aalto_buenos.Libc.Strings.{IsText}
use aalto_buenos.Vfs.{
  Vfs, Driver, Entry, OpenFile, no_entry, no_file, max_open_files, vfs_error, no_such_fs, limit,
  find_row, is_free_file, end_with,
}
use aalto_buenos.Vfs.Paths.{parse_pathname, Parsed, parsed}
use aalto_buenos.Vfs.Names.{
  holding, IsNoPath, IsPathOf, ParseOutcome, parse_pathname_lem, IsPathOf-IsText,
}
use aalto_buenos.Vfs.Mounts.{get_filesystem, find_mountpoint}
use aalto_buenos.Vfs.Files.{
  name_buffer, verify_open, file_row, open_in, open_parsed, open_path, open_file, close_row, close,
}
use aalto_buenos.Vfs.Operations.{IsUsable, started, with_op_lem, end_with_lem}
use aalto_buenos.Vfs.Rows.{
  IsFirstRow, find_row-IsFirstRow, AreNamed, IsMountpoint, find_mountpoint-IsMountpoint,
}

-- The text names the file system `fs`: that of the first row with this mountpoint, 0 if there is none.
pub record LooksUp (rows : List Entry) (t : List ℕ) (fs : ℕ) : Type 0 where
  pub row : ℕ
  pub at : IsMountpoint rows t row
  pub holds : (get_or rows row no_entry).filesystem ≡ fs

pub get_filesystem-LooksUp :
    (rows : List Entry) (t y : List ℕ)
    → AreNamed rows
    → IsText t
    → (fs : ℕ) × (get_filesystem rows (t ++ (0 ∷ y)) ≡ ret fs) × LooksUp rows t fs
unfolding get_filesystem
get_filesystem-LooksUp rows t y named text = go (find_mountpoint-IsMountpoint rows t y named text)
  where
    go :
        (i : ℕ) × (find_mountpoint rows (t ++ (0 ∷ y)) ≡ ret i) × IsMountpoint rows t i
        → (fs : ℕ) × (get_filesystem rows (t ++ (0 ∷ y)) ≡ ret fs) × LooksUp rows t fs
    go (i, run, m) =
        ((get_or rows i no_entry).filesystem, rw run refl, record { row = i; at = m; holds = refl })

module _ {ℓ} {D : Type ℓ} (driver : Driver D) where
  -- What a driver makes of a file that the VFS has found a row for.
  pub data InOutcome (v : Vfs D) (file fs : ℕ) (name : List ℕ) (r : Outcome (ℤ × Vfs D))
      : Type ℓ where
    refused :
        (code : ℤ) (d : D)
        → driver.open_file fs name v.disks ≡ (code, d)
        → is_negative code ≡ true
        → r ≡ ret (code, record v { disks = d })
        → InOutcome v file fs name r
    opened :
        (id : ℤ) (d : D)
        → driver.open_file fs name v.disks ≡ (id, d)
        → is_negative id ≡ false
        → r
          ≡ ret (
            pos file,
            record v {
              disks = d;
              files = set v.files file (record { fs = fs; fileid = id; seek_position = 0 });
            },
          )
        → InOutcome v file fs name r

  -- the row of a file while its driver opens it
  reserved : Vfs D → ℕ → ℕ → List OpenFile
  reserved v file fs = set v.files file (record (get_or v.files file no_file) { fs = fs })

  released :
      (v : Vfs D) (file fs : ℕ)
      → file < length v.files
      → (get_or v.files file no_file).fs ≡ 0
      → set (reserved v file fs) file (record (get_or (reserved v file fs) file no_file) { fs = 0 })
        ≡ v.files
  unfolding reserved
  released v file fs lt free =
      let row = get_or v.files file no_file in
      let back : get_or (reserved v file fs) file no_file ≡ record row { fs = fs } =
        get_or-set_self v.files file (record row { fs = fs }) no_file lt in
      let same : record (get_or (reserved v file fs) file no_file) { fs = 0 } ≡ row =
        ap (λ (x : OpenFile). record x { fs = 0 }) back ∙ λ i. record row { fs = sym free i } in
      set-set v.files file (record row { fs = fs }) _
      ∙ ap (set v.files file) same
      ∙ set-get_or v.files file no_file

  open_in-InOutcome :
      (v : Vfs D) (file fs : ℕ) (name : List ℕ)
      → IsUsable v
      → file < length v.files
      → (get_or v.files file no_file).fs ≡ 0
      → InOutcome v file fs name (open_in driver file fs name (started v))
  unfolding open_in reserved
  open_in-InOutcome v file fs name u lt free = elim (Bool-cases (is_negative result.0)) [
    | inl e ↦ refused result.0 result.1 refl e (
        rw e (
          end_with_lem v _ result.0 u u.usable refl
          ∙ ap (λ files. ret (result.0, record v { disks = result.1; files = files }))
              (released v file fs lt free)))
    | inr e ↦ opened result.0 result.1 refl e (
        rw e (
          end_with_lem v _ (pos file) u u.usable refl
          ∙ ap (λ files. ret (pos file, record v { disks = result.1; files = files }))
              (filled result.0)))
  ]
    where
      result : ℤ × D
      result = driver.open_file fs name v.disks

      filled :
          (id : ℤ)
          → set
              (reserved v file fs)
              file
              (record (get_or (reserved v file fs) file no_file) { fileid = id; seek_position = 0 })
            ≡ set v.files file (record { fs = fs; fileid = id; seek_position = 0 })
      filled id =
          let row = get_or v.files file no_file in
          let back : get_or (reserved v file fs) file no_file ≡ record row { fs = fs } =
            get_or-set_self v.files file (record row { fs = fs }) no_file lt in
          set-set v.files file (record row { fs = fs }) _
          ∙ ap (λ (x : OpenFile). set v.files file (record x { fileid = id; seek_position = 0 }))
              back

  -- The ways in which `vfs_open` of the path `t` may end.
  pub data OpenOutcome (v : Vfs D) (t : List ℕ) (r : Outcome (ℤ × Vfs D)) : Type ℓ where
    bad_path : IsNoPath t → r ≡ ret (vfs_error, v) → OpenOutcome v t r
    table_full :
        (vol f : List ℕ)
        → IsPathOf vol f t
        → ((j : ℕ) → j < max_open_files → (get_or v.files j no_file).fs ≢ 0)
        → r ≡ ret (limit, v)
        → OpenOutcome v t r
    no_volume :
        (vol f : List ℕ)
        → IsPathOf vol f t
        → LooksUp v.filesystems vol 0
        → r ≡ ret (no_such_fs, v)
        → OpenOutcome v t r
    passed_on :
        (file fs : ℕ) (vol f : List ℕ)
        → IsPathOf vol f t
        → LooksUp v.filesystems vol fs
        → fs ≢ 0
        → IsFirstRow is_free_file v.files no_file file
        → file < max_open_files
        → InOutcome v file fs (holding f name_buffer) r
        → OpenOutcome v t r

  open_parsed-OpenOutcome :
      (v : Vfs D) (t vol f : List ℕ)
      → IsUsable v
      → length v.files ≡ max_open_files
      → AreNamed v.filesystems
      → IsText vol
      → IsPathOf vol f t
      → OpenOutcome v t (
          open_parsed driver (parsed (holding vol name_buffer) (holding f name_buffer)) (started v))
  unfolding open_parsed
  open_parsed-OpenOutcome v t vol f u len named text path =
      elim (dec_lt (find_row is_free_file v.files) max_open_files) [
        | no ge ↦
            table_full vol f path (λ j lt. taken j (omega arith))
              (let test : leb max_open_files (find_row is_free_file v.files) ≡ true =
                  ground (arith, ge) in
                rw test (end_with_lem v (started v) limit u u.usable refl))
        | yes lt ↦
            let test : leb max_open_files (find_row is_free_file v.files) ≡ false =
              ground (arith, lt) in
            rw test (found lt (get_filesystem-LooksUp v.filesystems vol _ named text))
      ]
    where
      first : IsFirstRow is_free_file v.files no_file (find_row is_free_file v.files)
      first = find_row-IsFirstRow is_free_file v.files no_file

      found :
          find_row is_free_file v.files < max_open_files
          → (fs : ℕ) × (get_filesystem v.filesystems (holding vol name_buffer) ≡ ret fs)
            × LooksUp v.filesystems vol fs
          → OpenOutcome v t (
              get_filesystem v.filesystems (holding vol name_buffer) >>= λ fs.
              if fs == 0
              then end_with no_such_fs (started v)
              else open_in driver
                  (find_row is_free_file v.files)
                  fs
                  (holding f name_buffer)
                  (started v))
      found lt (fs, run, looks) = elim (ℕ_discrete fs 0) [
        | yes e ↦
            no_volume vol f path (subst (LooksUp v.filesystems vol) {x = fs} e looks)
              (rw (run, e) (end_with_lem v (started v) no_such_fs u u.usable refl))
        | no ne ↦ passed_on (find_row is_free_file v.files) fs vol f path looks ne first lt (
            rw (run, ==-false ne)
              (open_in-InOutcome v (find_row is_free_file v.files) fs (holding f name_buffer) u
                (omega (arith, lt, len)) ((==_iff _ 0).0 (first.here (omega (arith, lt, len))))))
      ]

      taken : (j : ℕ) → j < find_row is_free_file v.files → (get_or v.files j no_file).fs ≢ 0
      taken j lt e =
          let b : ((get_or v.files j no_file).fs == 0) ≡ false = first.before j lt in
          ground (arith, b, e)

  -- When the VFS is usable, its table of files has 512 rows and the mountpoints hold terminated
  -- names, `vfs_open` of a path returns: VFS_ERROR only for a text that is no path with a file's
  -- name of 1 to 15 characters, VFS_LIMIT only for a path when no row is free, VFS_NO_SUCH_FS only
  -- when the path's volume names no file system, each with nothing changed; otherwise the first
  -- free row is taken and the driver asked to open the file, and the row holds its file id at
  -- position 0, or is free as before when the driver refuses; the operations in progress are as
  -- many as before.
  pub open_lem :
      (v : Vfs D) (t rest : List ℕ)
      → IsUsable v
      → length v.files ≡ max_open_files
      → AreNamed v.filesystems
      → IsText t
      → OpenOutcome v t (open_file driver (t ++ (0 ∷ rest)) v)
  unfolding open_file open_path
  open_lem v t rest u len named text = rw (with_op_lem v (open_path driver (t ++ (0 ∷ rest))) u) (
      go (parse_pathname (t ++ (0 ∷ rest)) name_buffer name_buffer)
        (parse_pathname_lem t rest name_buffer name_buffer text (omega arith) (omega arith)))
    where
      go :
          (r : Outcome Parsed)
          → ParseOutcome t name_buffer name_buffer r
          → OpenOutcome v t (r >>= λ names. open_parsed driver names (started v))
      go r (ParseOutcome.rejected no_path e) =
          bad_path no_path
            (rw e (unfold open_parsed in end_with_lem v (started v) vfs_error u u.usable refl))
      go r (ParseOutcome.accepted vol f path nonempty short e) =
          rw e
            (open_parsed-OpenOutcome v t vol f u len named (IsPathOf-IsText vol f t path text) path)

  -- The handle is that of a row of the table that a file system has taken.
  abbrev pub IsOpen : Vfs D → ℤ → Type 0
  IsOpen v file =
      (i : ℕ) × (file ≡ pos i) × (i < max_open_files) × ((get_or v.files i no_file).fs ≢ 0)

  -- The ways in which `vfs_close` may end: on a handle that is not open, the operation is not ended.
  pub data CloseOutcome (v : Vfs D) (file : ℤ) (r : Outcome (ℤ × Vfs D)) : Type ℓ where
    not_open : ¬ IsOpen v file → r ≡ ret (vfs_error, started v) → CloseOutcome v file r
    closed :
        (i : ℕ) (code : ℤ) (d : D)
        → file ≡ pos i
        → i < max_open_files
        → (get_or v.files i no_file).fs ≢ 0
        → driver.close (get_or v.files i no_file).fs (get_or v.files i no_file).fileid v.disks
          ≡ (code, d)
        → r
          ≡ ret (
            code,
            record v {
              disks = d;
              files = set v.files i (record (get_or v.files i no_file) { fs = 0 });
            },
          )
        → CloseOutcome v file r

  pub close_lem : (v : Vfs D) (file : ℤ) → IsUsable v → CloseOutcome v file (close driver file v)
  unfolding close close_row verify_open
  close_lem v file u = rw (with_op_lem v _ u) (go file)
    where
      go :
          (file : ℤ) → CloseOutcome v file (close_row driver (verify_open v.files file) (started v))
      go (negsuc n) = not_open (λ o. ground (arith, o.1)) refl
      go (pos i) = elim (dec_lt i max_open_files) [
        | no ge ↦
            let test : ltb i max_open_files ≡ false = ground (arith, ge) in
            not_open (λ o. ge (omega (arith, o.2, ap to_index o.1))) (rw test refl)
        | yes lt ↦
            let test : ltb i max_open_files ≡ true = ltb-true lt in
            elim (ℕ_discrete (file_row driver v i).fs 0) [
              | yes e ↦
                  let zero_fs : ((file_row driver v i).fs == 0) ≡ true = ground (arith, e) in
                  not_open
                    (λ o. o.3 (ap (λ k. (get_or v.files k no_file).fs) (ap to_index (sym o.1)) ∙ e))
                    (rw (test, zero_fs) refl)
              | no ne ↦
                  let row = file_row driver v i in
                  let done = driver.close row.fs row.fileid v.disks in
                  closed i done.0 done.1 refl lt ne refl
                    (rw (test, ==-false ne) (end_with_lem v _ done.0 u u.usable refl))
            ]
      ]

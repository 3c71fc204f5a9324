-- ===== src/Vfs/Files.antt =====
-- fs/vfs.c: open files, and the calls that the VFS passes on to a driver. A call is one step, as in
-- Vfs.Mounts.
use aalto_buenos.Prelude.{
  ℕ, ◌+◌, ◌||◌, List, if◌then◌else◌, ltb, leb, ◌==◌, not, ◌&&◌, get_or, set, replicate, Option,
  none, some,
}
use aalto_buenos.Prelude.Int.{ℤ, pos, negsuc, is_negative, is_positive, to_index}
use aalto_buenos.Prelude.Outcomes.{Outcome, ret, ◌>>=◌, ◌>>◌, require}
use aalto_buenos.Vfs.{
  Vfs, Driver, OpenFile, no_file, max_open_files, name_length, vfs_ok, vfs_error, no_such_fs, limit,
  find_row, is_free_file, with_op, end_with,
}
use aalto_buenos.Vfs.Paths.{parse_pathname, Parsed, parse_error, parsed}
use aalto_buenos.Vfs.Mounts.{get_filesystem}

-- a buffer on the stack
abbrev pub name_buffer : List ℕ
name_buffer = replicate name_length 0

-- `vfs_verify_open`: the row of an open file
unfoldable pub verify_open : List OpenFile → ℤ → Option ℕ
verify_open files (negsuc n) = none
verify_open files (pos file) =
    if ltb file max_open_files && not ((get_or files file no_file).fs == 0) then some file else none

module _ {ℓ} {D : Type ℓ} (driver : Driver D) where
  abbrev pub file_row : Vfs D → ℕ → OpenFile
  file_row v file = get_or v.files file no_file

  abbrev pub set_file : Vfs D → ℕ → OpenFile → Vfs D
  set_file v file f = record v { files = set v.files file f }

  -- `vfs_open` once the file has a row and the volume is known
  unfoldable pub open_in : ℕ → ℕ → List ℕ → Vfs D → Outcome (ℤ × Vfs D)
  open_in file fs filename v =
      let v1 = set_file v file (record (file_row v file) { fs = fs }) in
      let opened = driver.open_file fs filename v1.disks in
      let v2 = record v1 { disks = opened.1 } in
      if is_negative opened.0
      then end_with opened.0 (set_file v2 file (record (file_row v2 file) { fs = 0 }))
      else end_with (pos file)
          (set_file v2 file (record (file_row v2 file) { fileid = opened.0; seek_position = 0 }))

  unfoldable pub open_parsed : Parsed → Vfs D → Outcome (ℤ × Vfs D)
  open_parsed parse_error v = end_with vfs_error v
  open_parsed (parsed volumename filename) v =
      let file = find_row is_free_file v.files in
      let found = get_filesystem v.filesystems volumename >>= λ fs.
      if fs == 0 then end_with no_such_fs v else open_in file fs filename v in
      if leb max_open_files file then end_with limit v else found

  -- `vfs_open` past `vfs_start_op`
  unfoldable pub open_path : List ℕ → Vfs D → Outcome (ℤ × Vfs D)
  open_path pathname v =
      parse_pathname pathname name_buffer name_buffer >>= λ names. open_parsed names v

  unfoldable pub open_file : List ℕ → Vfs D → Outcome (ℤ × Vfs D)
  open_file pathname v = with_op v (open_path pathname)

  -- `vfs_close` on a row of the table, and where there is none
  unfoldable pub close_row : Option ℕ → Vfs D → Outcome (ℤ × Vfs D)
  close_row none v = ret (vfs_error, v)
  close_row (some file) v =
      let row = file_row v file in
      let closed = driver.close row.fs row.fileid v.disks in
      let v' = record v { disks = closed.1 } in
      end_with closed.0 (set_file v' file (record row { fs = 0 }))

  unfoldable pub close : ℤ → Vfs D → Outcome (ℤ × Vfs D)
  close file v = with_op v (λ v'. close_row (verify_open v'.files file) v')

  unfoldable pub seek_row : Option ℕ → ℕ → Vfs D → Outcome (ℤ × Vfs D)
  seek_row none position v = ret (vfs_error, v)
  seek_row (some file) position v =
      end_with vfs_ok (set_file v file (record (file_row v file) { seek_position = position }))

  -- `vfs_seek` past `vfs_start_op`
  unfoldable pub seek_to : ℤ → ℤ → Vfs D → Outcome (ℤ × Vfs D)
  seek_to file (negsuc n) v = ret (vfs_error, v)
  seek_to file (pos position) v = seek_row (verify_open v.files file) position v

  unfoldable pub seek : ℤ → ℤ → Vfs D → Outcome (ℤ × Vfs D)
  seek file position v = with_op v (seek_to file position)

  -- The position moves on by what a driver has read or written.
  abbrev pub advance : ℕ → ℤ → Vfs D → Vfs D
  advance file count v =
      if is_positive count
      then set_file v file (
          let row = file_row v file in
          record row { seek_position = row.seek_position + to_index count })
      else v

  unfoldable pub read_row : Option ℕ → ℕ → ℤ → Vfs D → Outcome (ℤ × Vfs D)
  read_row none buffer bufsize v = ret (vfs_error, v)
  read_row (some file) buffer bufsize v =
      let row = file_row v file in
      let done = driver.read row.fs row.fileid buffer bufsize row.seek_position v.disks in
      if is_negative bufsize || buffer == 0
      then ret (vfs_error, v)
      else end_with done.0 (advance file done.0 (record v { disks = done.1 }))

  unfoldable pub read : ℤ → ℕ → ℤ → Vfs D → Outcome (ℤ × Vfs D)
  read file buffer bufsize v =
      with_op v (λ v'. read_row (verify_open v'.files file) buffer bufsize v')

  unfoldable pub write_row : Option ℕ → ℕ → ℤ → Vfs D → Outcome (ℤ × Vfs D)
  write_row none buffer datasize v = ret (vfs_error, v)
  write_row (some file) buffer datasize v =
      let row = file_row v file in
      let done = driver.write row.fs row.fileid buffer datasize row.seek_position v.disks in
      require (not (is_negative datasize) && not (buffer == 0))
      >> end_with done.0 (advance file done.0 (record v { disks = done.1 }))

  unfoldable pub write : ℤ → ℕ → ℤ → Vfs D → Outcome (ℤ × Vfs D)
  write file buffer datasize v =
      with_op v (λ v'. write_row (verify_open v'.files file) buffer datasize v')

  -- A call on the file system of a volume: `call` is what its driver does.
  unfoldable pub on_volume : List ℕ → (ℕ → D → ℤ × D) → Vfs D → Outcome (ℤ × Vfs D)
  on_volume volumename call v = get_filesystem v.filesystems volumename >>= λ fs.
      let called = call fs v.disks in
      if fs == 0 then end_with no_such_fs v else end_with called.0 (record v { disks = called.1 })

  unfoldable pub create_parsed : ℤ → Parsed → Vfs D → Outcome (ℤ × Vfs D)
  create_parsed size parse_error v = end_with vfs_error v
  create_parsed size (parsed volumename filename) v =
      on_volume volumename (λ fs d. driver.create fs filename size d) v

  unfoldable pub create : List ℕ → ℤ → Vfs D → Outcome (ℤ × Vfs D)
  create pathname size v =
      let created = with_op v (λ v'.
        parse_pathname pathname name_buffer name_buffer >>= λ names. create_parsed size names v') in
      if is_negative size then ret (vfs_ok, v) else created

  unfoldable pub remove_parsed : Parsed → Vfs D → Outcome (ℤ × Vfs D)
  remove_parsed parse_error v = end_with vfs_error v
  remove_parsed (parsed volumename filename) v =
      on_volume volumename (λ fs d. driver.remove fs filename d) v

  unfoldable pub remove : List ℕ → Vfs D → Outcome (ℤ × Vfs D)
  remove pathname v =
      with_op v
        (λ v'. parse_pathname pathname name_buffer name_buffer >>= λ names. remove_parsed names v')

  unfoldable pub getfree : List ℕ → Vfs D → Outcome (ℤ × Vfs D)
  getfree filesystem v = with_op v (on_volume filesystem driver.getfree)

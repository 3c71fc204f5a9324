-- ===== src/Vfs.antt =====
-- fs/vfs.c and fs/vfs.h: the tables of mounted file systems and of open files, and the count of the
-- operations in progress. A file system is a number, 0 for NULL; what its driver does is a record of
-- functions on the state `D` of the disks and of the memory that buffers stand in.

pub mod Paths
pub mod Names
pub mod Mounts
pub mod Files
pub mod Operations
pub mod Rows
pub mod Opened
pub mod Mounted
pub mod Mounting
use aalto_buenos.Prelude.{
  ℕ, zero, suc, ◌+◌, List, [], ◌∷◌, Bool, true, false, if◌then◌else◌, ◌==◌, ◌&&◌, not, set, get_or,
}
use aalto_buenos.Prelude.Int.{ℤ, pos, negsuc, incr, decr, eq_ℤ, is_negative}
use aalto_buenos.Prelude.Outcomes.{Outcome, ret, ◌>>=◌, ◌>>◌, require}

abbrev pub max_filesystems : ℕ
max_filesystems = 8

abbrev pub max_open_files : ℕ
max_open_files = 512

abbrev pub name_length : ℕ
name_length = 16

-- `VFS_OK` and the error codes
abbrev pub vfs_ok : ℤ
vfs_ok = pos 0

abbrev pub vfs_error : ℤ
vfs_error = negsuc 1

abbrev pub invalid_params : ℤ
invalid_params = negsuc 2

abbrev pub not_found : ℤ
not_found = negsuc 4

abbrev pub no_such_fs : ℤ
no_such_fs = negsuc 5

abbrev pub limit : ℤ
limit = negsuc 6

abbrev pub in_use : ℤ
in_use = negsuc 7

abbrev pub unusable : ℤ
unusable = negsuc 8

-- `vfs_entry_t`
pub record Entry : Type 0 where
  pub filesystem : ℕ
  pub mountpoint : List ℕ

-- `openfile_entry_t`
pub record OpenFile : Type 0 where
  pub fs : ℕ
  pub fileid : ℤ
  pub seek_position : ℕ

-- `fs_t`: the functions of the drivers, each with the file system as its first argument
pub record Driver {ℓ} (D : Type ℓ) : Type ℓ where
  pub volume_name : ℕ → D → List ℕ
  pub unmount : ℕ → D → D
  pub open_file : ℕ → List ℕ → D → ℤ × D
  pub close : ℕ → ℤ → D → ℤ × D
  pub read : ℕ → ℤ → ℕ → ℤ → ℕ → D → ℤ × D
  pub write : ℕ → ℤ → ℕ → ℤ → ℕ → D → ℤ × D
  pub create : ℕ → List ℕ → ℤ → D → ℤ × D
  pub remove : ℕ → List ℕ → D → ℤ × D
  pub getfree : ℕ → D → ℤ × D

-- `vfs_table`, `openfile_table`, `vfs_ops`, `vfs_usable`, the value of `vfs_unmount_sem`, the disks
pub record Vfs {ℓ} (D : Type ℓ) : Type ℓ where
  pub filesystems : List Entry
  pub files : List OpenFile
  pub ops : ℤ
  pub usable : Bool
  pub unmount_sem : ℕ
  pub disks : D

abbrev pub no_entry : Entry
no_entry = record { filesystem = 0; mountpoint = [] }

abbrev pub no_file : OpenFile
no_file = record { fs = 0; fileid = pos 0; seek_position = 0 }

-- The first row of a table that satisfies a test, or the number of rows.
unfoldable pub find_row {ℓ} : {A : Type ℓ} → (A → Bool) → List A → ℕ
find_row p [] = 0
find_row p (row ∷ rows) = let rest = suc (find_row p rows) in if p row then 0 else rest

abbrev pub is_free_entry : Entry → Bool
is_free_entry e = e.filesystem == 0

abbrev pub is_free_file : OpenFile → Bool
is_free_file f = f.fs == 0

-- `table[i].filesystem = NULL` for each row
unfoldable pub clear_entries : List Entry → List Entry
clear_entries [] = []
clear_entries (e ∷ rows) = record e { filesystem = 0 } ∷ clear_entries rows

unfoldable pub clear_files : List OpenFile → List OpenFile
clear_files [] = []
clear_files (f ∷ rows) = record f { fs = 0 } ∷ clear_files rows

module _ {ℓ} {D : Type ℓ} where
  -- The rows of the handles 0, 1 and 2 are taken by the file system 1, which is none.
  unfoldable pub init : Vfs D → Vfs D
  init v =
      let files = clear_files v.files in
      let stdin = record (get_file files 0) { fs = 1 } in
      let files' = set files 0 stdin in
      let stdout = record (get_file files' 1) { fs = 1 } in
      let files'' = set files' 1 stdout in
      let stderr = record (get_file files'' 2) { fs = 1 } in
      record v {
        filesystems = clear_entries v.filesystems;
        files = set files'' 2 stderr;
        ops = pos 0;
        usable = true;
        unmount_sem = 0;
      }
    where
      get_file : List OpenFile → ℕ → OpenFile
      get_file rows i = get_or rows i no_file

  -- `vfs_start_op`
  unfoldable pub start_op : Vfs D → ℤ × Vfs D
  start_op v = if v.usable then (vfs_ok, record v { ops = incr v.ops }) else (unusable, v)

  -- `vfs_end_op`
  unfoldable pub end_op : Vfs D → Outcome (Vfs D)
  end_op v = do
    let ops' = decr v.ops
    require (not (is_negative ops'))
    ret (record v {
      ops = ops';
      unmount_sem = if not v.usable && eq_ℤ ops' (pos 0) then v.unmount_sem + 1 else v.unmount_sem;
    })

  -- An operation between `vfs_start_op` and what it does when the VFS is usable.
  abbrev pub with_op : Vfs D → (Vfs D → Outcome (ℤ × Vfs D)) → Outcome (ℤ × Vfs D)
  with_op v op =
      let started = start_op v in
      if eq_ℤ started.0 vfs_ok then op started.1 else ret (unusable, started.1)

  -- `vfs_end_op(); return ret;`
  abbrev pub end_with : ℤ → Vfs D → Outcome (ℤ × Vfs D)
  end_with ret_code v = do v' ← end_op v; ret (ret_code, v')

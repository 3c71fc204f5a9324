-- ===== src/Vfs/Mounts.antt =====
-- fs/vfs.c: mounting, unmounting and shutting down, and fs/filesystems.c. A call is one step: the
-- two table semaphores are held where the tables change, and no other call runs between.
use aalto_buenos.Prelude.{
  ℕ, zero, suc, ◌-◌, List, [], ◌∷◌, Bool, false, if◌then◌else◌, ltb, leb, ◌==◌, not, ◌||◌, Option,
  none, some, get_or, set,
}
use aalto_buenos.Prelude.Int.{ℤ, pos, eq_ℤ, is_positive}
use aalto_buenos.Prelude.Outcomes.{Outcome, ret, ◌>>=◌, ◌>>◌, require, accessed, outside}
use aalto_buenos.Libc.{stringcmp, stringcopy}
use aalto_buenos.Vfs.{
  Vfs, Driver, Entry, OpenFile, no_entry, max_filesystems, max_open_files, name_length, vfs_ok,
  vfs_error, invalid_params, not_found, no_such_fs, limit, in_use, find_row, is_free_entry, with_op,
  end_with,
}

-- The first row whose mountpoint is `name`, or the number of rows.
unfoldable pub find_mountpoint : List Entry → List ℕ → Outcome ℕ
find_mountpoint [] name = ret 0
find_mountpoint (e ∷ rows) name =
    let rest = find_mountpoint rows name in
    accessed (stringcmp e.mountpoint name) >>= λ difference.
    if eq_ℤ difference (pos 0) then ret 0 else rest >>= λ row. ret (suc row)

-- `vfs_get_filesystem`
unfoldable pub get_filesystem : List Entry → List ℕ → Outcome ℕ
get_filesystem rows name = do
  row ← find_mountpoint rows name
  ret (get_or rows row no_entry).filesystem

-- `name[0]`
abbrev pub first_char : List ℕ → Outcome ℕ
first_char [] = outside
first_char (c ∷ s) = ret c

abbrev pub is_on : ℕ → OpenFile → Bool
is_on fs f = f.fs == fs

-- `filesystems_try_all` over the drivers' init functions
unfoldable pub try_all {ℓ} : {D : Type ℓ} → List (ℕ → D → ℕ × D) → ℕ → D → ℕ × D
try_all [] disk d = (0, d)
try_all (init ∷ drivers) disk d =
    let result = init disk d in
    let rest = try_all drivers disk result.1 in if result.0 == 0 then rest else result

module _ {ℓ} {D : Type ℓ} where
  -- `vfs_mount` behind its test of the name
  unfoldable pub mount_named : ℕ → List ℕ → Vfs D → Outcome (ℤ × Vfs D)
  mount_named fs name v =
      let row = find_row is_free_entry v.filesystems in
      let full = end_with limit v in
      if leb max_filesystems row then full else do
        same ← find_mountpoint v.filesystems name
        if ltb same max_filesystems then end_with vfs_error v else do
          copied ←
              accessed (stringcopy (get_or v.filesystems row no_entry).mountpoint name name_length)
          end_with vfs_ok (record v {
            filesystems = set v.filesystems row (record { filesystem = fs; mountpoint = copied });
          })

  unfoldable pub mount : ℕ → Option (List ℕ) → Vfs D → Outcome (ℤ × Vfs D)
  mount fs none v = ret (vfs_error, v)
  mount fs (some name) v = do
    c ← first_char name
    if c == 0 then ret (vfs_error, v) else with_op v (mount_named fs name)

  module _ (driver : Driver D) where
    -- `vfs_unmount` past `vfs_start_op`
    unfoldable pub unmount_named : List ℕ → Vfs D → Outcome (ℤ × Vfs D)
    unmount_named name v = do
      row ← find_mountpoint v.filesystems name
      let entry = get_or v.filesystems row no_entry
      let fs = entry.filesystem
      if fs == 0
          then end_with not_found v
          else if ltb (find_row (is_on fs) v.files) max_open_files
          then end_with in_use v
          else end_with vfs_ok (record v {
            disks = driver.unmount fs v.disks;
            filesystems = set v.filesystems row (record entry { filesystem = 0 });
          })

    unfoldable pub unmount : List ℕ → Vfs D → Outcome (ℤ × Vfs D)
    unmount name v = with_op v (unmount_named name)

    -- `vfs_mount_fs` once a driver has taken the disk as the file system `fs`
    unfoldable pub mount_found : ℕ → List ℕ → Vfs D → Outcome (ℤ × Vfs D)
    mount_found fs name v = do
      c ← first_char name
      if c == 0 then ret (invalid_params, record v { disks = driver.unmount fs v.disks }) else do
        result ← mount fs (some name) v
        ret (
            if eq_ℤ result.0 vfs_ok
            then result
            else (result.0, record result.1 { disks = driver.unmount fs (result.1).disks }))

    -- the name given, or the one that stands on the disk
    abbrev pub or_own_name : Option (List ℕ) → ℕ → D → List ℕ
    or_own_name none fs d = driver.volume_name fs d
    or_own_name (some name) fs d = name

    unfoldable pub mount_fs :
        List (ℕ → D → ℕ × D) → ℕ → Option (List ℕ) → Vfs D → Outcome (ℤ × Vfs D)
    mount_fs drivers disk volumename v =
        let tried = try_all drivers disk v.disks in
        let v' = record v { disks = tried.1 } in
        if tried.0 == 0
        then ret (no_such_fs, v')
        else mount_found tried.0 (or_own_name volumename tried.0 tried.1) v'

    -- the loop of `vfs_mount_all`: `device_get` gives no more disks, a disk without a generic block
    -- device, or a disk
    unfoldable pub mount_all : List (ℕ → D → ℕ × D) → ℕ → List (Option ℕ) → Vfs D → Outcome (Vfs D)
    mount_all drivers zero devices v = ret v
    mount_all drivers (suc n) [] v = ret v
    mount_all drivers (suc n) (none ∷ devices) v = mount_all drivers n devices v
    mount_all drivers (suc n) (some gbd ∷ devices) v = do
      result ← mount_fs drivers gbd none v
      mount_all drivers n devices result.1

    -- the loop of `vfs_deinit` over the rows
    unfoldable pub unmount_rows : List Entry → D → List Entry × D
    unmount_rows [] d = ([], d)
    unmount_rows (e ∷ rows) d =
        let d' = if e.filesystem == 0 then d else driver.unmount e.filesystem d in
        let rest = unmount_rows rows d' in
        ((if e.filesystem == 0 then e else record e { filesystem = 0 }) ∷ rest.0, rest.1)

    -- `vfs_deinit` up to the point where it may wait for the pending operations: whether it waits
    unfoldable pub deinit_start : Vfs D → Bool × Vfs D
    deinit_start v = (is_positive v.ops, record v { usable = false })

    -- the rest of `vfs_deinit`, where it has been woken through `vfs_unmount_sem` if it waited
    unfoldable pub deinit_finish : Bool → Vfs D → Outcome (Vfs D)
    deinit_finish has_waited v = do
      require (not has_waited || eq_ℤ v.ops (pos 0))
      let rows = unmount_rows v.filesystems v.disks
      ret (record v {
        filesystems = rows.0;
        disks = rows.1;
        unmount_sem = if has_waited then v.unmount_sem - 1 else v.unmount_sem;
      })

-- ===== src/Vfs/Mounted.antt =====
-- vfs_mount and vfs_unmount of fs/vfs.c: every way a call may end, and one after the other.
use aalto_buenos.Prelude.{
  ℕ, ◌≤◌, ◌<◌, ◌≡◌, ◌≢◌, refl, sym, ◌∙◌, ap, List, ◌∷◌, ◌++◌, true, false, if◌then◌else◌, length,
  get_or, set, get_or-set_self, get_or-outside, arith, leb, ltb, ◌==◌, ==-false, ==_iff, ℕ_discrete,
  dec_lt, ltb-true, some,
}
use mathlib.Core.Path.{subst}
use aalto_buenos.Prelude.Int.{ℤ}
use aalto_buenos.Prelude.Outcomes.{Outcome, ret, failed, outside}
use aalto_buenos.Libc.Strings.{IsText}
use aalto_buenos.Vfs.{
  Vfs, Driver, Entry, no_entry, no_file, max_filesystems, max_open_files, vfs_ok, vfs_error,
  not_found, in_use, find_row, is_free_entry, with_op, end_with,
}
use aalto_buenos.Vfs.Mounts.{find_mountpoint, is_on, mount_named, mount, unmount_named, unmount}
use aalto_buenos.Vfs.Operations.{IsUsable, started, with_op_lem, end_with_lem}
use aalto_buenos.Vfs.Rows.{
  IsFirstRow, find_row-IsFirstRow, AreNamed, IsMountpoint, find_mountpoint-IsMountpoint,
  find_mountpoint-set, IsMountpoint-find_mountpoint,
}
use aalto_buenos.Vfs.Opened.{LooksUp}

-- A row of the table that is free makes the search for a free row end in the table.
has_free_row :
    (rows : List Entry) (i : ℕ)
    → (get_or rows i no_entry).filesystem ≡ 0
    → find_row is_free_entry rows ≤ i
has_free_row rows i free = elim (dec_lt i (find_row is_free_entry rows)) [
  | no ge ↦ omega arith
  | yes lt ↦
      let first = find_row-IsFirstRow is_free_entry rows no_entry in
      let taken : ((get_or rows i no_entry).filesystem == 0) ≡ false = first.before i lt in
      ground (arith, taken, free)
]

-- A row of a file system that is not 0 stands in the table.
pub in_table :
    (rows : List Entry) (i : ℕ) → (get_or rows i no_entry).filesystem ≢ 0 → i < length rows
in_table rows i ne = elim (dec_lt i (length rows)) [
  | yes lt ↦ lt
  | no ge ↦
      absurd (ne (ap (λ (e : Entry). e.filesystem) (get_or-outside rows i no_entry (omega arith))))
]

module _ {ℓ} {D : Type ℓ} where
  -- The ways in which `vfs_unmount` may end.
  pub data UnmountOutcome (driver : Driver D) (v : Vfs D) (name : List ℕ) (r : Outcome (ℤ × Vfs D))
      : Type ℓ where
    not_mounted :
        LooksUp v.filesystems name 0 → r ≡ ret (not_found, v) → UnmountOutcome driver v name r
    still_used :
        (fs j : ℕ)
        → LooksUp v.filesystems name fs
        → j < max_open_files
        → (get_or v.files j no_file).fs ≡ fs
        → r ≡ ret (in_use, v)
        → UnmountOutcome driver v name r
    unmounted :
        (row fs : ℕ)
        → IsMountpoint v.filesystems name row
        → (get_or v.filesystems row no_entry).filesystem ≡ fs
        → fs ≢ 0
        → ((j : ℕ) → j < max_open_files → (get_or v.files j no_file).fs ≢ fs)
        → r
          ≡ ret (
            vfs_ok,
            record v {
              disks = driver.unmount fs v.disks;
              filesystems =
                  set v.filesystems row
                    (record (get_or v.filesystems row no_entry) { filesystem = 0 });
            },
          )
        → UnmountOutcome driver v name r

  unmount_named-UnmountOutcome :
      (driver : Driver D) (v : Vfs D) (name rest : List ℕ) (row : ℕ)
      → IsUsable v
      → length v.files ≡ max_open_files
      → find_mountpoint v.filesystems (name ++ (0 ∷ rest)) ≡ ret row
      → IsMountpoint v.filesystems name row
      → UnmountOutcome driver v name (unmount_named driver (name ++ (0 ∷ rest)) (started v))
  unfolding unmount_named
  unmount_named-UnmountOutcome driver v name rest row u len run at =
      rw run (elim (ℕ_discrete (get_or v.filesystems row no_entry).filesystem 0) [
        | yes e ↦
            let test : ((get_or v.filesystems row no_entry).filesystem == 0) ≡ true =
              ground (arith, e) in
            rw test (
              not_mounted (record { row = row; at = at; holds = e })
                (end_with_lem v (started v) not_found u u.usable refl))
        | no ne ↦ rw (==-false ne) (used ne)
      ])
    where
      fs : ℕ
      fs = (get_or v.filesystems row no_entry).filesystem

      first : IsFirstRow (is_on fs) v.files no_file (find_row (is_on fs) v.files)
      first = find_row-IsFirstRow (is_on fs) v.files no_file

      used :
          fs ≢ 0
          → UnmountOutcome driver v name (
              if ltb (find_row (is_on fs) v.files) max_open_files
              then end_with in_use (started v)
              else end_with vfs_ok (record (started v) {
                disks = driver.unmount fs v.disks;
                filesystems =
                    set v.filesystems row
                      (record (get_or v.filesystems row no_entry) { filesystem = 0 });
              }))
      used ne = elim (dec_lt (find_row (is_on fs) v.files) max_open_files) [
        | yes lt ↦ rw (ltb-true lt) (
            still_used fs (find_row (is_on fs) v.files)
              (record { row = row; at = at; holds = refl }) lt
              ((==_iff _ fs).0 (first.here (omega (arith, len, lt))))
              (end_with_lem v (started v) in_use u u.usable refl))
        | no ge ↦
            let test : ltb (find_row (is_on fs) v.files) max_open_files ≡ false =
              ground (arith, ge) in
            rw test (
              unmounted row fs at refl ne
                (λ j lt e.
                  let b : ((get_or v.files j no_file).fs == fs) ≡ false =
                    first.before j (omega (arith, lt, ge)) in
                  ground (arith, b, e))
                (end_with_lem v _ vfs_ok u u.usable refl))
      ]

  pub unmount_lem :
      (driver : Driver D) (v : Vfs D) (name rest : List ℕ)
      → IsUsable v
      → length v.files ≡ max_open_files
      → AreNamed v.filesystems
      → IsText name
      → UnmountOutcome driver v name (unmount driver (name ++ (0 ∷ rest)) v)
  unfolding unmount
  unmount_lem driver v name rest u len named text =
      rw (with_op_lem v (unmount_named driver (name ++ (0 ∷ rest))) u)
        (go (find_mountpoint-IsMountpoint v.filesystems name rest named text))
    where
      go :
          (row : ℕ) × (find_mountpoint v.filesystems (name ++ (0 ∷ rest)) ≡ ret row)
            × IsMountpoint v.filesystems name row
          → UnmountOutcome driver v name (unmount_named driver (name ++ (0 ∷ rest)) (started v))
      go (row, run, at) = unmount_named-UnmountOutcome driver v name rest row u len run at

  -- A mount under a name that a row holds already, be it in use or not.
  mount_named-twice :
      (v : Vfs D) (fs : ℕ) (name : List ℕ) (free row : ℕ)
      → IsUsable v
      → (get_or v.filesystems free no_entry).filesystem ≡ 0
      → free < max_filesystems
      → find_mountpoint v.filesystems name ≡ ret row
      → row < max_filesystems
      → mount_named fs name (started v) ≡ ret (vfs_error, v)
  unfolding mount_named
  mount_named-twice v fs name free row u e lf run lr =
      let room : leb max_filesystems (find_row is_free_entry v.filesystems) ≡ false =
        ground (arith, has_free_row v.filesystems free e) in
      rw (room, run, ltb-true lr) (end_with_lem v (started v) vfs_error u u.usable refl)

  -- When the VFS is usable and its rows hold terminated names, after an unmount that returns VFS_OK
  -- every mount under the same name, which is not empty, returns VFS_ERROR and changes nothing.
  pub unmount-mount :
      (driver : Driver D) (v v' : Vfs D) (c : ℕ) (name rest : List ℕ) (fs : ℕ)
      → IsUsable v
      → length v.filesystems ≡ max_filesystems
      → length v.files ≡ max_open_files
      → AreNamed v.filesystems
      → IsText (c ∷ name)
      → unmount driver (c ∷ name ++ (0 ∷ rest)) v ≡ ret (vfs_ok, v')
      → mount fs (some (c ∷ name ++ (0 ∷ rest))) v' ≡ ret (vfs_error, v')
  unfolding mount
  unmount-mount driver v v' c name rest fs u le lf named (ne, lt, text) run =
      rw (==-false ne) (go (unmount_lem driver v (c ∷ name) rest u lf named (ne, lt, text)))
    where
      text_bytes : List ℕ
      text_bytes = c ∷ name ++ (0 ∷ rest)

      code : Outcome (ℤ × Vfs D) → ℤ
      code (ret r) = r.0
      code failed = vfs_error
      code outside = vfs_error

      state : Outcome (ℤ × Vfs D) → Vfs D
      state (ret r) = r.1
      state failed = v
      state outside = v

      Twice : Vfs D → Type ℓ
      Twice w = with_op w (mount_named fs text_bytes) ≡ ret (vfs_error, w)

      go : UnmountOutcome driver v (c ∷ name) (unmount driver text_bytes v) → Twice v'
      go (not_mounted l e) = let clash : not_found ≡ vfs_ok = ap code (sym e ∙ run) in cc
      go (still_used f j l lj ej e) = let clash : in_use ≡ vfs_ok = ap code (sym e ∙ run) in cc
      go (unmounted row f at holds nf unused e) = subst Twice (ap state (sym e ∙ run)) (
          with_op_lem after (mount_named fs text_bytes)
            (record { usable = u.usable; count = u.count; ops = u.ops })
          ∙ mount_named-twice after fs text_bytes row row
              (record { usable = u.usable; count = u.count; ops = u.ops })
              (ap (λ (e : Entry). e.filesystem) (get_or-set_self v.filesystems row _ no_entry here))
              (omega (arith, here, le))
              (find_mountpoint-set v.filesystems row 0 text_bytes
                ∙ IsMountpoint-find_mountpoint v.filesystems (c ∷ name) rest row named
                    (ne, lt, text) at)
              (omega (arith, here, le)))
        where
          after : Vfs D
          after = record v {
            disks = driver.unmount f v.disks;
            filesystems =
                set v.filesystems row
                  (record (get_or v.filesystems row no_entry) { filesystem = 0 });
          }

          here : row < length v.filesystems
          here = in_table v.filesystems row (λ z. nf (sym holds ∙ z))

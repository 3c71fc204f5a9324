-- ===== src/Tests/Filesystems.antt =====
-- fs/vfs.c with one volume, "disk", and a driver that counts its calls.
use aalto_buenos.Prelude.{
  ℕ, zero, suc, ◌<◌, ◌≤◌, get_or, ◌+◌, ◌≡◌, refl, List, [], ◌∷◌, ◌++◌, replicate, length, true,
  some, arith,
}
use aalto_buenos.Prelude.Int.{pos}
use aalto_buenos.Prelude.Outcomes.{ret}
use aalto_buenos.Vfs.{
  Vfs, Driver, Entry, OpenFile, no_file, no_entry, name_length, vfs_ok, vfs_error, end_op, start_op,
  find_row,
}
use aalto_buenos.Vfs.Operations.{IsUsable}
use aalto_buenos.Vfs.Rows.{AreNamed}
use aalto_buenos.Vfs.Names.{ParseOutcome, parse_pathname_lem}
use aalto_buenos.Vfs.Paths.{parse_pathname}
use aalto_buenos.Vfs.Files.{name_buffer, open_file, close}
use aalto_buenos.Vfs.Opened.{OpenOutcome, open_lem}
use aalto_buenos.Vfs.Mounts.{mount, unmount, unmount_named, find_mountpoint}
use aalto_buenos.Libc.{stringcmp, char_difference}
use aalto_buenos.Vfs.Mounted.{unmount-mount}
use aalto_buenos.Vfs.Mounting.{AreWide, MountOutcome, mount_lem}

abbrev pub counting : Driver ℕ
counting = record {
  volume_name = λ fs d. 100 ∷ 105 ∷ 115 ∷ 107 ∷ 0 ∷ [];
  unmount = λ fs d. d + 1;
  open_file = λ fs name d. (pos 9, d + 1);
  close = λ fs id d. (pos 0, d + 1);
  read = λ fs id buffer size offset d. (size, d + 1);
  write = λ fs id buffer size offset d. (size, d + 1);
  create = λ fs name size d. (pos 0, d + 1);
  remove = λ fs name d. (pos 0, d + 1);
  getfree = λ fs d. (pos 512, d + 1);
}

-- "disk"
abbrev disk_name : List ℕ
disk_name = 100 ∷ 105 ∷ 115 ∷ 107 ∷ []

abbrev blank : Entry
blank = record { filesystem = 0; mountpoint = replicate 16 0 }

abbrev pub standard : OpenFile
standard = record { fs = 1; fileid = pos 0; seek_position = 0 }

abbrev pub system : Vfs ℕ
system = record {
  filesystems =
      record { filesystem = 77; mountpoint = 100 ∷ 105 ∷ 115 ∷ 107 ∷ replicate 12 0 }
      ∷ blank
      ∷ blank
      ∷ blank
      ∷ blank
      ∷ blank
      ∷ blank
      ∷ blank
      ∷ [];
  files = standard ∷ standard ∷ standard ∷ replicate 509 no_file;
  ops = pos 0;
  usable = true;
  unmount_sem = 0;
  disks = 0;
}

system-IsUsable : IsUsable system
system-IsUsable = record { usable = refl; count = 0; ops = refl }

blank-AreNamed : (n : ℕ) → AreNamed (replicate n blank)
blank-AreNamed zero = tt
blank-AreNamed (suc n) =
    (record { name = []; rest = replicate 15 0; text = tt; bytes = refl }, blank-AreNamed n)

system-AreNamed : AreNamed system.filesystems
system-AreNamed = (
  record { name = disk_name; rest = replicate 11 0; text = omega arith; bytes = refl },
  blank-AreNamed 7,
)

blank-AreWide :
    (n j : ℕ) → j < n → name_length ≤ length (get_or (replicate n blank) j no_entry).mountpoint
blank-AreWide zero j lt = absurd (omega arith)
blank-AreWide (suc n) zero lt = omega arith
blank-AreWide (suc n) (suc j) lt = blank-AreWide n j (omega arith)

system-AreWide : AreWide system.filesystems
system-AreWide zero lt = omega arith
system-AreWide (suc j) lt = blank-AreWide 7 j (omega arith)

-- "[disk]a"
parse_pathname_example :
    ParseOutcome
      (91 ∷ disk_name ++ (93 ∷ 97 ∷ []))
      name_buffer
      name_buffer
      (parse_pathname (91 ∷ disk_name ++ (93 ∷ 97 ∷ 0 ∷ [])) name_buffer name_buffer)
parse_pathname_example =
    parse_pathname_lem (91 ∷ disk_name ++ (93 ∷ 97 ∷ [])) [] name_buffer name_buffer (omega arith)
      (omega arith) (omega arith)

open_example :
    OpenOutcome counting system
      (91 ∷ disk_name ++ (93 ∷ 97 ∷ []))
      (open_file counting (91 ∷ disk_name ++ (93 ∷ 97 ∷ 0 ∷ [])) system)
open_example =
    open_lem counting system (91 ∷ disk_name ++ (93 ∷ 97 ∷ [])) [] system-IsUsable refl
      system-AreNamed (omega arith)

mount_example : MountOutcome system 5 (97 ∷ []) (mount 5 (some (97 ∷ 0 ∷ [])) system)
mount_example =
    mount_lem system 5 97 [] [] system-IsUsable refl system-AreNamed system-AreWide (omega arith)

-- the system once its volume is unmounted
abbrev after : Vfs ℕ
after = record system {
  filesystems =
      record { filesystem = 0; mountpoint = 100 ∷ 105 ∷ 115 ∷ 107 ∷ replicate 12 0 }
      ∷ blank
      ∷ blank
      ∷ blank
      ∷ blank
      ∷ blank
      ∷ blank
      ∷ blank
      ∷ [];
  disks = 1;
}

unmounted : unmount counting (disk_name ++ (0 ∷ [])) system ≡ ret (vfs_ok, after)
unfolding unmount unmount_named find_mountpoint stringcmp char_difference find_row start_op end_op
unmounted = refl

unmount-mount_example : mount 77 (some (disk_name ++ (0 ∷ []))) after ≡ ret (vfs_error, after)
unmount-mount_example =
    unmount-mount counting system after 100 (105 ∷ 115 ∷ 107 ∷ []) [] 77 system-IsUsable refl refl
      system-AreNamed (omega arith) unmounted

-- ===== src/Tests/Processes.antt =====
-- The process table with a parent, process 0, and its child, process 1.
use aalto_buenos.Prelude.{
  ℕ, zero, suc, ◌<◌, ◌≡◌, refl, ◌∷◌, ◌++◌, replicate, if◌then◌else◌, ◌==◌, some, hang, arith,
}
use aalto_buenos.Prelude.Int.{pos, negsuc}
use aalto_buenos.Prelude.Outcomes.{ret}
use aalto_buenos.Vfs.{Vfs, no_file}
use aalto_buenos.Vfs.Operations.{IsUsable}
use aalto_buenos.Tests.Filesystems.{counting, system, standard}
use aalto_buenos.Process.{Table, free_entry, start, exit, join_finish}
use aalto_buenos.Process.Children.{IsFree}
use aalto_buenos.Process.Starting.{StartOutcome, start_lem}
use aalto_buenos.Process.Exiting.{join-start-exit_hangs}

abbrev family : Table
family i =
    if i == 0
    then record free_entry {
      tid = pos 5;
      last_child_pid = pos 1;
      filehandle = pos 3 ∷ negsuc 0 ∷ pos 2 ∷ replicate 7 (negsuc 0);
    }
    else if i == 1
    then record free_entry { parent_pid = pos 0; retval = pos 3 }
    else free_entry

start_example : StartOutcome family (pos 7) (some 0) (start family (pos 7) (some 0))
start_example = start_lem family (pos 7) (some 0) alive
  where
    alive : (p : ℕ) → some 0 ≡ some p → ¬ IsFree (family p)
    alive zero e f = ground (arith, f.0)
    alive (suc p) e f = ground (arith, e)

-- the VFS with the files 0 to 3 open
abbrev open_files : Vfs ℕ
open_files = record system { files = replicate 4 standard ++ replicate 508 no_file }

open_files-IsUsable : IsUsable open_files
open_files-IsUsable = record { usable = refl; count = 0; ops = refl }

join-start-exit_hangs_example :
    (t' : Table) × (start (join_finish family 1).1 (pos 8) (some 0) ≡ some (1, t'))
    × ((fuel : ℕ) → (v' : Vfs ℕ) × (exit counting fuel t' open_files 0 (pos 0) ≡ ret (hang, v')))
join-start-exit_hangs_example =
    join-start-exit_hangs counting open_files family 0 1 (pos 8) (pos 0) open_files-IsUsable refl
      (omega arith) (omega arith) refl refl taken
  where
    taken : (j : ℕ) → j < 1 → ¬ IsFree (family j)
    taken zero lt f = ground (arith, f.0)
    taken (suc j) lt f = absurd (omega arith)

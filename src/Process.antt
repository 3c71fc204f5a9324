-- ===== src/Process.antt =====
-- proc/process_table.h, the process table of proc/process.c, and execp, exit and join of
-- proc/syscall_handler_proc.c. A function that holds process_table_lock or a die_lock is one step.
-- The names of the processes, which are all the same and never read, are left out, and so are the
-- lock and the condition variable that each row keeps for ever.
pub mod Children
pub mod Starting
pub mod Handles
pub mod Exiting
use aalto_buenos.Prelude.{
  ℕ, zero, suc, ◌+◌, ◌-◌, List, [], ◌∷◌, Bool, true, false, if◌then◌else◌, ltb, ◌==◌, not, ◌||◌,
  ◌&&◌, replicate, Option, none, some, Result, ok, panic, hang, outside, ◌^◌,
}
use aalto_buenos.Prelude.Int.{ℤ, pos, negsuc, none_id, eq_ℤ, is_negative, is_positive, to_index}
use aalto_buenos.Prelude.Outcomes.{Outcome, ret, ◌>>=◌}
use aalto_buenos.Threads.{update}
use aalto_buenos.Vfs.{Vfs, Driver, vfs_ok}
use aalto_buenos.Vfs.Files.{close}

abbrev pub max_processes : ℕ
max_processes = 32

-- MAX_OPEN_FILES_PER_PROCESS
abbrev pub max_files : ℕ
max_files = 10

-- FILEHANDLE_UNUSED
abbrev pub unused : ℤ
unused = negsuc 0

-- `process_table_t`; PROCESS_NO_OWNER_TID, PROCESS_NO_PARENT_PID and PROCESS_NO_RETVAL are -1.
pub record Proc : Type 0 where
  pub tid : ℤ
  pub next : ℤ
  pub retval : ℤ
  pub parent_pid : ℤ
  pub last_child_pid : ℤ
  pub filehandle : List ℤ
  pub heap_vaddr : ℕ

abbrev pub Table : Type 0
Table = ℕ → Proc

-- `init_process_filehandle`
abbrev pub no_files : List ℤ
no_files = replicate max_files unused

-- `free_process_table_entry`
abbrev pub free_entry : Proc
free_entry = record {
  tid = none_id;
  next = none_id;
  retval = none_id;
  parent_pid = none_id;
  last_child_pid = none_id;
  filehandle = no_files;
  heap_vaddr = 0;
}

-- the loop of `process_table_init`, with `n` rounds left
unfoldable pub init_rows : ℕ → ℕ → Table → Table
init_rows zero i table = table
init_rows (suc n) i table = init_rows n (i + 1) (update table i free_entry)

unfoldable pub init : Table → Table
unfolding init_rows
init table = init_rows max_processes 0 table

-- the search of `process_start` for a free row, from `i` on over `n` rows
unfoldable pub find_free : ℕ → ℕ → Table → Option ℕ
find_free zero i table = none
find_free (suc n) i table =
    let rest = find_free n (i + 1) table in
    if eq_ℤ (table i).tid none_id && eq_ℤ (table i).parent_pid none_id then some i else rest

-- The row `i` becomes the last child of the process `p`.
unfoldable pub link_child : Table → ℕ → Option ℕ → Table
link_child table i none = table
link_child table i (some p) =
    let linked =
      if not (eq_ℤ (table p).last_child_pid none_id)
      then update table i (record (table i) { next = (table p).last_child_pid })
      else table in
    update linked p (record (linked p) { last_child_pid = pos i })

-- a parent that is NULL has the number -1
abbrev pub parent_id : Option ℕ → ℤ
parent_id none = none_id
parent_id (some p) = pos p

-- The row that `process_start` fills for the thread `tid`: it keeps its file handles and its heap.
unfoldable pub claim_row : Table → ℕ → ℤ → Option ℕ → Table
claim_row table i tid parent = update table i (record (table i) {
  tid = tid;
  parent_pid = parent_id parent;
  next = none_id;
  last_child_pid = none_id;
  retval = none_id;
})

-- the critical section of `process_start`: the new process, or none if the table is full
unfoldable pub start : Table → ℤ → Option ℕ → Option (ℕ × Table)
start table tid parent = elim (find_free max_processes 0 table) [
  | none ↦ none
  | some i ↦ some (i, link_child (claim_row table i tid parent) i parent)
]

-- what `restore_process_state` does with the row of a process that could not be started
unfoldable pub restore_row : Table → ℕ → Table
restore_row table i = update table i free_entry

-- the loop of `syscall_handle_exit` over the children, with `fuel` rounds left
unfoldable pub orphan_children : ℕ → Table → ℤ → Result Table
orphan_children zero table child = hang
orphan_children (suc fuel) table child =
    let c = to_index child in
    let table' = update table c (record (table c) { parent_pid = none_id }) in
    let rest = orphan_children fuel table' (table' c).next in
    if eq_ℤ child none_id then ok table else rest

-- `if (retval < 0) retval = -retval;`, where the smallest `int` has no opposite
abbrev pub absolute : ℤ → ℤ
absolute (pos n) = pos n
absolute (negsuc n) = if n == 2 ^ 31 - 1 then negsuc n else pos (n + 1)

-- the loop of `syscall_close_all_filehandles`, with what `vfs_close` leaves of the VFS
unfoldable pub close_all {ℓ} : {D : Type ℓ} → Driver D → List ℤ → Vfs D → Outcome (Vfs D)
close_all driver [] v = ret v
close_all driver (filehandle ∷ rest) v =
    (if is_positive filehandle then close driver filehandle v else ret (vfs_ok, v)) >>= λ r.
    close_all driver rest r.1

-- what is left of the row when the loop is over
unfoldable pub without_files : Table → ℕ → Table
without_files table me = update table me (record (table me) { filehandle = no_files })

-- The process `me` is finished, when the walk over its children has come to an end.
abbrev pub mark_finished : ℕ → ℤ → Result Table → Result Table
mark_finished me retval (ok table) =
    ok (update table me (record (table me) { tid = none_id; retval = retval }))
mark_finished me retval panic = panic
mark_finished me retval hang = hang
mark_finished me retval outside = outside

-- the critical section of `syscall_handle_exit` of the process `me`
unfoldable pub finish_exit : ℕ → Table → ℕ → ℤ → Result Table
finish_exit fuel table me retval =
    mark_finished me retval (orphan_children fuel table (table me).last_child_pid)

-- what `syscall_handle_exit` of the process `me` does to the table and the VFS; the page table, which
-- `vm_unmap` and `vm_destroy_pagetable` clear, is left out
unfoldable pub exit {ℓ} :
    {D : Type ℓ} → Driver D → ℕ → Table → Vfs D → ℕ → ℤ → Outcome (Result Table × Vfs D)
exit driver fuel table v me retval = close_all driver (table me).filehandle v >>= λ v'.
    ret (finish_exit fuel (without_files table me) me (absolute retval), v')

-- `syscall_handle_execp` returns the number of the process plus one.
abbrev pub execp_result : Option ℕ → ℤ
execp_result none = none_id
execp_result (some i) = pos (i + 1)

-- the tests of `syscall_handle_join`: the child that is waited for
unfoldable pub join_child : Table → ℕ → ℤ → Option ℕ
join_child table me (negsuc n) = none
join_child table me (pos pid) =
    if pid == 0 || ltb max_processes pid
    then none
    else if not (eq_ℤ (table (pid - 1)).parent_pid (pos me))
    then none
    else some (pid - 1)

-- `child_entry->tid != PROCESS_NO_OWNER_TID`, the condition under which the parent sleeps
abbrev pub is_running : Table → ℕ → Bool
is_running table child = not (eq_ℤ (table child).tid none_id)

-- the rest of `syscall_handle_join`, once the child has died
unfoldable pub join_finish : Table → ℕ → ℤ × Table
join_finish table child =
    ((table child).retval, update table child (record (table child) { parent_pid = none_id }))

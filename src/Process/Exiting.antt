-- ===== src/Process/Exiting.antt =====
-- syscall_handle_exit and syscall_handle_join of proc/syscall_handler_proc.c over the process table.
use aalto_buenos.Prelude.{
  ℕ, zero, suc, ◌+◌, ◌-◌, ◌^◌, ◌<◌, ◌≡◌, ◌≢◌, refl, sym, ap, ◌∙◌, List, length, arith, Option, some,
  hang, ℕ_discrete, dec_lt,
}
use mathlib.Core.Path.{subst}
use aalto_buenos.Prelude.Int.{ℤ, pos, negsuc, none_id}
use aalto_buenos.Prelude.Outcomes.{ret}
use aalto_buenos.Vfs.{Vfs, Driver, max_open_files}
use aalto_buenos.Vfs.Operations.{IsUsable}
use aalto_buenos.Process.Handles.{close_all_lem}
use aalto_buenos.Threads.{update}
use aalto_buenos.Threads.Links.{All, NotIn}
use aalto_buenos.Process.{
  Proc, Table, max_processes, find_free, link_child, claim_row, start, orphan_children, absolute,
  exit, finish_exit, mark_finished, without_files, no_files, join_finish,
}
use aalto_buenos.Process.Children.{Children, IsFree, FreeOutcome, find_free-FreeOutcome}
use aalto_buenos.Process.Starting.{update_self, update_ne, child-IsStarted}

-- The processes of the list have no parent, and all other rows are as they were.
pub record AreOrphans (table t' : Table) (cs : List ℕ) : Type 0 where
  pub orphans : All (λ c. t' c ≡ record (table c) { parent_pid = none_id }) cs
  pub others : (j : ℕ) → NotIn j cs → t' j ≡ table j

abbrev pub orphaned : Table → ℕ → Table
orphaned table c = update table c (record (table c) { parent_pid = none_id })

orphaned-next : (table : Table) (c j : ℕ) → (orphaned table c j).next ≡ (table j).next
orphaned-next table c j = elim (ℕ_discrete c j) [
  | yes e ↦
      subst (λ x. (orphaned table c x).next ≡ (table x).next) {x = c} e
        (ap (λ (p : Proc). p.next) (update_self table c _))
  | no ne ↦ ap (λ (p : Proc). p.next) (update_ne table c j _ ne)
]

-- What `syscall_handle_exit` of `me` with the children `cs` leaves in the table: its row has no
-- thread and no file, and the absolute value of what it returns.
pub record IsExited (table t' : Table) (me : ℕ) (retval : ℤ) (cs : List ℕ) : Type 0 where
  pub own :
      t' me ≡ record (table me) { tid = none_id; retval = (t' me).retval; filehandle = no_files }
  pub kept : (n : ℕ) → retval ≡ pos n → (t' me).retval ≡ pos n
  pub negated : (n : ℕ) → retval ≡ negsuc n → n < 2 ^ 31 - 1 → (t' me).retval ≡ pos (n + 1)
  pub orphans : All (λ c. t' c ≡ record (table c) { parent_pid = none_id }) cs
  pub others : (j : ℕ) → j ≢ me → NotIn j cs → t' j ≡ table j

-- The walk over the children does not read the files of the row.
without_files-next : (table : Table) (me j : ℕ) → (without_files table me j).next ≡ (table j).next
unfolding without_files
without_files-next table me j = elim (ℕ_discrete me j) [
  | yes e ↦
      subst (λ x. (without_files table me x).next ≡ (table x).next) {x = me} e
        (ap (λ (p : Proc). p.next) (update_self table me _))
  | no ne ↦ ap (λ (p : Proc). p.next) (update_ne table me j _ ne)
]

without_files-last :
    (table : Table) (me : ℕ)
    → (without_files table me me).last_child_pid ≡ (table me).last_child_pid
unfolding without_files
without_files-last table me = ap (λ (p : Proc). p.last_child_pid) (update_self table me _)

-- A row that is its own next sibling keeps the walk of `syscall_handle_exit` going.
orphan_children-hangs :
    (fuel : ℕ) (table : Table) (c : ℕ)
    → (table c).next ≡ pos c
    → orphan_children fuel table (pos c) ≡ hang
unfolding orphan_children
orphan_children-hangs zero table c e = refl
orphan_children-hangs (suc fuel) table c e =
    let same : (orphaned table c c).next ≡ pos c = orphaned-next table c c ∙ e in
    ap (orphan_children fuel (orphaned table c)) same
    ∙ orphan_children-hangs fuel (orphaned table c) c same

find_free-first :
    (table : Table) (c : ℕ)
    → c < max_processes
    → IsFree (table c)
    → ((j : ℕ) → j < c → ¬ IsFree (table j))
    → find_free max_processes 0 table ≡ some c
find_free-first table c lt free taken =
    go (find_free max_processes 0 table) (find_free-FreeOutcome max_processes 0 table)
  where
    go : (r : Option ℕ) → FreeOutcome max_processes 0 table r → r ≡ some c
    go r (FreeOutcome.no_row e all) = absurd (all c (omega arith) (omega arith) free)
    go r (FreeOutcome.row k e lo hi f all) = elim (dec_lt k c) [
      | yes l ↦ absurd (taken k l f)
      | no ge ↦ elim (dec_lt c k) [
        | yes l ↦ absurd (all c (omega arith) l free)
        | no ge' ↦ e ∙ ap some (omega arith)
      ]
    ]

-- Let the VFS be usable with its 512 rows of open files, the last child of a process be dead, and
-- its row the first that is free once it is joined. After the process has joined it, the next
-- process that it starts gets the same row and becomes its own next sibling, and
-- `syscall_handle_exit` of the parent never comes to the end of the list of children, however many
-- rounds it is given.
pub join-start-exit_hangs {ℓ} :
    {D : Type ℓ} (driver : Driver D) (v : Vfs D) (table : Table) (p c : ℕ) (tid retval : ℤ)
    → IsUsable v
    → length v.files ≡ max_open_files
    → c < max_processes
    → p ≢ c
    → (table p).last_child_pid ≡ pos c
    → (table c).tid ≡ none_id
    → ((j : ℕ) → j < c → ¬ IsFree (table j))
    → (t' : Table) × (start (join_finish table c).1 tid (some p) ≡ some (c, t'))
      × ((fuel : ℕ) → (v' : Vfs D) × (exit driver fuel t' v p retval ≡ ret (hang, v')))
unfolding start exit join_finish
join-start-exit_hangs driver v table p c tid retval u len lt apart last dead taken = (
  link_child (claim_row (orphaned table c) c tid (some p)) c (some p),
  rw (find_free-first (orphaned table c) c lt free earlier, start) refl,
  λ fuel.
      let (v', run, closed) = close_all_lem driver (child p).filehandle v u len in
      (v', rw (run, looping fuel) refl),
)
  where
    child : Table
    child = link_child (claim_row (orphaned table c) c tid (some p)) c (some p)

    free : IsFree (orphaned table c c)
    free = (
      ap (λ (r : Proc). r.tid) (update_self table c _) ∙ dead,
      ap (λ (r : Proc). r.parent_pid) (update_self table c _),
    )

    earlier : (j : ℕ) → j < c → ¬ IsFree (orphaned table c j)
    earlier j l f = taken j l (
        subst IsFree {x = orphaned table c j}
          (update_ne table c j _ (λ e. absurd (omega (arith, e)))) f)

    links :
        ((link_child (claim_row (orphaned table c) c tid (some p)) c (some p) p).last_child_pid
          ≡ pos c)
        × ((link_child (claim_row (orphaned table c) c tid (some p)) c (some p) c).next
            ≡ (orphaned table c p).last_child_pid)
    links = (child-IsStarted (orphaned table c) tid c p apart).in_front p refl apart

    own_next : (link_child (claim_row (orphaned table c) c tid (some p)) c (some p) c).next ≡ pos c
    own_next =
        links.1
        ∙ ap (λ (r : Proc). r.last_child_pid) (update_ne table c p _ (λ e. apart (sym e)))
        ∙ last

    looping : (fuel : ℕ) → finish_exit fuel (without_files child p) p (absolute retval) ≡ hang
    looping fuel =
        let first : (without_files child p p).last_child_pid ≡ pos c =
          without_files-last child p ∙ links.0 in
        let again : (without_files child p c).next ≡ pos c =
          without_files-next child p c ∙ own_next in
        unfold finish_exit in
        ap (mark_finished p (absolute retval)) (
          ap (orphan_children fuel (without_files child p)) first
          ∙ orphan_children-hangs fuel (without_files child p) c again)

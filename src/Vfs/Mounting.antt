-- ===== src/Vfs/Mounting.antt =====
-- vfs_mount of fs/vfs.c: every way a call may end, and what the lookups find afterwards.
use aalto_buenos.Prelude.{
  ℕ, suc, ◌-◌, ◌≤◌, ◌<◌, ◌≡◌, ◌≢◌, refl, sym, ◌∙◌, ap, List, ◌∷◌, ◌++◌, true, false, if◌then◌else◌,
  length, get_or, set, get_or-set_self, get_or-set_ne, length-set, take, take-all, drop, arith, leb,
  ltb, ◌==◌, ==-false, ==_iff, ℕ_discrete, dec_lt, ltb-true, ltb-false, some,
}
use mathlib.Core.Path.{subst}
use aalto_buenos.Prelude.Int.{ℤ}
use aalto_buenos.Prelude.Outcomes.{Outcome, ret, ◌>>=◌, accessed}
use aalto_buenos.Libc.{stringcopy}
use aalto_buenos.Libc.Strings.{IsText, stringcopy_lem}
use aalto_buenos.Vfs.{
  Vfs, Entry, no_entry, max_filesystems, name_length, vfs_ok, vfs_error, limit, find_row,
  is_free_entry, end_with,
}
use aalto_buenos.Vfs.Names.{holding}
use aalto_buenos.Vfs.Mounts.{find_mountpoint, mount_named, mount}
use aalto_buenos.Vfs.Operations.{IsUsable, started, with_op_lem, end_with_lem}
use aalto_buenos.Vfs.Rows.{
  IsFirstRow, find_row-IsFirstRow, AreNamed, IsCalled, IsMountpoint, find_mountpoint-IsMountpoint,
  text_unique,
}
use aalto_buenos.Vfs.Opened.{LooksUp}
use aalto_buenos.Vfs.Mounted.{in_table}

-- the row of a file system mounted under a name, of which at most 15 characters are kept
abbrev pub named_entry : ℕ → List ℕ → Entry → Entry
named_entry fs name old = record {
  filesystem = fs;
  mountpoint = holding (take (name_length - 1) name) old.mountpoint;
}

abbrev pub extended : List Entry → ℕ → ℕ → List ℕ → List Entry
extended rows row fs name = set rows row (named_entry fs name (get_or rows row no_entry))

-- A free row of the table is given to the file system `fs`, under a name that no row has.
module _ (rows : List Entry) (row fs : ℕ) (name : List ℕ)
    (first : IsFirstRow is_free_entry rows no_entry row) (in_rows : row < length rows)
    (unnamed : (j : ℕ) → j < length rows → ¬ IsCalled name (get_or rows j no_entry)) where
  at_row :
      get_or (extended rows row fs name) row no_entry
      ≡ named_entry fs name (get_or rows row no_entry)
  at_row = get_or-set_self rows row _ no_entry in_rows

  elsewhere :
      (j : ℕ) → row ≢ j → get_or (extended rows row fs name) j no_entry ≡ get_or rows j no_entry
  elsewhere j ne = get_or-set_ne rows row j _ no_entry ne

  -- The name, if it is short enough, finds the new file system.
  extended-name : length name ≤ 15 → LooksUp (extended rows row fs name) name fs
  extended-name short = record {
    row = row;
    at = record {
      below = omega (arith, length-set rows row (named_entry fs name (get_or rows row no_entry)));
      here = λ h. (
        drop (suc (length (take 15 name))) (get_or rows row no_entry).mountpoint,
        ap (λ (e : Entry). e.mountpoint) at_row
            ∙ ap
                (λ s.
                  s
                  ++ (0 ∷ drop (suc (length (take 15 name))) (get_or rows row no_entry).mountpoint))
                (take-all 15 name short),
      );
      before = λ j lt c.
          unnamed j (omega (arith, in_rows))
            (subst (IsCalled name) (elsewhere j (λ e. absurd (omega (arith, e)))) c);
    };
    holds = ap (λ (e : Entry). e.filesystem) at_row;
  }

  -- Every file system that a text found before is found still.
  extended-others :
      (t : List ℕ) (fs' : ℕ)
      → IsText t
      → IsText name
      → length name ≤ 15
      → LooksUp rows t fs'
      → fs' ≢ 0
      → LooksUp (extended rows row fs name) t fs'
  extended-others t fs' is_text is_name short l ne = record {
    row = l.row;
    at = record {
      below =
          omega (arith, here, length-set rows row (named_entry fs name (get_or rows row no_entry)));
      here = λ h. subst (IsCalled t) (sym (elsewhere l.row apart)) (l.at.here here);
      before = λ j lt c. before j lt c (ℕ_discrete row j);
    };
    holds = ap (λ (e : Entry). e.filesystem) (elsewhere l.row apart) ∙ l.holds;
  }
    where
      here : l.row < length rows
      here = in_table rows l.row (λ z. ne (sym l.holds ∙ z))

      apart : row ≢ l.row
      apart e =
          let free : ((get_or rows row no_entry).filesystem == 0) ≡ true = first.here in_rows in
          ne (
            sym l.holds
            ∙ ap (λ i. (get_or rows i no_entry).filesystem) (sym e)
            ∙ (==_iff _ 0).0 free)

      before :
          (j : ℕ)
          → j < l.row
          → IsCalled t (get_or (extended rows row fs name) j no_entry)
          → Dec (row ≡ j)
          → ⊥
      before j lt c (no other) = l.at.before j lt (subst (IsCalled t) (elsewhere j other) c)
      before j lt (rest, bytes) (yes e) =
          let old = (get_or rows row no_entry).mountpoint in
          let kept = drop (suc (length (take 15 name))) old in
          let stored : (get_or (extended rows row fs name) j no_entry).mountpoint
              ≡ name ++ (0 ∷ kept) =
            ap (λ i. (get_or (extended rows row fs name) i no_entry).mountpoint) (sym e)
            ∙ ap (λ (x : Entry). x.mountpoint) at_row
            ∙ ap (λ s. s ++ (0 ∷ kept)) (take-all 15 name short) in
          let same : t ≡ name = text_unique t name rest kept is_text is_name (sym bytes ∙ stored) in
          unnamed l.row here
            (subst (λ s. IsCalled s (get_or rows l.row no_entry)) same (l.at.here here))

-- Every mountpoint's array has room for a name.
abbrev pub AreWide : List Entry → Type 0
AreWide rows = (j : ℕ) → j < length rows → name_length ≤ length (get_or rows j no_entry).mountpoint

-- The ways in which `vfs_mount` of the file system `fs` under a name may end.
pub data MountOutcome {ℓ} {D : Type ℓ} (v : Vfs D) (fs : ℕ) (name : List ℕ)
    (r : Outcome (ℤ × Vfs D)) : Type ℓ where
  table_full :
      ((j : ℕ) → j < max_filesystems → (get_or v.filesystems j no_entry).filesystem ≢ 0)
      → r ≡ ret (limit, v)
      → MountOutcome v fs name r
  name_taken :
      (row : ℕ)
      → row < max_filesystems
      → IsCalled name (get_or v.filesystems row no_entry)
      → r ≡ ret (vfs_error, v)
      → MountOutcome v fs name r
  mounted :
      (row : ℕ)
      → row < max_filesystems
      → (get_or v.filesystems row no_entry).filesystem ≡ 0
      → r ≡ ret (vfs_ok, record v { filesystems = extended v.filesystems row fs name })
      → (length name ≤ 15 → LooksUp (extended v.filesystems row fs name) name fs)
      → ((t : List ℕ) (fs' : ℕ)
          → IsText t
          → length name ≤ 15
          → LooksUp v.filesystems t fs'
          → fs' ≢ 0
          → LooksUp (extended v.filesystems row fs name) t fs')
      → MountOutcome v fs name r

module _ {ℓ} {D : Type ℓ} (v : Vfs D) (fs : ℕ) (name rest : List ℕ) (u : IsUsable v)
    (len : length v.filesystems ≡ max_filesystems) (named : AreNamed v.filesystems)
    (wide : AreWide v.filesystems) (text : IsText name) where
  free_row : ℕ
  free_row = find_row is_free_entry v.filesystems

  first : IsFirstRow is_free_entry v.filesystems no_entry free_row
  unfolding free_row
  first = find_row-IsFirstRow is_free_entry v.filesystems no_entry

  -- the part of `mount_named` behind the search for a free row
  mount_checked : free_row < max_filesystems → Outcome (ℤ × Vfs D)
  mount_checked lt = find_mountpoint v.filesystems (name ++ (0 ∷ rest)) >>= λ same.
      if ltb same max_filesystems
      then end_with vfs_error (started v)
      else accessed (
          stringcopy (get_or v.filesystems free_row no_entry).mountpoint (name ++ (0 ∷ rest))
            name_length)
        >>= λ copied. end_with vfs_ok (record (started v) {
          filesystems =
              set v.filesystems free_row (record { filesystem = fs; mountpoint = copied });
        })

  mount_checked-MountOutcome :
      (lt : free_row < max_filesystems) → MountOutcome v fs name (mount_checked lt)
  unfolding mount_checked
  mount_checked-MountOutcome lt =
      go (find_mountpoint-IsMountpoint v.filesystems name rest named text)
    where
      go :
          (i : ℕ) × (find_mountpoint v.filesystems (name ++ (0 ∷ rest)) ≡ ret i)
            × IsMountpoint v.filesystems name i
          → MountOutcome v fs name (mount_checked lt)
      go (i, run, at) = elim (dec_lt i max_filesystems) [
        | yes li ↦
            rw (run, ltb-true li)
              (name_taken i li (at.here (omega (arith, len, li)))
                (end_with_lem v (started v) vfs_error u u.usable refl))
        | no ge ↦
            rw
              (
                run,
                ltb-false {a = i} {b = max_filesystems} (omega (arith, ge)),
                stringcopy_lem (get_or v.filesystems free_row no_entry).mountpoint name rest 16 text
                    (omega arith) (wide free_row (omega (arith, len, lt))),
              )
              (mounted free_row lt ((==_iff _ 0).0 (first.here (omega (arith, len, lt))))
                (end_with_lem v _ vfs_ok u u.usable refl)
                (extended-name v.filesystems free_row fs name first (omega (arith, len, lt))
                  (unnamed i at ge))
                (λ t fs' is_text short.
                  extended-others v.filesystems free_row fs name first (omega (arith, len, lt))
                    (unnamed i at ge) t fs' is_text text short))
      ]
        where
          unnamed :
              (i : ℕ)
              → IsMountpoint v.filesystems name i
              → ¬ i < max_filesystems
              → (j : ℕ) → j < length v.filesystems
              → ¬ IsCalled name (get_or v.filesystems j no_entry)
          unnamed i at ge j lj = at.before j (omega (arith, ge, len, lj))

  mount_named-MountOutcome :
      MountOutcome v fs name (mount_named fs (name ++ (0 ∷ rest)) (started v))
  unfolding mount_named mount_checked free_row
  mount_named-MountOutcome = elim (dec_lt free_row max_filesystems) [
    | yes lt ↦ rw (ltb_leb lt) (mount_checked-MountOutcome lt)
    | no ge ↦ rw (leb_ge ge) (
        table_full
          (λ j lt e.
            let b : ((get_or v.filesystems j no_entry).filesystem == 0) ≡ false =
              first.before j (omega (arith, lt, ge)) in
            ground (arith, b, e))
          (end_with_lem v (started v) limit u u.usable refl))
  ]
    where
      ltb_leb : free_row < max_filesystems → leb max_filesystems free_row ≡ false
      ltb_leb lt = ground arith

      leb_ge : ¬ free_row < max_filesystems → leb max_filesystems free_row ≡ true
      leb_ge ge = ground arith

-- When the VFS is usable and its rows hold terminated names, `vfs_mount` under a name that is not
-- empty either finds no free row, or finds a row that has the name already, used or not, and
-- changes nothing; or it gives a free row to the file system, and then, for a name of at most 15
-- characters, a lookup of the name finds it and every text that found a mounted file system still
-- finds the same.
pub mount_lem {ℓ} :
    {D : Type ℓ} (v : Vfs D) (fs c : ℕ) (name rest : List ℕ)
    → IsUsable v
    → length v.filesystems ≡ max_filesystems
    → AreNamed v.filesystems
    → AreWide v.filesystems
    → IsText (c ∷ name)
    → MountOutcome v fs (c ∷ name) (mount fs (some (c ∷ name ++ (0 ∷ rest))) v)
unfolding mount
mount_lem v fs c name rest u len named wide (ne, lt, text) =
    rw (==-false ne, with_op_lem v (mount_named fs (c ∷ name ++ (0 ∷ rest))) u)
      (mount_named-MountOutcome v fs (c ∷ name) rest u len named wide (ne, lt, text))

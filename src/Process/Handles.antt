-- ===== src/Process/Handles.antt =====
-- syscall_close_all_filehandles of proc/syscall_handler_fs.c over the open files of fs/vfs.c.
use aalto_buenos.Prelude.{
  ℕ, ◌+◌, ◌<◌, ◌≡◌, ◌≢◌, refl, sym, ap, ◌∙◌, List, [], ◌∷◌, true, get_or, set, length,
  get_or-set_self, get_or-set_ne, get_or-outside, length-set, dec_lt, ℕ_discrete, arith, Bool-cases,
  inl, inr,
}
use mathlib.Core.Path.{subst}
use aalto_buenos.Prelude.Int.{ℤ, pos, is_positive, incr, to_index}
use aalto_buenos.Prelude.Outcomes.{Outcome, ret, ◌>>=◌}
use aalto_buenos.Vfs.{Vfs, Driver, no_file, max_open_files}
use aalto_buenos.Vfs.Files.{close}
use aalto_buenos.Vfs.Operations.{IsUsable, started}
use aalto_buenos.Vfs.Opened.{IsOpen, CloseOutcome, close_lem}
use aalto_buenos.Process.{close_all}

module _ {ℓ} {D : Type ℓ} (driver : Driver D) where
  -- None of the handles above 0 is open.
  abbrev pub AllClosed : Vfs D → List ℤ → Type 0
  AllClosed v [] = Unit
  AllClosed v (h ∷ hs) = (is_positive h ≡ true → ¬ IsOpen driver v h) × AllClosed v hs

  abbrev pub IsNoHandle : ℕ → List ℤ → Type 0
  IsNoHandle i [] = Unit
  IsNoHandle i (h ∷ hs) = (h ≢ pos i) × IsNoHandle i hs

  -- The handles have been closed and the other open files are as before.
  pub record AreClosed (v v' : Vfs D) (hs : List ℤ) : Type 0 where
    pub usable : IsUsable v'
    pub closed : AllClosed v' hs
    pub others : (i : ℕ) → IsNoHandle i hs → get_or v'.files i no_file ≡ get_or v.files i no_file
    pub stays : (i : ℕ) → (get_or v.files i no_file).fs ≡ 0 → (get_or v'.files i no_file).fs ≡ 0

  started-IsUsable : (v : Vfs D) → IsUsable v → IsUsable (started v)
  started-IsUsable v u = record { usable = u.usable; count = u.count + 1; ops = ap incr u.ops }

  -- One round, when the handle `h` has been dealt with.
  next_handle :
      (v v1 v' : Vfs D) (h : ℤ) (hs : List ℤ)
      → (is_positive h ≡ true → (i : ℕ) → h ≡ pos i → (get_or v1.files i no_file).fs ≡ 0)
      → ((i : ℕ) → h ≢ pos i → get_or v1.files i no_file ≡ get_or v.files i no_file)
      → ((i : ℕ) → (get_or v.files i no_file).fs ≡ 0 → (get_or v1.files i no_file).fs ≡ 0)
      → AreClosed v1 v' hs
      → AreClosed v v' (h ∷ hs)
  next_handle v v1 v' h hs gone others stays a = record {
    usable = a.usable;
    closed = (λ p o. o.3 (a.stays o.0 (gone p o.0 o.1)), a.closed);
    others = λ i n. a.others i n.1 ∙ others i n.0;
    stays = λ i z. a.stays i (stays i z);
  }

  abbrev Closing : Vfs D → List ℤ → Outcome (Vfs D) → Type ℓ
  Closing v hs r = (v' : Vfs D) × (r ≡ ret v') × AreClosed v v' hs

  taken_row : (v : Vfs D) (i : ℕ) → (get_or v.files i no_file).fs ≢ 0 → i < length v.files
  taken_row v i ne = elim (dec_lt i (length v.files)) [
    | yes lt ↦ lt
    | no ge ↦ absurd (ne (ap (λ f. f.fs) (get_or-outside v.files i no_file (omega arith))))
  ]

  abbrev pub Further : List ℤ → Type ℓ
  Further hs =
      (v : Vfs D)
      → IsUsable v
      → length v.files ≡ max_open_files
      → Closing v hs (close_all driver hs v)

  -- Put the rounds behind a round together.
  and_then :
      (v v1 : Vfs D) (h : ℤ) (hs : List ℤ)
      → (is_positive h ≡ true → (i : ℕ) → h ≡ pos i → (get_or v1.files i no_file).fs ≡ 0)
      → ((i : ℕ) → h ≢ pos i → get_or v1.files i no_file ≡ get_or v.files i no_file)
      → ((i : ℕ) → (get_or v.files i no_file).fs ≡ 0 → (get_or v1.files i no_file).fs ≡ 0)
      → Closing v1 hs (close_all driver hs v1)
      → Closing v (h ∷ hs) (close_all driver hs v1)
  and_then v v1 h hs gone others stays (v', run, a) =
      (v', run, next_handle v v1 v' h hs gone others stays a)

  close_one :
      (v : Vfs D) (h : ℤ) (hs : List ℤ)
      → Further hs
      → IsUsable v
      → length v.files ≡ max_open_files
      → (r : Outcome (ℤ × Vfs D)) → CloseOutcome driver v h r
      → Closing v (h ∷ hs) (r >>= λ x. close_all driver hs x.1)
  close_one v h hs further u len r (CloseOutcome.not_open shut e) = rw e (
      and_then v (started v) h hs (λ p. gone) (λ i ne. refl) (λ i z. z)
        (further (started v) (started-IsUsable v u) len))
    where
      gone : (i : ℕ) → h ≡ pos i → (get_or v.files i no_file).fs ≡ 0
      gone i eh = elim (dec_lt i max_open_files) [
        | no ge ↦ ap (λ f. f.fs) (get_or-outside v.files i no_file (omega (arith, ge, len)))
        | yes lt ↦ elim (ℕ_discrete (get_or v.files i no_file).fs 0) [
          | yes z ↦ z
          | no ne ↦ absurd (shut (i, eh, lt, ne))
        ]
      ]
  close_one v h hs further u len r (CloseOutcome.closed i code d eh lt ne done e) = rw e (
      and_then v v1 h hs (λ p j ej. gone j ej) others stays
        (further v1 (record { usable = u.usable; count = u.count; ops = u.ops })
          (length-set v.files i _ ∙ len)))
    where
      v1 : Vfs D
      v1 = record v {
        disks = d;
        files = set v.files i (record (get_or v.files i no_file) { fs = 0 });
      }

      here : (get_or v1.files i no_file).fs ≡ 0
      here = ap (λ f. f.fs) (get_or-set_self v.files i _ no_file (taken_row v i ne))

      gone : (j : ℕ) → h ≡ pos j → (get_or v1.files j no_file).fs ≡ 0
      gone j ej =
          subst (λ k. (get_or v1.files k no_file).fs ≡ 0) {x = i} (ap to_index (sym eh ∙ ej)) here

      others : (j : ℕ) → h ≢ pos j → get_or v1.files j no_file ≡ get_or v.files j no_file
      others j nj = get_or-set_ne v.files i j _ no_file (λ same. nj (eh ∙ ap pos same))

      stays : (j : ℕ) → (get_or v.files j no_file).fs ≡ 0 → (get_or v1.files j no_file).fs ≡ 0
      stays j z = elim (ℕ_discrete i j) [
        | yes same ↦ subst (λ k. (get_or v1.files k no_file).fs ≡ 0) {x = i} same here
        | no other ↦ ap (λ f. f.fs) (get_or-set_ne v.files i j _ no_file other) ∙ z
      ]

  -- When the VFS is usable and has its table of files, every handle above 0 is closed afterwards, and
  -- the other open files and the usability are as before.
  pub close_all_lem : (hs : List ℤ) → Further hs
  unfolding close_all
  close_all_lem [] v u len =
      (v, refl, record { usable = u; closed = tt; others = λ i n. refl; stays = λ i z. z })
  close_all_lem (h ∷ hs) v u len = elim (Bool-cases (is_positive h)) [
    | inl t ↦
        rw t (close_one v h hs (close_all_lem hs) u len (close driver h v) (close_lem driver v h u))
    | inr f ↦ rw f (
        and_then v v h hs (λ p. absurd (ground (arith, p, f))) (λ i ne. refl) (λ i z. z)
          (close_all_lem hs v u len))
  ]

-- ===== src/Tfs/Allocation.antt =====
-- fs/tfs.c: the loop of `tfs_create` that takes the blocks of a new file from the allocation block.
use mathlib.Core.Path.{subst}
use aalto_buenos.Prelude.{
  ℕ, zero, suc, ◌*◌, ◌≤◌, ◌<◌, ◌≡◌, ◌≢◌, refl, sym, ap, arith, List, [], ◌∷◌, Option, none, some,
  length,
}
use aalto_buenos.Prelude.Int.{pos}
use aalto_buenos.Bitmap.{Bitmap, get_at, set_at}
use aalto_buenos.Bitmap.Bits.{IsWords, get_at-set_at, set_at-IsWords, length-set_at}
use aalto_buenos.Bitmap.Find.{FindOutcome, taken, none_left, findnset-Found}
use aalto_buenos.Threads.Links.{All, All-map, NotIn, Distinct}
use aalto_buenos.Tfs.Writing.{found_block, take_block, allocate}

take_block-FindOutcome :
    (bat : Bitmap) (l : ℕ)
    → IsWords bat
    → l ≤ 32 * length bat
    → FindOutcome bat l (take_block bat l)
unfolding take_block
take_block-FindOutcome bat l ws fits =
    let (r, e, o) = findnset-Found bat l ws fits in
    subst (FindOutcome bat l) (sym (ap (found_block bat) e)) o

-- A block that was free before and is in use after.
pub record IsTaken (l : ℕ) (bat bat' : Bitmap) (b : ℕ) : Type 0 where
  pub on_disk : b < l
  pub free_before : get_at bat b ≡ 0
  pub used_after : get_at bat' b ≡ 1

-- The two ways that taking `n` blocks may end.
pub data Allocated (l n : ℕ) (bat : Bitmap) (r : Option (List ℕ × Bitmap)) : Type 0 where
  allocated :
      (blocks : List ℕ) (bat' : Bitmap)
      → r ≡ some (blocks, bat')
      → length blocks ≡ n
      → length bat' ≡ length bat
      → Distinct blocks
      → All (IsTaken l bat bat') blocks
      → ((q : ℕ) → NotIn q blocks → get_at bat' q ≡ get_at bat q)
      → Allocated l n bat r
  disk_full :
      (blocks : List ℕ)
      → r ≡ none
      → length blocks < n
      → ((q : ℕ) → q < l → NotIn q blocks → get_at bat q ≡ 1)
      → Allocated l n bat r

set_at_self : (bat : Bitmap) (p : ℕ) → p < 32 * length bat → get_at (set_at bat p 1) p ≡ 1
set_at_self bat p h = ground (arith, get_at-set_at bat p p 1 h (omega arith))

set_at_other :
    (bat : Bitmap) (p q : ℕ)
    → p < 32 * length bat
    → q ≢ p
    → get_at (set_at bat p 1) q ≡ get_at bat q
set_at_other bat p q h ne = ground (arith, get_at-set_at bat p q 1 h (omega arith))

-- A block that is taken once `p` is in use is another one than `p`.
IsTaken-ne :
    (l p b : ℕ) (bat bat' : Bitmap)
    → p < 32 * length bat
    → IsTaken l (set_at bat p 1) bat' b
    → p ≢ b
IsTaken-ne l p b bat bat' h entry e =
    omega (arith, entry.free_before, set_at_self bat p h, ap (get_at (set_at bat p 1)) e)

IsTaken-before :
    (l p b : ℕ) (bat bat' : Bitmap)
    → p < 32 * length bat
    → IsTaken l (set_at bat p 1) bat' b
    → IsTaken l bat bat' b
IsTaken-before l p b bat bat' h entry = record {
  on_disk = entry.on_disk;
  free_before = omega (
    arith,
    entry.free_before,
    set_at_other bat p b h (λ e. IsTaken-ne l p b bat bat' h entry (sym e)),
  );
  used_after = entry.used_after;
}

-- One round: the block `p` is taken, then the others from what is left.
allocate_round :
    (l n p : ℕ) (bat : Bitmap)
    → l ≤ 32 * length bat
    → p < l
    → get_at bat p ≡ 0
    → take_block bat l ≡ (pos p, set_at bat p 1)
    → Allocated l n (set_at bat p 1) (allocate l n (set_at bat p 1))
    → Allocated l (suc n) bat (allocate l (suc n) bat)
unfolding allocate
allocate_round l n p bat fits lt clear e (allocated blocks bat' r len same distinct takes others) =
    allocated (p ∷ blocks) bat' (rw (e, r, e) refl) (omega arith) (rw same (length-set_at bat p 1))
      (apart, distinct) (first, All-map blocks (λ b. IsTaken-before l p b bat bat' within) takes)
      (λ q out. omega (arith, others q out.1, set_at_other bat p q within out.0))
  where
    within : p < 32 * length bat
    within = omega arith

    apart : NotIn p blocks
    apart = All-map blocks (λ b. IsTaken-ne l p b bat bat' within) takes

    first : IsTaken l bat bat' p
    first = record {
      on_disk = lt;
      free_before = clear;
      used_after = omega (arith, others p apart, set_at_self bat p within);
    }
allocate_round l n p bat fits lt clear e (disk_full blocks r len full) =
    disk_full (p ∷ blocks) (rw (e, r) refl) (omega arith)
      (λ q below out. omega (arith, full q below out.1, set_at_other bat p q (omega arith) out.0))

-- For an allocation block that has a bit for every block of the disk, the loop of `tfs_create` that
-- finds `n` blocks takes `n` different blocks of the disk, which were free, marks them as in use
-- and leaves every other block as it was; or it fails, and fewer than `n` blocks were free.
pub allocate_lem :
    (l n : ℕ) (bat : Bitmap)
    → IsWords bat
    → l ≤ 32 * length bat
    → Allocated l n bat (allocate l n bat)
unfolding allocate
allocate_lem l zero bat ws fits = allocated [] bat refl refl refl tt tt (λ q out. refl)
allocate_lem l (suc n) bat ws fits = elim (take_block-FindOutcome bat l ws fits) [
  | taken p first e ↦ allocate_round l n p bat fits first.below first.clear e (
      allocate_lem l n (set_at bat p 1) (set_at-IsWords bat p 1 ws)
        (rw (length-set_at bat p 1) fits))
  | none_left all e ↦
      disk_full [] (rw e refl) (omega arith) (λ q below out. all q (omega arith) below)
]

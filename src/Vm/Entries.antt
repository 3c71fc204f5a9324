-- ===== src/Vm/Entries.antt =====
-- What a page table maps: the search for a pair, and the translation of a virtual page.
use aalto_buenos.Prelude.{
  ℕ, zero, suc, ◌+◌, ◌*◌, ◌%◌, ◌^◌, ◌≤◌, ◌<◌, ◌≡◌, ◌≢◌, refl, sym, ap, ◌∙◌, arith, if◌then◌else◌,
  ◌==◌, Option, none, some, ℕ_discrete, ==-false,
}
use aalto_buenos.Vm.{Entry, Pagetable, pagetable_entries, pair_of, find_pair}

pub data FindPair (n i : ℕ) (entries : ℕ → Entry) (vaddr : ℕ) (r : Option ℕ) : Type 0 where
  hit :
      (j : ℕ)
      → i ≤ j
      → j < i + n
      → (entries j).vpn2 ≡ pair_of vaddr
      → r ≡ some j
      → FindPair n i entries vaddr r
  miss :
      ((j : ℕ) → i ≤ j → j < i + n → (entries j).vpn2 ≢ pair_of vaddr)
      → r ≡ none
      → FindPair n i entries vaddr r

find_on :
    {n i : ℕ} {entries : ℕ → Entry} {vaddr : ℕ} {r : Option ℕ}
    → (entries i).vpn2 ≢ pair_of vaddr
    → FindPair n (i + 1) entries vaddr r
    → FindPair (suc n) i entries vaddr r
find_on ne (hit j a b e er) = hit j (omega arith) (omega arith) e er
find_on {n} {i} {entries} {vaddr} ne (miss all er) = miss every er
  where
    every : (j : ℕ) → i ≤ j → j < i + suc n → (entries j).vpn2 ≢ pair_of vaddr
    every j a b = elim (ℕ_discrete i j) [
      | yes e ↦ rw (← e) ne
      | no d ↦ all j (omega arith) (omega arith)
    ]

pub find_pair-FindPair :
    (n i : ℕ) (entries : ℕ → Entry) (vaddr : ℕ)
    → FindPair n i entries vaddr (find_pair n i entries vaddr)
unfolding find_pair
find_pair-FindPair zero i entries vaddr = miss (λ j a b. absurd (omega arith)) refl
find_pair-FindPair (suc n) i entries vaddr = elim (ℕ_discrete (entries i).vpn2 (pair_of vaddr)) [
  | yes e ↦ hit i (omega arith) (omega arith) e (ground (arith, e))
  | no ne ↦ rw (==-false ne) (find_on ne (find_pair-FindPair n (i + 1) entries vaddr))
]

-- No two entries map one pair.
abbrev pub IsUnique : ℕ → (ℕ → Entry) → Type 0
IsUnique n entries = (i j : ℕ) → i < n → j < n → (entries i).vpn2 ≡ (entries j).vpn2 → i ≡ j

pub find_pair-some :
    (n j : ℕ) (entries : ℕ → Entry) (vaddr : ℕ)
    → IsUnique n entries
    → j < n
    → (entries j).vpn2 ≡ pair_of vaddr
    → find_pair n 0 entries vaddr ≡ some j
find_pair-some n j entries vaddr u lt e = elim (find_pair-FindPair n 0 entries vaddr) [
  | hit i a b ei er ↦ er ∙ ap some (u i j (omega arith) lt (ei ∙ sym e))
  | miss all er ↦ absurd (all j (omega arith) (omega arith) e)
]

pub find_pair-none :
    (n : ℕ) (entries : ℕ → Entry) (vaddr : ℕ)
    → ((j : ℕ) → j < n → (entries j).vpn2 ≢ pair_of vaddr)
    → find_pair n 0 entries vaddr ≡ none
find_pair-none n entries vaddr all = elim (find_pair-FindPair n 0 entries vaddr) [
  | hit i a b e er ↦ absurd (all i (omega arith) e)
  | miss out er ↦ er
]

-- The half of an entry that virtual page `q` uses: physical page number and dirty bit, if valid.
abbrev pub half : Entry → ℕ → Option (ℕ × ℕ)
half e q =
    if q % 2 == 0
    then if e.v0 == 1 then some (e.pfn0, e.d0) else none
    else if e.v1 == 1
    then some (e.pfn1, e.d1)
    else none

abbrev pub half_at : (ℕ → Entry) → ℕ → Option ℕ → Option (ℕ × ℕ)
half_at entries q none = none
half_at entries q (some i) = half (entries i) q

-- What the table maps virtual page `q` to.
abbrev pub translate : Pagetable → ℕ → Option (ℕ × ℕ)
translate table q =
    half_at table.entries q (find_pair table.valid_count 0 table.entries (q * 2 ^ 12))

-- The valid flags are bits.
abbrev pub IsFlags : Entry → Type 0
IsFlags e = (e.v0 < 2) × (e.v1 < 2)

pub record IsTable (table : Pagetable) : Type 0 where
  pub room : table.valid_count ≤ pagetable_entries
  pub unique : IsUnique table.valid_count table.entries
  pub bits : (i : ℕ) → i < table.valid_count → IsFlags (table.entries i)

-- ===== src/Vm/Dirty.antt =====
-- `vm_set_dirty` against the translation of virtual pages.
use aalto_buenos.Prelude.{
  ℕ, ◌*◌, ◌/◌, ◌%◌, ◌^◌, ◌<◌, ◌≡◌, ◌≢◌, refl, ◌∙◌, arith, none, some, ℕ_discrete, Result, ok, panic,
}
use aalto_buenos.Vm.{Entry, Pagetable, pair_of, set_entry, find_pair, set_dirty}
use aalto_buenos.Vm.Entries.{
  hit, miss, find_pair-FindPair, find_pair-none, half, translate, IsTable,
}
use aalto_buenos.Vm.Write.{page_of, find_page, set_entry-IsTable, translate-here, translate-others}

-- How `vm_set_dirty` ends.
pub data DirtyOutcome (table : Pagetable) (vaddr dirty : ℕ) (r : Result Pagetable) : Type 0 where
  changed :
      (table' : Pagetable) (pfn old : ℕ)
      → r ≡ ok table'
      → translate table (page_of vaddr) ≡ some (pfn, old)
      → translate table' (page_of vaddr) ≡ some (pfn, dirty)
      → ((q : ℕ) → q ≢ page_of vaddr → translate table' q ≡ translate table q)
      → IsTable table'
      → DirtyOutcome table vaddr dirty r
  unmapped : translate table (page_of vaddr) ≡ none → r ≡ panic → DirtyOutcome table vaddr dirty r

module _ {table : Pagetable} (t : IsTable table) (vaddr dirty i : ℕ) (d : dirty < 2)
    (lt : i < table.valid_count) (here : (table.entries i).vpn2 ≡ pair_of vaddr)
    (found : find_pair table.valid_count 0 table.entries vaddr ≡ some i) where
  set_half : DirtyOutcome table vaddr dirty (set_dirty table vaddr dirty)
  unfolding set_dirty
  set_half = elim (ℕ_discrete (page_of vaddr % 2) 0) [
    | yes even ↦ elim (ℕ_discrete (table.entries i).v0 0) [
      | yes unused ↦
          unmapped (find_page t i vaddr lt here ∙ ground (arith, even, unused))
            (ground (arith, d, found, even, unused))
      | no used ↦
          changed (set_entry table i even_entry) (table.entries i).pfn0 (table.entries i).d0
            (ground (arith, d, found, even, used))
            (find_page t i vaddr lt here ∙ ground (arith, even, used, (t.bits i lt).0))
            (translate-here t i vaddr lt here even_entry refl (t.bits i lt) (even_half even)
              ∙ ground (arith, even, used, (t.bits i lt).0))
            (translate-others t i vaddr lt here even_entry refl (t.bits i lt) (even_half even))
            (set_entry-IsTable t i vaddr lt here even_entry refl (t.bits i lt) (even_half even))
    ]
    | no odd ↦ elim (ℕ_discrete (table.entries i).v1 0) [
      | yes unused ↦
          unmapped (find_page t i vaddr lt here ∙ ground (arith, odd, unused))
            (ground (arith, d, found, odd, unused))
      | no used ↦
          changed (set_entry table i odd_entry) (table.entries i).pfn1 (table.entries i).d1
            (ground (arith, d, found, odd, used))
            (find_page t i vaddr lt here ∙ ground (arith, odd, used, (t.bits i lt).1))
            (translate-here t i vaddr lt here odd_entry refl (t.bits i lt) (odd_half odd)
              ∙ ground (arith, odd, used, (t.bits i lt).1))
            (translate-others t i vaddr lt here odd_entry refl (t.bits i lt) (odd_half odd))
            (set_entry-IsTable t i vaddr lt here odd_entry refl (t.bits i lt) (odd_half odd))
    ]
  ]
    where
      even_entry : Entry
      even_entry = record (table.entries i) { d0 = dirty }

      odd_entry : Entry
      odd_entry = record (table.entries i) { d1 = dirty }

      even_half :
          page_of vaddr % 2 ≡ 0
          → (q : ℕ) → q / 2 ≡ pair_of vaddr
          → q ≢ page_of vaddr
          → half even_entry q ≡ half (table.entries i) q
      even_half even q pair ne = ground (arith, even, pair, ne)

      odd_half :
          ¬ (page_of vaddr % 2 ≡ 0)
          → (q : ℕ) → q / 2 ≡ pair_of vaddr
          → q ≢ page_of vaddr
          → half odd_entry q ≡ half (table.entries i) q
      odd_half odd q pair ne = ground (arith, odd, pair, ne)

-- On a well-formed page table `vm_set_dirty` to 0 or 1 changes the dirty bit of exactly the page
-- asked for if it is mapped, and panics if it is not.
pub set_dirty_lem :
    {table : Pagetable} (vaddr dirty : ℕ)
    → IsTable table
    → dirty < 2
    → DirtyOutcome table vaddr dirty (set_dirty table vaddr dirty)
set_dirty_lem {table} vaddr dirty t d =
    elim (find_pair-FindPair table.valid_count 0 table.entries vaddr) [
      | hit i a b here e ↦ set_half t vaddr dirty i d (omega arith) here e
      | miss out e ↦
          unmapped
            (rw
              (find_pair-none table.valid_count table.entries (page_of vaddr * 2 ^ 12)
                (λ j lj q. out j (omega arith) (omega arith) (omega (arith, q))))
              refl)
            (unfold set_dirty in ground (arith, d, e))
    ]

-- ===== src/Vm/Map.antt =====
-- `vm_map` against the translation of virtual pages.
use mathlib.Core.Path.{subst}
use aalto_buenos.Prelude.{
  ℕ, ◌*◌, ◌/◌, ◌%◌, ◌^◌, ◌<◌, ◌≡◌, ◌≢◌, refl, ◌∙◌, arith, if◌then◌else◌, none, some, ℕ_discrete,
  dec_lt, Result, ok,
}
use aalto_buenos.Prelude.Int.{ℤ, pos, negsuc}
use aalto_buenos.Vm.{
  Entry, Pagetable, pagetable_entries, pair_of, is_even, set_entry, map_pair, map_new, map,
}
use aalto_buenos.Vm.Entries.{
  hit, miss, find_pair-FindPair, find_pair-none, half, translate, IsFlags, IsTable,
}
use aalto_buenos.Vm.Write.{page_of, find_page, set_entry-IsTable, translate-here, translate-others}
use aalto_buenos.Vm.Extend.{extended, extended-IsTable, translate-new, translate-old}

-- How `vm_map` ends.
pub data MapOutcome (table : Pagetable) (physaddr vaddr dirty : ℕ) (r : Result (ℤ × Pagetable))
    : Type 0 where
  mapped :
      (table' : Pagetable)
      → r ≡ ok (pos 1, table')
      → translate table (page_of vaddr) ≡ none
      → translate table' (page_of vaddr) ≡ some (page_of physaddr, dirty)
      → ((q : ℕ) → q ≢ page_of vaddr → translate table' q ≡ translate table q)
      → IsTable table'
      → MapOutcome table physaddr vaddr dirty r
  in_use :
      (old : ℕ × ℕ)
      → translate table (page_of vaddr) ≡ some old
      → r ≡ ok (negsuc 0, table)
      → MapOutcome table physaddr vaddr dirty r
  no_room :
      table.valid_count ≡ pagetable_entries
      → r ≡ ok (negsuc 0, table)
      → translate table (page_of vaddr) ≡ none
      → MapOutcome table physaddr vaddr dirty r

-- `vm_map` for a pair that the table has.
module _ {table : Pagetable} (t : IsTable table) (physaddr vaddr dirty i : ℕ)
    (lt : i < table.valid_count) (here : (table.entries i).vpn2 ≡ pair_of vaddr) where
  map_pair-MapOutcome :
      MapOutcome table physaddr vaddr dirty (ok (map_pair table i physaddr vaddr dirty))
  unfolding map_pair
  map_pair-MapOutcome = elim (ℕ_discrete (page_of vaddr % 2) 0) [
    | yes even ↦ elim (ℕ_discrete (table.entries i).v0 1) [
      | yes used ↦
          in_use ((table.entries i).pfn0, (table.entries i).d0)
            (find_page t i vaddr lt here ∙ ground (arith, even, used)) (ground (arith, even, used))
      | no unused ↦
          mapped (set_entry table i even_entry) (ground (arith, even, unused))
            (find_page t i vaddr lt here ∙ ground (arith, even, unused))
            (translate-here t i vaddr lt here even_entry refl (ground arith, (t.bits i lt).1)
                (even_half even)
              ∙ ground (arith, even))
            (translate-others t i vaddr lt here even_entry refl (ground arith, (t.bits i lt).1)
              (even_half even))
            (set_entry-IsTable t i vaddr lt here even_entry refl (ground arith, (t.bits i lt).1)
              (even_half even))
    ]
    | no odd ↦ elim (ℕ_discrete (table.entries i).v1 1) [
      | yes used ↦
          in_use ((table.entries i).pfn1, (table.entries i).d1)
            (find_page t i vaddr lt here ∙ ground (arith, odd, used)) (ground (arith, odd, used))
      | no unused ↦
          mapped (set_entry table i odd_entry) (ground (arith, odd, unused))
            (find_page t i vaddr lt here ∙ ground (arith, odd, unused))
            (translate-here t i vaddr lt here odd_entry refl ((t.bits i lt).0, ground arith)
                (odd_half odd)
              ∙ ground (arith, odd))
            (translate-others t i vaddr lt here odd_entry refl ((t.bits i lt).0, ground arith)
              (odd_half odd))
            (set_entry-IsTable t i vaddr lt here odd_entry refl ((t.bits i lt).0, ground arith)
              (odd_half odd))
    ]
  ]
    where
      even_entry : Entry
      even_entry = record (table.entries i) { pfn0 = physaddr / 2 ^ 12; v0 = 1; g0 = 0; d0 = dirty }

      odd_entry : Entry
      odd_entry = record (table.entries i) { pfn1 = physaddr / 2 ^ 12; v1 = 1; g1 = 0; d1 = dirty }

      even_half :
          page_of vaddr % 2 ≡ 0
          → (q : ℕ) → q / 2 ≡ pair_of vaddr
          → q ≢ page_of vaddr
          → half even_entry q ≡ half (table.entries i) q
      even_half even q pair ne = ground (arith, even, pair, ne)

      odd_half :
          ¬ (page_of vaddr % 2 ≡ 0)
          → (q : ℕ) → q / 2 ≡ pair_of vaddr
          → q ≢ page_of vaddr
          → half odd_entry q ≡ half (table.entries i) q
      odd_half odd q pair ne = ground (arith, odd, pair, ne)

-- `vm_map` for a pair that the table does not have.
module _ {table : Pagetable} (t : IsTable table) (physaddr vaddr dirty : ℕ)
    (out : (j : ℕ) → j < table.valid_count → (table.entries j).vpn2 ≢ pair_of vaddr) where
  pair_entry : Entry
  pair_entry = record (table.entries table.valid_count) {
    vpn2 = pair_of vaddr;
    asid = table.asid % 2 ^ 8;
  }

  made_entry : Entry
  made_entry =
      if is_even vaddr
      then record pair_entry { pfn0 = physaddr / 2 ^ 12; d0 = dirty; v0 = 1; g0 = 0; v1 = 0 }
      else record pair_entry { pfn1 = physaddr / 2 ^ 12; d1 = dirty; v1 = 1; g1 = 0; v0 = 0 }

  other_none : (q : ℕ) → q / 2 ≡ pair_of vaddr → q ≢ page_of vaddr → half made_entry q ≡ none
  unfolding made_entry pair_entry
  other_none q pair ne = elim (ℕ_discrete (page_of vaddr % 2) 0) [
    | yes even ↦ ground (arith, even, pair, ne)
    | no odd ↦ ground (arith, odd, pair, ne)
  ]

  own_half : half made_entry (page_of vaddr) ≡ some (page_of physaddr, dirty)
  unfolding made_entry pair_entry
  own_half = elim (ℕ_discrete (page_of vaddr % 2) 0) [
    | yes even ↦ ground (arith, even)
    | no odd ↦ ground (arith, odd)
  ]

  own_vpn2 : made_entry.vpn2 ≡ pair_of vaddr
  unfolding made_entry pair_entry
  own_vpn2 = ground arith

  made-IsFlags : IsFlags made_entry
  unfolding made_entry pair_entry
  made-IsFlags = ground arith

  map_new-MapOutcome :
      MapOutcome table physaddr vaddr dirty (ok (map_new table physaddr vaddr dirty))
  map_new-MapOutcome = elim (dec_lt table.valid_count pagetable_entries) [
    | yes lt ↦
        mapped (extended table made_entry)
          (unfold map_new made_entry pair_entry in ground (arith, lt)) missing
          (translate-new t vaddr lt out made_entry own_vpn2 made-IsFlags other_none (page_of vaddr)
              (omega arith)
            ∙ own_half)
          (translate-old t vaddr lt out made_entry own_vpn2 made-IsFlags other_none)
          (extended-IsTable t vaddr lt out made_entry own_vpn2 made-IsFlags other_none)
    | no full ↦
        no_room (omega (arith, full, t.room)) (unfold map_new in ground (arith, full)) missing
  ]
    where
      missing : translate table (page_of vaddr) ≡ none
      missing =
          rw
            (find_pair-none table.valid_count table.entries (page_of vaddr * 2 ^ 12)
              (λ j lj e. out j lj (omega (arith, e))))
            refl

-- On a page table whose entries have different pairs and whose valid flags are bits, `vm_map` with
-- a dirty bit of 0 or 1 refines an update of the map from virtual pages to frames: it returns 1,
-- the page has the new frame and dirty bit and every other page is mapped as before, with the table
-- well formed; or it returns -1 and changes nothing, since the page is mapped already or the table
-- is full.
pub map_lem :
    {table : Pagetable} (physaddr vaddr dirty : ℕ)
    → IsTable table
    → dirty < 2
    → MapOutcome table physaddr vaddr dirty (map table physaddr vaddr dirty)
unfolding map
map_lem {table} physaddr vaddr dirty t d =
    elim (find_pair-FindPair table.valid_count 0 table.entries vaddr) [
      | hit i a b here e ↦
          subst (MapOutcome table physaddr vaddr dirty)
            {x = ok (map_pair table i physaddr vaddr dirty)} (ground (arith, d, e))
            (map_pair-MapOutcome t physaddr vaddr dirty i (omega arith) here)
      | miss out e ↦
          subst (MapOutcome table physaddr vaddr dirty)
            {x = ok (map_new table physaddr vaddr dirty)} (ground (arith, d, e))
            (map_new-MapOutcome t physaddr vaddr dirty (λ j lj. out j (omega arith) (omega arith)))
    ]

-- ===== src/Vm/Write.antt =====
-- A page table with one half of an entry written.
use mathlib.Core.Path.{subst}
use aalto_buenos.Prelude.{
  ℕ, zero, suc, ◌+◌, ◌*◌, ◌/◌, ◌^◌, ◌<◌, ◌≡◌, ◌≢◌, refl, sym, ap, ◌∙◌, arith, ℕ_discrete,
}
use aalto_buenos.Vm.{Entry, Pagetable, pair_of, set_entry, find_pair}
use aalto_buenos.Vm.Entries.{
  hit, miss, find_pair-FindPair, find_pair-some, half, translate, IsFlags, IsTable,
}

abbrev pub page_of : ℕ → ℕ
page_of vaddr = vaddr / 2 ^ 12

-- The search of `vm_map` and the translation of the page find one entry.
pub find_page :
    {table : Pagetable} (t : IsTable table) (i vaddr : ℕ)
    → i < table.valid_count
    → (table.entries i).vpn2 ≡ pair_of vaddr
    → translate table (page_of vaddr) ≡ half (table.entries i) (page_of vaddr)
find_page {table} t i vaddr lt here =
    rw
      (find_pair-some table.valid_count i table.entries (page_of vaddr * 2 ^ 12) t.unique lt
        (here ∙ omega arith))
      refl

-- Only the pairs matter to the search.
find_pair-agree :
    (n i : ℕ) (entries entries' : ℕ → Entry) (vaddr : ℕ)
    → ((j : ℕ) → (entries' j).vpn2 ≡ (entries j).vpn2)
    → find_pair n i entries' vaddr ≡ find_pair n i entries vaddr
unfolding find_pair
find_pair-agree zero i entries entries' vaddr same = refl
find_pair-agree (suc n) i entries entries' vaddr same =
    rw (same i, find_pair-agree n (i + 1) entries entries' vaddr same) refl

-- Writing one half of entry `i`, which maps the pair of `vaddr`.
module _ {table : Pagetable} (t : IsTable table) (i vaddr : ℕ) (lt : i < table.valid_count)
    (here : (table.entries i).vpn2 ≡ pair_of vaddr) (e : Entry)
    (same_pair : e.vpn2 ≡ (table.entries i).vpn2) (flags : IsFlags e)
    (same_half : (q : ℕ)
      → q / 2 ≡ pair_of vaddr
      → q ≢ page_of vaddr
      → half e q ≡ half (table.entries i) q) where
  same_pairs : (j : ℕ) → ((set_entry table i e).entries j).vpn2 ≡ (table.entries j).vpn2
  same_pairs j = elim (ℕ_discrete i j) [
    | yes d ↦ ground (arith, d, same_pair, ap (λ x. (table.entries x).vpn2) d)
    | no ne ↦ ground (arith, ne)
  ]

  pub set_entry-IsTable : IsTable (set_entry table i e)
  set_entry-IsTable = record {
    room = t.room;
    unique = λ a b la lb eq. t.unique a b la lb (sym (same_pairs a) ∙ eq ∙ same_pairs b);
    bits = λ j lj. elim (ℕ_discrete i j) [
      | yes d ↦ ground (arith, d, flags)
      | no ne ↦ ground (arith, ne, t.bits j lj)
    ];
  }

  pub translate-here : translate (set_entry table i e) (page_of vaddr) ≡ half e (page_of vaddr)
  translate-here =
      rw
        (find_pair-some table.valid_count i (set_entry table i e).entries (page_of vaddr * 2 ^ 12)
          set_entry-IsTable.unique lt (same_pairs i ∙ here ∙ omega arith))
        (ground arith)

  pub translate-others :
      (q : ℕ) → q ≢ page_of vaddr → translate (set_entry table i e) q ≡ translate table q
  translate-others q ne = elim (find_pair-FindPair table.valid_count 0 table.entries (q * 2 ^ 12)) [
    | miss all er ↦
        rw
          (
            find_pair-agree table.valid_count 0 table.entries (set_entry table i e).entries
                (q * 2 ^ 12) same_pairs,
            er,
          )
          refl
    | hit j a b ej er ↦
        rw
          (
            find_pair-agree table.valid_count 0 table.entries (set_entry table i e).entries
                (q * 2 ^ 12) same_pairs,
            er,
          )
          (elim (ℕ_discrete i j) [
            | yes d ↦
                subst (λ x. half ((set_entry table i e).entries x) q ≡ half (table.entries x) q) d
                  (at_i (omega (arith, ej, here, ap (λ x. (table.entries x).vpn2) d)))
            | no other ↦ ground (arith, other)
          ])
  ]
    where
      at_i :
          q / 2 ≡ pair_of vaddr
          → half ((set_entry table i e).entries i) q ≡ half (table.entries i) q
      at_i pair =
          ap (λ x. half x q) {x = (set_entry table i e).entries i} {y = e} (ground arith)
          ∙ same_half q pair ne

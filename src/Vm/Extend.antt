-- ===== src/Vm/Extend.antt =====
-- A page table with one more entry.
use aalto_buenos.Prelude.{
  ℕ, ◌+◌, ◌*◌, ◌/◌, ◌^◌, ◌≤◌, ◌<◌, ◌≡◌, ◌≢◌, refl, sym, ap, ◌∙◌, arith, none, ℕ_discrete, dec_lt,
}
use aalto_buenos.Vm.{Entry, Pagetable, pagetable_entries, pair_of, set_entry}
use aalto_buenos.Vm.Entries.{
  hit, miss, find_pair-FindPair, IsUnique, find_pair-some, find_pair-none, half, translate, IsFlags,
  IsTable,
}
use aalto_buenos.Vm.Write.{page_of}

-- A new entry at the end, for a pair that the table does not have.
abbrev pub extended : Pagetable → Entry → Pagetable
extended table e = record (set_entry table table.valid_count e) {
  valid_count = table.valid_count + 1;
}

module _ {table : Pagetable} (t : IsTable table) (vaddr : ℕ)
    (lt : table.valid_count < pagetable_entries)
    (out : (j : ℕ) → j < table.valid_count → (table.entries j).vpn2 ≢ pair_of vaddr) (e : Entry)
    (own_pair : e.vpn2 ≡ pair_of vaddr) (flags : IsFlags e)
    (other_half : (q : ℕ) → q / 2 ≡ pair_of vaddr → q ≢ page_of vaddr → half e q ≡ none) where
  old_entry : (j : ℕ) → j < table.valid_count → (extended table e).entries j ≡ table.entries j
  old_entry j below = ground (arith, below)

  new_entry : (extended table e).entries table.valid_count ≡ e
  new_entry = ground arith

  pub extended-IsTable : IsTable (extended table e)
  extended-IsTable = record {
    room = omega arith;
    unique = unique;
    bits = λ j lj. elim (ℕ_discrete table.valid_count j) [
      | yes d ↦ ground (arith, d, flags)
      | no ne ↦ ground (arith, ne, t.bits j (omega arith))
    ];
  }
    where
      clash : (a : ℕ) → a < table.valid_count → ((extended table e).entries a).vpn2 ≢ e.vpn2
      clash a below eq =
          out a below (sym (ap (λ (x : Entry). x.vpn2) (old_entry a below)) ∙ eq ∙ own_pair)

      unique : IsUnique (table.valid_count + 1) (extended table e).entries
      unique a b la lb eq = elim (dec_lt a table.valid_count) [
        | yes a_old ↦ elim (dec_lt b table.valid_count) [
          | yes b_old ↦ t.unique a b a_old b_old (
              sym (ap (λ (x : Entry). x.vpn2) (old_entry a a_old))
              ∙ eq
              ∙ ap (λ (x : Entry). x.vpn2) (old_entry b b_old))
          | no b_new ↦ absurd (
              clash a a_old (
                eq
                ∙ ap (λ x. ((extended table e).entries x).vpn2) {y = table.valid_count}
                    (omega (arith, b_new))
                ∙ ap (λ (x : Entry). x.vpn2) new_entry))
        ]
        | no a_new ↦ elim (dec_lt b table.valid_count) [
          | yes b_old ↦ absurd (
              clash b b_old (
                sym eq
                ∙ ap (λ x. ((extended table e).entries x).vpn2) {y = table.valid_count}
                    (omega (arith, a_new))
                ∙ ap (λ (x : Entry). x.vpn2) new_entry))
          | no b_new ↦ omega (arith, a_new, b_new)
        ]
      ]

  pub translate-missing : (q : ℕ) → q / 2 ≡ pair_of vaddr → translate table q ≡ none
  translate-missing q pair =
      rw
        (find_pair-none table.valid_count table.entries (q * 2 ^ 12)
          (λ j lj ej. out j lj (omega (arith, ej, pair))))
        refl

  pub translate-new : (q : ℕ) → q / 2 ≡ pair_of vaddr → translate (extended table e) q ≡ half e q
  translate-new q pair =
      rw
        (find_pair-some (table.valid_count + 1) table.valid_count (extended table e).entries
          (q * 2 ^ 12) extended-IsTable.unique (omega arith)
          (ap (λ (x : Entry). x.vpn2) new_entry ∙ own_pair ∙ omega (arith, pair)))
        (ap (λ x. half x q) new_entry)

  no_pair :
      (q : ℕ)
      → ((j : ℕ)
          → 0 ≤ j
          → j < 0 + table.valid_count
          → (table.entries j).vpn2 ≢ pair_of (q * 2 ^ 12))
      → q / 2 ≢ pair_of vaddr
      → (j : ℕ) → j < table.valid_count + 1
      → ((extended table e).entries j).vpn2 ≢ pair_of (q * 2 ^ 12)
  no_pair q all other j lj eq = elim (dec_lt j table.valid_count) [
    | yes below ↦
        all j (omega arith) (omega arith)
          (sym (ap (λ (x : Entry). x.vpn2) (old_entry j below)) ∙ eq)
    | no last ↦ other (
        omega (
          arith,
          eq,
          own_pair,
          ap (λ x. ((extended table e).entries x).vpn2) {x = j} {y = table.valid_count}
              (omega (arith, last)),
          ap (λ (x : Entry). x.vpn2) new_entry,
        ))
  ]

  pub translate-old :
      (q : ℕ) → q ≢ page_of vaddr → translate (extended table e) q ≡ translate table q
  translate-old q ne = elim (ℕ_discrete (q / 2) (pair_of vaddr)) [
    | yes pair ↦ translate-new q pair ∙ other_half q pair ne ∙ sym (translate-missing q pair)
    | no other ↦ elim (find_pair-FindPair table.valid_count 0 table.entries (q * 2 ^ 12)) [
      | hit j a b ej er ↦
          rw
            (
              er,
              find_pair-some (table.valid_count + 1) j (extended table e).entries (q * 2 ^ 12)
                  extended-IsTable.unique (omega arith)
                  (ap (λ (x : Entry). x.vpn2) (old_entry j (omega arith)) ∙ ej),
            )
            (ap (λ x. half x q) (old_entry j (omega arith)))
      | miss all er ↦
          rw
            (
              er,
              find_pair-none (table.valid_count + 1) (extended table e).entries (q * 2 ^ 12)
                  (no_pair q all other),
            )
            refl
    ]
  ]

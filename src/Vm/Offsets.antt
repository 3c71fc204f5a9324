-- ===== src/Vm/Offsets.antt =====
-- `vm_get_vaddr_page_offsets` against the translation of virtual pages.
use mathlib.Core.Path.{subst}
use aalto_buenos.Prelude.{
  ℕ, zero, suc, ◌+◌, ◌*◌, ◌/◌, ◌%◌, ◌^◌, ◌≤◌, ◌<◌, ◌≡◌, ◌≢◌, refl, sym, ap, ◌∙◌, arith, ◌&&◌, not,
  if◌then◌else◌, ◌==◌, Option, none, some, ℕ_discrete, ltb-false, ==-false,
}
use aalto_buenos.Vm.{Entry, Pagetable, pair_of, is_even, offsets_from, get_vaddr_page_offsets}
use aalto_buenos.Vm.Entries.{
  hit, miss, find_pair-FindPair, find_pair-some, find_pair-none, half, translate, IsTable,
}
use aalto_buenos.Vm.Write.{page_of}

-- What one entry for the pair of `vaddr` gives.
abbrev offsets_of : Entry → ℕ → Option (ℕ × ℕ)
offsets_of e vaddr =
    if is_even vaddr && not (e.v0 == 0)
    then some (e.pfn0, e.vpn2 * 2 ^ 13)
    else if e.v1 == 1
    then some (e.pfn1, e.vpn2 * 2 ^ 13 + 2 ^ 12)
    else none

offsets_from-none :
    (n i : ℕ) (entries : ℕ → Entry) (vaddr : ℕ)
    → ((j : ℕ) → i ≤ j → j < i + n → (entries j).vpn2 ≢ pair_of vaddr)
    → offsets_from n i entries vaddr ≡ none
unfolding offsets_from
offsets_from-none zero i entries vaddr out = refl
offsets_from-none (suc n) i entries vaddr out =
    rw
      (
        ==-false (out i (omega arith) (omega arith)),
        offsets_from-none n (i + 1) entries vaddr (λ j a b. out j (omega arith) (omega arith)),
      )
      refl

offsets_from-some :
    (n i j : ℕ) (entries : ℕ → Entry) (vaddr : ℕ)
    → i ≤ j
    → j < i + n
    → (entries j).vpn2 ≡ pair_of vaddr
    → ((m : ℕ) → i ≤ m → m < i + n → m ≢ j → (entries m).vpn2 ≢ pair_of vaddr)
    → offsets_from n i entries vaddr ≡ offsets_of (entries j) vaddr
unfolding offsets_from
offsets_from-some zero i j entries vaddr a b here others = absurd (omega arith)
offsets_from-some (suc n) i j entries vaddr a b here others = elim (ℕ_discrete i j) [
  | yes e ↦
      subst (λ x. offsets_from (suc n) i entries vaddr ≡ offsets_of (entries x) vaddr) e
        (ground (
          arith,
          ap (λ x. (entries x).vpn2) e,
          here,
          offsets_from-none n (i + 1) entries vaddr
              (λ m p q. others m (omega arith) (omega arith) (omega (arith, e))),
        ))
  | no ne ↦ rw (==-false (others i (omega arith) (omega arith) ne)) (
      offsets_from-some n (i + 1) j entries vaddr (omega arith) (omega arith) here
        (λ m p q. others m (omega arith) (omega arith)))
]

-- Page `q` with what it is mapped to, as the function gives it.
abbrev pub located : Option (ℕ × ℕ) → ℕ → Option (ℕ × ℕ)
located none q = none
located (some (pfn, dirty)) q = some (pfn, q * 2 ^ 12)

-- The page itself, or the odd neighbour of an even page that is not mapped.
abbrev pub page_or_neighbour : Pagetable → ℕ → Option (ℕ × ℕ) → Option (ℕ × ℕ)
page_or_neighbour table p (some m) = located (some m) p
page_or_neighbour table p none =
    if p % 2 == 0 then located (translate table (p + 1)) (p + 1) else none

missing_page :
    (table : Pagetable) (vaddr q : ℕ)
    → ((j : ℕ) → 0 ≤ j → j < 0 + table.valid_count → (table.entries j).vpn2 ≢ pair_of vaddr)
    → q / 2 ≡ pair_of vaddr
    → translate table q ≡ none
missing_page table vaddr q out pair =
    rw
      (find_pair-none table.valid_count table.entries (q * 2 ^ 12)
        (λ j lj e. out j (omega arith) (omega arith) (omega (arith, e, pair))))
      refl

module _ {table : Pagetable} (t : IsTable table) (vaddr i : ℕ) (lt : i < table.valid_count)
    (here : (table.entries i).vpn2 ≡ pair_of vaddr) where
  found_page : (q : ℕ) → q / 2 ≡ pair_of vaddr → translate table q ≡ half (table.entries i) q
  found_page q pair =
      rw
        (find_pair-some table.valid_count i table.entries (q * 2 ^ 12) t.unique lt
          (here ∙ omega (arith, pair)))
        refl

  located_half :
      offsets_of (table.entries i) vaddr
      ≡ page_or_neighbour table (page_of vaddr) (translate table (page_of vaddr))
  located_half = elim (ℕ_discrete (page_of vaddr % 2) 0) [
    | yes even ↦ ground (
      arith,
      even,
      here,
      t.bits i lt,
      found_page (page_of vaddr) (omega arith),
      found_page (page_of vaddr + 1) (omega (arith, even)),
    )
    | no odd ↦ ground (arith, odd, here, t.bits i lt, found_page (page_of vaddr) (omega arith))
  ]

  offsets_here :
      offsets_from table.valid_count 0 table.entries vaddr ≡ offsets_of (table.entries i) vaddr
  offsets_here =
      offsets_from-some table.valid_count 0 i table.entries vaddr (omega arith) (omega arith) here
        (λ m a b ne e. ne (t.unique m i (omega arith) lt (e ∙ sym here)))

-- On a well-formed page table and an address of at least 4096, `vm_get_vaddr_page_offsets` gives
-- the frame of the page and the page's address if the page is mapped; for an even page that is not
-- mapped it gives the frame and the address of its odd neighbour if that is mapped; and it gives
-- nothing otherwise.
pub get_vaddr_page_offsets_lem :
    {table : Pagetable} (vaddr : ℕ)
    → IsTable table
    → 2 ^ 12 ≤ vaddr
    → get_vaddr_page_offsets (some table) vaddr
      ≡ page_or_neighbour table (page_of vaddr) (translate table (page_of vaddr))
unfolding get_vaddr_page_offsets
get_vaddr_page_offsets_lem {table} vaddr t le =
    elim (find_pair-FindPair table.valid_count 0 table.entries vaddr) [
      | miss out e ↦ elim (ℕ_discrete (page_of vaddr % 2) 0) [
        | yes even ↦ ground (
          arith,
          le,
          even,
          offsets_from-none table.valid_count 0 table.entries vaddr out,
          missing_page table vaddr (page_of vaddr) out (omega arith),
          missing_page table vaddr (page_of vaddr + 1) out (omega (arith, even)),
        )
        | no odd ↦ ground (
          arith,
          le,
          odd,
          offsets_from-none table.valid_count 0 table.entries vaddr out,
          missing_page table vaddr (page_of vaddr) out (omega arith),
        )
      ]
      | hit i a b here e ↦
          rw (ltb-false le)
            (offsets_here t vaddr i (omega arith) here ∙ located_half t vaddr i (omega arith) here)
    ]

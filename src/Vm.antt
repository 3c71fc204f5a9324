-- ===== src/Vm.antt =====
-- vm/vm.c: the page table of a process, an array of pairs of an even and an odd virtual page, as
-- vm/tlb.h has them. A virtual or physical address is a 32-bit number.
pub mod Entries
pub mod Write
pub mod Extend
pub mod Map
pub mod Dirty
pub mod Offsets
use Prim.Native.Nat.{bit_and, bit_or}
use aalto_buenos.Prelude.{
  ℕ, zero, suc, ◌+◌, ◌-◌, ◌*◌, ◌/◌, ◌%◌, ◌^◌, Bool, true, false, ◌&&◌, ◌||◌, not, if◌then◌else◌,
  ltb, leb, ◌==◌, Option, none, some, Result, ok, panic, assert, ◌>>=◌, ◌>>◌,
}
use aalto_buenos.Prelude.Int.{ℤ, pos, negsuc}
use aalto_buenos.Kmalloc
use aalto_buenos.Kmalloc.{Kmalloc}
use aalto_buenos.Bitmap.{Bitmap}
use aalto_buenos.Pagepool
use aalto_buenos.Pagepool.{Pool}

-- PAGETABLE_ENTRIES
abbrev pub pagetable_entries : ℕ
pagetable_entries = 340

-- `tlb_entry_t`; its cache fields and the dummies are not used.
pub record Entry : Type 0 where
  pub vpn2 : ℕ
  pub asid : ℕ
  pub pfn0 : ℕ
  pub d0 : ℕ
  pub v0 : ℕ
  pub g0 : ℕ
  pub pfn1 : ℕ
  pub d1 : ℕ
  pub v1 : ℕ
  pub g1 : ℕ

-- `pagetable_t`
pub record Pagetable : Type 0 where
  pub asid : ℕ
  pub valid_count : ℕ
  pub entries : ℕ → Entry

-- `vaddr >> 13`, and bit 12 of `vaddr`
abbrev pub pair_of : ℕ → ℕ
pair_of vaddr = vaddr / 2 ^ 13

abbrev pub is_even : ℕ → Bool
is_even vaddr = vaddr / 2 ^ 12 % 2 == 0

abbrev pub set_entry : Pagetable → ℕ → Entry → Pagetable
set_entry table i e = record table { entries = λ j. if i == j then e else table.entries j }

-- `vm_init`, past its check of the size of an entry
unfoldable pub init : ℕ → Bitmap → Kmalloc → Result (Pool × Kmalloc)
init meminfo_pages memory k = do
  (pool, k') ← Pagepool.init meminfo_pages memory k
  ok (pool, Kmalloc.disable k')

-- ADDR_PHYS_TO_KERNEL and ADDR_KERNEL_TO_PHYS
abbrev pub phys_to_kernel : ℕ → ℕ
phys_to_kernel addr = bit_or addr 0x80000000

abbrev pub kernel_to_phys : ℕ → ℕ
kernel_to_phys addr = bit_and addr 0x7fffffff

-- `vm_create_pagetable`: the address of the table and the table, or no table. `memory` is what the
-- entries hold before.
unfoldable pub create_pagetable : Pool → (ℕ → Entry) → ℕ → Result (Option (ℕ × Pagetable) × Pool)
create_pagetable pool memory asid = do
  (addr, pool') ← Pagepool.get_phys_page pool
  if addr == 0
      then ok (none, pool')
      else ok (
        some (phys_to_kernel addr, record { asid = asid; valid_count = 0; entries = memory }),
        pool',
      )

unfoldable pub destroy_pagetable : Pool → ℕ → Result Pool
destroy_pagetable pool address = Pagepool.free_phys_page pool (kernel_to_phys address)

-- The first entry from `i` on, of `n`, that maps the pair of `vaddr`.
unfoldable pub find_pair : ℕ → ℕ → (ℕ → Entry) → ℕ → Option ℕ
find_pair zero i entries vaddr = none
find_pair (suc n) i entries vaddr =
    let rest = find_pair n (i + 1) entries vaddr in
    if (entries i).vpn2 == pair_of vaddr then some i else rest

-- The body of the loop of `vm_map` for the entry that it finds.
unfoldable pub map_pair : Pagetable → ℕ → ℕ → ℕ → ℕ → ℤ × Pagetable
map_pair table i physaddr vaddr dirty =
    let e = table.entries i in
    if is_even vaddr
    then if e.v0 == 1 then (negsuc 0, table) else (
      pos 1,
      set_entry table i (record e { pfn0 = physaddr / 2 ^ 12; v0 = 1; g0 = 0; d0 = dirty }),
    )
    else if e.v1 == 1
    then (negsuc 0, table)
    else (
      pos 1,
      set_entry table i (record e { pfn1 = physaddr / 2 ^ 12; v1 = 1; g1 = 0; d1 = dirty }),
    )

-- `vm_map` past its loop
unfoldable pub map_new : Pagetable → ℕ → ℕ → ℕ → ℤ × Pagetable
map_new table physaddr vaddr dirty =
    let count = table.valid_count in
    let e = record (table.entries count) { vpn2 = pair_of vaddr; asid = table.asid % 2 ^ 8 } in
    let even = record e { pfn0 = physaddr / 2 ^ 12; d0 = dirty; v0 = 1; g0 = 0; v1 = 0 } in
    let odd = record e { pfn1 = physaddr / 2 ^ 12; d1 = dirty; v1 = 1; g1 = 0; v0 = 0 } in
    if leb pagetable_entries count then (negsuc 0, table) else (
      pos 1,
      record (set_entry table count (if is_even vaddr then even else odd)) {
        valid_count = count + 1;
      },
    )

unfoldable pub map : Pagetable → ℕ → ℕ → ℕ → Result (ℤ × Pagetable)
unfolding find_pair map_pair map_new
map table physaddr vaddr dirty = do
  assert (dirty == 0 || dirty == 1)
  elim (find_pair table.valid_count 0 table.entries vaddr) [
    | some i ↦ ok (map_pair table i physaddr vaddr dirty)
    | none ↦ ok (map_new table physaddr vaddr dirty)
  ]

-- The loop of `vm_get_vaddr_page_offsets`: physical page number and virtual address of the page.
unfoldable pub offsets_from : ℕ → ℕ → (ℕ → Entry) → ℕ → Option (ℕ × ℕ)
offsets_from zero i entries vaddr = none
offsets_from (suc n) i entries vaddr =
    let e = entries i in
    let rest = offsets_from n (i + 1) entries vaddr in
    if e.vpn2 == pair_of vaddr
    then if is_even vaddr && not (e.v0 == 0)
      then some (e.pfn0, e.vpn2 * 2 ^ 13)
      else if e.v1 == 1
      then some (e.pfn1, e.vpn2 * 2 ^ 13 + 2 ^ 12)
      else rest
    else rest

-- Nothing where the function returns 0; a table that is NULL has no pages.
unfoldable pub get_vaddr_page_offsets : Option Pagetable → ℕ → Option (ℕ × ℕ)
unfolding offsets_from
get_vaddr_page_offsets none vaddr = none
get_vaddr_page_offsets (some table) vaddr =
    if ltb vaddr (2 ^ 12) then none else offsets_from table.valid_count 0 table.entries vaddr

-- `vm_get_entry_by_vaddr`: the index of the entry
unfoldable pub get_entry_by_vaddr : Option Pagetable → ℕ → Option ℕ
unfolding find_pair
get_entry_by_vaddr none vaddr = none
get_entry_by_vaddr (some table) vaddr =
    if ltb vaddr (2 ^ 12) then none else find_pair table.valid_count 0 table.entries vaddr

-- The loop of `vm_unmap`, over the `n` entries from `i` on.
unfoldable pub unmap_from : ℕ → ℕ → Pagetable → Pool → ℕ → Result (Pagetable × Pool)
unmap_from zero i table pool vaddr = ok (table, pool)
unmap_from (suc n) i table pool vaddr =
    let e = table.entries i in
    if (table.entries i).vpn2 == pair_of vaddr
    then if is_even vaddr
      then (do
        pool' ← Pagepool.free_phys_page pool (e.pfn0 * 2 ^ 12)
        unmap_from n (i + 1) (set_entry table i (record e { v0 = 0 })) pool' vaddr)
      else (do
        pool' ← Pagepool.free_phys_page pool (e.pfn1 * 2 ^ 12)
        unmap_from n (i + 1) (set_entry table i (record e { v1 = 0 })) pool' vaddr)
    else unmap_from n (i + 1) table pool vaddr

unfoldable pub unmap : Pagetable → Pool → ℕ → Result (Pagetable × Pool)
unfolding unmap_from
unmap table pool vaddr = unmap_from table.valid_count 0 table pool vaddr

unfoldable pub set_dirty : Pagetable → ℕ → ℕ → Result Pagetable
unfolding find_pair
set_dirty table vaddr dirty = do
  assert (dirty == 0 || dirty == 1)
  elim (find_pair table.valid_count 0 table.entries vaddr) [
    | none ↦ panic
    | some i ↦
        (let e = table.entries i in
          if is_even vaddr
          then if e.v0 == 0 then panic else ok (set_entry table i (record e { d0 = dirty }))
          else if e.v1 == 0
          then panic
          else ok (set_entry table i (record e { d1 = dirty })))
  ]

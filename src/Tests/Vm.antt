-- ===== src/Tests/Vm.antt =====
-- vm/vm.c on a page table with one pair.
use aalto_buenos.Prelude.{◌≡◌, arith, refl, some}
use aalto_buenos.Vm.{Pagetable, map, set_dirty, get_vaddr_page_offsets}
use aalto_buenos.Vm.Entries.{IsTable, translate}
use aalto_buenos.Vm.Write.{page_of}
use aalto_buenos.Vm.Map.{MapOutcome, map_lem}
use aalto_buenos.Vm.Dirty.{DirtyOutcome, set_dirty_lem}
use aalto_buenos.Vm.Offsets.{page_or_neighbour, get_vaddr_page_offsets_lem}

-- Virtual page 5 is mapped to physical page 9, and page 4 to none.
abbrev one_page : Pagetable
one_page = record {
  asid = 3;
  valid_count = 1;
  entries = λ i. record {
    vpn2 = 2;
    asid = 3;
    pfn0 = 0;
    d0 = 0;
    v0 = 0;
    g0 = 0;
    pfn1 = 9;
    d1 = 1;
    v1 = 1;
    g1 = 0;
  };
}

one_page-IsTable : IsTable one_page
one_page-IsTable = record {
  room = omega arith;
  unique = λ i j a b e. omega arith;
  bits = λ i a. (omega arith, omega arith);
}

map_example : MapOutcome one_page 0x7000 0x4000 1 (map one_page 0x7000 0x4000 1)
map_example = map_lem 0x7000 0x4000 1 one_page-IsTable (omega arith)

set_dirty_example : DirtyOutcome one_page 0x5010 0 (set_dirty one_page 0x5010 0)
set_dirty_example = set_dirty_lem 0x5010 0 one_page-IsTable (omega arith)

get_vaddr_page_offsets_example :
    get_vaddr_page_offsets (some one_page) 0x4000
    ≡ page_or_neighbour one_page (page_of 0x4000) (translate one_page (page_of 0x4000))
get_vaddr_page_offsets_example = get_vaddr_page_offsets_lem 0x4000 one_page-IsTable (omega arith)

-- The unmapped page 4 is found at the frame of page 5.
offsets_of_neighbour : get_vaddr_page_offsets (some one_page) 0x4000 ≡ some (9, 0x5000)
unfolding get_vaddr_page_offsets
offsets_of_neighbour = refl

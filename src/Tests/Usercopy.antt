-- ===== src/Tests/Usercopy.antt =====
-- proc/syscall_helpers.c with 300 bytes that stand in two pages.
use aalto_buenos.Prelude.{
  ◌*◌, ◌/◌, ◌≡◌, refl, some, ok, true, false, ◌^◌, ◌%◌, arith, dec_lt, ltb, ◌==◌,
}
use aalto_buenos.Kmalloc.{page_size}
use aalto_buenos.Vm.{Entry, Pagetable, get_vaddr_page_offsets, offsets_from, is_even}
use aalto_buenos.Libc.{Memory}
use aalto_buenos.Syscalls.{read_data}
use aalto_buenos.Syscalls.Copying.{AreMapped, read_data_lem}
use aalto_buenos.Libc.Memory.{segment}

-- the pages at 8192 and 12288
abbrev two_pages : Entry
two_pages = record {
  vpn2 = 1;
  asid = 0;
  pfn0 = 40;
  d0 = 1;
  v0 = 1;
  g0 = 0;
  pfn1 = 17;
  d1 = 1;
  v1 = 1;
  g1 = 0;
}

abbrev table : Pagetable
table = record { asid = 0; valid_count = 1; entries = λ i. two_pages }

table-AreMapped : AreMapped (some table) 12000 300
table-AreMapped a lo hi =
    let user : ltb a (2 ^ 12) ≡ false = ground arith in
    let first_pair : a / 2 ^ 13 ≡ 1 = omega arith in
    let pair : (1 == a / 2 ^ 13) ≡ true = ground (arith, first_pair) in
    elim (dec_lt a 12288) [
      | yes lt ↦
          let half : a / 2 ^ 12 % 2 ≡ 0 = omega arith in
          let even : is_even a ≡ true = ground (arith, half) in
          let page : a / page_size * page_size ≡ 8192 = omega arith in
          (40, unfold get_vaddr_page_offsets offsets_from in rw (user, pair, even, page) refl)
      | no ge ↦
          let half : a / 2 ^ 12 % 2 ≡ 1 = omega arith in
          let odd : is_even a ≡ false = ground (arith, half) in
          let page : a / page_size * page_size ≡ 12288 = omega arith in
          (17, unfold get_vaddr_page_offsets offsets_from in rw (user, pair, odd, page) refl)
    ]

abbrev bytes : Memory
bytes a = a

read_data_example : read_data 3 (some table) 12000 300 bytes ≡ ok (true, segment bytes 12000 300)
read_data_example =
    read_data_lem 0 (some table) 12000 300 bytes (omega arith) (omega arith) table-AreMapped

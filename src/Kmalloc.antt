-- ===== src/Kmalloc.antt =====
-- kernel/kmalloc.c: permanent kernel memory, handed out upwards from the end of the kernel image
-- until the page pool takes over. Addresses are `uint32_t` values.
pub mod Bounds
use Prim.Native.Nat.{bit_and}
use aalto_buenos.Prelude.{
  ℕ, suc, ◌+◌, ◌-◌, ◌*◌, ◌/◌, ◌%◌, ◌^◌, Bool, true, false, ◌||◌, if◌then◌else◌, ltb, ◌==◌, Result,
  ok, panic,
}
use aalto_buenos.Prelude.Int.{ℤ, pos, negsuc}

abbrev pub page_size : ℕ
page_size = 4096

-- start of the kernel's unmapped segment
abbrev pub kernel_base : ℕ
kernel_base = 0x80000000

-- `free_area_start` and `memory_end`
pub record Kmalloc : Type 0 where
  pub free_area_start : ℕ
  pub memory_end : ℕ

-- the alignment step that `kmalloc_init` and `kmalloc` share
unfoldable pub align : ℕ → ℕ
align a = if bit_and a 3 == 0 then a else bit_and ((a + 4) % 2 ^ 32) 0xfffffffc

-- The argument is what the loop over the I/O descriptors leaves in `num_pages`: the word of the
-- MemInfo device, or 0 where no descriptor has its type. The device is not part of the program.
unfoldable pub get_numpages : ℕ → Result ℕ
get_numpages meminfo_pages = if meminfo_pages == 0 then panic else ok meminfo_pages

unfoldable pub get_reserved_pages : Kmalloc → ℕ
get_reserved_pages k =
    let area = (k.free_area_start + 2 ^ 32 - kernel_base) % 2 ^ 32 in
    if area % page_size == 0 then area / page_size else area / page_size + 1

unfoldable pub disable : Kmalloc → Kmalloc
disable k = record k { free_area_start = 0xffffffff }

-- `kernel_end` is the address of KERNEL_ENDS_HERE, which the linker sets.
unfoldable pub init : ℕ → ℕ → Kmalloc
unfolding align
init num_pages kernel_end = record {
  memory_end = (kernel_base + num_pages * page_size % 2 ^ 32) % 2 ^ 32;
  free_area_start = align kernel_end;
}

unfoldable pub kmalloc : Kmalloc → ℤ → Result (ℕ × Kmalloc)
unfolding align
kmalloc k (negsuc _) = panic
kmalloc k (pos bytes) =
    let free = (k.free_area_start + bytes) % 2 ^ 32 in
    if k.free_area_start == 0xffffffff || k.free_area_start == 0 || ltb k.memory_end free
    then panic
    else ok (k.free_area_start, record k { free_area_start = align free })

-- ===== src/Pagepool.antt =====
-- vm/pagepool.c: the pool of physical pages, a bitmap with a count of the free pages. Each
-- operation is one critical section under `pagepool_slock`.
pub mod Count
pub mod Invariant
pub mod Init
use aalto_buenos.Prelude.{
  ℕ, zero, suc, ◌+◌, ◌-◌, ◌*◌, ◌/◌, ◌%◌, ◌^◌, Bool, true, false, if◌then◌else◌, ltb, leb, ◌==◌, not,
  Result, ok, panic, hang, assert, ◌>>=◌, ◌>>◌,
}
use aalto_buenos.Prelude.Int.{
  ℤ, pos, negsuc, is_positive, is_negative, eq_ℤ, sub_ℕ, incr, decr, to_index,
}
use aalto_buenos.Bitmap
use aalto_buenos.Bitmap.{Bitmap}
use aalto_buenos.Kmalloc
use aalto_buenos.Kmalloc.{Kmalloc, page_size}

pub record Pool : Type 0 where
  pub free_pages : Bitmap
  pub num_pages : ℕ
  pub num_free_pages : ℤ
  pub static_end : ℕ

-- `for (i = i0; i < i0 + n; i++) bitmap_set(pagepool_free_pages, i, 1);`
unfoldable pub reserve : ℕ → ℕ → Bitmap → Result Bitmap
reserve zero i bitmap = ok bitmap
reserve (suc n) i bitmap = Bitmap.set_bit bitmap (pos i) 1 >>= reserve n (i + 1)

-- `meminfo_pages` is what the MemInfo device says, and `memory` is what the area that `kmalloc`
-- returns holds before `bitmap_init`.
unfoldable pub init : ℕ → Bitmap → Kmalloc → Result (Pool × Kmalloc)
unfolding reserve
init meminfo_pages memory k = do
  num_pages ← Kmalloc.get_numpages meminfo_pages
  area ← Kmalloc.kmalloc k (pos (Bitmap.sizeof num_pages))
  bitmap ← Bitmap.init memory (pos num_pages)
  let num_res_pages = Kmalloc.get_reserved_pages area.1
  bitmap' ← reserve num_res_pages 0 bitmap
  ok (
    record {
      free_pages = bitmap';
      num_pages = num_pages;
      num_free_pages = sub_ℕ num_pages num_res_pages;
      static_end = num_res_pages;
    },
    area.1,
  )

-- A page number as the address that is returned.
abbrev pub page_address : ℕ → ℕ
page_address i = i * page_size % 2 ^ 32

unfoldable pub get_phys_page : Pool → Result (ℕ × Pool)
get_phys_page pool =
    if is_positive pool.num_free_pages
    then (do
      r ← Bitmap.findnset pool.free_pages (pos pool.num_pages)
      let left = decr pool.num_free_pages
      assert (not (is_negative r.0))
      assert (not (is_negative left))
      ok (page_address (to_index r.0), record pool { free_pages = r.1; num_free_pages = left }))
    else ok (page_address 0, pool)

unfoldable pub free_phys_page : Pool → ℕ → Result Pool
free_phys_page pool phys_addr = do
  let i = phys_addr / page_size
  assert (leb pool.static_end i)
  taken ← Bitmap.get pool.free_pages (pos i)
  assert (taken == 1)
  bitmap ← Bitmap.set_bit pool.free_pages (pos i) 0
  ok (record pool { free_pages = bitmap; num_free_pages = incr pool.num_free_pages })

unfoldable pub get_free_pages : Pool → ℤ
get_free_pages pool = pool.num_free_pages

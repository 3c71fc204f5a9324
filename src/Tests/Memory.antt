-- ===== src/Tests/Memory.antt =====
-- lib/bitmap.c, kernel/kmalloc.c and vm/pagepool.c at concrete inputs.
use aalto_buenos.Prelude.{
  ℕ, zero, suc, ◌+◌, ◌-◌, ◌*◌, ◌≤◌, ◌<◌, ◌≡◌, arith, refl, [], ◌∷◌, ok, panic,
}
use aalto_buenos.Prelude.Int.{ℤ, pos}
use aalto_buenos.Bitmap.{Bitmap, get_at, findnset, sizeof}
use aalto_buenos.Bitmap.Bits.{IsWords}
use aalto_buenos.Bitmap.Find.{MarkOutcome, findnset_lem}
use aalto_buenos.Kmalloc.{Kmalloc, kmalloc, kernel_base, page_size}
use aalto_buenos.Kmalloc.Bounds.{IsReady, kmalloc_lem}
use aalto_buenos.Pagepool
use aalto_buenos.Pagepool.{Pool, get_phys_page, free_phys_page}
use aalto_buenos.Pagepool.Invariant.{IsPool, Changed, Got, get_phys_page_lem, free_phys_page_lem}
use aalto_buenos.Pagepool.Count.{count_clear}
use aalto_buenos.Pagepool.Init.{Fits, init_pool}

-- The bits 0, 1 and 2 are set.
abbrev some_bits : Bitmap
some_bits = 7 ∷ []

some_bits-IsWords : IsWords some_bits
some_bits-IsWords = (omega arith, tt)

findnset_example :
    (r : ℤ × Bitmap) × (findnset some_bits (pos 20) ≡ ok r) × MarkOutcome some_bits 20 r
findnset_example = findnset_lem some_bits 20 some_bits-IsWords (omega arith)

-- Four pages of memory, the first of which holds the kernel image.
abbrev small_memory : Kmalloc
small_memory = record { free_area_start = kernel_base + 4096; memory_end = kernel_base + 4 * 4096 }

small_memory-IsReady : IsReady small_memory
small_memory-IsReady = record {
  aligned = refl;
  above_base = omega arith;
  end_fits = omega arith;
  start_fits = omega arith;
}

kmalloc_example :
    (small_memory.free_area_start + 10 ≤ small_memory.memory_end
      → (k' : Kmalloc) × (kmalloc small_memory (pos 10) ≡ ok (small_memory.free_area_start, k'))
        × (small_memory.free_area_start + 10 ≤ k'.free_area_start)
        × (k'.memory_end ≡ small_memory.memory_end)
        × IsReady k')
    × (small_memory.memory_end < small_memory.free_area_start + 10
        → kmalloc small_memory (pos 10) ≡ panic)
kmalloc_example = kmalloc_lem small_memory 10 small_memory-IsReady (omega arith)

small_memory-Fits : Fits 4 some_bits small_memory
small_memory-Fits = record {
  ready = small_memory-IsReady;
  above = omega arith;
  some_pages = omega arith;
  segment = omega arith;
  end = refl;
  bitmap_fits = unfold sizeof in omega arith;
  words = some_bits-IsWords;
  room = unfold sizeof in omega arith;
}

init_pool_example :
    (p : Pool) × (k' : Kmalloc) × (Pagepool.init 4 some_bits small_memory ≡ ok (p, k'))
    × IsPool p
    × (p.num_pages ≡ 4)
    × (p.num_free_pages ≡ pos (4 - p.static_end))
    × (small_memory.free_area_start + sizeof 4 ≤ k'.free_area_start)
    × (k'.free_area_start ≤ kernel_base + p.static_end * page_size)
    × (kernel_base + p.static_end * page_size < k'.free_area_start + page_size)
init_pool_example = init_pool small_memory-Fits

-- Eight pages: the kernel's are 0 and 1, and 2 is reserved.
abbrev small_pool : Pool
small_pool = record {
  free_pages = some_bits;
  num_pages = 8;
  num_free_pages = pos 5;
  static_end = 2;
}

kernel_pages : (q : ℕ) → q < 2 → get_at some_bits q ≡ 1
unfolding get_at
kernel_pages zero lt = refl
kernel_pages (suc zero) lt = refl
kernel_pages (suc (suc q)) lt = absurd (omega arith)

small_pool-IsPool : IsPool small_pool
small_pool-IsPool = record {
  words = some_bits-IsWords;
  room = omega arith;
  addressable = omega arith;
  kernel_page = omega arith;
  reserved = kernel_pages;
  counted = unfold count_clear get_at in refl;
}

get_phys_page_example : Got small_pool
get_phys_page_example = get_phys_page_lem small_pool small_pool-IsPool

free_phys_page_example :
    (2 ≤ 2
      → get_at some_bits 2 ≡ 1
      → (pool' : Pool) × (free_phys_page small_pool (2 * 4096) ≡ ok pool')
        × Changed small_pool 2 1 pool'
        × IsPool pool')
    × (2 < 2 → free_phys_page small_pool (2 * 4096) ≡ panic)
    × (get_at some_bits 2 ≡ 0 → free_phys_page small_pool (2 * 4096) ≡ panic)
free_phys_page_example = free_phys_page_lem small_pool 2 small_pool-IsPool (omega arith)

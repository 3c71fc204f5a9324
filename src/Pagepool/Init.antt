-- ===== src/Pagepool/Init.antt =====
-- `pagepool_init` and the invariant of the pool.
use aalto_buenos.Prelude.{
  ℕ, zero, suc, ◌+◌, ◌-◌, ◌*◌, ◌/◌, ◌%◌, ◌^◌, ◌≤◌, ◌<◌, ◌≡◌, refl, ap, ◌∙◌, arith, if◌then◌else◌,
  ltb, leb, ◌&&◌, length, ok, ltb-true,
}
use aalto_buenos.Prelude.Int.{pos, sub_ℕ}
use aalto_buenos.Bitmap
use aalto_buenos.Bitmap.{Bitmap, get_at, set_at, sizeof}
use aalto_buenos.Bitmap.Bits.{IsWords, get_at-set_at, length-set_at, set_at-IsWords, init_lem}
use aalto_buenos.Kmalloc
use aalto_buenos.Kmalloc.{Kmalloc, page_size, kernel_base}
use aalto_buenos.Kmalloc.Bounds.{IsReady, align_lem}
use aalto_buenos.Pagepool.{Pool, init, reserve}
use aalto_buenos.Pagepool.Count.{count_clear, count_clear-above}
use aalto_buenos.Pagepool.Invariant.{IsPool}

-- the bitmap that the loop of `pagepool_init` leaves
reserved_bits : ℕ → ℕ → Bitmap → Bitmap
reserved_bits zero i bm = bm
reserved_bits (suc n) i bm = reserved_bits n (i + 1) (set_at bm i 1)

length-reserved_bits : (n i : ℕ) (bm : Bitmap) → length (reserved_bits n i bm) ≡ length bm
unfolding reserved_bits
length-reserved_bits zero i bm = refl
length-reserved_bits (suc n) i bm =
    omega (arith, length-reserved_bits n (i + 1) (set_at bm i 1), length-set_at bm i 1)

reserve-reserved_bits :
    (n i : ℕ) (bm : Bitmap) → n + i ≤ 32 * length bm → reserve n i bm ≡ ok (reserved_bits n i bm)
unfolding reserve reserved_bits Bitmap.set_bit
reserve-reserved_bits zero i bm h = refl
reserve-reserved_bits (suc n) i bm h =
    let within : i / 32 < length bm = omega arith in
    rw (ltb-true within)
      (reserve-reserved_bits n (i + 1) (set_at bm i 1) (omega (arith, length-set_at bm i 1)))

reserved_bits-IsWords : (n i : ℕ) (bm : Bitmap) → IsWords bm → IsWords (reserved_bits n i bm)
unfolding reserved_bits
reserved_bits-IsWords zero i bm ws = ws
reserved_bits-IsWords (suc n) i bm ws =
    reserved_bits-IsWords n (i + 1) (set_at bm i 1) (set_at-IsWords bm i 1 ws)

get_at-reserved_bits :
    (n i q : ℕ) (bm : Bitmap)
    → n + i ≤ 32 * length bm
    → get_at (reserved_bits n i bm) q ≡ (if leb i q && ltb q (n + i) then 1 else get_at bm q)
unfolding reserved_bits
get_at-reserved_bits zero i q bm h = ground arith
get_at-reserved_bits (suc n) i q bm h = ground (
  arith,
  get_at-reserved_bits n (i + 1) q (set_at bm i 1) (omega (arith, length-set_at bm i 1)),
  get_at-set_at bm i q 1 (omega arith) (omega arith),
)

sizeof_bits : (n : ℕ) → n ≤ 8 * sizeof n
unfolding sizeof
sizeof_bits n = omega arith

-- The allocator is ready below the end of `num_pages` pages of memory, and the bitmap fits.
pub record Fits (num_pages : ℕ) (memory : Bitmap) (k : Kmalloc) : Type 0 where
  pub ready : IsReady k
  pub above : kernel_base < k.free_area_start
  pub some_pages : 0 < num_pages
  pub segment : num_pages ≤ 2 ^ 17
  pub end : k.memory_end ≡ kernel_base + num_pages * page_size
  pub bitmap_fits : k.free_area_start + sizeof num_pages ≤ k.memory_end
  pub words : IsWords memory
  pub room : sizeof num_pages ≤ 4 * length memory

module _ {num_pages : ℕ} {memory : Bitmap} {k : Kmalloc} (fits : Fits num_pages memory k) where
  area : Kmalloc
  area = record k {
    free_area_start = Kmalloc.align ((k.free_area_start + sizeof num_pages) % 2 ^ 32);
  }

  reserved_pages : ℕ
  reserved_pages = Kmalloc.get_reserved_pages area

  -- The bitmap lies in the memory, so that the reserved pages do too.
  reserved_pages_bounds : (0 < reserved_pages) × (reserved_pages ≤ num_pages)
  unfolding reserved_pages area Kmalloc.get_reserved_pages
  reserved_pages_bounds =
      ground
        (arith, fits, align_lem ((k.free_area_start + sizeof num_pages) % 2 ^ 32) (omega arith))

  -- The bitmap lies in the area handed out, and the reserved pages are those that it reaches into.
  area_bounds :
      (k.free_area_start + sizeof num_pages ≤ area.free_area_start)
      × (area.free_area_start ≤ kernel_base + reserved_pages * page_size)
      × (kernel_base + reserved_pages * page_size < area.free_area_start + page_size)
  unfolding reserved_pages area Kmalloc.get_reserved_pages
  area_bounds =
      ground
        (arith, fits, align_lem ((k.free_area_start + sizeof num_pages) % 2 ^ 32) (omega arith))

  room_for_pages : num_pages ≤ 32 * length memory
  room_for_pages = omega (arith, fits.room, sizeof_bits num_pages)

  bitmap :
      (bm : Bitmap) × (Bitmap.init memory (pos num_pages) ≡ ok bm)
      × (length bm ≡ length memory)
      × IsWords bm
      × ((q : ℕ) → q < num_pages → get_at bm q ≡ 0)
  bitmap = init_lem memory num_pages fits.words fits.room

  pool : Pool
  pool = record {
    free_pages = reserved_bits reserved_pages 0 bitmap.0;
    num_pages = num_pages;
    num_free_pages = sub_ℕ num_pages reserved_pages;
    static_end = reserved_pages;
  }

  reserve_bit :
      (q : ℕ)
      → get_at (reserved_bits reserved_pages 0 bitmap.0) q
        ≡ (if ltb q reserved_pages then 1 else get_at bitmap.0 q)
  reserve_bit q = ground (
    arith,
    get_at-reserved_bits reserved_pages 0 q bitmap.0
        (omega (arith, bitmap.2, room_for_pages, reserved_pages_bounds)),
  )

  count_clear-reserved_bits :
      count_clear (reserved_bits reserved_pages 0 bitmap.0) num_pages ≡ num_pages - reserved_pages
  count_clear-reserved_bits =
      let e : num_pages ≡ num_pages - reserved_pages + reserved_pages =
        omega (arith, reserved_pages_bounds) in
      ap (count_clear (reserved_bits reserved_pages 0 bitmap.0)) e
      ∙ count_clear-above (reserved_bits reserved_pages 0 bitmap.0) reserved_pages
          (num_pages - reserved_pages) (λ q h. ground (arith, reserve_bit q))
          (λ q a b.
            ground (arith, reserve_bit q, bitmap.4 q (omega (arith, reserved_pages_bounds))))

  pool-IsPool : IsPool pool
  unfolding pool
  pool-IsPool = record {
    words = reserved_bits-IsWords reserved_pages 0 bitmap.0 bitmap.3;
    room = omega (arith, room_for_pages, bitmap.2, length-reserved_bits reserved_pages 0 bitmap.0);
    addressable = omega (arith, fits.segment);
    kernel_page = reserved_pages_bounds.0;
    reserved = λ q h. ground (arith, reserve_bit q);
    counted = ground (arith, reserved_pages_bounds, count_clear-reserved_bits);
  }

  init-eq : init num_pages memory k ≡ ok (pool, area)
  unfolding init Kmalloc.get_numpages Kmalloc.kmalloc area reserved_pages pool
  init-eq = ground (
    arith,
    fits,
    bitmap.1,
    reserve-reserved_bits reserved_pages 0 bitmap.0
        (omega (arith, bitmap.2, room_for_pages, reserved_pages_bounds)),
  )

  -- Where memory ends with the last page and the bitmap fits it, `pagepool_init` succeeds and makes
  -- a well-formed pool that has every page and as many free ones as are not statically reserved;
  -- the bitmap lies in the area that `kmalloc` has handed out, and the reserved pages are exactly
  -- those that reach up to the end of this area.
  pub init_pool :
      (p : Pool) × (k' : Kmalloc) × (init num_pages memory k ≡ ok (p, k'))
      × IsPool p
      × (p.num_pages ≡ num_pages)
      × (p.num_free_pages ≡ pos (num_pages - p.static_end))
      × (k.free_area_start + sizeof num_pages ≤ k'.free_area_start)
      × (k'.free_area_start ≤ kernel_base + p.static_end * page_size)
      × (kernel_base + p.static_end * page_size < k'.free_area_start + page_size)
  unfolding pool
  init_pool = (
    pool,
    area,
    init-eq,
    pool-IsPool,
    refl,
    ground (arith, reserved_pages_bounds),
    area_bounds.0,
    area_bounds.1,
    area_bounds.2,
  )

-- ===== src/Kmalloc/Bounds.antt =====
-- The areas that `kmalloc` hands out: their alignment, order and bounds.
use aalto_buenos.Prelude.{ℕ, ◌+◌, ◌-◌, ◌%◌, ◌^◌, ◌≤◌, ◌<◌, ◌≡◌, arith, ok, panic}
use aalto_buenos.Prelude.Int.{pos}
use aalto_buenos.Prelude.Masks.{bit_and-three, bit_and-align}
use aalto_buenos.Kmalloc.{Kmalloc, align, kmalloc, kernel_base}

pub align_lem : (a : ℕ) → a < 2 ^ 32 - 4 → (align a % 4 ≡ 0) × (a ≤ align a) × (align a < a + 4)
unfolding align
align_lem a h =
    ground (arith, bit_and-three a (omega arith), bit_and-align ((a + 4) % 2 ^ 32) (omega arith))

-- The free area starts at a word boundary, is not exhausted, and the memory ends below the last
-- word of the address space.
pub record IsReady (k : Kmalloc) : Type 0 where
  pub aligned : k.free_area_start % 4 ≡ 0
  pub above_base : kernel_base ≤ k.free_area_start
  pub end_fits : k.memory_end < 2 ^ 32 - 4
  pub start_fits : k.free_area_start < 2 ^ 32

-- Where the free area is word aligned and the request does not run over the end of the address
-- space, `kmalloc` of a size that is not negative succeeds exactly when the request fits below the
-- end of memory, returns the start of the free area, and leaves an aligned free area at or behind
-- the end of the request; otherwise it panics.
pub kmalloc_lem :
    (k : Kmalloc) (bytes : ℕ)
    → IsReady k
    → k.free_area_start + bytes < 2 ^ 32
    → (k.free_area_start + bytes ≤ k.memory_end
        → (k' : Kmalloc) × (kmalloc k (pos bytes) ≡ ok (k.free_area_start, k'))
          × (k.free_area_start + bytes ≤ k'.free_area_start)
          × (k'.memory_end ≡ k.memory_end)
          × IsReady k')
      × (k.memory_end < k.free_area_start + bytes → kmalloc k (pos bytes) ≡ panic)
unfolding kmalloc
kmalloc_lem k bytes r h = (fits, ground arith)
  where
    free : ℕ
    free = k.free_area_start + bytes

    fits :
        k.free_area_start + bytes ≤ k.memory_end
        → (k' : Kmalloc) × (kmalloc k (pos bytes) ≡ ok (k.free_area_start, k'))
          × (k.free_area_start + bytes ≤ k'.free_area_start)
          × (k'.memory_end ≡ k.memory_end)
          × IsReady k'
    fits le = (
      record k { free_area_start = align ((k.free_area_start + bytes) % 2 ^ 32) },
      ground arith,
      omega (arith, align_lem ((k.free_area_start + bytes) % 2 ^ 32) (omega arith)),
      ground arith,
      omega (arith, align_lem ((k.free_area_start + bytes) % 2 ^ 32) (omega arith)),
    )

-- `kmalloc` of exactly the bytes that are left up to the end of the 32-bit address space succeeds
-- although they do not fit the memory, and leaves a free area that starts at 0: the sum in its test
-- wraps around.
pub kmalloc_wraps :
    (k : Kmalloc)
    → IsReady k
    → kernel_base < k.free_area_start
    → kmalloc k (pos (2 ^ 32 - k.free_area_start))
      ≡ ok (k.free_area_start, record k { free_area_start = 0 })
unfolding kmalloc align
kmalloc_wraps k r above = ground arith

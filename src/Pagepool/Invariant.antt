-- ===== src/Pagepool/Invariant.antt =====
-- The invariant of the page pool, its count and its bitmap, under its operations.
use aalto_buenos.Prelude.{
  ℕ, zero, suc, ◌+◌, ◌-◌, ◌*◌, ◌/◌, ◌^◌, ◌≤◌, ◌<◌, ◌≡◌, ◌≢◌, refl, ap, ◌∙◌, arith, length, ok,
  panic, ℕ_discrete, dec_lt,
}
use aalto_buenos.Prelude.Int.{ℤ, pos}
use aalto_buenos.Bitmap
use aalto_buenos.Bitmap.{Bitmap, get_at, set_at, findnset, sizeof}
use aalto_buenos.Bitmap.Bits.{IsWords, get_at-lt, get_at-set_at, length-set_at, set_at-IsWords}
use aalto_buenos.Bitmap.Find.{findnset-Found, FindOutcome, taken, none_left}
use aalto_buenos.Kmalloc.{page_size}
use aalto_buenos.Pagepool.{Pool, get_phys_page, free_phys_page, page_address}
use aalto_buenos.Pagepool.Count.{
  count_clear, count_clear-set_at, count_clear-pos, count_clear-eq-zero,
}

-- The kernel image takes at least the first page, so that address 0 names no free page.
pub record IsPool (pool : Pool) : Type 0 where
  pub words : IsWords pool.free_pages
  pub room : pool.num_pages ≤ 32 * length pool.free_pages
  pub addressable : pool.num_pages ≤ 2 ^ 20
  pub kernel_page : 0 < pool.static_end
  pub reserved : (q : ℕ) → q < pool.static_end → get_at pool.free_pages q ≡ 1
  pub counted : pool.num_free_pages ≡ pos (count_clear pool.free_pages pool.num_pages)

-- The pool with page `p` marked `v`, and its count one lower or higher.
abbrev marked : Pool → ℕ → ℕ → ℕ → Pool
marked pool p v n = record pool { free_pages = set_at pool.free_pages p v; num_free_pages = pos n }

marked-IsPool :
    {pool : Pool} (p v n : ℕ)
    → IsPool pool
    → p < pool.num_pages
    → pool.static_end ≤ p
    → v < 2
    → n + v ≡ count_clear pool.free_pages pool.num_pages + get_at pool.free_pages p
    → IsPool (marked pool p v n)
marked-IsPool {pool} p v n i lt above hv e = record {
  words = set_at-IsWords pool.free_pages p v i.words;
  room = omega (arith, i.room, length-set_at pool.free_pages p v);
  addressable = i.addressable;
  kernel_page = i.kernel_page;
  reserved = λ q h. ground (arith, i.reserved q h, i.room, get_at-set_at pool.free_pages p q v);
  counted = ap pos (
      omega (
        arith,
        i.room,
        count_clear-set_at pool.free_pages pool.num_pages p v (omega (arith, i.room)) hv lt,
      ));
}

-- Page `p` goes from free to reserved (`before` is 0) or back (`before` is 1), and nothing else
-- changes.
pub record Changed (pool : Pool) (p before : ℕ) (pool' : Pool) : Type 0 where
  pub in_range : p < pool.num_pages
  pub not_kernel : pool.static_end ≤ p
  pub was : get_at pool.free_pages p ≡ before
  pub now : get_at pool'.free_pages p ≡ 1 - before
  pub others : (q : ℕ) → q ≢ p → get_at pool'.free_pages q ≡ get_at pool.free_pages q
  pub same_num_pages : pool'.num_pages ≡ pool.num_pages
  pub same_static_end : pool'.static_end ≡ pool.static_end

marked-Changed :
    {pool : Pool} (p before n : ℕ)
    → IsPool pool
    → before < 2
    → p < pool.num_pages
    → pool.static_end ≤ p
    → get_at pool.free_pages p ≡ before
    → Changed pool p before (marked pool p (1 - before) n)
marked-Changed {pool} p before n i hb lt above was = record {
  in_range = lt;
  not_kernel = above;
  was = was;
  now = ground (arith, i.room, get_at-set_at pool.free_pages p p (1 - before));
  others = λ q ne. ground (arith, i.room, get_at-set_at pool.free_pages p q (1 - before));
  same_num_pages = refl;
  same_static_end = refl;
}

-- A clear bit in the range is not the kernel's.
above_static :
    {pool : Pool} (p : ℕ) → IsPool pool → get_at pool.free_pages p ≡ 0 → pool.static_end ≤ p
above_static {pool} p i z = elim (dec_lt p pool.static_end) [
  | yes lt ↦ absurd (omega (arith, i.reserved p lt))
  | no ge ↦ omega arith
]

-- `pagepool_get_phys_page` on a pool with a free page gives one away, and on a pool with none
-- returns 0 and changes nothing. It never fails an assertion.
pub data Got (pool : Pool) : Type 0 where
  page :
      (p : ℕ) (pool' : Pool)
      → get_phys_page pool ≡ ok (p * page_size, pool')
      → 0 < p
      → Changed pool p 0 pool'
      → IsPool pool'
      → Got pool
  exhausted :
      get_phys_page pool ≡ ok (0, pool)
      → ((q : ℕ) → q < pool.num_pages → get_at pool.free_pages q ≡ 1)
      → Got pool

get_phys_page_found :
    (pool : Pool) (p n : ℕ)
    → pool.num_free_pages ≡ pos (suc n)
    → findnset pool.free_pages (pos pool.num_pages) ≡ ok (pos p, set_at pool.free_pages p 1)
    → get_phys_page pool ≡ ok (page_address p, marked pool p 1 n)
unfolding get_phys_page
get_phys_page_found pool p n e f = ground arith

no_free_page : (bm : Bitmap) (n q : ℕ) → count_clear bm n ≡ 0 → q < n → get_at bm q ≡ 1
no_free_page bm n q e h = elim (ℕ_discrete (get_at bm q) 0) [
  | yes z ↦ absurd (omega (arith, count_clear-pos bm n q h z))
  | no ne ↦ omega (arith, get_at-lt bm q)
]

get_phys_page_empty :
    (pool : Pool) → pool.num_free_pages ≡ pos 0 → get_phys_page pool ≡ ok (0, pool)
unfolding get_phys_page
get_phys_page_empty pool e = ground arith

-- With `c` free pages counted.
get_phys_page_counted :
    (pool : Pool) (c : ℕ) → IsPool pool → count_clear pool.free_pages pool.num_pages ≡ c → Got pool
get_phys_page_counted pool zero i e =
    exhausted (get_phys_page_empty pool (i.counted ∙ ap pos e))
      (λ q h. no_free_page pool.free_pages pool.num_pages q e h)
get_phys_page_counted pool (suc n) i e =
    let (r, eq, out) = findnset-Found pool.free_pages pool.num_pages i.words i.room in
    grant r eq out
  where
    grant :
        (r : ℤ × Bitmap)
        → findnset pool.free_pages (pos pool.num_pages) ≡ ok r
        → FindOutcome pool.free_pages pool.num_pages r
        → Got pool
    grant r eq (none_left all _) = absurd (
        omega (
          arith,
          e,
          count_clear-eq-zero pool.free_pages pool.num_pages (λ q h. all q (omega arith) h),
        ))
    grant r eq (taken p first re) =
        let above : pool.static_end ≤ p = above_static p i first.clear in
        page p (marked pool p 1 n)
          (get_phys_page_found pool p n (i.counted ∙ ap pos e) (eq ∙ ap ok re)
            ∙ ap (λ a. ok (a, marked pool p 1 n)) (omega (arith, first.below, i.addressable)))
          (omega (arith, above, i.kernel_page))
          (marked-Changed p 0 n i (omega arith) first.below above first.clear)
          (marked-IsPool p 1 n i first.below above (omega arith) (omega (arith, e, first.clear)))

-- From a well-formed pool `pagepool_get_phys_page` returns: either the address of a free page that
-- is not page 0 and not the kernel's, which is then reserved with the count in step and the pool
-- well formed, or 0 when every page is reserved.
pub get_phys_page_lem : (pool : Pool) → IsPool pool → Got pool
get_phys_page_lem pool i =
    get_phys_page_counted pool (count_clear pool.free_pages pool.num_pages) i refl

-- In a well-formed pool `pagepool_free_phys_page` of a page's address frees a reserved page that is
-- not the kernel's, with the count in step and the pool well formed, and panics for a page of the
-- kernel's and for a page that is free already.
pub free_phys_page_lem :
    (pool : Pool) (p : ℕ)
    → IsPool pool
    → p < pool.num_pages
    → (pool.static_end ≤ p
        → get_at pool.free_pages p ≡ 1
        → (pool' : Pool) × (free_phys_page pool (p * page_size) ≡ ok pool')
          × Changed pool p 1 pool'
          × IsPool pool')
      × (p < pool.static_end → free_phys_page pool (p * page_size) ≡ panic)
      × (get_at pool.free_pages p ≡ 0 → free_phys_page pool (p * page_size) ≡ panic)
unfolding free_phys_page Bitmap.get Bitmap.set_bit
free_phys_page_lem pool p i lt = (
  given_back,
  (λ h. ground (arith, index)),
  (λ h. ground (arith, index, ap (get_at pool.free_pages) index, within)),
)
  where
    index : p * page_size / page_size ≡ p
    index = omega arith

    within : p / 32 < length pool.free_pages
    within = omega (arith, i.room)

    c : ℕ
    c = count_clear pool.free_pages pool.num_pages

    given_back :
        pool.static_end ≤ p
        → get_at pool.free_pages p ≡ 1
        → (pool' : Pool) × (free_phys_page pool (p * page_size) ≡ ok pool')
          × Changed pool p 1 pool'
          × IsPool pool'
    given_back above one = (
      marked pool p 0 (c + 1),
      rw index (ground (arith, i.counted, within)),
      marked-Changed p 1 (c + 1) i (omega arith) lt above one,
      marked-IsPool p 0 (c + 1) i lt above (omega arith) (omega (arith, one)),
    )

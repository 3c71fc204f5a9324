-- ===== src/Syscalls/Copying.antt =====
-- read_data_from_vm of proc/syscall_helpers.c on buffers of at most one page.
use aalto_buenos.Prelude.{
  ℕ, zero, suc, ◌+◌, ◌-◌, ◌*◌, ◌/◌, ◌^◌, ◌≤◌, ◌<◌, ◌≡◌, refl, sym, ap, ◌∙◌, ◌⊎◌, inl, inr, List, [],
  ◌∷◌, ◌++◌, append_assoc, append-nil, true, false, ltb, ltb-true, ltb-false, Option, some, ok,
  hang, arith, dec_lt,
}
use aalto_buenos.Libc.{Memory}
use aalto_buenos.Libc.Memory.{segment, segment-append}
use aalto_buenos.Kmalloc.{page_size}
use aalto_buenos.Vm.{Pagetable, get_vaddr_page_offsets}
use aalto_buenos.Syscalls.{word, read_page, read_pages, read_data}

pair_eq : (a b : ℕ) (s t : List ℕ) → a ≡ b → s ≡ t → ◌≡◌ {A = ℕ × List ℕ} (a, s) (b, t)
pair_eq a b s t p q = λ i. (p i, q i)

-- The inner loop reads up to `m`: to the end of the data, or to that of the page.
read_page_lem :
    (n vaddr page_end source : ℕ) (memory : Memory) (i : ℕ) (buffer : List ℕ) (k : ℕ)
    → k ≤ n
    → source + i + n < 2 ^ 32
    → page_end < 2 ^ 32
    → vaddr + i + k ≤ page_end
    → (k ≡ n) ⊎ (vaddr + i + k ≡ page_end)
    → read_page n vaddr page_end source memory i buffer
      ≡ (i + k, buffer ++ segment memory (source + i) k)
unfolding read_page
read_page_lem zero vaddr page_end source memory i buffer zero le bound pe fit end =
    pair_eq i (i + 0) buffer (buffer ++ []) (omega arith) (sym (append-nil buffer))
read_page_lem (suc n) vaddr page_end source memory i buffer zero le bound pe fit end =
    let test : ltb (word (vaddr + i)) page_end ≡ false = ltb-false (omega (arith, end)) in
    rw test (pair_eq i (i + 0) buffer (buffer ++ []) (omega arith) (sym (append-nil buffer)))
read_page_lem zero vaddr page_end source memory i buffer (suc k) le bound pe fit end =
    absurd (omega arith)
read_page_lem (suc n) vaddr page_end source memory i buffer (suc k) le bound pe fit end =
    let test : ltb (word (vaddr + i)) page_end ≡ true = ltb-true (omega arith) in
    let here : word (source + i) ≡ source + i = omega arith in
    let behind : source + (i + 1) ≡ source + i + 1 = omega arith in
    rw test (
      read_page_lem n vaddr page_end source memory (i + 1)
        (buffer ++ (memory (word (source + i)) ∷ [])) k (omega arith) (omega arith) pe (omega arith)
        (next_end end)
      ∙ pair_eq (i + 1 + k) (i + suc k) _
          (buffer ++ (memory (source + i) ∷ segment memory (source + i + 1) k)) (omega arith)
          (append_assoc buffer (memory (word (source + i)) ∷ [])
              (segment memory (source + (i + 1)) k)
            ∙ ap (λ x. buffer ++ (memory x ∷ segment memory (source + (i + 1)) k)) here
            ∙ ap (λ x. buffer ++ (memory (source + i) ∷ segment memory x k)) behind))
  where
    next_end :
        (suc k ≡ suc n) ⊎ (vaddr + i + suc k ≡ page_end)
        → (k ≡ n) ⊎ (vaddr + (i + 1) + k ≡ page_end)
    next_end (inl e) = inl (omega arith)
    next_end (inr e) = inr (omega arith)

-- The addresses of the data are mapped, each with the address of its page.
abbrev pub AreMapped : Option Pagetable → ℕ → ℕ → Type 0
AreMapped table source size =
    (a : ℕ)
    → source ≤ a
    → a < source + size
    → (phys : ℕ) × (get_vaddr_page_offsets table a ≡ some (phys, a / page_size * page_size))

-- One round of the outer loop reads `k` bytes, to the end of the data or of the page.
read_round :
    (fuel : ℕ) (table : Option Pagetable) (source size : ℕ) (memory : Memory) (i k : ℕ)
    (buffer : List ℕ)
    → i < size
    → k ≤ size - i
    → source + size ≤ 2 ^ 31
    → AreMapped table source size
    → source + i + i + k ≤ (source + i) / page_size * page_size + page_size
    → (k ≡ size - i) ⊎ (source + i + i + k ≡ (source + i) / page_size * page_size + page_size)
    → read_pages (suc fuel) table source size memory i buffer
      ≡ read_pages fuel table source size memory (i + k) (buffer ++ segment memory (source + i) k)
unfolding read_pages
read_round fuel table source size memory i k buffer lt le bound mapped fit end =
    let inside : ltb i size ≡ true = ltb-true lt in
    let flat : word (source + i) ≡ source + i = omega arith in
    let found = mapped (source + i) (omega arith) (omega arith) in
    let top : word ((source + i) / page_size * page_size + page_size)
        ≡ (source + i) / page_size * page_size + page_size =
      omega arith in
    rw
      (
        inside,
        flat,
        found.1,
        flat,
        top,
        read_page_lem (size - i) (source + i) ((source + i) / page_size * page_size + page_size)
            source memory i buffer k le (omega arith) (omega arith) fit end,
      )
      refl

read_finish :
    (fuel : ℕ) (table : Option Pagetable) (source size : ℕ) (memory : Memory) (i : ℕ)
    (buffer : List ℕ)
    → size ≤ i
    → read_pages (suc fuel) table source size memory i buffer ≡ ok (true, buffer)
unfolding read_pages
read_finish fuel table source size memory i buffer le =
    let over : ltb i size ≡ false = ltb-false {a = i} {b = size} le in rw over refl

-- the data stands in one page
read_one_page :
    (fuel : ℕ) (table : Option Pagetable) (source size : ℕ) (memory : Memory)
    → 0 < size
    → source + size ≤ source / page_size * page_size + page_size
    → source + size ≤ 2 ^ 31
    → AreMapped table source size
    → read_pages (suc (suc fuel)) table source size memory 0 []
      ≡ ok (true, segment memory source size)
read_one_page fuel table source size memory lt fit bound mapped =
    let start : source + 0 ≡ source = omega arith in
    read_round (suc fuel) table source size memory 0 size [] lt (omega arith) bound mapped
      (omega arith) (inl (omega arith))
    ∙ read_finish fuel table source size memory (0 + size) ([] ++ segment memory (source + 0) size)
        (omega arith)
    ∙ ap (λ a. ok (true, segment memory a size)) start

-- the data goes on in a second page, behind the first `k` bytes
read_two_pages :
    (fuel : ℕ) (table : Option Pagetable) (source size k : ℕ) (memory : Memory)
    → size ≤ page_size
    → source + k ≡ source / page_size * page_size + page_size
    → k < size
    → source + size ≤ 2 ^ 31
    → AreMapped table source size
    → read_pages (suc (suc (suc fuel))) table source size memory 0 []
      ≡ ok (true, segment memory source size)
read_two_pages fuel table source size k memory le edge lt bound mapped =
    let start : source + 0 ≡ source = omega arith in
    let second : source + (0 + k) ≡ source + k = omega arith in
    let sum : k + (size - k) ≡ size = omega arith in
    read_round (suc (suc fuel)) table source size memory 0 k [] (omega arith) (omega arith) bound
      mapped (omega arith) (inr (omega arith))
    ∙ read_round (suc fuel) table source size memory (0 + k) (size - k)
        (segment memory (source + 0) k) (omega arith) (omega arith) bound mapped (omega arith)
        (inl (omega arith))
    ∙ read_finish fuel table source size memory (0 + k + (size - k))
        (segment memory (source + 0) k ++ segment memory (source + (0 + k)) (size - k))
        (omega arith)
    ∙ ap (λ a. ok (true, segment memory a k ++ segment memory (source + (0 + k)) (size - k))) start
    ∙ ap (λ a. ok (true, segment memory source k ++ segment memory a (size - k))) second
    ∙ ap (λ s. ok (true, s)) (segment-append memory source k (size - k))
    ∙ ap (λ n. ok (true, segment memory source n)) sum

-- For at most 4096 bytes below the kernel's addresses, all of whose addresses
-- `vm_get_vaddr_page_offsets` finds with their pages, `read_data_from_vm` needs three rounds at
-- most, reports success and has stored exactly these bytes in order, in one page or across two.
pub read_data_lem :
    (fuel : ℕ) (table : Option Pagetable) (source size : ℕ) (memory : Memory)
    → size ≤ page_size
    → source + size ≤ 2 ^ 31
    → AreMapped table source size
    → read_data (suc (suc (suc fuel))) table source size memory
      ≡ ok (true, segment memory source size)
unfolding read_data
read_data_lem fuel table source zero memory le bound mapped =
    read_finish (suc (suc fuel)) table source 0 memory 0 [] (omega arith)
read_data_lem fuel table source (suc n) memory le bound mapped =
    elim (dec_lt (source / page_size * page_size + page_size) (source + suc n)) [
      | no ge ↦
          read_one_page (suc fuel) table source (suc n) memory (omega arith) (omega arith) bound
            mapped
      | yes lt ↦
          read_two_pages fuel table source (suc n)
            (source / page_size * page_size + page_size - source) memory le (omega arith)
            (omega arith) bound mapped
    ]

-- Behind 4096 bytes the inner loop reads nothing more, and the outer loop goes on for ever.
read_stuck :
    (fuel : ℕ) (table : Option Pagetable) (source size : ℕ) (memory : Memory) (buffer : List ℕ)
    → page_size < size
    → source + size ≤ 2 ^ 31
    → AreMapped table source size
    → read_pages fuel table source size memory page_size buffer ≡ hang
unfolding read_pages
read_stuck zero table source size memory buffer lt bound mapped = refl
read_stuck (suc fuel) table source size memory buffer lt bound mapped =
    let inside : ltb page_size size ≡ true = ltb-true lt in
    let flat : word (source + page_size) ≡ source + page_size = omega arith in
    let found = mapped (source + page_size) (omega arith) (omega arith) in
    rw (inside, flat, found.1, flat, nothing_read (size - page_size) buffer)
      (read_stuck fuel table source size memory buffer lt bound mapped)
  where
    nothing_read :
        (n : ℕ) (b : List ℕ)
        → read_page n
            (source + page_size)
            (word ((source + page_size) / page_size * page_size + page_size))
            source
            memory
            page_size
            b
          ≡ (page_size, b)
    nothing_read zero b = unfold read_page in refl
    nothing_read (suc n) b =
        let test : ltb (word (source + page_size + page_size))
              (word ((source + page_size) / page_size * page_size + page_size))
            ≡ false =
          ltb-false (omega arith) in
        unfold read_page in rw test refl

pub read_data-hangs :
    (fuel : ℕ) (table : Option Pagetable) (source size : ℕ) (memory : Memory)
    → page_size < size
    → source + size ≤ 2 ^ 31
    → AreMapped table source size
    → read_data fuel table source size memory ≡ hang
unfolding read_data
read_data-hangs zero table source size memory lt bound mapped = unfold read_pages in refl
read_data-hangs (suc fuel) table source size memory lt bound mapped =
    elim (dec_lt (source / page_size * page_size) source) [
      | no aligned ↦
          read_round fuel table source size memory 0 page_size [] (omega arith) (omega arith) bound
            mapped (omega arith) (inr (omega arith))
          ∙ read_stuck fuel table source size memory _ lt bound mapped
      | yes inner ↦
          read_round fuel table source size memory 0
            (source / page_size * page_size + page_size - source) [] (omega arith) (omega arith)
            bound mapped (omega arith) (inr (omega arith))
          ∙ second fuel (source / page_size * page_size + page_size - source) (omega arith)
              (omega arith)
    ]
  where
    second :
        (f k : ℕ)
        → source + k ≡ source / page_size * page_size + page_size
        → k < page_size
        → read_pages f table source size memory (0 + k) ([] ++ segment memory (source + 0) k) ≡ hang
    second zero k edge short = unfold read_pages in refl
    second (suc f) k edge short =
        let whole : 0 + k + (page_size - k) ≡ page_size = omega arith in
        read_round f table source size memory (0 + k) (page_size - k) _ (omega arith) (omega arith)
          bound mapped (omega arith) (inr (omega arith))
        ∙ ap
            (λ i.
              read_pages f table source size memory i (
                segment memory (source + 0) k ++ segment memory (source + (0 + k)) (page_size - k)))
            whole
        ∙ read_stuck f table source size memory _ lt bound mapped

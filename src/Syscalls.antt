-- ===== src/Syscalls.antt =====
-- proc/syscall_helpers.c: how system calls read and write the memory of a process. The user's
-- memory is a function from virtual addresses to bytes; the kernel's buffer is the list of the bytes
-- that have been stored in it from its start on.
pub mod Copying
use aalto_buenos.Prelude.{
  ℕ, zero, suc, ◌+◌, ◌-◌, ◌%◌, ◌^◌, List, [], ◌∷◌, ◌++◌, Bool, true, false, if◌then◌else◌, ltb, leb,
  ◌==◌, Option, none, some, get_or, Result, ok, hang,
}
use aalto_buenos.Prelude.Int.{ℤ, pos, negsuc}
use aalto_buenos.Libc.{Memory, store}
use aalto_buenos.Kmalloc.{page_size}
use aalto_buenos.Vm.{Pagetable, get_vaddr_page_offsets}

abbrev pub word : ℕ → ℕ
word n = n % 2 ^ 32

-- `for (; vaddr + i < virtual_page_end && i < size; i++)`, where `n` is `size - i`: the new `i` and
-- the buffer
unfoldable pub read_page : ℕ → ℕ → ℕ → ℕ → Memory → ℕ → List ℕ → ℕ × List ℕ
read_page zero vaddr page_end source memory i buffer = (i, buffer)
read_page (suc n) vaddr page_end source memory i buffer =
    let rest =
      read_page n vaddr page_end source memory (i + 1)
        (buffer ++ (memory (word (source + i)) ∷ [])) in
    if ltb (word (vaddr + i)) page_end then rest else (i, buffer)

-- the outer loop of `read_data_from_vm`, with `fuel` rounds left: whether the data was read, and the
-- buffer
unfoldable pub read_pages :
    ℕ → Option Pagetable → ℕ → ℕ → Memory → ℕ → List ℕ → Result (Bool × List ℕ)
read_pages zero table source size memory i buffer = hang
read_pages (suc fuel) table source size memory i buffer =
    let vaddr = word (source + i) in
    let round : Result (Bool × List ℕ) = elim (get_vaddr_page_offsets table vaddr) [
      | none ↦ ok (false, buffer)
      | some (phys, start) ↦
          let read = read_page (size - i) vaddr (word (start + page_size)) source memory i buffer in
          read_pages fuel table source size memory read.0 read.1
    ] in
    if ltb i size then round else ok (true, buffer)

-- `read_data_from_vm`: RETVAL_SYSCALL_HELPERS_OK or NOK
unfoldable pub read_data : ℕ → Option Pagetable → ℕ → ℕ → Memory → Result (Bool × List ℕ)
unfolding read_pages
read_data fuel table source size memory = read_pages fuel table source size memory 0 []

-- the inner loop of `write_data_to_vm`
unfoldable pub write_page : ℕ → ℕ → ℕ → ℕ → List ℕ → ℕ → Memory → ℕ × Memory
write_page zero vaddr page_end target source i memory = (i, memory)
write_page (suc n) vaddr page_end target source i memory =
    let rest =
      write_page n vaddr page_end target source (i + 1)
        (store memory (word (target + i)) (get_or source i 0)) in
    if ltb (word (vaddr + i)) page_end then rest else (i, memory)

unfoldable pub write_pages :
    ℕ → Option Pagetable → ℕ → List ℕ → ℕ → ℕ → Memory → Result (Bool × Memory)
write_pages zero table target source size i memory = hang
write_pages (suc fuel) table target source size i memory =
    let vaddr = word (target + i) in
    let round : Result (Bool × Memory) = elim (get_vaddr_page_offsets table vaddr) [
      | none ↦ ok (false, memory)
      | some (phys, start) ↦
          let written =
            write_page (size - i) vaddr (word (start + page_size)) target source i memory in
          write_pages fuel table target source size written.0 written.1
    ] in
    if ltb i size then round else ok (true, memory)

-- `write_data_to_vm`
unfoldable pub write_data : ℕ → Option Pagetable → ℕ → List ℕ → ℕ → Memory → Result (Bool × Memory)
unfolding write_pages
write_data fuel table target source size memory = write_pages fuel table target source size 0 memory

-- How the inner loop of `read_string_from_vm` ends: it returns, or the page is over.
pub data Text : Type 0 where
  returned : ℤ → List ℕ → Text
  page_over : ℕ → List ℕ → Text

-- the inner loop of `read_string_from_vm`, where `n` is `max_length - i`
unfoldable pub read_text_page : ℕ → ℕ → ℕ → ℕ → Memory → ℕ → List ℕ → Text
read_text_page zero vaddr page_end source memory i buffer =
    if ltb (word (vaddr + i)) page_end then returned (negsuc 0) buffer else page_over i buffer
read_text_page (suc n) vaddr page_end source memory i buffer =
    let c = memory (word (source + i)) in
    let rest = read_text_page n vaddr page_end source memory (i + 1) (buffer ++ (c ∷ [])) in
    if ltb (word (vaddr + i)) page_end
    then if c == 0 then returned (pos (i + 1)) (buffer ++ (c ∷ [])) else rest
    else page_over i buffer

unfoldable pub read_text_pages :
    ℕ → Option Pagetable → ℕ → ℕ → Memory → ℕ → List ℕ → Result (ℤ × List ℕ)
read_text_pages zero table source max_length memory i buffer = hang
read_text_pages (suc fuel) table source max_length memory i buffer =
    let vaddr = word (source + i) in
    elim (get_vaddr_page_offsets table vaddr) [
      | none ↦ ok (negsuc 0, buffer)
      | some (phys, start) ↦
          elim (read_text_page (max_length - i) vaddr (word (start + page_size)) source memory i
            buffer) [
              | returned code text ↦ ok (code, text)
              | page_over i' text ↦ read_text_pages fuel table source max_length memory i' text
            ]
    ]

-- `read_string_from_vm`
unfoldable pub read_string : ℕ → Option Pagetable → ℕ → ℕ → Memory → Result (ℤ × List ℕ)
unfolding read_text_pages
read_string fuel table source max_length memory =
    read_text_pages fuel table source max_length memory 0 []

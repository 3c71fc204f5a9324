-- ===== src/Tests/Diskfiles.antt =====
-- fs/tfs.c with one file of 600 bytes, whose inode is block 3 and whose blocks are 4 and 5.
use mathlib.Core.Path.{subst}
use mathlib.Core.Option.{some-injective}
use aalto_buenos.Prelude.{
  sym, ap, ◌<◌, ◌≤◌, ◌≢◌, replicate, Option, ℕ, zero, suc, [], ◌∷◌, ◌+◌, ◌*◌, ◌≡◌, refl,
  if◌then◌else◌, ◌==◌, none, some, arith,
}
use aalto_buenos.Prelude.Int.{ℤ, pos, to_index}
use aalto_buenos.Prelude.Outcomes.{ret}
use aalto_buenos.Libc.Memory.{segment}
use aalto_buenos.Tfs.{Block, Disk, filesize, block_number, read}
use aalto_buenos.Bitmap.{Bitmap}
use aalto_buenos.Bitmap.Bits.{IsWords}
use aalto_buenos.Tfs.Writing.{allocate}
use aalto_buenos.Tfs.Storing.{write}
use aalto_buenos.Tfs.Untouched.{WritesOne, write-keeps_others}
use aalto_buenos.Tfs.Reading.{HoldsFile, file_byte, read_lem}
use aalto_buenos.Tfs.Allocation.{Allocated, allocate_lem}

-- the words 600, 4 and 5, then zeros
abbrev small_inode : Block
small_inode k =
    if k == 2 then 2 else if k == 3 then 88 else if k == 7 then 4 else if k == 11 then 5 else 0

-- the bytes of the file's block `i`
abbrev contents : ℕ → Block
contents i k = i * 7 + k

abbrev small_disk : Disk
small_disk n =
    if n == 3
    then some small_inode
    else if n == 4
    then some (contents 0)
    else if n == 5
    then some (contents 1)
    else none

small_disk-HoldsFile : HoldsFile small_disk small_inode contents
small_disk-HoldsFile zero lt = refl
small_disk-HoldsFile (suc zero) lt = refl
small_disk-HoldsFile (suc (suc i)) lt = absurd (omega arith)

read_example :
    read 100 small_disk (pos 3) 200 (pos 450) ≡ ret (pos 150, segment (file_byte contents) 450 150)
read_example =
    read_lem 100 small_disk 3 small_inode contents 200 450 (omega arith) (omega arith) refl
      small_disk-HoldsFile (omega arith) (omega arith)

-- the blocks 0 to 3 and 5 of a disk of 20 blocks are in use
abbrev bat : Bitmap
bat = 47 ∷ []

bat-IsWords : IsWords bat
bat-IsWords = (omega arith, tt)

allocate_example : Allocated 20 2 bat (allocate 20 2 bat)
allocate_example = allocate_lem 20 2 bat bat-IsWords (omega arith)

abbrev write_one : ℕ → Block → Disk → Option Disk
write_one n b disk = some (λ k. if k == n then some b else disk k)

write_one-WritesOne : WritesOne write_one
write_one-WritesOne n m b disk disk' e ne =
    let same : (if m == n then some b else disk m) ≡ disk' m =
      ap (λ d. d m) (some-injective (λ k. if k == n then some b else disk k) disk' e) in
    ground (arith, sym same)

the_inode :
    (n : ℕ) (inode : Block) → pos 3 ≡ pos n → small_disk n ≡ some inode → small_inode ≡ inode
the_inode n inode e d =
    some-injective small_inode inode
      (subst (λ k. small_disk k ≡ some inode) (sym (ap to_index e)) d)

inode_block-short :
    (n : ℕ) (inode : Block) → pos 3 ≡ pos n → small_disk n ≡ some inode → filesize inode ≤ 127 * 512
inode_block-short n inode e d =
    subst (λ b. filesize b ≤ 127 * 512) (the_inode n inode e d) (omega arith)

-- the inode's own block is none of the file's
inode_block-apart :
    (n : ℕ) (inode : Block)
    → pos 3 ≡ pos n
    → small_disk n ≡ some inode
    → (i : ℕ) → i * 512 < filesize inode
    → block_number inode i ≢ 3
inode_block-apart n inode e d =
    subst (λ b. (i : ℕ) → i * 512 < filesize b → block_number b i ≢ 3) (the_inode n inode e d) apart
  where
    apart : (i : ℕ) → i * 512 < filesize small_inode → block_number small_inode i ≢ 3
    apart zero lt = λ h. absurd (omega (arith, h))
    apart (suc zero) lt = λ h. absurd (omega (arith, h))
    apart (suc (suc i)) lt = absurd (omega arith)

write-keeps_others_example :
    (r : ℤ × Disk) × (write write_one 100 (pos 3) (replicate 40 7) (pos 500) small_disk ≡ ret r)
    × (r.1 3 ≡ small_disk 3)
write-keeps_others_example =
    write-keeps_others write_one write_one-WritesOne 100 (pos 3) (pos 500) 3 (replicate 40 7)
      small_disk inode_block-short inode_block-apart

-- ===== src/Tfs/Writing.antt =====
-- fs/tfs.c: creating, removing and writing files. A request that writes a block is a parameter,
-- `none` where it fails; the disk is then as before.
use aalto_buenos.Prelude.{
  ℕ, zero, suc, ◌+◌, ◌-◌, ◌*◌, ◌/◌, ◌%◌, ◌^◌, List, [], ◌∷◌, ◌++◌, if◌then◌else◌, ltb, leb, ◌==◌,
  ◌&&◌, Option, none, some, get_or, Result, length, replicate, ok, panic, hang,
}
use aalto_buenos.Prelude.Int.{ℤ, pos, negsuc, none_id, eq_ℤ, to_index}
use aalto_buenos.Prelude.Outcomes.{Outcome, ret, outside, ◌>>=◌, accessed}
use aalto_buenos.Libc.{stringcmp, stringcopy}
use aalto_buenos.Libc.Memory.{segment}
use aalto_buenos.Bitmap.{Bitmap, findnset, set_at}
use aalto_buenos.Vfs.{vfs_ok, vfs_error, not_found}
use aalto_buenos.Tfs.{
  Block, Disk, block_size, allocation_block, directory_block, max_files, block_number, entry_inode,
  entry_name, block_words, find_entry, blocks_max,
}

-- `bitmap_findnset` on the allocation block. The length is not negative, and `tfs_init` has made it at
-- most 4096, the number of bits in the block, so that the search ends with a result.
abbrev pub found_block : Bitmap → Result (ℤ × Bitmap) → ℤ × Bitmap
found_block bat (ok r) = r
found_block bat panic = (none_id, bat)
found_block bat hang = (none_id, bat)
found_block bat Result.outside = (none_id, bat)

unfoldable pub take_block : Bitmap → ℕ → ℤ × Bitmap
take_block bat totalblocks = found_block bat (findnset bat (pos totalblocks))

-- the loop of `tfs_create` that finds `n` blocks: their numbers in order, or none on a full disk
unfoldable pub allocate : ℕ → ℕ → Bitmap → Option (List ℕ × Bitmap)
allocate totalblocks zero bat = some ([], bat)
allocate totalblocks (suc n) bat =
    let taken = take_block bat totalblocks in
    let rest = elim (allocate totalblocks n taken.1) as (λ r. Option (List ℕ × Bitmap)) [
      | none ↦ none
      | some (blocks, bat') ↦ some (to_index taken.0 ∷ blocks, bat')
    ] in
    if eq_ℤ taken.0 none_id then none else rest

-- a block of 32-bit words, big-endian
abbrev pub block_of_words : List ℕ → Block
block_of_words words k = get_or words (k / 4) 0 / 256 ^ (3 - k % 4) % 256

-- a block with the bytes `s` put at the position `a`
abbrev pub put_bytes : Block → ℕ → List ℕ → Block
put_bytes b a s = λ k. if leb a k && ltb k (a + length s) then get_or s (k - a) 0 else b k

-- `buffer_md[index].inode = w`
abbrev pub put_inode : Block → ℕ → ℕ → Block
put_inode directory i w = put_bytes directory (20 * i) (segment (block_of_words (w ∷ [])) 0 4)

-- the inode block that `tfs_create` makes
abbrev pub new_inode : ℕ → List ℕ → Block
new_inode size blocks = block_of_words (size ∷ blocks ++ replicate (blocks_max - length blocks) 0)

-- the search of `tfs_create` from the entry `i` on: `none` if the name is taken, else the last free
-- entry, where `index` is the one found so far
unfoldable pub find_slot : ℕ → ℕ → Block → List ℕ → ℤ → Outcome (Option ℤ)
find_slot zero i directory filename index = ret (some index)
find_slot (suc n) i directory filename index =
    let rest =
      find_slot n (i + 1) directory filename
        (if entry_inode directory i == 0 then pos i else index) in
    accessed (stringcmp (entry_name directory i) filename) >>= λ difference.
    if eq_ℤ difference (pos 0) then ret none else rest

-- the loop of `tfs_remove` over the blocks of the inode, from `i` on
-- `bitmap_set(buffer_bat, n, 0)`; a block number behind the bits of the allocation block is outside
abbrev pub clear_bit : Bitmap → ℕ → Outcome Bitmap
clear_bit bat n = if ltb (n / 32) (length bat) then ret (set_at bat n 0) else outside

unfoldable pub free_blocks : ℕ → ℕ → Block → Bitmap → Outcome Bitmap
free_blocks zero i inode bat = ret bat
free_blocks (suc n) i inode bat =
    let rest = clear_bit bat (block_number inode i) >>= free_blocks n (i + 1) inode in
    if block_number inode i == 0 then ret bat else rest

module _ (totalblocks : ℕ) (write_block : ℕ → Block → Disk → Option Disk) where
  -- a request to write, and what follows when it succeeds
  abbrev pub then_write : ℕ → Block → Disk → (Disk → ℤ × Disk) → ℤ × Disk
  then_write n b disk next = elim (write_block n b disk) [
    | none ↦ (vfs_error, disk)
    | some disk' ↦ next disk'
  ]

  -- the loop of `tfs_create` that zeroes the blocks
  unfoldable pub zero_blocks : List ℕ → Disk → ℤ × Disk
  zero_blocks [] disk = (vfs_ok, disk)
  zero_blocks (n ∷ blocks) disk = elim (write_block n (λ k. 0) disk) [
    | none ↦ (vfs_error, disk)
    | some disk' ↦ zero_blocks blocks disk'
  ]

  -- `tfs_create` from the allocation block on, for the entry `index` of a directory that has the name
  unfoldable pub create_file : ℕ → ℕ → Block → Disk → ℤ × Disk
  create_file index size directory disk = elim (disk allocation_block) [
    | none ↦ (vfs_error, disk)
    | some b ↦
        let inode = take_block (block_words b 0 128) totalblocks in
        let made =
          elim (allocate totalblocks ((size + block_size - 1) / block_size) inode.1)
            as (λ r. ℤ × Disk) [
              | none ↦ (vfs_error, disk)
              | some (blocks, bat) ↦ then_write allocation_block (block_of_words bat) disk (λ d1.
                  then_write directory_block (put_inode directory index (to_index inode.0)) d1
                    (λ d2.
                      then_write (to_index inode.0) (new_inode size blocks) d2
                        (λ d3. zero_blocks blocks d3)))
            ] in
        if eq_ℤ inode.0 none_id then (vfs_error, disk) else made
  ]

  -- the entry that the search has found gets the name
  abbrev pub create_in : ℕ → List ℕ → Block → Disk → Option ℤ → Outcome (ℤ × Disk)
  create_in size filename directory disk none = ret (vfs_error, disk)
  create_in size filename directory disk (some (negsuc i)) = ret (vfs_error, disk)
  create_in size filename directory disk (some (pos i)) =
      accessed (stringcopy (segment directory (20 * i + 4) 16) filename 16) >>= λ name.
      ret (create_file i size (put_bytes directory (20 * i + 4) name) disk)

  unfoldable pub create : List ℕ → ℕ → Disk → Outcome (ℤ × Disk)
  create filename size disk =
      let searched : Outcome (ℤ × Disk) = elim (disk directory_block) [
        | none ↦ ret (vfs_error, disk)
        | some directory ↦
            find_slot max_files 0 directory filename none_id
            >>= create_in size filename directory disk
      ] in
      if ltb blocks_max ((size + block_size - 1) / block_size)
      then ret (vfs_error, disk)
      else searched

  -- `tfs_remove` of the entry `index`
  unfoldable pub remove_file : ℕ → Block → Disk → Outcome (ℤ × Disk)
  remove_file index directory disk = elim (disk allocation_block) [
    | none ↦ ret (vfs_error, disk)
    | some b ↦ elim (disk (entry_inode directory index)) [
      | none ↦ ret (vfs_error, disk)
      | some inode ↦
          let directory' = put_bytes (put_inode directory index 0) (20 * index + 4) (0 ∷ []) in
          clear_bit (block_words b 0 128) (entry_inode directory index)
          >>= free_blocks blocks_max 0 inode
          >>= λ bat. ret (
              then_write allocation_block (block_of_words bat) disk
                (λ d1. then_write directory_block directory' d1 (λ d2. (vfs_ok, d2))))
    ]
  ]

  unfoldable pub remove : List ℕ → Disk → Outcome (ℤ × Disk)
  remove filename disk = elim (disk directory_block) [
    | none ↦ ret (vfs_error, disk)
    | some directory ↦ find_entry max_files 0 directory filename >>= λ found. elim found [
      | none ↦ ret (not_found, disk)
      | some i ↦ remove_file i directory disk
    ]
  ]

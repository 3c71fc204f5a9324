-- ===== src/Tfs.antt =====
-- fs/tfs.c: looking up and reading files, and the free space. A block is a function from positions
-- to bytes; its 32-bit words are big-endian, as on the machine. The disk is a function from block
-- numbers to blocks, `none` where the request fails; a call holds the file system's semaphore.
pub mod Reading
pub mod Writing
pub mod Allocation
pub mod Freeing
pub mod Storing
pub mod Untouched
use aalto_buenos.Prelude.{
  ℕ, zero, suc, ◌+◌, ◌-◌, ◌*◌, ◌/◌, ◌%◌, ◌^◌, List, [], ◌∷◌, ◌++◌, Bool, true, false, if◌then◌else◌,
  length, ltb, leb, ◌==◌, ◌||◌, not, Option, none, some, min,
}
use aalto_buenos.Prelude.Int.{ℤ, pos, negsuc, eq_ℤ, sub_ℕ}
use aalto_buenos.Prelude.Outcomes.{Outcome, ret, outside, ◌>>=◌, accessed}
use aalto_buenos.Libc.{Memory, stringcmp}
use aalto_buenos.Libc.Memory.{segment}
use aalto_buenos.Bitmap.{Bitmap, get_at}
use aalto_buenos.Vfs.{vfs_ok, vfs_error, not_found}

-- TFS_BLOCK_SIZE, TFS_ALLOCATION_BLOCK, TFS_DIRECTORY_BLOCK and TFS_MAX_FILES
abbrev pub block_size : ℕ
block_size = 512

abbrev pub allocation_block : ℕ
allocation_block = 1

abbrev pub directory_block : ℕ
directory_block = 2

abbrev pub max_files : ℕ
max_files = 25

abbrev pub Block : Type 0
Block = ℕ → ℕ

abbrev pub Disk : Type 0
Disk = ℕ → Option Block

-- the 32-bit word at index `k` of a block
abbrev pub word_at : Block → ℕ → ℕ
word_at b k = ((b (4 * k) * 256 + b (4 * k + 1)) * 256 + b (4 * k + 2)) * 256 + b (4 * k + 3)

-- `tfs_inode_t`
abbrev pub filesize : Block → ℕ
filesize inode = word_at inode 0

abbrev pub block_number : Block → ℕ → ℕ
block_number inode i = word_at inode (i + 1)

-- TFS_BLOCKS_MAX
abbrev pub blocks_max : ℕ
blocks_max = 127

-- `buffer_inode->block[i]`; the array has TFS_BLOCKS_MAX elements, and the inode block ends with it.
abbrev pub block_at : Block → ℕ → Outcome ℕ
block_at inode i = if ltb i blocks_max then ret (block_number inode i) else outside

-- `tfs_direntry_t` at index `i` of the directory, 20 bytes each
abbrev pub entry_inode : Block → ℕ → ℕ
entry_inode directory i = word_at directory (5 * i)

abbrev pub entry_name : Block → ℕ → List ℕ
entry_name directory i = segment directory (20 * i + 4) (block_size - (20 * i + 4))

-- the 32-bit words of the allocation block
unfoldable pub block_words : Block → ℕ → ℕ → Bitmap
block_words b i zero = []
block_words b i (suc n) = word_at b i ∷ block_words b (i + 1) n

-- the loop of `tfs_open` from the entry `i` on, with `n` rounds left
unfoldable pub find_entry : ℕ → ℕ → Block → List ℕ → Outcome (Option ℕ)
find_entry zero i directory filename = ret none
find_entry (suc n) i directory filename =
    let rest = find_entry n (i + 1) directory filename in
    accessed (stringcmp (entry_name directory i) filename) >>= λ difference.
    if eq_ℤ difference (pos 0) then ret (some i) else rest

-- `(int)` of a 32-bit number
abbrev pub to_int : ℕ → ℤ
to_int w = if ltb w (2 ^ 31) then pos w else negsuc (2 ^ 32 - 1 - w)

unfoldable pub open_file : Disk → List ℕ → Outcome ℤ
open_file disk filename = elim (disk directory_block) [
  | none ↦ ret vfs_error
  | some directory ↦ find_entry max_files 0 directory filename >>= λ found. elim found [
    | some i ↦ ret (to_int (entry_inode directory i))
    | none ↦ ret not_found
  ]
]

unfoldable pub close : ℤ → ℤ
close fileid = vfs_ok

-- the loop of `tfs_read` over the blocks from `b1` to `b2`, with `n` rounds left: the number that is
-- returned and the bytes in the buffer
unfoldable pub read_blocks : Disk → Block → ℕ → ℕ → ℕ → ℕ → ℕ → List ℕ → Outcome (ℤ × List ℕ)
read_blocks disk inode zero b1 b2 bufsize read buffer = ret (pos read, buffer)
read_blocks disk inode (suc n) b1 b2 bufsize read buffer = block_at inode b1 >>= λ block.
    elim (disk block) [
      | none ↦ ret (vfs_error, buffer)
      | some b ↦
          let count = if b1 == b2 then bufsize - read else block_size in
          read_blocks disk inode n (b1 + 1) b2 bufsize (read + count) (buffer ++ segment b 0 count)
    ]

-- `tfs_read` once the number of bytes is known and is not 0
unfoldable pub read_from : Disk → Block → ℕ → ℕ → Outcome (ℤ × List ℕ)
read_from disk inode bufsize offset =
    let b1 = offset / block_size in
    let b2 = (offset + bufsize - 1) / block_size in
    block_at inode b1 >>= λ block. elim (disk block) [
      | none ↦ ret (vfs_error, [])
      | some b ↦
          let read = min (block_size - offset % block_size) bufsize in
          read_blocks disk inode (b2 - b1) (b1 + 1) b2 bufsize read
            (segment b (offset % block_size) read)
    ]

-- `tfs_read` of `bufsize` bytes at an offset that is not negative
unfoldable pub read_inode : Disk → Block → ℕ → ℕ → Outcome (ℤ × List ℕ)
read_inode disk inode bufsize offset =
    let size = min bufsize (filesize inode - offset) in
    let bytes = read_from disk inode size offset in
    if leb (2 ^ 31) (filesize inode) || ltb (filesize inode) offset
    then ret (vfs_error, [])
    else if size == 0
    then ret (pos 0, [])
    else bytes

unfoldable pub read : ℕ → Disk → ℤ → ℕ → ℤ → Outcome (ℤ × List ℕ)
read totalblocks disk (negsuc f) bufsize offset = ret (vfs_error, [])
read totalblocks disk (pos fileid) bufsize offset =
    if ltb fileid 2 || ltb totalblocks fileid then ret (vfs_error, []) else elim (disk fileid) [
      | none ↦ ret (vfs_error, [])
      | some inode ↦ elim offset [
        | pos o ↦ read_inode disk inode bufsize o
        | negsuc o ↦ ret (vfs_error, [])
      ]
    ]

-- the loop of `tfs_getfree`: the allocated blocks from `i` on, over `n` of them
unfoldable pub count_allocated : ℕ → ℕ → Bitmap → Outcome ℕ
count_allocated zero i bat = ret 0
count_allocated (suc n) i bat =
    let rest = count_allocated n (i + 1) bat >>= λ c. ret (get_at bat i + c) in
    if ltb (i / 32) (length bat) then rest else outside

unfoldable pub getfree : ℕ → Disk → Outcome ℤ
getfree totalblocks disk = elim (disk allocation_block) [
  | none ↦ ret vfs_error
  | some b ↦ count_allocated totalblocks 0 (block_words b 0 128) >>= λ allocated.
      ret (pos ((totalblocks - allocated) * block_size))
]

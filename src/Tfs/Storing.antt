-- ===== src/Tfs/Storing.antt =====
-- tfs_write of fs/tfs.c. A request that writes a block is a parameter, `none` where it fails; the
-- disk is then as before. The bytes of the caller's buffer are a list of the length asked for.
use aalto_buenos.Prelude.{
  ℕ, zero, suc, ◌+◌, ◌-◌, ◌/◌, ◌%◌, ◌^◌, List, if◌then◌else◌, ltb, leb, ◌==◌, ◌||◌, Option, none,
  some, min, take, drop, length,
}
use aalto_buenos.Prelude.Int.{ℤ, pos, negsuc}
use aalto_buenos.Prelude.Outcomes.{Outcome, ret, ◌>>=◌}
use aalto_buenos.Vfs.{vfs_error}
use aalto_buenos.Tfs.{Block, Disk, block_size, filesize, block_at}
use aalto_buenos.Tfs.Writing.{put_bytes}

-- What the buffer holds before bytes are put into it: the block where it is written in part. A block
-- that is written as a whole keeps nothing of what was there.
abbrev pub block_before : Disk → ℕ → ℕ → Option Block
block_before disk n count = if ltb count block_size then disk n else some (λ k. 0)

module _ (write_block : ℕ → Block → Disk → Option Disk) where
  -- The bytes `s` are put into the block `n` at the position `a`.
  unfoldable pub store : ℕ → ℕ → List ℕ → Disk → Option Disk
  store n a s disk = elim (block_before disk n (length s)) [
    | none ↦ none
    | some b ↦ write_block n (put_bytes b a s) disk
  ]

  -- the loop of `tfs_write` over the blocks from `b1` to `b2`, with `n` rounds left
  unfoldable pub write_blocks : Block → ℕ → ℕ → ℕ → ℕ → ℕ → List ℕ → Disk → Outcome (ℤ × Disk)
  write_blocks inode zero b1 b2 datasize written buffer disk = ret (pos written, disk)
  write_blocks inode (suc n) b1 b2 datasize written buffer disk = block_at inode b1 >>= λ block.
      let count = if b1 == b2 then datasize - written else block_size in
      elim (store block 0 (take count buffer) disk) [
        | none ↦ ret (vfs_error, disk)
        | some disk' ↦
            write_blocks inode n (b1 + 1) b2 datasize (written + count) (drop count buffer) disk'
      ]

  -- `tfs_write` once the number of bytes is known and is not 0
  unfoldable pub write_from : Block → ℕ → ℕ → List ℕ → Disk → Outcome (ℤ × Disk)
  write_from inode datasize offset buffer disk =
      let b1 = offset / block_size in
      let b2 = (offset + datasize - 1) / block_size in
      let written = min (block_size - offset % block_size) datasize in
      block_at inode b1 >>= λ block.
      elim (store block (offset % block_size) (take written buffer) disk) [
        | none ↦ ret (vfs_error, disk)
        | some disk' ↦
            write_blocks inode (b2 - b1) (b1 + 1) b2 datasize written (drop written buffer) disk'
      ]

  -- `tfs_write` at an offset that is not negative
  unfoldable pub write_inode : Block → ℕ → List ℕ → Disk → Outcome (ℤ × Disk)
  write_inode inode offset buffer disk =
      let datasize = min (length buffer) (filesize inode - offset) in
      let stored = write_from inode datasize offset buffer disk in
      if leb (2 ^ 31) (filesize inode) || ltb (filesize inode) offset
      then ret (vfs_error, disk)
      else if datasize == 0
      then ret (pos 0, disk)
      else stored

  unfoldable pub write : ℕ → ℤ → List ℕ → ℤ → Disk → Outcome (ℤ × Disk)
  write totalblocks (negsuc f) buffer offset disk = ret (vfs_error, disk)
  write totalblocks (pos fileid) buffer offset disk =
      if ltb fileid 2 || ltb totalblocks fileid then ret (vfs_error, disk) else elim (disk fileid) [
        | none ↦ ret (vfs_error, disk)
        | some inode ↦ elim offset [
          | pos o ↦ write_inode inode o buffer disk
          | negsuc o ↦ ret (vfs_error, disk)
        ]
      ]

-- ===== src/Tfs/Reading.antt =====
-- tfs_read of fs/tfs.c against the bytes of the file.
use aalto_buenos.Prelude.{
  ℕ, zero, suc, ◌+◌, ◌-◌, ◌*◌, ◌/◌, ◌%◌, ◌^◌, ◌≤◌, ◌<◌, ◌≡◌, refl, ap, ◌∙◌, [], ◌∷◌, ◌++◌, true,
  false, if◌then◌else◌, ltb, leb, ◌==◌, some, min, arith, ℕ_discrete, ==-false, ltb-true,
}
use aalto_buenos.Prelude.Int.{pos}
use aalto_buenos.Prelude.Outcomes.{ret}
use aalto_buenos.Libc.{Memory}
use aalto_buenos.Libc.Memory.{segment, segment-append}
use aalto_buenos.Tfs.{
  Block, Disk, blocks_max, block_size, filesize, block_number, read_blocks, read_from, read_inode,
  read,
}

-- The blocks of a file, by their number in the file, as they stand on the disk.
abbrev pub HoldsFile : Disk → Block → (ℕ → Block) → Type 0
HoldsFile disk inode file =
    (i : ℕ) → i * block_size < filesize inode → disk (block_number inode i) ≡ some (file i)

-- the byte at position `k` of the file
abbrev pub file_byte : (ℕ → Block) → Memory
file_byte file k = file (k / block_size) (k % block_size)

-- Bytes within one block are bytes of the file.
segment-file_byte :
    (file : ℕ → Block) (b s n : ℕ)
    → s + n ≤ block_size
    → segment (file b) s n ≡ segment (file_byte file) (b * block_size + s) n
segment-file_byte file b s zero le = refl
segment-file_byte file b s (suc n) le =
    let block : (b * block_size + s) / block_size ≡ b = omega arith in
    let place : (b * block_size + s) % block_size ≡ s = omega arith in
    let behind : b * block_size + (s + 1) ≡ b * block_size + s + 1 = omega arith in
    let tail : segment (file b) (s + 1) n ≡ segment (file_byte file) (b * block_size + s + 1) n =
      segment-file_byte file b (s + 1) n (omega arith)
      ∙ ap (λ x. segment (file_byte file) x n) behind in
    rw (block, place) (ap (λ t. file b s ∷ t) tail)

-- What has been read, with `c` more bytes from the start of the block `b`.
segment-next :
    (file : ℕ → Block) (offset got b c : ℕ)
    → offset + got ≡ b * block_size
    → c ≤ block_size
    → segment (file_byte file) offset got ++ segment (file b) 0 c
      ≡ segment (file_byte file) offset (got + c)
segment-next file offset got b c e le =
    let place : b * block_size + 0 ≡ offset + got = omega arith in
    ap (λ s. segment (file_byte file) offset got ++ s)
      (segment-file_byte file b 0 c (omega arith) ∙ ap (λ x. segment (file_byte file) x c) place)
    ∙ segment-append (file_byte file) offset got c

module _ (disk : Disk) (inode : Block) (file : ℕ → Block) (bufsize offset : ℕ)
    (holds : HoldsFile disk inode file) (short : filesize inode ≤ blocks_max * block_size)
    (nonempty : 0 < bufsize) (inside : offset + bufsize ≤ filesize inode) where
  last_block : ℕ
  last_block = (offset + bufsize - 1) / block_size

  read_blocks_lem :
      (n b1 got : ℕ)
      → n + b1 ≡ last_block + 1
      → offset + got ≡ min (b1 * block_size) (offset + bufsize)
      → read_blocks disk inode n b1 last_block bufsize got (segment (file_byte file) offset got)
        ≡ ret (pos bufsize, segment (file_byte file) offset bufsize)
  unfolding read_blocks last_block
  read_blocks_lem zero b1 got e m =
      let all : got ≡ bufsize = omega arith in
      ap (λ r. ret (pos r, segment (file_byte file) offset r)) all
  read_blocks_lem (suc n) b1 got e m =
      let found = holds b1 (omega arith) in
      let in_inode = ltb-true {a = b1} {b = blocks_max} (omega arith) in
      elim (ℕ_discrete b1 last_block) [
        | yes same ↦
            let test : (b1 == last_block) ≡ true = ground (arith, same) in
            rw
              (
                in_inode,
                found,
                read_blocks,
                test,
                segment-next file offset got b1 (bufsize - got) (omega arith) (omega arith),
              )
              (read_blocks_lem n (b1 + 1) (got + (bufsize - got)) (omega arith) (omega arith))
        | no other ↦
            rw
              (
                in_inode,
                found,
                read_blocks,
                ==-false other,
                segment-next file offset got b1 block_size (omega arith) (omega arith),
              )
              (read_blocks_lem n (b1 + 1) (got + block_size) (omega arith) (omega arith))
      ]

  read_from_lem :
      read_from disk inode bufsize offset
      ≡ ret (pos bufsize, segment (file_byte file) offset bufsize)
  unfolding read_from last_block
  read_from_lem =
      let b1 = offset / block_size in
      let count = min (block_size - offset % block_size) bufsize in
      let found = holds b1 (omega arith) in
      let in_inode = ltb-true {a = b1} {b = blocks_max} (omega arith) in
      let place : b1 * block_size + offset % block_size ≡ offset = omega arith in
      let first : segment (file b1) (offset % block_size) count
          ≡ segment (file_byte file) offset count =
        segment-file_byte file b1 (offset % block_size) count (omega arith)
        ∙ ap (λ x. segment (file_byte file) x count) place in
      rw (in_inode, found, read_from, first)
        (read_blocks_lem (last_block - b1) (b1 + 1) count (omega arith) (omega arith))

read_inode_lem :
    (disk : Disk) (inode : Block) (file : ℕ → Block) (bufsize offset : ℕ)
    → HoldsFile disk inode file
    → filesize inode ≤ blocks_max * block_size
    → offset ≤ filesize inode
    → read_inode disk inode bufsize offset
      ≡ ret (
        pos (min bufsize (filesize inode - offset)),
        segment (file_byte file) offset (min bufsize (filesize inode - offset)),
      )
unfolding read_inode
read_inode_lem disk inode file bufsize offset holds size in_file =
    let big : leb (2 ^ 31) (filesize inode) ≡ false = ground (arith, size) in
    let behind : ltb (filesize inode) offset ≡ false = ground (arith, in_file) in
    rw (big, behind) (by_size (min bufsize (filesize inode - offset)) (omega arith))
  where
    by_size :
        (m : ℕ)
        → offset + m ≤ filesize inode
        → (if m == 0 then ret (pos 0, []) else read_from disk inode m offset)
          ≡ ret (pos m, segment (file_byte file) offset m)
    by_size zero le = refl
    by_size (suc m) le =
        let test : (suc m == 0) ≡ false = ground arith in
        rw test (read_from_lem disk inode file (suc m) offset holds size (omega arith) le)

-- For an inode block within the bounds that the code tests, a file of at most 127 blocks of 512
-- bytes that the disk delivers, and an offset that is not behind its end, `tfs_read` reads no block
-- number behind the inode, returns the smaller of the number asked for and the number left, and the
-- buffer holds exactly these bytes of the file in order, across all its blocks.
pub read_lem :
    (totalblocks : ℕ) (disk : Disk) (fileid : ℕ) (inode : Block) (file : ℕ → Block)
    (bufsize offset : ℕ)
    → 2 ≤ fileid
    → fileid ≤ totalblocks
    → disk fileid ≡ some inode
    → HoldsFile disk inode file
    → filesize inode ≤ blocks_max * block_size
    → offset ≤ filesize inode
    → read totalblocks disk (pos fileid) bufsize (pos offset)
      ≡ ret (
        pos (min bufsize (filesize inode - offset)),
        segment (file_byte file) offset (min bufsize (filesize inode - offset)),
      )
unfolding read
read_lem totalblocks disk fileid inode file bufsize offset lo hi here holds size in_file =
    let low : ltb fileid 2 ≡ false = ground (arith, lo) in
    let high : ltb totalblocks fileid ≡ false = ground (arith, hi) in
    rw (low, high, here) (read_inode_lem disk inode file bufsize offset holds size in_file)

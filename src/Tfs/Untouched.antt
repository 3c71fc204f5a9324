-- ===== src/Tfs/Untouched.antt =====
-- fs/tfs.c: which blocks of the disk `tfs_write` changes.
use aalto_buenos.Prelude.{
  if-holds, ltb-true, leb, ◌^◌, true, false, ℕ, zero, suc, ◌+◌, ◌-◌, ◌*◌, ◌/◌, ◌%◌, ◌≤◌, ◌<◌, ◌≡◌,
  ◌≢◌, refl, sym, ◌∙◌, arith, dec_lt, List, if◌then◌else◌, ltb, ◌==◌, ◌||◌, Option, none, some, min,
  take, drop, length,
}
use aalto_buenos.Prelude.Int.{ℤ, pos, negsuc}
use aalto_buenos.Prelude.Outcomes.{Outcome, ret, failed, outside}
use aalto_buenos.Vfs.{vfs_error}
use aalto_buenos.Tfs.{Block, Disk, blocks_max, block_size, filesize, block_number}
use aalto_buenos.Tfs.Storing.{block_before, store, write_blocks, write_from, write_inode, write}
use aalto_buenos.Tfs.Writing.{put_bytes}

-- A request that succeeds changes no other block.
abbrev pub WritesOne : (ℕ → Block → Disk → Option Disk) → Type 0
WritesOne write_block =
    (n m : ℕ) (b : Block) (disk disk' : Disk)
    → write_block n b disk ≡ some disk'
    → m ≢ n
    → disk' m ≡ disk m

module _ (write_block : ℕ → Block → Disk → Option Disk) (one : WritesOne write_block) where
  -- What a request leaves of the block `m`, if it succeeds.
  abbrev Keeps : ℕ → Disk → Option Disk → Type 0
  Keeps m disk none = Unit
  Keeps m disk (some disk') = disk' m ≡ disk m

  write_block-Keeps :
      (n m : ℕ) (b : Block) (disk : Disk) → m ≢ n → Keeps m disk (write_block n b disk)
  write_block-Keeps n m b disk ne = kept (write_block n b disk) refl
    where
      kept : (r : Option Disk) → write_block n b disk ≡ r → Keeps m disk r
      kept none e = tt
      kept (some disk') e = one n m b disk disk' e ne

  store-Keeps :
      (n m a : ℕ) (s : List ℕ) (disk : Disk) → m ≢ n → Keeps m disk (store write_block n a s disk)
  unfolding store
  store-Keeps n m a s disk ne = kept (block_before disk n (length s))
    where
      kept :
          (r : Option Block)
          → Keeps m disk (elim r [ none ↦ none | some b ↦ write_block n (put_bytes b a s) disk ])
      kept none = tt
      kept (some b) = write_block-Keeps n m (put_bytes b a s) disk ne

  -- A call that returns leaves the block `m` as it was on `disk`; it does return.
  abbrev Leaves : ℕ → Disk → Outcome (ℤ × Disk) → Type 0
  Leaves m disk failed = ⊥
  Leaves m disk outside = ⊥
  Leaves m disk (ret r) = r.1 m ≡ disk m

  Leaves-trans :
      (m : ℕ) (disk disk' : Disk) (r : Outcome (ℤ × Disk))
      → Leaves m disk' r
      → disk' m ≡ disk m
      → Leaves m disk r
  Leaves-trans m disk disk' (ret r) l k = l ∙ k
  Leaves-trans m disk disk' failed l k = l
  Leaves-trans m disk disk' outside l k = l

  -- What follows a request to write.
  after_store :
      (m : ℕ) (disk : Disk) (rest : Disk → Outcome (ℤ × Disk)) (r : Option Disk)
      → ((disk' : Disk) → Leaves m disk' (rest disk'))
      → Keeps m disk r
      → Leaves m disk (elim r as (λ x. Outcome (ℤ × Disk)) [
        | none ↦ ret (vfs_error, disk)
        | some disk' ↦ rest disk'
      ])
  after_store m disk rest none further k = refl
  after_store m disk rest (some disk') further k =
      Leaves-trans m disk disk' (rest disk') (further disk') k

  write_blocks-Leaves :
      (inode : Block) (n b1 b2 datasize written m : ℕ) (buffer : List ℕ) (disk : Disk)
      → ((i : ℕ) → i < b1 + n → block_number inode i ≢ m)
      → b1 + n ≤ blocks_max
      → Leaves m disk (write_blocks write_block inode n b1 b2 datasize written buffer disk)
  unfolding write_blocks
  write_blocks-Leaves inode zero b1 b2 datasize written m buffer disk other short = refl
  write_blocks-Leaves inode (suc n) b1 b2 datasize written m buffer disk other short =
      let count = if b1 == b2 then datasize - written else block_size in
      rw (ltb-true {a = b1} {b = blocks_max} (omega arith)) (
        after_store m disk
          (write_blocks write_block inode n (b1 + 1) b2 datasize (written + count)
            (drop count buffer))
          (store write_block (block_number inode b1) 0 (take count buffer) disk)
          (λ disk'.
            write_blocks-Leaves inode n (b1 + 1) b2 datasize (written + count) m (drop count buffer)
              disk' (λ i lt. other i (omega arith)) (omega arith))
          (store-Keeps (block_number inode b1) m 0 (take count buffer) disk
            (λ e. other b1 (omega arith) (sym e))))

  write_from-Leaves :
      (inode : Block) (datasize offset m : ℕ) (buffer : List ℕ) (disk : Disk)
      → ((i : ℕ) → i * block_size < offset + datasize → block_number inode i ≢ m)
      → offset + datasize ≤ blocks_max * block_size
      → 0 < datasize
      → Leaves m disk (write_from write_block inode datasize offset buffer disk)
  unfolding write_from
  write_from-Leaves inode datasize offset m buffer disk other short some_bytes =
      let b1 = offset / block_size in
      let last = (offset + datasize - 1) / block_size in
      let written = min (block_size - offset % block_size) datasize in
      rw (ltb-true {a = offset / block_size} {b = blocks_max} (omega arith)) (
        after_store m disk
          (write_blocks write_block inode (last - b1) (b1 + 1) last datasize written
            (drop written buffer))
          (store write_block (block_number inode b1) (offset % block_size) (take written buffer)
            disk)
          (λ disk'.
            write_blocks-Leaves inode (last - b1) (b1 + 1) last datasize written m
              (drop written buffer) disk' (λ i lt. other i (omega arith)) (omega arith))
          (store-Keeps (block_number inode b1) m (offset % block_size) (take written buffer) disk
            (λ e. other b1 (omega arith) (sym e))))

  write_inode-Leaves :
      (inode : Block) (offset m : ℕ) (buffer : List ℕ) (disk : Disk)
      → ((i : ℕ) → i * block_size < filesize inode → block_number inode i ≢ m)
      → filesize inode ≤ blocks_max * block_size
      → Leaves m disk (write_inode write_block inode offset buffer disk)
  unfolding write_inode
  write_inode-Leaves inode offset m buffer disk other short =
      let size : leb (2 ^ 31) (filesize inode) ≡ false = ground (arith, short) in
      elim (dec_lt (filesize inode) offset) [
        | yes behind ↦
            let test : ltb (filesize inode) offset ≡ true = ltb-true behind in rw (size, test) refl
        | no inside ↦
            let test : ltb (filesize inode) offset ≡ false = ground (arith, inside) in
            rw (size, test) (by_size (min (length buffer) (filesize inode - offset)) (omega arith))
      ]
    where
      by_size :
          (d : ℕ)
          → offset + d ≤ filesize inode
          → Leaves m disk (
              if d == 0
              then ret (pos 0, disk)
              else write_from write_block inode d offset buffer disk)
      by_size zero le = refl
      by_size (suc d) le =
          let test : (suc d == 0) ≡ false = ground arith in
          rw test (
            write_from-Leaves inode (suc d) offset m buffer disk (λ i lt. other i (omega arith))
              (omega arith) (omega arith))

  -- Where a request that succeeds changes no other block, and the file's size is at most that of
  -- 127 blocks, `tfs_write` reads no block number behind the inode and returns, and leaves every
  -- block of the disk as it was that is none of the blocks that the file's size takes in its inode:
  -- when it succeeds, when it refuses the file id or the offset, and when it fails in the middle.
  pub write-keeps_others :
      (totalblocks : ℕ) (fileid offset : ℤ) (m : ℕ) (buffer : List ℕ) (disk : Disk)
      → ((n : ℕ) (inode : Block)
          → fileid ≡ pos n
          → disk n ≡ some inode
          → filesize inode ≤ blocks_max * block_size)
      → ((n : ℕ) (inode : Block)
          → fileid ≡ pos n
          → disk n ≡ some inode
          → (i : ℕ) → i * block_size < filesize inode
          → block_number inode i ≢ m)
      → (r : ℤ × Disk) × (write write_block totalblocks fileid buffer offset disk ≡ ret r)
        × (r.1 m ≡ disk m)
  unfolding write
  write-keeps_others totalblocks (negsuc f) offset m buffer disk short other =
      ((vfs_error, disk), refl, refl)
  write-keeps_others totalblocks (pos n) offset m buffer disk short other =
      returned (write write_block totalblocks (pos n) buffer offset disk) (
        if-holds (Leaves m disk) (ltb n 2 || ltb totalblocks n) _ _ refl
          (from_inode (disk n) refl offset))
    where
      returned :
          (o : Outcome (ℤ × Disk))
          → Leaves m disk o
          → (r : ℤ × Disk) × (o ≡ ret r) × (r.1 m ≡ disk m)
      returned (ret r) l = (r, refl, l)
      returned failed l = absurd l
      returned outside l = absurd l

      from_inode :
          (r : Option Block)
          → disk n ≡ r
          → (offset : ℤ)
          → Leaves m disk (elim r as (λ x. Outcome (ℤ × Disk)) [
            | none ↦ ret (vfs_error, disk)
            | some inode ↦ elim offset [
              | pos o ↦ write_inode write_block inode o buffer disk
              | negsuc o ↦ ret (vfs_error, disk)
            ]
          ])
      from_inode none e offset = refl
      from_inode (some inode) e (pos o) =
          write_inode-Leaves inode o m buffer disk (other n inode refl e) (short n inode refl e)
      from_inode (some inode) e (negsuc o) = refl

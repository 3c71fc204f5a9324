-- ===== src/Tfs/Freeing.antt =====
-- fs/tfs.c: `tfs_remove` gives back the blocks that `tfs_create` has taken.
use aalto_buenos.Prelude.{ℕ, ◌≡◌, List, [], ◌∷◌}
use aalto_buenos.Prelude.Outcomes.{ret}
use aalto_buenos.Bitmap.{Bitmap, get_at, set_at}
use aalto_buenos.Tfs.{blocks_max}
use aalto_buenos.Tfs.Writing.{new_inode, free_blocks}

-- The bits of the blocks of a list, cleared in order.
abbrev pub clear_all : List ℕ → Bitmap → Bitmap
clear_all [] bat = bat
clear_all (b ∷ blocks) bat = clear_all blocks (set_at bat b 0)

-- Freeing the blocks of the new inode comes to an end and restores the bits.
abbrev Restores : ℕ → List ℕ → Bitmap → Bitmap → Type 0
Restores size blocks bat bat' =
    (bm : Bitmap) × (free_blocks blocks_max 0 (new_inode size blocks) bat' ≡ ret bm)
    × ((q : ℕ) → get_at bm q ≡ get_at bat q)

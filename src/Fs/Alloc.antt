-- ===== src/Fs/Alloc.antt =====
-- `bzero`, `balloc` and `bfree` of fs.c.
use operating_systems_work.Base.{
  ℕ, zero, suc, ◌+◌, ◌/◌, ◌%◌, not, Option, none, some, if◌then◌else◌,
}
use operating_systems_work.Fs.Disk.{
  Disk, put_block, put_byte, bits_per_block, Superblock, bitmap_block, set_bit, clear_bit, is_used,
}

-- `memset` of the whole block.
unfoldable pub bzero : ℕ → Disk → Disk
bzero b d = put_block d b (λ i. 0)

module _ (sb : Superblock) where
  -- The change of the bit of block `b` in its bitmap block.
  abbrev pub change_bit : (ℕ → ℕ → ℕ) → ℕ → Disk → Disk
  change_bit f b d =
      let bp = bitmap_block sb b in
      let bi = b % bits_per_block in
      put_block d bp (put_byte (d bp) (bi / 8) (f (d bp (bi / 8)) (bi % 8)))

  -- The two loops, which together try the blocks in order: `n` of them from `b` on. `none` is the
  -- panic "balloc: out of blocks".
  unfoldable pub balloc_from : ℕ → ℕ → Disk → Option (ℕ × Disk)
  balloc_from zero b d = none
  balloc_from (suc n) b d =
      let rest = balloc_from n (b + 1) d in
      if not (is_used sb d b) then some (b, bzero b (change_bit set_bit b d)) else rest

  unfoldable pub balloc : Disk → Option (ℕ × Disk)
  balloc d = balloc_from sb.size 0 d

  -- `none` is the panic "freeing free block".
  unfoldable pub bfree : ℕ → Disk → Option Disk
  bfree b d = if is_used sb d b then some (change_bit clear_bit b d) else none

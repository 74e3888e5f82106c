-- ===== src/Fs/Disk.antt =====
-- The disk as fs.c sees it through `bread` and `log_write`, and the layout of fs.h.
use operating_systems_work.Base.{ℕ, ◌+◌, ◌-◌, ◌/◌, ◌%◌, ◌^◌, Bool, ◌==◌, if◌then◌else◌}

-- The bytes of each block.
abbrev pub Block : Type 0
Block = ℕ → ℕ

abbrev pub Disk : Type 0
Disk = ℕ → Block

abbrev pub put_block : Disk → ℕ → Block → Disk
put_block d b x c = if c == b then x else d c

abbrev pub put_byte : Block → ℕ → ℕ → Block
put_byte x i v j = if j == i then v else x j

-- BSIZE, BPB, NDIRECT, NINDIRECT.
abbrev pub block_size : ℕ
block_size = 512

abbrev pub bits_per_block : ℕ
bits_per_block = 4096

abbrev pub num_direct : ℕ
num_direct = 12

abbrev pub num_indirect : ℕ
num_indirect = 128

-- `struct superblock`, but for `nblocks`, `nlog` and `logstart`, which fs.c only prints.
pub record Superblock : Type 0 where
  pub size : ℕ
  pub ninodes : ℕ
  pub inodestart : ℕ
  pub bmapstart : ℕ

-- `BBLOCK(b, sb)`
abbrev pub bitmap_block : Superblock → ℕ → ℕ
bitmap_block sb b = b / bits_per_block + sb.bmapstart

-- Bit `k` of a byte, as `data[bi/8] & (1 << k)` tests it, `|` sets it and `& ~` clears it.
abbrev pub bit_of : ℕ → ℕ → Bool
bit_of byte k = byte / 2 ^ k % 2 == 1

unfoldable pub set_bit : ℕ → ℕ → ℕ
set_bit byte k = if bit_of byte k then byte else byte + 2 ^ k

unfoldable pub clear_bit : ℕ → ℕ → ℕ
clear_bit byte k = if bit_of byte k then byte - 2 ^ k else byte

-- Whether the bitmap says that block `b` is in use.
abbrev pub is_used : Superblock → Disk → ℕ → Bool
is_used sb d b = let bi = b % bits_per_block in bit_of (d (bitmap_block sb b) (bi / 8)) (bi % 8)

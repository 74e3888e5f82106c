-- ===== src/Fs/Inode.antt =====
-- Inodes and their blocks: `bmap` of fs.c, and the loops of `readi` and `writei`.
use operating_systems_work.Base.{
  ℕ, zero, suc, ◌+◌, ◌-◌, ◌*◌, ◌/◌, ◌%◌, ◌^◌, Bool, Option, none, some, ◌==◌, ltb, leb,
  if◌then◌else◌, min,
}
use operating_systems_work.Fs.Disk.{
  Block, Disk, put_block, put_byte, block_size, num_direct, num_indirect, Superblock,
}
use operating_systems_work.Fs.Alloc.{balloc}

-- `struct inode` of file.h, without its lock.
pub record Inode : Type 0 where
  pub dev : ℕ
  pub inum : ℕ
  pub ref : ℕ
  pub valid : Bool
  pub type : ℕ
  pub major : ℕ
  pub minor : ℕ
  pub nlink : ℕ
  pub size : ℕ
  pub addrs : ℕ → ℕ

abbrev pub uint_mod : ℕ
uint_mod = 2 ^ 32

-- MAXFILE, in blocks.
abbrev pub max_file : ℕ
max_file = 140

-- `((uint*)data)[j]`, with the low byte first.
unfoldable pub get_uint : Block → ℕ → ℕ
get_uint x j = x (4 * j) + x (4 * j + 1) * 256 + x (4 * j + 2) * 65536 + x (4 * j + 3) * 16777216

unfoldable pub put_uint : Block → ℕ → ℕ → Block
put_uint x j v =
    put_byte
      (put_byte (put_byte (put_byte x (4 * j) (v % 256)) (4 * j + 1) (v / 256 % 256)) (4 * j + 2)
        (v / 65536 % 256))
      (4 * j + 3) (v / 16777216 % 256)

abbrev pub set_addr : Inode → ℕ → ℕ → Inode
set_addr ip k b = record ip { addrs = λ i. if i == k then b else ip.addrs i }

module _ (sb : Superblock) where
  -- `if((addr = ip->addrs[k]) == 0) ip->addrs[k] = addr = balloc(ip->dev);`
  unfoldable pub ensure_addr : ℕ → Inode → Disk → Option (ℕ × Inode × Disk)
  ensure_addr k ip d =
      if ip.addrs k == 0
      then elim (balloc sb d) [ none ↦ none | some (b, d') ↦ some (b, set_addr ip k b, d') ]
      else some (ip.addrs k, ip, d)

  -- The entry `j` of the indirect block `ia`.
  unfoldable pub ensure_entry : ℕ → ℕ → Inode → Disk → Option (ℕ × Inode × Disk)
  ensure_entry ia j ip d =
      let addr = get_uint (d ia) j in
      if addr == 0
      then elim (balloc sb d) [
        | none ↦ none
        | some (b, d') ↦ some (b, ip, put_block d' ia (put_uint (d ia) j b))
      ]
      else some (addr, ip, d)

  -- `none` is a panic, here or in `balloc`.
  unfoldable pub bmap : ℕ → Inode → Disk → Option (ℕ × Inode × Disk)
  bmap bn ip d =
      if ltb bn num_direct
      then ensure_addr bn ip d
      else if ltb (bn - num_direct) num_indirect
      then elim (ensure_addr num_direct ip d) [
        | none ↦ none
        | some (ia, ip', d') ↦ ensure_entry ia (bn - num_direct) ip' d'
      ]
      else none

  -- The loop of `readi`, where `n` is the `n - tot` of the code, and `dst` the place in `buf` that is
  -- filled next. Each round reads at least a byte.
  unfoldable pub read_loop :
      ℕ → ℕ → ℕ → ℕ → Inode → Disk → (ℕ → ℕ) → Option (Inode × Disk × (ℕ → ℕ))
  read_loop zero off dst n ip d buf = some (ip, d, buf)
  read_loop (suc rounds) off dst n ip d buf =
      let m = min n (block_size - off % block_size) in
      let next : Option (Inode × Disk × (ℕ → ℕ)) = elim (bmap (off / block_size) ip d) [
        | none ↦ none
        | some (a, ip', d') ↦ read_loop rounds (off + m) (dst + m) (n - m) ip' d' (λ i.
            if leb dst i
            then if ltb i (dst + m) then d' a (i - dst + off % block_size) else buf i
            else buf i)
      ] in
      if n == 0 then some (ip, d, buf) else next

  -- The loop of `writei`: the bytes come from `src` on in `buf`.
  unfoldable pub write_loop : ℕ → ℕ → ℕ → ℕ → Inode → Disk → (ℕ → ℕ) → Option (Inode × Disk)
  write_loop zero off src n ip d buf = some (ip, d)
  write_loop (suc rounds) off src n ip d buf =
      let m = min n (block_size - off % block_size) in
      let next : Option (Inode × Disk) = elim (bmap (off / block_size) ip d) [
        | none ↦ none
        | some (a, ip', d') ↦
            write_loop rounds (off + m) (src + m) (n - m) ip'
              (put_block d' a (λ j.
                if leb (off % block_size) j
                then if ltb j (off % block_size + m)
                  then buf (j - off % block_size + src)
                  else d' a j
                else d' a j))
              buf
      ] in
      if n == 0 then some (ip, d) else next

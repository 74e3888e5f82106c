-- ===== src/Fs/Dinode.antt =====
-- The inodes on the disk, and the operations of fs.c that read and write them: `iupdate`, the read
-- of `ilock`, `itrunc` and `stati`.
use operating_systems_work.Base.{
  ℕ, zero, suc, ◌+◌, ◌*◌, ◌/◌, ◌%◌, Option, none, some, ◌==◌, ltb, if◌then◌else◌,
}
use operating_systems_work.Fs.Disk.{
  Block, Disk, put_block, put_byte, num_direct, num_indirect, Superblock,
}
use operating_systems_work.Fs.Alloc.{bfree}
use operating_systems_work.Fs.Inode.{Inode, get_uint, put_uint, set_addr}

-- IPB, and `IBLOCK(i, sb)`.
abbrev pub inodes_per_block : ℕ
inodes_per_block = 8

abbrev pub inode_block : Superblock → ℕ → ℕ
inode_block sb i = i / inodes_per_block + sb.inodestart

-- A short, by its 16 bits, with the low byte first: number `k` of the block.
unfoldable pub get_short : Block → ℕ → ℕ
get_short x k = x (2 * k) + x (2 * k + 1) * 256

unfoldable pub put_short : Block → ℕ → ℕ → Block
put_short x k v = put_byte (put_byte x (2 * k) (v % 256)) (2 * k + 1) (v / 256 % 256)

-- `memmove(dip->addrs, ip->addrs, ...)` for the first `n` addresses, into slot `s` of the block: a
-- `struct dinode` has four shorts, the size and the addresses, which are 16 uints.
unfoldable pub copy_addrs : ℕ → ℕ → (ℕ → ℕ) → Block → Block
copy_addrs zero s addrs x = x
copy_addrs (suc n) s addrs x = put_uint (copy_addrs n s addrs x) (16 * s + 3 + n) (addrs n)

unfoldable pub put_shorts : ℕ → Inode → Block → Block
put_shorts s ip x =
    put_short
      (put_short (put_short (put_short x (32 * s) ip.type) (32 * s + 1) ip.major) (32 * s + 2)
        ip.minor)
      (32 * s + 3) ip.nlink

-- `dip->type = ip->type; ...` of `iupdate`, where `dip` is slot `s`.
unfoldable pub put_dinode : ℕ → Inode → Block → Block
put_dinode s ip x =
    copy_addrs (suc num_direct) s ip.addrs (put_uint (put_shorts s ip x) (16 * s + 2) ip.size)

-- `ip->type = dip->type; ...` of `ilock`.
unfoldable pub get_dinode : ℕ → Block → Inode → Inode
get_dinode s x ip = record ip {
  type = get_short x (32 * s);
  major = get_short x (32 * s + 1);
  minor = get_short x (32 * s + 2);
  nlink = get_short x (32 * s + 3);
  size = get_uint x (16 * s + 2);
  addrs = λ k. if ltb k (suc num_direct) then get_uint x (16 * s + 3 + k) else ip.addrs k;
}

-- `struct stat`.
pub record Stat : Type 0 where
  pub type : ℕ
  pub dev : ℕ
  pub ino : ℕ
  pub nlink : ℕ
  pub size : ℕ

unfoldable pub stati : Inode → Stat
stati ip = record { type = ip.type; dev = ip.dev; ino = ip.inum; nlink = ip.nlink; size = ip.size }

-- The superblock, in block 1; `readsb` also takes the fields that fs.c only prints.
unfoldable pub readsb : Disk → Superblock
readsb d = record {
  size = get_uint (d 1) 0;
  ninodes = get_uint (d 1) 2;
  inodestart = get_uint (d 1) 5;
  bmapstart = get_uint (d 1) 6;
}

module _ (sb : Superblock) where
  unfoldable pub iupdate : Inode → Disk → Disk
  iupdate ip d =
      let b = inode_block sb ip.inum in
      put_block d b (put_dinode (ip.inum % inodes_per_block) ip (d b))

  -- The read of `ilock`, for an inode that is not valid.
  unfoldable pub read_inode : Inode → Disk → Inode
  read_inode ip d = get_dinode (ip.inum % inodes_per_block) (d (inode_block sb ip.inum)) ip

  -- A round of the first loop of `itrunc`; `none` is the panic of `bfree`.
  unfoldable pub free_addr : ℕ → Inode → Disk → Option (Inode × Disk)
  free_addr i ip d =
      if ip.addrs i == 0
      then some (ip, d)
      else elim (bfree sb (ip.addrs i) d) [ none ↦ none | some d' ↦ some (set_addr ip i 0, d') ]

  -- The first loop, for the `n` addresses from `i` on.
  unfoldable pub free_direct : ℕ → ℕ → Inode → Disk → Option (Inode × Disk)
  free_direct zero i ip d = some (ip, d)
  free_direct (suc n) i ip d = elim (free_addr i ip d) [
    | none ↦ none
    | some (ip', d') ↦ free_direct n (i + 1) ip' d'
  ]

  -- A round of the second loop, over the entries of the indirect block `ia`.
  unfoldable pub free_entry : ℕ → ℕ → Disk → Option Disk
  free_entry ia j d = if get_uint (d ia) j == 0 then some d else bfree sb (get_uint (d ia) j) d

  unfoldable pub free_entries : ℕ → ℕ → ℕ → Disk → Option Disk
  free_entries zero ia j d = some d
  free_entries (suc n) ia j d = elim (free_entry ia j d) [
    | none ↦ none
    | some d' ↦ free_entries n ia (j + 1) d'
  ]

  -- `if(ip->addrs[NDIRECT]){ ... }`
  unfoldable pub free_indirect : Inode → Disk → Option (Inode × Disk)
  free_indirect ip d =
      if ip.addrs num_direct == 0
      then some (ip, d)
      else elim (free_entries num_indirect (ip.addrs num_direct) 0 d) [
        | none ↦ none
        | some d' ↦ free_addr num_direct ip d'
      ]

  unfoldable pub itrunc : Inode → Disk → Option (Inode × Disk)
  itrunc ip d = elim (free_direct num_direct 0 ip d) [
    | none ↦ none
    | some (ip₁, d₁) ↦ elim (free_indirect ip₁ d₁) [
      | none ↦ none
      | some (ip₂, d₂) ↦ (let ip₃ : Inode = record ip₂ { size = 0 } in some (ip₃, iupdate ip₃ d₂))
    ]
  ]

-- ===== src/Fs/Icache.antt =====
-- The inode cache of fs.c: `ialloc`, `iget`, `idup`, `ilock`, `iunlock`, `iput`, `iunlockput`. A
-- pointer to a cached inode is the number of its slot.
use operating_systems_work.Base.{
  ℕ, zero, suc, ◌+◌, ◌-◌, ◌*◌, ◌%◌, Bool, true, false, ◌&&◌, ◌||◌, not, Option, none, some, List,
  [], ◌∷◌, ◌==◌, ltb, leb, if◌then◌else◌, modify, set, get_or,
}
use operating_systems_work.Fs.Disk.{Block, Disk, put_block, Superblock}
use operating_systems_work.Fs.Inode.{Inode}
use operating_systems_work.Fs.Dinode.{
  inodes_per_block, inode_block, get_short, put_short, iupdate, read_inode, itrunc,
}

-- A slot of the table before its first use.
abbrev pub no_inode : Inode
no_inode = record {
  dev = 0;
  inum = 0;
  ref = 0;
  valid = false;
  type = 0;
  major = 0;
  minor = 0;
  nlink = 0;
  size = 0;
  addrs = λ k. 0;
}

-- What the loop of `iget` ends with: the slot that holds the inode, or the first empty slot.
pub data Scan : Type 0 where
  cached : ℕ → Scan
  vacant : ℕ → Scan
  full : Scan

abbrev pub is_inode : ℕ → ℕ → Inode → Bool
is_inode dev inum ip = ltb 0 ip.ref && (ip.dev == dev) && (ip.inum == inum)

abbrev pub remember : Option ℕ → ℕ → Inode → Option ℕ
remember none i ip = if ip.ref == 0 then some i else none
remember (some e) i ip = some e

abbrev pub scan_end : Option ℕ → Scan
scan_end none = full
scan_end (some e) = vacant e

-- The loop from slot `i` on, where `empty` is the empty slot that it remembers.
unfoldable pub scan_icache : ℕ → ℕ → List Inode → ℕ → Option ℕ → Scan
scan_icache dev inum [] i empty = scan_end empty
scan_icache dev inum (ip ∷ t) i empty =
    let rest = scan_icache dev inum t (i + 1) (remember empty i ip) in
    if is_inode dev inum ip then cached i else rest

abbrev pub add_inode_ref : Inode → Inode
add_inode_ref ip = record ip { ref = ip.ref + 1 }

abbrev pub recycle_inode : ℕ → ℕ → Inode → Inode
recycle_inode dev inum ip = record ip { dev = dev; inum = inum; ref = 1; valid = false }

-- `none` is the panic "iget: no inodes".
unfoldable pub iget : ℕ → ℕ → List Inode → Option (ℕ × List Inode)
iget dev inum t = elim (scan_icache dev inum t 0 none) [
  | cached i ↦ some (i, modify t i add_inode_ref)
  | vacant i ↦ some (i, modify t i (recycle_inode dev inum))
  | full ↦ none
]

unfoldable pub idup : ℕ → List Inode → List Inode
idup i t = modify t i add_inode_ref

-- `memset(dip, 0, sizeof(*dip))` of slot `s` of a block.
unfoldable pub zero_dinode : ℕ → Block → Block
zero_dinode s x j = if leb (64 * s) j && ltb j (64 * s + 64) then 0 else x j

-- `iunlock`, where `held` is the answer of `holdingsleep`; `none` is its panic. To release the lock
-- changes nothing else.
unfoldable pub iunlock : Bool → ℕ → List Inode → Option (List Inode)
iunlock held i t = if not held || ltb (get_or t i no_inode).ref 1 then none else some t

-- A caller of `iput` has a reference, so that the subtraction does not stop at 0.
abbrev pub drop_inode_ref : Inode → Inode
drop_inode_ref ip = record ip { ref = ip.ref - 1 }

module _ (sb : Superblock) where
  abbrev pub dinode_type : ℕ → Disk → ℕ
  dinode_type inum d = get_short (d (inode_block sb inum)) (32 * (inum % inodes_per_block))

  -- The block of a new inode of type `type`.
  abbrev pub mark_inode : ℕ → ℕ → Disk → Disk
  mark_inode inum type d =
      let b = inode_block sb inum in
      let s = inum % inodes_per_block in
      put_block d b (put_short (zero_dinode s (d b)) (32 * s) type)

  -- The loop of `ialloc`, for the `n` inodes from `inum` on; `none` is a panic, here or in `iget`.
  unfoldable pub ialloc_from : ℕ → ℕ → ℕ → ℕ → List Inode → Disk → Option (ℕ × List Inode × Disk)
  ialloc_from zero inum dev type t d = none
  ialloc_from (suc n) inum dev type t d =
      let rest = ialloc_from n (inum + 1) dev type t d in
      if dinode_type inum d == 0
      then elim (iget dev inum t) [
        | none ↦ none
        | some (i, t') ↦ some (i, t', mark_inode inum type d)
      ]
      else rest

  unfoldable pub ialloc : ℕ → ℕ → List Inode → Disk → Option (ℕ × List Inode × Disk)
  ialloc dev type t d = ialloc_from (sb.ninodes - 1) 1 dev type t d

  -- `ilock` once it has the lock; `none` is a panic.
  unfoldable pub ilock : ℕ → List Inode → Disk → Option (List Inode)
  ilock i t d =
      let ip = get_or t i no_inode in
      let ip' : Inode = record (read_inode sb ip d) { valid = true } in
      if ltb ip.ref 1
      then none
      else if ip.valid
      then some t
      else if ip'.type == 0
      then none
      else some (set t i ip')

  -- The part of `iput` that frees an inode without links and without other references.
  unfoldable pub iput_free : Inode → Disk → Option (Inode × Disk)
  iput_free ip d =
      if ip.valid && (ip.nlink == 0) && (ip.ref == 1)
      then elim (itrunc sb ip d) [
        | none ↦ none
        | some (ip', d') ↦
            (let freed : Inode = record ip' { type = 0 } in
              some (record freed { valid = false }, iupdate sb freed d'))
      ]
      else some (ip, d)

  unfoldable pub iput : ℕ → List Inode → Disk → Option (List Inode × Disk)
  iput i t d = elim (iput_free (get_or t i no_inode) d) [
    | none ↦ none
    | some (ip, d') ↦ some (modify (set t i ip) i drop_inode_ref, d')
  ]

  unfoldable pub iunlockput : Bool → ℕ → List Inode → Disk → Option (List Inode × Disk)
  iunlockput held i t d = elim (iunlock held i t) [ none ↦ none | some t' ↦ iput i t' d ]

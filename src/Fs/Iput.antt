-- ===== src/Fs/Iput.antt =====
-- `iput`: the last reference to an inode without links frees it.
use operating_systems_work.Base.{
  ℕ, ◌-◌, ◌<◌, ◌≡◌, ◌≢◌, refl, ap, ◌∙◌, Bool, true, false, ◌&&◌, some, List, [], ◌∷◌, ◌==◌, arith,
  zero, suc, get_elem?, set, modify, get_elem?-modify_self, get_elem?-modify_ne, get_elem?-set_self,
  get_elem?-set_ne, get_elem?_lt, get_or_of_get_elem?,
}
use operating_systems_work.Fs.Disk.{Disk, Superblock, bitmap_block, is_used}
use operating_systems_work.Fs.Inode.{Inode}
use operating_systems_work.Fs.Free.{IsDisk}
use operating_systems_work.Fs.Whole.{IsFile}
use operating_systems_work.Fs.Dinode.{inode_block, iupdate, read_inode, itrunc}
use operating_systems_work.Fs.Slot.{IsStorable}
use operating_systems_work.Fs.Stored.{SameFields, iupdate_other, iupdate-read_inode, iupdate-Bytes}
use operating_systems_work.Fs.Clear.{emptied}
use operating_systems_work.Fs.Emptying.{block_seq, owned}
use operating_systems_work.Fs.Truncate.{
  Truncated, used_same, IsDisk-same, emptied-IsStorable, itrunc_lem,
}
use operating_systems_work.Fs.Icache.{no_inode, drop_inode_ref, iput_free, iput}

-- Whether `iput` frees the inode.
abbrev pub is_last : Inode → Bool
is_last ip = ip.valid && (ip.nlink == 0) && (ip.ref == 1)

-- The inode of which neither the disk nor the cache holds anything.
abbrev pub erased : Inode → Inode
erased ip = record (emptied ip) { type = 0; valid = false; ref = 0 }

-- The disk after the inode is freed, with the blocks of its file.
pub record Erased (sb : Superblock) (ip : Inode) (d d' : Disk) : Type 0 where
  pub sound : IsDisk sb d'
  pub freed : (n : ℕ) → n < 141 → block_seq ip d n ≢ 0 → is_used sb d' (block_seq ip d n) ≡ false
  pub kept :
      (c : ℕ)
      → c < sb.size
      → ((n : ℕ) → n < 141 → block_seq ip d n ≢ 0 → block_seq ip d n ≢ c)
      → is_used sb d' c ≡ is_used sb d c
  pub others :
      (c : ℕ)
      → c ≢ inode_block sb ip.inum
      → ((e : ℕ) → e < sb.size → bitmap_block sb e ≢ c)
      → d' c ≡ d c
  pub neighbours :
      (jp : Inode)
      → jp.inum ≢ ip.inum
      → ((e : ℕ) → e < sb.size → bitmap_block sb e ≢ inode_block sb jp.inum)
      → read_inode sb jp d' ≡ read_inode sb jp d
  pub stored : (jp : Inode) → jp.inum ≡ ip.inum → SameFields (erased ip) (read_inode sb jp d')

module _ (sb : Superblock) (ip : Inode) (d : Disk) where
  free_steps :
      (ip' : Inode) (d' : Disk)
      → is_last ip ≡ true
      → itrunc sb ip d ≡ some (ip', d')
      → iput_free sb ip d
        ≡ some (record ip' { type = 0; valid = false }, iupdate sb (record ip' { type = 0 }) d')
  unfolding iput_free
  free_steps ip' d' h e = rw (iput_free, h, e) refl

  no_free : is_last ip ≡ false → iput_free sb ip d ≡ some (ip, d)
  unfolding iput_free
  no_free h = rw (iput_free, h) refl

  -- The type of the inode becomes 0 on the disk.
  module _ (f : IsFile sb ip d) (w : IsStorable ip)
      (plain : (e : ℕ) → e < sb.size → bitmap_block sb e ≢ inode_block sb ip.inum) (e : Disk)
      (s : Truncated sb ip d e) where
    abbrev marked : Inode
    marked = record (emptied ip) { type = 0 }

    abbrev after : Disk
    after = iupdate sb marked e

    marked-IsStorable : IsStorable marked
    marked-IsStorable = record {
      type = omega arith;
      major = w.major;
      minor = w.minor;
      nlink = w.nlink;
      size = omega arith;
      addrs = (emptied-IsStorable ip w).addrs;
    }

    same : (c : ℕ) → c < sb.size → is_used sb after c ≡ is_used sb e c
    same = used_same sb e after (inode_block sb ip.inum) (iupdate_other sb marked e) plain

    after-Erased : Erased sb ip d after
    after-Erased = record {
      sound = IsDisk-same sb e after s.file.disk (iupdate-Bytes sb marked e s.file.disk.bytes) same;
      freed = λ n h c. same (block_seq ip d n) (owned sb ip d f n h c).on_disk ∙ s.freed n h c;
      kept = λ c h k. same c h ∙ s.kept c h k;
      others = λ c n k. iupdate_other sb marked e c n ∙ s.others c n k;
      neighbours =
          λ jp n g. (iupdate-read_inode sb marked jp e marked-IsStorable).1 n ∙ s.neighbours jp n g;
      stored = λ jp q. fields jp ((iupdate-read_inode sb marked jp e marked-IsStorable).0 q);
    }
      where
        fields :
            (jp : Inode)
            → SameFields marked (read_inode sb jp after)
            → SameFields (erased ip) (read_inode sb jp after)
        fields jp g = record {
          type = g.type;
          major = g.major;
          minor = g.minor;
          nlink = g.nlink;
          size = g.size;
          addrs = g.addrs;
        }

set_same : (t : List Inode) (i : ℕ) (x : Inode) → get_elem? t i ≡ some x → set t i x ≡ t
set_same [] i x h = refl
set_same (y ∷ t) zero x h = ap (λ z. z ∷ t) (same h)
  where
    same : some y ≡ some x → x ≡ y
    same h = cc
set_same (y ∷ t) (suc i) x h = ap (λ z. y ∷ z) (set_same t i x h)

iput_steps :
    (sb : Superblock) (t : List Inode) (i : ℕ) (ip ip' : Inode) (d d' : Disk)
    → get_elem? t i ≡ some ip
    → iput_free sb ip d ≡ some (ip', d')
    → iput sb i t d ≡ some (modify (set t i ip') i drop_inode_ref, d')
unfolding iput
iput_steps sb t i ip ip' d d' g e = rw (iput, get_or_of_get_elem? t i no_inode g, e) refl

module _ (sb : Superblock) (t : List Inode) (i : ℕ) (ip : Inode) (d : Disk)
    (there : get_elem? t i ≡ some ip) where
  -- `iput` of a slot with an inode that is valid, without links, and with one reference, where the
  -- inode is that of a sound file, fits the disk and lies in a block that is not of the bitmap, does
  -- not panic: it frees the blocks of the file and the inode, on the disk and in the slot, and leaves
  -- all other blocks, inodes and slots.
  pub iput_last :
      is_last ip ≡ true
      → IsFile sb ip d
      → IsStorable ip
      → ((e : ℕ) → e < sb.size → bitmap_block sb e ≢ inode_block sb ip.inum)
      → (t' : List Inode) × (d' : Disk) × (iput sb i t d ≡ some (t', d'))
        × (get_elem? t' i ≡ some (erased ip))
        × ((j : ℕ) → i ≢ j → get_elem? t' j ≡ get_elem? t j)
        × Erased sb ip d d'
  iput_last h f w plain =
      let (e, r, s) = itrunc_lem sb ip d f w plain in
      let ip' : Inode = record (emptied ip) { type = 0; valid = false } in
      let d' : Disk = iupdate sb (record (emptied ip) { type = 0 }) e in
      (
        modify (set t i ip') i drop_inode_ref,
        d',
        iput_steps sb t i ip ip' d d' there (free_steps sb ip d (emptied ip) e h r),
        get_elem?-modify_self (set t i ip') i drop_inode_ref
              (get_elem?-set_self t i ip' (get_elem?_lt t i there))
            ∙ ap (λ n. some (record ip' { ref = n })) (last_one h),
        λ j n. get_elem?-modify_ne (set t i ip') i j drop_inode_ref n ∙ get_elem?-set_ne t ip' n,
        after-Erased sb ip d f w plain e s,
      )
    where
      last_one : is_last ip ≡ true → ip.ref - 1 ≡ 0
      last_one h = ground arith

  -- Any other inode only loses the reference.
  pub iput_drop : is_last ip ≡ false → iput sb i t d ≡ some (modify t i drop_inode_ref, d)
  iput_drop h =
      iput_steps sb t i ip ip d d there (no_free sb ip d h)
      ∙ ap (λ x. some (modify x i drop_inode_ref, d)) (set_same t i ip there)

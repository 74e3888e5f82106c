-- ===== src/Fs/Truncate.antt =====
-- `itrunc` frees the blocks of a file.
use operating_systems_work.Base.{ℕ, ◌/◌, ◌%◌, ◌<◌, ◌≡◌, ◌≢◌, refl, ap, ◌∙◌, false, some, arith}
use operating_systems_work.Fs.Disk.{Disk, Superblock, bitmap_block, is_used, bit_of, bits_per_block}
use operating_systems_work.Fs.Inode.{Inode}
use operating_systems_work.Fs.Free.{IsDisk}
use operating_systems_work.Fs.Used.{Bytes}
use operating_systems_work.Fs.Extend.{addr_of}
use operating_systems_work.Fs.Whole.{IsFile}
use operating_systems_work.Fs.Dinode.{inode_block, iupdate, read_inode, itrunc}
use operating_systems_work.Fs.Slot.{IsStorable}
use operating_systems_work.Fs.Stored.{
  SameFields, iupdate_other, iupdate-read_inode, read_inode-same, iupdate-Bytes,
}
use operating_systems_work.Fs.Clear.{emptied}
use operating_systems_work.Fs.Emptying.{block_seq, owned, apart, itrunc-Freed}
use operating_systems_work.Fs.Release.{Freed-IsDisk}

-- What `itrunc` has done to a file whose blocks were those of `block_seq ip d`.
pub record Truncated (sb : Superblock) (ip : Inode) (d d' : Disk) : Type 0 where
  pub file : IsFile sb (emptied ip) d'
  pub freed : (n : ℕ) → n < 141 → block_seq ip d n ≢ 0 → is_used sb d' (block_seq ip d n) ≡ false
  pub kept :
      (c : ℕ)
      → c < sb.size
      → ((n : ℕ) → n < 141 → block_seq ip d n ≢ 0 → block_seq ip d n ≢ c)
      → is_used sb d' c ≡ is_used sb d c
  pub others :
      (c : ℕ)
      → c ≢ inode_block sb ip.inum
      → ((e : ℕ) → e < sb.size → bitmap_block sb e ≢ c)
      → d' c ≡ d c
  pub neighbours :
      (jp : Inode)
      → jp.inum ≢ ip.inum
      → ((e : ℕ) → e < sb.size → bitmap_block sb e ≢ inode_block sb jp.inum)
      → read_inode sb jp d' ≡ read_inode sb jp d
  pub stored : (jp : Inode) → jp.inum ≡ ip.inum → SameFields (emptied ip) (read_inode sb jp d')

-- A block that is not of the bitmap may change without a change of what is in use.
pub used_same :
    (sb : Superblock) (d d' : Disk) (b : ℕ)
    → ((c : ℕ) → c ≢ b → d' c ≡ d c)
    → ((e : ℕ) → e < sb.size → bitmap_block sb e ≢ b)
    → (c : ℕ) → c < sb.size
    → is_used sb d' c ≡ is_used sb d c
used_same sb d d' b h plain c l =
    ap (λ y. bit_of (y (c % bits_per_block / 8)) (c % bits_per_block % 8))
      (h (bitmap_block sb c) (plain c l))

-- A change of what is not the bitmap leaves the disk sound.
pub IsDisk-same :
    (sb : Superblock) (d d' : Disk)
    → IsDisk sb d
    → Bytes d'
    → ((c : ℕ) → c < sb.size → is_used sb d' c ≡ is_used sb d c)
    → IsDisk sb d'
IsDisk-same sb d d' v bytes same = record {
  small = v.small;
  bytes = bytes;
  boot = (v.boot.0, same 0 v.boot.0 ∙ v.boot.1);
  reserved =
      λ c l. ((v.reserved c l).0, same (bitmap_block sb c) (v.reserved c l).0 ∙ (v.reserved c l).1);
}

empty_IsFile : (sb : Superblock) (ip : Inode) (d : Disk) → IsDisk sb d → IsFile sb (emptied ip) d
empty_IsFile sb ip d v = record {
  disk = v;
  layout = record {
    owned = λ n h c. absurd (c (no_address n));
    owned_ind = λ h. absurd (h refl);
    apart = λ n m h g c e. absurd (c (no_address n));
    apart_ind = λ n h c e. c (no_address n);
  };
  fits = omega arith;
  whole = λ i h. absurd (omega arith);
}
  where
    no_address : (n : ℕ) → addr_of (emptied ip) d n ≡ 0
    no_address n = ground arith

pub emptied-IsStorable : (ip : Inode) → IsStorable ip → IsStorable (emptied ip)
emptied-IsStorable ip w = record {
  type = w.type;
  major = w.major;
  minor = w.minor;
  nlink = w.nlink;
  size = omega arith;
  addrs = λ k h. ground arith;
}

-- `itrunc` of a sound file, whose inode fits the disk and lies in a block that is not of the bitmap,
-- does not panic. It frees the blocks of the file, data and indirect, and no other, changes no block
-- but those of the bitmap and of the inode, nor another inode, and leaves the sound empty file, whose
-- inode a read from the disk gives.
pub itrunc_lem :
    (sb : Superblock) (ip : Inode) (d : Disk)
    → IsFile sb ip d
    → IsStorable ip
    → ((e : ℕ) → e < sb.size → bitmap_block sb e ≢ inode_block sb ip.inum)
    → (d' : Disk) × (itrunc sb ip d ≡ some (emptied ip, d')) × Truncated sb ip d d'
itrunc_lem sb ip d f w plain =
    let (e, r, s) = itrunc-Freed sb ip d f in
    let d' : Disk = iupdate sb (emptied ip) e in
    let same : (c : ℕ) → c < sb.size → is_used sb d' c ≡ is_used sb e c =
      used_same sb e d' (inode_block sb ip.inum) (iupdate_other sb (emptied ip) e) plain in
    let sound : IsDisk sb d' =
      IsDisk-same sb e d'
        (Freed-IsDisk sb (block_seq ip d) d f.disk 141 (owned sb ip d f) (apart sb ip d f) 141 e
          (omega arith) s)
        (iupdate-Bytes sb (emptied ip) e s.bytes) same in
    (
      d',
      r,
      record {
        file = empty_IsFile sb ip d' sound;
        freed = λ n h c. same (block_seq ip d n) (owned sb ip d f n h c).on_disk ∙ s.freed n h c;
        kept = λ c h k. same c h ∙ s.kept c k;
        others = λ c n k. iupdate_other sb (emptied ip) e c n ∙ s.others c k;
        neighbours = λ jp n g.
            (iupdate-read_inode sb (emptied ip) jp e (emptied-IsStorable ip w)).1 n
            ∙ read_inode-same sb jp d e (s.others (inode_block sb jp.inum) g);
        stored = λ jp q. (iupdate-read_inode sb (emptied ip) jp e (emptied-IsStorable ip w)).0 q;
      },
    )

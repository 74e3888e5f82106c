-- ===== src/Fs/Update.antt =====
-- `iupdate` of a file whose inode lies in a block that is none of those of the file.
use operating_systems_work.Base.{
  ℕ, ◌-◌, ◌/◌, ◌%◌, ◌<◌, ◌≡◌, ◌≢◌, refl, sym, ap, ◌∙◌, ◌==◌, ltb, if◌then◌else◌, arith,
}
use operating_systems_work.Fs.Disk.{Block, Disk, put_block, Superblock, block_size, is_used}
use operating_systems_work.Fs.Inode.{Inode, max_file, get_uint}
use operating_systems_work.Fs.Dinode.{inode_block, inodes_per_block, put_dinode, iupdate}
use operating_systems_work.Fs.Free.{IsDisk}
use operating_systems_work.Fs.Layout.{IsOwned-same, Layout-same}
use operating_systems_work.Fs.Extend.{Apart, addr_of, IsMapped, byte_at}
use operating_systems_work.Fs.Map.{IsDisk-put, put_other, put_used}
use operating_systems_work.Fs.Slot.{put_dinode_small}

-- What a change of a block that is none of those of the file leaves as it was.
pub record Beside (sb : Superblock) (ip : Inode) (d d' : Disk) : Type 0 where
  pub disk : IsDisk sb d'
  pub layout : IsMapped sb ip d'
  pub addresses : (n : ℕ) → addr_of ip d' n ≡ addr_of ip d n
  pub bytes : (i : ℕ) → i / block_size < max_file → byte_at ip d' i ≡ byte_at ip d i
  pub spared : (x : ℕ) → Apart sb ip d x → Apart sb ip d' x

pub Beside-refl :
    (sb : Superblock) (ip : Inode) (d : Disk) → IsDisk sb d → IsMapped sb ip d → Beside sb ip d d
Beside-refl sb ip d v l = record {
  disk = v;
  layout = l;
  addresses = λ n. refl;
  bytes = λ i h. refl;
  spared = λ x q. q;
}

-- The size of the file does not matter to its blocks.
pub Apart-size :
    (sb : Superblock) (ip : Inode) (d : Disk) (x s : ℕ)
    → Apart sb ip d x
    → Apart sb (record ip { size = s }) d x
Apart-size sb ip d x s p = record { owned = p.owned; content = p.content; index = p.index }

module _ (sb : Superblock) (ip : Inode) (d : Disk) (v : IsDisk sb d) (l : IsMapped sb ip d) (b : ℕ)
    (p : Apart sb ip d b) (x : Block) (small : (i : ℕ) → x i < 256) where
  same_addr : (n : ℕ) → addr_of ip (put_block d b x) n ≡ addr_of ip d n
  same_addr n =
      ap (λ y. if ltb n 12 then ip.addrs n else if ip.addrs 12 == 0 then 0 else get_uint y (n - 12))
        (put_other sb d v b p.owned x small (ip.addrs 12) p.index)

  same_used : (a : ℕ) → a < sb.size → is_used sb (put_block d b x) a ≡ is_used sb d a
  same_used = put_used sb d v b p.owned x small

  same_byte :
      (a : ℕ)
      → (a ≢ 0 → a ≢ b)
      → (j : ℕ) → (if a == 0 then 0 else put_block d b x a j) ≡ (if a == 0 then 0 else d a j)
  same_byte a n j = ground arith

  put-Beside : Beside sb ip d (put_block d b x)
  put-Beside = record {
    disk = IsDisk-put sb d v b p.owned x small;
    layout =
        Layout-same sb d (put_block d b x) same_used (addr_of ip d) (addr_of ip (put_block d b x))
          (ip.addrs 12) l (λ n h. same_addr n);
    addresses = same_addr;
    bytes = λ i h.
        ap (λ a. if a == 0 then 0 else put_block d b x a (i % block_size))
          (same_addr (i / block_size))
        ∙ same_byte (addr_of ip d (i / block_size)) (p.content (i / block_size) h) (i % block_size);
    spared = λ y q. record {
      owned = IsOwned-same sb d (put_block d b x) same_used y q.owned;
      content = λ n h c e. q.content n h (λ z. c (same_addr n ∙ z)) (sym (same_addr n) ∙ e);
      index = q.index;
    };
  }

pub iupdate-Beside :
    (sb : Superblock) (ip : Inode) (d : Disk)
    → IsDisk sb d
    → IsMapped sb ip d
    → Apart sb ip d (inode_block sb ip.inum)
    → Beside sb ip d (iupdate sb ip d)
unfolding iupdate
iupdate-Beside sb ip d v l p =
    put-Beside sb ip d v l (inode_block sb ip.inum) p
      (put_dinode (ip.inum % inodes_per_block) ip (d (inode_block sb ip.inum)))
      (put_dinode_small (ip.inum % inodes_per_block) ip (d (inode_block sb ip.inum))
        (v.bytes (inode_block sb ip.inum)))

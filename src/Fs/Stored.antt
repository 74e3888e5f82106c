-- ===== src/Fs/Stored.antt =====
-- What `iupdate` writes is what `ilock` reads.
use operating_systems_work.Base.{
  ℕ, ◌+◌, ◌*◌, ◌%◌, ◌<◌, ◌≡◌, ◌≢◌, sym, ap, subst, ◌∙◌, ltb, if◌then◌else◌, arith, ℕ_discrete,
}
use operating_systems_work.Fs.Disk.{Block, Disk, Superblock}
use operating_systems_work.Fs.Inode.{Inode, get_uint}
use operating_systems_work.Fs.Used.{Bytes}
use operating_systems_work.Fs.Dinode.{put_dinode, get_dinode, inode_block, iupdate, read_inode}
use operating_systems_work.Fs.Slot.{
  IsStorable, outside-put_dinode, get_dinode-same, got_short, got_size, got_addr, put_dinode_small,
  other_slot,
}

-- The fields that the disk holds are the same.
pub record SameFields (ip jp : Inode) : Type 0 where
  pub type : jp.type ≡ ip.type
  pub major : jp.major ≡ ip.major
  pub minor : jp.minor ≡ ip.minor
  pub nlink : jp.nlink ≡ ip.nlink
  pub size : jp.size ≡ ip.size
  pub addrs : (k : ℕ) → k < 13 → jp.addrs k ≡ ip.addrs k

got_fields :
    (s : ℕ) (ip jp : Inode) (x : Block)
    → IsStorable ip
    → SameFields ip (get_dinode s (put_dinode s ip x) jp)
unfolding get_dinode
got_fields s ip jp x v = record {
  type = got_short s ip x v (32 * s) (omega arith) ∙ ground arith;
  major = got_short s ip x v (32 * s + 1) (omega arith) ∙ ground arith;
  minor = got_short s ip x v (32 * s + 2) (omega arith) ∙ ground arith;
  nlink = got_short s ip x v (32 * s + 3) (omega arith) ∙ ground arith;
  size = got_size s ip x v;
  addrs = λ k h. inside k h ∙ got_addr s ip x v k h;
}
  where
    inside :
        (k : ℕ)
        → k < 13
        → (if ltb k 13 then get_uint (put_dinode s ip x) (16 * s + 3 + k) else jp.addrs k)
          ≡ get_uint (put_dinode s ip x) (16 * s + 3 + k)
    inside k h = ground arith

module _ (sb : Superblock) (ip : Inode) (d : Disk) where
  pub iupdate_self :
      iupdate sb ip d (inode_block sb ip.inum)
      ≡ put_dinode (ip.inum % 8) ip (d (inode_block sb ip.inum))
  unfolding iupdate
  iupdate_self = ground arith

  pub iupdate_other : (b : ℕ) → b ≢ inode_block sb ip.inum → iupdate sb ip d b ≡ d b
  unfolding iupdate
  iupdate_other b n = ground arith

-- After `iupdate` of an inode whose fields fit the disk, a read of an inode with its number gives
-- the fields that it has, and a read of an inode with another number gives what it gave before.
pub iupdate-read_inode :
    (sb : Superblock) (ip jp : Inode) (d : Disk)
    → IsStorable ip
    → (jp.inum ≡ ip.inum → SameFields ip (read_inode sb jp (iupdate sb ip d)))
      × (jp.inum ≢ ip.inum → read_inode sb jp (iupdate sb ip d) ≡ read_inode sb jp d)
unfolding read_inode
iupdate-read_inode sb ip jp d v = (
  λ e.
      subst (λ x. SameFields ip (get_dinode (x % 8) (iupdate sb ip d (inode_block sb x)) jp))
        (sym e)
        (subst (λ x. SameFields ip (get_dinode (ip.inum % 8) x jp)) (sym (iupdate_self sb ip d))
          (got_fields (ip.inum % 8) ip jp (d (inode_block sb ip.inum)) v)),
  λ n. elim (ℕ_discrete (inode_block sb jp.inum) (inode_block sb ip.inum)) [
    | no m ↦
        ap (λ x. get_dinode (jp.inum % 8) x jp) (iupdate_other sb ip d (inode_block sb jp.inum) m)
    | yes q ↦
        get_dinode-same (jp.inum % 8) jp (d (inode_block sb jp.inum))
          (iupdate sb ip d (inode_block sb jp.inum))
          (λ i l h.
            ap (λ b. iupdate sb ip d b i) q
            ∙ ap (λ x. x i) (iupdate_self sb ip d)
            ∙ outside-put_dinode (ip.inum % 8) i ip (d (inode_block sb ip.inum))
                (other_slot (jp.inum % 8) (ip.inum % 8) i (λ e. n (omega arith)) l h)
            ∙ ap (λ b. d b i) (sym q))
  ],
)

-- The read of an inode depends on its block only.
pub read_inode-same :
    (sb : Superblock) (jp : Inode) (d d' : Disk)
    → d' (inode_block sb jp.inum) ≡ d (inode_block sb jp.inum)
    → read_inode sb jp d' ≡ read_inode sb jp d
unfolding read_inode
read_inode-same sb jp d d' e = ap (λ x. get_dinode (jp.inum % 8) x jp) e

-- Bytes stay bytes.
pub iupdate-Bytes : (sb : Superblock) (ip : Inode) (d : Disk) → Bytes d → Bytes (iupdate sb ip d)
iupdate-Bytes sb ip d v b i = elim (ℕ_discrete b (inode_block sb ip.inum)) [
  | no n ↦ subst (λ x. x i < 256) (sym (iupdate_other sb ip d b n)) (v b i)
  | yes q ↦
      subst (λ x. iupdate sb ip d x i < 256) (sym q)
        (subst (λ x. x i < 256) (sym (iupdate_self sb ip d))
          (put_dinode_small (ip.inum % 8) ip (d (inode_block sb ip.inum))
            (v (inode_block sb ip.inum)) i))
]

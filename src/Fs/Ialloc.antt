-- ===== src/Fs/Ialloc.antt =====
-- `ialloc` takes the first free inode, and leaves the others.
use operating_systems_work.Base.{
  ℕ, zero, suc, ◌+◌, ◌-◌, ◌%◌, ◌^◌, ◌<◌, ◌≤◌, ◌≡◌, ◌≢◌, refl, sym, ap, subst, ◌∙◌, ◌⊎◌, inl, inr,
  false, Option, none, some, List, ◌==◌, arith, ℕ_discrete, Option-cases,
}
use operating_systems_work.Fs.Disk.{Disk, Superblock}
use operating_systems_work.Fs.Inode.{Inode}
use operating_systems_work.Fs.Used.{Bytes}
use operating_systems_work.Fs.Dinode.{inode_block, get_dinode, read_inode}
use operating_systems_work.Fs.Slot.{get_dinode-same, other_slot}
use operating_systems_work.Fs.Stored.{SameFields}
use operating_systems_work.Fs.Icache.{iget, dinode_type, mark_inode, ialloc_from, ialloc}
use operating_systems_work.Fs.Blank.{blank, slot, slot_fields, slot_outside, slot_small}

module _ (sb : Superblock) (inum type : ℕ) (small : type < 2 ^ 16) (d : Disk) where
  abbrev made : Disk
  made = mark_inode sb inum type d

  made_self : made (inode_block sb inum) ≡ slot (inum % 8) (d (inode_block sb inum)) type small
  made_self = ground arith

  made_other : (b : ℕ) → b ≢ inode_block sb inum → made b ≡ d b
  made_other b n = ground arith

  made_fields : (jp : Inode) → jp.inum ≡ inum → SameFields (blank type) (read_inode sb jp made)
  unfolding read_inode
  made_fields jp e =
      subst (λ x. SameFields (blank type) (get_dinode (x % 8) (made (inode_block sb x)) jp)) (sym e)
        (subst (λ x. SameFields (blank type) (get_dinode (inum % 8) x jp)) (sym made_self)
          (slot_fields (inum % 8) (d (inode_block sb inum)) type small jp))

  made_neighbour : (jp : Inode) → jp.inum ≢ inum → read_inode sb jp made ≡ read_inode sb jp d
  unfolding read_inode
  made_neighbour jp n = elim (ℕ_discrete (inode_block sb jp.inum) (inode_block sb inum)) [
    | no m ↦ ap (λ x. get_dinode (jp.inum % 8) x jp) (made_other (inode_block sb jp.inum) m)
    | yes q ↦
        get_dinode-same (jp.inum % 8) jp (d (inode_block sb jp.inum))
          (made (inode_block sb jp.inum))
          (λ i l h.
            ap (λ b. made b i) q
            ∙ ap (λ x. x i) made_self
            ∙ slot_outside (inum % 8) (d (inode_block sb inum)) type small i
                (other_slot (jp.inum % 8) (inum % 8) i (λ e. n (omega arith)) l h)
            ∙ ap (λ b. d b i) (sym q))
  ]

  made-Bytes : Bytes d → Bytes made
  made-Bytes v b i = elim (ℕ_discrete b (inode_block sb inum)) [
    | no n ↦ subst (λ x. x i < 256) (sym (made_other b n)) (v b i)
    | yes q ↦
        subst (λ x. made x i < 256) (sym q)
          (subst (λ x. x i < 256) (sym made_self)
            (slot_small (inum % 8) (d (inode_block sb inum)) type small (v (inode_block sb inum))
              i))
  ]

-- Inode `inum` is the first free one, and `iget` gives its slot; it has type `type` and nothing
-- else now, and the other inodes and blocks are as they were.
pub record NewInode (sb : Superblock) (dev type : ℕ) (t : List Inode) (d : Disk) (i : ℕ)
    (t' : List Inode) (d' : Disk) : Type 0 where
  pub inum : ℕ
  pub range : (1 ≤ inum) × (inum < sb.ninodes)
  pub was_free : dinode_type sb inum d ≡ 0
  pub first : (j : ℕ) → 1 ≤ j → j < inum → dinode_type sb j d ≢ 0
  pub got : iget dev inum t ≡ some (i, t')
  pub stored : (jp : Inode) → jp.inum ≡ inum → SameFields (blank type) (read_inode sb jp d')
  pub neighbours : (jp : Inode) → jp.inum ≢ inum → read_inode sb jp d' ≡ read_inode sb jp d
  pub others : (b : ℕ) → b ≢ inode_block sb inum → d' b ≡ d b
  pub bytes : Bytes d → Bytes d'

-- The two panics, and the result.
abbrev pub IallocPost :
    Superblock → ℕ → ℕ → List Inode → Disk → Option (ℕ × List Inode × Disk) → Type 0
IallocPost sb dev type t d none =
    ((j : ℕ) → 1 ≤ j → j < sb.ninodes → dinode_type sb j d ≢ 0)
    ⊎ ((inum : ℕ) × (iget dev inum t ≡ none))
IallocPost sb dev type t d (some (i, t', d')) = NewInode sb dev type t d i t' d'

module _ (sb : Superblock) (dev type : ℕ) (small : type < 2 ^ 16) (t : List Inode) (d : Disk) where
  taken :
      (n inum : ℕ)
      → dinode_type sb inum d ≡ 0
      → ialloc_from sb (suc n) inum dev type t d ≡ elim (iget dev inum t) [
        | none ↦ none
        | some (i, t') ↦ some (i, t', mark_inode sb inum type d)
      ]
  unfolding ialloc_from
  taken n inum h = rw (ialloc_from, h) refl

  passed :
      (n inum : ℕ)
      → dinode_type sb inum d ≢ 0
      → ialloc_from sb (suc n) inum dev type t d ≡ ialloc_from sb n (inum + 1) dev type t d
  unfolding ialloc_from
  passed n inum h =
      (let e : (dinode_type sb inum d == 0) ≡ false = ground arith in rw (ialloc_from, e) refl)

  ialloc_from_lem :
      (n inum : ℕ)
      → 1 ≤ inum
      → inum + n ≡ sb.ninodes
      → ((j : ℕ) → 1 ≤ j → j < inum → dinode_type sb j d ≢ 0)
      → IallocPost sb dev type t d (ialloc_from sb n inum dev type t d)
  unfolding ialloc_from
  ialloc_from_lem zero inum l e h = inl (λ j a b. h j a (omega arith))
  ialloc_from_lem (suc n) inum l e h = elim (ℕ_discrete (dinode_type sb inum d) 0) [
    | no z ↦ subst (IallocPost sb dev type t d) (sym (passed n inum z)) (
        ialloc_from_lem n (inum + 1) (omega arith) (omega arith) (λ j a b.
          elim (ℕ_discrete j inum) [
            | yes q ↦ (λ c. z (ap (λ x. dinode_type sb x d) (sym q) ∙ c))
            | no q ↦ h j a (omega arith)
          ]))
    | yes z ↦
        subst (IallocPost sb dev type t d) (sym (taken n inum z))
          (elim (Option-cases (iget dev inum t)) [
            | inl q ↦ rw q (inr (inum, q))
            | inr ((i, t'), q) ↦ rw q (record {
              inum = inum;
              range = (l, omega arith);
              was_free = z;
              first = h;
              got = q;
              stored = made_fields sb inum type small d;
              neighbours = made_neighbour sb inum type small d;
              others = made_other sb inum type small d;
              bytes = made-Bytes sb inum type small d;
            })
          ])
  ]

  -- On a disk with inodes, `ialloc` of a type that fits a short takes the first free inode and leaves
  -- all other inodes and blocks as they were; the inode has the type and zeros for the rest. It
  -- panics only if no inode is free or `iget` panics.
  pub ialloc_lem : 1 ≤ sb.ninodes → IallocPost sb dev type t d (ialloc sb dev type t d)
  unfolding ialloc
  ialloc_lem h =
      ialloc_from_lem (sb.ninodes - 1) 1 (omega arith) (omega arith) (λ j a b. absurd (omega arith))

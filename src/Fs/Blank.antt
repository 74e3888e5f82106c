-- ===== src/Fs/Blank.antt =====
-- The slot of an inode block that `ialloc` takes.
use operating_systems_work.Base.{
  ℕ, ◌+◌, ◌*◌, ◌^◌, ◌<◌, ◌≤◌, ◌≡◌, ◌∙◌, ◌⊎◌, ◌==◌, ltb, if◌then◌else◌, arith,
}
use operating_systems_work.Fs.Disk.{Block}
use operating_systems_work.Fs.Inode.{Inode, get_uint}
use operating_systems_work.Fs.Dinode.{get_short, put_short, get_dinode}
use operating_systems_work.Fs.Slot.{get_short-put_short}
use operating_systems_work.Fs.Stored.{SameFields}
use operating_systems_work.Fs.Icache.{no_inode, zero_dinode}

-- A new inode, as the disk holds it.
abbrev pub blank : ℕ → Inode
blank type = record no_inode { type = type }

module _ (s : ℕ) (x : Block) (type : ℕ) (small : type < 2 ^ 16) where
  abbrev pub slot : Block
  slot = put_short (zero_dinode s x) (32 * s) type

  short_zero : (k : ℕ) → 32 * s ≤ k → k < 32 * s + 32 → get_short (zero_dinode s x) k ≡ 0
  unfolding get_short zero_dinode
  short_zero k l h = ground arith

  slot_short : (k : ℕ) → 32 * s < k → k < 32 * s + 32 → get_short slot k ≡ 0
  slot_short k l h =
      get_short-put_short (zero_dinode s x) (32 * s) type k small
      ∙ rw (short_zero k (omega arith) h) (miss k l)
    where
      miss : (k : ℕ) → 32 * s < k → (if k == 32 * s then type else 0) ≡ 0
      miss k l = ground arith

  slot_uint : (k : ℕ) → 16 * s < k → k < 16 * s + 16 → get_uint slot k ≡ 0
  unfolding get_uint put_short zero_dinode
  slot_uint k l h = ground arith

  pub slot_fields : (jp : Inode) → SameFields (blank type) (get_dinode s slot jp)
  unfolding get_dinode
  slot_fields jp = record {
    type = get_short-put_short (zero_dinode s x) (32 * s) type (32 * s) small ∙ ground arith;
    major = slot_short (32 * s + 1) (omega arith) (omega arith);
    minor = slot_short (32 * s + 2) (omega arith) (omega arith);
    nlink = slot_short (32 * s + 3) (omega arith) (omega arith);
    size = slot_uint (16 * s + 2) (omega arith) (omega arith);
    addrs = λ k h. inside k h ∙ slot_uint (16 * s + 3 + k) (omega arith) (omega arith);
  }
    where
      inside :
          (k : ℕ)
          → k < 13
          → (if ltb k 13 then get_uint slot (16 * s + 3 + k) else jp.addrs k)
            ≡ get_uint slot (16 * s + 3 + k)
      inside k h = ground arith

  pub slot_outside : (i : ℕ) → (i < 64 * s) ⊎ (64 * s + 64 ≤ i) → slot i ≡ x i
  unfolding put_short zero_dinode
  slot_outside i o = ground arith

  pub slot_small : ((i : ℕ) → x i < 256) → (i : ℕ) → slot i < 256
  unfolding put_short zero_dinode
  slot_small h i = ground (arith, h i)

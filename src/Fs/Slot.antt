-- ===== src/Fs/Slot.antt =====
-- A slot of an inode block: what `iupdate` puts there, field by field, and what it leaves.
use operating_systems_work.Base.{
  ℕ, zero, suc, ◌+◌, ◌*◌, ◌/◌, ◌^◌, ◌<◌, ◌≤◌, ◌≡◌, ◌≢◌, refl, ◌∙◌, ◌⊎◌, inl, inr, ◌==◌, ltb,
  if◌then◌else◌, arith, ℕ_discrete, dec_lt, Bool-cases,
}
use operating_systems_work.Fs.Disk.{Block}
use operating_systems_work.Fs.Inode.{Inode, get_uint, put_uint}
use operating_systems_work.Fs.Extend.{get_uint-put_uint}
use operating_systems_work.Fs.Map.{put_uint_small}
use operating_systems_work.Fs.Dinode.{
  get_short, put_short, copy_addrs, put_shorts, put_dinode, get_dinode,
}

-- The fields of an inode fit their widths on the disk.
pub record IsStorable (ip : Inode) : Type 0 where
  pub type : ip.type < 2 ^ 16
  pub major : ip.major < 2 ^ 16
  pub minor : ip.minor < 2 ^ 16
  pub nlink : ip.nlink < 2 ^ 16
  pub size : ip.size < 2 ^ 32
  pub addrs : (k : ℕ) → k < 13 → ip.addrs k < 2 ^ 32

pub get_short-put_short :
    (x : Block) (j v k : ℕ)
    → v < 2 ^ 16
    → get_short (put_short x j v) k ≡ (if k == j then v else get_short x k)
unfolding get_short put_short
get_short-put_short x j v k h = elim (ℕ_discrete k j) [
  | yes q ↦ rw q (ground arith)
  | no q ↦ ground arith
]

get_short-put_uint :
    (x : Block) (j v k : ℕ) → k / 2 ≢ j → get_short (put_uint x j v) k ≡ get_short x k
unfolding get_short put_uint
get_short-put_uint x j v k h = ground arith

get_short-copy_addrs :
    (n s k : ℕ) (addrs : ℕ → ℕ) (x : Block)
    → k < 32 * s + 6
    → get_short (copy_addrs n s addrs x) k ≡ get_short x k
unfolding copy_addrs
get_short-copy_addrs zero s k addrs x h = refl
get_short-copy_addrs (suc n) s k addrs x h =
    get_short-put_uint (copy_addrs n s addrs x) (16 * s + 3 + n) (addrs n) k (λ e. omega arith)
    ∙ get_short-copy_addrs n s k addrs x h

get_uint-copy_addrs :
    (n s k : ℕ) (addrs : ℕ → ℕ) (x : Block)
    → ((i : ℕ) → i < n → addrs i < 2 ^ 32)
    → k < n
    → get_uint (copy_addrs n s addrs x) (16 * s + 3 + k) ≡ addrs k
unfolding copy_addrs
get_uint-copy_addrs zero s k addrs x h l = absurd (omega arith)
get_uint-copy_addrs (suc n) s k addrs x h l = elim (ℕ_discrete k n) [
  | yes q ↦
      get_uint-put_uint (copy_addrs n s addrs x) (16 * s + 3 + n) (addrs n) (16 * s + 3 + k)
        (h n (omega arith))
      ∙ ground arith
  | no q ↦
      get_uint-put_uint (copy_addrs n s addrs x) (16 * s + 3 + n) (addrs n) (16 * s + 3 + k)
        (h n (omega arith))
      ∙ miss q (get_uint-copy_addrs n s k addrs x (λ i l. h i (omega arith)) (omega arith))
]
  where
    miss :
        k ≢ n
        → get_uint (copy_addrs n s addrs x) (16 * s + 3 + k) ≡ addrs k
        → (if 16 * s + 3 + k == 16 * s + 3 + n
            then addrs n
            else get_uint (copy_addrs n s addrs x) (16 * s + 3 + k))
          ≡ addrs k
    miss q e = ground arith

-- The size is not one of the addresses.
size-copy_addrs :
    (n s : ℕ) (addrs : ℕ → ℕ) (x : Block)
    → ((i : ℕ) → i < n → addrs i < 2 ^ 32)
    → get_uint (copy_addrs n s addrs x) (16 * s + 2) ≡ get_uint x (16 * s + 2)
unfolding copy_addrs
size-copy_addrs zero s addrs x h = refl
size-copy_addrs (suc n) s addrs x h =
    get_uint-put_uint (copy_addrs n s addrs x) (16 * s + 3 + n) (addrs n) (16 * s + 2)
      (h n (omega arith))
    ∙ miss (size-copy_addrs n s addrs x (λ i l. h i (omega arith)))
  where
    miss :
        get_uint (copy_addrs n s addrs x) (16 * s + 2) ≡ get_uint x (16 * s + 2)
        → (if 16 * s + 2 == 16 * s + 3 + n
            then addrs n
            else get_uint (copy_addrs n s addrs x) (16 * s + 2))
          ≡ get_uint x (16 * s + 2)
    miss e = ground arith

put_uint_outside : (x : Block) (j v i : ℕ) → (i < 4 * j) ⊎ (4 * j + 4 ≤ i) → put_uint x j v i ≡ x i
unfolding put_uint
put_uint_outside x j v i o = ground arith

-- Bytes outside the slot stay.
outside-copy_addrs :
    (n s i : ℕ) (addrs : ℕ → ℕ) (x : Block)
    → n ≤ 13
    → (i < 64 * s) ⊎ (64 * s + 64 ≤ i)
    → copy_addrs n s addrs x i ≡ x i
unfolding copy_addrs
outside-copy_addrs zero s i addrs x h o = refl
outside-copy_addrs (suc n) s i addrs x h o =
    put_uint_outside (copy_addrs n s addrs x) (16 * s + 3 + n) (addrs n) i (far o)
    ∙ outside-copy_addrs n s i addrs x (omega arith) o
  where
    far :
        (i < 64 * s) ⊎ (64 * s + 64 ≤ i)
        → (i < 4 * (16 * s + 3 + n)) ⊎ (4 * (16 * s + 3 + n) + 4 ≤ i)
    far (inl l) = inl (omega arith)
    far (inr l) = inr (omega (arith, h))

pub outside-put_dinode :
    (s i : ℕ) (ip : Inode) (x : Block)
    → (i < 64 * s) ⊎ (64 * s + 64 ≤ i)
    → put_dinode s ip x i ≡ x i
unfolding put_dinode put_shorts put_short put_uint
outside-put_dinode s i ip x o =
    outside-copy_addrs 13 s i ip.addrs (put_uint (put_shorts s ip x) (16 * s + 2) ip.size)
      (omega arith) o
    ∙ ground arith

-- The read of a slot depends on the bytes of the slot only.
module _ (t : ℕ) (jp : Inode) (x y : Block)
    (same : (i : ℕ) → 64 * t ≤ i → i < 64 * t + 64 → y i ≡ x i) where
  same_short : (k : ℕ) → 32 * t ≤ k → k < 32 * t + 32 → get_short y k ≡ get_short x k
  unfolding get_short
  same_short k l h =
      rw (same (2 * k) (omega arith) (omega arith), same (2 * k + 1) (omega arith) (omega arith))
        refl

  same_uint : (k : ℕ) → 16 * t ≤ k → k < 16 * t + 16 → get_uint y k ≡ get_uint x k
  unfolding get_uint
  same_uint k l h =
      rw
        (
          same (4 * k) (omega arith) (omega arith),
          same (4 * k + 1) (omega arith) (omega arith),
          same (4 * k + 2) (omega arith) (omega arith),
          same (4 * k + 3) (omega arith) (omega arith),
        )
        refl

  same_addr :
      (k : ℕ)
      → (if ltb k 13 then get_uint y (16 * t + 3 + k) else jp.addrs k)
        ≡ (if ltb k 13 then get_uint x (16 * t + 3 + k) else jp.addrs k)
  same_addr k = elim (Bool-cases (ltb k 13)) [
    | inl e ↦ rw (e, same_uint (16 * t + 3 + k) (omega arith) (ground arith)) refl
    | inr e ↦ rw e refl
  ]

  pub get_dinode-same : get_dinode t y jp ≡ get_dinode t x jp
  unfolding get_dinode
  get_dinode-same = λ i. record jp {
    type = same_short (32 * t) (omega arith) (omega arith) i;
    major = same_short (32 * t + 1) (omega arith) (omega arith) i;
    minor = same_short (32 * t + 2) (omega arith) (omega arith) i;
    nlink = same_short (32 * t + 3) (omega arith) (omega arith) i;
    size = same_uint (16 * t + 2) (omega arith) (omega arith) i;
    addrs = λ k. same_addr k i;
  }

-- What a read of slot `s` gives after `iupdate` has written it.
module _ (s : ℕ) (ip : Inode) (x : Block) (v : IsStorable ip) where
  abbrev sized : Block
  sized = put_uint (put_shorts s ip x) (16 * s + 2) ip.size

  pub got_short :
      (k : ℕ)
      → k < 32 * s + 4
      → get_short (put_dinode s ip x) k ≡ (
          if k == 32 * s + 3
          then ip.nlink
          else if k == 32 * s + 2
          then ip.minor
          else if k == 32 * s + 1
          then ip.major
          else if k == 32 * s
          then ip.type
          else get_short x k)
  unfolding put_dinode put_shorts
  got_short k h =
      get_short-copy_addrs 13 s k ip.addrs sized (omega arith)
      ∙ get_short-put_uint (put_shorts s ip x) (16 * s + 2) ip.size k (λ e. omega arith)
      ∙ rw
          (
            get_short-put_short
                (put_short (put_short (put_short x (32 * s) ip.type) (32 * s + 1) ip.major)
                  (32 * s + 2) ip.minor)
                (32 * s + 3) ip.nlink k v.nlink,
            get_short-put_short (put_short (put_short x (32 * s) ip.type) (32 * s + 1) ip.major)
                (32 * s + 2) ip.minor k v.minor,
            get_short-put_short (put_short x (32 * s) ip.type) (32 * s + 1) ip.major k v.major,
            get_short-put_short x (32 * s) ip.type k v.type,
          )
          refl

  pub got_size : get_uint (put_dinode s ip x) (16 * s + 2) ≡ ip.size
  unfolding put_dinode
  got_size =
      size-copy_addrs 13 s ip.addrs sized v.addrs
      ∙ get_uint-put_uint (put_shorts s ip x) (16 * s + 2) ip.size (16 * s + 2) v.size
      ∙ ground arith

  pub got_addr : (k : ℕ) → k < 13 → get_uint (put_dinode s ip x) (16 * s + 3 + k) ≡ ip.addrs k
  unfolding put_dinode
  got_addr k h = get_uint-copy_addrs 13 s k ip.addrs sized v.addrs h

-- Bytes stay bytes.
copy_addrs_small :
    (n s : ℕ) (addrs : ℕ → ℕ) (x : Block)
    → ((i : ℕ) → x i < 256)
    → (i : ℕ) → copy_addrs n s addrs x i < 256
unfolding copy_addrs
copy_addrs_small zero s addrs x h i = h i
copy_addrs_small (suc n) s addrs x h i =
    put_uint_small (copy_addrs n s addrs x) (16 * s + 3 + n) (addrs n)
      (copy_addrs_small n s addrs x h) i

put_short_small : (x : Block) (k v : ℕ) → ((i : ℕ) → x i < 256) → (i : ℕ) → put_short x k v i < 256
unfolding put_short
put_short_small x k v h i = ground (arith, h i)

put_shorts_small :
    (s : ℕ) (ip : Inode) (x : Block) → ((i : ℕ) → x i < 256) → (i : ℕ) → put_shorts s ip x i < 256
unfolding put_shorts
put_shorts_small s ip x h = put_short_small _ (32 * s + 3) ip.nlink (
    put_short_small _ (32 * s + 2) ip.minor
      (put_short_small _ (32 * s + 1) ip.major (put_short_small x (32 * s) ip.type h)))

pub put_dinode_small :
    (s : ℕ) (ip : Inode) (x : Block) → ((i : ℕ) → x i < 256) → (i : ℕ) → put_dinode s ip x i < 256
unfolding put_dinode
put_dinode_small s ip x h =
    copy_addrs_small 13 s ip.addrs (put_uint (put_shorts s ip x) (16 * s + 2) ip.size)
      (put_uint_small (put_shorts s ip x) (16 * s + 2) ip.size (put_shorts_small s ip x h))

-- A byte of slot `t` is not one of slot `s`.
pub other_slot :
    (t s i : ℕ) → t ≢ s → 64 * t ≤ i → i < 64 * t + 64 → (i < 64 * s) ⊎ (64 * s + 64 ≤ i)
other_slot t s i n l h = elim (dec_lt i (64 * s)) [ yes p ↦ inl p | no p ↦ inr (omega arith) ]

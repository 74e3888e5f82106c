-- ===== src/Fs/Free.antt =====
-- What `balloc` and `bfree` do to the disk.
use operating_systems_work.Base.{
  ℕ, zero, suc, ◌+◌, ◌/◌, ◌%◌, ◌^◌, ◌<◌, ◌≡◌, ◌≢◌, refl, sym, ap, ◌∙◌, Bool, true, false, Option,
  none, some, ◌==◌, if◌then◌else◌, arith, ℕ_discrete, subst, Bool-cases, inl, inr,
}
use operating_systems_work.Fs.Disk.{
  Disk, bits_per_block, Superblock, bitmap_block, is_used, set_bit, clear_bit, bit_of,
}
use operating_systems_work.Fs.Alloc.{bzero, change_bit, balloc_from, balloc, bfree}
use operating_systems_work.Fs.Used.{
  Bytes, set-Makes, clear-Makes, change-Bytes, change_other, change_used,
}

-- The blocks of the bitmap itself are marked as in use, and lie on the disk; so is the boot block,
-- whose number stands for no block in an inode.
pub record IsDisk (sb : Superblock) (d : Disk) : Type 0 where
  pub small : sb.size < 2 ^ 32
  pub bytes : Bytes d
  pub boot : (0 < sb.size) × (is_used sb d 0 ≡ true)
  pub reserved :
      (c : ℕ)
      → c < sb.size
      → (bitmap_block sb c < sb.size) × (is_used sb d (bitmap_block sb c) ≡ true)

-- Block `b` was free and is the first such block; it is in use and zero now; the other blocks are as
-- they were, those of the bitmap but for the bit of `b`.
pub record Allocated (sb : Superblock) (d : Disk) (b : ℕ) (d' : Disk) : Type 0 where
  pub on_disk : b < sb.size
  pub was_free : is_used sb d b ≡ false
  pub first : (c : ℕ) → c < b → is_used sb d c ≡ true
  pub used : (c : ℕ) → c < sb.size → is_used sb d' c ≡ (if c == b then true else is_used sb d c)
  pub zeroed : (i : ℕ) → d' b i ≡ 0
  pub others : (c : ℕ) → c ≢ b → ((e : ℕ) → e < sb.size → bitmap_block sb e ≢ c) → d' c ≡ d c
  pub sound : IsDisk sb d'

untouched : (b c : ℕ) (d : Disk) → c ≢ b → bzero b d c ≡ d c
unfolding bzero
untouched b c d n = ground arith

all_zero : (b i : ℕ) (d : Disk) → bzero b d b i ≡ 0
unfolding bzero
all_zero b i d = ground arith

bzero-Bytes : (b : ℕ) (d : Disk) → Bytes d → Bytes (bzero b d)
unfolding bzero
bzero-Bytes b d v c i = ground (arith, v c i)

module _ (sb : Superblock) (d : Disk) (v : IsDisk sb d) where
  -- A free block is not one of the bitmap.
  not_bitmap : (b c : ℕ) → c < sb.size → is_used sb d b ≡ false → bitmap_block sb c ≢ b
  not_bitmap b c h f e = clash (ap (is_used sb d) e ∙ f) (v.reserved c h).1
    where
      clash : {x : Bool} → x ≡ false → x ≡ true → ⊥
      clash p q = cc

  marked : ℕ → Disk
  marked b = bzero b (change_bit sb set_bit b d)

  module _ (b : ℕ) (h : b < sb.size) (f : is_used sb d b ≡ false) where
    marked_used :
        (c : ℕ) → c < sb.size → is_used sb (marked b) c ≡ (if c == b then true else is_used sb d c)
    unfolding marked bzero
    marked_used c k =
        ap (λ x. bit_of (x (c % bits_per_block / 8)) (c % bits_per_block % 8))
          (untouched b (bitmap_block sb c) (change_bit sb set_bit b d) (not_bitmap b c k f))
        ∙ change_used sb set_bit true set-Makes d v.bytes b c

    marked-Allocated : ((c : ℕ) → c < b → is_used sb d c ≡ true) → Allocated sb d b (marked b)
    unfolding marked
    marked-Allocated first = record {
      on_disk = h;
      was_free = f;
      first = first;
      used = marked_used;
      zeroed = λ i. all_zero b i (change_bit sb set_bit b d);
      others =
          λ c n m. untouched b c _ n ∙ change_other sb set_bit true set-Makes d v.bytes b c (m b h);
      sound = record {
        small = v.small;
        boot = (
          v.boot.0,
          marked_used 0 v.boot.0 ∙ ap (λ x. if 0 == b then true else x) v.boot.1 ∙ if_same (0 == b),
        );
        bytes = bzero-Bytes b _ (change-Bytes sb set_bit true set-Makes d v.bytes b);
        reserved = λ c k. (
          (v.reserved c k).0,
          marked_used (bitmap_block sb c) (v.reserved c k).0
              ∙ ap (λ x. if bitmap_block sb c == b then true else x) (v.reserved c k).1
              ∙ if_same (bitmap_block sb c == b),
        );
      };
    }
      where
        if_same : (x : Bool) → (if x then true else true) ≡ true
        if_same x = ground arith

  -- What the search has found.
  abbrev pub Found : Option (ℕ × Disk) → Type 0
  Found none = (c : ℕ) → c < sb.size → is_used sb d c ≡ true
  Found (some (b, d')) = Allocated sb d b d'

  search_lem :
      (n b : ℕ)
      → b + n ≡ sb.size
      → ((c : ℕ) → c < b → is_used sb d c ≡ true)
      → Found (balloc_from sb n b d)
  unfolding balloc_from marked
  search_lem zero b e h = λ c k. h c (omega arith)
  search_lem (suc n) b e h = elim (Bool-cases (is_used sb d b)) [
    | inr f ↦ rw f (marked-Allocated b (omega arith) f h)
    | inl u ↦
        (let h' : (c : ℕ) → c < b + 1 → is_used sb d c ≡ true = λ c k. elim (ℕ_discrete c b) [
          | yes q ↦ ap (is_used sb d) q ∙ u
          | no q ↦ h c (omega arith)
        ] in
          rw u (search_lem n (b + 1) (omega arith) h'))
  ]

  -- On a disk with a sound bitmap, `balloc` takes the first free block, marks it as in use, fills it
  -- with zeros, and leaves all else as it was and the bitmap sound; it panics only if every block
  -- is in use.
  pub balloc_lem : Found (balloc sb d)
  unfolding balloc
  balloc_lem = search_lem sb.size 0 (omega arith) (λ c k. absurd (omega arith))

  -- What `bfree` does to a block that is in use.
  pub bfree_used :
      (b : ℕ)
      → is_used sb d b ≡ true
      → (d' : Disk) × (bfree sb b d ≡ some d')
        × ((c : ℕ) → is_used sb d' c ≡ (if c == b then false else is_used sb d c))
        × ((c : ℕ) → bitmap_block sb b ≢ c → d' c ≡ d c)
        × Bytes d'
  unfolding bfree
  bfree_used b u = (
    change_bit sb clear_bit b d,
    rw u refl,
    change_used sb clear_bit false clear-Makes d v.bytes b,
    change_other sb clear_bit false clear-Makes d v.bytes b,
    change-Bytes sb clear_bit false clear-Makes d v.bytes b,
  )

-- A block that `balloc` returns can be freed, and then the bitmap says of each block of the disk
-- what it said before.
pub balloc-bfree :
    (sb : Superblock) (d d' : Disk) (b : ℕ)
    → IsDisk sb d
    → balloc sb d ≡ some (b, d')
    → (e : Disk) × (bfree sb b d' ≡ some e)
      × ((c : ℕ) → c < sb.size → is_used sb e c ≡ is_used sb d c)
balloc-bfree sb d d' b v h =
    let a : Allocated sb d b d' = subst (Found sb d v) h (balloc_lem sb d v) in
    let (e, p, q, r, s) = bfree_used sb d' a.sound b (a.used b a.on_disk ∙ self_test b) in
    (e, p, λ c k. back c (q c) (a.used c k) a.was_free)
  where
    self_test : (x : ℕ) → (if x == x then true else is_used sb d x) ≡ true
    self_test x = ground arith

    back :
        (c : ℕ) {x y : Bool}
        → x ≡ (if c == b then false else y)
        → y ≡ (if c == b then true else is_used sb d c)
        → is_used sb d b ≡ false
        → x ≡ is_used sb d c
    back c {x} {y} p q f = elim (ℕ_discrete c b) [
      | yes s ↦ p ∙ clear_at s y ∙ sym (ap (is_used sb d) s ∙ f)
      | no s ↦ p ∙ differ s false y ∙ q ∙ differ s true (is_used sb d c)
    ]
      where
        clear_at : c ≡ b → (y : Bool) → (if c == b then false else y) ≡ false
        clear_at s y = ground arith

        differ : c ≢ b → (z y : Bool) → (if c == b then z else y) ≡ y
        differ s z y = ground arith

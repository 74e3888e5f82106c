-- ===== src/Fs/Used.antt =====
-- A change of one bit of the bitmap.
use operating_systems_work.Base.{
  ℕ, ◌/◌, ◌%◌, ◌<◌, ◌≡◌, ◌≢◌, sym, ap, ◌∙◌, Bool, true, false, ◌==◌, if◌then◌else◌, arith,
  ℕ_discrete, ap₂, ◌⊎◌, inl, inr, subst,
}
use operating_systems_work.Fs.Disk.{
  Disk, bits_per_block, Superblock, bitmap_block, bit_of, set_bit, clear_bit, is_used,
}
use operating_systems_work.Fs.Bits.{set_bit_lem, clear_bit_lem}
use operating_systems_work.Fs.Alloc.{change_bit}

abbrev pub Bytes : Disk → Type 0
Bytes d = (b i : ℕ) → d b i < 256

-- The change makes the bit `v` and leaves the others.
abbrev pub Makes : (ℕ → ℕ → ℕ) → Bool → Type 0
Makes f v =
    (j k x : ℕ)
    → j < 8
    → k < 8
    → x < 256
    → (f x k < 256) × (bit_of (f x k) j ≡ (if j == k then v else bit_of x j))

pub set-Makes : Makes set_bit true
set-Makes = set_bit_lem

pub clear-Makes : Makes clear_bit false
clear-Makes = clear_bit_lem

module _ (sb : Superblock) (f : ℕ → ℕ → ℕ) (v : Bool) (makes : Makes f v) (d : Disk)
    (bytes : Bytes d) (b : ℕ) where
  -- The byte that changes.
  abbrev at_byte : ℕ
  at_byte = d (bitmap_block sb b) (b % bits_per_block / 8)

  other_byte :
      (c i : ℕ)
      → (bitmap_block sb b ≢ c) ⊎ (b % bits_per_block / 8 ≢ i)
      → change_bit sb f b d c i ≡ d c i
  other_byte c i h = ground arith

  same_byte :
      change_bit sb f b d (bitmap_block sb b) (b % bits_per_block / 8)
      ≡ f at_byte (b % bits_per_block % 8)
  same_byte = ground arith

  kb : ℕ
  kb = b % bits_per_block % 8

  fits : f at_byte kb < 256
  unfolding kb
  fits = (makes 0 (b % bits_per_block % 8) at_byte (omega arith) (omega arith) (bytes _ _)).0

  -- The bytes stay bytes.
  pub change-Bytes : Bytes (change_bit sb f b d)
  unfolding kb
  change-Bytes c i = elim (ℕ_discrete (bitmap_block sb b) c) [
    | no n ↦ rw (other_byte c i (inl n)) (bytes c i)
    | yes p ↦ elim (ℕ_discrete (b % bits_per_block / 8) i) [
      | no n ↦ rw (other_byte c i (inr n)) (bytes c i)
      | yes q ↦ subst (λ x. x < 256) (sym same_byte ∙ ap₂ (change_bit sb f b d) p q) fits
    ]
  ]

  -- Blocks that hold no bit of the bitmap for `b` stay as they were.
  pub change_other : (c : ℕ) → bitmap_block sb b ≢ c → change_bit sb f b d c ≡ d c
  change_other c n = ground arith

  -- The bit of `b` is `v` afterwards, and the others are as they were.
  pub change_used :
      (c : ℕ) → is_used sb (change_bit sb f b d) c ≡ (if c == b then v else is_used sb d c)
  unfolding kb
  change_used c = elim (ℕ_discrete (bitmap_block sb b) (bitmap_block sb c)) [
    | no n ↦ elsewhere (other_byte _ _ (inl n)) (λ e. n (ap (bitmap_block sb) (sym e)))
    | yes p ↦ elim (ℕ_discrete (b % bits_per_block / 8) (c % bits_per_block / 8)) [
      | no n ↦
          elsewhere (other_byte _ _ (inr n)) (λ e. n (ap (λ x. x % bits_per_block / 8) (sym e)))
      | yes q ↦ here p q
    ]
  ]
    where
      elsewhere :
          change_bit sb f b d (bitmap_block sb c) (c % bits_per_block / 8)
            ≡ d (bitmap_block sb c) (c % bits_per_block / 8)
          → c ≢ b
          → is_used sb (change_bit sb f b d) c ≡ (if c == b then v else is_used sb d c)
      elsewhere e n =
          ap (λ x. bit_of x (c % bits_per_block % 8)) e
          ∙ sym (ap (λ x. if x then v else is_used sb d c) (differ c n))
        where
          differ : (x : ℕ) → x ≢ b → (x == b) ≡ false
          differ x h = ground arith

      here :
          bitmap_block sb b ≡ bitmap_block sb c
          → b % bits_per_block / 8 ≡ c % bits_per_block / 8
          → is_used sb (change_bit sb f b d) c ≡ (if c == b then v else is_used sb d c)
      here p q =
          let jc = c % bits_per_block % 8 in
          ap (λ x. bit_of x jc) (sym (ap₂ (change_bit sb f b d) p q) ∙ same_byte)
          ∙ (makes jc kb at_byte (omega arith) (omega arith) (bytes _ _)).1
          ∙ ap₂ (λ x y. if x then v else y) (same_test p q) (ap (λ x. bit_of x jc) (ap₂ d p q))
        where
          same_test :
              bitmap_block sb b ≡ bitmap_block sb c
              → b % bits_per_block / 8 ≡ c % bits_per_block / 8
              → (c % bits_per_block % 8 == b % bits_per_block % 8) ≡ (c == b)
          same_test p q = ground arith

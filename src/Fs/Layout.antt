-- ===== src/Fs/Layout.antt =====
-- The block map of an inode, by an address for each block and the address of the indirect block.
use operating_systems_work.Base.{
  ℕ, ◌/◌, ◌%◌, ◌<◌, ◌≡◌, ◌≢◌, sym, ap, subst, ◌∙◌, Bool, true, false, ◌==◌, if◌then◌else◌, arith,
  ℕ_discrete,
}
use operating_systems_work.Fs.Disk.{Disk, Superblock, bitmap_block, is_used, block_size}
use operating_systems_work.Fs.Inode.{max_file}
use operating_systems_work.Fs.Free.{IsDisk, Allocated}

-- A block in use that is not of the bitmap.
pub record IsOwned (sb : Superblock) (d : Disk) (a : ℕ) : Type 0 where
  pub on_disk : a < sb.size
  pub used : is_used sb d a ≡ true
  pub plain : (e : ℕ) → e < sb.size → bitmap_block sb e ≢ a

-- No block is there twice. Address 0 is that of a block that is not there.
pub record Layout (sb : Superblock) (d : Disk) (at : ℕ → ℕ) (ind : ℕ) : Type 0 where
  pub owned : (n : ℕ) → n < max_file → at n ≢ 0 → IsOwned sb d (at n)
  pub owned_ind : ind ≢ 0 → IsOwned sb d ind
  pub apart : (n m : ℕ) → n < max_file → m < max_file → at n ≢ 0 → at n ≡ at m → n ≡ m
  pub apart_ind : (n : ℕ) → n < max_file → at n ≢ 0 → at n ≢ ind

-- Byte `i` of the file, where a block that is not there is full of zeros.
abbrev pub file_byte : Disk → (ℕ → ℕ) → ℕ → ℕ
file_byte d at i = if at (i / block_size) == 0 then 0 else d (at (i / block_size)) (i % block_size)

module _ (sb : Superblock) (d d' : Disk) (b : ℕ) (v : IsDisk sb d) (a : Allocated sb d b d') where
  pub fresh : (x : ℕ) → IsOwned sb d x → x ≢ b
  fresh x o e = clash (ap (is_used sb d) e) o.used a.was_free
    where
      clash : {p q : Bool} → p ≡ q → p ≡ true → q ≡ false → ⊥
      clash e h k = cc

  still_used : (x : ℕ) → x < sb.size → is_used sb d x ≡ true → is_used sb d' x ≡ true
  still_used x h u = a.used x h ∙ ap (λ y. if x == b then true else y) u ∙ either (x == b)
    where
      either : (t : Bool) → (if t then true else true) ≡ true
      either t = ground arith

  pub still-IsOwned : (x : ℕ) → IsOwned sb d x → IsOwned sb d' x
  still-IsOwned x o = record {
    on_disk = o.on_disk;
    used = still_used x o.on_disk o.used;
    plain = o.plain;
  }

  new-IsOwned : IsOwned sb d' b
  new-IsOwned = record {
    on_disk = a.on_disk;
    used = a.used b a.on_disk ∙ self b;
    plain = λ e h q. clash (ap (is_used sb d) q) (v.reserved e h).1 a.was_free;
  }
    where
      self : (x : ℕ) → (if x == x then true else is_used sb d x) ≡ true
      self x = ground arith

      clash : {p q : Bool} → p ≡ q → p ≡ true → q ≡ false → ⊥
      clash e h k = cc

  pub new_nonzero : b ≢ 0
  new_nonzero e = clash (ap (is_used sb d) e) v.boot.1 a.was_free
    where
      clash : {p q : Bool} → q ≡ p → p ≡ true → q ≡ false → ⊥
      clash e h k = cc

  -- The content of a block in use stays.
  pub same_content : (x : ℕ) → IsOwned sb d x → d' x ≡ d x
  same_content x o = a.others x (fresh x o) o.plain

  module _ (at : ℕ → ℕ) (ind : ℕ) (l : Layout sb d at ind) where
    -- The new block takes the place of a block that was not there.
    module _ (at' : ℕ → ℕ) (k : ℕ) (hit : at' k ≡ b) (miss : (n : ℕ) → n ≢ k → at' n ≡ at n) where
      old_ne : (n : ℕ) → n ≢ k → n < max_file → at' n ≢ 0 → at' n ≢ b
      old_ne n q h c e = fresh (at n) (l.owned n h (λ z. c (miss n q ∙ z))) (sym (miss n q) ∙ e)

      pub Layout-block : Layout sb d' at' ind
      Layout-block = record {
        owned = λ n h c. elim (ℕ_discrete n k) [
          | yes q ↦ subst (IsOwned sb d') (sym hit ∙ ap at' (sym q)) new-IsOwned
          | no q ↦
              subst (IsOwned sb d') (sym (miss n q))
                (still-IsOwned (at n) (l.owned n h (λ z. c (miss n q ∙ z))))
        ];
        owned_ind = λ h. still-IsOwned ind (l.owned_ind h);
        apart = λ n m h g c e. elim (ℕ_discrete n k) [
          | yes q ↦ elim (ℕ_discrete m k) [
            | yes r ↦ q ∙ sym r
            | no r ↦ absurd (old_ne m r g (λ z. c (e ∙ z)) (sym e ∙ ap at' q ∙ hit))
          ]
          | no q ↦ elim (ℕ_discrete m k) [
            | yes r ↦ absurd (old_ne n q h c (e ∙ ap at' r ∙ hit))
            | no r ↦ l.apart n m h g (λ z. c (miss n q ∙ z)) (sym (miss n q) ∙ e ∙ miss m r)
          ]
        ];
        apart_ind = λ n h c e. elim (ℕ_discrete n k) [
          | yes q ↦ elim (ℕ_discrete ind 0) [
            | yes z ↦ c (e ∙ z)
            | no z ↦ fresh ind (l.owned_ind z) (sym e ∙ ap at' q ∙ hit)
          ]
          | no q ↦ l.apart_ind n h (λ z. c (miss n q ∙ z)) (sym (miss n q) ∙ e)
        ];
      }

    -- The new block becomes the indirect block.
    pub Layout-ind : ind ≡ 0 → Layout sb d' at b
    Layout-ind z = record {
      owned = λ n h k. still-IsOwned (at n) (l.owned n h k);
      owned_ind = λ h. new-IsOwned;
      apart = l.apart;
      apart_ind = λ n h k. fresh (at n) (l.owned n h k);
    }

-- The layout depends on the bitmap and the addresses only.
module _ (sb : Superblock) (d d' : Disk)
    (used : (c : ℕ) → c < sb.size → is_used sb d' c ≡ is_used sb d c) where
  pub IsOwned-same : (a : ℕ) → IsOwned sb d a → IsOwned sb d' a
  IsOwned-same a o = record {
    on_disk = o.on_disk;
    used = used a o.on_disk ∙ o.used;
    plain = o.plain;
  }

  pub Layout-same :
      (at at' : ℕ → ℕ) (ind : ℕ)
      → Layout sb d at ind
      → ((n : ℕ) → n < max_file → at' n ≡ at n)
      → Layout sb d' at' ind
  Layout-same at at' ind l e = record {
    owned = λ n h c.
        subst (IsOwned sb d') (sym (e n h))
          (IsOwned-same (at n) (l.owned n h (λ z. c (e n h ∙ z))));
    owned_ind = λ h. IsOwned-same ind (l.owned_ind h);
    apart = λ n m h g c q. l.apart n m h g (λ z. c (e n h ∙ z)) (sym (e n h) ∙ q ∙ e m g);
    apart_ind = λ n h c q. l.apart_ind n h (λ z. c (e n h ∙ z)) (sym (e n h) ∙ q);
  }

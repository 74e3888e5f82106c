-- ===== src/Cache/Get.antt =====
-- What `bget` returns.
use operating_systems_work.Base.{
  ℕ, zero, suc, ◌≡◌, true, false, Option, none, some, List, [], ◌∷◌, ◌⊎◌,
}
use operating_systems_work.Cache.{Buf, is_block, is_spare, add_ref, recycle}
use operating_systems_work.Cache.Unique.{Absent}

-- No buffer can be recycled.
abbrev pub AllBusy : List Buf → Type 0
AllBusy [] = Unit
AllBusy (b ∷ bs) = (is_spare b ≡ false) × AllBusy bs

-- The list with one buffer changed: from `b` at place `i` to `c`.
abbrev pub Changed : ℕ → Buf → Buf → List Buf → List Buf → Type 0
Changed i b c [] l = ⊥
Changed i b c (x ∷ xs) [] = ⊥
Changed zero b c (x ∷ xs) (y ∷ ys) = (x ≡ b) × (y ≡ c) × (xs ≡ ys)
Changed (suc i) b c (x ∷ xs) (y ∷ ys) = (x ≡ y) × Changed i b c xs ys

-- A reference more to a buffer with the block, or a recycled buffer if there is none; the other
-- buffers keep their places. It fails if the block is not cached and no buffer can be recycled.
abbrev pub BgetPost : ℕ → ℕ → List Buf → Option (ℕ × List Buf) → Type 0
BgetPost dev blockno bs none = Absent dev blockno bs × AllBusy bs
BgetPost dev blockno bs (some (i, l)) =
    ((b : Buf) × (is_block dev blockno b ≡ true) × Changed i b (add_ref b) bs l)
    ⊎ (Absent dev blockno bs
        × (b : Buf) × (is_spare b ≡ true)
        × Changed i b (recycle dev blockno b) bs l)

module _ (dev blockno : ℕ) where
  abbrev Hit : List Buf → Option (ℕ × List Buf) → Type 0
  Hit bs none = Unit
  Hit bs (some (i, l)) = (b : Buf) × (is_block dev blockno b ≡ true) × Changed i b (add_ref b) bs l

  abbrev Spare : List Buf → Option (ℕ × List Buf) → Type 0
  Spare bs none = AllBusy bs
  Spare bs (some (i, l)) =
      (b : Buf) × (is_spare b ≡ true) × Changed i b (recycle dev blockno b) bs l

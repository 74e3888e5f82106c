-- ===== src/Cache/Unique.antt =====
-- No block is in two buffers of the cache.
use operating_systems_work.Base.{
  ℕ, ◌≡◌, refl, false, ◌&&◌, Option, none, some, List, [], ◌∷◌, ◌==◌, inl, inr, ◌⊎◌, Bool-cases,
  Option-cases, arith,
}
use operating_systems_work.Cache.{
  Buf, is_block, is_spare, add_ref, behind, find_cached, find_spare, bget,
}

abbrev pub Absent : ℕ → ℕ → List Buf → Type 0
Absent dev blockno [] = Unit
Absent dev blockno (b ∷ bs) = (is_block dev blockno b ≡ false) × Absent dev blockno bs

-- Device 0 is that of the buffers that have not been used yet.
abbrev pub Unique : List Buf → Type 0
Unique [] = Unit
Unique (b ∷ bs) = ((b.dev ≡ 0) ⊎ Absent b.dev b.blockno bs) × Unique bs

-- The property of the list, if there is one.
abbrev pub OnSome : (List Buf → Type 0) → Option (ℕ × List Buf) → Type 0
OnSome P none = Unit
OnSome P (some (i, bs)) = P bs

Absent-behind :
    (d n : ℕ) (b : Buf) (r : Option (ℕ × List Buf))
    → is_block d n b ≡ false
    → OnSome (Absent d n) r
    → OnSome (Absent d n) (behind b r)
Absent-behind d n b none e h = tt
Absent-behind d n b (some (i, bs)) e h = (e, h)

Unique-behind :
    (b : Buf) (r : Option (ℕ × List Buf))
    → OnSome (λ bs. (b.dev ≡ 0) ⊎ Absent b.dev b.blockno bs) r
    → OnSome Unique r
    → OnSome Unique (behind b r)
Unique-behind b none e h = tt
Unique-behind b (some (i, bs)) e h = (e, h)

module _ (dev blockno : ℕ) where
  Absent-cached :
      (d n : ℕ) (bs : List Buf) → Absent d n bs → OnSome (Absent d n) (find_cached dev blockno bs)
  unfolding find_cached
  Absent-cached d n [] h = tt
  Absent-cached d n (b ∷ bs) h = elim (Bool-cases (is_block dev blockno b)) [
    | inl e ↦ rw e h
    | inr e ↦ rw e (Absent-behind d n b _ h.0 (Absent-cached d n bs h.1))
  ]

  keep_first :
      (b : Buf) (bs : List Buf)
      → (b.dev ≡ 0) ⊎ Absent b.dev b.blockno bs
      → OnSome (λ l. (b.dev ≡ 0) ⊎ Absent b.dev b.blockno l) (find_cached dev blockno bs)
  keep_first b bs h = elim h [
    | inl e ↦ left_case (find_cached dev blockno bs) e
    | inr a ↦ right_case (find_cached dev blockno bs) (Absent-cached b.dev b.blockno bs a)
  ]
    where
      left_case :
          (r : Option (ℕ × List Buf))
          → b.dev ≡ 0
          → OnSome (λ l. (b.dev ≡ 0) ⊎ Absent b.dev b.blockno l) r
      left_case none e = tt
      left_case (some (i, l)) e = inl e

      right_case :
          (r : Option (ℕ × List Buf))
          → OnSome (Absent b.dev b.blockno) r
          → OnSome (λ l. (b.dev ≡ 0) ⊎ Absent b.dev b.blockno l) r
      right_case none e = tt
      right_case (some (i, l)) e = inr e

  Unique-cached : (bs : List Buf) → Unique bs → OnSome Unique (find_cached dev blockno bs)
  unfolding find_cached
  Unique-cached [] u = tt
  Unique-cached (b ∷ bs) u = elim (Bool-cases (is_block dev blockno b)) [
    | inl e ↦ rw e u
    | inr e ↦ rw e (Unique-behind b _ (keep_first b bs u.0) (Unique-cached bs u.1))
  ]

  pub cached_none : (bs : List Buf) → find_cached dev blockno bs ≡ none → Absent dev blockno bs
  unfolding find_cached
  cached_none [] h = tt
  cached_none (b ∷ bs) h = elim (Bool-cases (is_block dev blockno b)) [
    | inl e ↦ absurd (let h' : some (0, add_ref b ∷ bs) ≡ none = rw (e, find_cached) at h in cc)
    | inr e ↦ (e, cached_none bs (passed b _ (rw (e, find_cached) at h)))
  ]
    where
      passed : (c : Buf) (r : Option (ℕ × List Buf)) → behind c r ≡ none → r ≡ none
      passed c none h = refl
      passed c (some (i, l)) h = absurd cc

  -- Another block stays absent when a buffer is recycled.
  Absent-spare :
      (d n : ℕ) (bs : List Buf)
      → ((dev == d) && (blockno == n)) ≡ false
      → Absent d n bs
      → OnSome (Absent d n) (find_spare dev blockno bs)
  unfolding find_spare
  Absent-spare d n [] k h = tt
  Absent-spare d n (b ∷ bs) k h = elim (Option-cases (find_spare dev blockno bs)) [
    | inr (r, e) ↦
        (let i : OnSome (Absent d n) (some r) = rw e at (Absent-spare d n bs k h.1) in
          rw (e, find_spare) (Absent-behind d n b (some r) h.0 i))
    | inl e ↦ elim (Bool-cases (is_spare b)) [
      | inl s ↦ rw (e, s, find_spare) (k, h.1)
      | inr s ↦ rw (e, s, find_spare) tt
    ]
  ]

  other_key :
      (b : Buf)
      → is_block dev blockno b ≡ false
      → ((dev == b.dev) && (blockno == b.blockno)) ≡ false
  other_key b h = ground arith

  keep_spare :
      (b : Buf) (bs : List Buf)
      → is_block dev blockno b ≡ false
      → (b.dev ≡ 0) ⊎ Absent b.dev b.blockno bs
      → OnSome (λ l. (b.dev ≡ 0) ⊎ Absent b.dev b.blockno l) (find_spare dev blockno bs)
  keep_spare b bs k h = elim h [
    | inl e ↦ either_way _ (inl e)
    | inr a ↦ either_way _ (inr (Absent-spare b.dev b.blockno bs (other_key b k) a))
  ]
    where
      either_way :
          (r : Option (ℕ × List Buf))
          → (b.dev ≡ 0) ⊎ OnSome (Absent b.dev b.blockno) r
          → OnSome (λ l. (b.dev ≡ 0) ⊎ Absent b.dev b.blockno l) r
      either_way none e = tt
      either_way (some (i, l)) (inl e) = inl e
      either_way (some (i, l)) (inr a) = inr a

  Unique-spare :
      (bs : List Buf)
      → Absent dev blockno bs
      → Unique bs
      → OnSome Unique (find_spare dev blockno bs)
  unfolding find_spare
  Unique-spare [] a u = tt
  Unique-spare (b ∷ bs) a u = elim (Option-cases (find_spare dev blockno bs)) [
    | inr (r, e) ↦
        rw (e, find_spare)
          (Unique-behind b (some r) (rw e at (keep_spare b bs a.0 u.0))
            (rw e at (Unique-spare bs a.1 u.1)))
    | inl e ↦ elim (Bool-cases (is_spare b)) [
      | inl s ↦ rw (e, s, find_spare) (inr a.1, u.1)
      | inr s ↦ rw (e, s, find_spare) tt
    ]
  ]

  -- If no block of a used device is in two buffers, it is so after `bget`.
  pub Unique-bget : (bs : List Buf) → Unique bs → OnSome Unique (bget dev blockno bs)
  unfolding bget
  Unique-bget bs u = elim (Option-cases (find_cached dev blockno bs)) [
    | inl e ↦ rw (e, bget) (Unique-spare bs (cached_none bs e) u)
    | inr (r, e) ↦ rw (e, bget) (rw e at (Unique-cached bs u))
  ]

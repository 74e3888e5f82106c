-- ===== src/Cache/Release.antt =====
-- `brelse` keeps each block in one buffer.
use operating_systems_work.Base.{
  ℕ, zero, suc, ◌≡◌, ◌≢◌, false, some, List, [], ◌∷◌, ◌==◌, inl, inr, ◌⊎◌, Bool-cases, arith,
  get_elem?, set, get_or_of_get_elem?, ℕ_discrete,
}
use operating_systems_work.Cache.{Buf, is_block, remove, no_buf, drop_ref, brelse}
use operating_systems_work.Cache.Unique.{Absent, Unique}

Absent-remove : (d n i : ℕ) (bs : List Buf) → Absent d n bs → Absent d n (remove i bs)
Absent-remove d n i [] h = h
Absent-remove d n zero (b ∷ bs) h = h.1
Absent-remove d n (suc i) (b ∷ bs) h = (h.0, Absent-remove d n i bs h.1)

some_inj : {a b : Buf} → some a ≡ some b → a ≡ b
some_inj h = ground arith

Absent-at :
    (d n i : ℕ) (bs : List Buf) (b : Buf)
    → get_elem? bs i ≡ some b
    → Absent d n bs
    → is_block d n b ≡ false
Absent-at d n i [] b h a = absurd (ground arith)
Absent-at d n zero (c ∷ cs) b h a = rw (← some_inj h) a.0
Absent-at d n (suc i) (c ∷ cs) b h a = Absent-at d n i cs b h a.1

differs : (c b : Buf) → is_block c.dev c.blockno b ≡ false → is_block b.dev b.blockno c ≡ false
differs c b h = ground arith

unused_differs : (b c : Buf) → c.dev ≡ 0 → b.dev ≢ 0 → is_block b.dev b.blockno c ≡ false
unused_differs b c z y = ground arith

-- The buffer at the place, in front of the others.
Unique-front :
    (i : ℕ) (bs : List Buf) (b : Buf)
    → get_elem? bs i ≡ some b
    → Unique bs
    → ((b.dev ≡ 0) ⊎ Absent b.dev b.blockno (remove i bs)) × Unique (remove i bs)
Unique-front i [] b h u = absurd (ground arith)
Unique-front zero (c ∷ cs) b h u = let q : c ≡ b = some_inj h in rw (← q) u
Unique-front (suc i) (c ∷ cs) b h u =
    let (f, v) = Unique-front i cs b h u.1 in
    (
      elim f [
        | inl z ↦ inl z
        | inr a ↦ elim u.0 [
          | inl z ↦ elim (ℕ_discrete b.dev 0) [
            | yes y ↦ inl y
            | no y ↦ inr (unused_differs b c z y, a)
          ]
          | inr k ↦ inr (differs c b (Absent-at c.dev c.blockno i cs b h k), a)
        ]
      ],
      (elim u.0 [ inl z ↦ inl z | inr k ↦ inr (Absent-remove c.dev c.blockno i cs k) ], v),
    )

Absent-set :
    (d n i : ℕ) (bs : List Buf) (b : Buf)
    → is_block d n b ≡ false
    → Absent d n bs
    → Absent d n (set bs i b)
Absent-set d n i [] b k h = tt
Absent-set d n zero (c ∷ cs) b k h = (k, h.1)
Absent-set d n (suc i) (c ∷ cs) b k h = (h.0, Absent-set d n i cs b k h.1)

Unique-set :
    (i : ℕ) (bs : List Buf) (b : Buf)
    → get_elem? bs i ≡ some b
    → Unique bs
    → Unique (set bs i (drop_ref b))
Unique-set i [] b h u = absurd (ground arith)
Unique-set zero (c ∷ cs) b h u = let q : c ≡ b = some_inj h in rw (← q) u
Unique-set (suc i) (c ∷ cs) b h u = (
  elim u.0 [
    | inl z ↦ inl z
    | inr k ↦
        inr (Absent-set c.dev c.blockno i cs (drop_ref b) (Absent-at c.dev c.blockno i cs b h k) k)
  ],
  Unique-set i cs b h u.1,
)

-- If no block of a used device is in two buffers, it is so after `brelse` of any buffer of the
-- cache.
pub Unique-brelse :
    (i : ℕ) (bs : List Buf) (b : Buf) → get_elem? bs i ≡ some b → Unique bs → Unique (brelse i bs)
unfolding brelse
Unique-brelse i bs b h u =
    rw (get_or_of_get_elem? bs i no_buf h) (elim (Bool-cases ((drop_ref b).refcnt == 0)) [
      | inl e ↦ rw e (Unique-front i bs b h u)
      | inr e ↦ rw e (Unique-set i bs b h u)
    ])

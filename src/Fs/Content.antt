-- ===== src/Fs/Content.antt =====
-- The loops of `readi` and `writei`.
use operating_systems_work.Base.{
  ℕ, zero, suc, ◌+◌, ◌-◌, ◌*◌, ◌/◌, ◌%◌, ◌<◌, ◌≤◌, ◌≡◌, ◌≢◌, refl, sym, subst, ◌∙◌, true, false,
  Option, none, some, inl, inr, ◌==◌, arith, ℕ_discrete, Option-cases, min,
}
use operating_systems_work.Fs.Disk.{Disk, put_block, Superblock, block_size}
use operating_systems_work.Fs.Inode.{Inode, max_file, bmap, write_loop}
use operating_systems_work.Fs.Free.{IsDisk}
use operating_systems_work.Fs.Extend.{addr_of, IsMapped, StepPost}
use operating_systems_work.Fs.Bmap.{bmap_lem, bmap_there}
use operating_systems_work.Fs.Write.{
  Written, nothing-Written, chunk-Written, after-Mapped, after-Written, chunk,
}

-- Places of the file from `off` on, `n` of them.
abbrev pub InRange : ℕ → ℕ → ℕ → Type 0
InRange off n i = (off ≤ i) × (i < off + n)

-- The outcome of a write: it panics only if a block of the range is not there.
abbrev pub WritePost :
    Superblock → ℕ → ℕ → ℕ → (ℕ → ℕ) → Inode → Disk → Option (Inode × Disk) → Type 0
WritePost sb off n src buf ip d none =
    (i : ℕ) × InRange off n i × (addr_of ip d (i / block_size) ≡ 0)
WritePost sb off n src buf ip d (some (ip', d')) =
    Written sb off n (λ i. buf (i - off + src)) ip d ip' d'

write_rest :
    (sb : Superblock) (off n m src : ℕ) (buf : ℕ → ℕ) (ip ip₁ : Inode) (d d₁ : Disk)
    (o : Option (Inode × Disk))
    → m ≤ n
    → off + n ≤ max_file * block_size
    → Written sb off m (λ i. buf (i - off + src)) ip d ip₁ d₁
    → WritePost sb (off + m) (n - m) (src + m) buf ip₁ d₁ o
    → WritePost sb off n src buf ip d o
write_rest sb off n m src buf ip ip₁ d d₁ none g f p (i, (h, k), z) = (
  i,
  (omega arith, omega arith),
  elim (ℕ_discrete (addr_of ip d (i / block_size)) 0) [
    | yes q ↦ q
    | no q ↦ absurd (q (sym (p.kept (i / block_size) (omega arith) q) ∙ z))
  ],
)
write_rest sb off n m src buf ip ip₁ d d₁ (some (ip₂, d₂)) g f p w =
    after-Written sb off n m buf src ip ip₁ ip₂ d d₁ d₂ g f p w

-- The number of bytes of a round.
pub round_size :
    (off n : ℕ)
    → n ≢ 0
    → (0 < min n (block_size - off % block_size))
      × (min n (block_size - off % block_size) ≤ n)
      × (off % block_size + min n (block_size - off % block_size) ≤ block_size)
round_size off n h = ground arith

-- The steps of the two loops.
module _ (sb : Superblock) (rounds off src n : ℕ) (ip : Inode) (d : Disk) (buf : ℕ → ℕ) where
  abbrev size_of_round : ℕ
  size_of_round = min n (block_size - off % block_size)

  write_done : n ≡ 0 → write_loop sb (suc rounds) off src n ip d buf ≡ some (ip, d)
  unfolding write_loop
  write_done z = (let t : (n == 0) ≡ true = ground arith in rw (write_loop, t) refl)

  write_panic :
      n ≢ 0
      → bmap sb (off / block_size) ip d ≡ none
      → write_loop sb (suc rounds) off src n ip d buf ≡ none
  unfolding write_loop
  write_panic z e = (let t : (n == 0) ≡ false = ground arith in rw (write_loop, t, e) refl)

  write_round :
      n ≢ 0
      → (a : ℕ) (ip₁ : Inode) (d₁ : Disk) → bmap sb (off / block_size) ip d ≡ some (a, ip₁, d₁)
      → write_loop sb (suc rounds) off src n ip d buf
        ≡ write_loop sb rounds
            (off + size_of_round)
            (src + size_of_round)
            (n - size_of_round)
            ip₁
            (put_block d₁ a (chunk off size_of_round buf src (d₁ a)))
            buf
  unfolding write_loop
  write_round z a ip₁ d₁ e = (let t : (n == 0) ≡ false = ground arith in rw (write_loop, t, e) refl)

module _ (sb : Superblock) (buf : ℕ → ℕ) (small : (i : ℕ) → buf i < 256) where
  -- A round that does not panic.
  written :
      (off src m : ℕ) (ip : Inode) (d : Disk)
      → IsDisk sb d
      → IsMapped sb ip d
      → off / block_size < max_file
      → off % block_size + m ≤ block_size
      → (a : ℕ) (ip₁ : Inode) (d₁ : Disk) → bmap sb (off / block_size) ip d ≡ some (a, ip₁, d₁)
      → Written sb off m
          (λ i. buf (i - off + src))
          ip
          d
          ip₁
          (put_block d₁ a (chunk off m buf src (d₁ a)))
  written off src m ip d v l h r a ip₁ d₁ e =
      let (p, c, q) =
        subst (StepPost sb ip d (λ x ip' d'. addr_of ip' d' (off / block_size) ≡ x)) e
          (bmap_lem sb ip d v l (off / block_size) h) in
      after-Mapped sb off m m buf src ip ip₁ ip₁ d d₁ (put_block d₁ a (chunk off m buf src (d₁ a)))
        p
        (subst
          (λ x.
            Written sb off m (λ i. buf (i - off + src)) ip₁ d₁ ip₁
              (put_block d₁ x (chunk off m buf src (d₁ x))))
          q (chunk-Written sb ip₁ d₁ p.disk p.layout off m buf src small h (λ z. c (sym q ∙ z)) r))

  pub write_loop_lem :
      (rounds off src n : ℕ) (ip : Inode) (d : Disk)
      → IsDisk sb d
      → IsMapped sb ip d
      → n ≤ rounds
      → off + n ≤ max_file * block_size
      → WritePost sb off n src buf ip d (write_loop sb rounds off src n ip d buf)
  unfolding write_loop
  write_loop_lem zero off src n ip d v l g f = nothing-Written sb ip d v l off n _ (omega arith)
  write_loop_lem (suc rounds) off src n ip d v l g f = elim (ℕ_discrete n 0) [
    | yes z ↦
        subst (WritePost sb off n src buf ip d) (sym (write_done sb rounds off src n ip d buf z))
          (nothing-Written sb ip d v l off n _ z)
    | no z ↦ elim (Option-cases (bmap sb (off / block_size) ip d)) [
      | inl e ↦
          subst (WritePost sb off n src buf ip d)
            (sym (write_panic sb rounds off src n ip d buf z e))
            (off, (omega arith, omega arith), absent (omega arith) e)
      | inr ((a, ip₁, d₁), e) ↦
          subst (WritePost sb off n src buf ip d)
            (sym (write_round sb rounds off src n ip d buf z a ip₁ d₁ e))
            (let bound : off / block_size < max_file = omega arith in
              let s = round_size off n z in
              let m = min n (block_size - off % block_size) in
              let w = written off src m ip d v l bound s.2 a ip₁ d₁ e in
              write_rest sb off n m src buf ip ip₁ d (put_block d₁ a (chunk off m buf src (d₁ a))) _
                s.1 f w
                (write_loop_lem rounds (off + m) (src + m) (n - m) ip₁
                  (put_block d₁ a (chunk off m buf src (d₁ a))) w.disk w.layout
                  (omega (arith, s.0, s.1, g)) (omega (arith, s.1, f))))
    ]
  ]
    where
      absent :
          off / block_size < max_file
          → bmap sb (off / block_size) ip d ≡ none
          → addr_of ip d (off / block_size) ≡ 0
      absent b e = elim (ℕ_discrete (addr_of ip d (off / block_size)) 0) [
        | yes q ↦ q
        | no q ↦ absurd (clash (sym e ∙ bmap_there sb ip d (off / block_size) b q))
      ]
        where
          clash : {x : ℕ × Inode × Disk} → none ≡ some x → ⊥
          clash h = cc

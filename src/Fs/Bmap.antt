-- ===== src/Fs/Bmap.antt =====
-- `bmap` as a whole: the address of a block, and the content of the file.
use operating_systems_work.Base.{
  ℕ, ◌+◌, ◌-◌, ◌<◌, ◌≤◌, ◌≡◌, ◌≢◌, refl, sym, ap, subst, ◌∙◌, true, false, Option, none, some, inl,
  inr, ◌==◌, ltb, arith, ℕ_discrete, Option-cases, dec_lt,
}
use operating_systems_work.Fs.Disk.{Disk, put_block, Superblock}
use operating_systems_work.Fs.Alloc.{balloc}
use operating_systems_work.Fs.Inode.{
  Inode, max_file, get_uint, put_uint, ensure_addr, ensure_entry, bmap,
}
use operating_systems_work.Fs.Free.{IsDisk, Allocated, Found, balloc_lem}
use operating_systems_work.Fs.Layout.{new_nonzero}
use operating_systems_work.Fs.Extend.{
  addr_of, IsMapped, Mapped, Mapped-refl, StepPost, ensure_addr_lem,
}
use operating_systems_work.Fs.Map.{new_entry, new_entry_hit}

pub Mapped-trans :
    (sb : Superblock) (ip ip₁ ip₂ : Inode) (d d₁ d₂ : Disk)
    → Mapped sb ip d ip₁ d₁
    → Mapped sb ip₁ d₁ ip₂ d₂
    → Mapped sb ip d ip₂ d₂
Mapped-trans sb ip ip₁ ip₂ d d₁ d₂ m r = record {
  disk = r.disk;
  layout = r.layout;
  same_size = r.same_size ∙ m.same_size;
  fields = r.fields ∙ ap {A = Inode} {B = Inode} (λ y. record y { addrs = ip₂.addrs }) m.fields;
  spared = λ x p. (let (q, e) = m.spared x p in let (s, g) = r.spared x q in (s, g ∙ e));
  bytes = λ i h. r.bytes i h ∙ m.bytes i h;
  kept = λ n h c. r.kept n h (λ z. c (sym (m.kept n h c) ∙ z)) ∙ m.kept n h c;
}

-- The address of a block behind the direct ones.
entry_addr :
    (ip : Inode) (d : Disk) (n : ℕ)
    → 12 ≤ n
    → ip.addrs 12 ≢ 0
    → addr_of ip d n ≡ get_uint (d (ip.addrs 12)) (n - 12)
entry_addr ip d n h c =
    (let e : ltb n 12 ≡ false = ground arith in
      let t : (ip.addrs 12 == 0) ≡ false = ground arith in rw (e, t) refl)

module _ (sb : Superblock) (ip : Inode) (d : Disk) where
  weaken :
      (P Q : ℕ → Inode → Disk → Type 0)
      → ((x : ℕ) (ip' : Inode) (d' : Disk) → P x ip' d' → Q x ip' d')
      → (o : Option (ℕ × Inode × Disk)) → StepPost sb ip d P o
      → StepPost sb ip d Q o
  weaken P Q f none s = tt
  weaken P Q f (some (x, ip', d')) (m, c, p) = (m, c, f x ip' d' p)

-- A step after another.
after_step :
    (sb : Superblock) (ip ip' : Inode) (d d' : Disk)
    → Mapped sb ip d ip' d'
    → (P : ℕ → Inode → Disk → Type 0) (o : Option (ℕ × Inode × Disk)) → StepPost sb ip' d' P o
    → StepPost sb ip d P o
after_step sb ip ip' d d' m P none s = tt
after_step sb ip ip' d d' m P (some (x, ip₂, d₂)) (r, c, p) =
    (Mapped-trans sb ip ip' ip₂ d d' d₂ m r, c, p)

module _ (sb : Superblock) (ip : Inode) (d : Disk) (v : IsDisk sb d) (l : IsMapped sb ip d) where
  ensure_entry_lem :
      (j : ℕ)
      → j < 128
      → ip.addrs 12 ≢ 0
      → StepPost sb ip d
          (λ x ip' d'. addr_of ip' d' (j + 12) ≡ x)
          (ensure_entry sb (ip.addrs 12) j ip d)
  unfolding ensure_entry
  ensure_entry_lem j h there = elim (ℕ_discrete (get_uint (d (ip.addrs 12)) j) 0) [
    | no n ↦
        (let t : (get_uint (d (ip.addrs 12)) j == 0) ≡ false = ground arith in
          rw (ensure_entry, t)
            (
              Mapped-refl sb ip d v l,
              n,
              entry_addr ip d (j + 12) (omega arith) there
                  ∙ ap (get_uint (d (ip.addrs 12))) (omega arith),
            ))
    | yes z ↦
        (let t : (get_uint (d (ip.addrs 12)) j == 0) ≡ true = ground arith in
          rw (ensure_entry, t)
            (elim (Option-cases (balloc sb d)) [
              | inl e ↦ rw e tt
              | inr ((b, d'), e) ↦
                  rw e (allocated z b d' (subst (Found sb d v) e (balloc_lem sb d v)))
            ]))
  ]
    where
      allocated :
          get_uint (d (ip.addrs 12)) j ≡ 0
          → (b : ℕ) (d' : Disk) → Allocated sb d b d'
          → Mapped sb ip d ip (put_block d' (ip.addrs 12) (put_uint (d (ip.addrs 12)) j b))
            × (b ≢ 0)
            × (addr_of ip (put_block d' (ip.addrs 12) (put_uint (d (ip.addrs 12)) j b)) (j + 12)
                ≡ b)
      allocated z b d' a = (
        new_entry sb ip d v l there j h z b d' a,
        new_nonzero sb d d' b v a,
        new_entry_hit sb ip d v l there j h z b d' a,
      )

module _ (sb : Superblock) (ip : Inode) (d : Disk) (v : IsDisk sb d) (l : IsMapped sb ip d) where
  -- For a block number below MAXFILE, `bmap` (when it does not panic) gives the address of that block
  -- of the file, which is not 0; the inode and the disk are sound afterwards, each block that was
  -- there has the address that it had, and every byte of the file is what it was, where a block
  -- that was not there counts as zeros.
  pub bmap_lem :
      (bn : ℕ)
      → bn < max_file
      → StepPost sb ip d (λ x ip' d'. addr_of ip' d' bn ≡ x) (bmap sb bn ip d)
  unfolding bmap
  bmap_lem bn h = elim (dec_lt bn 12) [
    | yes k ↦
        (let t : ltb bn 12 ≡ true = ground arith in
          let e : bmap sb bn ip d ≡ ensure_addr sb bn ip d = rw (bmap, t) refl in
          subst (StepPost sb ip d (λ x ip' d'. addr_of ip' d' bn ≡ x)) (sym e) (
            weaken sb ip d (λ x ip' d'. ip'.addrs bn ≡ x) (λ x ip' d'. addr_of ip' d' bn ≡ x)
              (λ x ip' d' e. direct t ip' d' ∙ e) (ensure_addr sb bn ip d)
              (ensure_addr_lem sb ip d v l bn (omega arith))))
    | no k ↦
        (let t : ltb bn 12 ≡ false = ground arith in
          let u : ltb (bn - 12) 128 ≡ true = ground arith in
          elim (Option-cases (ensure_addr sb 12 ip d)) [
            | inl e ↦
                (let q : bmap sb bn ip d ≡ none = rw (bmap, t, u, e) refl in
                  subst (StepPost sb ip d (λ x ip' d'. addr_of ip' d' bn ≡ x)) (sym q) tt)
            | inr ((ia, ip', d'), e) ↦
                (let q : bmap sb bn ip d ≡ ensure_entry sb ia (bn - 12) ip' d' =
                    rw (bmap, t, u, e) refl in
                  subst (StepPost sb ip d (λ x ip' d'. addr_of ip' d' bn ≡ x)) (sym q) (
                    behind ia ip' d' (omega arith) (
                      subst (StepPost sb ip d (λ x ip' d'. ip'.addrs 12 ≡ x)) e
                        (ensure_addr_lem sb ip d v l 12 (omega arith)))))
          ])
  ]
    where
      direct : ltb bn 12 ≡ true → (ip' : Inode) (d' : Disk) → addr_of ip' d' bn ≡ ip'.addrs bn
      direct t ip' d' = rw t refl

      behind :
          (ia : ℕ) (ip' : Inode) (d' : Disk)
          → 12 ≤ bn
          → Mapped sb ip d ip' d' × (ia ≢ 0) × (ip'.addrs 12 ≡ ia)
          → StepPost sb ip d
              (λ x ip₂ d₂. addr_of ip₂ d₂ bn ≡ x)
              (ensure_entry sb ia (bn - 12) ip' d')
      behind ia ip' d' g (m, c, e) =
          after_step sb ip ip' d d' m (λ x ip₂ d₂. addr_of ip₂ d₂ bn ≡ x)
            (ensure_entry sb ia (bn - 12) ip' d')
            (subst
              (λ y.
                StepPost sb ip' d' (λ x ip₂ d₂. addr_of ip₂ d₂ bn ≡ x)
                  (ensure_entry sb y (bn - 12) ip' d'))
              e
              (subst
                (λ y.
                  StepPost sb ip' d' (λ x ip₂ d₂. addr_of ip₂ d₂ y ≡ x)
                    (ensure_entry sb (ip'.addrs 12) (bn - 12) ip' d'))
                (omega arith)
                (ensure_entry_lem sb ip' d' m.disk m.layout (bn - 12) (omega arith)
                  (λ z. c (sym e ∙ z)))))

-- A block that is there is found without a change.
pub bmap_there :
    (sb : Superblock) (ip : Inode) (d : Disk) (bn : ℕ)
    → bn < max_file
    → addr_of ip d bn ≢ 0
    → bmap sb bn ip d ≡ some (addr_of ip d bn, ip, d)
unfolding bmap ensure_addr ensure_entry
bmap_there sb ip d bn h c = elim (dec_lt bn 12) [
  | yes k ↦
      (let t : ltb bn 12 ≡ true = ground arith in
        let u : (ip.addrs bn == 0) ≡ false = direct t c in rw (bmap, t, u) refl)
  | no k ↦
      (let t : ltb bn 12 ≡ false = ground arith in
        let g : ltb (bn - 12) 128 ≡ true = ground arith in
        let u : (ip.addrs 12 == 0) ≡ false = there t c in
        let w : (get_uint (d (ip.addrs 12)) (bn - 12) == 0) ≡ false = entry t c in
        rw (bmap, t, g, u, w) refl)
]
  where
    direct : ltb bn 12 ≡ true → addr_of ip d bn ≢ 0 → (ip.addrs bn == 0) ≡ false
    direct t c = ground arith

    there : ltb bn 12 ≡ false → addr_of ip d bn ≢ 0 → (ip.addrs 12 == 0) ≡ false
    there t c = ground arith

    entry :
        ltb bn 12 ≡ false
        → addr_of ip d bn ≢ 0
        → (get_uint (d (ip.addrs 12)) (bn - 12) == 0) ≡ false
    entry t c = ground arith

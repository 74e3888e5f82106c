-- ===== src/Fs/Lookup.antt =====
-- What the loop of `dirlookup` finds.
use operating_systems_work.Base.{
  ℕ, zero, suc, ◌+◌, ◌-◌, ◌*◌, ◌/◌, ◌%◌, ◌<◌, ◌≤◌, ◌≡◌, ◌≢◌, ◌⊎◌, refl, sym, ap, ap₂, ◌∙◌, subst,
  true, false, Option, none, some, ◌==◌, ltb, if◌then◌else◌, arith, ℕ_discrete, inl, inr, dec_lt,
  min,
}
use operating_systems_work.Strings.Compare.{strncmp_lem}
use operating_systems_work.Fs.Disk.{Disk, Superblock, block_size}
use operating_systems_work.Fs.Inode.{Inode}
use operating_systems_work.Fs.Transfer.{Devsw, t_dev}
use operating_systems_work.Fs.Extend.{addr_of, byte_at}
use operating_systems_work.Fs.Whole.{IsFile}
use operating_systems_work.Fs.Roundtrip.{readi_lem}
use operating_systems_work.Fs.Path.{dirsiz, SameName}
use operating_systems_work.Fs.Directory.{
  entry_size, entry_inum, beside, namecmp, read_entry, lookup_loop,
}

-- `namecmp` is 0 exactly on names that are the same up to the first zero or to DIRSIZ bytes.
module _ (name de : ℕ → ℕ) (b : (i : ℕ) → name i < 256) (c : (i : ℕ) → i < 16 → de i < 256) where
  name_at : (i : ℕ) → beside de name (16 + i) ≡ name i
  name_at i =
      (let e : 16 + i - 16 ≡ i = omega arith in
        let t : ltb (16 + i) 16 ≡ false = ground arith in rw (t, e) refl)

  entry_at : (i : ℕ) → i < dirsiz → beside de name (2 + i) ≡ de (2 + i)
  entry_at i h = ground arith

  namecmp_lem :
      (namecmp name de ≡ 0 → SameName name (λ i. de (2 + i)))
      × (SameName name (λ i. de (2 + i)) → namecmp name de ≡ 0)
  namecmp_lem =
      let (f, g) =
        strncmp_lem dirsiz 16 2 (beside de name) (λ a. ground (arith, b (a - 16), c a)) in
      (
        (λ e i h k.
            sym (name_at i) ∙ f e i h (λ j l z. k j l (sym (name_at j) ∙ z)) ∙ entry_at i h),
        λ s. g (λ i h k. name_at i ∙ s i h (λ j l z. k j l (name_at j ∙ z)) ∙ sym (entry_at i h)),
      )

-- The entry at place `e` of a directory is in use and has the name.
abbrev pub number_at : Inode → Disk → ℕ → ℕ
number_at dp d e = byte_at dp d e + byte_at dp d (1 + e) * 256

abbrev pub IsMatch : (ℕ → ℕ) → Inode → Disk → ℕ → Type 0
IsMatch name dp d e = (number_at dp d e ≢ 0) × SameName name (λ i. byte_at dp d (2 + i + e))

-- The first entry with the name, or none.
abbrev pub FirstMatch : (ℕ → ℕ) → Inode → Disk → Option (ℕ × ℕ) → Type 0
FirstMatch name dp d none = (e : ℕ) → e < dp.size → e % 16 ≡ 0 → ¬ (IsMatch name dp d e)
FirstMatch name dp d (some (e, k)) =
    (e < dp.size)
    × (e % 16 ≡ 0)
    × IsMatch name dp d e
    × (k ≡ number_at dp d e)
    × ((e' : ℕ) → e' < e → e' % 16 ≡ 0 → ¬ (IsMatch name dp d e'))

module _ (devsw : ℕ → Devsw) (sb : Superblock) (dp : Inode) (d : Disk) (f : IsFile sb dp d)
    (regular : dp.type ≢ t_dev) where
  pub byte_small : (i : ℕ) → byte_at dp d i < 256
  byte_small i = of_block (addr_of dp d (i / block_size)) (i % block_size)
    where
      of_block : (a j : ℕ) → (if a == 0 then 0 else d a j) < 256
      of_block a j = ground (arith, f.disk.bytes a j)

  pub read_entry_lem :
      (off : ℕ) (de : ℕ → ℕ)
      → off + 16 ≤ dp.size
      → (de' : ℕ → ℕ) × (read_entry devsw sb off dp d de ≡ some (dp, d, de'))
        × ((j : ℕ) → j < 16 → de' j ≡ byte_at dp d (j + off))
  unfolding read_entry
  read_entry_lem off de h =
      let (de', e, w) =
        readi_lem devsw sb off entry_size dp d de f regular (omega arith) (omega (arith, f.fits)) in
      let s : min 16 (dp.size - off) ≡ 16 = omega arith in
      (
        de',
        rw (read_entry, e) (ap (λ k. if k == 16 then some (dp, d, de') else none) s),
        λ j l. w j ∙ ap (λ k. if ltb j k then byte_at dp d (j + off) else de j) s ∙ ground arith,
      )

  module _ (name : ℕ → ℕ) (small : (i : ℕ) → name i < 256) where
    -- What the code sees of the entry that it has read.
    entry_match :
        (off : ℕ) (de : ℕ → ℕ)
        → ((j : ℕ) → j < 16 → de j ≡ byte_at dp d (j + off))
        → (entry_inum de ≡ number_at dp d off)
          × (namecmp name de ≡ 0 → SameName name (λ i. byte_at dp d (2 + i + off)))
          × (SameName name (λ i. byte_at dp d (2 + i + off)) → namecmp name de ≡ 0)
    entry_match off de w =
        let (p, q) =
          namecmp_lem name de small
            (λ i h. subst (λ x. x < 256) (sym (w i h)) (byte_small (i + off))) in
        (
          ap₂ (λ x y. x + y * 256) (w 0 (omega arith) ∙ ap (byte_at dp d) (omega arith))
              (w 1 (omega arith)),
          (λ e i h k. p e i h k ∙ w (2 + i) (omega arith)),
          λ s. q (λ i h k. s i h k ∙ sym (w (2 + i) (omega arith))),
        )

    -- A round of the loop.
    module _ (rounds off : ℕ) (de de' : ℕ → ℕ) (h : off < dp.size)
        (e : read_entry devsw sb off dp d de ≡ some (dp, d, de')) where
      round_skip :
          (entry_inum de' ≡ 0) ⊎ (namecmp name de' ≢ 0)
          → lookup_loop devsw sb (suc rounds) off name dp d de
            ≡ lookup_loop devsw sb rounds (off + entry_size) name dp d de'
      unfolding lookup_loop
      round_skip c =
          (let t : ltb off dp.size ≡ true = ground arith in
            rw (lookup_loop, t, e)
              (skipped (entry_inum de') (namecmp name de')
                (some (some (off, entry_inum de'), dp, d))
                (lookup_loop devsw sb rounds (off + entry_size) name dp d de') c))
        where
          skipped :
              (a b : ℕ) (x r : Option (Option (ℕ × ℕ) × Inode × Disk))
              → (a ≡ 0) ⊎ (b ≢ 0)
              → (if a == 0 then r else if b == 0 then x else r) ≡ r
          skipped a b x r c = ground arith

      round_found :
          entry_inum de' ≢ 0
          → namecmp name de' ≡ 0
          → lookup_loop devsw sb (suc rounds) off name dp d de
            ≡ some (some (off, entry_inum de'), dp, d)
      unfolding lookup_loop
      round_found n z =
          (let t : ltb off dp.size ≡ true = ground arith in
            let u : (entry_inum de' == 0) ≡ false = ground arith in
            let v : (namecmp name de' == 0) ≡ true = ground arith in
            rw (lookup_loop, t, e, u, v) refl)

    pub lookup_loop_lem :
        (rounds off : ℕ) (de : ℕ → ℕ)
        → off % 16 ≡ 0
        → dp.size % 16 ≡ 0
        → dp.size ≤ off + rounds
        → ((e : ℕ) → e < off → e % 16 ≡ 0 → ¬ (IsMatch name dp d e))
        → (r : Option (ℕ × ℕ)) × (lookup_loop devsw sb rounds off name dp d de ≡ some (r, dp, d))
          × FirstMatch name dp d r
    unfolding lookup_loop
    lookup_loop_lem zero off de p q h g = (none, refl, λ e l m. g e (omega arith) m)
    lookup_loop_lem (suc rounds) off de p q h g = elim (dec_lt off dp.size) [
      | no k ↦ (
        none,
        (let t : ltb off dp.size ≡ false = ground arith in rw (lookup_loop, t) refl),
        λ e l m. g e (omega arith) m,
      )
      | yes k ↦
          (let (de', e, w) = read_entry_lem off de (omega arith) in
            let (s, o, i) = entry_match off de' w in
            elim (ℕ_discrete (entry_inum de') 0) [
              | yes z ↦ after k de' e (inl z) (
                  lookup_loop_lem rounds (off + entry_size) de' (omega (arith, p)) q (omega arith)
                    (grown (λ m. m.0 (sym s ∙ z))))
              | no z ↦ elim (ℕ_discrete (namecmp name de') 0) [
                | yes c ↦ (
                  some (off, entry_inum de'),
                  round_found rounds off de de' k e z c,
                  (k, p, ((λ y. z (s ∙ y)), o c), s, g),
                )
                | no c ↦ after k de' e (inr c) (
                    lookup_loop_lem rounds (off + entry_size) de' (omega (arith, p)) q (omega arith)
                      (grown (λ m. c (i m.1))))
              ]
            ])
    ]
      where
        grown :
            ¬ (IsMatch name dp d off)
            → (e : ℕ) → e < off + entry_size
            → e % 16 ≡ 0
            → ¬ (IsMatch name dp d e)
        grown n e l m = elim (ℕ_discrete e off) [
          | yes r ↦ (λ x. n (subst (IsMatch name dp d) r x))
          | no r ↦ g e (omega arith) m
        ]

        after :
            off < dp.size
            → (de' : ℕ → ℕ) → read_entry devsw sb off dp d de ≡ some (dp, d, de')
            → (entry_inum de' ≡ 0) ⊎ (namecmp name de' ≢ 0)
            → (r : Option (ℕ × ℕ)) × (lookup_loop devsw sb rounds (off + entry_size) name dp d de'
                ≡ some (r, dp, d))
              × FirstMatch name dp d r
            → (r : Option (ℕ × ℕ)) × (lookup_loop devsw sb (suc rounds) off name dp d de
                ≡ some (r, dp, d))
              × FirstMatch name dp d r
        after k de' e c (r, a, m) = (r, round_skip rounds off de de' k e c ∙ a, m)

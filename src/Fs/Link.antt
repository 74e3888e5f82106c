-- ===== src/Fs/Link.antt =====
-- What `dirlink` writes, and that `dirlookup` finds it.
use operating_systems_work.Base.{
  ℕ, zero, suc, ◌+◌, ◌-◌, ◌*◌, ◌%◌, ◌<◌, ◌≤◌, ◌≡◌, ◌≢◌, ◌⊎◌, refl, sym, ap, ap₂, ◌∙◌, subst, true,
  false, some, ◌==◌, ltb, arith, ℕ_discrete, inl, inr, dec_lt,
}
use operating_systems_work.Strings.{Memory}
use operating_systems_work.Strings.Terminate.{padded, strncpy_lem}
use operating_systems_work.Fs.Disk.{Disk, Superblock}
use operating_systems_work.Fs.Inode.{Inode}
use operating_systems_work.Fs.Transfer.{Devsw, t_dev}
use operating_systems_work.Fs.Extend.{byte_at}
use operating_systems_work.Fs.Whole.{IsFile}
use operating_systems_work.Fs.Path.{dirsiz, SameName}
use operating_systems_work.Fs.Directory.{
  entry_size, entry_inum, beside, read_entry, empty_loop, new_entry,
}
use operating_systems_work.Fs.Lookup.{number_at, read_entry_lem}

-- The place for the new entry: an empty entry, or the end.
abbrev pub IsPlace : Inode → Disk → ℕ → Type 0
IsPlace dp d off = (off % 16 ≡ 0) × (off ≤ dp.size) × ((off ≡ dp.size) ⊎ (number_at dp d off ≡ 0))

module _ (devsw : ℕ → Devsw) (sb : Superblock) (dp : Inode) (d : Disk) (f : IsFile sb dp d)
    (regular : dp.type ≢ t_dev) where
  module _ (rounds off : ℕ) (de de' : ℕ → ℕ) (h : off < dp.size)
      (e : read_entry devsw sb off dp d de ≡ some (dp, d, de')) where
    round_empty :
        entry_inum de' ≡ 0 → empty_loop devsw sb (suc rounds) off dp d de ≡ some (off, dp, d, de')
    unfolding empty_loop
    round_empty z =
        (let t : ltb off dp.size ≡ true = ground arith in
          let u : (entry_inum de' == 0) ≡ true = ground arith in rw (empty_loop, t, e, u) refl)

    round_full :
        entry_inum de' ≢ 0
        → empty_loop devsw sb (suc rounds) off dp d de
          ≡ empty_loop devsw sb rounds (off + entry_size) dp d de'
    unfolding empty_loop
    round_full z =
        (let t : ltb off dp.size ≡ true = ground arith in
          let u : (entry_inum de' == 0) ≡ false = ground arith in rw (empty_loop, t, e, u) refl)

  pub empty_loop_lem :
      (rounds off : ℕ) (de : ℕ → ℕ)
      → off % 16 ≡ 0
      → dp.size % 16 ≡ 0
      → off ≤ dp.size
      → dp.size ≤ off + rounds
      → (o : ℕ) × (de' : ℕ → ℕ) × (empty_loop devsw sb rounds off dp d de ≡ some (o, dp, d, de'))
        × IsPlace dp d o
  unfolding empty_loop
  empty_loop_lem zero off de p q l h = (off, de, refl, (p, l, inl (omega arith)))
  empty_loop_lem (suc rounds) off de p q l h = elim (dec_lt off dp.size) [
    | no k ↦ (
      off,
      de,
      (let t : ltb off dp.size ≡ false = ground arith in rw (empty_loop, t) refl),
      (p, l, inl (omega arith)),
    )
    | yes k ↦
        (let (de', e, w) = read_entry_lem devsw sb dp d f regular off de (omega arith) in
          let s : entry_inum de' ≡ number_at dp d off =
            ap₂ (λ x y. x + y * 256) (w 0 (omega arith) ∙ ap (byte_at dp d) (omega arith))
              (w 1 (omega arith)) in
          elim (ℕ_discrete (entry_inum de') 0) [
            | yes z ↦ (off, de', round_empty rounds off de de' k e z, (p, l, inr (sym s ∙ z)))
            | no z ↦
                (let (o, b, r, g) =
                    empty_loop_lem rounds (off + entry_size) de' (omega (arith, p)) q
                      (omega (arith, p, q)) (omega arith) in
                  (o, b, round_full rounds off de de' k e z ∙ r, g))
          ])
  ]

-- The bytes of the new entry.
padded_at : (i t : ℕ) (m : Memory) → ((j : ℕ) → j < i → m (t + j) ≢ 0) → padded m t i ≡ m (t + i)
padded_at zero t m h = ap m (omega arith)
padded_at (suc i) t m h =
    (let e : t + 1 + i ≡ t + suc i = omega arith in
      let z : m t ≢ 0 = λ x. h 0 (omega arith) (ap m (omega arith) ∙ x) in
      let u : (m t == 0) ≡ false = ground arith in
      rw u (
        padded_at i (t + 1) m (λ j l x. h (suc j) (omega arith) (ap m (omega arith) ∙ x)) ∙ ap m e))

padded_small : (i t : ℕ) (m : Memory) → ((a : ℕ) → t ≤ a → m a < 256) → padded m t i < 256
padded_small zero t m h = h t (omega arith)
padded_small (suc i) t m h = ground (arith, padded_small i (t + 1) m (λ a l. h a (omega arith)))

module _ (name : ℕ → ℕ) (small : (i : ℕ) → name i < 256) (inum : ℕ) (de : ℕ → ℕ) where
  behind : (a : ℕ) → 16 ≤ a → beside de name a ≡ name (a - 16)
  behind a h = ground arith

  new_name : (i : ℕ) → i < dirsiz → new_entry name inum de (2 + i) ≡ padded (beside de name) 16 i
  new_name i h =
      (let t : (2 + i == 0) ≡ false = ground arith in
        let u : (2 + i == 1) ≡ false = ground arith in
        rw (t, u) ((strncpy_lem dirsiz 2 16 (beside de name) (inl (omega arith))).0 i h))

  pub new_entry-SameName : SameName name (λ i. new_entry name inum de (2 + i))
  new_entry-SameName i h k = sym (
      new_name i h
      ∙ padded_at i 16 (beside de name)
          (λ j l z. k j l (ap name (omega arith) ∙ sym (behind (16 + j) (omega arith)) ∙ z))
      ∙ behind (16 + i) (omega arith)
      ∙ ap name (omega arith))

  pub new_entry_inum : inum < 65536 → entry_inum (new_entry name inum de) ≡ inum
  new_entry_inum h = omega arith

  pub new_entry_small : (i : ℕ) → new_entry name inum de i < 256
  new_entry_small i = elim (dec_lt i 2) [
    | yes l ↦ ground arith
    | no l ↦ elim (dec_lt i 16) [
      | yes g ↦
          (let e : 2 + (i - 2) ≡ i = omega arith in
            subst (λ x. x < 256)
              (sym (new_name (i - 2) (omega arith)) ∙ ap (new_entry name inum de) e)
              (padded_small (i - 2) 16 (beside de name)
                (λ a k. subst (λ x. x < 256) (sym (behind a k)) (small (a - 16)))))
      | no g ↦
          (let t : (i == 0) ≡ false = ground arith in
            let u : (i == 1) ≡ false = ground arith in
            rw (t, u)
              (subst (λ x. x < 256)
                (sym (
                  (strncpy_lem dirsiz 2 16 (beside de name) (inl (omega arith))).1 i
                    (inr (omega arith))
                  ∙ behind i (omega arith)))
                (small (i - 16))))
    ]
  ]

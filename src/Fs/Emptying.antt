-- ===== src/Fs/Emptying.antt =====
-- The loops of `itrunc`, over the blocks of a sound file.
use operating_systems_work.Base.{
  ℕ, zero, suc, ◌+◌, ◌-◌, ◌<◌, ◌≤◌, ◌≡◌, ◌≢◌, refl, sym, ap, subst, ◌∙◌, Bool, true, false, some,
  inl, inr, ◌==◌, ltb, if◌then◌else◌, arith, ℕ_discrete, dec_lt, Bool-cases,
}
use operating_systems_work.Fs.Disk.{Disk, Superblock}
use operating_systems_work.Fs.Alloc.{bfree}
use operating_systems_work.Fs.Inode.{Inode, max_file, get_uint}
use operating_systems_work.Fs.Layout.{IsOwned}
use operating_systems_work.Fs.Extend.{addr_of}
use operating_systems_work.Fs.Whole.{IsFile}
use operating_systems_work.Fs.Dinode.{
  iupdate, free_addr, free_direct, free_entry, free_entries, free_indirect, itrunc,
}
use operating_systems_work.Fs.Clear.{
  cleared, emptied, cleared_zero, cleared_set, cleared_skip, free_addr_none, free_addr_freed,
  free_direct_next, free_entry_none, free_entry_freed, free_entries_next, free_indirect_none,
  free_indirect_freed, itrunc_steps,
}
use operating_systems_work.Fs.Release.{Freed, Freed-zero, Freed-skip, Freed-next}

-- The blocks of the file in the order in which `itrunc` frees them.
abbrev pub block_seq : Inode → Disk → ℕ → ℕ
block_seq ip d n = if ltb n max_file then addr_of ip d n else ip.addrs 12

module _ (sb : Superblock) (ip : Inode) (d : Disk) (f : IsFile sb ip d) where
  abbrev seq : ℕ → ℕ
  seq = block_seq ip d

  pub owned : (k : ℕ) → k < 141 → seq k ≢ 0 → IsOwned sb d (seq k)
  owned k h = elim (Bool-cases (ltb k max_file)) [
    | inl e ↦ rw e (λ c. f.layout.owned k (ground arith) c)
    | inr e ↦ rw e (λ c. f.layout.owned_ind c)
  ]

  pub apart : (n m : ℕ) → n < 141 → m < 141 → seq n ≢ 0 → seq n ≡ seq m → n ≡ m
  apart n m h g = elim (Bool-cases (ltb n max_file)) [
    | inl e ↦ elim (Bool-cases (ltb m max_file)) [
      | inl t ↦ rw (e, t) (λ c q. f.layout.apart n m (ground arith) (ground arith) c q)
      | inr t ↦ rw (e, t) (λ c q. absurd (f.layout.apart_ind n (ground arith) c q))
    ]
    | inr e ↦ elim (Bool-cases (ltb m max_file)) [
      | inl t ↦
          rw (e, t) (λ c q. absurd (f.layout.apart_ind m (ground arith) (λ z. c (q ∙ z)) (sym q)))
      | inr t ↦ (λ c q. ground arith)
    ]
  ]

  free_addr_lem :
      (i n : ℕ) (d' : Disk)
      → n < 141
      → seq n ≡ ip.addrs i
      → Freed sb seq n d d'
      → (e : Disk) × (free_addr sb i (cleared i ip) d' ≡ some (cleared (i + 1) ip, e))
        × Freed sb seq (n + 1) d e
  free_addr_lem i n d' h q p = elim (ℕ_discrete (seq n) 0) [
    | yes z ↦ (
      d',
      free_addr_none sb i (cleared i ip) d' (same i ∙ sym q ∙ z)
          ∙ ap (λ x. some (x, d')) (cleared_skip i ip (sym q ∙ z)),
      Freed-skip sb seq d f.disk 141 owned apart n d' z p,
    )
    | no z ↦
        let (e, r, s) = Freed-next sb seq d f.disk 141 owned apart n d' h z p in
        (
          e,
          free_addr_freed sb i (cleared i ip) d' e (λ c. z (q ∙ sym (same i) ∙ c))
                (ap (λ x. bfree sb x d') (same i ∙ sym q) ∙ r)
              ∙ ap (λ x. some (x, e)) (cleared_set i ip),
          s,
        )
  ]
    where
      same : (i : ℕ) → (if ltb i i then 0 else ip.addrs i) ≡ ip.addrs i
      same i = ground arith

  free_direct_lem :
      (n i : ℕ) (d' : Disk)
      → i + n ≡ 12
      → Freed sb seq i d d'
      → (e : Disk) × (free_direct sb n i (cleared i ip) d' ≡ some (cleared 12 ip, e))
        × Freed sb seq 12 d e
  unfolding free_direct
  free_direct_lem zero i d' q p =
      let r : i ≡ 12 = omega arith in
      (d', ap (λ x. some (cleared x ip, d')) r, subst (λ x. Freed sb seq x d d') r p)
  free_direct_lem (suc n) i d' q p =
      let (e, r, s) = free_addr_lem i i d' (omega arith) (ground arith) p in
      let (e', r', s') = free_direct_lem n (i + 1) e (omega arith) s in
      (e', free_direct_next sb i (cleared i ip) d' n (cleared (i + 1) ip) e r ∙ r', s')

  module _ (there : ip.addrs 12 ≢ 0) where
    entry :
        (j : ℕ) (d' : Disk)
        → j < 128
        → Freed sb seq (12 + j) d d'
        → get_uint (d' (ip.addrs 12)) j ≡ seq (12 + j)
    entry j d' h p =
        (let e : ltb (12 + j) max_file ≡ true = ground arith in
          let t : ltb (12 + j) 12 ≡ false = ground arith in
          let s : 12 + j - 12 ≡ j = omega arith in
          let z : (ip.addrs 12 == 0) ≡ false = ground arith in
          rw (e, t, s, z)
            (ap (λ x. get_uint x j) (p.others (ip.addrs 12) (f.layout.owned_ind there).plain)))

    free_entries_lem :
        (n j : ℕ) (d' : Disk)
        → j + n ≡ 128
        → Freed sb seq (12 + j) d d'
        → (e : Disk) × (free_entries sb n (ip.addrs 12) j d' ≡ some e) × Freed sb seq 140 d e
    unfolding free_entries
    free_entries_lem zero j d' q p =
        let r : 12 + j ≡ 140 = omega arith in (d', refl, subst (λ x. Freed sb seq x d d') r p)
    free_entries_lem (suc n) j d' q p =
        let (e, r, s) = one in
        let (e', r', s') =
          free_entries_lem n (j + 1) e (omega arith)
            (subst (λ x. Freed sb seq x d e) (omega arith) s) in
        (e', free_entries_next sb (ip.addrs 12) j d' n e r ∙ r', s')
      where
        one :
            (e : Disk) × (free_entry sb (ip.addrs 12) j d' ≡ some e) × Freed sb seq (12 + j + 1) d e
        one = elim (ℕ_discrete (seq (12 + j)) 0) [
          | yes z ↦ (
            d',
            free_entry_none sb (ip.addrs 12) j d' (entry j d' (omega arith) p ∙ z),
            Freed-skip sb seq d f.disk 141 owned apart (12 + j) d' z p,
          )
          | no z ↦
              (let (e, r, s) =
                  Freed-next sb seq d f.disk 141 owned apart (12 + j) d' (omega arith) z p in
                (
                  e,
                  free_entry_freed sb (ip.addrs 12) j d'
                        (λ c. z (sym (entry j d' (omega arith) p) ∙ c))
                      ∙ ap (λ x. bfree sb x d') (entry j d' (omega arith) p)
                      ∙ r,
                  s,
                ))
        ]

  -- Without an indirect block, the file has no block after the direct ones.
  no_more : (d' : Disk) → ip.addrs 12 ≡ 0 → Freed sb seq 12 d d' → Freed sb seq 141 d d'
  no_more d' z p = record {
    freed = λ k h c. elim (dec_lt k 12) [
      | yes l ↦ p.freed k l c
      | no l ↦ absurd (c (zero_at k (omega arith)))
    ];
    kept = λ c h. p.kept c (λ k l. h k (omega arith));
    others = p.others;
    bytes = p.bytes;
  }
    where
      zero_at : (k : ℕ) → 12 ≤ k → seq k ≡ 0
      zero_at k h = (let t : ltb k 12 ≡ false = ground arith in rw (t, z) (same (ltb k max_file)))
        where
          same : (t : Bool) → ◌≡◌ {A = ℕ} (if t then 0 else 0) 0
          same t = ground arith

  free_indirect_lem :
      (d' : Disk)
      → Freed sb seq 12 d d'
      → (e : Disk) × (free_indirect sb (cleared 12 ip) d' ≡ some (cleared 13 ip, e))
        × Freed sb seq 141 d e
  free_indirect_lem d' p = elim (ℕ_discrete (ip.addrs 12) 0) [
    | yes z ↦ (
      d',
      free_indirect_none sb (cleared 12 ip) d' z ∙ ap (λ x. some (x, d')) (cleared_skip 12 ip z),
      no_more d' z p,
    )
    | no z ↦
        (let (e, r, s) = free_entries_lem z 128 0 d' refl p in
          let (e', r', s') = free_addr_lem 12 140 e (omega arith) refl s in
          (e', free_indirect_freed sb (cleared 12 ip) d' e z r ∙ r', s'))
  ]

  pub itrunc-Freed :
      (e : Disk) × (itrunc sb ip d ≡ some (emptied ip, iupdate sb (emptied ip) e))
      × Freed sb seq 141 d e
  itrunc-Freed =
      let (e, r, s) = free_direct_lem 12 0 d refl (Freed-zero sb seq d f.disk 141 owned apart) in
      let (e', r', s') = free_indirect_lem e s in
      (
        e',
        itrunc_steps sb ip d (cleared 12 ip) (cleared 13 ip) e e'
            (ap (λ x. free_direct sb 12 0 x d) (sym (cleared_zero ip)) ∙ r) r',
        s',
      )

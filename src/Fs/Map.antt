-- ===== src/Fs/Map.antt =====
-- `bmap` gives the address of a block, and changes no byte of the file.
use operating_systems_work.Base.{
  ℕ, ◌+◌, ◌-◌, ◌/◌, ◌%◌, ◌<◌, ◌≤◌, ◌≡◌, ◌≢◌, refl, sym, ap, subst, ◌∙◌, false, inl, inr, ◌==◌, ltb,
  if◌then◌else◌, arith, Bool-cases, ℕ_discrete,
}
use operating_systems_work.Fs.Disk.{
  Block, Disk, put_block, Superblock, bitmap_block, is_used, bit_of, bits_per_block,
}
use operating_systems_work.Fs.Inode.{Inode, max_file, get_uint, put_uint}
use operating_systems_work.Fs.Free.{IsDisk, Allocated}
use operating_systems_work.Fs.Layout.{
  IsOwned, IsOwned-same, new_nonzero, same_content, Layout-block, Layout-same, fresh, still-IsOwned,
}
use operating_systems_work.Fs.Extend.{get_uint-put_uint, addr_of, IsMapped, bytes_extend, Mapped}

-- A change of a block in use that is not of the bitmap, to other bytes.
module _ (sb : Superblock) (d : Disk) (v : IsDisk sb d) (c : ℕ) (o : IsOwned sb d c) (x : Block)
    (small : (i : ℕ) → x i < 256) where
  pub put_other : (b : ℕ) → b ≢ c → put_block d c x b ≡ d b
  put_other b n = ground arith

  pub put_self : put_block d c x c ≡ x
  put_self = ground arith

  pub put_used : (b : ℕ) → b < sb.size → is_used sb (put_block d c x) b ≡ is_used sb d b
  put_used b h =
      ap (λ y. bit_of (y (b % bits_per_block / 8)) (b % bits_per_block % 8))
        (put_other (bitmap_block sb b) (o.plain b h))

  pub IsDisk-put : IsDisk sb (put_block d c x)
  IsDisk-put = record {
    small = v.small;
    bytes = λ b i. ground (arith, v.bytes b i, small i);
    boot = (v.boot.0, put_used 0 v.boot.0 ∙ v.boot.1);
    reserved = λ b h.
        ((v.reserved b h).0, put_used (bitmap_block sb b) (v.reserved b h).0 ∙ (v.reserved b h).1);
  }

pub put_uint_small :
    (x : Block) (j v : ℕ) → ((i : ℕ) → x i < 256) → (i : ℕ) → put_uint x j v i < 256
unfolding put_uint
put_uint_small x j v h i = ground (arith, h i)

-- A new entry of the indirect block.
module _ (sb : Superblock) (ip : Inode) (d : Disk) (v : IsDisk sb d) (l : IsMapped sb ip d)
    (there : ip.addrs 12 ≢ 0) (j : ℕ) (small : j < 128) (z : get_uint (d (ip.addrs 12)) j ≡ 0)
    (b : ℕ) (d' : Disk) (a : Allocated sb d b d') where
  owner : IsOwned sb d' (ip.addrs 12)
  owner = still-IsOwned sb d d' b v a (ip.addrs 12) (l.owned_ind there)

  table_small : (i : ℕ) → put_uint (d (ip.addrs 12)) j b i < 256
  table_small = put_uint_small (d (ip.addrs 12)) j b (v.bytes (ip.addrs 12))

  abbrev after : Disk
  after = put_block d' (ip.addrs 12) (put_uint (d (ip.addrs 12)) j b)

  entries :
      (n : ℕ)
      → get_uint (after (ip.addrs 12)) n ≡ (if n == j then b else get_uint (d (ip.addrs 12)) n)
  entries n =
      ap (λ x. get_uint x n)
        (put_self sb d' a.sound (ip.addrs 12) owner (put_uint (d (ip.addrs 12)) j b) table_small)
      ∙ get_uint-put_uint (d (ip.addrs 12)) j b n (omega (arith, a.on_disk, v.small))

  absent : addr_of ip d (j + 12) ≡ 0
  absent =
      (let e : ltb (j + 12) 12 ≡ false = ground arith in
        let s : j + 12 - 12 ≡ j = omega arith in
        let n : (ip.addrs 12 == 0) ≡ false = ground arith in rw (e, n, s) z)

  at_entry :
      (n : ℕ) → addr_of ip after (n + 12) ≡ (if n == j then b else get_uint (d (ip.addrs 12)) n)
  at_entry n =
      (let e : ltb (n + 12) 12 ≡ false = ground arith in
        let s : n + 12 - 12 ≡ n = omega arith in
        let t : (ip.addrs 12 == 0) ≡ false = ground arith in rw (e, t, s) (entries n))

  hit : addr_of ip after (j + 12) ≡ b
  hit = at_entry j ∙ self j
    where
      self : (x : ℕ) → (if x == x then b else get_uint (d (ip.addrs 12)) j) ≡ b
      self x = ground arith

  miss_entry : (n : ℕ) → n ≢ j → addr_of ip after (n + 12) ≡ addr_of ip d (n + 12)
  miss_entry n q =
      at_entry n
      ∙ (let e : ltb (n + 12) 12 ≡ false = ground arith in
          let s : n + 12 - 12 ≡ n = omega arith in
          let t : (ip.addrs 12 == 0) ≡ false = ground arith in
          let r : (n == j) ≡ false = ground arith in rw (e, t, s, r) refl)

  miss : (n : ℕ) → n ≢ j + 12 → addr_of ip after n ≡ addr_of ip d n
  miss n q = elim (Bool-cases (ltb n 12)) [
    | inl t ↦ rw t refl
    | inr t ↦
        (let g : 12 ≤ n = ground arith in
          let s : n - 12 + 12 ≡ n = omega arith in
          let c : n - 12 ≢ j = λ e. q (omega arith) in
          subst (λ x. addr_of ip after x ≡ addr_of ip d x) s (miss_entry (n - 12) c))
  ]

  -- The blocks of the file other than the new one are not the indirect block.
  same_data :
      (n : ℕ) → n < max_file → addr_of ip d n ≢ 0 → after (addr_of ip d n) ≡ d (addr_of ip d n)
  same_data n h c =
      put_other sb d' a.sound (ip.addrs 12) owner (put_uint (d (ip.addrs 12)) j b) table_small
        (addr_of ip d n) (l.apart_ind n h c)
      ∙ same_content sb d d' b v a (addr_of ip d n) (l.owned n h c)

  same_new : after b ≡ d' b
  same_new =
      put_other sb d' a.sound (ip.addrs 12) owner (put_uint (d (ip.addrs 12)) j b) table_small b
        (λ e. fresh sb d d' b v a (ip.addrs 12) (l.owned_ind there) (sym e))

  pub new_entry : Mapped sb ip d ip after
  new_entry = record {
    disk =
        IsDisk-put sb d' a.sound (ip.addrs 12) owner (put_uint (d (ip.addrs 12)) j b) table_small;
    layout =
        Layout-same sb d' after
          (put_used sb d' a.sound (ip.addrs 12) owner (put_uint (d (ip.addrs 12)) j b) table_small)
          (addr_of ip after) (addr_of ip after) (ip.addrs 12)
          (Layout-block sb d d' b v a (addr_of ip d) (ip.addrs 12) l (addr_of ip after) (j + 12) hit
            miss)
          (λ n h. refl);
    same_size = refl;
    fields = refl;
    spared = λ x p. (
      record {
        owned =
            IsOwned-same sb d' after
              (put_used sb d' a.sound (ip.addrs 12) owner (put_uint (d (ip.addrs 12)) j b)
                table_small)
              x (still-IsOwned sb d d' b v a x p.owned);
        content = λ n h c. elim (ℕ_discrete n (j + 12)) [
          | yes q ↦ (λ e. fresh sb d d' b v a x p.owned (sym e ∙ ap (addr_of ip after) q ∙ hit))
          | no q ↦ (λ e. p.content n h (λ z. c (miss n q ∙ z)) (sym (miss n q) ∙ e))
        ];
        index = p.index;
      },
      put_other sb d' a.sound (ip.addrs 12) owner (put_uint (d (ip.addrs 12)) j b) table_small x
            (λ e. p.index (sym e))
          ∙ same_content sb d d' b v a x p.owned,
    );
    bytes =
        bytes_extend d after (addr_of ip d) (addr_of ip after) same_data b (j + 12) absent hit
          (new_nonzero sb d d' b v a) (λ i. ap (λ x. x i) same_new ∙ a.zeroed i) miss;
    kept = λ n h c. miss n (λ q. c (ap (addr_of ip d) q ∙ absent));
  }

  pub new_entry_hit : addr_of ip after (j + 12) ≡ b
  new_entry_hit = hit

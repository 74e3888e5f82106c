-- ===== src/Fs/Write.antt =====
-- A write into blocks of a file, as the loop of `writei` does it.
use operating_systems_work.Base.{
  ℕ, ◌+◌, ◌-◌, ◌*◌, ◌/◌, ◌%◌, ◌<◌, ◌≤◌, ◌≡◌, ◌≢◌, refl, sym, ap, ◌∙◌, ◌==◌, ltb, leb, if◌then◌else◌,
  arith, ℕ_discrete, dec_lt,
}
use operating_systems_work.Fs.Disk.{Block, Disk, put_block, Superblock, block_size}
use operating_systems_work.Fs.Inode.{Inode, max_file, get_uint}
use operating_systems_work.Fs.Free.{IsDisk}
use operating_systems_work.Fs.Layout.{IsOwned-same, Layout-same}
use operating_systems_work.Fs.Extend.{Apart, addr_of, IsMapped, byte_at, Mapped}
use operating_systems_work.Fs.Map.{IsDisk-put, put_other, put_used}

-- What a write of the bytes that `new` gives for the places from `off` on, `n` of them, has done.
pub record Written (sb : Superblock) (off n : ℕ) (new : ℕ → ℕ) (ip : Inode) (d : Disk) (ip' : Inode)
    (d' : Disk) : Type 0 where
  pub disk : IsDisk sb d'
  pub layout : IsMapped sb ip' d'
  pub same_size : ip'.size ≡ ip.size
  pub fields : ip' ≡ record ip { addrs = ip'.addrs }
  pub spared : (x : ℕ) → Apart sb ip d x → Apart sb ip' d' x × (d' x ≡ d x)
  pub bytes :
      (i : ℕ)
      → i / block_size < max_file
      → byte_at ip' d' i
        ≡ (if leb off i then if ltb i (off + n) then new i else byte_at ip d i else byte_at ip d i)
  pub kept : (k : ℕ) → k < max_file → addr_of ip d k ≢ 0 → addr_of ip' d' k ≡ addr_of ip d k
  pub there : (i : ℕ) → off ≤ i → i < off + n → addr_of ip' d' (i / block_size) ≢ 0

-- Other bytes in a block of the file.
module _ (sb : Superblock) (ip : Inode) (d : Disk) (v : IsDisk sb d) (l : IsMapped sb ip d) (bn : ℕ)
    (h : bn < max_file) (c : addr_of ip d bn ≢ 0) (x : Block) (small : (i : ℕ) → x i < 256) where
  same_addr : (n : ℕ) → addr_of ip (put_block d (addr_of ip d bn) x) n ≡ addr_of ip d n
  same_addr n =
      ap (λ y. if ltb n 12 then ip.addrs n else if ip.addrs 12 == 0 then 0 else get_uint y (n - 12))
        (put_other sb d v (addr_of ip d bn) (l.owned bn h c) x small (ip.addrs 12)
          (λ e. l.apart_ind bn h c (sym e)))

  same_place : (a : ℕ) → a ≢ 0 → (i : ℕ) → (if a == 0 then 0 else put_block d a x a i) ≡ x i
  same_place a n i = ground arith

  other_place :
      (a b : ℕ)
      → (b ≢ 0 → a ≢ b)
      → (i : ℕ) → (if b == 0 then 0 else put_block d a x b i) ≡ (if b == 0 then 0 else d b i)
  other_place a b n i = ground arith

  at_same :
      (i : ℕ)
      → i / block_size ≡ bn
      → byte_at ip (put_block d (addr_of ip d bn) x) i ≡ x (i % block_size)
  at_same i q =
      ap (λ a. if a == 0 then 0 else put_block d (addr_of ip d bn) x a (i % block_size))
        (ap (addr_of ip (put_block d (addr_of ip d bn) x)) q ∙ same_addr bn)
      ∙ same_place (addr_of ip d bn) c (i % block_size)

  at_other :
      (i : ℕ)
      → i / block_size < max_file
      → i / block_size ≢ bn
      → byte_at ip (put_block d (addr_of ip d bn) x) i ≡ byte_at ip d i
  at_other i g q =
      ap (λ a. if a == 0 then 0 else put_block d (addr_of ip d bn) x a (i % block_size))
        (same_addr (i / block_size))
      ∙ other_place (addr_of ip d bn) (addr_of ip d (i / block_size))
          (λ n e. q (sym (l.apart bn (i / block_size) h g c e))) (i % block_size)

  put_layout : IsMapped sb ip (put_block d (addr_of ip d bn) x)
  put_layout =
      Layout-same sb d (put_block d (addr_of ip d bn) x)
        (put_used sb d v (addr_of ip d bn) (l.owned bn h c) x small) (addr_of ip d)
        (addr_of ip (put_block d (addr_of ip d bn) x)) (ip.addrs 12) l (λ n g. same_addr n)

  put_spared :
      (y : ℕ)
      → Apart sb ip d y
      → Apart sb ip (put_block d (addr_of ip d bn) x) y × (put_block d (addr_of ip d bn) x y ≡ d y)
  put_spared y p = (
    record {
      owned =
          IsOwned-same sb d (put_block d (addr_of ip d bn) x)
            (put_used sb d v (addr_of ip d bn) (l.owned bn h c) x small) y p.owned;
      content = λ n g q e. p.content n g (λ z. q (same_addr n ∙ z)) (sym (same_addr n) ∙ e);
      index = p.index;
    },
    put_other sb d v (addr_of ip d bn) (l.owned bn h c) x small y (λ e. p.content bn h c (sym e)),
  )

-- What one round puts into its block.
abbrev pub chunk : ℕ → ℕ → (ℕ → ℕ) → ℕ → Block → Block
chunk off m buf src x j =
    if leb (off % block_size) j
    then if ltb j (off % block_size + m) then buf (j - off % block_size + src) else x j
    else x j

chunk_small :
    (off m : ℕ) (buf : ℕ → ℕ) (src : ℕ) (x : Block)
    → ((i : ℕ) → buf i < 256)
    → ((i : ℕ) → x i < 256)
    → (j : ℕ) → chunk off m buf src x j < 256
chunk_small off m buf src x b s j = ground (arith, b (j - off % block_size + src), s j)

-- The places of the file that a round writes.
chunk_place :
    (off m : ℕ) (buf : ℕ → ℕ) (src : ℕ) (x : Block) (i old : ℕ)
    → i / block_size ≡ off / block_size
    → off % block_size + m ≤ block_size
    → x (i % block_size) ≡ old
    → chunk off m buf src x (i % block_size)
      ≡ (if leb off i then if ltb i (off + m) then buf (i - off + src) else old else old)
chunk_place off m buf src x i old q r e = elim (dec_lt i off) [
  | yes k ↦ (let s : i % block_size < off % block_size = omega arith in ground arith)
  | no k ↦ elim (dec_lt i (off + m)) [
    | yes g ↦
        (let s : i % block_size - off % block_size ≡ i - off = omega arith in
          let t : off % block_size ≤ i % block_size = omega arith in
          let u : i % block_size < off % block_size + m = omega arith in ground arith)
    | no g ↦ (let s : off % block_size + m ≤ i % block_size = omega arith in ground arith)
  ]
]

module _ (sb : Superblock) (ip : Inode) (d : Disk) (v : IsDisk sb d) (l : IsMapped sb ip d) where
  pub nothing-Written : (off n : ℕ) (new : ℕ → ℕ) → n ≡ 0 → Written sb off n new ip d ip d
  nothing-Written off n new z = record {
    disk = v;
    layout = l;
    same_size = refl;
    fields = refl;
    spared = λ x p. (p, refl);
    bytes = λ i h. ground arith;
    kept = λ k h c. refl;
    there = λ i h k. absurd (omega arith);
  }

  module _ (off m : ℕ) (buf : ℕ → ℕ) (src : ℕ) (b : (i : ℕ) → buf i < 256)
      (h : off / block_size < max_file) (c : addr_of ip d (off / block_size) ≢ 0)
      (r : off % block_size + m ≤ block_size) where
    abbrev content : Block
    content = chunk off m buf src (d (addr_of ip d (off / block_size)))

    content_small : (j : ℕ) → content j < 256
    content_small =
        chunk_small off m buf src (d (addr_of ip d (off / block_size))) b
          (v.bytes (addr_of ip d (off / block_size)))

    old_byte :
        (i : ℕ)
        → i / block_size ≡ off / block_size
        → d (addr_of ip d (off / block_size)) (i % block_size) ≡ byte_at ip d i
    old_byte i q = sym (
        ap (λ a. if a == 0 then 0 else d a (i % block_size)) (ap (addr_of ip d) q)
        ∙ present (addr_of ip d (off / block_size)) c)
      where
        present :
            (a : ℕ) → a ≢ 0 → (if a == 0 then 0 else d a (i % block_size)) ≡ d a (i % block_size)
        present a n = ground arith

    outside :
        (i y z : ℕ)
        → i / block_size ≢ off / block_size
        → y ≡ (if leb off i then if ltb i (off + m) then z else y else y)
    outside i y z q = elim (dec_lt i off) [
      | yes k ↦ ground arith
      | no k ↦ (let s : off + m ≤ i = omega arith in ground arith)
    ]

    pub chunk-Written :
        Written sb off m
          (λ i. buf (i - off + src))
          ip
          d
          ip
          (put_block d (addr_of ip d (off / block_size)) content)
    chunk-Written = record {
      disk =
          IsDisk-put sb d v (addr_of ip d (off / block_size)) (l.owned (off / block_size) h c)
            content content_small;
      layout = put_layout sb ip d v l (off / block_size) h c content content_small;
      same_size = refl;
      fields = refl;
      spared = λ x p. put_spared sb ip d v l (off / block_size) h c content content_small x p;
      bytes = λ i g. elim (ℕ_discrete (i / block_size) (off / block_size)) [
        | yes q ↦
            at_same sb ip d v l (off / block_size) h c content content_small i q
            ∙ chunk_place off m buf src (d (addr_of ip d (off / block_size))) i (byte_at ip d i) q r
                (old_byte i q)
        | no q ↦
            at_other sb ip d v l (off / block_size) h c content content_small i g q
            ∙ outside i (byte_at ip d i) (buf (i - off + src)) q
      ];
      kept = λ k g n. same_addr sb ip d v l (off / block_size) h c content content_small k;
      there = λ i g k z. c (
          ap (addr_of ip d) (same_number i g k)
          ∙ sym
              (same_addr sb ip d v l (off / block_size) h c content content_small (i / block_size))
          ∙ z);
    }
      where
        same_number : (i : ℕ) → off ≤ i → i < off + m → off / block_size ≡ i / block_size
        same_number i g k = omega (arith, g, k, r)

-- The steps of a round, and a round after another.
module _ (sb : Superblock) (off n m : ℕ) (buf : ℕ → ℕ) (src : ℕ) (ip ip₁ ip₂ : Inode)
    (d d₁ d₂ : Disk) where
  pub after-Mapped :
      Mapped sb ip d ip₁ d₁
      → Written sb off m (λ i. buf (i - off + src)) ip₁ d₁ ip₂ d₂
      → Written sb off m (λ i. buf (i - off + src)) ip d ip₂ d₂
  after-Mapped p w = record {
    disk = w.disk;
    layout = w.layout;
    same_size = w.same_size ∙ p.same_size;
    fields = w.fields ∙ ap {A = Inode} {B = Inode} (λ y. record y { addrs = ip₂.addrs }) p.fields;
    spared = λ x q. (let (r, e) = p.spared x q in let (s, g) = w.spared x r in (s, g ∙ e));
    bytes = λ i h.
        w.bytes i h
        ∙ ap (λ y. if leb off i then if ltb i (off + m) then buf (i - off + src) else y else y)
            (p.bytes i h);
    kept = λ k h c. w.kept k h (λ z. c (sym (p.kept k h c) ∙ z)) ∙ p.kept k h c;
    there = w.there;
  }

  pub after-Written :
      m ≤ n
      → off + n ≤ max_file * block_size
      → Written sb off m (λ i. buf (i - off + src)) ip d ip₁ d₁
      → Written sb (off + m) (n - m) (λ i. buf (i - (off + m) + (src + m))) ip₁ d₁ ip₂ d₂
      → Written sb off n (λ i. buf (i - off + src)) ip d ip₂ d₂
  after-Written g f p w = record {
    disk = w.disk;
    layout = w.layout;
    same_size = w.same_size ∙ p.same_size;
    fields = w.fields ∙ ap {A = Inode} {B = Inode} (λ y. record y { addrs = ip₂.addrs }) p.fields;
    spared = λ x q. (let (r, e) = p.spared x q in let (s, g) = w.spared x r in (s, g ∙ e));
    bytes = λ i h. joined i _ _ (byte_at ip d i) (w.bytes i h) (p.bytes i h);
    kept = λ k h c. w.kept k h (λ z. c (sym (p.kept k h c) ∙ z)) ∙ p.kept k h c;
    there = λ i h k. elim (dec_lt i (off + m)) [
      | yes s ↦ (λ z.
          p.there i h s (sym (w.kept (i / block_size) (omega (arith, f)) (p.there i h s)) ∙ z))
      | no s ↦ w.there i (omega arith) (omega arith)
    ];
  }
    where
      past :
          (i y z : ℕ)
          → ¬ (i < off + m)
          → y ≡ (if leb off i then if ltb i (off + m) then buf (i - off + src) else z else z)
          → (if leb (off + m) i then if ltb i (off + n) then buf (i - off + src) else y else y)
            ≡ (if leb off i then if ltb i (off + n) then buf (i - off + src) else z else z)
      past i y z k q = ground (arith, g)

      joined :
          (i x y z : ℕ)
          → x ≡ (
              if leb (off + m) i
              then if ltb i (off + m + (n - m)) then buf (i - (off + m) + (src + m)) else y
              else y)
          → y ≡ (if leb off i then if ltb i (off + m) then buf (i - off + src) else z else z)
          → x ≡ (if leb off i then if ltb i (off + n) then buf (i - off + src) else z else z)
      joined i x y z p q = elim (dec_lt i (off + m)) [
        | yes k ↦ ground (arith, g)
        | no k ↦
            (let e : i - (off + m) + (src + m) ≡ i - off + src = omega arith in
              let s : off + m + (n - m) ≡ off + n = omega (arith, g) in
              p ∙ rw (e, s) (past i y z k q))
      ]

-- ===== src/Fs/Extend.antt =====
-- `bmap` one step at a time: the address of a block, and the content of the file.
use operating_systems_work.Base.{
  ℕ, ◌+◌, ◌-◌, ◌*◌, ◌/◌, ◌%◌, ◌^◌, ◌<◌, ◌≡◌, ◌≢◌, refl, sym, ap, subst, ◌∙◌, Bool, true, false,
  Option, none, some, inl, inr, ◌==◌, ltb, if◌then◌else◌, arith, ℕ_discrete, Bool-cases,
  Option-cases,
}
use operating_systems_work.Fs.Disk.{Block, Disk, Superblock, block_size}
use operating_systems_work.Fs.Alloc.{balloc}
use operating_systems_work.Fs.Inode.{Inode, max_file, get_uint, put_uint, set_addr, ensure_addr}
use operating_systems_work.Fs.Free.{IsDisk, Allocated, Found, balloc_lem}
use operating_systems_work.Fs.Layout.{
  IsOwned, Layout, file_byte, fresh, still-IsOwned, new_nonzero, same_content, Layout-block,
  Layout-ind, Layout-same,
}

pub get_uint-put_uint :
    (x : Block) (j v k : ℕ)
    → v < 2 ^ 32
    → get_uint (put_uint x j v) k ≡ (if k == j then v else get_uint x k)
unfolding get_uint put_uint
get_uint-put_uint x j v k h = elim (ℕ_discrete k j) [
  | yes q ↦ rw q (ground arith)
  | no q ↦ ground arith
]

get_uint_zero : (x : Block) (k : ℕ) → ((i : ℕ) → x i ≡ 0) → get_uint x k ≡ 0
unfolding get_uint
get_uint_zero x k h = omega (arith, h (4 * k), h (4 * k + 1), h (4 * k + 2), h (4 * k + 3))

-- The address of block `n` of the file, or 0.
abbrev pub addr_of : Inode → Disk → ℕ → ℕ
addr_of ip d n =
    if ltb n 12
    then ip.addrs n
    else if ip.addrs 12 == 0
    then 0
    else get_uint (d (ip.addrs 12)) (n - 12)

abbrev pub IsMapped : Superblock → Inode → Disk → Type 0
IsMapped sb ip d = Layout sb d (addr_of ip d) (ip.addrs 12)

abbrev pub byte_at : Inode → Disk → ℕ → ℕ
byte_at ip d i = file_byte d (addr_of ip d) i

-- A file keeps its content when a block of zeros takes the place of a block that was not there.
module _ (d d' : Disk) (at at' : ℕ → ℕ)
    (content : (n : ℕ) → n < max_file → at n ≢ 0 → d' (at n) ≡ d (at n)) where
  same_block :
      (n j : ℕ)
      → n < max_file
      → at' n ≡ at n
      → (if at' n == 0 then 0 else d' (at' n) j) ≡ (if at n == 0 then 0 else d (at n) j)
  same_block n j h e = elim (ℕ_discrete (at n) 0) [
    | yes z ↦ rw (e, z) refl
    | no z ↦
        ap (λ x. if x == 0 then 0 else d' x j) e
        ∙ ap (λ x. if at n == 0 then 0 else x j) (content n h z)
  ]

  pub bytes_extend :
      (b k : ℕ)
      → at k ≡ 0
      → at' k ≡ b
      → b ≢ 0
      → ((i : ℕ) → d' b i ≡ 0)
      → ((n : ℕ) → n ≢ k → at' n ≡ at n)
      → (i : ℕ) → i / block_size < max_file
      → file_byte d' at' i ≡ file_byte d at i
  bytes_extend b k z hit ne zeros miss i h = elim (ℕ_discrete (i / block_size) k) [
    | yes q ↦ rw (q, z, hit) (zero_block (i % block_size) (b == 0))
    | no q ↦ same_block (i / block_size) (i % block_size) h (miss (i / block_size) q)
  ]
    where
      zero_block : (j : ℕ) (t : Bool) → (if t then 0 else d' b j) ≡ 0
      zero_block j true = refl
      zero_block j false = zeros j

  pub bytes_same :
      ((n : ℕ) → n < max_file → at' n ≡ at n)
      → (i : ℕ) → i / block_size < max_file
      → file_byte d' at' i ≡ file_byte d at i
  bytes_same e i h = same_block (i / block_size) (i % block_size) h (e (i / block_size) h)

-- A block in use that is none of those of the file.
pub record Apart (sb : Superblock) (ip : Inode) (d : Disk) (x : ℕ) : Type 0 where
  pub owned : IsOwned sb d x
  pub content : (n : ℕ) → n < max_file → addr_of ip d n ≢ 0 → addr_of ip d n ≢ x
  pub index : ip.addrs 12 ≢ x

-- What a step of `bmap` has done: the address `a` is that of block `n`, which is there now, and
-- the content of the file is what it was.
pub record Mapped (sb : Superblock) (ip : Inode) (d : Disk) (ip' : Inode) (d' : Disk) : Type 0 where
  pub disk : IsDisk sb d'
  pub layout : IsMapped sb ip' d'
  pub same_size : ip'.size ≡ ip.size
  pub fields : ip' ≡ record ip { addrs = ip'.addrs }
  pub spared : (x : ℕ) → Apart sb ip d x → Apart sb ip' d' x × (d' x ≡ d x)
  pub bytes : (i : ℕ) → i / block_size < max_file → byte_at ip' d' i ≡ byte_at ip d i
  pub kept : (n : ℕ) → n < max_file → addr_of ip d n ≢ 0 → addr_of ip' d' n ≡ addr_of ip d n

module _ (sb : Superblock) (ip : Inode) (d : Disk) (v : IsDisk sb d) (l : IsMapped sb ip d) where
  pub Mapped-refl : Mapped sb ip d ip d
  Mapped-refl = record {
    disk = v;
    layout = l;
    same_size = refl;
    fields = refl;
    spared = λ x p. (p, refl);
    bytes = λ i h. refl;
    kept = λ n h c. refl;
  }

  module _ (b : ℕ) (d' : Disk) (a : Allocated sb d b d') where
    data_same :
        (n : ℕ) → n < max_file → addr_of ip d n ≢ 0 → d' (addr_of ip d n) ≡ d (addr_of ip d n)
    data_same n h c = same_content sb d d' b v a (addr_of ip d n) (l.owned n h c)

    -- The indirect block has the same entries.
    entry_same :
        (n : ℕ)
        → (if ip.addrs 12 == 0 then 0 else get_uint (d' (ip.addrs 12)) n)
          ≡ (if ip.addrs 12 == 0 then 0 else get_uint (d (ip.addrs 12)) n)
    entry_same n = elim (ℕ_discrete (ip.addrs 12) 0) [
      | yes z ↦ rw z refl
      | no z ↦
          ap (λ x. if ip.addrs 12 == 0 then 0 else get_uint x n)
            (same_content sb d d' b v a (ip.addrs 12) (l.owned_ind z))
    ]

    -- A direct block is new.
    module _ (k : ℕ) (small : k < 12) (z : ip.addrs k ≡ 0) where
      hit_direct : addr_of (set_addr ip k b) d' k ≡ b
      hit_direct = ground arith

      miss_direct : (n : ℕ) → n ≢ k → addr_of (set_addr ip k b) d' n ≡ addr_of ip d n
      miss_direct n q = elim (Bool-cases (ltb n 12)) [
        | inl t ↦ rw t (ground arith)
        | inr t ↦ (let e : (12 == k) ≡ false = ground arith in rw (t, e) (entry_same (n - 12)))
      ]

      same_direct : (set_addr ip k b).addrs 12 ≡ ip.addrs 12
      same_direct = ground arith

      absent : addr_of ip d k ≡ 0
      absent = ground arith

      new_direct : Mapped sb ip d (set_addr ip k b) d'
      new_direct = record {
        disk = a.sound;
        layout = subst (Layout sb d' (addr_of (set_addr ip k b) d')) (sym same_direct) (
            Layout-block sb d d' b v a (addr_of ip d) (ip.addrs 12) l (addr_of (set_addr ip k b) d')
              k hit_direct miss_direct);
        same_size = refl;
        fields = refl;
        spared = λ x p. (
          record {
            owned = still-IsOwned sb d d' b v a x p.owned;
            content = λ n h c. elim (ℕ_discrete n k) [
              | yes q ↦ (λ e.
                  fresh sb d d' b v a x p.owned
                    (sym e ∙ ap (addr_of (set_addr ip k b) d') q ∙ hit_direct))
              | no q ↦
                  (λ e. p.content n h (λ z. c (miss_direct n q ∙ z)) (sym (miss_direct n q) ∙ e))
            ];
            index = λ e. p.index (sym same_direct ∙ e);
          },
          same_content sb d d' b v a x p.owned,
        );
        bytes =
            bytes_extend d d' (addr_of ip d) (addr_of (set_addr ip k b) d') data_same b k absent
              hit_direct (new_nonzero sb d d' b v a) a.zeroed miss_direct;
        kept = λ n h c. miss_direct n (λ q. c (ap (addr_of ip d) q ∙ absent));
      }

    -- The indirect block is new.
    module _ (z : ip.addrs 12 ≡ 0) where
      same_addrs : (n : ℕ) → addr_of (set_addr ip 12 b) d' n ≡ addr_of ip d n
      same_addrs n = elim (Bool-cases (ltb n 12)) [
        | inl t ↦ rw t (ground arith)
        | inr t ↦ rw (t, z) (empty (b == 0))
      ]
        where
          empty : (t : Bool) → (if t then 0 else get_uint (d' b) (n - 12)) ≡ 0
          empty true = refl
          empty false = get_uint_zero (d' b) (n - 12) a.zeroed

      new_indirect : Mapped sb ip d (set_addr ip 12 b) d'
      new_indirect = record {
        disk = a.sound;
        layout =
            Layout-same sb d' d' (λ c h. refl) (addr_of ip d) (addr_of (set_addr ip 12 b) d') b
              (Layout-ind sb d d' b v a (addr_of ip d) (ip.addrs 12) l z) (λ n h. same_addrs n);
        same_size = refl;
        fields = refl;
        spared = λ x p. (
          record {
            owned = still-IsOwned sb d d' b v a x p.owned;
            content = λ n h c e. p.content n h (λ z. c (same_addrs n ∙ z)) (sym (same_addrs n) ∙ e);
            index = λ e. fresh sb d d' b v a x p.owned (sym e);
          },
          same_content sb d d' b v a x p.owned,
        );
        bytes =
            bytes_same d d' (addr_of ip d) (addr_of (set_addr ip 12 b) d') data_same
              (λ n h. same_addrs n);
        kept = λ n h c. same_addrs n;
      }

-- The outcome of a step that does not panic: the address is not 0, and the property holds.
abbrev pub StepPost :
    Superblock → Inode → Disk → (ℕ → Inode → Disk → Type 0) → Option (ℕ × Inode × Disk) → Type 0
StepPost sb ip d P none = Unit
StepPost sb ip d P (some (x, ip', d')) = Mapped sb ip d ip' d' × (x ≢ 0) × P x ip' d'

module _ (sb : Superblock) (ip : Inode) (d : Disk) (v : IsDisk sb d) (l : IsMapped sb ip d) where
  pub ensure_addr_lem :
      (k : ℕ) → k < 13 → StepPost sb ip d (λ x ip' d'. ip'.addrs k ≡ x) (ensure_addr sb k ip d)
  unfolding ensure_addr
  ensure_addr_lem k h = elim (ℕ_discrete (ip.addrs k) 0) [
    | no n ↦
        (let t : (ip.addrs k == 0) ≡ false = ground arith in
          rw (ensure_addr, t) (Mapped-refl sb ip d v l, n, refl))
    | yes z ↦
        (let t : (ip.addrs k == 0) ≡ true = ground arith in
          rw (ensure_addr, t)
            (elim (Option-cases (balloc sb d)) [
              | inl e ↦ rw e tt
              | inr ((b, d'), e) ↦
                  rw e (allocated b d' (subst (Found sb d v) e (balloc_lem sb d v)) z)
            ]))
  ]
    where
      self : (b : ℕ) → (set_addr ip k b).addrs k ≡ b
      self b = ground arith

      allocated :
          (b : ℕ) (d' : Disk)
          → Allocated sb d b d'
          → ip.addrs k ≡ 0
          → Mapped sb ip d (set_addr ip k b) d' × (b ≢ 0) × ((set_addr ip k b).addrs k ≡ b)
      allocated b d' a z = elim (ℕ_discrete k 12) [
        | yes q ↦ (
          subst (λ y. Mapped sb ip d (set_addr ip y b) d') (sym q)
              (new_indirect sb ip d v l b d' a (sym (ap ip.addrs q) ∙ z)),
          new_nonzero sb d d' b v a,
          self b,
        )
        | no q ↦
            (new_direct sb ip d v l b d' a k (omega arith) z, new_nonzero sb d d' b v a, self b)
      ]

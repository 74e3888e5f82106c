-- ===== src/Fs/Whole.antt =====
-- `writei` as a whole.
use operating_systems_work.Base.{
  ℕ, ◌+◌, ◌-◌, ◌*◌, ◌/◌, ◌%◌, ◌^◌, ◌==◌, Bool, ℕ_discrete, ◌<◌, ◌≤◌, ◌≡◌, ◌≢◌, refl, sym, ap, subst,
  ◌∙◌, true, false, Option, none, some, ◌⊎◌, inl, inr, ltb, leb, ◌&&◌, ◌||◌, if◌then◌else◌, arith,
  Bool-cases, Option-cases, dec_lt,
}
use operating_systems_work.Fs.Disk.{Disk, Superblock, block_size}
use operating_systems_work.Fs.Inode.{Inode, max_file, uint_mod, write_loop}
use operating_systems_work.Fs.Transfer.{Devsw, t_dev, set_size, writei}
use operating_systems_work.Fs.Dinode.{inode_block, iupdate, read_inode}
use operating_systems_work.Fs.Slot.{IsStorable}
use operating_systems_work.Fs.Stored.{SameFields, iupdate-read_inode}
use operating_systems_work.Fs.Free.{IsDisk}
use operating_systems_work.Fs.Extend.{Apart, addr_of, IsMapped, byte_at}
use operating_systems_work.Fs.Update.{Beside, Beside-refl, Apart-size, iupdate-Beside}
use operating_systems_work.Fs.Write.{Written}
use operating_systems_work.Fs.Content.{InRange, WritePost, write_loop_lem}

-- A sound file: its size is not more than MAXFILE blocks, and the blocks below its size are there.
pub record IsFile (sb : Superblock) (ip : Inode) (d : Disk) : Type 0 where
  pub disk : IsDisk sb d
  pub layout : IsMapped sb ip d
  pub fits : ip.size ≤ max_file * block_size
  pub whole : (i : ℕ) → i < ip.size → addr_of ip d (i / block_size) ≢ 0

-- A sound file that `writei` writes to itself, as it is none of a device: its fields fit the disk, and
-- the block of the inode is in use and is none of those of the file or the bitmap.
pub record IsWritable (sb : Superblock) (ip : Inode) (d : Disk) : Type 0 where
  pub file : IsFile sb ip d
  pub regular : ip.type ≢ t_dev
  pub storable : IsStorable ip
  pub home : Apart sb ip d (inode_block sb ip.inum)

-- What a write of the `n` bytes of `buf` to the places from `off` on has done. A file that has grown
-- is on the disk with its new size and addresses.
pub record Wrote (sb : Superblock) (off n : ℕ) (buf : ℕ → ℕ) (ip : Inode) (d : Disk) (ip' : Inode)
    (d' : Disk) : Type 0 where
  pub sound : IsWritable sb ip' d'
  pub fields : ip' ≡ record ip { size = ip'.size; addrs = ip'.addrs }
  pub size : ip'.size ≡ (if ltb ip.size (off + n) then off + n else ip.size)
  pub bytes :
      (i : ℕ)
      → i / block_size < max_file
      → byte_at ip' d' i ≡ (
          if leb off i
          then if ltb i (off + n) then buf (i - off) else byte_at ip d i
          else byte_at ip d i)
  pub stored :
      0 < n
      → ip.size < off + n
      → (jp : Inode) → jp.inum ≡ ip.inum
      → SameFields ip' (read_inode sb jp d')

-- The outcome of `writei`.
abbrev pub WriteiPost :
    Superblock → ℕ → ℕ → (ℕ → ℕ) → Inode → Disk → Option (Option ℕ × Inode × Disk) → Type 0
WriteiPost sb off n buf ip d none = (i : ℕ) × InRange off n i × (addr_of ip d (i / block_size) ≡ 0)
WriteiPost sb off n buf ip d (some (none, ip', d')) =
    (ip' ≡ ip) × (d' ≡ d) × ((ip.size < off) ⊎ (max_file * block_size < off + n))
WriteiPost sb off n buf ip d (some (some k, ip', d')) =
    (k ≡ n) × (off ≤ ip.size) × (off + n ≤ max_file * block_size) × Wrote sb off n buf ip d ip' d'

-- The addresses of a file fit the disk.
addrs_small :
    (sb : Superblock) (ip : Inode) (d : Disk)
    → IsDisk sb d
    → IsMapped sb ip d
    → (k : ℕ) → k < 13
    → ip.addrs k < 2 ^ 32
addrs_small sb ip d v l k h = elim (ℕ_discrete (ip.addrs k) 0) [
  | yes z ↦ omega (arith, z)
  | no z ↦ elim (ℕ_discrete k 12) [
    | yes q ↦
        omega (arith, (l.owned_ind (λ e. z (ap ip.addrs q ∙ e))).on_disk, v.small, ap ip.addrs q)
    | no q ↦
        (let e : addr_of ip d k ≡ ip.addrs k = ground arith in
          omega (arith, e, (l.owned k (omega arith) (λ y. z (sym e ∙ y))).on_disk, v.small))
  ]
]

module _ (devsw : ℕ → Devsw) (sb : Superblock) (off n : ℕ) (small_off : off < uint_mod)
    (small_n : n < uint_mod) (buf : ℕ → ℕ) (small : (i : ℕ) → buf i < 256) (ip : Inode) (d : Disk)
    (r : IsWritable sb ip d) where
  module _ (ip' : Inode) (d' : Disk) (h : off ≤ ip.size) (g : off + n ≤ max_file * block_size)
      (w : Written sb off n (λ i. buf (i - off + 0)) ip d ip' d') where
    same_inum : ip'.inum ≡ ip.inum
    same_inum = ap (λ y. y.inum) w.fields

    same_size : ip'.size ≡ ip.size
    same_size = ap (λ y. y.size) w.fields

    home_after : Apart sb ip' d' (inode_block sb ip'.inum)
    home_after =
        subst (λ y. Apart sb ip' d' (inode_block sb y)) (sym same_inum)
          (w.spared (inode_block sb ip.inum) r.home).0

    module _ (s : ℕ) (e : s ≡ (if ltb ip.size (off + n) then off + n else ip.size)) where
      abbrev resized : Inode
      resized = record ip' { size = s }

      short : s ≤ max_file * block_size
      short = ground (arith, r.file.fits)

      resized-IsStorable : IsStorable resized
      resized-IsStorable = record {
        type = subst (λ y. y < 2 ^ 16) (sym (ap (λ y. y.type) w.fields)) r.storable.type;
        major = subst (λ y. y < 2 ^ 16) (sym (ap (λ y. y.major) w.fields)) r.storable.major;
        minor = subst (λ y. y < 2 ^ 16) (sym (ap (λ y. y.minor) w.fields)) r.storable.minor;
        nlink = subst (λ y. y < 2 ^ 16) (sym (ap (λ y. y.nlink) w.fields)) r.storable.nlink;
        size = omega (arith, short);
        addrs = addrs_small sb ip' d' w.disk w.layout;
      }

      resized-Wrote :
          (d₂ : Disk)
          → Beside sb resized d' d₂
          → (0 < n
              → ip.size < off + n
              → (jp : Inode) → jp.inum ≡ ip.inum
              → SameFields resized (read_inode sb jp d₂))
          → Wrote sb off n buf ip d resized d₂
      resized-Wrote d₂ b st = record {
        sound = record {
          file = record {
            disk = b.disk;
            layout = b.layout;
            fits = short;
            whole = λ i k z. there i k (sym (b.addresses (i / block_size)) ∙ z);
          };
          regular = λ z. r.regular (sym (ap (λ y. y.type) w.fields) ∙ z);
          storable = resized-IsStorable;
          home =
              b.spared (inode_block sb ip'.inum)
                (Apart-size sb ip' d' (inode_block sb ip'.inum) s home_after);
        };
        fields = ap {A = Inode} {B = Inode} (λ y. record y { size = s }) w.fields;
        size = e;
        bytes = λ i k.
            b.bytes i k
            ∙ w.bytes i k
            ∙ ap
                (λ x.
                  if leb off i
                  then if ltb i (off + n) then buf x else byte_at ip d i
                  else byte_at ip d i)
                (omega arith);
        stored = st;
      }
        where
          inside : (i : ℕ) → ¬ (i < ip.size) → i < s → i < off + n
          inside i p k = ground (arith, e)

          there : (i : ℕ) → i < s → addr_of ip' d' (i / block_size) ≢ 0
          there i k = elim (dec_lt i ip.size) [
            | yes p ↦ (λ z. r.file.whole i p (
                sym (w.kept (i / block_size) (omega (arith, p, r.file.fits)) (r.file.whole i p))
                ∙ z))
            | no p ↦ w.there i (omega (arith, p)) (inside i p k)
          ]

    grown-Wrote :
        ip.size < off + n
        → Wrote sb off n buf ip d
            (record ip' { size = off + n })
            (iupdate sb (record ip' { size = off + n }) d')
    grown-Wrote k =
        resized-Wrote (off + n) more (iupdate sb (record ip' { size = off + n }) d')
          (iupdate-Beside sb (record ip' { size = off + n }) d' w.disk w.layout
            (Apart-size sb ip' d' (inode_block sb ip'.inum) (off + n) home_after))
          (λ p q jp e.
            (iupdate-read_inode sb (record ip' { size = off + n }) jp d'
                (resized-IsStorable (off + n) more)).0
              (e ∙ sym same_inum))
      where
        more : off + n ≡ (if ltb ip.size (off + n) then off + n else ip.size)
        more = ground arith

    same-Wrote : ¬ ((0 < n) × (ip.size < off + n)) → Wrote sb off n buf ip d ip' d'
    same-Wrote k =
        resized-Wrote ip'.size same d'
          (Beside-refl sb (record ip' { size = ip'.size }) d' w.disk w.layout)
          (λ p q. absurd (k (p, q)))
      where
        same : ip'.size ≡ (if ltb ip.size (off + n) then off + n else ip.size)
        same = same_size ∙ ground (arith, h)

    set_size-Wrote :
        (x : Inode × Disk) → set_size sb (off + n) n ip' d' ≡ x → Wrote sb off n buf ip d x.0 x.1
    unfolding set_size
    set_size-Wrote x q = elim (Bool-cases (ltb 0 n && ltb ip'.size (off + n))) [
      | inl t ↦
          subst (λ y. Wrote sb off n buf ip d y.0 y.1) (sym (by_test t) ∙ q)
            (grown-Wrote (ground (arith, same_size)))
      | inr t ↦
          subst (λ y. Wrote sb off n buf ip d y.0 y.1) (sym (by_test t) ∙ q)
            (same-Wrote (ground (arith, same_size)))
    ]
      where
        by_test :
            {b : Bool}
            → (ltb 0 n && ltb ip'.size (off + n)) ≡ b
            → set_size sb (off + n) n ip' d' ≡ (
                if b
                then (record ip' { size = off + n }, iupdate sb (record ip' { size = off + n }) d')
                else (ip', d'))
        by_test t =
            ap
              (λ c.
                if c
                then (record ip' { size = off + n }, iupdate sb (record ip' { size = off + n }) d')
                else (ip', d'))
              t

  plain : (ip.type == t_dev) ≡ false
  plain = (let e = r.regular in ground arith)

  refused_first :
      (ltb ip.size off || ltb ((off + n) % uint_mod) off) ≡ true
      → writei devsw sb off n ip d buf ≡ some (none, ip, d)
  unfolding writei
  refused_first t = rw (writei, plain, t) refl

  refused_second :
      (ltb ip.size off || ltb ((off + n) % uint_mod) off) ≡ false
      → ltb (max_file * block_size) ((off + n) % uint_mod) ≡ true
      → writei devsw sb off n ip d buf ≡ some (none, ip, d)
  unfolding writei
  refused_second t u = rw (writei, plain, t, u) refl

  too_long : max_file * block_size < off + n → writei devsw sb off n ip d buf ≡ some (none, ip, d)
  too_long g = elim (Bool-cases (ltb ip.size off || ltb ((off + n) % uint_mod) off)) [
    | inl t ↦ refused_first t
    | inr t ↦ refused_second t (second t)
  ]
    where
      second :
          (ltb ip.size off || ltb ((off + n) % uint_mod) off) ≡ false
          → ltb (max_file * block_size) ((off + n) % uint_mod) ≡ true
      second t = ground (arith, g, small_off, small_n)

  written :
      (ltb ip.size off || ltb ((off + n) % uint_mod) off) ≡ false
      → ltb (max_file * block_size) ((off + n) % uint_mod) ≡ false
      → off ≤ ip.size
      → off + n ≤ max_file * block_size
      → WriteiPost sb off n buf ip d (writei devsw sb off n ip d buf)
  unfolding writei
  written t u h g =
      rw (plain, t, u)
        (elim (Option-cases (write_loop sb n off 0 n ip d buf)) [
          | inl e ↦ rw e (subst (WritePost sb off n 0 buf ip d) e post)
          | inr ((ip', d'), e) ↦ rw e (
            refl,
            h,
            g,
            set_size-Wrote ip' d' h g (subst (WritePost sb off n 0 buf ip d) e post)
                (set_size sb (off + n) n ip' d') refl,
          )
        ])
    where
      post : WritePost sb off n 0 buf ip d (write_loop sb n off 0 n ip d buf)
      post = write_loop_lem sb buf small n off 0 n ip d r.file.disk r.file.layout (omega arith) g

  -- The three ways of `writei` on a sound file that is not of a device, whose fields fit the disk and
  -- whose inode lies in a block in use that is none of those of the file or the bitmap, for numbers that
  -- an unsigned int holds and a buffer of bytes: it refuses a write that starts behind the end of the
  -- file or ends behind the last block that a file can have, and changes nothing; else it writes all
  -- the bytes, grows the file to the end of the write and leaves the other bytes as they were
  -- and the file sound, and an inode that has grown is on the disk, where a read of its number gives its
  -- new size and addresses; it panics only if a block of the range was not there.
  pub writei_lem : WriteiPost sb off n buf ip d (writei devsw sb off n ip d buf)
  writei_lem = elim (dec_lt ip.size off) [
    | yes k ↦
        (let t : (ltb ip.size off || ltb ((off + n) % uint_mod) off) ≡ true = ground arith in
          subst (WriteiPost sb off n buf ip d) (sym (refused_first t)) (refl, refl, inl k))
    | no k ↦ elim (dec_lt (max_file * block_size) (off + n)) [
      | yes g ↦ subst (WriteiPost sb off n buf ip d) (sym (too_long g)) (refl, refl, inr g)
      | no g ↦ written (accepted k g) (short g) (omega arith) (omega arith)
    ]
  ]
    where
      accepted :
          ¬ (ip.size < off)
          → ¬ (max_file * block_size < off + n)
          → (ltb ip.size off || ltb ((off + n) % uint_mod) off) ≡ false
      accepted k g = ground arith

      short :
          ¬ (max_file * block_size < off + n)
          → ltb (max_file * block_size) ((off + n) % uint_mod) ≡ false
      short g = ground arith

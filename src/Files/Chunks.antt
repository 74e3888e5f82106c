-- ===== src/Files/Chunks.antt =====
-- `filewrite` to an inode writes its bytes in chunks.
use operating_systems_work.Base.{
  ℕ, zero, suc, ◌+◌, ◌-◌, ◌*◌, ◌%◌, ◌^◌, ◌<◌, ◌≤◌, ◌≡◌, ◌≢◌, refl, sym, ap, subst, ◌∙◌, Bool, not,
  true, false, Option, none, some, ◌⊎◌, inl, inr, ◌==◌, ltb, leb, min, if◌then◌else◌, arith,
  ℕ_discrete, dec_lt,
}
use operating_systems_work.Pipe.{Pipe}
use operating_systems_work.Fs.Disk.{Disk, Superblock, block_size}
use operating_systems_work.Base.{pos}
use operating_systems_work.Fs.Inode.{Inode, max_file, uint_mod}
use operating_systems_work.Fs.Transfer.{Devsw, writei}
use operating_systems_work.Fs.Extend.{byte_at}
use operating_systems_work.Fs.Whole.{IsWritable, Wrote, WriteiPost, writei_lem}
use operating_systems_work.Files.{File, FileType, fd_none, fd_pipe, fd_inode}
use operating_systems_work.Files.Transfer.{
  max_chunk, WriteReply, wrote, refused, write_chunks, filewrite,
}

module _ (sb : Superblock) (off n : ℕ) (buf : ℕ → ℕ) (ip : Inode) (d : Disk) where
  Wrote-refl : IsWritable sb ip d → off ≤ ip.size → Wrote sb off 0 buf ip d ip d
  Wrote-refl f h = record {
    sound = f;
    fields = refl;
    size = ground arith;
    bytes = λ i k. ground arith;
    stored = λ p. absurd (omega arith);
  }

  Wrote-trans :
      (m : ℕ) (ip₁ ip₂ : Inode) (d₁ d₂ : Disk)
      → 0 < m
      → off ≤ ip.size
      → Wrote sb off n buf ip d ip₁ d₁
      → Wrote sb (off + n) m (λ j. buf (n + j)) ip₁ d₁ ip₂ d₂
      → Wrote sb off (n + m) buf ip d ip₂ d₂
  Wrote-trans m ip₁ ip₂ d₁ d₂ b h v w = record {
    sound = w.sound;
    fields =
        w.fields
        ∙ ap {A = Inode} {B = Inode} (λ y. record y { size = ip₂.size; addrs = ip₂.addrs })
            v.fields;
    size = ground (arith, v.size, w.size);
    stored = λ p l jp e. w.stored b (grows v.size l) jp (e ∙ sym (ap (λ y. y.inum) v.fields));
    bytes = λ i k. joined i (byte_at ip d i) _ _ (w.bytes i k) (v.bytes i k);
  }
    where
      grows :
          ip₁.size ≡ (if ltb ip.size (off + n) then off + n else ip.size)
          → ip.size < off + (n + m)
          → ip₁.size < off + n + m
      grows e l = ground arith

      joined :
          (i x y z : ℕ)
          → z ≡ (
              if leb (off + n) i
              then if ltb i (off + n + m) then buf (n + (i - (off + n))) else y
              else y)
          → y ≡ (if leb off i then if ltb i (off + n) then buf (i - off) else x else x)
          → z ≡ (if leb off i then if ltb i (off + (n + m)) then buf (i - off) else x else x)
      joined i x y z p q = elim (dec_lt i (off + n)) [
        | yes l ↦ ground arith
        | no l ↦
            (let e : n + (i - (off + n)) ≡ i - off = omega arith in ground (arith, p, q, ap buf e))
      ]

-- What the loop has done: all the bytes, or the first `k` and then a refusal, at the end of the
-- largest file; a panic only if the file had to grow.
abbrev pub ChunksPost :
    Superblock → ℕ → ℕ → (ℕ → ℕ) → Inode → Disk → Option (ℕ × ℕ × Inode × Disk) → Type 0
ChunksPost sb off n buf ip d none = ip.size < off + n
ChunksPost sb off n buf ip d (some (k, off', ip', d')) =
    (k ≤ n)
    × (off' ≡ off + k)
    × (k ≢ n → max_file * block_size < off + n)
    × Wrote sb off k buf ip d ip' d'

module _ (devsw : ℕ → Devsw) (sb : Superblock) (off n : ℕ) (small_n : n < uint_mod) (buf : ℕ → ℕ)
    (small : (i : ℕ) → buf i < 256) (ip : Inode) (d : Disk) (begins : off ≤ ip.size) where
  -- A round, by the result of its `writei`.
  abbrev round : ℕ → ℕ → ℕ → Option (Option ℕ × Inode × Disk) → Option (ℕ × ℕ × Inode × Disk)
  round rounds i o r = elim r [
    | none ↦ none
    | some (none, ip', d') ↦ some (i, o, ip', d')
    | some (some r, ip', d') ↦
        (let rest = write_chunks devsw sb rounds (i + r) n ((o + r) % uint_mod) buf ip' d' in
          if r == min (n - i) max_chunk then rest else none)
  ]

  chunks_end :
      (rounds i o : ℕ) (ip' : Inode) (d' : Disk)
      → n ≤ i
      → write_chunks devsw sb rounds i n o buf ip' d' ≡ some (i, o, ip', d')
  unfolding write_chunks
  chunks_end zero i o ip' d' h = refl
  chunks_end (suc rounds) i o ip' d' h =
      (let t : ltb i n ≡ false = ground arith in rw (write_chunks, t) refl)

  chunks_round :
      (rounds i o : ℕ) (ip' : Inode) (d' : Disk)
      → i < n
      → write_chunks devsw sb (suc rounds) i n o buf ip' d'
        ≡ round rounds i o (writei devsw sb o (min (n - i) max_chunk) ip' d' (λ j. buf (i + j)))
  unfolding write_chunks
  chunks_round rounds i o ip' d' h =
      (let t : ltb i n ≡ true = ground arith in rw (write_chunks, t) refl)

  -- One round, where `IH` is what the rounds after it do.
  module _ (rounds i : ℕ) (ip' : Inode) (d' : Disk) (h : i < n)
      (w : Wrote sb off i buf ip d ip' d') where
    abbrev size : ℕ
    size = min (n - i) max_chunk

    larger : ip.size ≤ ip'.size
    larger = ground (arith, w.size)

    reached : off + i ≤ ip'.size
    reached = ground (arith, w.size, begins)

    round_Post :
        (r : Option (Option ℕ × Inode × Disk))
        → WriteiPost sb (off + i) size (λ j. buf (i + j)) ip' d' r
        → ((ip₂ : Inode) (d₂ : Disk)
            → Wrote sb off (i + size) buf ip d ip₂ d₂
            → ChunksPost sb off n buf ip d
                (write_chunks devsw sb rounds (i + size) n (off + (i + size)) buf ip₂ d₂))
        → ChunksPost sb off n buf ip d (round rounds i (off + i) r)
    round_Post none (j, (a, b), z) ih = elim (dec_lt j ip'.size) [
      | yes l ↦ absurd (w.sound.file.whole j l z)
      | no l ↦ omega (arith, larger, h)
    ]
    round_Post (some (none, ip₂, d₂)) (p, q, c) ih = (
      omega arith,
      refl,
      λ e. elim c [ inl a ↦ absurd (omega (arith, reached)) | inr a ↦ omega (arith, h) ],
      subst (λ x. Wrote sb off i buf ip d x d₂) (sym p)
          (subst (Wrote sb off i buf ip d ip') (sym q) w),
    )
    round_Post (some (some k, ip₂, d₂)) (e, a, b, v) ih =
        subst
          (λ x. ChunksPost sb off n buf ip d (round rounds i (off + i) (some (some x, ip₂, d₂))))
          (sym e)
          (let t : (size == size) ≡ true = ground arith in
            let s : (off + i + size) % uint_mod ≡ off + (i + size) = omega (arith, b) in
            rw (t, s)
              (ih ip₂ d₂
                (Wrote-trans sb off i buf ip d size ip' ip₂ d' d₂ (omega (arith, h)) begins w v)))

  write_chunks_lem :
      (rounds i : ℕ) (ip' : Inode) (d' : Disk)
      → i ≤ n
      → n ≤ i + rounds
      → Wrote sb off i buf ip d ip' d'
      → ChunksPost sb off n buf ip d (write_chunks devsw sb rounds i n (off + i) buf ip' d')
  write_chunks_lem zero i ip' d' h g w =
      subst (ChunksPost sb off n buf ip d) (sym (chunks_end zero i (off + i) ip' d' (omega arith)))
        (h, refl, λ c. absurd (c (omega arith)), w)
  write_chunks_lem (suc rounds) i ip' d' h g w = elim (dec_lt i n) [
    | no l ↦
        subst (ChunksPost sb off n buf ip d)
          (sym (chunks_end (suc rounds) i (off + i) ip' d' (omega arith)))
          (h, refl, λ c. absurd (c (omega arith)), w)
    | yes l ↦
        subst (ChunksPost sb off n buf ip d) (sym (chunks_round rounds i (off + i) ip' d' l)) (
          round_Post rounds i ip' d' l w
            (writei devsw sb (off + i) (min (n - i) max_chunk) ip' d' (λ j. buf (i + j)))
            (writei_lem devsw sb (off + i) (min (n - i) max_chunk)
              (omega (arith, w.sound.file.fits, reached rounds i ip' d' l w)) (omega arith)
              (λ j. buf (i + j)) (λ j. small (i + j)) ip' d' w.sound)
            (λ ip₂ d₂ v.
              write_chunks_lem rounds (i + min (n - i) max_chunk) ip₂ d₂ (omega arith) (omega arith)
                v))
  ]

-- What `filewrite` to an inode has done: it returns `n` when it has written all the bytes, and -1 when
-- the file reached its largest size after the first `k`.
abbrev pub FilewritePost :
    Superblock
    → File
    → ℕ
    → (ℕ → ℕ)
    → Pipe
    → Inode
    → Disk
    → Option (WriteReply × File × Pipe × Inode × Disk)
    → Type 0
FilewritePost sb f n buf p ip d none = ip.size < f.off + n
FilewritePost sb f n buf p ip d (some (r, f', p', ip', d')) =
    (k : ℕ) × (k ≤ n)
    × (f' ≡ (record f { off = f.off + k }))
    × (p' ≡ p)
    × Wrote sb f.off k buf ip d ip' d'
    × (((k ≡ n) × (r ≡ wrote n)) ⊎ ((k < n) × (r ≡ refused) × (max_file * block_size < f.off + n)))

module _ (devsw : ℕ → Devsw) (sb : Superblock) (killed : Bool) (f : File) (n : ℕ) (buf : ℕ → ℕ)
    (p : Pipe) (ip : Inode) (d : Disk) where
  by_chunks :
      (r : Option (ℕ × ℕ × Inode × Disk))
      → ChunksPost sb f.off n buf ip d r
      → FilewritePost sb f n buf p ip d (elim r [
        | none ↦ none
        | some (i, off, ip', d') ↦
            some ((if i == n then wrote n else refused), record f { off = off }, p, ip', d')
      ])
  by_chunks none h = h
  by_chunks (some (k, off, ip', d')) (a, b, c, w) = (
    k,
    a,
    ap (λ o. record f { off = o }) b,
    refl,
    w,
    elim (ℕ_discrete k n) [
      | yes e ↦ inl (e, (let t : (k == n) ≡ true = ground arith in rw t refl))
      | no e ↦ inr (omega arith, (let t : (k == n) ≡ false = ground arith in rw t refl), c e)
    ],
  )

  inode_branch :
      (a b : Option (WriteReply × File × Pipe × Inode × Disk))
      {c : Option (WriteReply × File × Pipe × Inode × Disk)} {t : Bool} {y : FileType}
      → t ≡ true
      → y ≡ fd_inode
      → (if not t then a else elim y [ fd_none ↦ none | fd_pipe ↦ b | fd_inode ↦ c ]) ≡ c
  inode_branch a b e g = rw (e, g) refl

  -- `filewrite` of a number of bytes that is not negative and fits an int, to a writable file of type
  -- FD_INODE: its inode is that of a sound file and not of a device, its fields fit the disk, the block
  -- of the inode is in use and is none of those of the file or the bitmap, and the offset is not behind
  -- the end of the file. It panics only if the file has to grow. Else it writes the first `k` bytes at
  -- the offset, leaves the other bytes and the file sound, with its new size and addresses on the disk
  -- if it has grown, and moves the offset on by `k`: it returns `n` if these are all, and -1 if there
  -- are fewer, as the file would be longer than a file can be.
  pub filewrite_lem :
      n < 2 ^ 31
      → ((i : ℕ) → buf i < 256)
      → f.writable ≡ true
      → f.type ≡ fd_inode
      → IsWritable sb ip d
      → f.off ≤ ip.size
      → FilewritePost sb f n buf p ip d (filewrite devsw sb killed f (pos n) buf p ip d)
  unfolding filewrite
  filewrite_lem small_n small w t v h =
      subst (FilewritePost sb f n buf p ip d) (sym (inode_branch _ _ w t)) (
        by_chunks (write_chunks devsw sb n 0 n f.off buf ip d) (
          subst (λ o. ChunksPost sb f.off n buf ip d (write_chunks devsw sb n 0 n o buf ip d))
            (omega arith)
            (write_chunks_lem devsw sb f.off n (omega arith) buf small ip d h n 0 ip d (omega arith)
              (omega arith) (Wrote-refl sb f.off n buf ip d v h))))

-- ===== src/Fs/Read.antt =====
-- The loop of `readi`, where each block of the range is there.
use operating_systems_work.Base.{
  ℕ, zero, suc, ◌+◌, ◌-◌, ◌*◌, ◌/◌, ◌%◌, ◌<◌, ◌≤◌, ◌≡◌, ◌≢◌, refl, sym, ap, ◌∙◌, true, false, some,
  ◌==◌, ltb, leb, if◌then◌else◌, arith, ℕ_discrete, dec_lt, min,
}
use operating_systems_work.Fs.Disk.{Disk, Superblock, block_size}
use operating_systems_work.Fs.Inode.{Inode, max_file, read_loop}
use operating_systems_work.Fs.Extend.{addr_of, byte_at}
use operating_systems_work.Fs.Bmap.{bmap_there}
use operating_systems_work.Fs.Content.{round_size}

-- The bytes that a round reads from its block `x`.
abbrev taken : ℕ → ℕ → ℕ → (ℕ → ℕ) → (ℕ → ℕ) → ℕ → ℕ
taken off dst m x buf i =
    if leb dst i then if ltb i (dst + m) then x (i - dst + off % block_size) else buf i else buf i

none_read :
    (dst n : ℕ) (buf : ℕ → ℕ) (j y : ℕ)
    → n ≡ 0
    → buf j ≡ (if leb dst j then if ltb j (dst + n) then y else buf j else buf j)
none_read dst n buf j y z = ground arith

module _ (sb : Superblock) (ip : Inode) (d : Disk) where
  read_done :
      (rounds off dst n : ℕ) (buf : ℕ → ℕ)
      → n ≡ 0
      → read_loop sb (suc rounds) off dst n ip d buf ≡ some (ip, d, buf)
  unfolding read_loop
  read_done rounds off dst n buf z =
      (let t : (n == 0) ≡ true = ground arith in rw (read_loop, t) refl)

  read_round :
      (rounds off dst n : ℕ) (buf : ℕ → ℕ)
      → n ≢ 0
      → off / block_size < max_file
      → addr_of ip d (off / block_size) ≢ 0
      → read_loop sb (suc rounds) off dst n ip d buf ≡ (
          let m = min n (block_size - off % block_size) in
          read_loop sb rounds
            (off + m)
            (dst + m)
            (n - m)
            ip
            d
            (taken off dst m (d (addr_of ip d (off / block_size))) buf))
  unfolding read_loop
  read_round rounds off dst n buf z h c =
      (let t : (n == 0) ≡ false = ground arith in
        rw (read_loop, t, bmap_there sb ip d (off / block_size) h c) refl)

  -- What the loop leaves in the buffer.
  abbrev pub ReadBytes : ℕ → ℕ → ℕ → (ℕ → ℕ) → (ℕ → ℕ) → Type 0
  ReadBytes off dst n buf buf' =
      (j : ℕ)
      → buf' j ≡ (
          if leb dst j
          then if ltb j (dst + n) then byte_at ip d (j - dst + off) else buf j
          else buf j)

  taken_lem :
      (off dst m : ℕ) (buf : ℕ → ℕ)
      → off % block_size + m ≤ block_size
      → addr_of ip d (off / block_size) ≢ 0
      → ReadBytes off dst m buf (taken off dst m (d (addr_of ip d (off / block_size))) buf)
  taken_lem off dst m buf r c j = elim (dec_lt j dst) [
    | yes k ↦ (let t : leb dst j ≡ false = ground arith in rw t refl)
    | no k ↦ elim (dec_lt j (dst + m)) [
      | no g ↦ (let t : ltb j (dst + m) ≡ false = ground arith in rw t refl)
      | yes g ↦
          (let s : leb dst j ≡ true = ground arith in
            let t : ltb j (dst + m) ≡ true = ground arith in
            let q : (j - dst + off) / block_size ≡ off / block_size = omega (arith, k, g, r) in
            let p : (j - dst + off) % block_size ≡ j - dst + off % block_size =
              omega (arith, k, g, r) in
            rw (s, t) (sym (byte (j - dst + off) q ∙ ap (d (addr_of ip d (off / block_size))) p)))
    ]
  ]
    where
      byte :
          (i : ℕ)
          → i / block_size ≡ off / block_size
          → byte_at ip d i ≡ d (addr_of ip d (off / block_size)) (i % block_size)
      byte i q =
          ap (λ a. if a == 0 then 0 else d a (i % block_size)) (ap (addr_of ip d) q)
          ∙ present (addr_of ip d (off / block_size)) c
        where
          present :
              (a : ℕ) → a ≢ 0 → (if a == 0 then 0 else d a (i % block_size)) ≡ d a (i % block_size)
          present a n = ground arith

  -- A round, and the rounds after it.
  joined :
      (off dst n m : ℕ) (buf buf₁ buf₂ : ℕ → ℕ)
      → m ≤ n
      → ReadBytes off dst m buf buf₁
      → ReadBytes (off + m) (dst + m) (n - m) buf₁ buf₂
      → ReadBytes off dst n buf buf₂
  joined off dst n m buf buf₁ buf₂ g p w j = elim (dec_lt j (dst + m)) [
    | yes k ↦
        before (byte_at ip d (j - (dst + m) + (off + m))) (byte_at ip d (j - dst + off)) k (p j)
          (w j)
    | no k ↦
        (let e : j - (dst + m) + (off + m) ≡ j - dst + off = omega arith in
          let s : dst + m + (n - m) ≡ dst + n = omega (arith, g) in
          w j ∙ rw (e, s) (past (byte_at ip d (j - dst + off)) k (p j)))
  ]
    where
      before :
          (x y : ℕ)
          → j < dst + m
          → buf₁ j ≡ (if leb dst j then if ltb j (dst + m) then y else buf j else buf j)
          → buf₂ j
            ≡ (if leb (dst + m) j then if ltb j (dst + m + (n - m)) then x else buf₁ j else buf₁ j)
          → buf₂ j ≡ (if leb dst j then if ltb j (dst + n) then y else buf j else buf j)
      before x y k p w = ground (arith, g)

      past :
          (y : ℕ)
          → ¬ (j < dst + m)
          → buf₁ j ≡ (if leb dst j then if ltb j (dst + m) then y else buf j else buf j)
          → (if leb (dst + m) j then if ltb j (dst + n) then y else buf₁ j else buf₁ j)
            ≡ (if leb dst j then if ltb j (dst + n) then y else buf j else buf j)
      past y k p = ground (arith, g)

  pub read_loop_lem :
      (rounds off dst n : ℕ) (buf : ℕ → ℕ)
      → n ≤ rounds
      → off + n ≤ max_file * block_size
      → ((i : ℕ) → off ≤ i → i < off + n → addr_of ip d (i / block_size) ≢ 0)
      → (buf' : ℕ → ℕ) × (read_loop sb rounds off dst n ip d buf ≡ some (ip, d, buf'))
        × ReadBytes off dst n buf buf'
  unfolding read_loop
  read_loop_lem zero off dst n buf g f there =
      (buf, refl, λ j. none_read dst n buf j (byte_at ip d (j - dst + off)) (omega arith))
  read_loop_lem (suc rounds) off dst n buf g f there = elim (ℕ_discrete n 0) [
    | yes z ↦ (
      buf,
      read_done rounds off dst n buf z,
      λ j. none_read dst n buf j (byte_at ip d (j - dst + off)) z,
    )
    | no z ↦
        (let s = round_size off n z in
          let m = min n (block_size - off % block_size) in
          let h : off / block_size < max_file = omega arith in
          let c = there off (omega arith) (omega arith) in
          let buf₁ = taken off dst m (d (addr_of ip d (off / block_size))) buf in
          let (buf', e, w) =
            read_loop_lem rounds (off + m) (dst + m) (n - m) buf₁ (omega (arith, s.0, s.1, g))
              (omega (arith, s.1, f)) (λ i p q. there i (omega arith) (omega (arith, s.1))) in
          (
            buf',
            read_round rounds off dst n buf z h c ∙ e,
            joined off dst n m buf buf₁ buf' s.1 (taken_lem off dst m buf s.2 c) w,
          ))
  ]

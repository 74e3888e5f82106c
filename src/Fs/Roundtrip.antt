-- ===== src/Fs/Roundtrip.antt =====
-- What `readi` reads, and what it reads after `writei`.
use operating_systems_work.Base.{
  ℕ, ◌+◌, ◌-◌, ◌/◌, ◌%◌, ◌<◌, ◌≤◌, ◌≡◌, ◌≢◌, ◌==◌, refl, sym, ap, ap₂, subst, ◌∙◌, true, false,
  some, ltb, leb, ◌||◌, if◌then◌else◌, arith, dec_lt, min,
}
use operating_systems_work.Fs.Disk.{Disk, Superblock, block_size}
use operating_systems_work.Fs.Inode.{Inode, max_file, uint_mod, read_loop}
use operating_systems_work.Fs.Transfer.{Devsw, t_dev, readi, writei}
use operating_systems_work.Fs.Extend.{byte_at}
use operating_systems_work.Fs.Read.{read_loop_lem}
use operating_systems_work.Fs.Whole.{IsFile, IsWritable, WriteiPost, writei_lem}

module _ (devsw : ℕ → Devsw) (sb : Superblock) (off n : ℕ) (ip : Inode) (d : Disk)
    (out : ℕ → ℕ) where
  abbrev shortened : ℕ
  shortened = if ltb ip.size ((off + n) % uint_mod) then ip.size - off else n

  read_run :
      ip.type ≢ t_dev
      → (ltb ip.size off || ltb ((off + n) % uint_mod) off) ≡ false
      → (out' : ℕ → ℕ) → read_loop sb shortened off 0 shortened ip d out ≡ some (ip, d, out')
      → readi devsw sb off n ip d out ≡ some (some shortened, ip, d, out')
  unfolding readi
  read_run h t out' e =
      (let p : (ip.type == t_dev) ≡ false = ground arith in rw (readi, p, t, e) refl)

  -- A read of a sound file that is not of a device, from a place that is not behind its end and where
  -- `off + n` does not wrap around at 2^32, never panics and changes neither the inode nor the disk: it
  -- gives the bytes of the file from `off` on, `n` of them or those up to the end of the file if there
  -- are fewer, and leaves the rest of the buffer.
  pub readi_lem :
      IsFile sb ip d
      → ip.type ≢ t_dev
      → off ≤ ip.size
      → off + n < uint_mod
      → (out' : ℕ → ℕ) × (readi devsw sb off n ip d out
          ≡ some (some (min n (ip.size - off)), ip, d, out'))
        × ((j : ℕ)
            → out' j ≡ (if ltb j (min n (ip.size - off)) then byte_at ip d (j + off) else out j))
  readi_lem f regular h g =
      let s : shortened ≡ min n (ip.size - off) = ground arith in
      let t : (ltb ip.size off || ltb ((off + n) % uint_mod) off) ≡ false = ground arith in
      let b : off + shortened ≤ ip.size = ground arith in
      let (out', e, w) =
        read_loop_lem sb ip d shortened off 0 shortened out (omega arith) (omega (arith, b, f.fits))
          (λ i p q. f.whole i (omega (arith, p, q, b))) in
      (
        out',
        read_run regular t out' e ∙ ap (λ x. some (some x, ip, d, out')) s,
        λ j.
            w j
            ∙ ap₂ (λ x y. if leb 0 j then if ltb j x then byte_at ip d y else out j else out j)
                (omega (arith, s)) (omega arith)
            ∙ plain j (byte_at ip d (j + off)),
      )
    where
      plain :
          (j y : ℕ)
          → (if leb 0 j then if ltb j (min n (ip.size - off)) then y else out j else out j)
            ≡ (if ltb j (min n (ip.size - off)) then y else out j)
      plain j y = ground arith

-- On a sound file that is not of a device, whose fields fit the disk and whose inode lies in a block
-- in use that is none of those of the file or the bitmap, what a write that succeeds has written is what a
-- read at the same place gives, for numbers that an unsigned int holds and a buffer of bytes: the
-- read returns the same number, leaves the inode and the disk as they are, fills the buffer with the
-- bytes that were written and leaves the rest of it.
pub writei-readi :
    (devsw : ℕ → Devsw) (sb : Superblock) (off n : ℕ) (buf : ℕ → ℕ) (ip ip' : Inode) (d d' : Disk)
    (k : ℕ) (out : ℕ → ℕ)
    → off < uint_mod
    → n < uint_mod
    → ((i : ℕ) → buf i < 256)
    → IsWritable sb ip d
    → writei devsw sb off n ip d buf ≡ some (some k, ip', d')
    → (out' : ℕ → ℕ) × (readi devsw sb off n ip' d' out ≡ some (some k, ip', d', out'))
      × ((j : ℕ) → out' j ≡ (if ltb j n then buf j else out j))
writei-readi devsw sb off n buf ip ip' d d' k out small_off small_n small f h =
    let (e, start, fits, w) =
      subst (WriteiPost sb off n buf ip d) h
        (writei_lem devsw sb off n small_off small_n buf small ip d f) in
    let size : (off ≤ ip'.size) × (min n (ip'.size - off) ≡ n) = sizes start w.size in
    let (out', r, b) =
      readi_lem devsw sb off n ip' d' out w.sound.file w.sound.regular size.0
        (omega (arith, fits)) in
    (
      out',
      r ∙ ap (λ x. some (some x, ip', d', out')) (size.1 ∙ sym e),
      λ j.
          b j
          ∙ ap (λ x. if ltb j x then byte_at ip' d' (j + off) else out j) size.1
          ∙ same fits j (w.bytes (j + off)),
    )
  where
    sizes :
        off ≤ ip.size
        → ip'.size ≡ (if ltb ip.size (off + n) then off + n else ip.size)
        → (off ≤ ip'.size) × (min n (ip'.size - off) ≡ n)
    sizes g e = ground arith

    same :
        off + n ≤ 71680
        → (j : ℕ)
        → ((j + off) / block_size < max_file
            → byte_at ip' d' (j + off) ≡ (
                if leb off (j + off)
                then if ltb (j + off) (off + n) then buf (j + off - off) else byte_at ip d (j + off)
                else byte_at ip d (j + off)))
        → (if ltb j n then byte_at ip' d' (j + off) else out j) ≡ (if ltb j n then buf j else out j)
    same g j b = elim (dec_lt j n) [
      | yes q ↦
          (let s : j + off - off ≡ j = omega arith in
            let t : ltb j n ≡ true = ground arith in
            let u : leb off (j + off) ≡ true = ground arith in
            let v : ltb (j + off) (off + n) ≡ true = ground arith in
            rw t (b (omega arith) ∙ rw (u, v, s) refl))
      | no q ↦ (let t : ltb j n ≡ false = ground arith in rw t refl)
    ]

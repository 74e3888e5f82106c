-- ===== src/Fs/Linked.antt =====
-- A name that `dirlink` has written is found by `dirlookup`.
use operating_systems_work.Base.{
  ℕ, zero, suc, List, [], ◌∷◌, refl, set, get_elem?, get_or_of_get_elem?, ◌+◌, ◌-◌, ◌*◌, ◌%◌, ◌<◌,
  ◌≤◌, ◌≡◌, ◌≢◌, ◌⊎◌, sym, ap, ap₂, ◌∙◌, subst, true, Option, none, some, ltb, leb, if◌then◌else◌,
  arith, ℕ_discrete, inl, inr, dec_lt,
}
use operating_systems_work.Fs.Disk.{Disk, Superblock, block_size}
use operating_systems_work.Fs.Inode.{Inode, max_file}
use operating_systems_work.Fs.Transfer.{Devsw}
use operating_systems_work.Fs.Icache.{no_inode, iget}
use operating_systems_work.Fs.Extend.{byte_at}
use operating_systems_work.Fs.Whole.{IsWritable, Wrote, WriteiPost, writei_lem}
use operating_systems_work.Fs.Directory.{t_dir, entry_size, new_entry, dirlookup, dirlink}
use operating_systems_work.Fs.Lookup.{number_at, IsMatch, FirstMatch}
use operating_systems_work.Fs.Found.{at_offset, answer, dirlookup_run}
use operating_systems_work.Fs.Ending.{put_entry-writei, dirlink_free, dirlink_taken}
use operating_systems_work.Fs.Link.{
  IsPlace, empty_loop_lem, new_entry-SameName, new_entry_inum, new_entry_small,
}

get_elem?-set_there :
    (t : List Inode) (s : ℕ) (x y : Inode)
    → get_elem? t s ≡ some x
    → get_elem? (set t s y) s ≡ some y
get_elem?-set_there [] s x y e = absurd cc
get_elem?-set_there (z ∷ t) zero x y e = refl
get_elem?-set_there (z ∷ t) (suc s) x y e = get_elem?-set_there t s x y e

module _ (devsw : ℕ → Devsw) (sb : Superblock) (name : ℕ → ℕ) (small : (i : ℕ) → name i < 256)
    (inum : ℕ) (positive : inum ≢ 0) (short : inum < 65536) (s : ℕ) (t : List Inode) (dp : Inode)
    (d : Disk) (there : get_elem? t s ≡ some dp) (f : IsWritable sb dp d) (dir : dp.type ≡ t_dir)
    (q : dp.size % entry_size ≡ 0) where
  module _ (off : ℕ) (de : ℕ → ℕ) (place : IsPlace dp d off) (dp' : Inode) (d' : Disk)
      (w : Wrote sb off 16 (new_entry name inum de) dp d dp' d')
      (g : off + 16 ≤ max_file * block_size) where
    inside : (j : ℕ) → j < 16 → byte_at dp' d' (j + off) ≡ new_entry name inum de j
    inside j h =
        w.bytes (j + off) (omega arith)
        ∙ (let t : leb off (j + off) ≡ true = ground arith in
            let u : ltb (j + off) (off + 16) ≡ true = ground arith in
            let e : j + off - off ≡ j = omega arith in rw (t, u) (ap (new_entry name inum de) e))

    outside : (i : ℕ) → (i < off) ⊎ (off + 16 ≤ i) → i < dp.size → byte_at dp' d' i ≡ byte_at dp d i
    outside i h l =
        w.bytes i (omega (arith, f.file.fits))
        ∙ unchanged h (new_entry name inum de (i - off)) (byte_at dp d i)
      where
        unchanged :
            (i < off) ⊎ (off + 16 ≤ i)
            → (x y : ℕ) → (if leb off i then if ltb i (off + 16) then x else y else y) ≡ y
        unchanged h x y = ground arith

    same_number : number_at dp' d' off ≡ inum
    same_number =
        ap₂ (λ x y. x + y * 256) (ap (byte_at dp' d') (omega arith) ∙ inside 0 (omega arith))
          (inside 1 (omega arith))
        ∙ new_entry_inum name small inum de short

    new-IsMatch : IsMatch name dp' d' off
    new-IsMatch = (
      (λ z. positive (sym same_number ∙ z)),
      λ i h k. new_entry-SameName name small inum de i h k ∙ sym (inside (2 + i) (omega arith)),
    )

    old-IsMatch :
        (x : ℕ) → x < dp.size → x % 16 ≡ 0 → x ≢ off → IsMatch name dp' d' x → IsMatch name dp d x
    old-IsMatch x l m n (c, s) = (
      (λ z. c (
          ap₂ (λ a b. a + b * 256) (same 0 x (omega arith) (omega arith))
            (same 1 (1 + x) (omega arith) (omega arith))
          ∙ z)),
      λ i h k. s i h k ∙ same (2 + i) (2 + i + x) (omega arith) (omega arith),
    )
      where
        same : (i y : ℕ) → i < 16 → y ≡ i + x → byte_at dp' d' y ≡ byte_at dp d y
        same i y h e = outside y (apart e) (omega (arith, l, m, q))
          where
            apart : y ≡ i + x → (y < off) ⊎ (off + 16 ≤ y)
            apart e = elim (dec_lt y off) [
              | yes k ↦ inl k
              | no k ↦ inr (omega (arith, e, h, m, n, place.0))
            ]

    found :
        FirstMatch name dp d none
        → (t' : List Inode) → get_elem? t' s ≡ some dp'
        → (de' : ℕ → ℕ)
        → (o : ℕ) × (dirlookup devsw sb name s t' d' de' ≡ at_offset o d' (iget dp'.dev inum t'))
    found free t' is de' =
        let (r, m, e) =
          dirlookup_run devsw sb s t' dp' d' is w.sound.file name small de'
            (ap (λ y. y.type) w.fields ∙ dir) (size_lem w.size) in
        by_result r e m
      where
        size_lem :
            dp'.size ≡ (if ltb dp.size (off + 16) then off + 16 else dp.size) → dp'.size % 16 ≡ 0
        size_lem e = ground (arith, q, place.0)

        below :
            (x : ℕ)
            → x < dp'.size
            → x % 16 ≡ 0
            → x ≢ off
            → dp'.size ≡ (if ltb dp.size (off + 16) then off + 16 else dp.size)
            → x < dp.size
        below x l z y e = ground (arith, q, place.0, place.1)

        by_result :
            (r : Option (ℕ × ℕ))
            → dirlookup devsw sb name s t' d' de' ≡ answer dp'.dev t' d' r
            → FirstMatch name dp' d' r
            → (o : ℕ) × (dirlookup devsw sb name s t' d' de'
                ≡ at_offset o d' (iget dp'.dev inum t'))
        by_result none e m = absurd (m off (ground (arith, w.size)) place.0 new-IsMatch)
        by_result (some (x, k)) e (l, z, c, n, first) = elim (ℕ_discrete x off) [
          | yes y ↦ (
            x,
            e
                ∙ ap (λ v. at_offset x d' (iget dp'.dev v t'))
                    (n ∙ ap (number_at dp' d') y ∙ same_number),
          )
          | no y ↦
              (let b : x < dp.size = below x l z y w.size in
                absurd (free x b z (old-IsMatch x b z y c)))
        ]

  -- The outcome of a `dirlink` that succeeds.
  abbrev pub DirlinkPost : List Inode → Disk → Type 0
  DirlinkPost t' d' =
      FirstMatch name dp d none
      × (dp' : Inode) × (t' ≡ set t s dp')
      × IsWritable sb dp' d'
      × (dp' ≡ record dp { size = dp'.size; addrs = dp'.addrs })
      × (dp'.size % entry_size ≡ 0)
      × ((de' : ℕ → ℕ)
          → (o : ℕ) × (dirlookup devsw sb name s t' d' de' ≡ at_offset o d' (iget dp.dev inum t')))

  -- On the slot of a sound directory of whole entries, whose fields fit the disk and whose inode lies in
  -- a block in use that is none of those of the directory or the bitmap, for a name of bytes and a
  -- number that is not 0 and fits a ushort: when `dirlink` succeeds, `dirlookup` of the name then finds
  -- the number and ends as `iget` of it does, and the directory is again sound and of whole entries,
  -- with nothing but its size and its addresses changed in the cache; and no entry in use had the
  -- name before.
  pub dirlink-dirlookup :
      (de : ℕ → ℕ) (t' : List Inode) (d' : Disk)
      → dirlink devsw sb name inum s t d de ≡ some (true, t', d')
      → DirlinkPost t' d'
  dirlink-dirlookup de t' d' h =
      let (r, m, e) = dirlookup_run devsw sb s t dp d there f.file name small de dir q in
      by_result r e m
    where
      linked :
          FirstMatch name dp d none
          → (off : ℕ) (de₂ : ℕ → ℕ) → IsPlace dp d off
          → (dp' : Inode) → t' ≡ set t s dp'
          → Wrote sb off 16 (new_entry name inum de₂) dp d dp' d'
          → off + 16 ≤ max_file * block_size
          → DirlinkPost t' d'
      linked m off de₂ place dp' g w c = (
        m,
        dp',
        g,
        w.sound,
        w.fields,
        size_lem w.size,
        λ de'.
            subst
              (λ v.
                (o : ℕ) × (dirlookup devsw sb name s t' d' de' ≡ at_offset o d' (iget v inum t')))
              (ap (λ y. y.dev) w.fields)
              (found off de₂ place dp' d' w c m t'
                (subst (λ v. get_elem? v s ≡ some dp') (sym g)
                  (get_elem?-set_there t s dp dp' there))
                de'),
      )
        where
          size_lem :
              dp'.size ≡ (if ltb dp.size (off + 16) then off + 16 else dp.size) → dp'.size % 16 ≡ 0
          size_lem e = ground (arith, q, place.0)

      by_result :
          (r : Option (ℕ × ℕ))
          → dirlookup devsw sb name s t d de ≡ answer dp.dev t d r
          → FirstMatch name dp d r
          → DirlinkPost t' d'
      by_result (some (off, k)) e m =
          absurd (dirlink_taken devsw sb name inum s t d de off (iget dp.dev k t) t' d' e h)
      by_result none e m =
          let (off, de₂, l, place) =
            empty_loop_lem devsw sb dp d f.file f.regular dp.size 0 de (omega arith) q (omega arith)
              (omega arith) in
          let new = new_entry name inum de₂ in
          let (dp', g, o) = put_entry-writei devsw sb s t t' d' off dp d new (
            sym (
              dirlink_free devsw sb name inum s t d de off de₂ dp
                (get_or_of_get_elem? t s no_inode there) e l)
            ∙ h) in
          let (k, b, c, w) = subst (WriteiPost sb off 16 new dp d) o (
            writei_lem devsw sb off 16 (omega (arith, place.1, f.file.fits)) (omega arith) new
              (new_entry_small name small inum de₂) dp d f) in
          linked m off de₂ place dp' g w c

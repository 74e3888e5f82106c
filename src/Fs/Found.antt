-- ===== src/Fs/Found.antt =====
-- `dirlookup` as a whole: what it finds, and the inode that it takes from the cache.
use operating_systems_work.Base.{
  ℕ, zero, suc, ◌%◌, ◌<◌, ◌≡◌, refl, sym, ap, ◌∙◌, subst, true, Option, none, some, List, [], ◌∷◌,
  ◌==◌, arith, Option-cases, inl, inr, get_elem?, set, get_or_of_get_elem?,
}
use operating_systems_work.Fs.Disk.{Disk, Superblock}
use operating_systems_work.Fs.Inode.{Inode}
use operating_systems_work.Fs.Transfer.{Devsw}
use operating_systems_work.Fs.Icache.{no_inode, iget}
use operating_systems_work.Fs.Iget.{Unique, IgetPost, iget_lem}
use operating_systems_work.Fs.Whole.{IsFile}
use operating_systems_work.Fs.Directory.{t_dir, entry_size, lookup_loop, dirlookup}
use operating_systems_work.Fs.Lookup.{FirstMatch, lookup_loop_lem}

set_same : (t : List Inode) (s : ℕ) (x : Inode) → get_elem? t s ≡ some x → set t s x ≡ t
set_same [] s x e = refl
set_same (y ∷ t) zero x e = (let q : y ≡ x = ground arith in ap (λ z. z ∷ t) (sym q))
set_same (y ∷ t) (suc s) x e = ap (λ z. y ∷ z) (set_same t s x e)

-- The end of `dirlookup`, by the entry that the loop has found: `iget` of its number.
abbrev pub at_offset :
    ℕ → Disk → Option (ℕ × List Inode) → Option (Option (ℕ × ℕ) × List Inode × Disk)
at_offset off d none = none
at_offset off d (some (i, t)) = some (some (off, i), t, d)

abbrev pub answer :
    ℕ → List Inode → Disk → Option (ℕ × ℕ) → Option (Option (ℕ × ℕ) × List Inode × Disk)
answer dev t d none = some (none, t, d)
answer dev t d (some (off, inum)) = at_offset off d (iget dev inum t)

-- The outcome of `dirlookup`, by the first entry with the name, if there is one.
abbrev pub DirlookupPost :
    ℕ → List Inode → Disk → Option (ℕ × ℕ) → Option (Option (ℕ × ℕ) × List Inode × Disk) → Type 0
DirlookupPost dev t d none o = o ≡ some (none, t, d)
DirlookupPost dev t d (some (off, inum)) none = IgetPost dev inum t none
DirlookupPost dev t d (some (off, inum)) (some (none, t', d')) = ⊥
DirlookupPost dev t d (some (off, inum)) (some (some (o, i), t', d')) =
    (o ≡ off) × (d' ≡ d) × IgetPost dev inum t (some (i, t'))

answer_Post :
    (dev : ℕ) (t : List Inode) (d : Disk) (r : Option (ℕ × ℕ))
    → Unique t
    → DirlookupPost dev t d r (answer dev t d r)
answer_Post dev t d none u = refl
answer_Post dev t d (some (off, inum)) u = elim (Option-cases (iget dev inum t)) [
  | inl e ↦ rw e (subst (IgetPost dev inum t) e (iget_lem dev inum t u))
  | inr ((i, t'), e) ↦ rw e (refl, refl, subst (IgetPost dev inum t) e (iget_lem dev inum t u))
]

module _ (devsw : ℕ → Devsw) (sb : Superblock) (s : ℕ) (t : List Inode) (dp : Inode) (d : Disk)
    (there : get_elem? t s ≡ some dp) (f : IsFile sb dp d) (name : ℕ → ℕ)
    (small : (i : ℕ) → name i < 256) (de : ℕ → ℕ) (dir : dp.type ≡ t_dir)
    (entries : dp.size % entry_size ≡ 0) where
  answered_set :
      (r : Option (ℕ × ℕ))
      → lookup_loop devsw sb dp.size 0 name dp d de ≡ some (r, dp, d)
      → dirlookup devsw sb name s t d de ≡ answer dp.dev (set t s dp) d r
  unfolding dirlookup
  answered_set none e =
      (let q : (dp.type == t_dir) ≡ true = ground arith in
        rw (dirlookup, get_or_of_get_elem? t s no_inode there, q, e) refl)
  answered_set (some (off, inum)) e =
      (let q : (dp.type == t_dir) ≡ true = ground arith in
        rw (dirlookup, get_or_of_get_elem? t s no_inode there, q, e)
          (same (iget dp.dev inum (set t s dp))))
    where
      same :
          (o : Option (ℕ × List Inode))
          → (elim o [ none ↦ none | some (i, t') ↦ some (some (off, i), t', d) ])
            ≡ at_offset off d o
      same none = refl
      same (some (i, t')) = refl

  answered :
      (r : Option (ℕ × ℕ))
      → lookup_loop devsw sb dp.size 0 name dp d de ≡ some (r, dp, d)
      → dirlookup devsw sb name s t d de ≡ answer dp.dev t d r
  answered r e = answered_set r e ∙ ap (λ x. answer dp.dev x d r) (set_same t s dp there)

  pub dirlookup_run :
      (r : Option (ℕ × ℕ)) × FirstMatch name dp d r
      × (dirlookup devsw sb name s t d de ≡ answer dp.dev t d r)
  dirlookup_run =
      let (r, e, m) =
        lookup_loop_lem devsw sb dp d f (ground arith) name small dp.size 0 de (omega arith) entries
          (omega arith) (λ e l m. absurd (omega arith)) in
      (r, m, answered r e)

  -- On the slot of a sound directory whose size is a multiple of that of an entry, for a name of bytes
  -- and a table in which no two slots in use hold one inode: if no entry in use has the name, by its
  -- bytes in the file up to a zero or to DIRSIZ of them, `dirlookup` returns the null pointer and
  -- changes nothing. Else it returns the offset of the first one that has it and the slot that `iget`
  -- finds or fills for its number, with one reference more and the other slots and the disk as they
  -- were; it panics only if no slot holds that inode and every slot is in use.
  pub dirlookup_lem :
      Unique t
      → (r : Option (ℕ × ℕ)) × FirstMatch name dp d r
        × DirlookupPost dp.dev t d r (dirlookup devsw sb name s t d de)
  dirlookup_lem u =
      let (r, m, e) = dirlookup_run in
      (r, m, subst (DirlookupPost dp.dev t d r) (sym e) (answer_Post dp.dev t d r u))

-- ===== src/Fs/Ending.antt =====
-- The ways in which `dirlink` ends.
use operating_systems_work.Base.{
  ℕ, ◌≡◌, ◌≢◌, refl, sym, ◌∙◌, Bool, true, false, Option, none, some, List, ◌==◌, if◌then◌else◌,
  arith, get_or, set, Option-cases, inl, inr,
}
use operating_systems_work.Fs.Disk.{Disk, Superblock}
use operating_systems_work.Fs.Inode.{Inode}
use operating_systems_work.Fs.Transfer.{Devsw, writei}
use operating_systems_work.Fs.Icache.{no_inode, iput}
use operating_systems_work.Fs.Directory.{
  entry_size, empty_loop, new_entry, dirlookup, put_entry, dirlink,
}
use operating_systems_work.Fs.Found.{at_offset}

module _ (devsw : ℕ → Devsw) (sb : Superblock) (s : ℕ) (t t' : List Inode) (d' : Disk) where
  abbrev ending : Option (Option ℕ × Inode × Disk) → Option (Bool × List Inode × Disk)
  ending none = none
  ending (some (none, dp₃, d₃)) = none
  ending (some (some k, dp₃, d₃)) = if k == entry_size then some (true, set t s dp₃, d₃) else none

  ending-some :
      (o : Option (Option ℕ × Inode × Disk))
      → ending o ≡ some (true, t', d')
      → (dp' : Inode) × (t' ≡ set t s dp') × (o ≡ some (some 16, dp', d'))
  ending-some none h = absurd cc
  ending-some (some (none, dp₃, d₃)) h = absurd cc
  ending-some (some (some k, dp₃, d₃)) h = (dp₃, ground arith, ground arith)

  put_entry-ending :
      (off : ℕ) (dp : Inode) (d : Disk) (de : ℕ → ℕ)
      → put_entry devsw sb off s t dp d de ≡ ending (writei devsw sb off entry_size dp d de)
  unfolding put_entry
  put_entry-ending off dp d de = same (writei devsw sb off entry_size dp d de)
    where
      same :
          (o : Option (Option ℕ × Inode × Disk))
          → (elim o [
            | none ↦ none
            | some (none, dp₃, d₃) ↦ none
            | some (some k, dp₃, d₃) ↦
                if k == entry_size then some (true, set t s dp₃, d₃) else none
          ])
            ≡ ending o
      same none = refl
      same (some (none, dp₃, d₃)) = refl
      same (some (some k, dp₃, d₃)) = refl

  -- A new entry that is put is one that `writei` wrote as a whole.
  pub put_entry-writei :
      (off : ℕ) (dp : Inode) (d : Disk) (de : ℕ → ℕ)
      → put_entry devsw sb off s t dp d de ≡ some (true, t', d')
      → (dp' : Inode) × (t' ≡ set t s dp')
        × (writei devsw sb off entry_size dp d de ≡ some (some 16, dp', d'))
  put_entry-writei off dp d de h =
      ending-some (writei devsw sb off entry_size dp d de) (sym (put_entry-ending off dp d de) ∙ h)

module _ (devsw : ℕ → Devsw) (sb : Superblock) (name : ℕ → ℕ) (inum s : ℕ) (t : List Inode)
    (d : Disk) (de : ℕ → ℕ) where
  pub dirlink_free :
      (off : ℕ) (de' : ℕ → ℕ) (dp : Inode)
      → get_or t s no_inode ≡ dp
      → dirlookup devsw sb name s t d de ≡ some (none, t, d)
      → empty_loop devsw sb dp.size 0 dp d de ≡ some (off, dp, d, de')
      → dirlink devsw sb name inum s t d de
        ≡ put_entry devsw sb off s t dp d (new_entry name inum de')
  unfolding dirlink
  dirlink_free off de' dp g e q = rw (dirlink, e, g, q) refl

  -- With a name that is there already, it does not succeed.
  pub dirlink_taken :
      (off : ℕ) (o : Option (ℕ × List Inode)) (t' : List Inode) (d' : Disk)
      → dirlookup devsw sb name s t d de ≡ at_offset off d o
      → dirlink devsw sb name inum s t d de ≢ some (true, t', d')
  unfolding dirlink
  dirlink_taken off none t' d' e h = clash (rw (dirlink, e) refl) h
    where
      clash : {x : Option (Bool × List Inode × Disk)} → x ≡ none → x ≡ some (true, t', d') → ⊥
      clash p q = cc
  dirlink_taken off (some (i, t₁)) t' d' e h = elim (Option-cases (iput sb i t₁ d)) [
    | inl z ↦ never (rw (dirlink, e, z) refl) h
    | inr ((t₂, d₂), z) ↦ refused t₂ d₂ (rw (dirlink, e, z) refl) h
  ]
    where
      never : {x : Option (Bool × List Inode × Disk)} → x ≡ none → x ≡ some (true, t', d') → ⊥
      never p q = cc

      refused :
          (t₂ : List Inode) (d₂ : Disk) {x : Option (Bool × List Inode × Disk)}
          → x ≡ some (false, t₂, d₂)
          → x ≡ some (true, t', d')
          → ⊥
      refused t₂ d₂ p q = different (sym p ∙ q)
        where
          different :
              ◌≡◌ {A = Option (Bool × List Inode × Disk)}
                (some (false, t₂, d₂))
                (some (true, t', d'))
              → ⊥
          different e = ground arith

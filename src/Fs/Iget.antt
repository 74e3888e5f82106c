-- ===== src/Fs/Iget.antt =====
-- `iget` finds or makes the one slot of an inode.
use operating_systems_work.Base.{
  ℕ, ◌+◌, ◌<◌, ◌≡◌, ◌≢◌, refl, sym, ap, subst, ◌∙◌, Bool, true, false, Option, none, some, List,
  inl, inr, arith, get_elem?, modify, get_elem?-modify_self, get_elem?-modify_ne,
  get_elem?-modify_inv,
}
use operating_systems_work.Fs.Inode.{Inode}
use operating_systems_work.Fs.Scan.{IsAbsent, Scanned, scan_lem, Slot-there}
use operating_systems_work.Fs.Icache.{
  Scan, cached, vacant, full, is_inode, scan_icache, add_inode_ref, recycle_inode, iget,
}

-- No two slots in use hold the same inode.
abbrev pub Unique : List Inode → Type 0
Unique t =
    (i j : ℕ) (x y : Inode)
    → get_elem? t i ≡ some x
    → get_elem? t j ≡ some y
    → 0 < x.ref
    → 0 < y.ref
    → x.dev ≡ y.dev
    → x.inum ≡ y.inum
    → i ≡ j

module _ (dev inum : ℕ) where
  -- What `iget` has done to the table, with slot `i` for its result.
  pub record Got (t : List Inode) (i : ℕ) (t' : List Inode) : Type 0 where
    pub before : Inode
    pub was_there : get_elem? t i ≡ some before
    pub after : Inode
    pub is_there : get_elem? t' i ≡ some after
    pub key : (after.dev ≡ dev) × (after.inum ≡ inum)
    pub counted : after.ref ≡ before.ref + 1
    pub hit : before.ref ≢ 0 → after ≡ add_inode_ref before
    pub miss : before.ref ≡ 0 → IsAbsent dev inum t × (after.valid ≡ false)
    pub others : (j : ℕ) → i ≢ j → get_elem? t' j ≡ get_elem? t j

  abbrev pub IgetPost : List Inode → Option (ℕ × List Inode) → Type 0
  IgetPost t none = IsAbsent dev inum t × ((k : ℕ) (x : Inode) → get_elem? t k ≡ some x → x.ref ≢ 0)
  IgetPost t (some (i, t')) = Got t i t' × Unique t'

  held_parts :
      (x : Inode) → is_inode dev inum x ≡ true → (0 < x.ref) × (x.dev ≡ dev) × (x.inum ≡ inum)
  held_parts x h = (ground arith, ground arith, ground arith)

  hit_Got :
      (t : List Inode) (i : ℕ) (x : Inode)
      → get_elem? t i ≡ some x
      → is_inode dev inum x ≡ true
      → Got t i (modify t i add_inode_ref)
  hit_Got t i x e h = record {
    before = x;
    was_there = e;
    after = add_inode_ref x;
    is_there = get_elem?-modify_self t i add_inode_ref e;
    key = ((held_parts x h).1, (held_parts x h).2);
    counted = refl;
    hit = λ n. refl;
    miss = λ z. absurd (clash z (held_parts x h).0);
    others = λ j n. get_elem?-modify_ne t i j add_inode_ref n;
  }
    where
      clash : x.ref ≡ 0 → 0 < x.ref → ⊥
      clash z l = omega arith

  miss_Got :
      (t : List Inode) (i : ℕ) (x : Inode)
      → get_elem? t i ≡ some x
      → x.ref ≡ 0
      → IsAbsent dev inum t
      → Got t i (modify t i (recycle_inode dev inum))
  miss_Got t i x e z a = record {
    before = x;
    was_there = e;
    after = recycle_inode dev inum x;
    is_there = get_elem?-modify_self t i (recycle_inode dev inum) e;
    key = (refl, refl);
    counted = omega arith;
    hit = λ n. absurd (n z);
    miss = λ q. (a, refl);
    others = λ j n. get_elem?-modify_ne t i j (recycle_inode dev inum) n;
  }

  -- One more reference leaves the slots of the inodes as they are.
  Unique-hit :
      (t : List Inode) (i : ℕ) (x : Inode)
      → get_elem? t i ≡ some x
      → 0 < x.ref
      → Unique t
      → Unique (modify t i add_inode_ref)
  Unique-hit t i x e l u j k y z p q m n r s =
      let (y', ey, ly, dy, iy) = live_before j y p m in
      let (z', ez, lz, dz, iz) = live_before k z q n in
      u j k y' z' ey ez ly lz (dy ∙ r ∙ sym dz) (iy ∙ s ∙ sym iz)
    where
      live_before :
          (j : ℕ) (y : Inode)
          → get_elem? (modify t i add_inode_ref) j ≡ some y
          → 0 < y.ref
          → (w : Inode) × (get_elem? t j ≡ some w)
            × (0 < w.ref)
            × (w.dev ≡ y.dev)
            × (w.inum ≡ y.inum)
      live_before j y p m =
          let (w, ew, c) = get_elem?-modify_inv t i add_inode_ref j p in
          elim c [
            | inl (a, b) ↦ (
              w,
              ew,
              subst (λ v. 0 < v.ref) (same_slot a e ew) l,
              sym (ap (λ v. v.dev) b),
              sym (ap (λ v. v.inum) b),
            )
            | inr (a, b) ↦ (
              w,
              ew,
              subst (λ v. 0 < v.ref) b m,
              sym (ap (λ v. v.dev) b),
              sym (ap (λ v. v.inum) b),
            )
          ]
        where
          same_slot :
              {j : ℕ} {w : Inode} → i ≡ j → get_elem? t i ≡ some x → get_elem? t j ≡ some w → x ≡ w
          same_slot a e f = cc

  Unique-miss :
      (t : List Inode) (i : ℕ)
      → IsAbsent dev inum t
      → Unique t
      → Unique (modify t i (recycle_inode dev inum))
  Unique-miss t i a u j k y z p q m n r s =
      let (y', ey, cy) = get_elem?-modify_inv t i (recycle_inode dev inum) j p in
      let (z', ez, cz) = get_elem?-modify_inv t i (recycle_inode dev inum) k q in
      elim cy [
        | inl (b, c) ↦ elim cz [
          | inl (b', c') ↦ sym b ∙ b'
          | inr (b', c') ↦ absurd (
              taken z z' (ap (λ w. w.dev) (sym c) ∙ r) (ap (λ w. w.inum) (sym c) ∙ s) n c'
                (a k z' ez))
        ]
        | inr (b, c) ↦ elim cz [
          | inl (b', c') ↦ absurd (
              taken y y' (ap (λ w. w.dev) (sym c') ∙ sym r) (ap (λ w. w.inum) (sym c') ∙ sym s) m c
                (a j y' ey))
          | inr (b', c') ↦
              u j k y' z' ey ez (subst (λ w. 0 < w.ref) c m) (subst (λ w. 0 < w.ref) c' n)
                (ap (λ w. w.dev) (sym c) ∙ r ∙ ap (λ w. w.dev) c')
                (ap (λ w. w.inum) (sym c) ∙ s ∙ ap (λ w. w.inum) c')
        ]
      ]
    where
      taken :
          (z w : Inode)
          → dev ≡ z.dev
          → inum ≡ z.inum
          → 0 < z.ref
          → z ≡ w
          → is_inode dev inum w ≡ false
          → ⊥
      taken z w p q l e h =
          clash (held z p q l) (subst (λ v. is_inode dev inum v ≡ false) (sym e) h)
        where
          clash : {s : Bool} → s ≡ true → s ≡ false → ⊥
          clash p q = cc

          held : (z : Inode) → dev ≡ z.dev → inum ≡ z.inum → 0 < z.ref → is_inode dev inum z ≡ true
          held z p q l = ground arith

  iget_cached :
      (t : List Inode) (i : ℕ)
      → scan_icache dev inum t 0 none ≡ cached i
      → iget dev inum t ≡ some (i, modify t i add_inode_ref)
  unfolding iget
  iget_cached t i e = rw (iget, e) refl

  iget_vacant :
      (t : List Inode) (i : ℕ)
      → scan_icache dev inum t 0 none ≡ vacant i
      → iget dev inum t ≡ some (i, modify t i (recycle_inode dev inum))
  unfolding iget
  iget_vacant t i e = rw (iget, e) refl

  iget_full : (t : List Inode) → scan_icache dev inum t 0 none ≡ full → iget dev inum t ≡ none
  unfolding iget
  iget_full t e = rw (iget, e) refl

  -- On a table in which no two slots in use hold one inode, `iget` panics only if no slot holds the
  -- inode and every slot is in use. Else its slot holds the inode, with one reference more than the
  -- slot had; the copy of an inode that was in the cache stays as it was, a new one is not valid and
  -- takes a slot that was not in use; the other slots are as they were; and still no two slots in
  -- use hold one inode.
  pub iget_lem : (t : List Inode) → Unique t → IgetPost t (iget dev inum t)
  iget_lem t u = by_scan (scan_icache dev inum t 0 none) refl (scan_lem dev inum t 0 none)
    where
      by_scan :
          (s : Scan)
          → scan_icache dev inum t 0 none ≡ s
          → Scanned dev inum t 0 none s
          → IgetPost t (iget dev inum t)
      by_scan (cached i) e p =
          let (x, g, h) = Slot-there _ t i p in
          subst (IgetPost t) (sym (iget_cached t i e))
            (hit_Got t i x g h, Unique-hit t i x g (held_parts x h).0 u)
      by_scan (vacant i) e (a, inl q) = absurd cc
      by_scan (vacant i) e (a, inr p) =
          let (x, g, z) = Slot-there _ t i p in
          subst (IgetPost t) (sym (iget_vacant t i e)) (miss_Got t i x g z a, Unique-miss t i a u)
      by_scan full e (a, q, p) = subst (IgetPost t) (sym (iget_full t e)) (a, p)

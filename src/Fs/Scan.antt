-- ===== src/Fs/Scan.antt =====
-- What the loop of `iget` finds.
use operating_systems_work.Base.{
  ℕ, zero, suc, ◌+◌, ◌≡◌, ◌≢◌, refl, ap, subst, ◌∙◌, Bool, true, false, Option, none, some, List,
  [], ◌∷◌, ◌==◌, inl, inr, ◌⊎◌, Bool-cases, arith, get_elem?, if◌then◌else◌,
}
use operating_systems_work.Fs.Inode.{Inode}
use operating_systems_work.Fs.Icache.{
  Scan, cached, vacant, full, is_inode, remember, scan_end, scan_icache,
}

-- No slot in use holds the inode.
abbrev pub IsAbsent : ℕ → ℕ → List Inode → Type 0
IsAbsent dev inum t = (k : ℕ) (x : Inode) → get_elem? t k ≡ some x → is_inode dev inum x ≡ false

-- A slot `b + k` of the table whose slots from `b` on are `t`.
abbrev pub Slot : (Inode → Type 0) → List Inode → ℕ → ℕ → Type 0
Slot P t b i = (k : ℕ) × (i ≡ b + k) × (x : Inode) × (get_elem? t k ≡ some x) × P x

pub Slot-there :
    (P : Inode → Type 0) (t : List Inode) (i : ℕ)
    → Slot P t 0 i
    → (x : Inode) × (get_elem? t i ≡ some x) × P x
Slot-there P t i (k, e, x, h, p) = (x, subst (λ j. get_elem? t j ≡ some x) (omega arith) h, p)

module _ (dev inum : ℕ) where
  abbrev pub Scanned : List Inode → ℕ → Option ℕ → Scan → Type 0
  Scanned t b empty (cached i) = Slot (λ x. is_inode dev inum x ≡ true) t b i
  Scanned t b empty (vacant i) =
      IsAbsent dev inum t × ((empty ≡ some i) ⊎ Slot (λ x. x.ref ≡ 0) t b i)
  Scanned t b empty full =
      IsAbsent dev inum t
      × (empty ≡ none)
      × ((k : ℕ) (x : Inode) → get_elem? t k ≡ some x → x.ref ≢ 0)

  end_Scanned : (b : ℕ) (empty : Option ℕ) → Scanned [] b empty (scan_end empty)
  end_Scanned b none = (λ k x h. absurd cc, refl, λ k x h. absurd cc)
  end_Scanned b (some e) = (λ k x h. absurd cc, inl refl)

  next_Slot :
      (P : Inode → Type 0) (y : Inode) (t : List Inode) (b i : ℕ)
      → Slot P t (b + 1) i
      → Slot P (y ∷ t) b i
  next_Slot P y t b i (k, e, x, h, p) = (suc k, omega arith, x, h, p)

  next-IsAbsent :
      (y : Inode) (t : List Inode)
      → is_inode dev inum y ≡ false
      → IsAbsent dev inum t
      → IsAbsent dev inum (y ∷ t)
  next-IsAbsent y t h a zero x e = subst (λ z. is_inode dev inum z ≡ false) (head_eq e) h
    where
      head_eq : {z : Inode} → some y ≡ some z → y ≡ z
      head_eq q = cc
  next-IsAbsent y t h a (suc k) x e = a k x e

  next_busy :
      (y : Inode) (t : List Inode)
      → y.ref ≢ 0
      → ((k : ℕ) (x : Inode) → get_elem? t k ≡ some x → x.ref ≢ 0)
      → (k : ℕ) (x : Inode) → get_elem? (y ∷ t) k ≡ some x
      → x.ref ≢ 0
  next_busy y t n q zero x e z = n (ap (λ w. w.ref) (head_eq e) ∙ z)
    where
      head_eq : {z : Inode} → some y ≡ some z → y ≡ z
      head_eq q = cc
  next_busy y t n q (suc k) x e z = q k x e z

  next_Scanned :
      (y : Inode) (t : List Inode) (b : ℕ) (empty : Option ℕ) (s : Scan)
      → is_inode dev inum y ≡ false
      → Scanned t (b + 1) (remember empty b y) s
      → Scanned (y ∷ t) b empty s
  next_Scanned y t b empty (cached i) h p = next_Slot _ y t b i p
  next_Scanned y t b empty (vacant i) h (a, inr p) =
      (next-IsAbsent y t h a, inr (next_Slot _ y t b i p))
  next_Scanned y t b (some e) (vacant i) h (a, inl p) = (next-IsAbsent y t h a, inl p)
  next_Scanned y t b none (vacant i) h (a, inl p) =
      (next-IsAbsent y t h a, inr (0, ground arith, y, refl, ground arith))
  next_Scanned y t b (some e) full h (a, p, q) = absurd cc
  next_Scanned y t b none full h (a, p, q) =
      (next-IsAbsent y t h a, refl, next_busy y t (λ z. filled (y.ref == 0) p (ground arith)) q)
    where
      filled : (s : Bool) → (if s then some b else none) ≡ none → s ≡ true → ⊥
      filled true e h = cc
      filled false e h = cc

  pub scan_lem :
      (t : List Inode) (b : ℕ) (empty : Option ℕ)
      → Scanned t b empty (scan_icache dev inum t b empty)
  unfolding scan_icache
  scan_lem [] b empty = end_Scanned b empty
  scan_lem (y ∷ t) b empty = elim (Bool-cases (is_inode dev inum y)) [
    | inl e ↦ rw (e, scan_icache) (0, omega arith, y, refl, e)
    | inr e ↦
        rw (e, scan_icache) (next_Scanned y t b empty _ e (scan_lem t (b + 1) (remember empty b y)))
  ]

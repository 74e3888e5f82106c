-- ===== src/Files/References.antt =====
-- The reference counts of open files.
use operating_systems_work.Base.{
  ℕ, zero, suc, ◌+◌, ◌-◌, ◌<◌, ◌≡◌, ◌≢◌, refl, sym, ap, subst, ◌∙◌, false, Option, none, some, List,
  [], ◌∷◌, ◌==◌, ltb, if◌then◌else◌, modify, get_or, get_elem?, inl, inr, ◌⊎◌, Bool-cases,
  Option-cases, arith, get_elem?-modify_inv, get_or_of_get_elem?, get_elem?-modify_self,
  get_elem?-modify_ne, ℕ_discrete,
}
use operating_systems_work.Files.{
  File, no_file, find_file, first_ref, filealloc, one_more, filedup, one_less, clear, fileclose,
}

-- The table, and the file of each reference that someone holds.
pub record Open : Type 0 where
  pub table : List File
  pub held : List ℕ

abbrev pub without : List ℕ → ℕ → List ℕ
without [] k = []
without (x ∷ xs) zero = xs
without (x ∷ xs) (suc k) = x ∷ without xs k

-- A new file, and a copy or the end of a reference that someone holds.
pub data Step (s : Open) : Open → Type 0 where
  opens :
      (i : ℕ) (t : List File)
      → filealloc s.table ≡ some (i, t)
      → Step s (record { table = t; held = i ∷ s.held })
  dups :
      (k i : ℕ) (t : List File)
      → get_elem? s.held k ≡ some i
      → filedup i s.table ≡ some t
      → Step s (record { table = t; held = i ∷ s.held })
  closes :
      (k i : ℕ) (last : Option File) (t : List File)
      → get_elem? s.held k ≡ some i
      → fileclose i s.table ≡ some (last, t)
      → Step s (record { table = t; held = without s.held k })

pub data Reach (s : Open) : Open → Type 0 where
  here : Reach s s
  next : {t u : Open} → Reach s t → Step t u → Reach s u

abbrev pub count : ℕ → List ℕ → ℕ
count i [] = 0
count i (x ∷ xs) = if x == i then count i xs + 1 else count i xs

-- Every count is the number of references that are held, and these are to files of the table.
pub record Counted (s : Open) : Type 0 where
  pub exact : (i : ℕ) (f : File) → get_elem? s.table i ≡ some f → f.ref ≡ count i s.held
  pub inside : (k i : ℕ) → get_elem? s.held k ≡ some i → (f : File) × (get_elem? s.table i ≡ some f)

count_pos : (xs : List ℕ) (k i : ℕ) → get_elem? xs k ≡ some i → 0 < count i xs
count_pos [] k i h = absurd (ground arith)
count_pos (x ∷ xs) zero i h = ground arith
count_pos (x ∷ xs) (suc k) i h = ground (arith, count_pos xs k i h)

pub count-without :
    (xs : List ℕ) (k i j : ℕ)
    → get_elem? xs k ≡ some i
    → count j (without xs k) + (if i == j then 1 else 0) ≡ count j xs
count-without [] k i j h = absurd (ground arith)
count-without (x ∷ xs) zero i j h = ground arith
count-without (x ∷ xs) (suc k) i j h = ground (arith, count-without xs k i j h)

pub without_inv :
    (xs : List ℕ) (k l : ℕ) {i : ℕ}
    → get_elem? (without xs k) l ≡ some i
    → (m : ℕ) × (get_elem? xs m ≡ some i)
without_inv [] k l h = (l, h)
without_inv (x ∷ xs) zero l h = (suc l, h)
without_inv (x ∷ xs) (suc k) zero h = (0, h)
without_inv (x ∷ xs) (suc k) (suc l) h = let (m, e) = without_inv xs k l h in (suc m, e)

pub find_file-some :
    (t : List File) (i : ℕ)
    → find_file t ≡ some i
    → (f : File) × (get_elem? t i ≡ some f) × (f.ref ≡ 0)
unfolding find_file
find_file-some [] i h = absurd (ground arith)
find_file-some (f ∷ fs) i h = elim (Bool-cases (f.ref == 0)) [
  | inl e ↦
      (let h' : some 0 ≡ some i = rw (e, find_file) at h in
        let q : i ≡ 0 = ground arith in rw q (f, refl, ground arith))
  | inr e ↦ elim (Option-cases (find_file fs)) [
    | inl n ↦ absurd (let h' : none ≡ some i = rw (e, n, find_file) at h in cc)
    | inr (j, n) ↦
        (let h' : some (j + 1) ≡ some i = rw (e, n, find_file) at h in
          let q : i ≡ suc j = ground arith in rw q (find_file-some fs j n))
  ]
]

-- A file that someone holds has a positive count, which is that of the references.
pub held_ref :
    (s : Open) (k i : ℕ)
    → Counted s
    → get_elem? s.held k ≡ some i
    → (0 < (get_or s.table i no_file).ref) × ((get_or s.table i no_file).ref ≡ count i s.held)
held_ref s k i v h =
    let (f, e) = v.inside k i h in
    let q = get_or_of_get_elem? s.table i no_file e in
    rw q (omega (arith, v.exact i f e, count_pos s.held k i h), v.exact i f e)

-- A change of slot `i` that follows the change of the references.
pub Counted-modify :
    (s : Open) (i : ℕ) (g : File → File) (held : List ℕ)
    → Counted s
    → ((f : File)
        → get_elem? s.table i ≡ some f
        → f.ref ≡ count i s.held
        → (g f).ref ≡ count i held)
    → ((j : ℕ) → i ≢ j → count j held ≡ count j s.held)
    → ((k j : ℕ)
        → get_elem? held k ≡ some j
        → (f : File) × (get_elem? (modify s.table i g) j ≡ some f))
    → Counted (record { table = modify s.table i g; held = held })
Counted-modify s i g held v own other inside = record {
  exact = λ j f e.
      let (x, d, c) = get_elem?-modify_inv s.table i g j e in
      elim c [
        | inl (a, b) ↦
            rw (← a, b)
              (own x (subst (λ y. get_elem? s.table y ≡ some x) (sym a) d)
                (v.exact i x (subst (λ y. get_elem? s.table y ≡ some x) (sym a) d)))
        | inr (a, b) ↦ rw b (v.exact j x d ∙ sym (other j a))
      ];
  inside = inside;
}

pub still_there :
    (t : List File) (i j : ℕ) (g : File → File) (f : File)
    → get_elem? t j ≡ some f
    → (x : File) × (get_elem? (modify t i g) j ≡ some x)
still_there t i j g f h = elim (ℕ_discrete i j) [
  | yes e ↦ (
    g f,
    subst (λ y. get_elem? (modify t i g) y ≡ some (g f)) e
        (get_elem?-modify_self t i g (subst (λ y. get_elem? t y ≡ some f) (sym e) h)),
  )
  | no n ↦ (f, get_elem?-modify_ne t i j g n ∙ h)
]

-- What the three calls do to the table when they return.
pub alloc_inv :
    (t : List File) (i : ℕ) (u : List File)
    → filealloc t ≡ some (i, u)
    → (find_file t ≡ some i) × (u ≡ modify t i first_ref)
unfolding filealloc
alloc_inv t i u h = elim (Option-cases (find_file t)) [
  | inl e ↦ absurd (let h' : none ≡ some (i, u) = rw (e, filealloc) at h in cc)
  | inr (j, e) ↦
      (let h' : some (j, modify t j first_ref) ≡ some (i, u) = rw (e, filealloc) at h in
        let q : (j, modify t j first_ref) ≡ (i, u) = inj h' in
        let a : j ≡ i = ap (λ r. r.0) q in
        (e ∙ ap some a, sym (ap (λ r. r.1) q) ∙ ap (λ y. modify t y first_ref) a))
]
  where
    inj : {a b : ℕ × List File} → some a ≡ some b → a ≡ b
    inj h = ground arith

pub dup_inv :
    (t : List File) (i : ℕ) (u : List File) → filedup i t ≡ some u → u ≡ modify t i one_more
unfolding filedup
dup_inv t i u h = elim (Bool-cases (ltb (get_or t i no_file).ref 1)) [
  | inl e ↦ absurd (let h' : none ≡ some u = rw (e, filedup) at h in cc)
  | inr e ↦ (let h' : some (modify t i one_more) ≡ some u = rw (e, filedup) at h in inj h')
]
  where
    inj : {a b : List File} → some a ≡ some b → b ≡ a
    inj h = ground arith

-- `fileclose` of a file with references: it panics in no case, and returns the file if there was
-- one reference only.
pub close_lem :
    (t : List File) (i : ℕ)
    → 0 < (get_or t i no_file).ref
    → ((1 < (get_or t i no_file).ref) × (fileclose i t ≡ some (none, modify t i one_less)))
      ⊎ (((get_or t i no_file).ref ≡ 1)
          × (fileclose i t ≡ some (some (get_or t i no_file), modify t i clear)))
unfolding fileclose
close_lem t i h = elim (Bool-cases (ltb 0 ((get_or t i no_file).ref - 1))) [
  | inl e ↦
      (let a : ltb (get_or t i no_file).ref 1 ≡ false = ground arith in
        inl (ground arith, rw (a, e) refl))
  | inr e ↦
      (let a : ltb (get_or t i no_file).ref 1 ≡ false = ground arith in
        inr (ground arith, rw (a, e) refl))
]

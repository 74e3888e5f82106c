-- ===== src/Proc/Find.antt =====
-- What the searches through the process table return.
use mathlib.Core.Option
use operating_systems_work.Base.{
  ℕ, zero, suc, ◌+◌, ◌<◌, ◌≡◌, refl, ap, ◌∙◌, Bool, true, false, ◌&&◌, ◌||◌, ◌⊎◌, inl, inr, Option,
  none, some, List, [], ◌∷◌, get_elem?, arith, Bool-cases, Option-cases, ◌==◌, if◌then◌else◌,
}
use operating_systems_work.Proc.Types.{is_unused, is_zombie, Proc}
use operating_systems_work.Proc.Fork.{find_unused}
use operating_systems_work.Proc.Exit.{find_pid, is_child}
use operating_systems_work.Proc.Wait.{scan}

-- Slot `i` holds a process with the property, and no slot before it does.
pub record First (test : Proc → Bool) (t : List Proc) (i : ℕ) : Type 0 where
  pub at_slot : Proc
  pub here : get_elem? t i ≡ some at_slot
  pub passes : test at_slot ≡ true
  pub before : (j : ℕ) (q : Proc) → j < i → get_elem? t j ≡ some q → test q ≡ false

-- No slot has the property.
abbrev pub Nowhere : (Proc → Bool) → List Proc → Type 0
Nowhere test t = (i : ℕ) (q : Proc) → get_elem? t i ≡ some q → test q ≡ false

module _ (test : Proc → Bool) where
  -- The loop that both searches are.
  pub find : List Proc → Option ℕ
  find [] = none
  find (p ∷ ps) = if test p then some 0 else Option.map (λ i. i + 1) (find ps)

  First-zero : (p : Proc) (ps : List Proc) → test p ≡ true → First test (p ∷ ps) 0
  First-zero p ps h = record {
    at_slot = p;
    here = refl;
    passes = h;
    before = λ j q l e. elim l [ ];
  }

  First-suc :
      (p : Proc) (ps : List Proc) (i : ℕ)
      → test p ≡ false
      → First test ps i
      → First test (p ∷ ps) (suc i)
  First-suc p ps i h f = record {
    at_slot = f.at_slot;
    here = f.here;
    passes = f.passes;
    before = before;
  }
    where
      before : (j : ℕ) (q : Proc) → j < suc i → get_elem? (p ∷ ps) j ≡ some q → test q ≡ false
      before zero q l e = ground arith
      before (suc j) q l e = f.before j q (omega arith) e

  pub find-some : (t : List Proc) (i : ℕ) → find t ≡ some i → First test t i
  unfolding find
  find-some [] i h = absurd (ground arith)
  find-some (p ∷ ps) i h = elim (Bool-cases (test p)) [
    | inl y ↦ (let e : i ≡ 0 = ground arith in rw e (First-zero p ps y))
    | inr n ↦ elim (Option-cases (find ps)) [
      | inl e ↦ absurd (ground arith)
      | inr (j, e) ↦
          (let s : i ≡ suc j = ground arith in rw s (First-suc p ps j n (find-some ps j e)))
    ]
  ]

  pub find-none : (t : List Proc) → find t ≡ none → Nowhere test t
  unfolding find
  find-none [] h i q e = absurd (ground arith)
  find-none (p ∷ ps) h zero q e = ground arith
  find-none (p ∷ ps) h (suc i) q e = find-none ps (ground arith) i q e

find_unused-eq-find : (t : List Proc) → find_unused t ≡ find (λ p. is_unused p.state) t
unfolding find find_unused
find_unused-eq-find [] = refl
find_unused-eq-find (p ∷ ps) = rw (find_unused-eq-find ps)

find_pid-eq-find : (n : ℕ) (t : List Proc) → find_pid n t ≡ find (λ p. p.pid == n) t
unfolding find find_pid
find_pid-eq-find n [] = refl
find_pid-eq-find n (p ∷ ps) = rw (find_pid-eq-find n ps)

pub find_unused-some :
    (t : List Proc) (i : ℕ) → find_unused t ≡ some i → First (λ p. is_unused p.state) t i
find_unused-some t i h = find-some _ t i (rw (← find_unused-eq-find t) h)

pub find_pid-some :
    (n : ℕ) (t : List Proc) (i : ℕ) → find_pid n t ≡ some i → First (λ p. p.pid == n) t i
find_pid-some n t i h = find-some _ t i (rw (← find_pid-eq-find n t) h)

pub find_pid-none : (n : ℕ) (t : List Proc) → find_pid n t ≡ none → Nowhere (λ p. p.pid == n) t
find_pid-none n t h = find-none _ t (rw (← find_pid-eq-find n t) h)

abbrev pub dead_child : ℕ → Proc → Bool
dead_child cur p = is_child cur p && is_zombie p.state

-- `scan` is that loop too, and `havekids` says whether there is a child.
scan-eq-find :
    (cur : ℕ) (t : List Proc) (i : ℕ) (h : Bool)
    → (scan cur t i h).0 ≡ Option.map (λ j. j + i) (find (dead_child cur) t)
unfolding scan find
scan-eq-find cur [] i h = refl
scan-eq-find cur (p ∷ ps) i h = elim (Bool-cases (dead_child cur p)) [
  | inl e ↦ rw e (ap some (omega arith))
  | inr e ↦ rw e (scan-eq-find cur ps (i + 1) _ ∙ shift (find (dead_child cur) ps))
]
  where
    shift :
        (o : Option ℕ)
        → Option.map (λ j. j + (i + 1)) o ≡ Option.map (λ j. j + i) (Option.map (λ j. j + 1) o)
    shift none = refl
    shift (some j) = ap some (omega arith)

pub scan-some :
    (cur : ℕ) (t : List Proc) (i : ℕ) → (scan cur t 0 false).0 ≡ some i → First (dead_child cur) t i
scan-some cur t i h =
    find-some _ t i (strip (find (dead_child cur) t) (rw (← scan-eq-find cur t 0 false) h))
  where
    strip : (o : Option ℕ) → Option.map (λ j. j + 0) o ≡ some i → o ≡ some i
    strip none e = cc
    strip (some j) e = ground arith

pub scan-none :
    (cur : ℕ) (t : List Proc) → (scan cur t 0 false).0 ≡ none → Nowhere (dead_child cur) t
scan-none cur t h =
    find-none _ t (strip (find (dead_child cur) t) (rw (← scan-eq-find cur t 0 false) h))
  where
    strip : (o : Option ℕ) → Option.map (λ j. j + 0) o ≡ none → o ≡ none
    strip none e = refl
    strip (some j) e = cc

-- A round that finds no zombie child says in `havekids` whether there was one before or is one.
havekids_from :
    (cur : ℕ) (t : List Proc) (i : ℕ) (h : Bool)
    → (scan cur t i h).0 ≡ none
    → ((scan cur t i h).1 ≡ false → (h ≡ false) × Nowhere (is_child cur) t)
      × ((scan cur t i h).1 ≡ true
          → (h ≡ true)
            ⊎ ((j : ℕ) × (p : Proc) × (get_elem? t j ≡ some p) × (is_child cur p ≡ true)))
unfolding scan
havekids_from cur [] i h e = (λ f. (f, λ j q g. absurd (ground arith)), λ f. inl f)
havekids_from cur (p ∷ ps) i h e = elim (Bool-cases (dead_child cur p)) [
  | inl d ↦ absurd (let e' : some i ≡ none = rw d at e in cc)
  | inr d ↦
      (let e' : (scan cur ps (i + 1) (is_child cur p || h)).0 ≡ none = rw d at e in
        let ih = havekids_from cur ps (i + 1) (is_child cur p || h) e' in
        rw d (none_of ih.0, some_of ih.1))
]
  where
    none_of :
        ((scan cur ps (i + 1) (is_child cur p || h)).1 ≡ false
          → ((is_child cur p || h) ≡ false) × Nowhere (is_child cur) ps)
        → (scan cur ps (i + 1) (is_child cur p || h)).1 ≡ false
        → (h ≡ false) × Nowhere (is_child cur) (p ∷ ps)
    none_of ih f = (ground (arith, ih f), all)
      where
        all : Nowhere (is_child cur) (p ∷ ps)
        all zero q g = ground (arith, ih f)
        all (suc j) q g = (ih f).1 j q g

    some_of :
        ((scan cur ps (i + 1) (is_child cur p || h)).1 ≡ true
          → ((is_child cur p || h) ≡ true)
            ⊎ ((j : ℕ) × (q : Proc) × (get_elem? ps j ≡ some q) × (is_child cur q ≡ true)))
        → (scan cur ps (i + 1) (is_child cur p || h)).1 ≡ true
        → (h ≡ true)
          ⊎ ((j : ℕ) × (q : Proc) × (get_elem? (p ∷ ps) j ≡ some q) × (is_child cur q ≡ true))
    some_of ih f = elim (ih f) [
      | inr (j, q, g, c) ↦ inr (suc j, q, g, c)
      | inl o ↦ elim (Bool-cases (is_child cur p)) [
        | inl c ↦ inr (0, p, refl, c)
        | inr c ↦ inl (ground arith)
      ]
    ]

pub havekids_lem :
    (cur : ℕ) (t : List Proc)
    → (scan cur t 0 false).0 ≡ none
    → ((scan cur t 0 false).1 ≡ false → Nowhere (is_child cur) t)
      × ((scan cur t 0 false).1 ≡ true
          → (j : ℕ) × (p : Proc) × (get_elem? t j ≡ some p) × (is_child cur p ≡ true))
havekids_lem cur t e =
    let h = havekids_from cur t 0 false e in
    (λ f. (h.0 f).1, λ f. elim (h.1 f) [ inl b ↦ absurd (ground arith) | inr w ↦ w ])

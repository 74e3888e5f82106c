-- ===== src/Pages/Holding.antt =====
-- The pages that the callers of `kalloc` hold.
use operating_systems_work.Base.{
  ℕ, ◌+◌, ◌<◌, ◌≤◌, ◌≡◌, ◌≢◌, ◌⊎◌, refl, sym, ap, ◌∙◌, subst, false, some, List, [], ◌∷◌, ◌==◌,
  if◌then◌else◌, arith, Bool-cases, inl, inr,
}
use operating_systems_work.Pages.{Kmem, page_size, kfree, kalloc}
use operating_systems_work.Pages.Chain.{IsPage, Absent, Chain, Chain-other, kfree-Chain}

pub record Memory : Type 0 where
  pub k : Kmem
  pub held : List ℕ

abbrev pub IsHeld : ℕ → List ℕ → Type 0
IsHeld v [] = ⊥
IsHeld v (p ∷ ps) = (v ≡ p) ⊎ IsHeld v ps

abbrev pub Distinct : List ℕ → Type 0
Distinct [] = Unit
Distinct (p ∷ ps) = Absent p ps × Distinct ps

unfoldable pub drop_page : ℕ → List ℕ → List ℕ
drop_page v [] = []
drop_page v (p ∷ ps) = let rest = drop_page v ps in if p == v then ps else p ∷ rest

-- A page is handed out; one that is held is freed; or its holder writes a word into it.
pub data Step (end : ℕ) (s : Memory) : Memory → Type 0 where
  allocs :
      (kalloc s.k).0 ≢ 0
      → Step end s (record { k = (kalloc s.k).1; held = (kalloc s.k).0 ∷ s.held })
  frees :
      (v : ℕ) (k' : Kmem)
      → IsHeld v s.held
      → kfree end v s.k ≡ some k'
      → Step end s (record { k = k'; held = drop_page v s.held })
  writes :
      (v a x : ℕ)
      → IsHeld v s.held
      → v ≤ a
      → a < v + page_size
      → Step end s (record s { k = record (s.k) { word = λ b. if b == a then x else s.k.word b } })

pub data Reach (end : ℕ) (s : Memory) : Memory → Type 0 where
  here : Reach end s s
  next : {t u : Memory} → Reach end s t → Step end t u → Reach end s u

-- The free list is sound, and no page is held twice or held and free.
pub record IsSafe (end : ℕ) (s : Memory) : Type 0 where
  pub free : List ℕ
  pub chain : Chain end s.k.word s.k.freelist free
  pub pages : (v : ℕ) → IsHeld v s.held → IsPage end v × Absent v free
  pub distinct : Distinct s.held

Absent-held : (p : ℕ) (ps : List ℕ) → ((v : ℕ) → IsHeld v ps → v ≢ p) → Absent p ps
Absent-held p [] h = tt
Absent-held p (q ∷ qs) h = ((λ e. h q (inl refl) (sym e)), Absent-held p qs (λ v k. h v (inr k)))

Absent-IsHeld : (p v : ℕ) (ps : List ℕ) → Absent p ps → IsHeld v ps → v ≢ p
Absent-IsHeld p v [] a h e = h
Absent-IsHeld p v (q ∷ qs) (n, a) (inl r) e = n (sym e ∙ r)
Absent-IsHeld p v (q ∷ qs) (n, a) (inr h) e = Absent-IsHeld p v qs a h e

-- What is held after a page is dropped.
IsHeld-drop_page :
    (v u : ℕ) (ps : List ℕ) → Distinct ps → IsHeld u (drop_page v ps) → IsHeld u ps × (u ≢ v)
unfolding drop_page
IsHeld-drop_page v u [] d h = absurd h
IsHeld-drop_page v u (p ∷ ps) (a, d) h = elim (Bool-cases (p == v)) [
  | inl e ↦
      (let k : IsHeld u ps = rw e at h in
        let q : p ≡ v = ground arith in (inr k, λ r. Absent-IsHeld p u ps a k (r ∙ sym q)))
  | inr e ↦
      (let k : IsHeld u (p ∷ drop_page v ps) = rw e at h in
        elim k [
          | inl r ↦ (inl r, λ q. ground arith)
          | inr r ↦ (let (m, n) = IsHeld-drop_page v u ps d r in (inr m, n))
        ])
]

Absent-drop_page : (q v : ℕ) (ps : List ℕ) → Absent q ps → Absent q (drop_page v ps)
unfolding drop_page
Absent-drop_page q v [] a = tt
Absent-drop_page q v (p ∷ ps) (n, a) = elim (Bool-cases (p == v)) [
  | inl e ↦ rw e a
  | inr e ↦ rw e (n, Absent-drop_page q v ps a)
]

Distinct-drop_page : (v : ℕ) (ps : List ℕ) → Distinct ps → Distinct (drop_page v ps)
unfolding drop_page
Distinct-drop_page v [] d = tt
Distinct-drop_page v (p ∷ ps) (a, d) = elim (Bool-cases (p == v)) [
  | inl e ↦ rw e d
  | inr e ↦ rw e (Absent-drop_page p v ps a, Distinct-drop_page v ps d)
]

-- `kalloc` takes the first page of the list, and gives 0 exactly if there is none.
kalloc_none : (k : Kmem) → k.freelist ≡ 0 → (kalloc k).0 ≡ 0
unfolding kalloc
kalloc_none k e = ground arith

kalloc_some :
    (k : Kmem) (p : ℕ)
    → k.freelist ≡ p
    → p ≢ 0
    → ((kalloc k).0 ≡ p) × ((kalloc k).1.word ≡ k.word) × ((kalloc k).1.freelist ≡ k.word p)
unfolding kalloc
kalloc_some k p e n =
    (let t : (k.freelist == 0) ≡ false = ground arith in rw (kalloc, t) (e, refl, ap k.word e))

alloc-IsSafe :
    (end : ℕ) (s : Memory) (free : List ℕ)
    → Chain end s.k.word s.k.freelist free
    → ((v : ℕ) → IsHeld v s.held → IsPage end v × Absent v free)
    → Distinct s.held
    → (kalloc s.k).0 ≢ 0
    → IsSafe end (record { k = (kalloc s.k).1; held = (kalloc s.k).0 ∷ s.held })
alloc-IsSafe end s [] c v d n = absurd (n (kalloc_none s.k c))
alloc-IsSafe end s (p ∷ ps) (e, g, u, c) v d n =
    let (a, w, l) = kalloc_some s.k p e g.nonzero in
    record {
      free = ps;
      chain =
          subst (λ x. Chain end x (kalloc s.k).1.freelist ps) (sym w)
            (subst (λ x. Chain end s.k.word x ps) (sym l) c);
      pages = λ q h. elim h [
        | inl r ↦ (subst (IsPage end) (sym (r ∙ a)) g, subst (λ x. Absent x ps) (sym (r ∙ a)) u)
        | inr r ↦ ((v q r).0, (v q r).1.1)
      ];
      distinct =
          (subst (λ x. Absent x s.held) (sym a) (Absent-held p s.held (λ q h. (v q h).1.0)), d);
    }

step-IsSafe : (end : ℕ) (s t : Memory) → IsSafe end s → Step end s t → IsSafe end t
step-IsSafe end s t v (allocs n) = alloc-IsSafe end s v.free v.chain v.pages v.distinct n
step-IsSafe end s t v (writes p a x h l g) = record {
  free = v.free;
  chain =
      Chain-other end p s.k.word (λ b. if b == a then x else s.k.word b) (v.pages p h).0.aligned
        (λ b o. ground arith) s.k.freelist v.free (v.pages p h).1 v.chain;
  pages = v.pages;
  distinct = v.distinct;
}
step-IsSafe end s t v (frees p k' h e) =
    let (k₂, e₂, c, o) = kfree-Chain end s.k v.free v.chain p (v.pages p h).0 (v.pages p h).1 in
    record {
      free = p ∷ v.free;
      chain =
          subst (λ (x : Kmem). Chain end x.word x.freelist (p ∷ v.free)) (same k₂ (sym e₂ ∙ e)) c;
      pages = λ q r.
          let (m, n) = IsHeld-drop_page p q s.held v.distinct r in
          ((v.pages q m).0, (n, (v.pages q m).1));
      distinct = Distinct-drop_page p s.held v.distinct;
    }
  where
    same : (k₂ : Kmem) → some k₂ ≡ some k' → k₂ ≡ k'
    same k₂ h = ground arith

Reach-IsSafe : (end : ℕ) (s t : Memory) → IsSafe end s → Reach end s t → IsSafe end t
Reach-IsSafe end s t v here = v
Reach-IsSafe end s t v (next {t = u} r a) = step-IsSafe end u t (Reach-IsSafe end s u v r) a

-- From a sound free list and no pages held, in every run of `kalloc`, `kfree` of held pages, and
-- writes of the holders into their pages: no page is held twice, `kalloc` never gives a page that
-- is held, and `kfree` of a page that is held does not panic.
pub no_page_twice :
    (end : ℕ) (k : Kmem) (free : List ℕ) (t : Memory)
    → Chain end k.word k.freelist free
    → Reach end (record { k = k; held = [] }) t
    → Distinct t.held
      × ((v : ℕ)
          → IsHeld v t.held
          → ((kalloc t.k).0 ≢ v) × ((k' : Kmem) × (kfree end v t.k ≡ some k')))
no_page_twice end k free t c r =
    let w =
      Reach-IsSafe end (record { k = k; held = [] }) t
        (record { free = free; chain = c; pages = λ v h. absurd h; distinct = tt }) r in
    (
      w.distinct,
      λ v h. (
        other v (w.pages v h).0 w.free w.chain (w.pages v h).1,
        (let (k', e, x, y) = kfree-Chain end t.k w.free w.chain v (w.pages v h).0 (w.pages v h).1 in
            (k', e)),
      ),
    )
  where
    other :
        (v : ℕ)
        → IsPage end v
        → (ps : List ℕ) → Chain end t.k.word t.k.freelist ps
        → Absent v ps
        → (kalloc t.k).0 ≢ v
    other v g [] c n e = g.nonzero (sym e ∙ kalloc_none t.k c)
    other v g (p ∷ ps) (h, q, u, c) (n, m) e = n (sym e ∙ (kalloc_some t.k p h q.nonzero).0)

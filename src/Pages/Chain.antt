-- ===== src/Pages/Chain.antt =====
-- The free list as a list of pages.
use operating_systems_work.Base.{
  ℕ, ◌+◌, ◌%◌, ◌<◌, ◌≤◌, ◌≡◌, ◌≢◌, ◌⊎◌, refl, sym, subst, false, ◌||◌, not, some, List, [], ◌∷◌,
  ◌==◌, ltb, leb, if◌then◌else◌, arith, Bool-cases, inl, inr,
}
use operating_systems_work.Pages.{Kmem, page_size, phys_stop, v2p, junk, kfree}

-- An address that `kfree` takes.
pub record IsPage (end v : ℕ) : Type 0 where
  pub aligned : v % page_size ≡ 0
  pub after_kernel : end ≤ v
  pub below : v2p v < phys_stop
  pub nonzero : v ≢ 0

abbrev pub Absent : ℕ → List ℕ → Type 0
Absent v [] = Unit
Absent v (p ∷ ps) = (v ≢ p) × Absent v ps

-- The list from `head` on has the pages `ps`, none of them twice.
abbrev pub Chain : ℕ → (ℕ → ℕ) → ℕ → List ℕ → Type 0
Chain end word head [] = head ≡ 0
Chain end word head (p ∷ ps) = (head ≡ p) × IsPage end p × Absent p ps × Chain end word (word p) ps

-- Changes in another page leave the list.
pub Chain-other :
    (end v : ℕ) (word word' : ℕ → ℕ)
    → v % page_size ≡ 0
    → ((a : ℕ) → (a < v) ⊎ (v + page_size ≤ a) → word' a ≡ word a)
    → (head : ℕ) (ps : List ℕ) → Absent v ps
    → Chain end word head ps
    → Chain end word' head ps
Chain-other end v word word' al h head [] n c = c
Chain-other end v word word' al h head (p ∷ ps) (ne, n) (e, g, u, c) = (
  e,
  g,
  u,
  subst (λ x. Chain end word' x ps) (sym (h p (apart g.aligned ne)))
      (Chain-other end v word word' al h (word p) ps n c),
)
  where
    apart : p % page_size ≡ 0 → v ≢ p → (p < v) ⊎ (v + page_size ≤ p)
    apart b ne = elim (Bool-cases (ltb p v)) [
      | inl t ↦ inl (ground arith)
      | inr t ↦ inr (let g : v ≤ p = ground arith in omega (arith, al, b, ne, g))
    ]

module _ (end : ℕ) (k : Kmem) (ps : List ℕ) (c : Chain end k.word k.freelist ps) where
  -- `kfree` of a page that is not in the list puts it in front.
  pub kfree-Chain :
      (v : ℕ)
      → IsPage end v
      → Absent v ps
      → (k' : Kmem) × (kfree end v k ≡ some k')
        × Chain end k'.word k'.freelist (v ∷ ps)
        × ((a : ℕ) → (a < v) ⊎ (v + page_size ≤ a) → k'.word a ≡ k.word a)
  unfolding kfree
  kfree-Chain v g n =
      let t : (not (v % page_size == 0) || ltb v end || leb phys_stop (v2p v)) ≡ false =
        test g.aligned g.after_kernel g.below in
      let w : ℕ → ℕ = λ a. if a == v then k.freelist else junk v k.word a in
      (
        record { word = w; freelist = v },
        rw t refl,
        (
          refl,
          g,
          n,
          subst (λ x. Chain end w x ps) (sym at_v)
              (Chain-other end v k.word w g.aligned outside k.freelist ps n c),
        ),
        outside,
      )
    where
      test :
          v % page_size ≡ 0
          → end ≤ v
          → v2p v < phys_stop
          → (not (v % page_size == 0) || ltb v end || leb phys_stop (v2p v)) ≡ false
      test a b c = ground arith

      at_v : (if v == v then k.freelist else junk v k.word v) ≡ k.freelist
      at_v = ground arith

      outside :
          (a : ℕ)
          → (a < v) ⊎ (v + page_size ≤ a)
          → (if a == v then k.freelist else junk v k.word a) ≡ k.word a
      outside a h = ground arith

-- ===== src/Quicksort/Exchange.antt =====
-- The exchange sort that quick_sort.c uses on ranges of at most five elements.
use operating_systems_work.Base.{
  ℕ, zero, suc, ◌+◌, ◌-◌, ◌<◌, ◌≤◌, ◌≡◌, ap, ◌∙◌, inl, inr, ltb, if◌then◌else◌, arith, dec_lt,
  Bool-cases,
}
use operating_systems_work.Quicksort.{Array, swap, sift, exchange}
use operating_systems_work.Quicksort.Rearrange.{
  Rearranged, Rearranged-refl, Rearranged-trans, Rearranged-wider, Rearranged-swap,
}

-- One round of the `j` loop.
abbrev round : ℕ → ℕ → Array → Array
round i j a = if ltb (a j) (a i) then swap i j a else a

round-Rearranged : (e i j : ℕ) (a : Array) → i < j → j < e → Rearranged i e a (round i j a)
round-Rearranged e i j a p q = elim (Bool-cases (ltb (a j) (a i))) [
  | inl h ↦ rw h (Rearranged-swap i e i j a (omega arith) (omega arith) (omega arith) q)
  | inr h ↦ rw h (Rearranged-refl i e a)
]

round_least :
    (i j : ℕ) (a : Array)
    → i < j
    → ((q : ℕ) → i < q → q < j → a i ≤ a q)
    → (q : ℕ) → i < q
    → q < j + 1
    → round i j a i ≤ round i j a q
unfolding swap
round_least i j a p least q h k = elim (dec_lt q j) [
  | yes u ↦ let le : a i ≤ a q = least q h u in ground arith
  | no u ↦ let e : q ≡ j = omega arith in ground arith
]

-- After the loop, index `i` holds a least element of the range from `i` on.
sift_least :
    (e i n j : ℕ) (a : Array)
    → i < j
    → j + n ≡ e
    → ((q : ℕ) → i < q → q < j → a i ≤ a q)
    → Rearranged i e a (sift i n j a) × ((q : ℕ) → i < q → q < e → sift i n j a i ≤ sift i n j a q)
unfolding sift
sift_least e i zero j a p s least = (Rearranged-refl i e a, λ q h k. least q h (omega arith))
sift_least e i (suc n) j a p s least =
    let (r, m) =
      sift_least e i n (j + 1) (round i j a) (omega arith) (omega arith)
        (round_least i j a p least) in
    (Rearranged-trans (round-Rearranged e i j a p (omega arith)) r, m)

-- The range is in order.
abbrev pub Ordered : ℕ → ℕ → Array → Type 0
Ordered l e a = (p q : ℕ) → l ≤ p → p ≤ q → q < e → a p ≤ a q

Ordered-first :
    {e i : ℕ} {a b : Array}
    → ((q : ℕ) → i < q → q < e → a i ≤ a q)
    → Rearranged (i + 1) e a b
    → Ordered (i + 1) e b
    → Ordered i e b
Ordered-first {e} {i} {a} {b} least r o p q h k m = elim (dec_lt i p) [
  | yes u ↦ o p q (omega arith) k m
  | no u ↦
      let ep : p ≡ i = omega arith in
      let first : b p ≡ a i = ap b ep ∙ r.reads i ∙ ap a (r.below i (omega arith)) in
      elim (dec_lt i q) [
        | yes v ↦
            let (lo, hi) = r.inside q (omega arith) m in
            omega (arith, first, r.reads q, least (r.to q) (omega arith) hi)
        | no v ↦ let eq : p ≡ q = omega arith in omega (arith, ap b eq)
      ]
]

pub exchange_sorts :
    (e n i : ℕ) (a : Array)
    → i + n + 1 ≡ e
    → Rearranged i e a (exchange e n i a) × Ordered i e (exchange e n i a)
unfolding exchange
exchange_sorts e zero i a s =
    (Rearranged-refl i e a, λ p q h k m. let eq : p ≡ q = omega arith in omega (arith, ap a eq))
exchange_sorts e (suc n) i a s =
    let (r, m) =
      sift_least e i (e - (i + 1)) (i + 1) a (omega arith) (omega arith) (λ q h k. omega arith) in
    let (r', o) = exchange_sorts e n (i + 1) (sift i (e - (i + 1)) (i + 1) a) (omega arith) in
    (Rearranged-trans r (Rearranged-wider i e (omega arith) (omega arith) r'), Ordered-first m r' o)

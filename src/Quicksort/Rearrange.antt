-- ===== src/Quicksort/Rearrange.antt =====
-- One array is another with the elements of a range moved around.
use operating_systems_work.Base.{
  ℕ, ◌<◌, ◌≤◌, ◌≡◌, refl, ap, ◌∙◌, ◌==◌, if◌then◌else◌, arith, dec_lt,
}
use operating_systems_work.Quicksort.{Array, swap}

-- `b` is `a` read through a bijection `to`, with inverse `back`, that moves only indices in the
-- range from `l` to before `e`, and moves them within it.
pub record Rearranged (l e : ℕ) (a b : Array) : Type 0 where
  pub to : ℕ → ℕ
  pub back : ℕ → ℕ
  pub reads : (i : ℕ) → b i ≡ a (to i)
  pub back-to : (i : ℕ) → back (to i) ≡ i
  pub to-back : (i : ℕ) → to (back i) ≡ i
  pub inside : (i : ℕ) → l ≤ i → i < e → (l ≤ to i) × (to i < e)
  pub below : (i : ℕ) → i < l → to i ≡ i
  pub above : (i : ℕ) → e ≤ i → to i ≡ i

abbrev flip : ℕ → ℕ → ℕ → ℕ
flip i j k = if k == j then i else if k == i then j else k

pub Rearranged-refl : (l e : ℕ) (a : Array) → Rearranged l e a a
Rearranged-refl l e a = record {
  to = λ i. i;
  back = λ i. i;
  reads = λ i. refl;
  back-to = λ i. refl;
  to-back = λ i. refl;
  inside = λ i p q. (p, q);
  below = λ i p. refl;
  above = λ i p. refl;
}

pub Rearranged-trans :
    {l e : ℕ} {a b c : Array} → Rearranged l e a b → Rearranged l e b c → Rearranged l e a c
Rearranged-trans r s = record {
  to = λ i. r.to (s.to i);
  back = λ i. s.back (r.back i);
  reads = λ i. s.reads i ∙ r.reads (s.to i);
  back-to = λ i. ap s.back (r.back-to (s.to i)) ∙ s.back-to i;
  to-back = λ i. ap r.to (s.to-back (r.back i)) ∙ r.to-back i;
  inside = λ i p q. let (p', q') = s.inside i p q in r.inside (s.to i) p' q';
  below = λ i p. ap r.to (s.below i p) ∙ r.below i p;
  above = λ i p. ap r.to (s.above i p) ∙ r.above i p;
}

pub Rearranged-wider :
    {l e : ℕ} {a b : Array} (l' e' : ℕ)
    → l' ≤ l
    → e ≤ e'
    → Rearranged l e a b
    → Rearranged l' e' a b
Rearranged-wider {l} {e} l' e' p q r = record {
  to = r.to;
  back = r.back;
  reads = r.reads;
  back-to = r.back-to;
  to-back = r.to-back;
  inside = inside;
  below = λ i h. r.below i (omega arith);
  above = λ i h. r.above i (omega arith);
}
  where
    inside : (i : ℕ) → l' ≤ i → i < e' → (l' ≤ r.to i) × (r.to i < e')
    inside i h k = elim (dec_lt i l) [
      | yes u ↦ omega (arith, r.below i u)
      | no u ↦ elim (dec_lt i e) [
        | yes w ↦ omega (arith, r.inside i (omega arith) w)
        | no w ↦ omega (arith, r.above i (omega arith))
      ]
    ]

pub Rearranged-swap :
    (l e i j : ℕ) (a : Array) → l ≤ i → i < e → l ≤ j → j < e → Rearranged l e a (swap i j a)
unfolding swap
Rearranged-swap l e i j a pi qi pj qj = record {
  to = flip i j;
  back = flip i j;
  reads = λ k. ground arith;
  back-to = λ k. ground arith;
  to-back = λ k. ground arith;
  inside = λ k p q. ground arith;
  below = λ k p. ground arith;
  above = λ k p. ground arith;
}

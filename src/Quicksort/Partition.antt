-- ===== src/Quicksort/Partition.antt =====
-- The partition of quick_sort.c: its loop and the two swaps around it.
use operating_systems_work.Base.{
  ℕ, zero, suc, ◌+◌, ◌-◌, ◌%◌, ◌<◌, ◌≤◌, ◌≡◌, refl, inl, inr, ltb, arith, Bool-cases, subst,
}
use native.Mathlib.Nat.{mod-lt}
use operating_systems_work.Quicksort.{Array, swap, place, split, choose_pivot, partition}
use operating_systems_work.Quicksort.Rearrange.{
  Rearranged, Rearranged-refl, Rearranged-trans, Rearranged-swap,
}

-- After the rounds before `j`: what is before `k` is below the pivot, and the rest is not.
pub record Halves (low high j : ℕ) (a b : Array) (k : ℕ) : Type 0 where
  low_k : low ≤ k
  k_j : k ≤ j
  pivot : b high ≡ a high
  under : (q : ℕ) → low ≤ q → q < k → b q < a high
  over : (q : ℕ) → k ≤ q → q < j → a high ≤ b q
  moved : Rearranged low (high + 1) a b

Halves-place :
    (low high j : ℕ) (a b : Array) (k : ℕ)
    → j < high
    → Halves low high j a b k
    → Halves low high (j + 1) a (place high j (k, b)).1 (place high j (k, b)).0
unfolding place swap
Halves-place low high j a b k p h = elim (Bool-cases (ltb (b j) (b high))) [
  | inl t ↦ rw t record {
    low_k = omega (arith, h.low_k);
    k_j = omega (arith, h.k_j);
    pivot = ground (arith, h.pivot, h.k_j);
    under = λ q u v. ground (arith, h.under q u, h.k_j, h.pivot);
    over = λ q u v. ground (arith, h.over q, h.over k, h.k_j, h.pivot);
    moved = Rearranged-trans h.moved (
        Rearranged-swap low (high + 1) k j b h.low_k (omega (arith, h.k_j))
          (omega (arith, h.k_j, h.low_k)) (omega arith));
  }
  | inr t ↦ rw t record {
    low_k = h.low_k;
    k_j = omega (arith, h.k_j);
    pivot = h.pivot;
    under = h.under;
    over = λ q u v. ground (arith, h.over q u, h.pivot);
    moved = h.moved;
  }
]

Halves-split :
    (low high n j : ℕ) (a b : Array) (k : ℕ)
    → j + n ≡ high
    → Halves low high j a b k
    → Halves low high high a (split high n j (k, b)).1 (split high n j (k, b)).0
unfolding split
Halves-split low high zero j a b k p h = subst (λ j'. Halves low high j' a b k) (omega arith) h
Halves-split low high (suc n) j a b k p h =
    Halves-split low high n (j + 1) a _ _ (omega arith)
      (Halves-place low high j a b k (omega arith) h)

-- What a partition of the range from `l` to before `e` at `k` is.
pub record Parted (l e k : ℕ) (a b : Array) : Type 0 where
  pub l_k : l ≤ k
  pub k_e : k < e
  pub under : (q : ℕ) → l ≤ q → q < k → b q ≤ b k
  pub over : (q : ℕ) → k < q → q < e → b k ≤ b q
  pub moved : Rearranged l e a b

choose_pivot_lem :
    (r low high : ℕ)
    → low < high
    → (low ≤ choose_pivot r low high) × (choose_pivot r low high ≤ high)
unfolding choose_pivot
choose_pivot_lem r low high p =
    let lt : r % high < high = mod-lt r (omega arith) in
    elim (Bool-cases (ltb (r % high) low)) [
      | inl t ↦ rw t (omega arith, omega arith)
      | inr t ↦ rw t (ground arith, omega arith)
    ]

Parted-swap :
    (low high : ℕ) (a b c : Array) (k : ℕ)
    → Rearranged low (high + 1) a b
    → Halves low high high b c k
    → Parted low (high + 1) k a (swap k high c)
unfolding swap
Parted-swap low high a b c k m h = record {
  l_k = h.low_k;
  k_e = omega (arith, h.k_j);
  under = λ q u v. ground (arith, h.under q u v, h.pivot, h.k_j);
  over = λ q u v. ground (arith, h.over q, h.over k, h.pivot, h.k_j);
  moved = Rearranged-trans m (
      Rearranged-trans h.moved (
        Rearranged-swap low (high + 1) k high c h.low_k (omega (arith, h.k_j))
          (omega (arith, h.low_k, h.k_j)) (omega arith)));
}

pub partition_lem :
    (r low high : ℕ) (a : Array)
    → low < high
    → Parted low (high + 1) (partition r low high a).0 a (partition r low high a).1
unfolding partition
partition_lem r low high a p =
    let (u, v) = choose_pivot_lem r low high p in
    let b = swap high (choose_pivot r low high) a in
    let start : Halves low high low b b low = record {
      low_k = omega arith;
      k_j = omega arith;
      pivot = refl;
      under = λ q x y. omega arith;
      over = λ q x y. omega arith;
      moved = Rearranged-refl low (high + 1) b;
    } in
    Parted-swap low high a b _ _
      (Rearranged-swap low (high + 1) high (choose_pivot r low high) a (omega arith) (omega arith) u
        (omega arith))
      (Halves-split low high (high - low) low b b low (omega arith) start)

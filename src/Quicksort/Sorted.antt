-- ===== src/Quicksort/Sorted.antt =====
-- The recursive quicksort of quick_sort.c sorts, whatever `rand()` returns.
use operating_systems_work.Base.{
  ℕ, zero, suc, ◌+◌, ◌-◌, ◌<◌, ◌≤◌, ◌≡◌, ap, ◌∙◌, inl, inr, leb, arith, dec_lt, Bool-cases, subst,
}
use operating_systems_work.Quicksort.{Array, partition, normal_quick_sort}
use operating_systems_work.Quicksort.Rearrange.{
  Rearranged, Rearranged-refl, Rearranged-trans, Rearranged-wider,
}
use operating_systems_work.Quicksort.Exchange.{Ordered, exchange_sorts}
use operating_systems_work.Quicksort.Partition.{Parted, partition_lem}

-- The range of the second array holds the elements of the first, in order.
abbrev pub Sorts : ℕ → ℕ → Array → Array → Type 0
Sorts l e a b = Rearranged l e a b × Ordered l e b

module _ {l e k : ℕ} {a b c d : Array} (h : Parted l e k a b) (left : Sorts l k b c)
    (right : Sorts (k + 1) e c d) where
  module _ (x : ℕ) where
    join_left : l ≤ x → x ≤ k → d x ≤ b k
    join_left p q =
        let e1 : d x ≡ c x = right.0.reads x ∙ ap c (right.0.below x (omega arith)) in
        elim (dec_lt x k) [
          | yes u ↦
              let (lo, hi) = left.0.inside x p u in
              omega (arith, e1, left.0.reads x, h.under (left.0.to x) lo hi)
          | no u ↦
              let ex : x ≡ k = omega arith in
              omega (arith, e1, left.0.reads x, ap b (left.0.above x (omega arith) ∙ ex))
        ]

    join_right : k ≤ x → x < e → b k ≤ d x
    join_right p q = elim (dec_lt k x) [
      | yes u ↦
          let (lo, hi) = right.0.inside x (omega arith) q in
          let y = right.0.to x in
          omega (
            arith,
            right.0.reads x,
            left.0.reads y,
            ap b (left.0.above y (omega arith)),
            h.over y (omega arith) hi,
          )
      | no u ↦
          let ex : k ≡ x = omega arith in
          omega (
            arith,
            ap b ex,
            right.0.reads x,
            ap c (right.0.below x (omega arith)),
            left.0.reads x,
            ap b (left.0.above x (omega arith)),
          )
    ]

  Sorts-join : Sorts l e a d
  Sorts-join = (
    Rearranged-trans h.moved (
        Rearranged-trans (Rearranged-wider l e (omega arith) (omega (arith, h.k_e)) left.0)
          (Rearranged-wider l e (omega (arith, h.l_k)) (omega arith) right.0)),
    λ p q u v w. elim (dec_lt q k) [
      | yes m ↦ omega (
        arith,
        left.1 p q u v m,
        right.0.reads p,
        ap c (right.0.below p (omega arith)),
        right.0.reads q,
        ap c (right.0.below q (omega arith)),
      )
      | no m ↦ elim (dec_lt k p) [
        | yes n ↦ right.1 p q (omega arith) v w
        | no n ↦ omega (arith, join_left p u (omega arith), join_right q (omega arith) w)
      ]
    ],
  )

-- With fuel for the length of the range, `normal_quick_sort` leaves in the range the elements that
-- were there, in ascending order, and touches nothing else, whatever `rand` returns.
pub normal_quick_sort_lem :
    (rand : ℕ → ℕ) (fuel l e t : ℕ) (a : Array)
    → e ≤ l + fuel
    → Sorts l e a (normal_quick_sort rand fuel l e (t, a)).1
unfolding normal_quick_sort
normal_quick_sort_lem rand zero l e t a p = (Rearranged-refl l e a, λ x y u v w. omega arith)
normal_quick_sort_lem rand (suc fuel) l e t a p = elim (Bool-cases (leb e l)) [
  | inl h ↦ (let q : e ≤ l = ground arith in rw h (Rearranged-refl l e a, λ x y u v w. omega arith))
  | inr h ↦ elim (Bool-cases (leb (e - l) 5)) [
    | inl g ↦ rw (h, g) (exchange_sorts e (e - 1 - l) l a (ground arith))
    | inr g ↦
        rw (h, g)
          (let part =
              subst
                (λ e'.
                  Parted l e' (partition (rand t) l (e - 1) a).0 a
                    (partition (rand t) l (e - 1) a).1)
                (ground arith) (partition_lem (rand t) l (e - 1) a (ground arith)) in
            Sorts-join part
              (normal_quick_sort_lem rand fuel l _ (t + 1) _ (omega (arith, part.k_e, p)))
              (normal_quick_sort_lem rand fuel _ e _ _ (omega (arith, part.l_k, p))))
  ]
]

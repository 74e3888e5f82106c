-- ===== src/Quicksort.antt =====
-- The sequential quicksort of ass4/Q1/quick_sort.c.
pub mod Rearrange
pub mod Exchange
pub mod Partition
pub mod Sorted
use operating_systems_work.Base.{
  ℕ, zero, suc, ◌+◌, ◌-◌, ◌/◌, ◌%◌, Bool, ◌==◌, ltb, leb, if◌then◌else◌,
}

-- The array is the memory from `arr` on, by index. An int `x` is stood for by the number
-- `x + 2^31`: the code only moves and compares the elements, and this keeps their order.
abbrev pub Array : Type 0
Array = ℕ → ℕ

abbrev pub store : Array → ℕ → ℕ → Array
store a i v k = if k == i then v else a k

-- `swap(&arr[i], &arr[j])`
unfoldable pub swap : ℕ → ℕ → Array → Array
swap i j a = let temp = a i in store (store a i (a j)) j temp

-- The `j` loop of the exchange sort, `n` rounds from `j` on.
unfoldable pub sift : ℕ → ℕ → ℕ → Array → Array
sift i zero j a = a
sift i (suc n) j a = sift i n (j + 1) (if ltb (a j) (a i) then swap i j a else a)

-- The `i` loop: `n` rounds from `i` on, in the range that ends before `e`.
unfoldable pub exchange : ℕ → ℕ → ℕ → Array → Array
exchange e zero i a = a
exchange e (suc n) i a = exchange e n (i + 1) (sift i (e - (i + 1)) (i + 1) a)

-- The body of the loop of `partition`; `k` is the `i + 1` of the code, which starts at `low` since
-- `i` starts at `low - 1`.
unfoldable pub place : ℕ → ℕ → ℕ × Array → ℕ × Array
place high j (k, a) = if ltb (a j) (a high) then (k + 1, swap k j a) else (k, a)

-- The loop, `n` rounds from `j` on. The result is `i + 1` and the array.
unfoldable pub split : ℕ → ℕ → ℕ → ℕ × Array → ℕ × Array
split high zero j s = s
split high (suc n) j s = split high n (j + 1) (place high j s)

-- `pivot`, for the value that `rand()` returns.
unfoldable pub choose_pivot : ℕ → ℕ → ℕ → ℕ
choose_pivot r low high = let pivot = r % high in if ltb pivot low then (low + high) / 2 else pivot

unfoldable pub partition : ℕ → ℕ → ℕ → Array → ℕ × Array
partition r low high a =
    let b = swap high (choose_pivot r low high) a in
    let (k, c) = split high (high - low) low (low, b) in (k, swap k high c)

module _ (rand : ℕ → ℕ) where
  -- `normal_quick_sort(arr, l, r)` with `e = r + 1`, since `r` is -1 for an empty range at 0.
  -- `rand t` is what the `t`-th call of `rand()` returns; the result has the number of the next.
  unfoldable pub normal_quick_sort : ℕ → ℕ → ℕ → ℕ × Array → ℕ × Array
  normal_quick_sort zero l e (t, a) = (t, a)
  normal_quick_sort (suc fuel) l e (t, a) =
      let (pi, b) = partition (rand t) l (e - 1) a in
      let left = normal_quick_sort fuel l pi (t + 1, b) in
      let right = normal_quick_sort fuel (pi + 1) e left in
      if leb e l then (t, a) else if leb (e - l) 5 then (t, exchange e (e - 1 - l) l a) else right

-- ===== src/Tests/Sorting.antt =====
-- Runs of the quicksort of ass4/Q1/quick_sort.c.
use operating_systems_work.Base.{ℕ, ◌+◌, ◌*◌, ◌%◌, ◌≤◌, arith, [], ◌∷◌, get_or}
use operating_systems_work.Quicksort.{Array, normal_quick_sort}
use operating_systems_work.Quicksort.Sorted.{Sorts, normal_quick_sort_lem}

abbrev numbers : Array
numbers i = get_or (5 ∷ 3 ∷ 9 ∷ 1 ∷ 7 ∷ 3 ∷ 8 ∷ 0 ∷ []) i 0

abbrev rand : ℕ → ℕ
rand t = (t * 1103 + 12345) % 32768

enough : 8 ≤ 0 + 8
enough = omega arith

normal_quick_sort_lem_example : Sorts 0 8 numbers (normal_quick_sort rand 8 0 8 (0, numbers)).1
normal_quick_sort_lem_example = normal_quick_sort_lem rand 8 0 8 0 numbers enough

-- ===== src/Pages/Boot.antt =====
-- `kinit1` and `kinit2` make the free list.
use operating_systems_work.Base.{ℕ, ◌+◌, ◌%◌, ◌≤◌, ◌≡◌, ◌⊎◌, List}
use operating_systems_work.Pages.{Kmem, page_size}
use operating_systems_work.Pages.Chain.{Chain}
use operating_systems_work.Pages.Holding.{IsHeld}

-- A whole page between the addresses.
abbrev pub IsWithin : ℕ → ℕ → ℕ → Type 0
IsWithin lo hi v = (v % page_size ≡ 0) × (lo ≤ v) × (v + page_size ≤ hi)

-- The free list has the pages of `ps` and those between the addresses.
pub record Grown (end lo hi : ℕ) (ps : List ℕ) (k' : Kmem) : Type 0 where
  pub free : List ℕ
  pub chain : Chain end k'.word k'.freelist free
  pub all : (v : ℕ) → IsHeld v ps ⊎ IsWithin lo hi v → IsHeld v free
  pub only : (v : ℕ) → IsHeld v free → IsHeld v ps ⊎ IsWithin lo hi v

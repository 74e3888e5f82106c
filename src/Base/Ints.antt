-- ===== src/Base/Ints.antt =====
-- Integers over the native numbers, for a C int that may become negative.
use Prim.Native.Nat.{ℕ, ◌+◌, ◌-◌, min}
use mathlib.Core.Bool.{Bool, false}
use operating_systems_work.Base.Tests.{ltb, if◌then◌else◌}

-- `negsuc n` is -(n + 1).
pub data ℤ : Type 0 where
  pos : ℕ → ℤ
  negsuc : ℕ → ℤ

abbrev pub sub : ℤ → ℕ → ℤ
sub (pos a) b = if ltb a b then negsuc (b - a - 1) else pos (a - b)
sub (negsuc a) b = negsuc (a + b)

abbrev pub is_positive : ℤ → Bool
is_positive (pos a) = ltb 0 a
is_positive (negsuc a) = false

abbrev pub min_int : ℕ → ℤ → ℤ
min_int a (pos b) = pos (min a b)
min_int a (negsuc b) = negsuc b

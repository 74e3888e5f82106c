-- ===== src/Base/Table.antt =====
-- A table of slots (an array of structs): one slot changed in place, every slot changed.
use Prim.Native.Nat.{ℕ, zero, suc, ◌<◌}
use mathlib.Core.Path.{◌≡◌, refl, ap}
use mathlib.Core.Logic.{◌≢◌, ◌⊎◌, inl, inr}
use mathlib.Core.List.{List, [], ◌∷◌, map}
use mathlib.Core.Option.{some}
use native.Mathlib.Omega.{arith}
use operating_systems_work.Base.Lists.{length, get_elem?, get_or}

module _ {ℓ} {A : Type ℓ} where
  -- `p = &table[i]; ... p->field = value`: nothing happens out of range.
  abbrev pub modify : List A → ℕ → (A → A) → List A
  modify [] i f = []
  modify (x ∷ xs) zero f = f x ∷ xs
  modify (x ∷ xs) (suc i) f = x ∷ modify xs i f

  pub length-modify : (xs : List A) (i : ℕ) (f : A → A) → length (modify xs i f) ≡ length xs
  length-modify [] i f = refl
  length-modify (x ∷ xs) zero f = refl
  length-modify (x ∷ xs) (suc i) f = ap suc (length-modify xs i f)

  pub get_elem?-modify_self :
      (xs : List A) (i : ℕ) (f : A → A) {x : A}
      → get_elem? xs i ≡ some x
      → get_elem? (modify xs i f) i ≡ some (f x)
  get_elem?-modify_self [] i f h = ground arith
  get_elem?-modify_self (x ∷ xs) zero f h = ground arith
  get_elem?-modify_self (x ∷ xs) (suc i) f h = get_elem?-modify_self xs i f h

  pub get_elem?-modify_ne :
      (xs : List A) (i j : ℕ) (f : A → A) → i ≢ j → get_elem? (modify xs i f) j ≡ get_elem? xs j
  get_elem?-modify_ne [] i j f h = refl
  get_elem?-modify_ne (x ∷ xs) zero zero f h = absurd (h refl)
  get_elem?-modify_ne (x ∷ xs) zero (suc j) f h = refl
  get_elem?-modify_ne (x ∷ xs) (suc i) zero f h = refl
  get_elem?-modify_ne (x ∷ xs) (suc i) (suc j) f h =
      get_elem?-modify_ne xs i j f (λ e. h (ap suc e))

  pub get_elem?_lt : (xs : List A) (i : ℕ) {x : A} → get_elem? xs i ≡ some x → i < length xs
  get_elem?_lt [] i h = ground arith
  get_elem?_lt (x ∷ xs) zero h = omega arith
  get_elem?_lt (x ∷ xs) (suc i) h = omega (arith, get_elem?_lt xs i h)

  pub get_or_of_get_elem? :
      (xs : List A) (i : ℕ) (d : A) {x : A} → get_elem? xs i ≡ some x → get_or xs i d ≡ x
  get_or_of_get_elem? [] i d h = ground arith
  get_or_of_get_elem? (x ∷ xs) zero d h = ground arith
  get_or_of_get_elem? (x ∷ xs) (suc i) d h = get_or_of_get_elem? xs i d h

-- What stood in a slot before, for a value that stands there after `map` or `modify`.
pub get_elem?-map_inv {ℓ κ} :
    {A : Type ℓ} {B : Type κ} (f : A → B) (xs : List A) (i : ℕ) {y : B}
    → get_elem? (map f xs) i ≡ some y
    → (x : A) × (get_elem? xs i ≡ some x) × (y ≡ f x)
get_elem?-map_inv f [] i h = absurd (ground arith)
get_elem?-map_inv f (x ∷ xs) zero h = (x, refl, ground arith)
get_elem?-map_inv f (x ∷ xs) (suc i) h = get_elem?-map_inv f xs i h

pub get_elem?-map {ℓ κ} :
    {A : Type ℓ} {B : Type κ} (f : A → B) (xs : List A) (i : ℕ) {x : A}
    → get_elem? xs i ≡ some x
    → get_elem? (map f xs) i ≡ some (f x)
get_elem?-map f [] i h = ground arith
get_elem?-map f (x ∷ xs) zero h = ground arith
get_elem?-map f (x ∷ xs) (suc i) h = get_elem?-map f xs i h

pub get_elem?-modify_inv {ℓ} :
    {A : Type ℓ} (xs : List A) (i : ℕ) (f : A → A) (j : ℕ) {y : A}
    → get_elem? (modify xs i f) j ≡ some y
    → (x : A) × (get_elem? xs j ≡ some x) × (((i ≡ j) × (y ≡ f x)) ⊎ ((i ≢ j) × (y ≡ x)))
get_elem?-modify_inv [] i f j h = absurd (ground arith)
get_elem?-modify_inv (x ∷ xs) zero f zero h = (x, refl, inl (refl, ground arith))
get_elem?-modify_inv (x ∷ xs) zero f (suc j) {y} h = (y, h, inr (omega arith, refl))
get_elem?-modify_inv (x ∷ xs) (suc i) f zero h = (x, refl, inr (omega arith, ground arith))
get_elem?-modify_inv (x ∷ xs) (suc i) f (suc j) h =
    let (z, e, c) = get_elem?-modify_inv xs i f j h in
    elim c [ inl (q, r) ↦ (z, e, inl (ap suc q, r)) | inr (q, r) ↦ (z, e, inr (omega arith, r)) ]

-- Two changes of one slot are one change.
pub modify-modify {ℓ} :
    {A : Type ℓ} (xs : List A) (i : ℕ) (f g : A → A)
    → modify (modify xs i f) i g ≡ modify xs i (λ x. g (f x))
modify-modify [] i f g = refl
modify-modify (x ∷ xs) zero f g = refl
modify-modify (x ∷ xs) (suc i) f g = ap (λ r. x ∷ r) (modify-modify xs i f g)

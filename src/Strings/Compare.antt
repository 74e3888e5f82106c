-- ===== src/Strings/Compare.antt =====
-- What `memcmp` and `strncmp` compare.
use operating_systems_work.Base.{
  ℕ, zero, suc, ◌+◌, ◌<◌, ◌≡◌, ◌≢◌, refl, ◌∙◌, ◌==◌, arith, Bool-cases, inl, inr, ap,
}
use operating_systems_work.Strings.{Memory, strncmp, difference}

-- The strings at `p` and `q` agree in their first `n` bytes, up to the first zero byte.
abbrev pub Agree : ℕ → ℕ → ℕ → Memory → Type 0
Agree p q n m = (i : ℕ) → i < n → ((j : ℕ) → j < i → m (p + j) ≢ 0) → m (p + i) ≡ m (q + i)

difference_zero : (a b : ℕ) → a < 256 → b < 256 → difference a b ≡ 0 → a ≡ b
difference_zero a b h k e = omega arith

first_byte : (p q n : ℕ) (m : Memory) → Agree p q (suc n) m → m p ≡ m q
first_byte p q n m h = omega (
  arith,
  h 0 (omega arith) (λ j l. absurd (omega arith)),
  ap m (zero_right p),
  ap m (zero_right q),
)
  where
    zero_right : (x : ℕ) → x + 0 ≡ x
    zero_right x = omega arith

shift : (x i : ℕ) → x + 1 + i ≡ x + suc i
shift x i = omega arith

Agree-stop : (n p q : ℕ) (m : Memory) → m p ≡ 0 → m p ≡ m q → Agree p q (suc n) m
Agree-stop n p q m z e zero l h =
    let a : p + 0 ≡ p = omega arith in let b : q + 0 ≡ q = omega arith in rw (a, b) e
Agree-stop n p q m z e (suc i) l h =
    let a : p + 0 ≡ p = omega arith in absurd (h 0 (omega arith) (ap m a ∙ z))

Agree-cons : (n p q : ℕ) (m : Memory) → m p ≡ m q → Agree (p + 1) (q + 1) n m → Agree p q (suc n) m
Agree-cons n p q m e h zero l k =
    let a : p + 0 ≡ p = omega arith in let b : q + 0 ≡ q = omega arith in rw (a, b) e
Agree-cons n p q m e h (suc i) l k =
    rw (← shift p i, ← shift q i)
      (h i (omega arith) (λ j s x. k (suc j) (omega arith) (rw (← shift p j) x)))

Agree-tail : (n p q : ℕ) (m : Memory) → m p ≢ 0 → Agree p q (suc n) m → Agree (p + 1) (q + 1) n m
Agree-tail n p q m z h i l k = rw (shift p i, shift q i) (h (suc i) (omega arith) before)
  where
    before : (j : ℕ) → j < suc i → m (p + j) ≢ 0
    before zero s x = let a : p + 0 ≡ p = omega arith in z (rw a at x)
    before (suc j) s x = k j (omega arith) (rw (shift p j) x)

difference_same : (n p q : ℕ) (m : Memory) → Agree p q (suc n) m → difference (m p) (m q) ≡ 0
difference_same n p q m h = let e = first_byte p q n m h in omega arith

-- `strncmp` is 0 exactly when the strings agree in their first `n` bytes, up to the first zero.
pub strncmp_lem :
    (n p q : ℕ) (m : Memory)
    → ((a : ℕ) → m a < 256)
    → (strncmp p q n m ≡ 0 → Agree p q n m) × (Agree p q n m → strncmp p q n m ≡ 0)
unfolding strncmp
strncmp_lem zero p q m b = ((λ e i l h. absurd (omega arith)), λ h. refl)
strncmp_lem (suc n) p q m b = elim (Bool-cases (m p == 0)) [
  | inl z ↦ rw z (
    (λ e. Agree-stop n p q m (ground arith) (difference_zero _ _ (b p) (b q) e)),
    λ h. difference_same n p q m h,
  )
  | inr z ↦ elim (Bool-cases (m p == m q)) [
    | inl s ↦
        rw (z, s)
          (let (f, g) = strncmp_lem n (p + 1) (q + 1) m b in
            (
              (λ e. Agree-cons n p q m (ground arith) (f e)),
              λ h. g (Agree-tail n p q m (ground arith) h),
            ))
    | inr s ↦
        rw (z, s)
          (
            (λ e. let c = difference_zero _ _ (b p) (b q) e in ground arith),
            λ h. difference_same n p q m h,
          )
  ]
]

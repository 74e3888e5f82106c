-- ===== src/Fs/Bits.antt =====
-- The bits of a byte.
use operating_systems_work.Base.{
  ℕ, zero, suc, ◌+◌, ◌<◌, ◌≤◌, ◌≡◌, refl, ap, ◌∙◌, ℕ_discrete, Bool, true, false, ◌&&◌, not, ◌==◌,
  ltb, if◌then◌else◌, arith,
}
use operating_systems_work.Fs.Disk.{bit_of, set_bit, clear_bit}

-- Whether `test` holds of `count` numbers from `first` on.
run_of : (count first : ℕ) → (ℕ → Bool) → Bool
run_of zero first test = true
run_of (suc count) first test = run_of count (first + 1) test && test first

run_of_at :
    (count first : ℕ) (test : ℕ → Bool) (k : ℕ)
    → run_of count first test ≡ true
    → first ≤ k
    → k < first + count
    → test k ≡ true
unfolding run_of
run_of_at zero first test k h p q = absurd (omega arith)
run_of_at (suc count) first test k h p q = elim (ℕ_discrete k first) [
  | yes e ↦ ap test e ∙ right_of _ _ h
  | no e ↦ run_of_at count (first + 1) test k (left_of _ _ h) (omega arith) (omega arith)
]
  where
    left_of : (x y : Bool) → (x && y) ≡ true → x ≡ true
    left_of x y h = ground arith

    right_of : (x y : Bool) → (x && y) ≡ true → y ≡ true
    right_of x y h = ground arith

same : Bool → Bool → Bool
same true b = b
same false b = not b

same_eq : (a b : Bool) → same a b ≡ true → a ≡ b
unfolding same
same_eq a b h = ground arith

-- What a change of bit `k` does to the byte and to bit `j`.
set_fits : ℕ → ℕ → ℕ → Bool
set_fits j k b =
    ltb (set_bit b k) 256 && same (bit_of (set_bit b k) j) (if j == k then true else bit_of b j)

clear_fits : ℕ → ℕ → ℕ → Bool
clear_fits j k b =
    ltb (clear_bit b k) 256
    && same (bit_of (clear_bit b k) j) (if j == k then false else bit_of b j)

set_table : run_of 8 0 (λ j. run_of 8 0 (λ k. run_of 256 0 (set_fits j k))) ≡ true
unfolding run_of set_fits same set_bit
set_table = refl

clear_table : run_of 8 0 (λ j. run_of 8 0 (λ k. run_of 256 0 (clear_fits j k))) ≡ true
unfolding run_of clear_fits same clear_bit
clear_table = refl

at_all :
    (f : ℕ → ℕ → ℕ → Bool) (j k b : ℕ)
    → run_of 8 0 (λ x. run_of 8 0 (λ y. run_of 256 0 (f x y))) ≡ true
    → j < 8
    → k < 8
    → b < 256
    → f j k b ≡ true
at_all f j k b t p q r =
    run_of_at 256 0 (f j k) b
      (run_of_at 8 0 (λ y. run_of 256 0 (f j y)) k
        (run_of_at 8 0 (λ x. run_of 8 0 (λ y. run_of 256 0 (f x y))) j t (omega arith)
          (omega arith))
        (omega arith) (omega arith))
      (omega arith) (omega arith)

both : (a b : Bool) → (a && b) ≡ true → (a ≡ true) × (b ≡ true)
both a b h = ground arith

module _ (j k b : ℕ) (p : j < 8) (q : k < 8) (r : b < 256) where
  pub set_bit_lem :
      (set_bit b k < 256) × (bit_of (set_bit b k) j ≡ (if j == k then true else bit_of b j))
  unfolding set_fits
  set_bit_lem =
      let (s, t) = both _ _ (at_all set_fits j k b set_table p q r) in
      (lt_of (set_bit b k) s, same_eq _ _ t)
    where
      lt_of : (x : ℕ) → ltb x 256 ≡ true → x < 256
      lt_of x h = ground arith

  pub clear_bit_lem :
      (clear_bit b k < 256) × (bit_of (clear_bit b k) j ≡ (if j == k then false else bit_of b j))
  unfolding clear_fits
  clear_bit_lem =
      let (s, t) = both _ _ (at_all clear_fits j k b clear_table p q r) in
      (lt_of (clear_bit b k) s, same_eq _ _ t)
    where
      lt_of : (x : ℕ) → ltb x 256 ≡ true → x < 256
      lt_of x h = ground arith

-- ===== src/Strings/Terminate.antt =====
-- What `strncpy` and `safestrcpy` leave in memory.
use operating_systems_work.Base.{
  ℕ, zero, suc, ◌+◌, ◌≤◌, ◌<◌, ◌≡◌, ◌≢◌, refl, ◌∙◌, true, false, ◌&&◌, ◌==◌, ltb, leb,
  if◌then◌else◌, arith, Bool-cases, ◌⊎◌, inl, inr,
}
use operating_systems_work.Strings.{Memory, poke, fill_zero, strncpy, copy_string, safestrcpy}

-- The ranges of `n` bytes from `s` and from `t` on have no byte in common.
abbrev pub Apart : ℕ → ℕ → ℕ → Type 0
Apart s t n = (s + n ≤ t) ⊎ (t + n ≤ s)

-- Byte `i` of the string at `t`, with zeros after its end.
abbrev pub padded : Memory → ℕ → ℕ → ℕ
padded m t zero = m t
padded m t (suc i) = if m t == 0 then 0 else padded m (t + 1) i

padded_same :
    (i t : ℕ) (m m' : Memory)
    → ((a : ℕ) → t ≤ a → a < t + suc i → m a ≡ m' a)
    → padded m t i ≡ padded m' t i
padded_same zero t m m' h = h t (omega arith) (omega arith)
padded_same (suc i) t m m' h =
    let e = h t (omega arith) (omega arith) in
    let r = padded_same i (t + 1) m m' (λ a l k. h a (omega arith) (omega arith)) in rw (e, r) refl

fill_zero_lem :
    (n s : ℕ) (m : Memory) (a : ℕ)
    → fill_zero s n m a ≡ (if leb s a && ltb a (s + n) then 0 else m a)
unfolding fill_zero
fill_zero_lem zero s m a = ground arith
fill_zero_lem (suc n) s m a = ground (arith, fill_zero_lem n (s + 1) (poke m s 0) a)

shift : (x i : ℕ) → x + suc i ≡ x + 1 + i
shift x i = omega arith

-- What `strncpy` makes of the memory `m`.
abbrev pub Filled : ℕ → ℕ → ℕ → Memory → Memory → Type 0
Filled s t n m r =
    ((i : ℕ) → i < n → r (s + i) ≡ padded m t i) × ((a : ℕ) → (a < s) ⊎ (s + n ≤ a) → r a ≡ m a)

module _ (s t n : ℕ) (m : Memory) (h : Apart s t (suc n)) where
  Filled-cons :
      (r : Memory)
      → (m t == 0) ≡ false
      → Filled (s + 1) (t + 1) n (poke m s (m t)) r
      → Filled s t (suc n) m r
  Filled-cons r z f = (bytes, λ a o. f.1 a (ground arith) ∙ ground arith)
    where
      bytes : (i : ℕ) → i < suc n → r (s + i) ≡ padded m t i
      bytes zero l = let e : s + 0 ≡ s = omega arith in rw e (f.1 s (omega arith) ∙ ground arith)
      bytes (suc i) l =
          rw (z, shift s i)
            (f.0 i (omega arith) ∙ padded_same i (t + 1) (poke m s (m t)) m (λ a u v. ground arith))

  Filled-end : (m t == 0) ≡ true → Filled s t (suc n) m (fill_zero (s + 1) n (poke m s (m t)))
  Filled-end z = (bytes, λ a o. ground (arith, fill_zero_lem n (s + 1) (poke m s (m t)) a))
    where
      bytes : (i : ℕ) → i < suc n → fill_zero (s + 1) n (poke m s (m t)) (s + i) ≡ padded m t i
      bytes zero l =
          let e : s + 0 ≡ s = omega arith in
          rw e (ground (arith, fill_zero_lem n (s + 1) (poke m s (m t)) s))
      bytes (suc i) l = rw z (ground (arith, fill_zero_lem n (s + 1) (poke m s (m t)) (s + suc i)))

-- `strncpy` between ranges that do not overlap leaves at `s` the first `n` bytes of the string at
-- `t`, filled up with zeros if the string is shorter, and changes no other byte.
pub strncpy_lem : (n s t : ℕ) (m : Memory) → Apart s t n → Filled s t n m (strncpy s t n m)
unfolding strncpy
strncpy_lem zero s t m h = ((λ i l. absurd (omega arith)), λ a o. refl)
strncpy_lem (suc n) s t m h = elim (Bool-cases (m t == 0)) [
  | inl z ↦ rw z (Filled-end s t n m h z)
  | inr z ↦
      rw z
        (Filled-cons s t n m h _ z (strncpy_lem n (s + 1) (t + 1) (poke m s (m t)) (ground arith)))
]

-- A string of `k` bytes at `s`, copied from `t`.
pub record Copied (s t n : ℕ) (m r : Memory) : Type 0 where
  pub length_of : ℕ
  pub fits : length_of < n
  pub ends : r (s + length_of) ≡ 0
  pub copies : (i : ℕ) → i < length_of → (r (s + i) ≡ m (t + i)) × (m (t + i) ≢ 0)
  pub others : (a : ℕ) → (a < s) ⊎ (s + n ≤ a) → r a ≡ m a

Copied-cons :
    (s t n : ℕ) (m r : Memory)
    → Apart s t (suc (suc n))
    → m t ≢ 0
    → Copied (s + 1) (t + 1) (suc n) (poke m s (m t)) r
    → Copied s t (suc (suc n)) m r
Copied-cons s t n m r h z c = record {
  length_of = suc c.length_of;
  fits = omega (arith, c.fits);
  ends = rw (shift s c.length_of) c.ends;
  copies = copies;
  others = λ a o. c.others a (ground arith) ∙ ground arith;
}
  where
    copies : (i : ℕ) → i < suc c.length_of → (r (s + i) ≡ m (t + i)) × (m (t + i) ≢ 0)
    copies zero l =
        let e : s + 0 ≡ s = omega arith in
        let f : t + 0 ≡ t = omega arith in rw (e, f) (c.others s (omega arith) ∙ ground arith, z)
    copies (suc i) l =
        let (e, k) = c.copies i (omega arith) in
        let same : poke m s (m t) (t + 1 + i) ≡ m (t + 1 + i) = ground (arith, c.fits) in
        rw (shift s i, shift t i) (e ∙ same, λ x. k (same ∙ x))

one_zero : (s t n : ℕ) (m : Memory) → Copied s t (suc n) m (poke m s 0)
one_zero s t n m = record {
  length_of = 0;
  fits = omega arith;
  ends = ground arith;
  copies = λ i l. absurd (omega arith);
  others = λ b o. ground arith;
}

copy_string_lem :
    (n s t : ℕ) (m : Memory) → Apart s t (suc n) → Copied s t (suc n) m (copy_string s t n m)
unfolding copy_string
copy_string_lem zero s t m h = one_zero s t 0 m
copy_string_lem (suc n) s t m h = elim (Bool-cases (m t == 0)) [
  | inl z ↦ rw z record {
    length_of = 0;
    fits = omega arith;
    ends = ground arith;
    copies = λ i l. absurd (omega arith);
    others = λ b o. ground arith;
  }
  | inr z ↦ rw z (
      Copied-cons s t n m _ h (ground arith)
        (copy_string_lem n (s + 1) (t + 1) (poke m s (m t)) (ground arith)))
]

-- `safestrcpy` with room for at least one byte, between ranges that do not overlap, leaves at `s` a
-- string that ends within the `n` bytes and is a first part of the string at `t`, and changes no
-- byte outside the `n` bytes.
pub safestrcpy_lem :
    (n s t : ℕ) (m : Memory) → 0 < n → Apart s t n → Copied s t n m (safestrcpy s t n m)
unfolding safestrcpy
safestrcpy_lem zero s t m p h = absurd (omega arith)
safestrcpy_lem (suc n) s t m p h = copy_string_lem n s t m h

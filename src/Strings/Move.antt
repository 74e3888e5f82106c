-- ===== src/Strings/Move.antt =====
-- `memmove` copies also between ranges that overlap.
use operating_systems_work.Base.{
  ℕ, zero, suc, ◌+◌, ◌-◌, ◌≤◌, ◌≡◌, ◌∙◌, ◌&&◌, ltb, leb, if◌then◌else◌, arith, Bool-cases, dec_lt,
  ◌⊎◌, inl, inr,
}
use operating_systems_work.Strings.{Memory, poke, copy_up, copy_down, memmove}

-- The memory once the `n` bytes from `s` on have been copied to `d`, all at once.
abbrev pub moved : ℕ → ℕ → ℕ → Memory → Memory
moved d s n m a = if leb d a && ltb a (d + n) then m (a - d + s) else m a

up_step :
    (d s n a : ℕ) (m : Memory)
    → (d ≤ s) ⊎ (s + suc n ≤ d)
    → moved (d + 1) (s + 1) n (poke m d (m s)) a ≡ moved d s (suc n) m a
up_step d s n a m h = elim (dec_lt d a) [
  | yes l ↦ let q : a - (d + 1) + (s + 1) ≡ a - d + s = omega arith in rw q (ground arith)
  | no l ↦ elim (dec_lt a d) [
    | yes k ↦ ground arith
    | no k ↦
        let q : a ≡ d = omega arith in let r : a - d + s ≡ s = omega arith in rw r (ground arith)
  ]
]

copy_up_lem :
    (n d s : ℕ) (m : Memory) → (d ≤ s) ⊎ (s + n ≤ d) → (a : ℕ) → copy_up n d s m a ≡ moved d s n m a
unfolding copy_up
copy_up_lem zero d s m h a = ground arith
copy_up_lem (suc n) d s m h a =
    copy_up_lem n (d + 1) (s + 1) _ (ground arith) a ∙ up_step d s n a m h

down_step :
    (d s n a : ℕ) (m : Memory)
    → s ≤ d
    → moved d s n (poke m (d + n) (m (s + n))) a ≡ moved d s (suc n) m a
down_step d s n a m h = elim (dec_lt a (d + n)) [
  | yes l ↦ ground arith
  | no l ↦ elim (dec_lt (d + n) a) [
    | yes k ↦ ground arith
    | no k ↦
        let q : a ≡ d + n = omega arith in
        let r : a - d + s ≡ s + n = omega arith in rw r (ground arith)
  ]
]

copy_down_lem :
    (n d s : ℕ) (m : Memory) → s ≤ d → (a : ℕ) → copy_down n (d + n) (s + n) m a ≡ moved d s n m a
unfolding copy_down
copy_down_lem zero d s m h a = ground arith
copy_down_lem (suc n) d s m h a =
    let e : d + suc n - 1 ≡ d + n = omega arith in
    let f : s + suc n - 1 ≡ s + n = omega arith in
    rw (copy_down, e, f) (copy_down_lem n d s _ h a ∙ down_step d s n a m h)

-- After `memmove` the `n` bytes from `d` on are those that were at `s`, also if the ranges overlap,
-- and no other byte has changed.
pub memmove_lem : (d s n : ℕ) (m : Memory) (a : ℕ) → memmove d s n m a ≡ moved d s n m a
unfolding memmove
memmove_lem d s n m a = elim (Bool-cases (ltb s d && ltb d (s + n))) [
  | inl e ↦ rw e (copy_down_lem n d s m (ground arith) a)
  | inr e ↦ rw e (copy_up_lem n d s m (ground arith) a)
]

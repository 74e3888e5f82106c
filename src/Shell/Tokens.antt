-- ===== src/Shell/Tokens.antt =====
-- What `gettoken` and `peek` of the shell do to the text.
use operating_systems_work.Base.{
  ℕ, suc, ◌<◌, ◌≤◌, ◌≡◌, refl, sym, subst, Bool, true, false, ◌&&◌, not, [], ◌∷◌, ◌==◌, length,
  if◌then◌else◌, arith, Bool-cases, inl, inr,
}
use operating_systems_work.Shell.{
  Text, is_in, whitespace, symbols, is_word_byte, skip_space, word_of, after_word, is_append,
  behind, Token, at_end, symbol, append, word, token_of, gettoken, starts, peek,
}

abbrev pub AllWordBytes : Text → Type 0
AllWordBytes [] = Unit
AllWordBytes (c ∷ s) = (is_word_byte c ≡ true) × AllWordBytes s

-- Some bytes, none of them space or a symbol.
abbrev pub IsWord : Text → Type 0
IsWord [] = ⊥
IsWord (c ∷ s) = (is_word_byte c ≡ true) × AllWordBytes s

abbrev IsTrimmed : Text → Type 0
IsTrimmed [] = Unit
IsTrimmed (c ∷ s) = is_in c whitespace ≡ false

skip_space-IsTrimmed : (s : Text) → IsTrimmed (skip_space s)
unfolding skip_space
skip_space-IsTrimmed [] = tt
skip_space-IsTrimmed (c ∷ s) = elim (Bool-cases (is_in c whitespace)) [
  | inl e ↦ rw (skip_space, e) (skip_space-IsTrimmed s)
  | inr e ↦ rw (skip_space, e) e
]

pub length-skip_space : (s : Text) → length (skip_space s) ≤ length s
unfolding skip_space
length-skip_space [] = omega arith
length-skip_space (c ∷ s) = elim (Bool-cases (is_in c whitespace)) [
  | inl e ↦ rw (skip_space, e) (omega (arith, length-skip_space s))
  | inr e ↦ rw (skip_space, e) (omega arith)
]

length-after_word : (s : Text) → length (after_word s) ≤ length s
unfolding after_word
length-after_word [] = omega arith
length-after_word (c ∷ s) = elim (Bool-cases (is_word_byte c)) [
  | inl e ↦ rw (after_word, e) (omega (arith, length-after_word s))
  | inr e ↦ rw (after_word, e) (omega arith)
]

word_of-AllWordBytes : (s : Text) → AllWordBytes (word_of s)
unfolding word_of
word_of-AllWordBytes [] = tt
word_of-AllWordBytes (c ∷ s) = elim (Bool-cases (is_word_byte c)) [
  | inl e ↦ rw (word_of, e) (e, word_of-AllWordBytes s)
  | inr e ↦ rw (word_of, e) tt
]

-- A token takes at least a byte, except at the end.
abbrev pub TokenPost : ℕ → Token × Text → Type 0
TokenPost n (at_end, rest) = length rest ≤ n
TokenPost n (symbol c, rest) = length rest < n
TokenPost n (append, rest) = length rest < n
TokenPost n (word w, rest) = (length rest < n) × IsWord w

append_lem :
    (s : Text)
    → TokenPost (suc (length s)) (if is_append s then (append, behind s) else (symbol 62, s))
append_lem [] = omega arith
append_lem (c ∷ s) = elim (Bool-cases (c == 62)) [
  | inl e ↦ rw e (omega arith)
  | inr e ↦ rw e (omega arith)
]

word_lem :
    (c : ℕ) (s : Text)
    → is_word_byte c ≡ true
    → TokenPost (suc (length s)) (word (word_of (c ∷ s)), after_word (c ∷ s))
unfolding word_of after_word
word_lem c s e =
    rw (word_of, after_word, e) (omega (arith, length-after_word s), (e, word_of-AllWordBytes s))

pub if_true {ℓ} : {A : Type ℓ} {b : Bool} (x y : A) → b ≡ true → (if b then x else y) ≡ x
if_true x y e = rw e refl

pub if_false {ℓ} : {A : Type ℓ} {b : Bool} (x y : A) → b ≡ false → (if b then x else y) ≡ y
if_false x y e = rw e refl

token_of_lem : (t : Text) → IsTrimmed t → TokenPost (length t) (token_of t)
unfolding token_of
token_of_lem [] h = omega arith
token_of_lem (c ∷ s) h = elim (Bool-cases (c == 62)) [
  | inl e ↦ subst (TokenPost (suc (length s))) (sym (if_true _ _ e)) (append_lem s)
  | inr e ↦
      subst (TokenPost (suc (length s))) (sym (if_false _ _ e))
        (elim (Bool-cases (is_in c symbols)) [
          | inl g ↦ subst (TokenPost (suc (length s))) (sym (if_true _ _ g)) (omega arith)
          | inr g ↦
              subst (TokenPost (suc (length s))) (sym (if_false _ _ g))
                (word_lem c s (plain (is_in c whitespace) (is_in c symbols) h g))
        ])
]
  where
    plain : (a b : Bool) → a ≡ false → b ≡ false → (not a && not b) ≡ true
    plain a b e g = rw (e, g) refl

weaker : (n m : ℕ) (x : Token × Text) → n ≤ m → TokenPost n x → TokenPost m x
weaker n m (at_end, rest) h p = omega arith
weaker n m (symbol c, rest) h p = omega arith
weaker n m (append, rest) h p = omega arith
weaker n m (word w, rest) h (p, q) = (omega arith, q)

trimmed : (n : ℕ) (x : Token × Text) → TokenPost n x → TokenPost n (x.0, skip_space x.1)
trimmed n (at_end, rest) p = omega (arith, length-skip_space rest)
trimmed n (symbol c, rest) p = omega (arith, length-skip_space rest)
trimmed n (append, rest) p = omega (arith, length-skip_space rest)
trimmed n (word w, rest) (p, q) = (omega (arith, length-skip_space rest), q)

pub gettoken_lem : (s : Text) → TokenPost (length s) (gettoken s)
unfolding gettoken
gettoken_lem s = trimmed (length s) (token_of (skip_space s)) (
    weaker (length (skip_space s)) (length s) (token_of (skip_space s)) (length-skip_space s)
      (token_of_lem (skip_space s) (skip_space-IsTrimmed s)))

-- After `peek` has found one of its bytes, `gettoken` takes something.
token_of-shorter :
    (c : ℕ) (s : Text) → is_in c whitespace ≡ false → length (token_of (c ∷ s)).1 < suc (length s)
unfolding token_of
token_of-shorter c s h = elim (Bool-cases (c == 62)) [
  | inl e ↦
      subst (λ (x : Token × Text). length x.1 < suc (length s)) (sym (if_true _ _ e))
        (elim (Bool-cases (is_append s)) [
          | inl g ↦
              subst (λ (x : Token × Text). length x.1 < suc (length s)) (sym (if_true _ _ g))
                (behind_lem s)
          | inr g ↦
              subst (λ (x : Token × Text). length x.1 < suc (length s)) (sym (if_false _ _ g))
                (omega arith)
        ])
  | inr e ↦
      subst (λ (x : Token × Text). length x.1 < suc (length s)) (sym (if_false _ _ e))
        (elim (Bool-cases (is_in c symbols)) [
          | inl g ↦
              subst (λ (x : Token × Text). length x.1 < suc (length s)) (sym (if_true _ _ g))
                (omega arith)
          | inr g ↦
              subst (λ (x : Token × Text). length x.1 < suc (length s)) (sym (if_false _ _ g))
                (word_lem c s (plain (is_in c whitespace) (is_in c symbols) h g)).0
        ])
]
  where
    behind_lem : (s : Text) → length (behind s) < suc (length s)
    behind_lem [] = omega arith
    behind_lem (c ∷ s) = omega arith

    plain : (a b : Bool) → a ≡ false → b ≡ false → (not a && not b) ≡ true
    plain a b e g = rw (e, g) refl

found_shorter :
    (toks t : Text) → IsTrimmed t → starts toks t ≡ true → length (token_of t).1 < length t
found_shorter toks [] h e = absurd cc
found_shorter toks (c ∷ s) h e = token_of-shorter c s h

pub peek-gettoken : (toks s : Text) → peek toks s ≡ true → length (gettoken s).1 < length s
unfolding gettoken peek
peek-gettoken toks s h =
    let p : length (token_of (skip_space s)).1 < length (skip_space s) =
      found_shorter toks (skip_space s) (skip_space-IsTrimmed s) h in
    omega (arith, length-skip_space (token_of (skip_space s)).1, length-skip_space s, p)

-- ===== src/Grep/Meaning.antt =====
-- What the matcher of grep.c matches.
use operating_systems_work.Base.{
  ℕ, ◌≡◌, ◌≢◌, refl, sym, ap, subst, ◌∙◌, inl, inr, Bool, true, false, ◌||◌, List, [], ◌∷◌, ◌++◌,
  ◌==◌, if◌then◌else◌, Bool-cases, arith,
}
use operating_systems_work.Grep.{
  caret, dollar, dot, star, is_nil, one_of, matchstar, match_one, matchhere, search_from,
  match_line,
}

-- All of the bytes are the character `c`, or it is a dot.
abbrev pub AllOf : ℕ → List ℕ → Type 0
AllOf c [] = Unit
AllOf c (x ∷ xs) = (one_of c x ≡ true) × AllOf c xs

-- No star follows, and the character is not a dollar at the end.
abbrev pub IsSingle : ℕ → List ℕ → Type 0
IsSingle c [] = c ≢ dollar
IsSingle c (d ∷ re) = d ≢ star

-- The expression describes the beginning of the text.
pub data Here : List ℕ → List ℕ → Type 0 where
  at_end : {text : List ℕ} → Here [] text
  anchor : Here (dollar ∷ []) []
  single :
      (c x : ℕ) (re xs : List ℕ)
      → IsSingle c re
      → one_of c x ≡ true
      → Here re xs
      → Here (c ∷ re) (x ∷ xs)
  repeated :
      (c : ℕ) (re rest pre : List ℕ)
      → AllOf c pre
      → Here re rest
      → Here (c ∷ star ∷ re) (pre ++ rest)

-- The text is bytes for the starred character, and a text that the expression after it describes.
abbrev Starred : ℕ → List ℕ → List ℕ → Type 0
Starred c re text =
    (pre : List ℕ) × (rest : List ℕ) × (text ≡ pre ++ rest) × AllOf c pre × Here re rest

either : (c x : ℕ) → ((x == c) || (c == dot)) ≡ one_of c x
either c x = ground arith

if_false : {b : Bool} → (if b then true else false) ≡ true → b ≡ true
if_false h = ground arith

matchstar_sound :
    (c : ℕ) (re text : List ℕ)
    → ((t : List ℕ) → matchhere re t ≡ true → Here re t)
    → matchstar c (matchhere re) text ≡ true
    → Starred c re text
unfolding matchstar
matchstar_sound c re [] k h = ([], [], refl, tt, k [] h)
matchstar_sound c re (x ∷ xs) k h = elim (Bool-cases (matchhere re (x ∷ xs))) [
  | inl e ↦ ([], x ∷ xs, refl, tt, k (x ∷ xs) e)
  | inr e ↦ elim (Bool-cases ((x == c) || (c == dot))) [
    | inl o ↦
        (let (pre, rest, s, a, r) = matchstar_sound c re xs k (rw (e, o, matchstar) at h) in
          (x ∷ pre, rest, ap (λ t. x ∷ t) s, (sym (either c x) ∙ o, a), r))
    | inr o ↦ absurd (let h' : false ≡ true = rw (e, o, matchstar) at h in cc)
  ]
]

matchstar_complete :
    (c : ℕ) (re pre rest : List ℕ)
    → AllOf c pre
    → matchhere re rest ≡ true
    → matchstar c (matchhere re) (pre ++ rest) ≡ true
unfolding matchstar
matchstar_complete c re [] [] a h = h
matchstar_complete c re [] (y ∷ ys) a h = rw h refl
matchstar_complete c re (x ∷ xs) rest a h =
    let r = matchstar_complete c re xs rest a.1 h in
    elim (Bool-cases (matchhere re (x ∷ (xs ++ rest)))) [
      | inl e ↦ rw e refl
      | inr e ↦ rw (e, either c x, a.0) r
    ]

not_eq : (a b : ℕ) → a ≢ b → (a == b) ≡ false
not_eq a b h = ground arith

-- If the expression describes the beginning of the text, `matchhere` returns 1.
pub matchhere_complete : {re text : List ℕ} → Here re text → matchhere re text ≡ true
unfolding matchhere
matchhere_complete at_end = refl
matchhere_complete anchor = refl
matchhere_complete (single c x [] xs s o h) = rw (not_eq c dollar s, o) refl
matchhere_complete (single c x (d ∷ re) xs s o h) = rw (not_eq d star s, o) (matchhere_complete h)
matchhere_complete (repeated c re rest pre a h) =
    matchstar_complete c re pre rest a (matchhere_complete h)

one_sound :
    (c : ℕ) (re text : List ℕ)
    → IsSingle c re
    → ((t : List ℕ) → matchhere re t ≡ true → Here re t)
    → match_one c (matchhere re) text ≡ true
    → Here (c ∷ re) text
one_sound c re [] s k h = absurd cc
one_sound c re (x ∷ xs) s k h = elim (Bool-cases (one_of c x)) [
  | inl o ↦ single c x re xs s o (k xs (rw o at h))
  | inr o ↦ absurd (let h' : false ≡ true = rw o at h in cc)
]

is_nil_lem : (text : List ℕ) → is_nil text ≡ true → text ≡ []
is_nil_lem [] h = refl
is_nil_lem (x ∷ xs) h = absurd cc

equal : (a b : ℕ) → (a == b) ≡ true → b ≡ a
equal a b h = ground arith

differ : (a b : ℕ) → (a == b) ≡ false → a ≢ b
differ a b h e = ground arith

-- If `matchhere` returns 1, the expression describes the beginning of the text.
pub matchhere_sound : (re text : List ℕ) → matchhere re text ≡ true → Here re text
unfolding matchhere
matchhere_sound [] text h = at_end
matchhere_sound (c ∷ []) text h = elim (Bool-cases (c == dollar)) [
  | inl e ↦
      subst (λ d. Here (d ∷ []) text) (equal c dollar e)
        (subst (Here (dollar ∷ [])) (sym (is_nil_lem text (rw e at h))) anchor)
  | inr e ↦ one_sound c [] text (differ c dollar e) (λ t _. at_end) (rw e at h)
]
matchhere_sound (c ∷ d ∷ re) text h = elim (Bool-cases (d == star)) [
  | inl e ↦
      (let (pre, rest, s, a, r) = matchstar_sound c re text (matchhere_sound re) (rw e at h) in
        subst (λ y. Here (c ∷ y ∷ re) text) (equal d star e)
          (subst (Here (c ∷ star ∷ re)) (sym s) (repeated c re rest pre a r)))
  | inr e ↦ one_sound c (d ∷ re) text (differ d star e) (matchhere_sound (d ∷ re)) (rw e at h)
]

-- A line matches: the expression describes its beginning, if a caret is in front of it, and
-- otherwise the beginning of some last part of it.
abbrev pub Found : List ℕ → List ℕ → Type 0
Found re text = (pre : List ℕ) × (rest : List ℕ) × (text ≡ pre ++ rest) × Here re rest

abbrev pub Line : List ℕ → List ℕ → Type 0
Line [] text = Found [] text
Line (c ∷ re) text = if c == caret then Here re text else Found (c ∷ re) text

search_sound : (re text : List ℕ) → search_from re text ≡ true → Found re text
unfolding search_from
search_sound re [] h = ([], [], refl, matchhere_sound re [] h)
search_sound re (x ∷ xs) h = elim (Bool-cases (matchhere re (x ∷ xs))) [
  | inl e ↦ ([], x ∷ xs, refl, matchhere_sound re (x ∷ xs) e)
  | inr e ↦
      (let (pre, rest, s, r) = search_sound re xs (rw (e, search_from) at h) in
        (x ∷ pre, rest, ap (λ t. x ∷ t) s, r))
]

search_complete :
    (re pre rest : List ℕ) → matchhere re rest ≡ true → search_from re (pre ++ rest) ≡ true
unfolding search_from
search_complete re [] [] h = h
search_complete re [] (y ∷ ys) h = rw h refl
search_complete re (x ∷ xs) rest h = elim (Bool-cases (matchhere re (x ∷ (xs ++ rest)))) [
  | inl e ↦ rw e refl
  | inr e ↦ rw e (search_complete re xs rest h)
]

search_lem :
    (re text : List ℕ)
    → (search_from re text ≡ true → Found re text) × (Found re text → search_from re text ≡ true)
search_lem re text = (
  search_sound re text,
  λ f. ap (search_from re) f.2 ∙ search_complete re f.0 f.1 (matchhere_complete f.3),
)

-- `match` returns 1 exactly on the lines that the expression describes.
pub match_line_lem :
    (re text : List ℕ)
    → (match_line re text ≡ true → Line re text) × (Line re text → match_line re text ≡ true)
unfolding match_line
match_line_lem [] text = search_lem [] text
match_line_lem (c ∷ re) text = elim (Bool-cases (c == caret)) [
  | inl e ↦ rw e (matchhere_sound re text, matchhere_complete)
  | inr e ↦ rw e (search_lem (c ∷ re) text)
]

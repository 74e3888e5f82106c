-- ===== src/Grep.antt =====
-- The regular expressions of ass5/final_repo/grep.c.
pub mod Meaning
use operating_systems_work.Base.{
  ℕ, Bool, true, false, ◌&&◌, ◌||◌, List, [], ◌∷◌, ◌==◌, if◌then◌else◌,
}

-- The characters with a meaning: ^ $ . *
abbrev pub caret : ℕ
caret = 94

abbrev pub dollar : ℕ
dollar = 36

abbrev pub dot : ℕ
dot = 46

abbrev pub star : ℕ
star = 42

abbrev pub is_nil : List ℕ → Bool
is_nil [] = true
is_nil _ = false

-- The test `re[0]=='.' || re[0]==*text`
abbrev pub one_of : ℕ → ℕ → Bool
one_of c x = (c == dot) || (c == x)

-- `matchstar(c, re, text)`, where `here` is `matchhere(re, -)`. A string is the list of its bytes
-- before the zero.
unfoldable pub matchstar : ℕ → (List ℕ → Bool) → List ℕ → Bool
matchstar c here [] = here []
matchstar c here (x ∷ xs) =
    let rest = matchstar c here xs in
    if here (x ∷ xs) then true else if (x == c) || (c == dot) then rest else false

-- The last test of `matchhere`, where `here` is `matchhere(re+1, -)`.
abbrev pub match_one : ℕ → (List ℕ → Bool) → List ℕ → Bool
match_one c here [] = false
match_one c here (x ∷ xs) = if one_of c x then here xs else false

unfoldable pub matchhere : List ℕ → List ℕ → Bool
matchhere [] text = true
matchhere (c ∷ []) text = if c == dollar then is_nil text else match_one c (matchhere []) text
matchhere (c ∷ d ∷ re) text =
    let repeat = matchstar c (matchhere re) text in
    let one = match_one c (matchhere (d ∷ re)) text in if d == star then repeat else one

-- The loop of `match`.
unfoldable pub search_from : List ℕ → List ℕ → Bool
search_from re [] = matchhere re []
search_from re (x ∷ xs) =
    let rest = search_from re xs in if matchhere re (x ∷ xs) then true else rest

unfoldable pub match_line : List ℕ → List ℕ → Bool
match_line [] text = search_from [] text
match_line (c ∷ re) text = if c == caret then matchhere re text else search_from (c ∷ re) text

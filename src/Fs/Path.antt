-- ===== src/Fs/Path.antt =====
-- Path names: `skipelem` of fs.c.
use operating_systems_work.Base.{
  ℕ, ◌<◌, ◌≡◌, ◌≢◌, Option, none, some, List, [], ◌∷◌, ◌==◌, ltb, if◌then◌else◌, length, get_or,
}

-- `*path == '/'`. A path is its bytes before the zero.
abbrev pub slash : ℕ
slash = 47

-- DIRSIZ
abbrev pub dirsiz : ℕ
dirsiz = 14

-- `while(*path == '/') path++;`
unfoldable pub skip_slashes : List ℕ → List ℕ
skip_slashes [] = []
skip_slashes (c ∷ r) = let rest = skip_slashes r in if c == slash then rest else c ∷ r

-- The bytes that `while(*path != '/' && *path != 0) path++;` passes, and what is left.
unfoldable pub take_elem : List ℕ → List ℕ × List ℕ
take_elem [] = ([], [])
take_elem (c ∷ r) = let (s, rest) = take_elem r in if c == slash then ([], c ∷ r) else (c ∷ s, rest)

-- The two ways of copying an element into `name`.
unfoldable pub store_name : List ℕ → (ℕ → ℕ) → ℕ → ℕ
store_name s name i =
    if ltb (length s) dirsiz
    then if ltb i (length s) then get_or s i 0 else if i == length s then 0 else name i
    else if ltb i dirsiz
    then get_or s i 0
    else name i

-- `none` is the null pointer.
unfoldable pub skipelem : List ℕ → (ℕ → ℕ) → Option (List ℕ × (ℕ → ℕ))
skipelem path name = elim (skip_slashes path) [
  | [] ↦ none
  | c ∷ r ↦ (let (s, rest) = take_elem (c ∷ r) in some (skip_slashes rest, store_name s name))
]

-- Two names are the same to `namecmp`.
abbrev pub SameName : (ℕ → ℕ) → (ℕ → ℕ) → Type 0
SameName a b = (i : ℕ) → i < dirsiz → ((j : ℕ) → j < i → a j ≢ 0) → a i ≡ b i

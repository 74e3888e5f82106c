-- ===== src/Tests/Strings.antt =====
-- Runs of the string functions and of the matcher of ass5/final_repo.
use operating_systems_work.Base.{ℕ, ◌%◌, ◌≡◌, ◌<◌, inr, arith, [], ◌∷◌, true}
use operating_systems_work.Strings.{Memory, memmove}
use operating_systems_work.Strings.Move.{moved, memmove_lem}
use operating_systems_work.Strings.Terminate.{Apart}
use operating_systems_work.Grep.{match_line}
use operating_systems_work.Grep.Meaning.{Line, match_line_lem}

abbrev bytes : Memory
bytes a = a % 256

memmove_lem_example : memmove 12 10 5 bytes 14 ≡ moved 12 10 5 bytes 14
memmove_lem_example = memmove_lem 12 10 5 bytes 14

bytes_small : (a : ℕ) → bytes a < 256
bytes_small a = omega arith

apart : Apart 300 250 8
apart = inr (omega arith)

room : 0 < 8
room = omega arith

-- The expression ^a*b.$ and the line aabc
match_line_lem_example :
    (match_line (94 ∷ 97 ∷ 42 ∷ 98 ∷ 46 ∷ 36 ∷ []) (97 ∷ 97 ∷ 98 ∷ 99 ∷ []) ≡ true
      → Line (94 ∷ 97 ∷ 42 ∷ 98 ∷ 46 ∷ 36 ∷ []) (97 ∷ 97 ∷ 98 ∷ 99 ∷ []))
    × (Line (94 ∷ 97 ∷ 42 ∷ 98 ∷ 46 ∷ 36 ∷ []) (97 ∷ 97 ∷ 98 ∷ 99 ∷ [])
        → match_line (94 ∷ 97 ∷ 42 ∷ 98 ∷ 46 ∷ 36 ∷ []) (97 ∷ 97 ∷ 98 ∷ 99 ∷ []) ≡ true)
match_line_lem_example = match_line_lem (94 ∷ 97 ∷ 42 ∷ 98 ∷ 46 ∷ 36 ∷ []) (97 ∷ 97 ∷ 98 ∷ 99 ∷ [])

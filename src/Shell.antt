-- ===== src/Shell.antt =====
-- The parser of the shell, ass5/final_repo/sh.c. A text is the list of the bytes from `*ps` up to
-- `es`, where `strlen` has found the first zero, so that no byte of it is 0.
pub mod Tokens
pub mod Arguments
pub mod Accepted
pub mod Print
pub mod Simple
pub mod Reparse
pub mod RoundTrip
use operating_systems_work.Base.{
  ℕ, zero, suc, Bool, false, ◌&&◌, ◌||◌, not, List, [], ◌∷◌, ◌++◌, ◌==◌, leb, length, ◌+◌,
  if◌then◌else◌,
}

abbrev pub Text : Type 0
Text = List ℕ

-- `strchr(toks, c)` for a `c` that is not 0.
abbrev pub is_in : ℕ → Text → Bool
is_in c [] = false
is_in c (t ∷ ts) = (c == t) || is_in c ts

-- " \t\r\n\v" and "<|>&;()"
abbrev pub whitespace : Text
whitespace = 32 ∷ 9 ∷ 13 ∷ 10 ∷ 11 ∷ []

abbrev pub symbols : Text
symbols = 60 ∷ 124 ∷ 62 ∷ 38 ∷ 59 ∷ 40 ∷ 41 ∷ []

abbrev pub is_word_byte : ℕ → Bool
is_word_byte c = not (is_in c whitespace) && not (is_in c symbols)

-- `while(s < es && strchr(whitespace, *s)) s++;`
unfoldable pub skip_space : Text → Text
skip_space [] = []
skip_space (c ∷ s) = let rest = skip_space s in if is_in c whitespace then rest else c ∷ s

-- The loop over the bytes of a word: the word, and what is behind it.
unfoldable pub word_of : Text → Text
word_of [] = []
word_of (c ∷ s) = let rest = word_of s in if is_word_byte c then c ∷ rest else []

unfoldable pub after_word : Text → Text
after_word [] = []
after_word (c ∷ s) = let rest = after_word s in if is_word_byte c then rest else c ∷ s

-- The second character of `>>`.
abbrev pub is_append : Text → Bool
is_append [] = false
is_append (c ∷ s) = c == 62

abbrev pub behind : Text → Text
behind [] = []
behind (c ∷ s) = s

-- What `gettoken` returns: 0 at the end, `'a'` for a word, `'+'` for `>>`, else the symbol.
pub data Token : Type 0 where
  at_end : Token
  symbol : ℕ → Token
  append : Token
  word : Text → Token

-- The `switch` of `gettoken`, on a text without leading space; with `[*q, *eq)` in a `word`.
unfoldable pub token_of : Text → Token × Text
token_of [] = (at_end, [])
token_of (c ∷ s) =
    if c == 62
    then if is_append s then (append, behind s) else (symbol 62, s)
    else if is_in c symbols
    then (symbol c, s)
    else (word (word_of (c ∷ s)), after_word (c ∷ s))

unfoldable pub gettoken : Text → Token × Text
gettoken s = let (t, rest) = token_of (skip_space s) in (t, skip_space rest)

abbrev pub starts : Text → Text → Bool
starts toks [] = false
starts toks (c ∷ s) = is_in c toks

-- The answer of `peek`; the text that it leaves is `skip_space s`.
unfoldable pub peek : Text → Text → Bool
peek toks s = starts toks (skip_space s)

-- `'<'` opens for reading as 0; both `'>'` and `'+'` open for writing and creating as 1.
pub data Redirect : Type 0 where
  input output : Redirect

-- `struct cmd` and the structs that start like it, with the strings that `nulterminate` ends.
pub data Cmd : Type 0 where
  exec_cmd : List Text → Cmd
  redir_cmd : Cmd → Text → Redirect → Cmd
  pipe_cmd : Cmd → Cmd → Cmd
  list_cmd : Cmd → Cmd → Cmd
  back_cmd : Cmd → Cmd

-- A result with the text that is left, a `panic`, or no fuel left in the model.
pub data Parsed (A : Type 0) : Type 0 where
  ok : A → Text → Parsed A
  panic : Parsed A
  no_fuel : Parsed A

-- MAXARGS
abbrev pub max_args : ℕ
max_args = 10

-- The `switch` of `parseredirs`; nothing is done for another token.
abbrev pub redirect : Token → Text → Cmd → Cmd
redirect (symbol c) file cmd =
    if c == 60 then redir_cmd cmd file input else if c == 62 then redir_cmd cmd file output else cmd
redirect append file cmd = redir_cmd cmd file output
redirect at_end file cmd = cmd
redirect (word w) file cmd = cmd

-- `parseredirs`, as the change that it makes to the command: in `parseexec` the command inside is the
-- `struct execcmd` that the caller goes on to fill.
unfoldable pub parseredirs : ℕ → (Cmd → Cmd) → Text → Parsed (Cmd → Cmd)
parseredirs zero wrap s = no_fuel
parseredirs (suc n) wrap s =
    let (tok, s₁) = gettoken s in
    let (name, s₂) = gettoken s₁ in
    let next : Parsed (Cmd → Cmd) = elim name [
      | word file ↦ parseredirs n (λ c. redirect tok file (wrap c)) s₂
      | at_end ↦ panic
      | symbol c ↦ panic
      | append ↦ panic
    ] in
    if peek (60 ∷ 62 ∷ []) s then next else ok wrap (skip_space s)

-- The loop of `parseexec` with the arguments so far.
unfoldable pub parse_args : ℕ → List Text → (Cmd → Cmd) → Text → Parsed Cmd
parse_args zero argv wrap s = no_fuel
parse_args (suc n) argv wrap s =
    let (tok, s₁) = gettoken s in
    let next : Parsed Cmd = elim tok [
      | at_end ↦ ok (wrap (exec_cmd argv)) s₁
      | word w ↦
          (let rest : Parsed Cmd = elim (parseredirs n wrap s₁) [
            | ok wrap' s₂ ↦ parse_args n (argv ++ w ∷ []) wrap' s₂
            | panic ↦ panic
            | no_fuel ↦ no_fuel
          ] in
            if leb max_args (length argv + 1) then panic else rest)
      | symbol c ↦ panic
      | append ↦ panic
    ] in
    if peek (124 ∷ 41 ∷ 38 ∷ 59 ∷ []) s then ok (wrap (exec_cmd argv)) (skip_space s) else next

-- The functions that call each other take `parseline` of less fuel, as `line`.
unfoldable pub parseblock : ℕ → (Text → Parsed Cmd) → Text → Parsed Cmd
parseblock n line s = if not (peek (40 ∷ []) s) then panic else elim (line (gettoken s).1) [
  | panic ↦ panic
  | no_fuel ↦ no_fuel
  | ok cmd s₁ ↦
      if not (peek (41 ∷ []) s₁) then panic else elim (parseredirs n (λ c. c) (gettoken s₁).1) [
        | ok wrap s₂ ↦ ok (wrap cmd) s₂
        | panic ↦ panic
        | no_fuel ↦ no_fuel
      ]
]

unfoldable pub parseexec : ℕ → (Text → Parsed Cmd) → Text → Parsed Cmd
parseexec n line s =
    if peek (40 ∷ []) s
    then parseblock n line (skip_space s)
    else elim (parseredirs n (λ c. c) (skip_space s)) [
      | ok wrap s₁ ↦ parse_args n [] wrap s₁
      | panic ↦ panic
      | no_fuel ↦ no_fuel
    ]

unfoldable pub parsepipe : ℕ → ℕ → (Text → Parsed Cmd) → Text → Parsed Cmd
parsepipe zero n line s = no_fuel
parsepipe (suc m) n line s = elim (parseexec n line s) [
  | panic ↦ panic
  | no_fuel ↦ no_fuel
  | ok cmd s₁ ↦
      if peek (124 ∷ []) s₁
      then elim (parsepipe m n line (gettoken s₁).1) [
        | ok right s₂ ↦ ok (pipe_cmd cmd right) s₂
        | panic ↦ panic
        | no_fuel ↦ no_fuel
      ]
      else ok cmd (skip_space s₁)
]

-- `while(peek(ps, es, "&")){ ... }`
unfoldable pub parse_backs : ℕ → Cmd → Text → Parsed Cmd
parse_backs zero cmd s = no_fuel
parse_backs (suc m) cmd s =
    let rest = parse_backs m (back_cmd cmd) (gettoken s).1 in
    if peek (38 ∷ []) s then rest else ok cmd (skip_space s)

unfoldable pub parseline : ℕ → Text → Parsed Cmd
parseline zero s = no_fuel
parseline (suc n) s = elim (parsepipe (suc n) (suc n) (parseline n) s) [
  | panic ↦ panic
  | no_fuel ↦ no_fuel
  | ok cmd s₁ ↦ elim (parse_backs (suc n) cmd s₁) [
    | panic ↦ panic
    | no_fuel ↦ no_fuel
    | ok cmd' s₂ ↦
        if peek (59 ∷ []) s₂
        then elim (parseline n (gettoken s₂).1) [
          | ok right s₃ ↦ ok (list_cmd cmd' right) s₃
          | panic ↦ panic
          | no_fuel ↦ no_fuel
        ]
        else ok cmd' (skip_space s₂)
  ]
]

abbrev pub finish : Cmd → Text → Parsed Cmd
finish cmd [] = ok cmd []
finish cmd (c ∷ s) = panic

-- `parsecmd`; the leftovers that it prints are left out.
unfoldable pub parsecmd : Text → Parsed Cmd
parsecmd s = elim (parseline (suc (length s)) s) [
  | ok cmd rest ↦ finish cmd (skip_space rest)
  | panic ↦ panic
  | no_fuel ↦ no_fuel
]

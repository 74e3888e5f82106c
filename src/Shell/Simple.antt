-- ===== src/Shell/Simple.antt =====
-- The parser of the shell on the text of a simple command.
use operating_systems_work.Base.{
  ℕ, zero, suc, ◌+◌, ◌<◌, ◌≤◌, ◌≡◌, refl, ap, ap₂, ◌∙◌, true, false, List, [], ◌∷◌, ◌++◌, ◌==◌, leb,
  length, length-append, arith,
}
use operating_systems_work.Shell.{
  Text, is_in, symbols, is_word_byte, skip_space, Token, at_end, append, symbol, word, token_of,
  gettoken, starts, peek, Redirect, input, output, Cmd, exec_cmd, redir_cmd, Parsed, ok, panic,
  max_args, redirect, parseredirs, parse_args,
}
use operating_systems_work.Shell.Tokens.{IsWord, if_true, if_false}
use operating_systems_work.Shell.Arguments.{AllWords}
use operating_systems_work.Shell.Print.{
  sign, more_args, print_redirs, wrap_all, ends, IsEnd, skip_end, skip_redirs, redirs-IsBreak,
  skip_word, gettoken_word, peek_word,
}

abbrev pub AllFiles : List (Text × Redirect) → Type 0
AllFiles [] = Unit
AllFiles ((f, m) ∷ ds) = IsWord f × AllFiles ds

pub length-skip : (s t : Text) → s ≡ t → length s ≡ length t
length-skip s t e = ap length e

word_length : (w : Text) → IsWord w → 1 ≤ length w
word_length [] h = absurd h
word_length (c ∷ w) h = omega arith

gettoken-sign :
    (m : Redirect) (f t : Text) → IsWord f → gettoken (sign m ∷ f ++ t) ≡ (symbol (sign m), f ++ t)
unfolding gettoken token_of skip_space
gettoken-sign input f t h = ap (λ x. (symbol 60, x)) (skip_word f t h)
gettoken-sign output [] t h = absurd h
gettoken-sign output (c ∷ w) t (e, h) =
    ap (λ (x : Token × Text). (x.0, skip_space x.1)) (if_false _ _ (not_greater c e))
    ∙ ap (λ x. (symbol 62, x)) (skip_word (c ∷ w) t (e, h))
  where
    not_greater : (c : ℕ) → is_word_byte c ≡ true → (c == 62) ≡ false
    not_greater c h = ground arith

peek-sign : (m : Redirect) (s : Text) → peek (60 ∷ 62 ∷ []) (sign m ∷ s) ≡ true
unfolding peek skip_space
peek-sign input s = refl
peek-sign output s = refl

-- At the end of a command there is no redirection.
peek_end : (r : Text) → IsEnd r → peek (60 ∷ 62 ∷ []) r ≡ false
unfolding peek
peek_end r h = ap (starts (60 ∷ 62 ∷ [])) (skip_end r h) ∙ none_here r h
  where
    none_here : (r : Text) → IsEnd r → starts (60 ∷ 62 ∷ []) r ≡ false
    none_here [] h = refl
    none_here (c ∷ s) h = ground arith

pub redirs_stop :
    (n : ℕ) (wrap : Cmd → Cmd) (s : Text)
    → peek (60 ∷ 62 ∷ []) s ≡ false
    → skip_space s ≡ s
    → parseredirs (suc n) wrap s ≡ ok wrap s
unfolding parseredirs
redirs_stop n wrap s e h = if_false _ _ e ∙ ap (λ x. ok wrap x) h

-- A round of `parseredirs`, by its two tokens.
abbrev round : ℕ → (Cmd → Cmd) → Token × Text → Token × Text → Parsed (Cmd → Cmd)
round n wrap x y = elim y.0 [
  | word file ↦ parseredirs n (λ c. redirect x.0 file (wrap c)) y.1
  | at_end ↦ panic
  | symbol c ↦ panic
  | append ↦ panic
]

redirs_next :
    (n : ℕ) (wrap : Cmd → Cmd) (s s₁ s₂ f : Text) (tok : Token)
    → peek (60 ∷ 62 ∷ []) s ≡ true
    → gettoken s ≡ (tok, s₁)
    → gettoken s₁ ≡ (word f, s₂)
    → parseredirs (suc n) wrap s ≡ parseredirs n (λ c. redirect tok f (wrap c)) s₂
unfolding parseredirs
redirs_next n wrap s s₁ s₂ f tok e g h =
    if_true _ _ e ∙ ap₂ (round n wrap) g (ap (λ (x : Token × Text). gettoken x.1) g ∙ h)

pub parseredirs_all :
    (ds : List (Text × Redirect)) (n : ℕ) (wrap : Cmd → Cmd) (r : Text)
    → AllFiles ds
    → IsEnd r
    → length (print_redirs ds r) < n
    → parseredirs n wrap (print_redirs ds r) ≡ ok (λ c. wrap_all ds (wrap c)) r
parseredirs_all ds zero wrap r a h l = absurd (omega arith)
parseredirs_all [] (suc n) wrap r a h l = redirs_stop n wrap r (peek_end r h) (skip_end r h)
parseredirs_all ((f, m) ∷ ds) (suc n) wrap r (w, a) h l =
    redirs_next n wrap (sign m ∷ f ++ print_redirs ds r) (f ++ print_redirs ds r)
      (print_redirs ds r) f (symbol (sign m)) (peek-sign m _)
      (gettoken-sign m f (print_redirs ds r) w)
      (gettoken_word f (print_redirs ds r) w (redirs-IsBreak ds r h)
        ∙ ap (λ x. (word f, x)) (skip_redirs ds r h))
    ∙ parseredirs_all ds n (λ c. redirect (symbol (sign m)) f (wrap c)) r a h
        (omega (arith, length-append f (print_redirs ds r), word_length f w))
    ∙ ap (λ k. ok k r) (λ i c. wrap_all ds (same m (wrap c) i))
  where
    same : (m : Redirect) (c : Cmd) → redirect (symbol (sign m)) f c ≡ redir_cmd c f m
    same input c = refl
    same output c = refl

-- The arguments.
pub args_end :
    (n : ℕ) (argv : List Text) (wrap : Cmd → Cmd) (r : Text)
    → IsEnd r
    → parse_args (suc n) argv wrap r ≡ ok (wrap (exec_cmd argv)) r
unfolding parse_args peek gettoken token_of skip_space
args_end n argv wrap [] h = refl
args_end n argv wrap (c ∷ s) h =
    if_true _ _ (ap (starts ends) (skip_end (c ∷ s) h) ∙ h)
    ∙ ap (λ x. ok (wrap (exec_cmd argv)) x) (skip_end (c ∷ s) h)

args_next :
    (n : ℕ) (argv : List Text) (wrap wrap' : Cmd → Cmd) (s s₁ s₂ w : Text)
    → peek ends s ≡ false
    → gettoken s ≡ (word w, s₁)
    → leb max_args (length argv + 1) ≡ false
    → parseredirs n wrap s₁ ≡ ok wrap' s₂
    → parse_args (suc n) argv wrap s ≡ parse_args n (argv ++ w ∷ []) wrap' s₂
unfolding parse_args
args_next n argv wrap wrap' s s₁ s₂ w e g l h =
    (let a : (gettoken s).0 ≡ word w = ap (λ x. x.0) g in
      let b : (gettoken s).1 ≡ s₁ = ap (λ x. x.1) g in rw (parse_args, e, a, b, l, h) refl)

append_assoc : (xs : List Text) (w : Text) (ys : List Text) → (xs ++ w ∷ []) ++ ys ≡ xs ++ w ∷ ys
append_assoc [] w ys = refl
append_assoc (x ∷ xs) w ys = ap (λ z. x ∷ z) (append_assoc xs w ys)

no_ends : (c : ℕ) → is_in c ends ≡ true → is_in c symbols ≡ true
no_ends c h = ground arith

pub no_signs : (c : ℕ) → is_in c (60 ∷ 62 ∷ []) ≡ true → is_in c symbols ≡ true
no_signs c h = ground arith

skip_one : (t : Text) → skip_space t ≡ t → skip_space (32 ∷ t) ≡ t
unfolding skip_space
skip_one t e = e

pub parse_args_all :
    (ws : List Text) (w : Text) (argv : List Text) (ds : List (Text × Redirect)) (n : ℕ) (r : Text)
    → IsWord w
    → AllWords ws
    → length argv + 1 + length ws < max_args
    → AllFiles ds
    → IsEnd r
    → length (w ++ more_args ws (print_redirs ds r)) < n
    → parse_args n argv (λ c. c) (w ++ more_args ws (print_redirs ds r))
      ≡ ok (wrap_all ds (exec_cmd (argv ++ w ∷ ws))) r
parse_args_all ws w argv ds zero r p q m a h l = absurd (omega arith)
parse_args_all [] w argv ds (suc n) r p q m a h l =
    args_next n argv (λ c. c) (wrap_all ds) (w ++ print_redirs ds r) (print_redirs ds r) r w
      (peek_word ends w (print_redirs ds r) p no_ends)
      (gettoken_word w (print_redirs ds r) p (redirs-IsBreak ds r h)
        ∙ ap (λ x. (word w, x)) (skip_redirs ds r h))
      (ground arith)
      (parseredirs_all ds n (λ c. c) r a h
        (omega (arith, length-append w (print_redirs ds r), word_length w p)))
    ∙ by_fuel n (omega (arith, length-append w (print_redirs ds r), word_length w p))
  where
    by_fuel :
        (n : ℕ)
        → 0 < n
        → parse_args n (argv ++ w ∷ []) (wrap_all ds) r
          ≡ ok (wrap_all ds (exec_cmd (argv ++ w ∷ []))) r
    by_fuel zero h' = absurd (omega arith)
    by_fuel (suc n) h' = args_end n (argv ++ w ∷ []) (wrap_all ds) r h
parse_args_all (v ∷ ws) w argv ds (suc n) r p (q, qs) m a h l =
    let t : Text = v ++ more_args ws (print_redirs ds r) in
    let long : length t < n = omega (arith, length-append w (32 ∷ t), word_length w p) in
    args_next n argv (λ c. c) (λ c. c) (w ++ 32 ∷ t) t t w (peek_word ends w (32 ∷ t) p no_ends)
      (gettoken_word w (32 ∷ t) p refl ∙ ap (λ x. (word w, x)) (skip_one t (skip_word v _ q)))
      (ground arith)
      (by_fuel n t (omega (arith, long)) (peek_word (60 ∷ 62 ∷ []) v _ q no_signs)
        (skip_word v _ q))
    ∙ parse_args_all ws v (argv ++ w ∷ []) ds n r q qs
        (omega (arith, length-append argv (w ∷ []), m)) a h long
    ∙ ap (λ x. ok (wrap_all ds (exec_cmd x)) r) (append_assoc argv w (v ∷ ws))
  where
    by_fuel :
        (n : ℕ) (t : Text)
        → 0 < n
        → peek (60 ∷ 62 ∷ []) t ≡ false
        → skip_space t ≡ t
        → parseredirs n (λ c. c) t ≡ ok (λ c. c) t
    by_fuel zero t h' e g = absurd (omega arith)
    by_fuel (suc n) t h' e g = redirs_stop n (λ c. c) t e g

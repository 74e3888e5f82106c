-- ===== src/Shell/Print.antt =====
-- Commands as text, and the tokens of that text.
use operating_systems_work.Base.{
  ℕ, ◌≡◌, refl, ap, ap₂, ◌∙◌, Bool, true, false, List, [], ◌∷◌, ◌++◌, ◌==◌, arith,
}
use operating_systems_work.Shell.{
  Text, is_in, whitespace, symbols, is_word_byte, skip_space, word_of, after_word, Token, word,
  token_of, gettoken, starts, peek, Redirect, input, output, Cmd, exec_cmd, redir_cmd, pipe_cmd,
  list_cmd, back_cmd,
}
use operating_systems_work.Shell.Tokens.{AllWordBytes, IsWord, if_true, if_false}

abbrev pub sign : Redirect → ℕ
sign input = 60
sign output = 62

-- The arguments after the first one, in front of the text `r`.
abbrev pub more_args : List Text → Text → Text
more_args [] r = r
more_args (w ∷ ws) r = 32 ∷ w ++ more_args ws r

abbrev pub print_args : List Text → Text → Text
print_args [] r = r
print_args (w ∷ ws) r = w ++ more_args ws r

-- A command in front of the text `r`, with parentheses where it is not a simple one.
abbrev pub print : Cmd → Text → Text
print (exec_cmd argv) r = print_args argv r
print (redir_cmd c file mode) r = print c (sign mode ∷ file ++ r)
print (pipe_cmd c d) r = 40 ∷ print c (124 ∷ print d (41 ∷ r))
print (list_cmd c d) r = 40 ∷ print c (59 ∷ print d (41 ∷ r))
print (back_cmd c) r = 40 ∷ print c (38 ∷ 41 ∷ r)

-- Redirections behind a command.
abbrev pub print_redirs : List (Text × Redirect) → Text → Text
print_redirs [] r = r
print_redirs ((f, m) ∷ ds) r = sign m ∷ f ++ print_redirs ds r

abbrev pub wrap_all : List (Text × Redirect) → Cmd → Cmd
wrap_all [] c = c
wrap_all ((f, m) ∷ ds) c = wrap_all ds (redir_cmd c f m)

-- A text at which a simple command ends: "|", ")", "&", ";" or the end.
abbrev pub ends : Text
ends = 124 ∷ 41 ∷ 38 ∷ 59 ∷ []

abbrev pub IsEnd : Text → Type 0
IsEnd [] = Unit
IsEnd (c ∷ s) = is_in c ends ≡ true

-- A text at which a word ends.
abbrev pub IsBreak : Text → Type 0
IsBreak [] = Unit
IsBreak (c ∷ s) = is_word_byte c ≡ false

pub skip_end : (r : Text) → IsEnd r → skip_space r ≡ r
unfolding skip_space
skip_end [] h = refl
skip_end (c ∷ s) h = if_false _ _ (not_space c h)
  where
    not_space : (c : ℕ) → is_in c ends ≡ true → is_in c whitespace ≡ false
    not_space c h = ground arith

pub end-IsBreak : (r : Text) → IsEnd r → IsBreak r
end-IsBreak [] h = tt
end-IsBreak (c ∷ s) h = ground arith

pub skip_redirs :
    (ds : List (Text × Redirect)) (r : Text)
    → IsEnd r
    → skip_space (print_redirs ds r) ≡ print_redirs ds r
unfolding skip_space
skip_redirs [] r h = skip_end r h
skip_redirs ((f, input) ∷ ds) r h = refl
skip_redirs ((f, output) ∷ ds) r h = refl

pub redirs-IsBreak :
    (ds : List (Text × Redirect)) (r : Text) → IsEnd r → IsBreak (print_redirs ds r)
redirs-IsBreak [] r h = end-IsBreak r h
redirs-IsBreak ((f, input) ∷ ds) r h = refl
redirs-IsBreak ((f, output) ∷ ds) r h = refl

-- A word in front of a break.
word_of_all : (w r : Text) → AllWordBytes w → IsBreak r → word_of (w ++ r) ≡ w
unfolding word_of
word_of_all [] [] h b = refl
word_of_all [] (c ∷ s) h b = if_false _ _ b
word_of_all (c ∷ w) r (e, h) b = if_true _ _ e ∙ ap (λ x. c ∷ x) (word_of_all w r h b)

after_word_all : (w r : Text) → AllWordBytes w → IsBreak r → after_word (w ++ r) ≡ r
unfolding after_word
after_word_all [] [] h b = refl
after_word_all [] (c ∷ s) h b = if_false _ _ b
after_word_all (c ∷ w) r (e, h) b = if_true _ _ e ∙ after_word_all w r h b

word_byte_parts :
    (c : ℕ) → is_word_byte c ≡ true → (is_in c whitespace ≡ false) × (is_in c symbols ≡ false)
word_byte_parts c h = (ground arith, ground arith)

pub skip_word : (w r : Text) → IsWord w → skip_space (w ++ r) ≡ w ++ r
unfolding skip_space
skip_word [] r h = absurd h
skip_word (c ∷ w) r (e, h) = if_false _ _ (word_byte_parts c e).0

pub gettoken_word : (w r : Text) → IsWord w → IsBreak r → gettoken (w ++ r) ≡ (word w, skip_space r)
unfolding gettoken token_of
gettoken_word [] r h b = absurd h
gettoken_word (c ∷ w) r (e, h) b =
    ap (λ s. ((token_of s).0, skip_space (token_of s).1)) (skip_word (c ∷ w) r (e, h))
    ∙ ap (λ (x : Token × Text). (x.0, skip_space x.1))
        (if_false _ _ (not_greater c e)
          ∙ if_false _ _ (word_byte_parts c e).1
          ∙ ap₂ (λ (u v : Text). (word u, v)) (word_of_all (c ∷ w) r (e, h) b)
              (after_word_all (c ∷ w) r (e, h) b))
  where
    not_greater : (c : ℕ) → is_word_byte c ≡ true → (c == 62) ≡ false
    not_greater c h = ground arith

-- None of these bytes starts a word.
pub peek_word :
    (toks w r : Text)
    → IsWord w
    → ((c : ℕ) → is_in c toks ≡ true → is_in c symbols ≡ true)
    → peek toks (w ++ r) ≡ false
unfolding peek
peek_word toks [] r h g = absurd h
peek_word toks (c ∷ w) r (e, h) g =
    ap (starts toks) (skip_word (c ∷ w) r (e, h))
    ∙ other (is_in c toks) (g c) (word_byte_parts c e).1
  where
    other : (b : Bool) {t : Bool} → (b ≡ true → t ≡ true) → t ≡ false → b ≡ false
    other true h k = absurd (clash (h refl) k)
      where
        clash : {t : Bool} → t ≡ true → t ≡ false → ⊥
        clash p q = cc
    other false h k = refl

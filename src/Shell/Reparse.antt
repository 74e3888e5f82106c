-- ===== src/Shell/Reparse.antt =====
-- The parser of the shell reads a printed command back.
use operating_systems_work.Base.{ℕ, suc, ◌≡◌, refl, sym, ap, subst, ◌∙◌, true, false, [], ◌∷◌, ◌==◌}
use operating_systems_work.Shell.{
  Text, is_in, whitespace, symbols, skip_space, Token, symbol, token_of, gettoken, starts, peek,
  Cmd, pipe_cmd, list_cmd, back_cmd, Parsed, ok, parseredirs, parseblock, parseexec, parsepipe,
  parse_backs, parseline,
}
use operating_systems_work.Shell.Tokens.{if_true, if_false}
use operating_systems_work.Shell.Print.{ends, IsEnd, skip_end}

-- A text at which a line ends: ")" or the end.
abbrev pub IsStop : Text → Type 0
IsStop [] = Unit
IsStop (c ∷ s) = c ≡ 41

pub stop-IsEnd : (e : Text) → IsStop e → IsEnd e
stop-IsEnd [] h = tt
stop-IsEnd (c ∷ s) h = subst (λ x. is_in x ends ≡ true) (sym h) refl

pub peek_stop : (toks e : Text) → is_in 41 toks ≡ false → IsStop e → peek toks e ≡ false
unfolding peek skip_space
peek_stop toks [] h k = refl
peek_stop toks (c ∷ s) h k = subst (λ x. peek toks (x ∷ s) ≡ false) (sym k) h

pub skip_stop : (e : Text) → IsStop e → skip_space e ≡ e
skip_stop e h = skip_end e (stop-IsEnd e h)

pub peek_symbol :
    (toks : Text) (c : ℕ) (x : Text) → is_in c whitespace ≡ false → peek toks (c ∷ x) ≡ is_in c toks
unfolding peek skip_space
peek_symbol toks c x h = ap (starts toks) (if_false _ _ h)

gettoken_symbol :
    (c : ℕ) (x : Text)
    → is_in c whitespace ≡ false
    → (c == 62) ≡ false
    → is_in c symbols ≡ true
    → skip_space x ≡ x
    → gettoken (c ∷ x) ≡ (symbol c, x)
unfolding gettoken token_of skip_space
gettoken_symbol c x h g k e =
    ap (λ s. ((token_of s).0, skip_space (token_of s).1)) (if_false _ _ h)
    ∙ ap (λ (y : Token × Text). (y.0, skip_space y.1)) (if_false _ _ g ∙ if_true _ _ k)
    ∙ ap (λ y. (symbol c, y)) e

-- The text after the symbol.
rest_of : (s t : Text) (tok : Token) → gettoken s ≡ (tok, t) → (gettoken s).1 ≡ t
rest_of s t tok e = ap (λ x. x.1) e

pub pipe_one :
    (m n : ℕ) (line : Text → Parsed Cmd) (s : Text) (c : Cmd) (e : Text)
    → parseexec (suc n) line s ≡ ok c e
    → peek (124 ∷ []) e ≡ false
    → skip_space e ≡ e
    → parsepipe (suc m) (suc n) line s ≡ ok c e
unfolding parsepipe
pipe_one m n line s c e h p k = rw (parsepipe, h, p, k) refl

pub pipe_two :
    (m n : ℕ) (line : Text → Parsed Cmd) (s : Text) (c d : Cmd) (x e : Text)
    → parseexec (suc n) line s ≡ ok c (124 ∷ x)
    → skip_space x ≡ x
    → parsepipe m (suc n) line x ≡ ok d e
    → parsepipe (suc m) (suc n) line s ≡ ok (pipe_cmd c d) e
unfolding parsepipe
pipe_two m n line s c d x e h k g =
    (let p : peek (124 ∷ []) (124 ∷ x) ≡ true = peek_symbol (124 ∷ []) 124 x refl in
      let q : (gettoken (124 ∷ x)).1 ≡ x =
        rest_of (124 ∷ x) x (symbol 124) (gettoken_symbol 124 x refl refl refl k) in
      rw (parsepipe, h, p, q, g) refl)

pub backs_none :
    (m : ℕ) (c : Cmd) (s : Text)
    → peek (38 ∷ []) s ≡ false
    → skip_space s ≡ s
    → parse_backs (suc m) c s ≡ ok c s
unfolding parse_backs
backs_none m c s p k = rw (parse_backs, p, k) refl

pub backs_one :
    (m : ℕ) (c : Cmd) (t : Text)
    → parse_backs (suc (suc m)) c (38 ∷ 41 ∷ t) ≡ ok (back_cmd c) (41 ∷ t)
unfolding parse_backs
backs_one m c t =
    (let p : peek (38 ∷ []) (38 ∷ 41 ∷ t) ≡ true = peek_symbol (38 ∷ []) 38 (41 ∷ t) refl in
      let q : (gettoken (38 ∷ 41 ∷ t)).1 ≡ 41 ∷ t =
        rest_of (38 ∷ 41 ∷ t) (41 ∷ t) (symbol 38)
          (gettoken_symbol 38 (41 ∷ t) refl refl refl (skip_stop (41 ∷ t) refl)) in
      if_true _ _ p
      ∙ ap (parse_backs (suc m) (back_cmd c)) q
      ∙ backs_none m (back_cmd c) (41 ∷ t) (peek_stop (38 ∷ []) (41 ∷ t) refl refl)
          (skip_stop (41 ∷ t) refl))

pub line_one :
    (n : ℕ) (s : Text) (c d : Cmd) (e e' : Text)
    → parsepipe (suc n) (suc n) (parseline n) s ≡ ok c e
    → parse_backs (suc n) c e ≡ ok d e'
    → IsStop e'
    → parseline (suc n) s ≡ ok d e'
unfolding parseline
line_one n s c d e e' h b k =
    (let p : peek (59 ∷ []) e' ≡ false = peek_stop (59 ∷ []) e' refl k in
      let q : skip_space e' ≡ e' = skip_stop e' k in rw (parseline, h, b, p, q) refl)

pub line_two :
    (n : ℕ) (s : Text) (c d : Cmd) (x e : Text)
    → parsepipe (suc n) (suc n) (parseline n) s ≡ ok c (59 ∷ x)
    → skip_space x ≡ x
    → parseline n x ≡ ok d e
    → parseline (suc n) s ≡ ok (list_cmd c d) e
unfolding parseline
line_two n s c d x e h k g =
    (let p : peek (59 ∷ []) (59 ∷ x) ≡ true = peek_symbol (59 ∷ []) 59 x refl in
      let b : parse_backs (suc n) c (59 ∷ x) ≡ ok c (59 ∷ x) =
        backs_none n c (59 ∷ x) (peek_symbol (38 ∷ []) 59 x refl) (skip_end (59 ∷ x) refl) in
      let q : (gettoken (59 ∷ x)).1 ≡ x =
        rest_of (59 ∷ x) x (symbol 59) (gettoken_symbol 59 x refl refl refl k) in
      rw (parseline, h, b, p, q, g) refl)

pub skip_symbol : (c : ℕ) (x : Text) → is_in c whitespace ≡ false → skip_space (c ∷ x) ≡ c ∷ x
unfolding skip_space
skip_symbol c x h = if_false _ _ h

pub block_lem :
    (n : ℕ) (line : Text → Parsed Cmd) (body t r : Text) (c : Cmd) (wrap : Cmd → Cmd)
    → skip_space body ≡ body
    → line body ≡ ok c (41 ∷ t)
    → skip_space t ≡ t
    → parseredirs (suc n) (λ x. x) t ≡ ok wrap r
    → parseexec (suc n) line (40 ∷ body) ≡ ok (wrap c) r
unfolding parseexec parseblock
block_lem n line body t r c wrap k h k' g =
    (let p : peek (40 ∷ []) (40 ∷ body) ≡ true = peek_symbol (40 ∷ []) 40 body refl in
      let q : (gettoken (40 ∷ body)).1 ≡ body =
        rest_of (40 ∷ body) body (symbol 40) (gettoken_symbol 40 body refl refl refl k) in
      let p' : peek (41 ∷ []) (41 ∷ t) ≡ true = peek_symbol (41 ∷ []) 41 t refl in
      let q' : (gettoken (41 ∷ t)).1 ≡ t =
        rest_of (41 ∷ t) t (symbol 41) (gettoken_symbol 41 t refl refl refl k') in
      if_true _ _ p
      ∙ ap (parseblock (suc n) line) (skip_symbol 40 body refl)
      ∙ rw (parseblock, p, q, h, p', q', g) refl)

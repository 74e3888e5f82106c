-- ===== src/Shell/RoundTrip.antt =====
-- The shell parses the text of a command as that command.
use operating_systems_work.Base.{
  ℕ, zero, suc, ◌<◌, ◌≤◌, ◌≡◌, refl, ◌∙◌, true, false, List, [], ◌∷◌, ◌++◌, length, length-append,
  arith,
}
use operating_systems_work.Shell.{
  Text, is_in, symbols, skip_space, peek, Redirect, input, output, Cmd, exec_cmd, redir_cmd,
  pipe_cmd, list_cmd, back_cmd, Parsed, ok, parseredirs, parse_args, parseexec, parseline, parsecmd,
}
use operating_systems_work.Shell.Arguments.{IsCommand}
use operating_systems_work.Shell.Print.{
  sign, more_args, print, print_redirs, wrap_all, IsEnd, skip_redirs, skip_word, peek_word,
}
use operating_systems_work.Shell.Simple.{
  AllFiles, redirs_stop, parseredirs_all, args_end, parse_args_all, no_signs,
}
use operating_systems_work.Shell.Reparse.{
  IsStop, stop-IsEnd, peek_stop, skip_stop, pipe_one, pipe_two, backs_none, backs_one, line_one,
  line_two, block_lem, skip_symbol, peek_symbol,
}

length-more_args : (ws : List Text) (r : Text) → length r ≤ length (more_args ws r)
length-more_args [] r = omega arith
length-more_args (w ∷ ws) r = omega (arith, length-more_args ws r, length-append w (more_args ws r))

length-print : (c : Cmd) (r : Text) → length r ≤ length (print c r)
length-print (exec_cmd []) r = omega arith
length-print (exec_cmd (w ∷ ws)) r =
    omega (arith, length-more_args ws r, length-append w (more_args ws r))
length-print (redir_cmd c f m) r =
    omega (arith, length-print c (sign m ∷ f ++ r), length-append f r)
length-print (pipe_cmd c d) r =
    omega (arith, length-print c (124 ∷ print d (41 ∷ r)), length-print d (41 ∷ r))
length-print (list_cmd c d) r =
    omega (arith, length-print c (59 ∷ print d (41 ∷ r)), length-print d (41 ∷ r))
length-print (back_cmd c) r = omega (arith, length-print c (38 ∷ 41 ∷ r))

skip-print :
    (c : Cmd) (r : Text) → IsCommand c → skip_space r ≡ r → skip_space (print c r) ≡ print c r
skip-print (exec_cmd []) r p h = h
skip-print (exec_cmd (w ∷ ws)) r ((q, qs), l) h = skip_word w (more_args ws r) q
skip-print (redir_cmd c f input) r (p, q) h =
    skip-print c (60 ∷ f ++ r) p (skip_symbol 60 (f ++ r) refl)
skip-print (redir_cmd c f output) r (p, q) h =
    skip-print c (62 ∷ f ++ r) p (skip_symbol 62 (f ++ r) refl)
skip-print (pipe_cmd c d) r p h = skip_symbol 40 (print c (124 ∷ print d (41 ∷ r))) refl
skip-print (list_cmd c d) r p h = skip_symbol 40 (print c (59 ∷ print d (41 ∷ r))) refl
skip-print (back_cmd c) r p h = skip_symbol 40 (print c (38 ∷ 41 ∷ r)) refl

-- The command is read back wherever a simple command may end.
abbrev Reads : Cmd → Type 0
Reads c =
    (n : ℕ) (r : Text)
    → IsEnd r
    → length (print c r) < suc n
    → parseexec (suc n) (parseline n) (print c r) ≡ ok c r

-- The three forms of a line.
module _ (c : Cmd) (reads_c : Reads c) (d : Cmd) (reads_d : Reads d) (is_d : IsCommand d) where
  alone : (n : ℕ) (e : Text) → IsStop e → length (print d e) < n → parseline n (print d e) ≡ ok d e
  alone zero e k l = absurd (omega arith)
  alone (suc n) e k l =
      line_one n (print d e) d d e e
        (pipe_one n n (parseline n) (print d e) d e (reads_d n e (stop-IsEnd e k) l)
          (peek_stop (124 ∷ []) e refl k) (skip_stop e k))
        (backs_none n d e (peek_stop (38 ∷ []) e refl k) (skip_stop e k)) k

  piped :
      (n : ℕ) (e : Text)
      → IsStop e
      → length (print c (124 ∷ print d e)) < n
      → parseline n (print c (124 ∷ print d e)) ≡ ok (pipe_cmd c d) e
  piped zero e k l = absurd (omega arith)
  piped (suc zero) e k l = absurd (omega (arith, length-print c (124 ∷ print d e)))
  piped (suc (suc n)) e k l =
      line_one (suc n) (print c (124 ∷ print d e)) (pipe_cmd c d) (pipe_cmd c d) e e
        (pipe_two (suc n) (suc n) (parseline (suc n)) (print c (124 ∷ print d e)) c d (print d e) e
          (reads_c (suc n) (124 ∷ print d e) refl l) (skip-print d e is_d (skip_stop e k))
          (pipe_one n (suc n) (parseline (suc n)) (print d e) d e
            (reads_d (suc n) e (stop-IsEnd e k)
              (omega (arith, l, length-print c (124 ∷ print d e))))
            (peek_stop (124 ∷ []) e refl k) (skip_stop e k)))
        (backs_none (suc n) (pipe_cmd c d) e (peek_stop (38 ∷ []) e refl k) (skip_stop e k)) k

  listed :
      (n : ℕ) (e : Text)
      → IsStop e
      → length (print c (59 ∷ print d e)) < n
      → parseline n (print c (59 ∷ print d e)) ≡ ok (list_cmd c d) e
  listed zero e k l = absurd (omega arith)
  listed (suc n) e k l =
      line_two n (print c (59 ∷ print d e)) c d (print d e) e
        (pipe_one n n (parseline n) (print c (59 ∷ print d e)) c (59 ∷ print d e)
          (reads_c n (59 ∷ print d e) refl l) (peek_symbol (124 ∷ []) 59 (print d e) refl)
          (skip_symbol 59 (print d e) refl))
        (skip-print d e is_d (skip_stop e k))
        (alone n e k (omega (arith, l, length-print c (59 ∷ print d e))))

  background :
      (n : ℕ) (e : Text)
      → length (print c (38 ∷ 41 ∷ e)) < n
      → parseline n (print c (38 ∷ 41 ∷ e)) ≡ ok (back_cmd c) (41 ∷ e)
  background zero e l = absurd (omega arith)
  background (suc zero) e l = absurd (omega (arith, length-print c (38 ∷ 41 ∷ e)))
  background (suc (suc n)) e l =
      line_one (suc n) (print c (38 ∷ 41 ∷ e)) c (back_cmd c) (38 ∷ 41 ∷ e) (41 ∷ e)
        (pipe_one (suc n) (suc n) (parseline (suc n)) (print c (38 ∷ 41 ∷ e)) c (38 ∷ 41 ∷ e)
          (reads_c (suc n) (38 ∷ 41 ∷ e) refl l) (peek_symbol (124 ∷ []) 38 (41 ∷ e) refl)
          (skip_symbol 38 (41 ∷ e) refl))
        (backs_one n c e) refl

exec_simple :
    (n : ℕ) (line : Text → Parsed Cmd) (s s₁ : Text) (wrap : Cmd → Cmd)
    → peek (40 ∷ []) s ≡ false
    → skip_space s ≡ s
    → parseredirs (suc n) (λ c. c) s ≡ ok wrap s₁
    → parseexec (suc n) line s ≡ parse_args (suc n) [] wrap s₁
unfolding parseexec
exec_simple n line s s₁ wrap p k h = rw (parseexec, p, k, h) refl

no_open : (c : ℕ) → is_in c (40 ∷ []) ≡ true → is_in c symbols ≡ true
no_open c h = ground arith

peek_open :
    (ds : List (Text × Redirect)) (r : Text) → IsEnd r → peek (40 ∷ []) (print_redirs ds r) ≡ false
unfolding peek skip_space
peek_open ((f, input) ∷ ds) r h = refl
peek_open ((f, output) ∷ ds) r h = refl
peek_open [] [] h = refl
peek_open [] (c ∷ s) h = peek_symbol (40 ∷ []) c s (not_space c h) ∙ not_open c h
  where
    not_space :
        (c : ℕ)
        → is_in c (124 ∷ 41 ∷ 38 ∷ 59 ∷ []) ≡ true
        → is_in c (32 ∷ 9 ∷ 13 ∷ 10 ∷ 11 ∷ []) ≡ false
    not_space c h = ground arith

    not_open : (c : ℕ) → is_in c (124 ∷ 41 ∷ 38 ∷ 59 ∷ []) ≡ true → is_in c (40 ∷ []) ≡ false
    not_open c h = ground arith

reads :
    (c : Cmd) (ds : List (Text × Redirect)) (n : ℕ) (r : Text)
    → IsCommand c
    → AllFiles ds
    → IsEnd r
    → length (print c (print_redirs ds r)) < suc n
    → parseexec (suc n) (parseline n) (print c (print_redirs ds r)) ≡ ok (wrap_all ds c) r
reads (exec_cmd []) ds n r p a h l =
    exec_simple n (parseline n) (print_redirs ds r) r (wrap_all ds) (peek_open ds r h)
      (skip_redirs ds r h) (parseredirs_all ds (suc n) (λ c. c) r a h l)
    ∙ args_end n [] (wrap_all ds) r h
reads (exec_cmd (w ∷ ws)) ds n r ((q, qs), m) a h l =
    let s : Text = w ++ more_args ws (print_redirs ds r) in
    let k : skip_space s ≡ s = skip_word w (more_args ws (print_redirs ds r)) q in
    exec_simple n (parseline n) s s (λ c. c)
      (peek_word (40 ∷ []) w (more_args ws (print_redirs ds r)) q no_open) k
      (redirs_stop n (λ c. c) s
        (peek_word (60 ∷ 62 ∷ []) w (more_args ws (print_redirs ds r)) q no_signs) k)
    ∙ parse_args_all ws w [] ds (suc n) r q qs (omega (arith, m)) a h l
reads (redir_cmd c f m) ds n r (p, q) a h l = reads c ((f, m) ∷ ds) n r p (q, a) h l
reads (pipe_cmd c d) ds n r (p, q) a h l =
    let t : Text = print_redirs ds r in
    block_lem n (parseline n) (print c (124 ∷ print d (41 ∷ t))) t r (pipe_cmd c d) (wrap_all ds)
      (skip-print c (124 ∷ print d (41 ∷ t)) p (skip_symbol 124 (print d (41 ∷ t)) refl))
      (piped c (λ n r e l. reads c [] n r p tt e l) d (λ n r e l. reads d [] n r q tt e l) q n
        (41 ∷ t) refl (omega (arith, l)))
      (skip_redirs ds r h)
      (parseredirs_all ds (suc n) (λ c. c) r a h
        (omega (arith, l, length-print c (124 ∷ print d (41 ∷ t)), length-print d (41 ∷ t))))
reads (list_cmd c d) ds n r (p, q) a h l =
    let t : Text = print_redirs ds r in
    block_lem n (parseline n) (print c (59 ∷ print d (41 ∷ t))) t r (list_cmd c d) (wrap_all ds)
      (skip-print c (59 ∷ print d (41 ∷ t)) p (skip_symbol 59 (print d (41 ∷ t)) refl))
      (listed c (λ n r e l. reads c [] n r p tt e l) d (λ n r e l. reads d [] n r q tt e l) q n
        (41 ∷ t) refl (omega (arith, l)))
      (skip_redirs ds r h)
      (parseredirs_all ds (suc n) (λ c. c) r a h
        (omega (arith, l, length-print c (59 ∷ print d (41 ∷ t)), length-print d (41 ∷ t))))
reads (back_cmd c) ds n r p a h l =
    let t : Text = print_redirs ds r in
    block_lem n (parseline n) (print c (38 ∷ 41 ∷ t)) t r (back_cmd c) (wrap_all ds)
      (skip-print c (38 ∷ 41 ∷ t) p (skip_symbol 38 (41 ∷ t) refl))
      (background c (λ n r e l. reads c [] n r p tt e l) c (λ n r e l. reads c [] n r p tt e l) p n
        t (omega (arith, l)))
      (skip_redirs ds r h)
      (parseredirs_all ds (suc n) (λ c. c) r a h (omega (arith, l, length-print c (38 ∷ 41 ∷ t))))

parsecmd_run : (s : Text) (c : Cmd) → parseline (suc (length s)) s ≡ ok c [] → parsecmd s ≡ ok c []
unfolding parsecmd skip_space
parsecmd_run s c h = rw (parsecmd, h) refl

-- For every command with fewer than MAXARGS arguments each, whose arguments and file names are words,
-- `parsecmd` of its text gives the command.
pub parsecmd-print : (c : Cmd) → IsCommand c → parsecmd (print c []) ≡ ok c []
parsecmd-print c p = parsecmd_run (print c []) c (
    alone c (λ n r e l. reads c [] n r p tt e l) c (λ n r e l. reads c [] n r p tt e l) p
      (suc (length (print c []))) [] tt (omega arith))

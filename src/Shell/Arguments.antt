-- ===== src/Shell/Arguments.antt =====
-- The redirections and arguments that the parser of the shell collects.
use operating_systems_work.Base.{
  ℕ, zero, suc, ◌+◌, ◌<◌, ◌≤◌, ◌≡◌, sym, subst, false, List, [], ◌∷◌, ◌++◌, ◌==◌, leb, length,
  length-append, if◌then◌else◌, arith, Bool-cases, inl, inr,
}
use operating_systems_work.Shell.{
  Text, Token, at_end, symbol, append, word, gettoken, peek, Cmd, exec_cmd, redir_cmd, pipe_cmd,
  list_cmd, back_cmd, Parsed, ok, panic, no_fuel, max_args, redirect, parseredirs, parse_args,
}
use operating_systems_work.Shell.Tokens.{
  IsWord, TokenPost, gettoken_lem, length-skip_space, if_true, if_false,
}

abbrev pub AllWords : List Text → Type 0
AllWords [] = Unit
AllWords (w ∷ ws) = IsWord w × AllWords ws

-- The arguments leave room in `argv` for the null pointer behind them, and each argument and each
-- file name is a word.
abbrev pub IsCommand : Cmd → Type 0
IsCommand (exec_cmd argv) = AllWords argv × (length argv < max_args)
IsCommand (redir_cmd c file mode) = IsCommand c × IsWord file
IsCommand (pipe_cmd c d) = IsCommand c × IsCommand d
IsCommand (list_cmd c d) = IsCommand c × IsCommand d
IsCommand (back_cmd c) = IsCommand c

-- A result on a text of length `n`: no fuel is never the outcome.
abbrev pub Outcome : {A : Type 0} → (A → Type 0) → ℕ → Parsed A → Type 0
Outcome P n (ok a rest) = P a × (length rest ≤ n)
Outcome P n panic = Unit
Outcome P n no_fuel = ⊥

abbrev pub Keeps : (Cmd → Cmd) → Type 0
Keeps wrap = (c : Cmd) → IsCommand c → IsCommand (wrap c)

redirect-IsCommand :
    (tok : Token) (file : Text) (c : Cmd)
    → IsWord file
    → IsCommand c
    → IsCommand (redirect tok file c)
redirect-IsCommand at_end file c w p = p
redirect-IsCommand append file c w p = (p, w)
redirect-IsCommand (word v) file c w p = p
redirect-IsCommand (symbol s) file c w p = elim (Bool-cases (s == 60)) [
  | inl e ↦ subst IsCommand (sym (if_true _ _ e)) (p, w)
  | inr e ↦ subst IsCommand (sym (if_false _ _ e)) (elim (Bool-cases (s == 62)) [
    | inl g ↦ subst IsCommand (sym (if_true _ _ g)) (p, w)
    | inr g ↦ subst IsCommand (sym (if_false _ _ g)) p
  ])
]

-- A result on a shorter text.
pub longer :
    {A : Type 0} (P : A → Type 0) (n m : ℕ) (r : Parsed A) → n ≤ m → Outcome P n r → Outcome P m r
longer P n m (ok a rest) h (p, l) = (p, omega (arith, l))
longer P n m panic h p = tt
longer P n m no_fuel h p = p

-- The length that a token leaves.
left_over : (n : ℕ) (x : Token × Text) → TokenPost n x → length x.1 ≤ n
left_over n (at_end, rest) p = p
left_over n (symbol c, rest) p = omega arith
left_over n (append, rest) p = omega arith
left_over n (word w, rest) (p, q) = omega (arith, p)

pub parseredirs_lem :
    (n : ℕ) (wrap : Cmd → Cmd) (s : Text)
    → length s < n
    → Keeps wrap
    → Outcome Keeps (length s) (parseredirs n wrap s)
unfolding parseredirs
parseredirs_lem zero wrap s h k = absurd (omega arith)
parseredirs_lem (suc n) wrap s h k = elim (Bool-cases (peek (60 ∷ 62 ∷ []) s)) [
  | inr e ↦ subst (Outcome Keeps (length s)) (sym (if_false _ _ e)) (k, length-skip_space s)
  | inl e ↦ subst (Outcome Keeps (length s)) (sym (if_true _ _ e)) (
      by_name (gettoken s).0 (gettoken (gettoken s).1)
        (left_over (length s) (gettoken s) (gettoken_lem s)) (gettoken_lem (gettoken s).1)
        (λ tok file r l w.
          parseredirs_lem n (λ c. redirect tok file (wrap c)) r (omega (arith, h))
            (λ c p. redirect-IsCommand tok file (wrap c) w (k c p))))
]
  where
    by_name :
        (tok : Token) (x : Token × Text)
        → length (gettoken s).1 ≤ length s
        → TokenPost (length (gettoken s).1) x
        → ((tok : Token) (file r : Text)
            → length r < length s
            → IsWord file
            → Outcome Keeps (length r) (parseredirs n (λ c. redirect tok file (wrap c)) r))
        → Outcome Keeps (length s) (elim x.0 [
          | word file ↦ parseredirs n (λ c. redirect tok file (wrap c)) x.1
          | at_end ↦ panic
          | symbol c ↦ panic
          | append ↦ panic
        ])
    by_name tok (at_end, r) a p ih = tt
    by_name tok (symbol c, r) a p ih = tt
    by_name tok (append, r) a p ih = tt
    by_name tok (word file, r) a (p, w) ih =
        longer Keeps (length r) (length s) (parseredirs n (λ c. redirect tok file (wrap c)) r)
          (omega arith) (ih tok file r (omega arith) w)

-- A result that is used, if there is one.
pub then_lem :
    {A B : Type 0} (P : A → Type 0) (Q : B → Type 0) (n m : ℕ) (r : Parsed A)
    (f : A → Text → Parsed B)
    → Outcome P n r
    → ((a : A) (rest : Text) → P a → length rest ≤ n → Outcome Q m (f a rest))
    → Outcome Q m (elim r [ ok a rest ↦ f a rest | panic ↦ panic | no_fuel ↦ no_fuel ])
then_lem P Q n m (ok a rest) f (p, l) h = h a rest p l
then_lem P Q n m panic f p h = tt
then_lem P Q n m no_fuel f p h = p

AllWords-append : (ws : List Text) (w : Text) → AllWords ws → IsWord w → AllWords (ws ++ w ∷ [])
AllWords-append [] w h p = (p, tt)
AllWords-append (v ∷ ws) w (q, h) p = (q, AllWords-append ws w h p)

pub parse_args_lem :
    (n : ℕ) (argv : List Text) (wrap : Cmd → Cmd) (s : Text)
    → length s < n
    → Keeps wrap
    → AllWords argv
    → length argv < max_args
    → Outcome IsCommand (length s) (parse_args n argv wrap s)
unfolding parse_args
parse_args_lem zero argv wrap s h k ws l = absurd (omega arith)
parse_args_lem (suc n) argv wrap s h k ws l = elim (Bool-cases (peek (124 ∷ 41 ∷ 38 ∷ 59 ∷ []) s)) [
  | inl e ↦
      subst (Outcome IsCommand (length s)) (sym (if_true _ _ e))
        (k (exec_cmd argv) (ws, l), length-skip_space s)
  | inr e ↦ subst (Outcome IsCommand (length s)) (sym (if_false _ _ e)) (
      by_token (gettoken s) (gettoken_lem s) (λ w wrap' r p q k' g.
        parse_args_lem n (argv ++ w ∷ []) wrap' r (omega (arith, h)) k'
          (AllWords-append argv w ws p) g))
]
  where
    by_token :
        (x : Token × Text)
        → TokenPost (length s) x
        → ((w : Text) (wrap' : Cmd → Cmd) (r : Text)
            → IsWord w
            → length r < length s
            → Keeps wrap'
            → length (argv ++ w ∷ []) < max_args
            → Outcome IsCommand (length r) (parse_args n (argv ++ w ∷ []) wrap' r))
        → Outcome IsCommand (length s) (elim x.0 [
          | at_end ↦ ok (wrap (exec_cmd argv)) x.1
          | word w ↦
              (if leb max_args (length argv + 1) then panic else elim (parseredirs n wrap x.1) [
                | ok wrap' s₂ ↦ parse_args n (argv ++ w ∷ []) wrap' s₂
                | panic ↦ panic
                | no_fuel ↦ no_fuel
              ])
          | symbol c ↦ panic
          | append ↦ panic
        ])
    by_token (at_end, r) p ih = (k (exec_cmd argv) (ws, l), p)
    by_token (symbol c, r) p ih = tt
    by_token (append, r) p ih = tt
    by_token (word w, r) (p, q) ih = elim (Bool-cases (leb max_args (length argv + 1))) [
      | inl e ↦ subst (Outcome IsCommand (length s)) (sym (if_true _ _ e)) tt
      | inr e ↦ subst (Outcome IsCommand (length s)) (sym (if_false _ _ e)) (
          then_lem Keeps IsCommand (length r) (length s) (parseredirs n wrap r)
            (λ wrap' s₂. parse_args n (argv ++ w ∷ []) wrap' s₂)
            (parseredirs_lem n wrap r (omega arith) k)
            (λ wrap' s₂ k' g.
              longer IsCommand (length s₂) (length s) (parse_args n (argv ++ w ∷ []) wrap' s₂)
                (omega arith) (ih w wrap' s₂ q (omega arith) k' (room e))))
    ]
      where
        room : leb max_args (length argv + 1) ≡ false → length (argv ++ w ∷ []) < max_args
        room e =
            (let g : length argv + 1 < max_args = ground arith in
              omega (arith, length-append argv (w ∷ []), g))

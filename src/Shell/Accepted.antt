-- ===== src/Shell/Accepted.antt =====
-- The parser always comes to an end, and a command that it returns is well formed.
use operating_systems_work.Base.{
  ℕ, zero, suc, ◌<◌, sym, ap, subst, not, [], ◌∷◌, length, if◌then◌else◌, arith, Bool-cases, inl,
  inr,
}
use operating_systems_work.Shell.{
  Text, skip_space, gettoken, peek, Cmd, pipe_cmd, list_cmd, back_cmd, Parsed, ok, panic, no_fuel,
  parseredirs, parse_args, parseblock, parseexec, parsepipe, parse_backs, parseline, finish,
  parsecmd,
}
use operating_systems_work.Shell.Tokens.{peek-gettoken, length-skip_space, if_true, if_false}
use operating_systems_work.Shell.Arguments.{
  IsCommand, Outcome, Keeps, longer, parseredirs_lem, then_lem, parse_args_lem,
}

-- What a parser of lines with less fuel does.
module _ (n : ℕ) (line : Text → Parsed Cmd)
    (line_lem : (s : Text) → length s < n → Outcome IsCommand (length s) (line s)) where
  parseblock_lem :
      (s : Text) → length s < suc n → Outcome IsCommand (length s) (parseblock (suc n) line s)
  unfolding parseblock
  parseblock_lem s h = elim (Bool-cases (peek (40 ∷ []) s)) [
    | inr e ↦ subst (Outcome IsCommand (length s)) (sym (if_true _ _ (ap not e))) tt
    | inl e ↦
        (let a : length (gettoken s).1 < length s = peek-gettoken (40 ∷ []) s e in
          subst (Outcome IsCommand (length s)) (sym (if_false _ _ (ap not e))) (
            then_lem IsCommand IsCommand (length (gettoken s).1) (length s) (line (gettoken s).1) _
              (line_lem (gettoken s).1 (omega (arith, h)))
              (λ cmd s₁ p g. close cmd s₁ p (omega (arith, a)))))
  ]
    where
      close :
          (cmd : Cmd) (s₁ : Text)
          → IsCommand cmd
          → length s₁ < length s
          → Outcome IsCommand (length s) (
              if not (peek (41 ∷ []) s₁)
              then panic
              else elim (parseredirs (suc n) (λ c. c) (gettoken s₁).1) [
                | ok wrap s₂ ↦ ok (wrap cmd) s₂
                | panic ↦ panic
                | no_fuel ↦ no_fuel
              ])
      close cmd s₁ p l = elim (Bool-cases (peek (41 ∷ []) s₁)) [
        | inr e ↦ subst (Outcome IsCommand (length s)) (sym (if_true _ _ (ap not e))) tt
        | inl e ↦
            (let b : length (gettoken s₁).1 < length s₁ = peek-gettoken (41 ∷ []) s₁ e in
              subst (Outcome IsCommand (length s)) (sym (if_false _ _ (ap not e))) (
                then_lem Keeps IsCommand (length (gettoken s₁).1) (length s)
                  (parseredirs (suc n) (λ c. c) (gettoken s₁).1) (λ wrap s₂. ok (wrap cmd) s₂)
                  (parseredirs_lem (suc n) (λ c. c) (gettoken s₁).1 (omega (arith, h)) (λ c q. q))
                  (λ wrap s₂ k g. (k cmd p, omega (arith, b)))))
      ]

  parseexec_lem :
      (s : Text) → length s < suc n → Outcome IsCommand (length s) (parseexec (suc n) line s)
  unfolding parseexec
  parseexec_lem s h = elim (Bool-cases (peek (40 ∷ []) s)) [
    | inl e ↦ subst (Outcome IsCommand (length s)) (sym (if_true _ _ e)) (
        longer IsCommand (length (skip_space s)) (length s) (parseblock (suc n) line (skip_space s))
          (length-skip_space s)
          (parseblock_lem (skip_space s) (omega (arith, length-skip_space s))))
    | inr e ↦ subst (Outcome IsCommand (length s)) (sym (if_false _ _ e)) (
        then_lem Keeps IsCommand (length (skip_space s)) (length s)
          (parseredirs (suc n) (λ c. c) (skip_space s)) (λ wrap s₁. parse_args (suc n) [] wrap s₁)
          (parseredirs_lem (suc n) (λ c. c) (skip_space s) (omega (arith, length-skip_space s))
            (λ c q. q))
          (λ wrap s₁ k g.
            longer IsCommand (length s₁) (length s) (parse_args (suc n) [] wrap s₁)
              (omega (arith, length-skip_space s))
              (parse_args_lem (suc n) [] wrap s₁ (omega (arith, length-skip_space s)) k tt
                (omega arith))))
  ]

  parsepipe_lem :
      (m : ℕ) (s : Text)
      → length s < m
      → length s < suc n
      → Outcome IsCommand (length s) (parsepipe m (suc n) line s)
  unfolding parsepipe
  parsepipe_lem zero s l h = absurd (omega arith)
  parsepipe_lem (suc m) s l h =
      then_lem IsCommand IsCommand (length s) (length s) (parseexec (suc n) line s) _
        (parseexec_lem s h)
        (λ cmd s₁ p g. elim (Bool-cases (peek (124 ∷ []) s₁)) [
          | inr e ↦
              subst (Outcome IsCommand (length s)) (sym (if_false _ _ e))
                (p, omega (arith, length-skip_space s₁, g))
          | inl e ↦
              (let a : length (gettoken s₁).1 < length s₁ = peek-gettoken (124 ∷ []) s₁ e in
                subst (Outcome IsCommand (length s)) (sym (if_true _ _ e)) (
                  then_lem IsCommand IsCommand (length (gettoken s₁).1) (length s)
                    (parsepipe m (suc n) line (gettoken s₁).1)
                    (λ right s₂. ok (pipe_cmd cmd right) s₂)
                    (parsepipe_lem m (gettoken s₁).1 (omega (arith, a, g)) (omega (arith, a, g)))
                    (λ right s₂ q k. ((p, q), omega (arith, a, g, k)))))
        ])

parse_backs_lem :
    (m : ℕ) (cmd : Cmd) (s : Text)
    → length s < m
    → IsCommand cmd
    → Outcome IsCommand (length s) (parse_backs m cmd s)
unfolding parse_backs
parse_backs_lem zero cmd s l p = absurd (omega arith)
parse_backs_lem (suc m) cmd s l p = elim (Bool-cases (peek (38 ∷ []) s)) [
  | inr e ↦ subst (Outcome IsCommand (length s)) (sym (if_false _ _ e)) (p, length-skip_space s)
  | inl e ↦
      (let a : length (gettoken s).1 < length s = peek-gettoken (38 ∷ []) s e in
        subst (Outcome IsCommand (length s)) (sym (if_true _ _ e)) (
          longer IsCommand (length (gettoken s).1) (length s)
            (parse_backs m (back_cmd cmd) (gettoken s).1) (omega (arith, a))
            (parse_backs_lem m (back_cmd cmd) (gettoken s).1 (omega (arith, a)) p)))
]

parseline_lem : (n : ℕ) (s : Text) → length s < n → Outcome IsCommand (length s) (parseline n s)
unfolding parseline
parseline_lem zero s h = absurd (omega arith)
parseline_lem (suc n) s h =
    then_lem IsCommand IsCommand (length s) (length s) (parsepipe (suc n) (suc n) (parseline n) s) _
      (parsepipe_lem n (parseline n) (parseline_lem n) (suc n) s h h)
      (λ cmd s₁ p g.
        then_lem IsCommand IsCommand (length s₁) (length s) (parse_backs (suc n) cmd s₁) _
          (parse_backs_lem (suc n) cmd s₁ (omega (arith, g)) p)
          (λ cmd' s₂ q k. elim (Bool-cases (peek (59 ∷ []) s₂)) [
            | inr e ↦
                subst (Outcome IsCommand (length s)) (sym (if_false _ _ e))
                  (q, omega (arith, length-skip_space s₂, g, k))
            | inl e ↦
                (let a : length (gettoken s₂).1 < length s₂ = peek-gettoken (59 ∷ []) s₂ e in
                  subst (Outcome IsCommand (length s)) (sym (if_true _ _ e)) (
                    then_lem IsCommand IsCommand (length (gettoken s₂).1) (length s)
                      (parseline n (gettoken s₂).1) (λ right s₃. ok (list_cmd cmd' right) s₃)
                      (parseline_lem n (gettoken s₂).1 (omega (arith, a, g, k)))
                      (λ right s₃ t m. ((q, t), omega (arith, a, g, k, m)))))
          ]))

finish_lem : (cmd : Cmd) (rest : Text) → IsCommand cmd → Outcome IsCommand 0 (finish cmd rest)
finish_lem cmd [] p = (p, omega arith)
finish_lem cmd (c ∷ s) p = tt

-- For every text `parsecmd` comes to an end, with a panic or with a command that leaves nothing over,
-- in which no `argv` is overrun (there is room for the null pointer behind the arguments) and each
-- argument and each file name is a word without space and without symbols.
pub parsecmd_lem : (s : Text) → Outcome IsCommand 0 (parsecmd s)
unfolding parsecmd
parsecmd_lem s =
    then_lem IsCommand IsCommand (length s) 0 (parseline (suc (length s)) s) _
      (parseline_lem (suc (length s)) s (omega arith))
      (λ cmd rest p g. finish_lem cmd (skip_space rest) p)

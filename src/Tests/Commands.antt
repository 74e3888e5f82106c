-- ===== src/Tests/Commands.antt =====
-- The parser of the shell on short lines.
use operating_systems_work.Base.{[], ◌∷◌, ◌≡◌, refl, arith}
use operating_systems_work.Shell.{
  Text, Cmd, exec_cmd, redir_cmd, pipe_cmd, back_cmd, input, output, ok, panic, parsecmd, parseline,
  parsepipe, parseexec, parseblock, parse_args, parseredirs, parse_backs, gettoken, token_of, peek,
  skip_space, word_of, after_word,
}
use operating_systems_work.Shell.Arguments.{IsCommand, Outcome}
use operating_systems_work.Shell.Accepted.{parsecmd_lem}
use operating_systems_work.Shell.Print.{print}
use operating_systems_work.Shell.RoundTrip.{parsecmd-print}

-- "l <f|w &"
abbrev line : Text
line = 108 ∷ 32 ∷ 60 ∷ 102 ∷ 124 ∷ 119 ∷ 32 ∷ 38 ∷ []

parsed :
    parsecmd line
    ≡ ok
        (back_cmd (
          pipe_cmd
            (redir_cmd (exec_cmd ((108 ∷ []) ∷ [])) (102 ∷ []) input)
            (exec_cmd ((119 ∷ []) ∷ []))))
        []
unfolding parsecmd parseline parsepipe parseexec parseblock parse_args parseredirs parse_backs
    gettoken token_of peek skip_space word_of after_word
parsed = refl

-- "a>>f": as "a>f".
appended :
    parsecmd (97 ∷ 62 ∷ 62 ∷ 102 ∷ [])
    ≡ ok (redir_cmd (exec_cmd ((97 ∷ []) ∷ [])) (102 ∷ []) output) []
unfolding parsecmd parseline parsepipe parseexec parseblock parse_args parseredirs parse_backs
    gettoken token_of peek skip_space word_of after_word
appended = refl

-- "(a"
unclosed : parsecmd (40 ∷ 97 ∷ []) ≡ panic
unfolding parsecmd parseline parsepipe parseexec parseblock parse_args parseredirs parse_backs
    gettoken token_of peek skip_space word_of after_word
unclosed = refl

parsecmd_lem_example : Outcome IsCommand 0 (parsecmd line)
parsecmd_lem_example = parsecmd_lem line

-- A pipe in the background.
abbrev shown : Cmd
shown = back_cmd (
    pipe_cmd (redir_cmd (exec_cmd ((108 ∷ []) ∷ [])) (102 ∷ []) input)
      (exec_cmd ((119 ∷ []) ∷ (97 ∷ []) ∷ [])))

parsecmd-print_example : parsecmd (print shown []) ≡ ok shown []
parsecmd-print_example =
    parsecmd-print shown
      (((((refl, tt), tt), omega arith), (refl, tt)), (((refl, tt), ((refl, tt), tt)), omega arith))

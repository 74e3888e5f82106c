-- ===== src/Tests/Piping.antt =====
-- Runs of the pipes of ass5/final_repo/pipe.c.
use operating_systems_work.Base.{◌≡◌, refl, false, [], ◌∷◌}
use operating_systems_work.Pipe.{Pipe, fresh, put, is_empty, pipewrite, piperead}
use operating_systems_work.Pipe.Fifo.{IsValid, put_lem, fresh-IsValid, zeros, length-zeros}
use operating_systems_work.Pipe.Transfer.{pipewrite_lem, piperead_lem, WritePost, ReadPost}

abbrev new_pipe : Pipe
new_pipe = fresh (zeros 512)

new_pipe-IsValid : IsValid new_pipe
new_pipe-IsValid = fresh-IsValid (zeros 512) (length-zeros 512)

one_byte : Pipe
one_byte = put 7 new_pipe

one_byte-IsValid : IsValid one_byte
unfolding one_byte fresh
one_byte-IsValid = (put_lem 7 new_pipe new_pipe-IsValid refl).0

one_byte-read : is_empty one_byte ≡ false
unfolding one_byte put fresh
one_byte-read = refl

pipewrite_lem_example :
    IsValid (pipewrite false (3 ∷ 1 ∷ 4 ∷ []) one_byte).1
    × WritePost false (3 ∷ 1 ∷ 4 ∷ []) one_byte (pipewrite false (3 ∷ 1 ∷ 4 ∷ []) one_byte)
pipewrite_lem_example = pipewrite_lem false (3 ∷ 1 ∷ 4 ∷ []) one_byte one_byte-IsValid

piperead_lem_example :
    IsValid (piperead false 2 one_byte).1 × ReadPost false 2 one_byte (piperead false 2 one_byte)
piperead_lem_example = piperead_lem false 2 one_byte one_byte-IsValid

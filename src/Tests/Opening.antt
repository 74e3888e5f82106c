-- ===== src/Tests/Opening.antt =====
-- Runs of the table of open files of ass5/final_repo/file.c.
use operating_systems_work.Base.{ℕ, zero, suc, ◌≡◌, refl, arith, some, [], ◌∷◌, get_elem?}
use operating_systems_work.Files.{File, no_file, find_file, filealloc, filedup, one_more, first_ref}
use operating_systems_work.Files.References.{Open, Counted, Reach, here, next, opens, dups}
use operating_systems_work.Files.Held.{Reach-Counted}

abbrev no_files : Open
no_files = record { table = no_file ∷ no_file ∷ []; held = [] }

no_files-Counted : Counted no_files
no_files-Counted = record { exact = exact; inside = λ k i h. absurd (ground arith) }
  where
    exact : (i : ℕ) (f : File) → get_elem? no_files.table i ≡ some f → f.ref ≡ 0
    exact zero f e = ground arith
    exact (suc zero) f e = ground arith
    exact (suc (suc i)) f e = ground arith

-- Slot 0 is opened and copied.
abbrev one_file : Open
one_file = record { table = first_ref no_file ∷ no_file ∷ []; held = 0 ∷ [] }

abbrev two_refs : Open
two_refs = record { table = one_more (first_ref no_file) ∷ no_file ∷ []; held = 0 ∷ 0 ∷ [] }

two_refs-Reach : Reach no_files two_refs
unfolding filealloc find_file filedup
two_refs-Reach =
    next {t = one_file} (next here (opens 0 one_file.table refl))
      (dups 0 0 two_refs.table refl refl)

two_refs-Counted : Counted two_refs
two_refs-Counted = Reach-Counted no_files-Counted two_refs-Reach

Reach-Counted_example : Counted two_refs
Reach-Counted_example = Reach-Counted no_files-Counted two_refs-Reach

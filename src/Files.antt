-- ===== src/Files.antt =====
-- The table of open files of ass5/final_repo/file.c.
pub mod References
pub mod Held
pub mod Transfer
pub mod Pipes
pub mod Restore
pub mod Ends
pub mod Unused
pub mod Chunks
use mathlib.Core.Option
use operating_systems_work.Base.{
  ℕ, ◌+◌, ◌-◌, Bool, Option, none, some, List, [], ◌∷◌, ◌==◌, ltb, if◌then◌else◌, modify, get_or,
  false,
}

pub data FileType : Type 0 where
  fd_none fd_pipe fd_inode : FileType

-- `struct file`. A pipe or inode is a number; `ref` stays far below 2^31, since each reference is
-- held by a slot of the table of some process or by a call that is under way.
pub record File : Type 0 where
  pub type : FileType
  pub ref : ℕ
  pub readable : Bool
  pub writable : Bool
  pub pipe : ℕ
  pub ip : ℕ
  pub off : ℕ

abbrev pub no_file : File
no_file = record {
  type = fd_none;
  ref = 0;
  readable = false;
  writable = false;
  pipe = 0;
  ip = 0;
  off = 0;
}

-- The loop of `filealloc`.
unfoldable pub find_file : List File → Option ℕ
find_file [] = none
find_file (f ∷ fs) = if f.ref == 0 then some 0 else Option.map (λ i. i + 1) (find_file fs)

abbrev pub first_ref : File → File
first_ref f = record f { ref = 1 }

unfoldable pub filealloc : List File → Option (ℕ × List File)
filealloc t = elim (find_file t) [ none ↦ none | some i ↦ some (i, modify t i first_ref) ]

abbrev pub one_more : File → File
one_more f = record f { ref = f.ref + 1 }

-- `none` is the panic "filedup".
unfoldable pub filedup : ℕ → List File → Option (List File)
filedup i t = if ltb (get_or t i no_file).ref 1 then none else some (modify t i one_more)

abbrev pub one_less : File → File
one_less f = record f { ref = f.ref - 1 }

abbrev pub clear : File → File
clear f = record f { ref = 0; type = fd_none }

-- `fileclose` with `ftable.lock` held: the file whose pipe or inode it then closes, if this was the
-- last reference, and the table; `none` is the panic "fileclose".
unfoldable pub fileclose : ℕ → List File → Option (Option File × List File)
fileclose i t =
    let f = get_or t i no_file in
    if ltb f.ref 1
    then none
    else if ltb 0 (f.ref - 1)
    then some (none, modify t i one_less)
    else some (some f, modify t i clear)

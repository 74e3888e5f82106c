-- ===== src/Fs/Walk.antt =====
-- `namex` follows the elements of a path.
use operating_systems_work.Base.{
  ℕ, Bool, false, ◌&&◌, not, none, some, List, [], ◌∷◌, ◌==◌, if◌then◌else◌, get_or,
}
use operating_systems_work.Fs.Path.{slash, store_name}
use operating_systems_work.Fs.Disk.{Disk, Superblock}
use operating_systems_work.Fs.Inode.{Inode}
use operating_systems_work.Fs.Transfer.{Devsw}
use operating_systems_work.Fs.Icache.{iget, idup}
use operating_systems_work.Fs.Namex.{Walked, panicked, is_empty, root_dev, root_ino, leave, enter}

-- The elements of a path: the longest stretches of bytes without a slash.
abbrev pub in_element : List ℕ → Bool
in_element [] = false
in_element (c ∷ r) = not (c == slash)

abbrev pub prepend : ℕ → List (List ℕ) → List (List ℕ)
prepend c [] = (c ∷ []) ∷ []
prepend c (e ∷ es) = (c ∷ e) ∷ es

unfoldable pub elements : List ℕ → List (List ℕ)
elements [] = []
elements (c ∷ r) =
    let es = elements r in
    if c == slash then es else if in_element r then prepend c es else (c ∷ []) ∷ es

module _ (devsw : ℕ → Devsw) (sb : Superblock) (de : ℕ → ℕ) where
  -- The walk along the elements of a path, one after another.
  unfoldable pub walk : Bool → List (List ℕ) → ℕ → (ℕ → ℕ) → List Inode → Disk → Walked
  walk parent [] i name t d = leave devsw sb de parent i name t d
  walk parent (e ∷ es) i name t d =
      enter devsw sb de (parent && is_empty es) i (store_name e name) t d
        (λ j t' d'. walk parent es j (store_name e name) t' d')

-- The walk of `namex` from the root inode or the current directory.
abbrev pub start : ℕ → List ℕ → List Inode → (ℕ → List Inode → Walked) → Walked
start cwd path t next =
    if get_or path 0 0 == slash
    then elim (iget root_dev root_ino t) [ none ↦ panicked | some (i, t') ↦ next i t' ]
    else next cwd (idup cwd t)

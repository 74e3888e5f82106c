-- ===== src/Fs/Namex.antt =====
-- `namex` of fs.c, on the inode cache and the disk.
use operating_systems_work.Base.{
  ℕ, zero, suc, Bool, true, false, ◌&&◌, Option, none, some, List, [], ◌∷◌, ◌==◌, if◌then◌else◌,
  length, get_or,
}
use operating_systems_work.Fs.Disk.{Disk, Superblock}
use operating_systems_work.Fs.Inode.{Inode}
use operating_systems_work.Fs.Transfer.{Devsw}
use operating_systems_work.Fs.Icache.{no_inode, iget, idup, ilock, iunlock, iput, iunlockput}
use operating_systems_work.Fs.Directory.{t_dir, dirlookup}
use operating_systems_work.Fs.Path.{slash, skipelem}

-- How `namex` ends: with a panic, or with the slot of an inode or the null pointer, and the name.
-- `no_fuel` is no end of the code.
pub data Walked : Type 0 where
  panicked : Walked
  no_fuel : Walked
  ended : Option ℕ → (ℕ → ℕ) → List Inode → Disk → Walked

abbrev pub is_empty : {A : Type 0} → List A → Bool
is_empty [] = true
is_empty (c ∷ r) = false

-- ROOTDEV and ROOTINO
abbrev pub root_dev : ℕ
root_dev = 1

abbrev pub root_ino : ℕ
root_ino = 1

-- The caller holds the sleep lock that `iunlock` asks for. `de` is what the `de` of `dirlookup` holds
-- before its first read.
module _ (devsw : ℕ → Devsw) (sb : Superblock) (de : ℕ → ℕ) where
  -- The end of the path: `if(nameiparent){ iput(ip); return 0; } return ip;`
  unfoldable pub leave : Bool → ℕ → (ℕ → ℕ) → List Inode → Disk → Walked
  leave nameiparent i name t d =
      if nameiparent
      then elim (iput sb i t d) [ none ↦ panicked | some (t', d') ↦ ended none name t' d' ]
      else ended (some i) name t d

  -- `iunlockput(ip); return 0;`
  unfoldable pub give_up : ℕ → (ℕ → ℕ) → List Inode → Disk → Walked
  give_up i name t d = elim (iunlockput sb true i t d) [
    | none ↦ panicked
    | some (t', d') ↦ ended none name t' d'
  ]

  -- `iunlock(ip); return ip;`
  unfoldable pub stop_early : ℕ → (ℕ → ℕ) → List Inode → Disk → Walked
  stop_early i name t d = elim (iunlock true i t) [
    | none ↦ panicked
    | some t' ↦ ended (some i) name t' d
  ]

  -- The body of the loop, where `last` is `nameiparent && *path == 0` and `next` the rounds after it.
  unfoldable pub enter :
      Bool → ℕ → (ℕ → ℕ) → List Inode → Disk → (ℕ → List Inode → Disk → Walked) → Walked
  enter last i name t d next = elim (ilock sb i t d) [
    | none ↦ panicked
    | some t₁ ↦
        if (get_or t₁ i no_inode).type == t_dir
        then if last then stop_early i name t₁ d else elim (dirlookup devsw sb name i t₁ d de) [
          | none ↦ panicked
          | some (none, t₂, d₂) ↦ give_up i name t₂ d₂
          | some (some (off, j), t₂, d₂) ↦ elim (iunlockput sb true i t₂ d₂) [
            | none ↦ panicked
            | some (t₃, d₃) ↦ next j t₃ d₃
          ]
        ]
        else give_up i name t₁ d
  ]

  unfoldable pub namex_loop : ℕ → Bool → List ℕ → ℕ → (ℕ → ℕ) → List Inode → Disk → Walked
  namex_loop zero nameiparent path i name t d = no_fuel
  namex_loop (suc fuel) nameiparent path i name t d = elim (skipelem path name) [
    | none ↦ leave nameiparent i name t d
    | some (rest, name') ↦
        enter (nameiparent && is_empty rest) i name' t d
          (λ j t' d'. namex_loop fuel nameiparent rest j name' t' d')
  ]

  -- `namex`, where `cwd` is the slot of the current directory of the process.
  unfoldable pub namex : ℕ → Bool → List ℕ → (ℕ → ℕ) → List Inode → Disk → Walked
  namex cwd nameiparent path name t d =
      if get_or path 0 0 == slash
      then elim (iget root_dev root_ino t) [
        | none ↦ panicked
        | some (i, t') ↦ namex_loop (suc (length path)) nameiparent path i name t' d
      ]
      else namex_loop (suc (length path)) nameiparent path cwd name (idup cwd t) d

-- ===== src/Fs/Directory.antt =====
-- Directories: `dirlookup` and `dirlink` of fs.c, on the inode cache and the disk. The directory is
-- the slot of the cache that holds it.
use operating_systems_work.Base.{
  ℕ, zero, suc, ◌+◌, ◌-◌, ◌*◌, ◌/◌, ◌%◌, Bool, true, false, Option, none, some, ◌==◌, ltb,
  if◌then◌else◌, List, set, get_or,
}
use operating_systems_work.Strings.{strncmp, strncpy}
use operating_systems_work.Fs.Disk.{Disk, Superblock}
use operating_systems_work.Fs.Inode.{Inode}
use operating_systems_work.Fs.Transfer.{Devsw, readi, writei}
use operating_systems_work.Fs.Icache.{no_inode, iget, iput}
use operating_systems_work.Fs.Path.{dirsiz}

-- T_DIR of stat.h.
abbrev pub t_dir : ℕ
t_dir = 1

-- `struct dirent` as its 16 bytes: `inum`, low byte first, and `name`.
abbrev pub entry_size : ℕ
entry_size = 16

abbrev pub entry_inum : (ℕ → ℕ) → ℕ
entry_inum de = de 0 + de 1 * 256

-- `de` at address 0, and `name` behind it.
abbrev pub beside : (ℕ → ℕ) → (ℕ → ℕ) → ℕ → ℕ
beside de name a = if ltb a 16 then de a else name (a - 16)

-- `namecmp(name, de.name)`
abbrev pub namecmp : (ℕ → ℕ) → (ℕ → ℕ) → ℕ
namecmp name de = strncmp 16 2 dirsiz (beside de name)

-- `strncpy(de.name, name, DIRSIZ); de.inum = inum;`
abbrev pub new_entry : (ℕ → ℕ) → ℕ → (ℕ → ℕ) → ℕ → ℕ
new_entry name inum de i =
    if i == 0
    then inum % 256
    else if i == 1
    then inum / 256 % 256
    else strncpy 2 16 dirsiz (beside de name) i

module _ (devsw : ℕ → Devsw) (sb : Superblock) where
  -- `readi` of the entry at `off`; `none` is a panic, also where it does not read a whole entry.
  unfoldable pub read_entry : ℕ → Inode → Disk → (ℕ → ℕ) → Option (Inode × Disk × (ℕ → ℕ))
  read_entry off dp d de = elim (readi devsw sb off entry_size dp d de) [
    | none ↦ none
    | some (r, dp', d', de') ↦ elim r [
      | none ↦ none
      | some k ↦ if k == entry_size then some (dp', d', de') else none
    ]
  ]

  -- The loop of `dirlookup`: the offset and the number of an entry, or `none` for the null pointer.
  unfoldable pub lookup_loop :
      ℕ → ℕ → (ℕ → ℕ) → Inode → Disk → (ℕ → ℕ) → Option (Option (ℕ × ℕ) × Inode × Disk)
  lookup_loop zero off name dp d de = some (none, dp, d)
  lookup_loop (suc rounds) off name dp d de =
      let next : Option (Option (ℕ × ℕ) × Inode × Disk) = elim (read_entry off dp d de) [
        | none ↦ none
        | some (dp', d', de') ↦
            (let rest = lookup_loop rounds (off + entry_size) name dp' d' de' in
              if entry_inum de' == 0
              then rest
              else if namecmp name de' == 0
              then some (some (off, entry_inum de'), dp', d')
              else rest)
      ] in
      if ltb off dp.size then next else some (none, dp, d)

  -- The offset and the slot of the inode that is found, where `s` is the slot of the directory.
  unfoldable pub dirlookup :
      (ℕ → ℕ) → ℕ → List Inode → Disk → (ℕ → ℕ) → Option (Option (ℕ × ℕ) × List Inode × Disk)
  dirlookup name s t d de =
      let dp = get_or t s no_inode in
      if dp.type == t_dir
      then elim (lookup_loop dp.size 0 name dp d de) [
        | none ↦ none
        | some (none, dp', d') ↦ some (none, set t s dp', d')
        | some (some (off, inum), dp', d') ↦ elim (iget dp'.dev inum (set t s dp')) [
          | none ↦ none
          | some (i, t') ↦ some (some (off, i), t', d')
        ]
      ]
      else none

  -- The loop of `dirlink`: the offset of the first empty entry, or of the end.
  unfoldable pub empty_loop : ℕ → ℕ → Inode → Disk → (ℕ → ℕ) → Option (ℕ × Inode × Disk × (ℕ → ℕ))
  empty_loop zero off dp d de = some (off, dp, d, de)
  empty_loop (suc rounds) off dp d de =
      let next : Option (ℕ × Inode × Disk × (ℕ → ℕ)) = elim (read_entry off dp d de) [
        | none ↦ none
        | some (dp', d', de') ↦
            (let rest = empty_loop rounds (off + entry_size) dp' d' de' in
              if entry_inum de' == 0 then some (off, dp', d', de') else rest)
      ] in
      if ltb off dp.size then next else some (off, dp, d, de)

  -- The new entry at `off`, where `none` is also the panic "dirlink".
  unfoldable pub put_entry :
      ℕ → ℕ → List Inode → Inode → Disk → (ℕ → ℕ) → Option (Bool × List Inode × Disk)
  put_entry off s t dp d de = elim (writei devsw sb off entry_size dp d de) [
    | none ↦ none
    | some (none, dp', d') ↦ none
    | some (some k, dp', d') ↦ if k == entry_size then some (true, set t s dp', d') else none
  ]

  -- `false` is -1.
  unfoldable pub dirlink :
      (ℕ → ℕ) → ℕ → ℕ → List Inode → Disk → (ℕ → ℕ) → Option (Bool × List Inode × Disk)
  dirlink name inum s t d de = elim (dirlookup name s t d de) [
    | none ↦ none
    | some (some (o, i), t', d') ↦ elim (iput sb i t' d') [
      | none ↦ none
      | some (t₂, d₂) ↦ some (false, t₂, d₂)
    ]
    | some (none, t', d') ↦
        (let dp = get_or t' s no_inode in
          elim (empty_loop dp.size 0 dp d' de) [
            | none ↦ none
            | some (off, dp₂, d₂, de₂) ↦ put_entry off s t' dp₂ d₂ (new_entry name inum de₂)
          ])
  ]

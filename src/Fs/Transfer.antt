-- ===== src/Fs/Transfer.antt =====
-- The content of inodes: `readi` and `writei` of fs.c, for files, directories and devices.
use operating_systems_work.Base.{
  ℕ, ◌+◌, ◌-◌, ◌*◌, ◌%◌, ◌&&◌, ◌||◌, Option, none, some, ◌==◌, ltb, if◌then◌else◌,
}
use operating_systems_work.Fs.Disk.{Disk, Superblock, block_size}
use operating_systems_work.Fs.Inode.{Inode, max_file, uint_mod, read_loop, write_loop}
use operating_systems_work.Fs.Dinode.{iupdate}

-- T_DEV of stat.h and NDEV of param.h.
abbrev pub t_dev : ℕ
t_dev = 3

abbrev pub num_devices : ℕ
num_devices = 10

-- `struct devsw`, whose members are pointers to functions: `none` is the null pointer. A function
-- gets the inode, the buffer and the number of bytes, and returns a number or -1 (`none`); one that
-- reads also leaves the buffer.
pub record Devsw : Type 0 where
  pub read : Option (Inode → (ℕ → ℕ) → ℕ → Option ℕ × (ℕ → ℕ))
  pub write : Option (Inode → (ℕ → ℕ) → ℕ → Option ℕ)

-- The table `devsw`, and the tests before its use; the 16 bits of a negative `major` are not below
-- NDEV either.
abbrev pub reader : (ℕ → Devsw) → Inode → Option (Inode → (ℕ → ℕ) → ℕ → Option ℕ × (ℕ → ℕ))
reader devsw ip = if ltb ip.major num_devices then (devsw ip.major).read else none

abbrev pub writer : (ℕ → Devsw) → Inode → Option (Inode → (ℕ → ℕ) → ℕ → Option ℕ)
writer devsw ip = if ltb ip.major num_devices then (devsw ip.major).write else none

module _ (sb : Superblock) where
  -- `if(n > 0 && off > ip->size){ ip->size = off; iupdate(ip); }`, where `last` is the `off` of the
  -- code after the loop.
  unfoldable pub set_size : ℕ → ℕ → Inode → Disk → Inode × Disk
  set_size last n ip d =
      let grown : Inode = record ip { size = last } in
      if ltb 0 n && ltb ip.size last then (grown, iupdate sb grown d) else (ip, d)

module _ (devsw : ℕ → Devsw) (sb : Superblock) where
  -- `readi` into `buf`, from place 0 on: the number of bytes or -1 (`none`), with the inode, the disk
  -- and the buffer; `none` as a whole is a panic.
  unfoldable pub readi : ℕ → ℕ → Inode → Disk → (ℕ → ℕ) → Option (Option ℕ × Inode × Disk × (ℕ → ℕ))
  readi off n ip d buf =
      let m = if ltb ip.size ((off + n) % uint_mod) then ip.size - off else n in
      if ip.type == t_dev
      then elim (reader devsw ip) [
        | none ↦ some (none, ip, d, buf)
        | some read ↦ (let (r, buf') = read ip buf n in some (r, ip, d, buf'))
      ]
      else if ltb ip.size off || ltb ((off + n) % uint_mod) off
      then some (none, ip, d, buf)
      else elim (read_loop sb m off 0 m ip d buf) [
        | none ↦ none
        | some (ip', d', buf') ↦ some (some m, ip', d', buf')
      ]

  unfoldable pub writei : ℕ → ℕ → Inode → Disk → (ℕ → ℕ) → Option (Option ℕ × Inode × Disk)
  writei off n ip d buf =
      if ip.type == t_dev
      then elim (writer devsw ip) [
        | none ↦ some (none, ip, d)
        | some write ↦ some (write ip buf n, ip, d)
      ]
      else if ltb ip.size off || ltb ((off + n) % uint_mod) off
      then some (none, ip, d)
      else if ltb (max_file * block_size) ((off + n) % uint_mod)
      then some (none, ip, d)
      else elim (write_loop sb n off 0 n ip d buf) [
        | none ↦ none
        | some (ip', d') ↦
            (let (ip₂, d₂) = set_size sb (off + n) n ip' d' in some (some n, ip₂, d₂))
      ]

-- ===== src/Files/Transfer.antt =====
-- `filestat`, `fileread` and `filewrite` of ass5/final_repo/file.c, on the pipe or the inode of the file.
use operating_systems_work.Base.{
  ℕ, zero, suc, ◌+◌, ◌-◌, ◌*◌, ◌/◌, ◌%◌, Bool, false, not, Option, none, some, List, [], ◌∷◌, ◌==◌,
  ltb, min, if◌then◌else◌,
}
use operating_systems_work.Files.{File, fd_none, fd_pipe, fd_inode}
use operating_systems_work.Pipe.{Pipe, Written, Read, pipewrite, piperead}
use operating_systems_work.Fs.Disk.{Disk, Superblock}
use operating_systems_work.Base.{ℤ, pos, negsuc}
use operating_systems_work.Fs.Inode.{Inode, uint_mod}
use operating_systems_work.Fs.Transfer.{Devsw, readi, writei}
use operating_systems_work.Fs.Dinode.{Stat, stati}

-- `max`, for MAXOPBLOCKS of 10.
abbrev pub max_chunk : ℕ
max_chunk = (10 - 1 - 1 - 2) / 2 * 512

-- The result of a call: a number, -1, or what the pipe does with it.
pub data WriteReply : Type 0 where
  wrote : ℕ → WriteReply
  refused : WriteReply
  to_pipe : Written → WriteReply

pub data ReadReply : Type 0 where
  gave : ℕ → ReadReply
  denied : ReadReply
  from_pipe : Read → ReadReply

-- The first `n` bytes of a buffer.
abbrev pub bytes_of : ℕ → ℕ → (ℕ → ℕ) → List ℕ
bytes_of zero i buf = []
bytes_of (suc n) i buf = buf i ∷ bytes_of n (i + 1) buf

-- The inode `ip` of these calls is that of the file, as `ilock` leaves it.
unfoldable pub filestat : File → Inode → Option Stat
filestat f ip = elim f.type [ fd_inode ↦ some (stati ip) | fd_none ↦ none | fd_pipe ↦ none ]

-- `n` as a number of rounds and bytes: a negative one gives none.
abbrev pub count : ℤ → ℕ
count (pos n) = n
count (negsuc n) = 0

-- `i == n`
abbrev pub is_count : ℕ → ℤ → Bool
is_count i (pos n) = i == n
is_count i (negsuc n) = false

module _ (devsw : ℕ → Devsw) (sb : Superblock) where
  -- The loop of `filewrite` to an inode, with `i` bytes written so far. Each round writes at least a
  -- byte; the `none` after the test of `r` is the panic "short filewrite".
  unfoldable pub write_chunks :
      ℕ → ℕ → ℕ → ℕ → (ℕ → ℕ) → Inode → Disk → Option (ℕ × ℕ × Inode × Disk)
  write_chunks zero i n off buf ip d = some (i, off, ip, d)
  write_chunks (suc rounds) i n off buf ip d =
      let m = min (n - i) max_chunk in
      let next : Option (ℕ × ℕ × Inode × Disk) =
        elim (writei devsw sb off m ip d (λ j. buf (i + j))) [
          | none ↦ none
          | some (none, ip', d') ↦ some (i, off, ip', d')
          | some (some r, ip', d') ↦
              (let rest = write_chunks rounds (i + r) n ((off + r) % uint_mod) buf ip' d' in
                if r == m then rest else none)
        ] in
      if ltb i n then next else some (i, off, ip, d)

  -- `none` is a panic, of the file system or of `filewrite`. A pipe gets no byte for a negative `n`.
  unfoldable pub filewrite :
      Bool
      → File
      → ℤ
      → (ℕ → ℕ)
      → Pipe
      → Inode
      → Disk
      → Option (WriteReply × File × Pipe × Inode × Disk)
  filewrite killed f n buf p ip d =
      if not f.writable then some (refused, f, p, ip, d) else elim f.type [
        | fd_none ↦ none
        | fd_pipe ↦
            (let (r, q) = pipewrite killed (bytes_of (count n) 0 buf) p in
              some (to_pipe r, f, q, ip, d))
        | fd_inode ↦ elim (write_chunks (count n) 0 (count n) f.off buf ip d) [
          | none ↦ none
          | some (i, off, ip', d') ↦ some (
            (if is_count i n then wrote (count n) else refused),
            record f { off = off },
            p,
            ip',
            d',
          )
        ]
      ]

  -- `fileread` of a number of bytes that is not negative.
  unfoldable pub fileread :
      Bool
      → File
      → ℕ
      → (ℕ → ℕ)
      → Pipe
      → Inode
      → Disk
      → Option (ReadReply × File × Pipe × Inode × Disk × (ℕ → ℕ))
  fileread killed f n buf p ip d =
      if not f.readable then some (denied, f, p, ip, d, buf) else elim f.type [
        | fd_none ↦ none
        | fd_pipe ↦ (let (r, q) = piperead killed n p in some (from_pipe r, f, q, ip, d, buf))
        | fd_inode ↦ elim (readi devsw sb f.off n ip d buf) [
          | none ↦ none
          | some (none, ip', d', buf') ↦ some (denied, f, p, ip', d', buf')
          | some (some r, ip', d', buf') ↦
              some (gave r, record f { off = (f.off + r) % uint_mod }, p, ip', d', buf')
        ]
      ]

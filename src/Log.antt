-- ===== src/Log.antt =====
-- The redo log of ass5/final_repo/log.c.
pub mod Prefix
pub mod Install
pub mod Crash
pub mod Recover
pub mod Reserve
pub mod Full
use operating_systems_work.Base.{
  ℕ, ◌+◌, ◌*◌, Bool, true, false, ◌||◌, Option, none, some, List, [], ◌∷◌, ◌++◌, ◌==◌, ltb, leb,
  if◌then◌else◌, length, ◌-◌,
}

-- LOGSIZE and MAXOPBLOCKS of param.h.
abbrev pub max_op_blocks : ℕ
max_op_blocks = 10

abbrev pub log_size : ℕ
log_size = 30

-- The disk: the header block (`block[0..n)`), the log's data blocks by their index, and the blocks
-- outside the log by their number. `D` is the content of a block.
pub record Disk (D : Type 0) : Type 0 where
  pub head : List ℕ
  pub slots : ℕ → D
  pub home : ℕ → D

-- One `bwrite`: the disk writes a whole block or nothing.
pub data Write (D : Type 0) : Type 0 where
  to_head : List ℕ → Write D
  to_slot : ℕ → D → Write D
  to_home : ℕ → D → Write D

abbrev pub update : {D : Type 0} → (ℕ → D) → ℕ → D → ℕ → D
update f i d j = if i == j then d else f j

module _ {D : Type 0} where
  abbrev pub apply : Write D → Disk D → Disk D
  apply (to_head bs) k = record k { head = bs }
  apply (to_slot i d) k = record k { slots = update k.slots i d }
  apply (to_home b d) k = record k { home = update k.home b d }

  unfoldable pub run : List (Write D) → Disk D → Disk D
  run [] k = k
  run (w ∷ ws) k = run ws (apply w k)

  -- `write_log`: the loop from `tail` on, with the buffer cache `cache`.
  unfoldable pub write_log : (ℕ → D) → ℕ → List ℕ → List (Write D)
  write_log cache tail [] = []
  write_log cache tail (b ∷ bs) = to_slot tail (cache b) ∷ write_log cache (tail + 1) bs

  -- `install_trans`: the loop from `tail` on. Each round reads the log block from the disk as the
  -- rounds before have left it.
  unfoldable pub install_trans : ℕ → List ℕ → Disk D → List (Write D)
  install_trans tail [] k = []
  install_trans tail (b ∷ bs) k =
      let w = to_home b (k.slots tail) in w ∷ install_trans (tail + 1) bs (apply w k)

  unfoldable pub write_head : List ℕ → List (Write D)
  write_head bs = to_head bs ∷ []

  -- The writes of `commit`, in their order, for the block numbers `lh` logged in memory.
  unfoldable pub commit : (ℕ → D) → List ℕ → Disk D → List (Write D)
  commit cache [] k = []
  commit cache (b ∷ bs) k =
      let lh = b ∷ bs in
      let logged = write_log cache 0 lh in
      let committed = run (write_head lh) (run logged k) in
      logged ++ (write_head lh ++ (install_trans 0 lh committed ++ write_head []))

  -- The writes of `recover_from_log`: `read_head` takes the header that is on the disk.
  unfoldable pub recover_from_log : Disk D → List (Write D)
  recover_from_log k = install_trans 0 k.head k ++ write_head []

-- The log in memory: `log.lh.block[0..n)`, `size`, `outstanding` and `committing`.
pub record Log : Type 0 where
  pub lh : List ℕ
  pub size : ℕ
  pub outstanding : ℕ
  pub committing : Bool

-- One round of the loop of `begin_op`: `none` is going to sleep on the log.
unfoldable pub begin_op : Log → Option Log
begin_op l =
    if l.committing
    then none
    else if ltb log_size (length l.lh + (l.outstanding + 1) * max_op_blocks)
    then none
    else some (record l { outstanding = l.outstanding + 1 })

-- The part of `end_op` under the lock: whether this call commits, and the log; `none` is the panic
-- "log.committing". `outstanding` is an int, and positive here by the caller's `begin_op`.
unfoldable pub end_op : Log → Option (Bool × Log)
end_op l =
    let out = l.outstanding - 1 in
    if l.committing
    then none
    else if out == 0
    then some (true, record l { outstanding = out; committing = true })
    else some (false, record l { outstanding = out })

-- `commit` as it leaves the log in memory, and the rest of `end_op`.
unfoldable pub end_commit : Log → Log
end_commit l = record l { lh = []; committing = false }

-- The loop of `log_write` with its write to `block[i]`: absorbed, or appended.
unfoldable pub absorb : ℕ → List ℕ → List ℕ
absorb b [] = b ∷ []
absorb b (c ∷ cs) = if c == b then b ∷ cs else c ∷ absorb b cs

-- `none` is one of the two panics.
unfoldable pub log_write : ℕ → Log → Option Log
log_write b l =
    if leb log_size (length l.lh) || leb (l.size - 1) (length l.lh)
    then none
    else if ltb l.outstanding 1
    then none
    else some (record l { lh = absorb b l.lh })

-- ===== src/Tests/Logging.antt =====
-- Runs of the redo log of ass5/final_repo/log.c.
use operating_systems_work.Base.{
  Bool, ℕ, zero, suc, ◌+◌, ◌≡◌, ◌<◌, refl, false, true, List, [], ◌∷◌, arith, some, none,
}
use operating_systems_work.Log.{
  Disk, Log, commit, recover_from_log, log_size, log_write, absorb, end_op, max_op_blocks, begin_op,
}
use operating_systems_work.Log.Prefix.{crash}
use operating_systems_work.Log.Install.{recovered, overlay}
use operating_systems_work.Log.Crash.{AllOrNothing, commit_atomic, commit_durable}
use operating_systems_work.Log.Recover.{recover_again}
use operating_systems_work.Log.Reserve.{
  Ops, Step, Reach, Reserved, start, no_panic, here, next, begins, writes, ends, Reach-Reserved,
}
use operating_systems_work.Log.Full.{Fresh, log_writes, three_ops, overflow}

abbrev clean : Disk ℕ
clean = record { head = []; slots = λ i. 0; home = λ b. b }

abbrev dirty : Disk ℕ
dirty = record { head = 4 ∷ 9 ∷ []; slots = λ i. i + 70; home = λ b. b }

abbrev cache : ℕ → ℕ
cache b = b + 100

commit_atomic_example :
    AllOrNothing cache (5 ∷ 8 ∷ []) clean.home (crash 4 (commit cache (5 ∷ 8 ∷ []) clean) clean)
commit_atomic_example = commit_atomic cache (5 ∷ 8 ∷ []) clean refl 4

header_written : 2 < 3
header_written = omega arith

commit_durable_example :
    recovered (crash 3 (commit cache (5 ∷ 8 ∷ []) clean) clean) 8
    ≡ overlay cache (5 ∷ 8 ∷ []) clean.home 8
commit_durable_example = commit_durable cache (5 ∷ 8 ∷ []) clean 3 refl header_written 8

recover_again_example : recovered (crash 1 (recover_from_log dirty) dirty) 9 ≡ recovered dirty 9
recover_again_example = recover_again dirty 1 9

-- One operation that has written one block.
abbrev one_op : ℕ → Ops
one_op n = record {
  log = record { lh = []; size = n; outstanding = 1; committing = false };
  used = 0 ∷ [];
}

abbrev wrote : Ops
wrote = record {
  log = record { lh = 6 ∷ []; size = 40; outstanding = 1; committing = false };
  used = 1 ∷ [];
}

one_op-Step : Step (start 40) (one_op 40)
unfolding begin_op
one_op-Step = begins (one_op 40).log refl

wrote-Step : Step (one_op 40) wrote
unfolding log_write absorb
wrote-Step = writes 0 0 6 wrote.log refl (omega arith) refl

wrote-Reach : Reach (start 40) wrote
wrote-Reach = next (next here one_op-Step) wrote-Step

Reach-Reserved_example : Reserved wrote
Reach-Reserved_example = Reach-Reserved wrote-Reach

more : log_size < 40
more = omega arith

small : 1 < max_op_blocks
small = omega arith

no_panic_example :
    ((l : Log) × (log_write 2 wrote.log ≡ some l))
    × ((c : Bool) × (l : Log) × (end_op wrote.log ≡ some (c, l)))
no_panic_example = no_panic 0 1 2 more wrote-Reach refl small

abbrev committing : Ops
committing = record {
  log = record { lh = 6 ∷ []; size = 40; outstanding = 0; committing = true };
  used = [];
}

committing-Reach : Reach (start 40) committing
unfolding end_op
committing-Reach = next wrote-Reach (ends 0 1 true committing.log refl refl)

abbrev down : ℕ → List ℕ
down zero = []
down (suc n) = n ∷ down n

overflow_example :
    ((l : Log) × (begin_op (record (three_ops []) { outstanding = 2 }) ≡ some l)
      × (log_writes (down 29) l ≡ some (three_ops (down 29))))
    × (log_write 77 (three_ops (down 29)) ≡ none)
overflow_example = overflow (down 29) 77 down-Fresh refl
  where
    down-Fresh : Fresh (down 29) []
    down-Fresh = ground arith

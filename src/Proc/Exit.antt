-- ===== src/Proc/Exit.antt =====
-- `wakeup1`, `wakeup`, `kill` and `exit` of ass5/final_repo/proc.c.
use mathlib.Core.Option
use operating_systems_work.Base.{
  ℕ, zero, suc, ◌+◌, ◌-◌, ◌%◌, Bool, true, false, ◌&&◌, Option, none, some, List, [], ◌∷◌, map,
  ◌==◌, if◌then◌else◌, modify, length,
}
use operating_systems_work.Proc.Types.{
  is_sleeping, is_zombie, runnable, zombie, Chan, opt_chan_eq, Proc, Kernel, Env, proc_at, int_mod,
}

-- The body of the loop of `wakeup1`.
abbrev pub wake : Option Chan → Proc → Proc
wake chan p =
    if is_sleeping p.state && opt_chan_eq p.chan chan then record p { state = runnable } else p

unfoldable pub wakeup1 : Option Chan → List Proc → List Proc
wakeup1 chan t = map (wake chan) t

-- `wakeup`, with `ptable.lock` held throughout.
unfoldable pub wakeup : {W : Type 0} → Option Chan → Kernel W → Kernel W
wakeup chan k = record k { table = wakeup1 chan k.table }

-- The first slot with the pid, in the order of the loop.
unfoldable pub find_pid : ℕ → List Proc → Option ℕ
find_pid n [] = none
find_pid n (p ∷ ps) = if p.pid == n then some 0 else Option.map (λ i. i + 1) (find_pid n ps)

abbrev pub kill_proc : Proc → Proc
kill_proc p =
    if is_sleeping p.state
    then record p { killed = true; state = runnable }
    else record p { killed = true }

-- `false` is the return value -1.
unfoldable pub kill : {W : Type 0} → ℕ → Kernel W → Bool × Kernel W
kill n k = elim (find_pid n k.table) [
  | none ↦ (false, k)
  | some i ↦ (true, record k { table = modify k.table i kill_proc })
]

abbrev pub is_child : ℕ → Proc → Bool
is_child cur p = elim p.parent [ none ↦ false | some q ↦ q == cur ]

abbrev pub adopt : ℕ → Proc → Proc
adopt init p = record p { parent = some init }

-- The body of the loop of `exit` that passes an abandoned child to init, at slot `i`.
unfoldable pub abandon : ℕ → ℕ → ℕ → List Proc → List Proc
abandon cur init i t =
    if is_child cur (proc_at t i)
    then if is_zombie (proc_at t i).state
      then wakeup1 (some (Chan.slot init)) (modify t i (adopt init))
      else modify t i (adopt init)
    else t

-- The loop: the slots from `i` on, `n` of them.
unfoldable pub abandon_from : ℕ → ℕ → ℕ → ℕ → List Proc → List Proc
abandon_from cur init zero i t = t
abandon_from cur init (suc n) i t = abandon_from cur init n (i + 1) (abandon cur init i t)

-- The times and the state that `exit` leaves.
abbrev pub bury : ℕ → Proc → Proc
bury now p = record p {
  etime = now;
  wait_time = ((now + int_mod - p.ctime) % int_mod + int_mod - p.rtime) % int_mod;
  state = zombie;
}

module _ {W : Type 0} (env : Env W) where
  unfoldable pub close_all : List (Option ℕ) → W → W
  close_all [] w = w
  close_all (none ∷ fs) w = close_all fs w
  close_all (some f ∷ fs) w = close_all fs (env.fileclose f w)

  -- The part of `exit` that runs without `ptable.lock`.
  unfoldable pub exit_files : ℕ → Kernel W → Kernel W
  exit_files cur k =
      let p = proc_at k.table cur in
      record k {
        table = modify k.table cur (λ q. record q { ofile = map (λ _. none) q.ofile; cwd = none });
        w = env.iput_op p.cwd (close_all p.ofile k.w);
      }

-- The part under `ptable.lock`, up to `sched()`.
unfoldable pub exit_table : {W : Type 0} → ℕ → Kernel W → Kernel W
exit_table cur k =
    let woken = wakeup1 (Option.map Chan.slot (proc_at k.table cur).parent) k.table in
    let moved = abandon_from cur k.initproc (length woken) 0 woken in
    record k { table = modify moved cur (bury k.ticks) }

-- `none` is the panic "init exiting". The process is in `sched()` afterwards.
unfoldable pub exit : {W : Type 0} → Env W → ℕ → Kernel W → Option (Kernel W)
exit env cur k = if cur == k.initproc then none else some (exit_table cur (exit_files env cur k))

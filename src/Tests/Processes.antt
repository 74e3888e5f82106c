-- ===== src/Tests/Processes.antt =====
-- Runs of the process table of ass5/final_repo/proc.c.
use mathlib.Core.Option
use operating_systems_work.Base.{
  ℕ, zero, suc, ◌+◌, ◌≡◌, ◌≢◌, ◌<◌, refl, false, true, [], ◌∷◌, arith, some, none, Option,
  get_elem?,
}
use operating_systems_work.Proc.Types.{runnable, Proc, Kernel, Env, zero_proc, running, is_unused}
use operating_systems_work.Proc.Types.{Chan, proc_at}
use operating_systems_work.Proc.Fork.{find_unused, allocproc, alloc_at, fork, fork_with, fork_at}
use operating_systems_work.Proc.Exit.{wakeup, wakeup1, kill, is_child, exit_files, exit_table}
use operating_systems_work.Proc.Wait.{wait, waitx}
use operating_systems_work.Proc.Wait.{Times as WaitTimes}
use operating_systems_work.Proc.Sched.{dispatch, switch_back, count_tick, age_slot}
use operating_systems_work.Proc.System.{after}
use operating_systems_work.Proc.Inv.{Pids, Times}
use operating_systems_work.Proc.Reaping.{WaitPost, wait_lem}
use operating_systems_work.Proc.Orphans.{Everywhere, IsAwakeOn, exit_orphans, wakeup1_awake}
use operating_systems_work.Proc.Births.{ForkPost, fork_lem}
use operating_systems_work.Proc.Stale.{kill_stale}

-- The code around proc.c: `w` counts the free pages, and page tables are numbered by them.
abbrev pub take_page : ℕ → Option ℕ × ℕ
take_page zero = (none, zero)
take_page (suc n) = (some (suc n), n)

abbrev pub env : Env ℕ
env = record {
  kalloc = take_page;
  kfree = λ page w. w + 1;
  copyuvm = λ pgdir sz w. take_page w;
  freevm = λ pgdir w. w + 1;
  allocuvm = λ pgdir old new w. (new, w);
  deallocuvm = λ pgdir old new w. (new, w);
  filedup = λ f w. w;
  fileclose = λ f w. w;
  idup = λ ip w. w;
  iput_op = λ ip w. w;
  setupkvm = take_page;
  inituvm = λ pgdir w. w;
  namei = λ w. (some 1, w);
  forkret = 1000;
}

-- init runs on CPU 0, and slot 1 is free.
abbrev init : Proc
init = record zero_proc {
  state = running;
  pid = 1;
  sz = 4096;
  etime = 4294967295;
  ofile = none ∷ some 5 ∷ [];
}

abbrev booted : Kernel ℕ
booted = record {
  table = init ∷ zero_proc ∷ [];
  nextpid = 2;
  ticks = 0;
  initproc = 0;
  cpus = some 0 ∷ none ∷ [];
  w = 9;
}

booted-Pids : Pids 2 booted.table
booted-Pids = record { small = small; unique = unique }
  where
    small : (i : ℕ) (p : Proc) → get_elem? booted.table i ≡ some p → p.pid < 2
    small zero p e = ground arith
    small (suc zero) p e = ground arith
    small (suc (suc i)) p e = ground arith

    unique :
        (i j : ℕ) (p q : Proc)
        → get_elem? booted.table i ≡ some p
        → get_elem? booted.table j ≡ some q
        → is_unused p.state ≡ false
        → is_unused q.state ≡ false
        → p.pid ≡ q.pid
        → i ≡ j
    unique zero zero p q e f lp lq s = refl
    unique zero (suc zero) p q e f lp lq s = ground arith
    unique zero (suc (suc j)) p q e f lp lq s = ground arith
    unique (suc zero) j p q e f lp lq s = ground arith
    unique (suc (suc i)) j p q e f lp lq s = ground arith

-- init forks, the clock ticks and counts the child, which runs on CPU 1 and exits, and init waits for it.
forked : Kernel ℕ
forked = (fork env 0 booted).1

ticked : Kernel ℕ
ticked = age_slot 1 runnable (count_tick forked)

started : Kernel ℕ
started = dispatch 1 1 ticked

closed : Kernel ℕ
closed = exit_files env 1 started

exited : Kernel ℕ
exited = switch_back 1 (exit_table 1 closed)

waited : Kernel ℕ
waited = after 0 (waitx env 0 exited)

wait_lem_example : WaitPost 0 exited (wait env 0 exited)
wait_lem_example = wait_lem env 0 exited

abbrev report : WaitTimes
report = record { pid = 2; wtime = 1; rtime = 0 }

not_init : 1 ≢ closed.initproc
unfolding forked ticked started closed fork fork_with fork_at allocproc alloc_at find_unused
    count_tick age_slot wakeup dispatch exit_files wakeup1
not_init = omega arith

exit_orphans_example :
    Everywhere (λ p. is_child 1 p ≡ false) (exit_table 1 closed).table
    × Everywhere
        (IsAwakeOn (Option.map Chan.slot (proc_at closed.table 1).parent))
        (exit_table 1 closed).table
exit_orphans_example = exit_orphans 1 closed not_init

fork_lem_example : ForkPost 0 booted (fork env 0 booted)
fork_lem_example = fork_lem env 0 booted init refl refl

wakeup1_awake_example :
    Everywhere (IsAwakeOn (some (Chan.slot 0))) (wakeup1 (some (Chan.slot 0)) booted.table)
wakeup1_awake_example = wakeup1_awake (some (Chan.slot 0)) booted.table

abbrev poor : Kernel ℕ
poor = record booted { w = 0 }

kill_stale_example :
    ((allocproc env poor).0 ≡ none)
    × ((kill 2 (allocproc env poor).1).0 ≡ true)
    × (q : Proc) × (get_elem? (kill 2 (allocproc env poor).1).1.table 1 ≡ some q)
    × (is_unused q.state ≡ true)
    × (q.killed ≡ true)
unfolding find_unused
kill_stale_example = kill_stale env poor 1 refl refl booted-Pids.small

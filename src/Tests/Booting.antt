-- ===== src/Tests/Booting.antt =====
-- A run of the process table of ass5/final_repo/proc.c from the start of the kernel.
use operating_systems_work.Base.{ℕ, ◌≡◌, refl, Option, none, some}
use operating_systems_work.Proc.Types.{Kernel, proc_at, zombie, runnable}
use operating_systems_work.Proc.Fork.{
  find_unused, dup_ofile, allocproc, alloc_at, fork, fork_with, fork_at,
}
use operating_systems_work.Proc.Boot.{userinit, userinit_with, userinit_at}
use operating_systems_work.Proc.Exit.{
  wakeup, wakeup1, exit_files, exit_table, abandon, abandon_from,
}
use operating_systems_work.Proc.Sched.{dispatch, switch_back, count_tick, age_slot}
use operating_systems_work.Proc.Power.{power_on}
use operating_systems_work.Tests.Processes.{env}

-- init is made, runs on CPU 0 and forks; the clock ticks and counts the child; the child runs on CPU 1 and exits.
abbrev off : Kernel ℕ
off = power_on 2 2 9

abbrev or_else : Option (Kernel ℕ) → Kernel ℕ → Kernel ℕ
or_else none k = k
or_else (some k) l = k

abbrev made : Kernel ℕ
made = or_else (userinit env off) off

running_init : Kernel ℕ
running_init = dispatch 0 0 made

forked : Kernel ℕ
forked = (fork env 0 running_init).1

ticked : Kernel ℕ
ticked = age_slot 1 runnable (count_tick forked)

started : Kernel ℕ
started = dispatch 1 1 ticked

closed : Kernel ℕ
closed = exit_files env 1 started

exited : Kernel ℕ
exited = switch_back 1 (exit_table 1 closed)

child_is_zombie : (proc_at exited.table 1).state ≡ zombie
unfolding running_init forked ticked started closed exited userinit userinit_with userinit_at fork
    fork_with fork_at allocproc alloc_at find_unused count_tick age_slot wakeup wakeup1 dispatch
    exit_files exit_table abandon abandon_from switch_back dup_ofile
child_is_zombie = refl

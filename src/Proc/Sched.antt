-- ===== src/Proc/Sched.antt =====
-- `scheduler`, `yield`, `sleep`, `increment_times`, `getpinfo` of ass5/final_repo/proc.c, and the
-- timer interrupt of trap.c.
use operating_systems_work.Base.{
  ℕ, ◌+◌, ◌%◌, none, some, List, [], ◌∷◌, ◌==◌, if◌then◌else◌, modify, set,
}
use operating_systems_work.Proc.Types.{
  ProcState, is_runnable, is_running, runnable, running, Chan, Proc, ProcStat, Kernel, proc_at,
  int_mod,
}
use operating_systems_work.Proc.Wait.{fall_asleep}

abbrev pub start_running : Proc → Proc
start_running p = record p { state = running; num_run = (p.num_run + 1) % int_mod }

-- A process put back in the queue, at the end of its time slice.
abbrev pub requeue : Proc → Proc
requeue p = record p { state = runnable }

module _ {W : Type 0} where
  -- The body of the loop of `scheduler` on CPU `c`, at slot `i`, up to `swtch`.
  unfoldable pub dispatch : ℕ → ℕ → Kernel W → Kernel W
  dispatch c i k =
      if is_runnable (proc_at k.table i).state
      then record k { cpus = set k.cpus c (some i); table = modify k.table i start_running }
      else k

  -- `c->proc = 0`, after the process has come back through `sched`.
  unfoldable pub switch_back : ℕ → Kernel W → Kernel W
  switch_back c k = record k { cpus = set k.cpus c none }

  -- `yield` by the process at slot `i` on CPU `c`, and the scheduler's part after its `sched`.
  unfoldable pub yield_cpu : ℕ → ℕ → Kernel W → Kernel W
  yield_cpu c i k = switch_back c (record k { table = modify k.table i requeue })

  -- `sleep(chan, lk)` by the process at slot `i` on CPU `c`, up to and with its `sched`.
  unfoldable pub sleep_on : ℕ → ℕ → Chan → Kernel W → Kernel W
  sleep_on c i chan k = switch_back c (record k { table = modify k.table i (fall_asleep chan) })

  -- "Tidy up": the first thing that a process does when it runs again after `sleep`.
  unfoldable pub tidy_up : ℕ → Kernel W → Kernel W
  tidy_up i k = record k { table = modify k.table i (λ p. record p { chan = none }) }

-- A round of the loop of `increment_times`, for a slot whose state was `seen`. Its first test,
-- `p->state ==~ UNUSED`, compares with ~0 = -1, which is no state: it never holds.
abbrev pub age : ProcState → Proc → Proc
age seen p =
    if is_running seen
    then record p { rtime = (p.rtime + 1) % int_mod }
    else if is_runnable seen
    then record p { time_in_queues = (p.time_in_queues + 1) % int_mod }
    else p

-- The timer interrupt on CPU 0 holds `tickslock` only, so that calls on other CPUs come between its
-- parts: `ticks++`, the rounds of `increment_times`, and `wakeup(&ticks)`.
unfoldable pub count_tick : {W : Type 0} → Kernel W → Kernel W
count_tick k = record k { ticks = (k.ticks + 1) % int_mod }

unfoldable pub age_slot : {W : Type 0} → ℕ → ProcState → Kernel W → Kernel W
age_slot i seen k = record k { table = modify k.table i (age seen) }

-- The loop of `getpinfo`: the later of two slots with the pid overwrites the earlier.
unfoldable pub fill_stat : ℕ → List Proc → ProcStat → ProcStat
fill_stat n [] out = out
fill_stat n (p ∷ ps) out =
    fill_stat n ps (
      if p.pid == n
      then record out { runtime = p.rtime; num_run = p.num_run; pid = p.pid }
      else out)

-- The return value and what is in `*process` afterwards; the table is only read.
unfoldable pub getpinfo : {W : Type 0} → ProcStat → ℕ → Kernel W → ℕ × ProcStat
getpinfo out n k = (22, fill_stat n k.table out)

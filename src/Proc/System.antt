-- ===== src/Proc/System.antt =====
-- The process table under any order of the calls of proc.c, from any number of CPUs.
-- Each step runs with `ptable.lock` held to its end, or up to the `swtch` in `sched`, but the steps
-- of the clock, which hold `tickslock` only: an `age_step` is a round of `increment_times` for slot `i`,
-- at any time after its read of the state.
use operating_systems_work.Base.{ℕ, ◌+◌, ◌<◌, ◌≡◌, ◌≢◌, Option, none, some, get_elem?}
use operating_systems_work.Proc.Types.{Chan, ProcState, Kernel, Env, int_mod}
use operating_systems_work.Proc.Boot.{userinit}
use operating_systems_work.Proc.Fork.{fork, growproc}
use operating_systems_work.Proc.Exit.{exit_files, exit_table, kill, wakeup}
use operating_systems_work.Proc.Wait.{wait, waitx, Waited, asleep}
use operating_systems_work.Proc.Sched.{
  dispatch, switch_back, yield_cpu, sleep_on, tidy_up, count_tick, age_slot,
}
use operating_systems_work.Proc.Inv.{Pids, Times}
use operating_systems_work.Proc.Calm.{OnCpus}

module _ {W : Type 0} where
  -- CPU `c` runs the process at slot `i`, which is `myproc()` there.
  abbrev pub Runs : Kernel W → ℕ → ℕ → Type 0
  Runs k c i = get_elem? k.cpus c ≡ some (some i)

  -- The scheduler's part, if the process on CPU `c` has gone to sleep.
  abbrev pub after : {A : Type 0} → ℕ → Waited A × Kernel W → Kernel W
  after c (asleep, k) = switch_back c k
  after c (_, k) = k

  pub data Step (env : Env W) (k : Kernel W) : Kernel W → Type 0 where
    boot : {l : Kernel W} → k.nextpid + 1 < int_mod → userinit env k ≡ some l → Step env k l
    fork_step : (c i : ℕ) → Runs k c i → k.nextpid + 1 < int_mod → Step env k (fork env i k).1
    exit_open : (c i : ℕ) → Runs k c i → i ≢ k.initproc → Step env k (exit_files env i k)
    exit_step :
        (c i : ℕ) → Runs k c i → i ≢ k.initproc → Step env k (switch_back c (exit_table i k))
    wait_step : (c i : ℕ) → Runs k c i → Step env k (after c (wait env i k))
    waitx_step : (c i : ℕ) → Runs k c i → Step env k (after c (waitx env i k))
    kill_step : (n : ℕ) → Step env k (kill n k).1
    grow_step : (c i n : ℕ) → Runs k c i → Step env k (growproc env i n k).1
    dispatch_step : (c i : ℕ) → get_elem? k.cpus c ≡ some none → Step env k (dispatch c i k)
    yield_step : (c i : ℕ) → Runs k c i → Step env k (yield_cpu c i k)
    sleep_step : (c i : ℕ) (chan : Chan) → Runs k c i → Step env k (sleep_on c i chan k)
    tidy_step : (c i : ℕ) → Runs k c i → Step env k (tidy_up i k)
    wakeup_step : (chan : Option Chan) → Step env k (wakeup chan k)
    clock_step : Step env k (count_tick k)
    age_step : (i : ℕ) (seen : ProcState) → Step env k (age_slot i seen k)

  pub data Reach (env : Env W) (k : Kernel W) : Kernel W → Type 0 where
    here : Reach env k k
    next : {l m : Kernel W} → Reach env k l → Step env l m → Reach env k m

  -- What holds of the process table in every run.
  pub record IsOrderly (k : Kernel W) : Type 0 where
    pub pids : Pids k.nextpid k.table
    pub on_cpus : OnCpus k.cpus k.table

  -- A table in which the counted ticks fit the times as well. A clock interrupt that is not over can
  -- break this for a while: a process made after its `ticks++` is counted in the same interrupt.
  pub record IsSound (k : Kernel W) : Type 0 where
    pub pids : Pids k.nextpid k.table
    pub times : Times k.ticks k.table
    pub on_cpus : OnCpus k.cpus k.table

-- ===== src/Proc/Steps.antt =====
-- Every step of the process table keeps the invariant, and so does every run.
use operating_systems_work.Base.{
  ℕ, zero, suc, ◌+◌, ◌<◌, ◌≡◌, refl, subst, sym, true, false, inl, inr, Option, none, some, List,
  [], ◌∷◌, get_elem?, set, modify, arith, Bool-cases, Option-cases,
}
use operating_systems_work.Proc.Types.{
  is_running, is_runnable, Proc, Kernel, Env, proc_at, int_mod, ProcState,
}
use operating_systems_work.Proc.Fork.{allocproc, fork, fork_with, fork_at, growproc, resize}
use operating_systems_work.Proc.Exit.{exit_files, exit_table, kill, wakeup}
use operating_systems_work.Proc.Wait.{wait, waitx, Waited, asleep, reaped, failed}
use operating_systems_work.Proc.Sched.{
  dispatch, switch_back, yield_cpu, sleep_on, tidy_up, count_tick, age_slot, start_running,
}
use operating_systems_work.Proc.Boot.{first_proc, userinit_at, userinit_with, userinit}
use operating_systems_work.Proc.Still.{Evolves, Evolves-modify, Still-first}
use operating_systems_work.Proc.Inv.{Pids-age}
use operating_systems_work.Proc.Evolve.{IsUsed}
use operating_systems_work.Proc.Evolve
use operating_systems_work.Proc.Calm.{Calm, Calm-modify, OnCpus, OnCpus-start}
use operating_systems_work.Proc.Running.{IsIdle}
use operating_systems_work.Proc.Running
use operating_systems_work.Proc.System.{
  Runs, IsOrderly, Step, Reach, after, boot, fork_step, exit_open, exit_step, wait_step, waitx_step,
  kill_step, grow_step, dispatch_step, yield_step, sleep_step, tidy_step, wakeup_step, clock_step,
  age_step, here, next,
}
use operating_systems_work.Proc.Sound.{
  IsEmbryo, evolved, Runs-IsUsed, calm, stop, allocproc-IsOrderly, allocproc-IsEmbryo,
}

-- An operation that only changes the table and the memory, file and inode code's state.
record SameRest {W : Type 0} (k l : Kernel W) : Type 0 where
  same_pid : l.nextpid ≡ k.nextpid
  same_cpus : l.cpus ≡ k.cpus

module _ {W : Type 0} (k : Kernel W) where
  SameRest-kill : (n : ℕ) → SameRest k (kill n k).1
  unfolding kill
  SameRest-kill n = ground arith

  SameRest-wait : (env : Env W) (i : ℕ) → SameRest k (wait env i k).1
  unfolding wait
  SameRest-wait env i = ground arith

  SameRest-waitx : (env : Env W) (i : ℕ) → SameRest k (waitx env i k).1
  unfolding waitx
  SameRest-waitx env i = ground arith

  SameRest-fork_at : (env : Env W) (i np : ℕ) → SameRest k (fork_at env i np k).1
  unfolding fork_at
  SameRest-fork_at env i np = ground arith

  SameRest-growproc : (env : Env W) (i n : ℕ) → SameRest k (growproc env i n k).1
  unfolding growproc resize
  SameRest-growproc env i n = ground arith

module _ {W : Type 0} (k : Kernel W) (v : IsOrderly k) where
  tame :
      (l : Kernel W)
      → SameRest k l
      → Evolves k.ticks k.table l.table
      → Calm none k.table l.table
      → IsOrderly l
  tame l s ev m = evolved k v l s.same_pid ev (rw s.same_cpus (calm k v l.table m))

  after-IsOrderly :
      {A : Type 0} (c i : ℕ) (r : Waited A × Kernel W)
      → Runs k c i
      → SameRest k r.1
      → Evolves k.ticks k.table r.1.table
      → Calm (Running.own_of i r.0) k.table r.1.table
      → IsOrderly (after c r)
  unfolding switch_back
  after-IsOrderly c i (asleep, l) r s ev m =
      evolved k v _ s.same_pid ev (rw s.same_cpus (stop k v c i l.table r m))
  after-IsOrderly c i (reaped a, l) r s ev m = tame l s ev m
  after-IsOrderly c i (failed, l) r s ev m = tame l s ev m

runnable_slot :
    (t : List Proc) (i : ℕ)
    → is_runnable (proc_at t i).state ≡ true
    → (p : Proc) × (get_elem? t i ≡ some p) × (is_running p.state ≡ false)
runnable_slot [] i h = absurd (ground arith)
runnable_slot (p ∷ ps) zero h = (p, refl, ground arith)
runnable_slot (p ∷ ps) (suc i) h = runnable_slot ps i h

module _ {W : Type 0} (c i : ℕ) (k : Kernel W) where
  dispatch_rest : (dispatch c i k).nextpid ≡ k.nextpid
  unfolding dispatch
  dispatch_rest = elim (Bool-cases (is_runnable (proc_at k.table i).state)) [
    | inl e ↦ rw e refl
    | inr e ↦ rw e refl
  ]

  dispatch_other : is_runnable (proc_at k.table i).state ≡ false → dispatch c i k ≡ k
  unfolding dispatch
  dispatch_other e = rw (e, dispatch)

  dispatch_runnable :
      is_runnable (proc_at k.table i).state ≡ true
      → dispatch c i k
        ≡ record k { cpus = set k.cpus c (some i); table = modify k.table i start_running }
  unfolding dispatch
  dispatch_runnable e = rw (e, dispatch)

module _ {W : Type 0} (env : Env W) where
  fork_with-IsOrderly :
      (cur : ℕ) (r : Option ℕ × Kernel W)
      → IsOrderly r.1
      → ((np : ℕ) → r.0 ≡ some np → IsEmbryo r.1.table np)
      → IsOrderly (fork_with env cur r).1
  unfolding fork_with
  fork_with-IsOrderly cur (none, k) v emb = v
  fork_with-IsOrderly cur (some np, k) v emb =
      tame k v _ (SameRest-fork_at k env cur np)
        (Evolve.Evolves-fork_at k env cur np (λ p e. (emb np refl p e).0))
        (Running.Calm-fork_at k env cur np (λ p e. (emb np refl p e).1))

module _ {W : Type 0} (env : Env W) where
  userinit_at-IsOrderly :
      (i : ℕ) (k l : Kernel W)
      → IsOrderly k
      → IsEmbryo k.table i
      → userinit_at env i k ≡ some l
      → IsOrderly l
  unfolding userinit_at
  userinit_at-IsOrderly i k l v emb h = elim (Option-cases (env.setupkvm k.w).0) [
    | inl e ↦ absurd (let h' : none ≡ some l = rw (e, userinit_at) at h in cc)
    | inr (d, e) ↦
        (let h' : some (first d) ≡ some l = rw (e, userinit_at) at h in
          subst IsOrderly (ground arith) (
            tame k v (first d) (record { same_pid = refl; same_cpus = refl })
              (Evolves-modify k.table i _ (λ p q. Still-first k.ticks d (cwd d) p (emb p q).0))
              (Calm-modify k.table i _ (λ p q. sym (emb p q).1))))
  ]
    where
      cwd : ℕ → Option ℕ
      cwd d = (env.namei (env.inituvm d (env.setupkvm k.w).1)).0

      first : ℕ → Kernel W
      first d = record k {
        initproc = i;
        table = modify k.table i (first_proc d (cwd d));
        w = (env.namei (env.inituvm d (env.setupkvm k.w).1)).1;
      }

  userinit_with-IsOrderly :
      (r : Option ℕ × Kernel W)
      → IsOrderly r.1
      → ((np : ℕ) → r.0 ≡ some np → IsEmbryo r.1.table np)
      → (l : Kernel W) → userinit_with env r ≡ some l
      → IsOrderly l
  unfolding userinit_with
  userinit_with-IsOrderly (none, k) v emb l h = absurd (cc)
  userinit_with-IsOrderly (some i, k) v emb l h = userinit_at-IsOrderly i k l v (emb i refl) h

module _ {W : Type 0} (k : Kernel W) (v : IsOrderly k) where
  fork-IsOrderly : (env : Env W) (i : ℕ) → k.nextpid + 1 < int_mod → IsOrderly (fork env i k).1
  unfolding fork
  fork-IsOrderly env i h =
      fork_with-IsOrderly env i (allocproc env k) (allocproc-IsOrderly k v env h)
        (allocproc-IsEmbryo env k)

  userinit-IsOrderly :
      (env : Env W) (l : Kernel W) → k.nextpid + 1 < int_mod → userinit env k ≡ some l → IsOrderly l
  unfolding userinit
  userinit-IsOrderly env l h e =
      userinit_with-IsOrderly env (allocproc env k) (allocproc-IsOrderly k v env h)
        (allocproc-IsEmbryo env k) l e

  -- CPU `c`, with no process, gets the RUNNABLE process at slot `i`.
  dispatch-IsOrderly : (c i : ℕ) → get_elem? k.cpus c ≡ some none → IsOrderly (dispatch c i k)
  dispatch-IsOrderly c i free = elim (Bool-cases (is_runnable (proc_at k.table i).state)) [
    | inr e ↦ subst IsOrderly (sym (dispatch_other c i k e)) v
    | inl e ↦ started e
  ]
    where
      started : is_runnable (proc_at k.table i).state ≡ true → IsOrderly (dispatch c i k)
      started e =
          let (p, g, r) = runnable_slot k.table i e in
          evolved k v _ (dispatch_rest c i k) (Evolve.Evolves-dispatch k c i) (
            subst (λ (l : Kernel W). OnCpus l.cpus l.table) (sym (dispatch_runnable c i k e))
              (OnCpus-start k.cpus k.table v.on_cpus c i p free g r start_running refl))

  clock-IsOrderly : IsOrderly (count_tick k)
  unfolding count_tick
  clock-IsOrderly = record { pids = v.pids; on_cpus = v.on_cpus }

  age-IsOrderly : (i : ℕ) (s : ProcState) → IsOrderly (age_slot i s k)
  unfolding age_slot
  age-IsOrderly i s = record {
    pids = Pids-age k.table i s v.pids;
    on_cpus = calm k v _ (Running.Calm-age k.table i s);
  }

  -- Every operation of proc.c, on any CPU, and the clock keep the invariant.
  pub Step-IsOrderly : (env : Env W) {l : Kernel W} → Step env k l → IsOrderly l
  unfolding exit_files yield_cpu sleep_on switch_back tidy_up wakeup exit_table
  Step-IsOrderly env (boot {l} h e) = userinit-IsOrderly env l h e
  Step-IsOrderly env (fork_step c i r h) = fork-IsOrderly env i h
  Step-IsOrderly env (exit_open c i r n) =
      tame k v _ (record { same_pid = refl; same_cpus = refl }) (Evolve.Evolves-exit_files k env i)
        (Running.Calm-exit_files k env i)
  Step-IsOrderly env (exit_step c i r n) =
      evolved k v _ refl (Evolve.Evolves-exit_table k i (Runs-IsUsed k v c i r))
        (stop k v c i _ r (Running.Calm-exit_table k i))
  Step-IsOrderly env (wait_step c i r) =
      after-IsOrderly k v c i _ r (SameRest-wait k env i)
        (Evolve.Evolves-wait k env i (Runs-IsUsed k v c i r)) (Running.Calm-wait k env i)
  Step-IsOrderly env (waitx_step c i r) =
      after-IsOrderly k v c i _ r (SameRest-waitx k env i)
        (Evolve.Evolves-waitx k env i (Runs-IsUsed k v c i r)) (Running.Calm-waitx k env i)
  Step-IsOrderly env (kill_step n) =
      tame k v _ (SameRest-kill k n) (Evolve.Evolves-kill k n) (Running.Calm-kill k n)
  Step-IsOrderly env (grow_step c i n r) =
      tame k v _ (SameRest-growproc k env i n) (Evolve.Evolves-growproc k env i n)
        (Running.Calm-growproc k env i n)
  Step-IsOrderly env (dispatch_step c i f) = dispatch-IsOrderly c i f
  Step-IsOrderly env (yield_step c i r) =
      evolved k v _ refl (Evolve.Evolves-yield_cpu k c i (Runs-IsUsed k v c i r))
        (stop k v c i _ r (Running.Calm-yield_cpu k c i))
  Step-IsOrderly env (sleep_step c i chan r) =
      evolved k v _ refl (Evolve.Evolves-sleep_on k c i chan (Runs-IsUsed k v c i r))
        (stop k v c i _ r (Running.Calm-sleep_on k c i chan))
  Step-IsOrderly env (tidy_step c i r) =
      tame k v _ (record { same_pid = refl; same_cpus = refl }) (Evolve.Evolves-tidy_up k i)
        (Running.Calm-tidy_up k i)
  Step-IsOrderly env (wakeup_step chan) =
      tame k v _ (record { same_pid = refl; same_cpus = refl })
        (Evolve.Evolves-wakeup1 chan k.table) (Running.Calm-wakeup1 chan k.table)
  Step-IsOrderly env clock_step = clock-IsOrderly
  Step-IsOrderly env (age_step i s) = age-IsOrderly i s

module _ {W : Type 0} (env : Env W) where
  -- So in every state that a run from an orderly table reaches.
  pub Reach-IsOrderly : {k l : Kernel W} → IsOrderly k → Reach env k l → IsOrderly l
  Reach-IsOrderly v here = v
  Reach-IsOrderly v (next r s) = Step-IsOrderly _ (Reach-IsOrderly v r) env s

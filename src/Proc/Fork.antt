-- ===== src/Proc/Fork.antt =====
-- `allocproc`, `growproc` and `fork` of ass5/final_repo/proc.c.
use mathlib.Core.Option
use operating_systems_work.Base.{
  ℕ, ◌+◌, ◌-◌, ◌%◌, Bool, true, false, Option, none, some, List, [], ◌∷◌, ◌==◌, if◌then◌else◌, ltb,
  take, modify,
}
use operating_systems_work.Proc.Types.{
  is_unused, unused, embryo, runnable, Proc, Kernel, Env, zero_context, proc_at, int_mod, minus_one,
}

-- The loop over `ptable.proc` that looks for an UNUSED slot.
unfoldable pub find_unused : List Proc → Option ℕ
find_unused [] = none
find_unused (p ∷ ps) =
    if is_unused p.state then some 0 else Option.map (λ i. i + 1) (find_unused ps)

-- `EMBRYO`, with the next pid.
abbrev pub embryo_proc : ℕ → Proc → Proc
embryo_proc n p = record p { state = embryo; pid = n }

-- The fields that `allocproc` sets once the kernel stack is there.
abbrev pub init_proc : ℕ → ℕ → ℕ → Proc → Proc
init_proc forkret now stack p = record p {
  kstack = stack;
  context = record zero_context { eip = forkret };
  ctime = now;
  rtime = 0;
  etime = minus_one;
  num_run = 0;
  time_in_queues = 0;
  wait_time = (now + int_mod - now) % int_mod;
}

-- `p->kstack = 0; p->state = UNUSED;` after a failed `kalloc` or `copyuvm`. The pid stays.
abbrev pub drop_proc : Proc → Proc
drop_proc p = record p { kstack = 0; state = unused }

-- `if(curproc->ofile[i]) np->ofile[i] = filedup(curproc->ofile[i]);` for each `i`.
unfoldable pub dup_ofile : List (Option ℕ) → List (Option ℕ) → List (Option ℕ)
dup_ofile [] ns = ns
dup_ofile (c ∷ cs) [] = []
dup_ofile (none ∷ cs) (n ∷ ns) = n ∷ dup_ofile cs ns
dup_ofile (some f ∷ cs) (n ∷ ns) = some f ∷ dup_ofile cs ns

-- The child's fields: those of `fork` after `copyuvm`, with `state = RUNNABLE` last.
abbrev pub child_of : ℕ → Proc → ℕ → Proc → Proc
child_of cur c pg p = record p {
  pgdir = pg;
  sz = c.sz;
  parent = some cur;
  tf = record (c.tf) { eax = 0 };
  ofile = dup_ofile c.ofile p.ofile;
  cwd = c.cwd;
  name = take 15 c.name;
  state = runnable;
}

-- `growproc` once `allocuvm` or `deallocuvm` has returned.
unfoldable pub resize : {W : Type 0} → ℕ → ℕ × W → Kernel W → Bool × Kernel W
resize cur (sz, w') k =
    if sz == 0
    then (false, record k { w = w' })
    else (true, record k { table = modify k.table cur (λ q. record q { sz = sz }); w = w' })

module _ {W : Type 0} (env : Env W) where
  -- From `found:` on, at slot `i`.
  unfoldable pub alloc_at : ℕ → Kernel W → Option ℕ × Kernel W
  alloc_at i k =
      let claimed = modify k.table i (embryo_proc k.nextpid) in
      let next = (k.nextpid + 1) % int_mod in
      let (stack, w') = env.kalloc k.w in
      elim stack [
        | none ↦ (none, record k { table = modify claimed i drop_proc; nextpid = next; w = w' })
        | some s ↦ (
          some i,
          record k {
            table = modify claimed i (init_proc env.forkret k.ticks s);
            nextpid = next;
            w = w';
          },
        )
      ]

  unfoldable pub allocproc : Kernel W → Option ℕ × Kernel W
  allocproc k = elim (find_unused k.table) [ none ↦ (none, k) | some i ↦ alloc_at i k ]

  -- `growproc` up to `switchuvm`: `false` is the return value -1. An int `n` is its bit pattern,
  -- and negative from 2^31 on.
  unfoldable pub growproc : ℕ → ℕ → Kernel W → Bool × Kernel W
  growproc cur n k =
      let p = proc_at k.table cur in
      let target = (p.sz + n) % int_mod in
      if n == 0
      then (true, record k { table = modify k.table cur (λ q. record q { sz = p.sz }) })
      else resize cur
          (if ltb n 2147483648
            then env.allocuvm p.pgdir p.sz target k.w
            else env.deallocuvm p.pgdir p.sz target k.w)
          k

  unfoldable pub dup_all : List (Option ℕ) → W → W
  dup_all [] w = w
  dup_all (none ∷ fs) w = dup_all fs w
  dup_all (some f ∷ fs) w = dup_all fs (env.filedup f w)

  -- `fork` after `allocproc` has returned slot `np`.
  unfoldable pub fork_at : ℕ → ℕ → Kernel W → Option ℕ × Kernel W
  fork_at cur np k =
      let c = proc_at k.table cur in
      let (pg, w') = env.copyuvm c.pgdir c.sz k.w in
      elim pg [
        | none ↦ (
          none,
          record k {
            table = modify k.table np drop_proc;
            w = env.kfree (proc_at k.table np).kstack w';
          },
        )
        | some d ↦ (
          some (proc_at k.table np).pid,
          record k {
            table = modify k.table np (child_of cur c d);
            w = env.idup c.cwd (dup_all c.ofile w');
          },
        )
      ]

  unfoldable pub fork_with : ℕ → Option ℕ × Kernel W → Option ℕ × Kernel W
  fork_with cur (none, k) = (none, k)
  fork_with cur (some np, k) = fork_at cur np k

  -- `none` is the return value -1.
  unfoldable pub fork : ℕ → Kernel W → Option ℕ × Kernel W
  fork cur k = fork_with cur (allocproc k)

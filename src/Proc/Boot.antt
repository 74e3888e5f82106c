-- ===== src/Proc/Boot.antt =====
-- `userinit` of ass5/final_repo/proc.c.
use operating_systems_work.Base.{ℕ, Option, none, some, [], ◌∷◌, modify}
use operating_systems_work.Proc.Types.{Trapframe, Proc, Kernel, Env, runnable, zero_tf}
use operating_systems_work.Proc.Fork.{allocproc}

-- The trap frame of the first process: user code and data segments, interrupts on, and the stack at the
-- end of its page.
abbrev pub first_tf : Trapframe
first_tf = record zero_tf { cs = 27; ds = 35; es = 35; ss = 35; eflags = 512; esp = 4096; eip = 0 }

-- The fields that `userinit` sets; the name is "initcode".
abbrev pub first_proc : ℕ → Option ℕ → Proc → Proc
first_proc pgdir cwd p = record p {
  pgdir = pgdir;
  sz = 4096;
  tf = first_tf;
  name = 105 ∷ 110 ∷ 105 ∷ 116 ∷ 99 ∷ 111 ∷ 100 ∷ 101 ∷ [];
  cwd = cwd;
  state = runnable;
}

module _ {W : Type 0} (env : Env W) where
  -- `userinit` after `allocproc` has returned slot `i`. `none` is the panic.
  unfoldable pub userinit_at : ℕ → Kernel W → Option (Kernel W)
  userinit_at i k =
      let (pgdir, w₁) = env.setupkvm k.w in
      elim pgdir [
        | none ↦ none
        | some d ↦
            (let (cwd, w₂) = env.namei (env.inituvm d w₁) in
              some (record k { initproc = i; table = modify k.table i (first_proc d cwd); w = w₂ }))
      ]

  -- A null pointer from `allocproc` is used at once, so the kernel stops there too.
  unfoldable pub userinit_with : Option ℕ × Kernel W → Option (Kernel W)
  userinit_with (none, k) = none
  userinit_with (some i, k) = userinit_at i k

  unfoldable pub userinit : Kernel W → Option (Kernel W)
  userinit k = userinit_with (allocproc env k)

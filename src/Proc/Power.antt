-- ===== src/Proc/Power.antt =====
-- The process table from the start of the kernel on.
use operating_systems_work.Base.{ℕ, zero, suc, Option, none, List, [], ◌∷◌}
use operating_systems_work.Proc.Types.{Proc, Kernel, zero_proc}

-- A table of `n` zero slots, and `n` CPUs that run nothing.
abbrev pub zero_table : ℕ → List Proc
zero_table zero = []
zero_table (suc n) = zero_proc ∷ zero_table n

abbrev pub idle_cpus : ℕ → List (Option ℕ)
idle_cpus zero = []
idle_cpus (suc n) = none ∷ idle_cpus n

abbrev pub power_on : {W : Type 0} → ℕ → ℕ → W → Kernel W
power_on n c w = record {
  table = zero_table n;
  nextpid = 1;
  ticks = 0;
  initproc = 0;
  cpus = idle_cpus c;
  w = w;
}

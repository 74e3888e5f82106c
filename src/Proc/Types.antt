-- ===== src/Proc/Types.antt =====
-- The data of ass5/final_repo/proc.h and proc_stat.h, and of the process table of proc.c.
use operating_systems_work.Base.{
  ℕ, Bool, true, false, Option, none, some, List, [], get_or, ◌==◌, ◌-◌, ◌^◌,
}

pub data ProcState : Type 0 where
  unused embryo sleeping runnable running zombie : ProcState

abbrev pub is_unused : ProcState → Bool
is_unused unused = true
is_unused _ = false

abbrev pub is_sleeping : ProcState → Bool
is_sleeping sleeping = true
is_sleeping _ = false

abbrev pub is_runnable : ProcState → Bool
is_runnable runnable = true
is_runnable _ = false

abbrev pub is_running : ProcState → Bool
is_running running = true
is_running _ = false

abbrev pub is_zombie : ProcState → Bool
is_zombie zombie = true
is_zombie _ = false

-- A wait channel is an address. The table slots and `ticks` are the ones that the code of proc.c,
-- trap.c and sysproc.c sleeps on; any other address is a number.
pub data Chan : Type 0 where
  slot : ℕ → Chan
  ticks_addr : Chan
  addr : ℕ → Chan

abbrev pub chan_eq : Chan → Chan → Bool
chan_eq (slot i) (slot j) = i == j
chan_eq ticks_addr ticks_addr = true
chan_eq (addr a) (addr b) = a == b
chan_eq _ _ = false

-- `p->chan == chan` where either may be the null pointer.
abbrev pub opt_chan_eq : Option Chan → Option Chan → Bool
opt_chan_eq none none = true
opt_chan_eq (some a) (some b) = chan_eq a b
opt_chan_eq _ _ = false

-- `struct trapframe` of x86.h, without the padding words.
pub record Trapframe : Type 0 where
  pub edi : ℕ
  pub esi : ℕ
  pub ebp : ℕ
  pub oesp : ℕ
  pub ebx : ℕ
  pub edx : ℕ
  pub ecx : ℕ
  pub eax : ℕ
  pub gs : ℕ
  pub fs : ℕ
  pub es : ℕ
  pub ds : ℕ
  pub trapno : ℕ
  pub err : ℕ
  pub eip : ℕ
  pub cs : ℕ
  pub eflags : ℕ
  pub esp : ℕ
  pub ss : ℕ

pub record Context : Type 0 where
  pub edi : ℕ
  pub esi : ℕ
  pub ebx : ℕ
  pub ebp : ℕ
  pub eip : ℕ

-- A C int, as its bit pattern.
abbrev pub int_mod : ℕ
int_mod = 2 ^ 32

abbrev pub minus_one : ℕ
minus_one = 2 ^ 32 - 1

-- `struct proc`. A pointer is an address (0 is null), a slot of the process table or of the file
-- or inode table; `tf` and `context` hold what the pointers into the kernel stack point at; `name`
-- holds the bytes before the terminating zero.
pub record Proc : Type 0 where
  pub sz : ℕ
  pub pgdir : ℕ
  pub kstack : ℕ
  pub state : ProcState
  pub pid : ℕ
  pub parent : Option ℕ
  pub tf : Trapframe
  pub context : Context
  pub chan : Option Chan
  pub killed : Bool
  pub ofile : List (Option ℕ)
  pub cwd : Option ℕ
  pub name : List ℕ
  pub ctime : ℕ
  pub rtime : ℕ
  pub etime : ℕ
  pub num_run : ℕ
  pub time_in_queues : ℕ
  pub wait_time : ℕ

abbrev pub zero_tf : Trapframe
zero_tf = record {
  edi = 0;
  esi = 0;
  ebp = 0;
  oesp = 0;
  ebx = 0;
  edx = 0;
  ecx = 0;
  eax = 0;
  gs = 0;
  fs = 0;
  es = 0;
  ds = 0;
  trapno = 0;
  err = 0;
  eip = 0;
  cs = 0;
  eflags = 0;
  esp = 0;
  ss = 0;
}

abbrev pub zero_context : Context
zero_context = record { edi = 0; esi = 0; ebx = 0; ebp = 0; eip = 0 }

-- A slot of the table before its first use: the table is zero when the kernel starts.
abbrev pub zero_proc : Proc
zero_proc = record {
  sz = 0;
  pgdir = 0;
  kstack = 0;
  state = unused;
  pid = 0;
  parent = none;
  tf = zero_tf;
  context = zero_context;
  chan = none;
  killed = false;
  ofile = [];
  cwd = none;
  name = [];
  ctime = 0;
  rtime = 0;
  etime = 0;
  num_run = 0;
  time_in_queues = 0;
  wait_time = 0;
}

-- `struct proc_stat`
pub record ProcStat : Type 0 where
  pub pid : ℕ
  pub num_run : ℕ
  pub runtime : ℕ
  pub time_in_queues : ℕ

-- The kernel as proc.c sees it: `ptable.proc`, `nextpid`, `ticks`, `initproc`, `proc` of each
-- `struct cpu`, and the state `w` of the memory, file and inode code that it calls.
pub record Kernel (W : Type 0) : Type 0 where
  pub table : List Proc
  pub nextpid : ℕ
  pub ticks : ℕ
  pub initproc : ℕ
  pub cpus : List (Option ℕ)
  pub w : W

-- What proc.c calls in kalloc.c, vm.c, file.c, fs.c and log.c. A null result is `none`.
pub record Env (W : Type 0) : Type 0 where
  pub kalloc : W → Option ℕ × W
  pub kfree : ℕ → W → W
  pub copyuvm : ℕ → ℕ → W → Option ℕ × W
  pub freevm : ℕ → W → W
  pub allocuvm : ℕ → ℕ → ℕ → W → ℕ × W
  pub deallocuvm : ℕ → ℕ → ℕ → W → ℕ × W
  pub filedup : ℕ → W → W
  pub fileclose : ℕ → W → W
  pub idup : Option ℕ → W → W
  -- `begin_op(); iput(ip); end_op();`
  pub iput_op : Option ℕ → W → W
  -- `setupkvm`, `inituvm` with the first program, and `namei("/")`
  pub setupkvm : W → Option ℕ × W
  pub inituvm : ℕ → W → W
  pub namei : W → Option ℕ × W
  -- the address of `forkret`
  pub forkret : ℕ

abbrev pub proc_at : List Proc → ℕ → Proc
proc_at t i = get_or t i zero_proc

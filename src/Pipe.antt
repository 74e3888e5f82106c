-- ===== src/Pipe.antt =====
-- The pipes of ass5/final_repo/pipe.c.
pub mod Fifo
pub mod Transfer
use operating_systems_work.Base.{
  ℕ, zero, suc, ◌+◌, ◌-◌, ◌%◌, ◌^◌, Bool, true, false, ◌&&◌, ◌||◌, not, Option, none, some, List,
  [], ◌∷◌, ◌==◌, if◌then◌else◌, get_or, set, length,
}

-- PIPESIZE, and the modulus of the counters `nread` and `nwrite`.
abbrev pub pipe_size : ℕ
pipe_size = 512

abbrev pub uint_mod : ℕ
uint_mod = 2 ^ 32

-- `struct pipe`
pub record Pipe : Type 0 where
  pub buf : List ℕ
  pub nread : ℕ
  pub nwrite : ℕ
  pub readopen : Bool
  pub writeopen : Bool

-- What `pipealloc` stores in a page that holds `page`.
unfoldable pub fresh : List ℕ → Pipe
fresh page = record { buf = page; nread = 0; nwrite = 0; readopen = true; writeopen = true }

-- `pipeclose`: the pipe, and whether it is freed.
unfoldable pub close : Bool → Pipe → Pipe × Bool
close writable p =
    let q = if writable then record p { writeopen = false } else record p { readopen = false } in
    (q, not q.readopen && not q.writeopen)

abbrev pub is_full : Pipe → Bool
is_full p = p.nwrite == (p.nread + pipe_size) % uint_mod

abbrev pub is_empty : Pipe → Bool
is_empty p = p.nread == p.nwrite

-- `p->data[p->nwrite++ % PIPESIZE] = c`
unfoldable pub put : ℕ → Pipe → Pipe
put c p = record p { buf = set p.buf (p.nwrite % pipe_size) c; nwrite = (p.nwrite + 1) % uint_mod }

-- `p->nread++`, after the byte `p->data[p->nread % PIPESIZE]` is read.
unfoldable pub advance : Pipe → Pipe
advance p = record p { nread = (p.nread + 1) % uint_mod }

-- How a call ends, or that it goes to sleep with the bytes still to write.
pub data Written : Type 0 where
  all_written : Written
  write_failed : Written
  write_blocked : List ℕ → Written

-- The loop of `pipewrite` over the bytes from `addr[i]` on, until it returns or sleeps; a process
-- that is woken runs it again on the bytes left. `killed` is that of the process.
unfoldable pub pipewrite : Bool → List ℕ → Pipe → Written × Pipe
pipewrite killed [] p = (all_written, p)
pipewrite killed (c ∷ cs) p =
    let rest = pipewrite killed cs (put c p) in
    if is_full p
    then if not p.readopen || killed then (write_failed, p) else (write_blocked (c ∷ cs), p)
    else rest

pub data Read : Type 0 where
  bytes : List ℕ → Read
  read_failed : Read
  read_blocked : Read

-- The copying loop of `piperead`, with `n` bytes still wanted.
unfoldable pub copy_out : ℕ → Pipe → List ℕ × Pipe
copy_out zero p = ([], p)
copy_out (suc n) p =
    let (cs, q) = copy_out n (advance p) in
    if is_empty p then ([], p) else (get_or p.buf (p.nread % pipe_size) 0 ∷ cs, q)

-- `piperead`, until it returns or sleeps; a process that is woken runs it again.
unfoldable pub piperead : Bool → ℕ → Pipe → Read × Pipe
piperead killed n p =
    if is_empty p && p.writeopen
    then if killed then (read_failed, p) else (read_blocked, p)
    else let (cs, q) = copy_out n p in (bytes cs, q)

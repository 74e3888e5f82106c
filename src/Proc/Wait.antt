-- ===== src/Proc/Wait.antt =====
-- `wait` and `waitx` of ass5/final_repo/proc.c: one round of the `for(;;)` loop, which a process
-- that slept runs again when it is woken.
use operating_systems_work.Base.{
  ℕ, ◌+◌, ◌-◌, ◌%◌, Bool, true, false, ◌&&◌, ◌||◌, not, Option, none, some, List, [], ◌∷◌, ◌==◌,
  if◌then◌else◌, modify,
}
use operating_systems_work.Proc.Types.{
  is_zombie, unused, sleeping, Chan, Proc, Kernel, Env, proc_at, int_mod, minus_one,
}
use operating_systems_work.Proc.Exit.{is_child}

-- The scan of the table from slot `i` on: the slot at which it returns, if any, and `havekids`.
unfoldable pub scan : ℕ → List Proc → ℕ → Bool → Option ℕ × Bool
scan cur [] i havekids = (none, havekids)
scan cur (p ∷ ps) i havekids =
    let rest = scan cur ps (i + 1) (is_child cur p || havekids) in
    if is_child cur p && is_zombie p.state then (some i, true) else rest

-- What a round does: return a pid (with what else it reports), return -1, or go to sleep.
pub data Waited (A : Type 0) : Type 0 where
  reaped : A → Waited A
  failed : Waited A
  asleep : Waited A

-- `sleep(chan, &ptable.lock)` up to its `sched()`.
abbrev pub fall_asleep : Chan → Proc → Proc
fall_asleep chan p = record p { chan = some chan; state = sleeping }

-- A reaped slot, with the fields in the order in which `wait` sets them.
abbrev pub reap_proc : Proc → Proc
reap_proc p = record p {
  kstack = 0;
  pid = 0;
  parent = none;
  name = [];
  killed = false;
  state = unused;
}

-- The same in `waitx`, which sets the state before the pid.
abbrev pub reap_procx : Proc → Proc
reap_procx p =
    let q = record p { kstack = 0; state = unused } in
    record q { pid = 0; parent = none; name = []; killed = false }

-- `*wtime`
abbrev pub waited_for : ℕ → Proc → ℕ
waited_for now p =
    if p.etime == minus_one
    then ((now + int_mod - p.ctime) % int_mod + int_mod - p.rtime) % int_mod
    else ((p.etime + int_mod - p.ctime) % int_mod + int_mod - p.rtime) % int_mod

-- The values that `waitx` returns, through its two pointers and as its result.
pub record Times : Type 0 where
  pub pid : ℕ
  pub wtime : ℕ
  pub rtime : ℕ

module _ {W : Type 0} (env : Env W) where
  unfoldable pub wait : ℕ → Kernel W → Waited ℕ × Kernel W
  wait cur k =
      let (hit, havekids) = scan cur k.table 0 false in
      elim hit [
        | some i ↦
            (let p = proc_at k.table i in
              (
                reaped p.pid,
                record k {
                  table = modify k.table i reap_proc;
                  w = env.freevm p.pgdir (env.kfree p.kstack k.w);
                },
              ))
        | none ↦
            if not havekids || (proc_at k.table cur).killed
            then (failed, k)
            else (asleep, record k { table = modify k.table cur (fall_asleep (Chan.slot cur)) })
      ]

  unfoldable pub waitx : ℕ → Kernel W → Waited Times × Kernel W
  waitx cur k =
      let (hit, havekids) = scan cur k.table 0 false in
      elim hit [
        | some i ↦
            (let p = proc_at k.table i in
              (
                reaped (record { pid = p.pid; wtime = waited_for k.ticks p; rtime = p.rtime }),
                record k {
                  table = modify k.table i reap_procx;
                  w = env.freevm p.pgdir (env.kfree p.kstack k.w);
                },
              ))
        | none ↦
            if not havekids || (proc_at k.table cur).killed
            then (failed, k)
            else (asleep, record k { table = modify k.table cur (fall_asleep (Chan.slot cur)) })
      ]

-- ===== src/Proc/Inv.antt =====
-- The invariant of the process table: pids, and the counters of ticks.
use operating_systems_work.Base.{
  ℕ, ◌+◌, ◌≤◌, ◌<◌, ◌≡◌, true, false, inl, inr, some, List, get_elem?, modify, get_elem?-modify_inv,
  arith,
}
use operating_systems_work.Proc.Types.{ProcState, is_unused, is_zombie, Proc, minus_one}
use operating_systems_work.Proc.Sched.{age}
use operating_systems_work.Proc.Still.{Still, Evolves}

-- Pids were handed out before `next`, and two used slots never have the same.
pub record Pids (next : ℕ) (t : List Proc) : Type 0 where
  pub small : (i : ℕ) (p : Proc) → get_elem? t i ≡ some p → p.pid < next
  pub unique :
      (i j : ℕ) (p q : Proc)
      → get_elem? t i ≡ some p
      → get_elem? t j ≡ some q
      → is_unused p.state ≡ false
      → is_unused q.state ≡ false
      → p.pid ≡ q.pid
      → i ≡ j

-- The counted ticks of one process fit between its creation and now, or its end.
pub record Counted (now : ℕ) (p : Proc) : Type 0 where
  pub spent : is_unused p.state ≡ false → p.ctime + p.rtime + p.time_in_queues ≤ now
  pub ended :
      is_zombie p.state ≡ true
      → (p.ctime + p.rtime + p.time_in_queues ≤ p.etime)
        × (p.etime ≤ now)
        × (p.ctime + p.rtime + p.wait_time ≡ p.etime)

pub record Times (now : ℕ) (t : List Proc) : Type 0 where
  pub clock : now < minus_one
  pub counted : (i : ℕ) (p : Proc) → get_elem? t i ≡ some p → Counted now p

Counted-Still :
    (now : ℕ) (p q : Proc) → now < minus_one → Still now p q → Counted now p → Counted now q
Counted-Still now p q h s c = ground arith

module _ {now : ℕ} {t t' : List Proc} (ev : Evolves now t t') where
  pub Pids-evolve : {next : ℕ} → Pids next t → Pids next t'
  Pids-evolve v = record {
    small = λ i q e. let (p, e', s) = ev i q e in omega (arith, v.small i p e');
    unique = λ i j q r e f lq lr same.
        let (p, e', s) = ev i q e in
        let (o, f', s') = ev j r f in
        v.unique i j p o e' f' (s.live lq) (s'.live lr)
          (omega (arith, s.same_pid lq, s'.same_pid lr));
  }

  pub Times-evolve : Times now t → Times now t'
  Times-evolve v = record {
    clock = v.clock;
    counted =
        λ i q e. let (p, e', s) = ev i q e in Counted-Still now p q v.clock s (v.counted i p e');
  }

-- The slot `i` gets the next pid, whether or not it stays in use.
module _ (t : List Proc) (i : ℕ) {next : ℕ} (v : Pids next t) (f : Proc → Proc)
    (pid_f : (p : Proc) → (f p).pid ≡ next) where
  pub Pids-alloc : Pids (next + 1) (modify t i f)
  Pids-alloc = record {
    small = λ j q e.
        let (p, e', c) = get_elem?-modify_inv t i f j e in
        ground (arith, c, pid_f p, v.small j p e');
    unique = λ j k q r e d lq lr same.
        let (p, e', c) = get_elem?-modify_inv t i f j e in
        let (o, d', c') = get_elem?-modify_inv t i f k d in
        ground
          (arith, c, c', pid_f p, pid_f o, v.small j p e', v.small k o d', v.unique j k p o e' d');
  }

pub Times-modify :
    (t : List Proc) (i now : ℕ) (f : Proc → Proc)
    → ((p : Proc) → Counted now (f p))
    → Times now t
    → Times now (modify t i f)
Times-modify t i now f h v = record {
  clock = v.clock;
  counted = λ j q e.
      let (p, e', c) = get_elem?-modify_inv t i f j e in
      elim c [ inl (a, b) ↦ rw b (h p) | inr (a, b) ↦ rw b (v.counted j p e') ];
}

age_keeps : (s : ProcState) (p : Proc) → ((age s p).pid ≡ p.pid) × ((age s p).state ≡ p.state)
age_keeps s p = ground arith

pub Pids-age :
    {next : ℕ} (t : List Proc) (i : ℕ) (s : ProcState)
    → Pids next t
    → Pids next (modify t i (age s))
Pids-age t i s v = record {
  small = λ j q e.
      let (p, e', c) = get_elem?-modify_inv t i (age s) j e in
      ground (arith, c, age_keeps s p, v.small j p e');
  unique = λ j k q r e f.
      let (p, e', c) = get_elem?-modify_inv t i (age s) j e in
      let (o, f', c') = get_elem?-modify_inv t i (age s) k f in
      ground (arith, c, c', age_keeps s p, age_keeps s o, v.unique j k p o e' f');
}

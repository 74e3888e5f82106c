-- ===== src/Proc/Still.antt =====
-- What the operations of proc.c other than `allocproc` and the timer may do to a slot of the table.
use operating_systems_work.Base.{
  ℕ, ◌+◌, ◌-◌, ◌%◌, ◌≤◌, ◌≡◌, refl, Bool, true, false, ◌&&◌, ◌⊎◌, inl, inr, Option, some, List, map,
  get_elem?, modify, get_elem?-map_inv, get_elem?-modify_inv, arith, Bool-cases,
}
use operating_systems_work.Proc.Types.{
  is_unused, is_zombie, is_sleeping, opt_chan_eq, runnable, Chan, Proc, int_mod,
}
use operating_systems_work.Proc.Boot.{first_proc}
use operating_systems_work.Proc.Fork.{drop_proc, child_of}
use operating_systems_work.Proc.Exit.{wake, kill_proc, adopt, bury}
use operating_systems_work.Proc.Wait.{fall_asleep, reap_proc}
use operating_systems_work.Proc.Sched.{start_running, requeue}

and-left : (a b : Bool) → (a && b) ≡ true → a ≡ true
and-left a b h = ground arith

-- Slot value `p` may become `q` at time `now`: no process is born, the pid and the counted times
-- stay, and one that becomes a zombie gets its end time and waiting time.
pub record Still (now : ℕ) (p q : Proc) : Type 0 where
  pub pid_le : q.pid ≤ p.pid
  pub live : is_unused q.state ≡ false → is_unused p.state ≡ false
  pub same_pid : is_unused q.state ≡ false → q.pid ≡ p.pid
  pub ctime : q.ctime ≡ p.ctime
  pub rtime : q.rtime ≡ p.rtime
  pub queued : q.time_in_queues ≡ p.time_in_queues
  pub grave :
      is_zombie q.state ≡ true
      → ((is_zombie p.state ≡ true) × (q.etime ≡ p.etime) × (q.wait_time ≡ p.wait_time))
        ⊎ ((q.etime ≡ now)
            × (q.wait_time ≡ ((now + int_mod - p.ctime) % int_mod + int_mod - p.rtime) % int_mod)
            × (is_unused p.state ≡ false))

module _ (now : ℕ) where
  pub Still-refl : (p : Proc) → Still now p p
  Still-refl p = record {
    pid_le = omega arith;
    live = λ h. h;
    same_pid = λ _. refl;
    ctime = refl;
    rtime = refl;
    queued = refl;
    grave = λ h. inl (h, refl, refl);
  }

  pub Still-drop : (p : Proc) → Still now p (drop_proc p)
  Still-drop p = ground arith

  pub Still-child :
      (cur : ℕ) (c : Proc) (pg : ℕ) (p : Proc)
      → is_unused p.state ≡ false
      → Still now p (child_of cur c pg p)
  Still-child cur c pg p h = ground arith

  pub Still-first :
      (pg : ℕ) (cwd : Option ℕ) (p : Proc)
      → is_unused p.state ≡ false
      → Still now p (first_proc pg cwd p)
  Still-first pg cwd p h = ground arith

  pub Still-wake : (c : Option Chan) (p : Proc) → Still now p (wake c p)
  Still-wake c p = elim (Bool-cases (is_sleeping p.state && opt_chan_eq p.chan c)) [
    | inl e ↦ rw e (woken (and-left _ _ e))
    | inr e ↦ rw e (Still-refl p)
  ]
    where
      woken : is_sleeping p.state ≡ true → Still now p (record p { state = runnable })
      woken h = ground arith

  pub Still-kill : (p : Proc) → Still now p (kill_proc p)
  Still-kill p = ground arith

  pub Still-adopt : (i : ℕ) (p : Proc) → Still now p (adopt i p)
  Still-adopt i p = ground arith

  pub Still-bury : (p : Proc) → is_unused p.state ≡ false → Still now p (bury now p)
  Still-bury p h = ground arith

  pub Still-sleep :
      (c : Chan) (p : Proc) → is_unused p.state ≡ false → Still now p (fall_asleep c p)
  Still-sleep c p h = ground arith

  pub Still-reap : (p : Proc) → Still now p (reap_proc p)
  Still-reap p = ground arith

  pub Still-start : (p : Proc) → is_unused p.state ≡ false → Still now p (start_running p)
  Still-start p h = ground arith

  pub Still-requeue : (p : Proc) → is_unused p.state ≡ false → Still now p (requeue p)
  Still-requeue p h = ground arith

-- Every slot of the new table comes from the same slot of the old one.
abbrev pub Evolves : ℕ → List Proc → List Proc → Type 0
Evolves now t t' =
    (i : ℕ) (q : Proc)
    → get_elem? t' i ≡ some q
    → (p : Proc) × (get_elem? t i ≡ some p) × Still now p q

module _ {now : ℕ} where
  pub Evolves-refl : (t : List Proc) → Evolves now t t
  Evolves-refl t i q e = (q, e, Still-refl now q)

  Still-trans : {p q r : Proc} → Still now p q → Still now q r → Still now p r
  Still-trans a b = ground arith

  pub Evolves-trans : (t u v : List Proc) → Evolves now t u → Evolves now u v → Evolves now t v
  Evolves-trans t u v f g i r e =
      let (q, e', b) = g i r e in let (p, e'', a) = f i q e' in (p, e'', Still-trans a b)

  pub Evolves-map :
      (t : List Proc) (f : Proc → Proc) → ((p : Proc) → Still now p (f p)) → Evolves now t (map f t)
  Evolves-map t f s i q e = let (p, e', r) = get_elem?-map_inv f t i e in (p, e', rw r (s p))

  pub Evolves-modify :
      (t : List Proc) (j : ℕ) (f : Proc → Proc)
      → ((p : Proc) → get_elem? t j ≡ some p → Still now p (f p))
      → Evolves now t (modify t j f)
  Evolves-modify t j f s i q e =
      let (p, e', c) = get_elem?-modify_inv t j f i e in
      elim c [
        | inl (k, r) ↦ (p, e', rw r (s p (rw k e')))
        | inr (k, r) ↦ (p, e', rw r (Still-refl now p))
      ]

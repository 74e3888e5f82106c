-- ===== src/Proc/Running.antt =====
-- Each operation of proc.c leaves the other CPUs' processes running.
use operating_systems_work.Base.{
  ℕ, zero, suc, ◌+◌, ◌≡◌, refl, sym, Bool, true, false, ◌&&◌, ◌||◌, not, inl, inr, Option, none,
  some, List, get_elem?, modify, arith, Bool-cases, Option-cases, ◌==◌,
}
use operating_systems_work.Proc.Types.{
  ProcState, is_zombie, is_running, is_sleeping, Chan, Proc, Kernel, Env, proc_at, opt_chan_eq,
}
use operating_systems_work.Proc.Fork.{fork_at, growproc, resize}
use operating_systems_work.Proc.Exit.{
  wake, wakeup1, kill, find_pid, is_child, abandon, abandon_from, exit_files, exit_table, adopt,
}
use operating_systems_work.Proc.Wait.{scan, wait, waitx, Waited, asleep}
use operating_systems_work.Proc.Sched.{age, yield_cpu, sleep_on, tidy_up, switch_back}
use operating_systems_work.Proc.Calm.{Calm, Calm-refl, Calm-trans, Calm-map, Calm-modify, Calm-stop}
use operating_systems_work.Proc.Find.{scan-some}

-- Slot `i` holds no running process.
abbrev pub IsIdle : List Proc → ℕ → Type 0
IsIdle t i = (p : Proc) → get_elem? t i ≡ some p → is_running p.state ≡ false

wake_running : (c : Option Chan) (p : Proc) → is_running (wake c p).state ≡ is_running p.state
wake_running c p = elim (Bool-cases (is_sleeping p.state && opt_chan_eq p.chan c)) [
  | inl e ↦ rw e (sleeper (is_left _ _ e))
  | inr e ↦ rw e
]
  where
    is_left : (a b : Bool) → (a && b) ≡ true → a ≡ true
    is_left a b h = ground arith

    sleeper : is_sleeping p.state ≡ true → false ≡ is_running p.state
    sleeper h = ground arith

pub Calm-wakeup1 : (c : Option Chan) (t : List Proc) → Calm none t (wakeup1 c t)
unfolding wakeup1
Calm-wakeup1 c t = Calm-map t _ (wake_running c)

pub Calm-age : (t : List Proc) (i : ℕ) (s : ProcState) → Calm none t (modify t i (age s))
Calm-age t i s = Calm-modify t i (age s) (λ p g. ground arith)

Calm-abandon : (cur init i : ℕ) (t : List Proc) → Calm none t (abandon cur init i t)
unfolding abandon
Calm-abandon cur init i t = elim (Bool-cases (is_child cur (proc_at t i))) [
  | inr n ↦ rw n (Calm-refl t)
  | inl y ↦ rw y (elim (Bool-cases (is_zombie (proc_at t i).state)) [
    | inl z ↦ rw z (Calm-trans none t _ _ moved (Calm-wakeup1 _ _))
    | inr z ↦ rw z moved
  ])
]
  where
    moved : Calm none t (modify t i (adopt init))
    moved = Calm-modify t i _ (λ p _. refl)

Calm-abandon_from : (cur init n i : ℕ) (t : List Proc) → Calm none t (abandon_from cur init n i t)
unfolding abandon_from
Calm-abandon_from cur init zero i t = Calm-refl t
Calm-abandon_from cur init (suc n) i t =
    Calm-trans none t _ _ (Calm-abandon cur init i t) (Calm-abandon_from cur init n (i + 1) _)

-- What `wait` and `waitx` leave running: all but a process that falls asleep.
abbrev pub own_of : {A : Type 0} → ℕ → Waited A → Option ℕ
own_of cur asleep = some cur
own_of cur _ = none

module _ {W : Type 0} (k : Kernel W) where
  pub Calm-kill : (n : ℕ) → Calm none k.table (kill n k).1.table
  unfolding kill
  Calm-kill n = elim (Option-cases (find_pid n k.table)) [
    | inl e ↦ rw (e, kill) (Calm-refl k.table)
    | inr (i, e) ↦ rw (e, kill) (Calm-modify k.table i _ (λ p _. ground arith))
  ]

  pub Calm-exit_table : (cur : ℕ) → Calm (some cur) k.table (exit_table cur k).table
  unfolding exit_table
  Calm-exit_table cur = Calm-trans (some cur) k.table _ _ (Calm-wakeup1 _ _) (
      Calm-trans (some cur) _ _ _ (Calm-abandon_from cur k.initproc _ 0 _)
        (Calm-stop _ cur _ (λ p. refl)))

  pub Calm-yield_cpu : (c i : ℕ) → Calm (some i) k.table (yield_cpu c i k).table
  unfolding yield_cpu switch_back
  Calm-yield_cpu c i = Calm-stop k.table i _ (λ p. refl)

  pub Calm-sleep_on : (c i : ℕ) (chan : Chan) → Calm (some i) k.table (sleep_on c i chan k).table
  unfolding sleep_on switch_back
  Calm-sleep_on c i chan = Calm-stop k.table i _ (λ p. refl)

  pub Calm-tidy_up : (i : ℕ) → Calm none k.table (tidy_up i k).table
  unfolding tidy_up
  Calm-tidy_up i = Calm-modify k.table i _ (λ p _. refl)

  module _ (env : Env W) where
    pub Calm-exit_files : (cur : ℕ) → Calm none k.table (exit_files env cur k).table
    unfolding exit_files
    Calm-exit_files cur = Calm-modify k.table cur _ (λ p _. refl)

    reaped_idle :
        (cur i : ℕ)
        → (scan cur k.table 0 false).0 ≡ some i
        → (p : Proc) → get_elem? k.table i ≡ some p
        → false ≡ is_running p.state
    reaped_idle cur i e p g =
        let f = scan-some cur k.table i e in zombie_idle p (same f.at_slot (f.here) f.passes)
      where
        zombie_idle : (q : Proc) → is_zombie q.state ≡ true → false ≡ is_running q.state
        zombie_idle q h = ground arith

        same :
            (q : Proc)
            → get_elem? k.table i ≡ some q
            → (is_child cur q && is_zombie q.state) ≡ true
            → is_zombie p.state ≡ true
        same q g' h = ground arith

    pub Calm-wait :
        (cur : ℕ) → Calm (own_of cur (wait env cur k).0) k.table (wait env cur k).1.table
    unfolding wait
    Calm-wait cur = elim (Option-cases (scan cur k.table 0 false).0) [
      | inr (i, e) ↦ rw (e, wait) (Calm-modify k.table i _ (reaped_idle cur i e))
      | inl e ↦
          rw (e, wait)
            (elim (Bool-cases (not (scan cur k.table 0 false).1 || (proc_at k.table cur).killed)) [
              | inl f ↦ rw f (Calm-refl k.table)
              | inr f ↦ rw f (Calm-stop k.table cur _ (λ p. refl))
            ])
    ]

    pub Calm-waitx :
        (cur : ℕ) → Calm (own_of cur (waitx env cur k).0) k.table (waitx env cur k).1.table
    unfolding waitx
    Calm-waitx cur = elim (Option-cases (scan cur k.table 0 false).0) [
      | inr (i, e) ↦ rw (e, waitx) (Calm-modify k.table i _ (reaped_idle cur i e))
      | inl e ↦
          rw (e, waitx)
            (elim (Bool-cases (not (scan cur k.table 0 false).1 || (proc_at k.table cur).killed)) [
              | inl f ↦ rw f (Calm-refl k.table)
              | inr f ↦ rw f (Calm-stop k.table cur _ (λ p. refl))
            ])
    ]

    pub Calm-fork_at :
        (cur np : ℕ) → IsIdle k.table np → Calm none k.table (fork_at env cur np k).1.table
    unfolding fork_at
    Calm-fork_at cur np idle =
        elim (Option-cases
          (env.copyuvm (proc_at k.table cur).pgdir (proc_at k.table cur).sz k.w).0) [
            | inl e ↦ rw (e, fork_at) (Calm-modify k.table np _ (λ p q. sym (idle p q)))
            | inr (d, e) ↦ rw (e, fork_at) (Calm-modify k.table np _ (λ p q. sym (idle p q)))
          ]

    Calm-resize : (cur : ℕ) (r : ℕ × W) → Calm none k.table (resize cur r k).1.table
    unfolding resize
    Calm-resize cur r = elim (Bool-cases (r.0 == 0)) [
      | inl e ↦ rw e (Calm-refl k.table)
      | inr e ↦ rw e (Calm-modify k.table cur _ (λ p _. refl))
    ]

    pub Calm-growproc : (cur n : ℕ) → Calm none k.table (growproc env cur n k).1.table
    unfolding growproc
    Calm-growproc cur n = elim (Bool-cases (n == 0)) [
      | inl e ↦ rw e (Calm-modify k.table cur _ (λ p _. refl))
      | inr e ↦ rw e (Calm-resize cur _)
    ]

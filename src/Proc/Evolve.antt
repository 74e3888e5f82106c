-- ===== src/Proc/Evolve.antt =====
-- How each operation of proc.c changes the table, slot by slot.
use operating_systems_work.Base.{
  ℕ, zero, suc, ◌+◌, ◌≡◌, true, false, ◌||◌, not, inl, inr, Option, some, List, get_elem?, modify,
  arith, Bool-cases, Option-cases, ◌==◌, get_or_of_get_elem?, get_elem?-map_inv,
  get_elem?-modify_inv,
}
use operating_systems_work.Proc.Types.{
  is_unused, is_zombie, is_runnable, Chan, Proc, Kernel, Env, proc_at, zero_proc,
}
use operating_systems_work.Proc.Fork.{fork_at, growproc, resize}
use operating_systems_work.Proc.Exit.{
  wake, wakeup1, kill, find_pid, is_child, abandon, abandon_from, exit_files, exit_table, adopt,
}
use operating_systems_work.Proc.Wait.{scan, wait, waitx}
use operating_systems_work.Proc.Sched.{dispatch, yield_cpu, sleep_on, tidy_up, switch_back}
use operating_systems_work.Proc.Still.{
  Evolves, Evolves-refl, Evolves-trans, Evolves-map, Evolves-modify, Still-drop, Still-child,
  Still-wake, Still-kill, Still-adopt, Still-bury, Still-sleep, Still-reap, Still-start,
  Still-requeue,
}

-- Slot `i` is in use.
abbrev pub IsUsed : List Proc → ℕ → Type 0
IsUsed t i = (p : Proc) → get_elem? t i ≡ some p → is_unused p.state ≡ false

module _ {now : ℕ} where
  pub Evolves-wakeup1 : (c : Option Chan) (t : List Proc) → Evolves now t (wakeup1 c t)
  unfolding wakeup1
  Evolves-wakeup1 c t = Evolves-map t _ (Still-wake now c)

  pub Evolves-abandon : (cur init i : ℕ) (t : List Proc) → Evolves now t (abandon cur init i t)
  unfolding abandon
  Evolves-abandon cur init i t = elim (Bool-cases (is_child cur (proc_at t i))) [
    | inr n ↦ rw n (Evolves-refl t)
    | inl y ↦ rw y (elim (Bool-cases (is_zombie (proc_at t i).state)) [
      | inl z ↦ rw z (Evolves-trans t _ _ moved (Evolves-wakeup1 _ _))
      | inr z ↦ rw z moved
    ])
  ]
    where
      moved : Evolves now t (modify t i (adopt init))
      moved = Evolves-modify t i _ (λ p _. Still-adopt now init p)

  pub Evolves-abandon_from :
      (cur init n i : ℕ) (t : List Proc) → Evolves now t (abandon_from cur init n i t)
  unfolding abandon_from
  Evolves-abandon_from cur init zero i t = Evolves-refl t
  Evolves-abandon_from cur init (suc n) i t =
      Evolves-trans t _ _ (Evolves-abandon cur init i t) (Evolves-abandon_from cur init n (i + 1) _)

wake_used :
    (c : Option Chan) (p : Proc) → is_unused p.state ≡ false → is_unused (wake c p).state ≡ false
wake_used c p h = ground arith

wakeup1-IsUsed : (c : Option Chan) (t : List Proc) (j : ℕ) → IsUsed t j → IsUsed (wakeup1 c t) j
unfolding wakeup1
wakeup1-IsUsed c t j u q e =
    let (p, e', s) = get_elem?-map_inv (wake c) t j e in rw s (wake_used c p (u p e'))

adopt-IsUsed :
    (init : ℕ) (t : List Proc) (i j : ℕ) → IsUsed t j → IsUsed (modify t i (adopt init)) j
adopt-IsUsed init t i j u q e =
    let (p, e', c) = get_elem?-modify_inv t i (adopt init) j e in ground (arith, c, u p e')

abandon-IsUsed :
    (cur init i : ℕ) (t : List Proc) (j : ℕ) → IsUsed t j → IsUsed (abandon cur init i t) j
unfolding abandon
abandon-IsUsed cur init i t j u = elim (Bool-cases (is_child cur (proc_at t i))) [
  | inr n ↦ rw n u
  | inl y ↦ rw y (elim (Bool-cases (is_zombie (proc_at t i).state)) [
    | inl z ↦ rw z (wakeup1-IsUsed _ _ j (adopt-IsUsed init t i j u))
    | inr z ↦ rw z (adopt-IsUsed init t i j u)
  ])
]

pub abandon_from-IsUsed :
    (cur init n i : ℕ) (t : List Proc) (j : ℕ) → IsUsed t j → IsUsed (abandon_from cur init n i t) j
unfolding abandon_from
abandon_from-IsUsed cur init zero i t j u = u
abandon_from-IsUsed cur init (suc n) i t j u =
    abandon_from-IsUsed cur init n (i + 1) _ j (abandon-IsUsed cur init i t j u)

module _ {W : Type 0} (k : Kernel W) where
  pub Evolves-kill : (n : ℕ) → Evolves k.ticks k.table (kill n k).1.table
  unfolding kill
  Evolves-kill n = elim (Option-cases (find_pid n k.table)) [
    | inl e ↦ rw (e, kill) (Evolves-refl k.table)
    | inr (i, e) ↦ rw (e, kill) (Evolves-modify k.table i _ (λ p _. Still-kill k.ticks p))
  ]

  pub Evolves-exit_table :
      (cur : ℕ) → IsUsed k.table cur → Evolves k.ticks k.table (exit_table cur k).table
  unfolding exit_table
  Evolves-exit_table cur u = Evolves-trans k.table _ _ (Evolves-wakeup1 _ _) (
      Evolves-trans _ _ _ (Evolves-abandon_from cur k.initproc _ 0 _) (
        Evolves-modify _ cur _ (λ p e.
          Still-bury k.ticks p
            (abandon_from-IsUsed cur k.initproc _ 0 _ cur (wakeup1-IsUsed _ k.table cur u) p e))))

  module _ (env : Env W) where
    pub Evolves-exit_files : (cur : ℕ) → Evolves k.ticks k.table (exit_files env cur k).table
    unfolding exit_files
    Evolves-exit_files cur = Evolves-modify k.table cur _ (λ p _. ground arith)

    pub Evolves-wait :
        (cur : ℕ) → IsUsed k.table cur → Evolves k.ticks k.table (wait env cur k).1.table
    unfolding wait
    Evolves-wait cur u = elim (Option-cases (scan cur k.table 0 false).0) [
      | inr (i, e) ↦ rw (e, wait) (Evolves-modify k.table i _ (λ p _. Still-reap k.ticks p))
      | inl e ↦
          rw (e, wait)
            (elim (Bool-cases (not (scan cur k.table 0 false).1 || (proc_at k.table cur).killed)) [
              | inl f ↦ rw f (Evolves-refl k.table)
              | inr f ↦ rw f (Evolves-modify k.table cur _ (λ p q. Still-sleep k.ticks _ p (u p q)))
            ])
    ]

    pub Evolves-waitx :
        (cur : ℕ) → IsUsed k.table cur → Evolves k.ticks k.table (waitx env cur k).1.table
    unfolding waitx
    Evolves-waitx cur u = elim (Option-cases (scan cur k.table 0 false).0) [
      | inr (i, e) ↦ rw (e, waitx) (Evolves-modify k.table i _ (λ p _. Still-reap k.ticks p))
      | inl e ↦
          rw (e, waitx)
            (elim (Bool-cases (not (scan cur k.table 0 false).1 || (proc_at k.table cur).killed)) [
              | inl f ↦ rw f (Evolves-refl k.table)
              | inr f ↦ rw f (Evolves-modify k.table cur _ (λ p q. Still-sleep k.ticks _ p (u p q)))
            ])
    ]

    pub Evolves-fork_at :
        (cur np : ℕ) → IsUsed k.table np → Evolves k.ticks k.table (fork_at env cur np k).1.table
    unfolding fork_at
    Evolves-fork_at cur np u =
        elim (Option-cases
          (env.copyuvm (proc_at k.table cur).pgdir (proc_at k.table cur).sz k.w).0) [
            | inl e ↦ rw (e, fork_at) (Evolves-modify k.table np _ (λ p _. Still-drop k.ticks p))
            | inr (d, e) ↦
                rw (e, fork_at)
                  (Evolves-modify k.table np _
                    (λ p q. Still-child k.ticks cur (proc_at k.table cur) d p (u p q)))
          ]

    Evolves-resize : (cur : ℕ) (r : ℕ × W) → Evolves k.ticks k.table (resize cur r k).1.table
    unfolding resize
    Evolves-resize cur r = elim (Bool-cases (r.0 == 0)) [
      | inl e ↦ rw e (Evolves-refl k.table)
      | inr e ↦ rw e (Evolves-modify k.table cur _ (λ p _. ground arith))
    ]

    pub Evolves-growproc : (cur n : ℕ) → Evolves k.ticks k.table (growproc env cur n k).1.table
    unfolding growproc
    Evolves-growproc cur n = elim (Bool-cases (n == 0)) [
      | inl e ↦ rw e (Evolves-modify k.table cur _ (λ p _. ground arith))
      | inr e ↦ rw e (Evolves-resize cur _)
    ]

  pub Evolves-dispatch : (c i : ℕ) → Evolves k.ticks k.table (dispatch c i k).table
  unfolding dispatch
  Evolves-dispatch c i = elim (Bool-cases (is_runnable (proc_at k.table i).state)) [
    | inr e ↦ rw e (Evolves-refl k.table)
    | inl e ↦ rw e (
        Evolves-modify k.table i _ (λ p q.
          Still-start k.ticks p
            (runnable_used p (rw (get_or_of_get_elem? k.table i zero_proc q) at e))))
  ]
    where
      runnable_used : (p : Proc) → is_runnable p.state ≡ true → is_unused p.state ≡ false
      runnable_used p h = ground arith

  pub Evolves-yield_cpu :
      (c i : ℕ) → IsUsed k.table i → Evolves k.ticks k.table (yield_cpu c i k).table
  unfolding yield_cpu switch_back
  Evolves-yield_cpu c i u = Evolves-modify k.table i _ (λ p q. Still-requeue k.ticks p (u p q))

  pub Evolves-sleep_on :
      (c i : ℕ) (chan : Chan)
      → IsUsed k.table i
      → Evolves k.ticks k.table (sleep_on c i chan k).table
  unfolding sleep_on switch_back
  Evolves-sleep_on c i chan u =
      Evolves-modify k.table i _ (λ p q. Still-sleep k.ticks chan p (u p q))

  pub Evolves-tidy_up : (i : ℕ) → Evolves k.ticks k.table (tidy_up i k).table
  unfolding tidy_up
  Evolves-tidy_up i = Evolves-modify k.table i _ (λ p _. ground arith)

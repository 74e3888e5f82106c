-- ===== src/Proc/Reaping.antt =====
-- What `wait` and `waitx` return, and when.
use operating_systems_work.Base.{
  ℕ, ◌≡◌, refl, ap, Bool, true, false, ◌||◌, not, ◌⊎◌, inl, inr, some, get_elem?, modify, arith,
  Bool-cases, Option-cases, get_or_of_get_elem?,
}
use operating_systems_work.Proc.Types.{Chan, Proc, Kernel, Env, proc_at, zero_proc}
use operating_systems_work.Proc.Exit.{is_child}
use operating_systems_work.Proc.Wait.{
  scan, wait, waitx, Waited, asleep, reaped, failed, Times, reap_proc, fall_asleep, waited_for,
}
use operating_systems_work.Proc.Find.{
  First, Nowhere, dead_child, scan-some, scan-none, havekids_lem,
}

-- What the three outcomes of `wait` mean: the first zombie child is reaped; -1 is returned if no
-- child is a zombie, and the caller has no child or has been killed; otherwise it falls asleep on
-- its own slot.
abbrev pub WaitPost : {W : Type 0} → ℕ → Kernel W → Waited ℕ × Kernel W → Type 0
WaitPost cur k (reaped n, l) =
    (i : ℕ) × (f : First (dead_child cur) k.table i) × (n ≡ f.at_slot.pid)
    × (l.table ≡ modify k.table i reap_proc)
WaitPost cur k (failed, l) =
    Nowhere (dead_child cur) k.table
    × (Nowhere (is_child cur) k.table ⊎ ((proc_at k.table cur).killed ≡ true))
    × (l.table ≡ k.table)
WaitPost cur k (asleep, l) =
    Nowhere (dead_child cur) k.table
    × ((i : ℕ) × (p : Proc) × (get_elem? k.table i ≡ some p) × (is_child cur p ≡ true))
    × ((proc_at k.table cur).killed ≡ false)
    × (l.table ≡ modify k.table cur (fall_asleep (Chan.slot cur)))

module _ {W : Type 0} (env : Env W) (cur : ℕ) (k : Kernel W) where
  gives_up : (a b : Bool) → (not a || b) ≡ true → (a ≡ false) ⊎ (b ≡ true)
  gives_up a b h = ground arith

  stays : (a b : Bool) → (not a || b) ≡ false → (a ≡ true) × (b ≡ false)
  stays a b h = ground arith

  -- A round of `wait` has one of the three outcomes that `WaitPost` describes.
  pub wait_lem : WaitPost cur k (wait env cur k)
  unfolding wait
  wait_lem = elim (Option-cases (scan cur k.table 0 false).0) [
    | inr (i, e) ↦
        (let f = scan-some cur k.table i e in
          rw (e, wait)
            (i, f, ap (λ p. p.pid) (get_or_of_get_elem? k.table i zero_proc f.here), refl))
    | inl e ↦
        (let h = havekids_lem cur k.table e in
          let none_dead = scan-none cur k.table e in
          elim (Bool-cases (not (scan cur k.table 0 false).1 || (proc_at k.table cur).killed)) [
            | inl g ↦
                rw (e, g, wait)
                  (none_dead, elim (gives_up _ _ g) [ inl a ↦ inl (h.0 a) | inr b ↦ inr b ], refl)
            | inr g ↦ rw (e, g, wait) (none_dead, h.1 (stays _ _ g).0, (stays _ _ g).1, refl)
          ])
  ]

-- The result of `waitx`, seen as a result of `wait`.
abbrev pub pid_only : Waited Times → Waited ℕ
pid_only (reaped r) = reaped r.pid
pid_only failed = failed
pid_only asleep = asleep

abbrev times_at : ℕ → Proc → Times
times_at now p = record { pid = p.pid; wtime = waited_for now p; rtime = p.rtime }

module _ {W : Type 0} (env : Env W) (cur : ℕ) (k : Kernel W) where
  -- `waitx` returns what `wait` would, and leaves the kernel as `wait` would.
  pub waitx-eq-wait :
      (pid_only (waitx env cur k).0 ≡ (wait env cur k).0)
      × ((waitx env cur k).1 ≡ (wait env cur k).1)
  unfolding wait waitx
  waitx-eq-wait = elim (Option-cases (scan cur k.table 0 false).0) [
    | inr (i, e) ↦ rw (e, wait, waitx) (refl, refl)
    | inl e ↦ elim (Bool-cases (not (scan cur k.table 0 false).1 || (proc_at k.table cur).killed)) [
      | inl g ↦ rw (e, g, wait, waitx) (refl, refl)
      | inr g ↦ rw (e, g, wait, waitx) (refl, refl)
    ]
  ]

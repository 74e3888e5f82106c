-- ===== src/Proc/Births.antt =====
-- What `fork` and `kill` promise their callers.
use operating_systems_work.Base.{
  ℕ, ◌≡◌, ◌≢◌, refl, ap, subst, sym, ◌∙◌, Bool, true, false, inl, inr, Option, none, some, List,
  get_elem?, modify, arith, Option-cases, ◌==◌, get_or_of_get_elem?, get_elem?-modify_self,
  get_elem?-modify_ne, modify-modify,
}
use operating_systems_work.Proc.Types.{
  is_unused, is_sleeping, runnable, Proc, Kernel, Env, proc_at, zero_proc,
}
use operating_systems_work.Proc.Fork.{
  find_unused, allocproc, alloc_at, fork, fork_with, fork_at, embryo_proc, init_proc, drop_proc,
  child_of,
}
use operating_systems_work.Proc.Exit.{kill, kill_proc, find_pid}
use operating_systems_work.Proc.Find.{
  First, Nowhere, find_unused-some, find_pid-some, find_pid-none,
}

-- What `kill` has done: the first slot with the pid is marked, and wakes if it slept; or there is
-- none and nothing changes.
abbrev pub KillPost : {W : Type 0} → ℕ → Kernel W → Bool × Kernel W → Type 0
KillPost n k (true, l) =
    (i : ℕ) × (f : First (λ p. p.pid == n) k.table i) × (q : Proc) × (get_elem? l.table i ≡ some q)
    × (q.killed ≡ true)
    × (is_sleeping q.state ≡ false)
    × ((j : ℕ) → i ≢ j → get_elem? l.table j ≡ get_elem? k.table j)
KillPost n k (false, l) = Nowhere (λ p. p.pid == n) k.table × (l ≡ k)

killed_proc : (p : Proc) → ((kill_proc p).killed ≡ true) × (is_sleeping (kill_proc p).state ≡ false)
killed_proc p = ground arith

-- `kill` returns 0 exactly when a slot has the pid, and then only that slot changes: it is marked
-- as killed and does not sleep any more. Otherwise it returns -1 and changes nothing.
pub kill_lem : {W : Type 0} (n : ℕ) (k : Kernel W) → KillPost n k (kill n k)
unfolding kill
kill_lem n k = elim (Option-cases (find_pid n k.table)) [
  | inl e ↦ rw (e, kill) (find_pid-none n k.table e, refl)
  | inr (i, e) ↦
      (let f = find_pid-some n k.table i e in
        rw (e, kill)
          (
            i,
            f,
            kill_proc f.at_slot,
            get_elem?-modify_self k.table i kill_proc f.here,
            (killed_proc f.at_slot).0,
            (killed_proc f.at_slot).1,
            λ j h. get_elem?-modify_ne k.table i j kill_proc h,
          ))
]

-- The child of a `fork` at slot `np`, beside the parent `c` at slot `cur`.
pub record IsChild (cur now pid : ℕ) (c p : Proc) : Type 0 where
  pub its_pid : p.pid ≡ pid
  pub its_parent : p.parent ≡ some cur
  pub ready : p.state ≡ runnable
  pub returns_zero : p.tf ≡ record (c.tf) { eax = 0 }
  pub size : p.sz ≡ c.sz
  pub dir : p.cwd ≡ c.cwd
  pub born : p.ctime ≡ now
  pub ran : p.rtime ≡ 0
  pub queued : p.time_in_queues ≡ 0

-- What `fork` has done: a child in a slot that was unused, with the next pid, all other slots as
-- they were; or no change to a slot that is in use.
abbrev pub ForkPost : {W : Type 0} → ℕ → Kernel W → Option ℕ × Kernel W → Type 0
ForkPost cur k (some n, l) =
    (n ≡ k.nextpid)
    × (np : ℕ) × First (λ p. is_unused p.state) k.table np
    × (c : Proc) × (get_elem? l.table np ≡ some c)
    × IsChild cur k.ticks n (proc_at k.table cur) c
    × ((j : ℕ) → np ≢ j → get_elem? l.table j ≡ get_elem? k.table j)
ForkPost cur k (none, l) =
    (j : ℕ) (p : Proc)
    → get_elem? k.table j ≡ some p
    → is_unused p.state ≡ false
    → get_elem? l.table j ≡ some p

module _ {W : Type 0} (env : Env W) (cur : ℕ) (k : Kernel W) (p : Proc)
    (slot : get_elem? k.table cur ≡ some p) (used : is_unused p.state ≡ false) where
  -- The slot that `allocproc` finds is not the caller's.
  apart : (i : ℕ) → First (λ q. is_unused q.state) k.table i → i ≢ cur
  apart i f e =
      clash f.at_slot (subst (λ x. get_elem? k.table x ≡ some f.at_slot) e f.here) f.passes
    where
      clash : (q : Proc) → get_elem? k.table cur ≡ some q → is_unused q.state ≡ true → ⊥
      clash q g u = ground arith

  -- Two changes of slot `i` leave a slot that is in use.
  kept :
      (i : ℕ) (f : Proc → Proc)
      → First (λ q. is_unused q.state) k.table i
      → (j : ℕ) (q : Proc) → get_elem? k.table j ≡ some q
      → is_unused q.state ≡ false
      → get_elem? (modify k.table i f) j ≡ some q
  kept i f w j q e u = get_elem?-modify_ne k.table i j f ne ∙ e
    where
      clash : (x : Proc) → get_elem? k.table j ≡ some x → is_unused x.state ≡ true → ⊥
      clash x g v = ground arith

      ne : i ≢ j
      ne s = clash w.at_slot (subst (λ x. get_elem? k.table x ≡ some w.at_slot) s w.here) w.passes

  module _ (i : ℕ) (found : find_unused k.table ≡ some i) where
    first : First (λ q. is_unused q.state) k.table i
    first = find_unused-some k.table i found

    -- The table after `allocproc`.
    claim : ℕ → Proc → Proc
    claim s q = init_proc env.forkret k.ticks s (embryo_proc k.nextpid q)

    claimed : ℕ → List Proc
    claimed s =
        modify (modify k.table i (embryo_proc k.nextpid)) i (init_proc env.forkret k.ticks s)

    fused : (s : ℕ) → claimed s ≡ modify k.table i (claim s)
    unfolding claimed claim
    fused s = modify-modify k.table i _ _

    claimed_slot : (s : ℕ) → get_elem? (claimed s) i ≡ some (claim s first.at_slot)
    claimed_slot s = rw (fused s) (get_elem?-modify_self k.table i (claim s) first.here)

    claimed_other : (s j : ℕ) → i ≢ j → get_elem? (claimed s) j ≡ get_elem? k.table j
    claimed_other s j h = rw (fused s) (get_elem?-modify_ne k.table i j (claim s) h)

    parent_same : (s : ℕ) → proc_at (claimed s) cur ≡ proc_at k.table cur
    parent_same s =
        get_or_of_get_elem? (claimed s) cur zero_proc (claimed_other s cur (apart i first) ∙ slot)
        ∙ sym (get_or_of_get_elem? k.table cur zero_proc slot)

    pid_next : (s : ℕ) → (proc_at (claimed s) i).pid ≡ k.nextpid
    unfolding claim
    pid_next s = ap (λ q. q.pid) (get_or_of_get_elem? (claimed s) i zero_proc (claimed_slot s))

    its-IsChild :
        (s d : ℕ) (c : Proc) {n : ℕ}
        → n ≡ k.nextpid
        → IsChild cur k.ticks n c (child_of cur c d (claim s first.at_slot))
    unfolding claim
    its-IsChild s d c e = record {
      its_pid = sym e;
      its_parent = refl;
      ready = refl;
      returns_zero = refl;
      size = refl;
      dir = refl;
      born = refl;
      ran = refl;
      queued = refl;
    }

    fork_at_lem :
        (s next : ℕ) (w : W)
        → ForkPost cur k (fork_at env cur i (record k { table = claimed s; nextpid = next; w = w }))
    unfolding fork_at claim
    fork_at_lem s next w =
        elim (Option-cases
          (env.copyuvm (proc_at (claimed s) cur).pgdir (proc_at (claimed s) cur).sz w).0) [
            | inl e ↦
                rw (e, fork_at)
                  (λ j q g u.
                    subst (λ t. get_elem? t j ≡ some q)
                      (sym (ap (λ t. modify t i drop_proc) (fused s) ∙ modify-modify k.table i _ _))
                      (kept i _ first j q g u))
            | inr (d, e) ↦
                rw (e, fork_at)
                  (
                    pid_next s,
                    i,
                    first,
                    child_of cur (proc_at (claimed s) cur) d (claim s first.at_slot),
                    get_elem?-modify_self (claimed s) i _ (claimed_slot s),
                    subst
                        (λ c.
                          IsChild cur k.ticks (proc_at (claimed s) i).pid (proc_at k.table cur)
                            (child_of cur c d (claim s first.at_slot)))
                        (sym (parent_same s)) (its-IsChild s d (proc_at k.table cur) (pid_next s)),
                    λ j h. get_elem?-modify_ne (claimed s) i j _ h ∙ claimed_other s j h,
                  )
          ]

    alloc_lem : ForkPost cur k (fork_with env cur (alloc_at env i k))
    unfolding alloc_at fork_with claimed
    alloc_lem = elim (Option-cases (env.kalloc k.w).0) [
      | inl e ↦
          rw (e, alloc_at, fork_with)
            (λ j q g u.
              subst (λ t. get_elem? t j ≡ some q) (sym (modify-modify k.table i _ _))
                (kept i _ first j q g u))
      | inr (s, e) ↦ rw (e, alloc_at, fork_with) (fork_at_lem s _ _)
    ]

  -- A `fork` by a process in use either returns the next pid and leaves a RUNNABLE child of it in
  -- a slot that was unused, with no tick counted and 0 to return, and nothing else in the table
  -- changed; or it returns -1 and leaves every slot that is in use as it was.
  pub fork_lem : ForkPost cur k (fork env cur k)
  unfolding fork allocproc fork_with
  fork_lem = elim (Option-cases (find_unused k.table)) [
    | inl e ↦ rw (e, allocproc, fork_with) (λ j q g u. g)
    | inr (i, e) ↦ rw (e, allocproc) (alloc_lem i e)
  ]

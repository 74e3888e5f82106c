-- ===== src/Proc/Sound.antt =====
-- Every step keeps the invariant of the process table.
use operating_systems_work.Base.{
  ℕ, ◌+◌, ◌%◌, ◌<◌, ◌≡◌, refl, subst, sym, ◌∙◌, true, false, inl, inr, none, some, List, get_elem?,
  set, modify, arith, Option-cases, get_elem?-modify_inv, modify-modify,
}
use operating_systems_work.Proc.Types.{is_unused, is_running, embryo, Proc, Kernel, Env, int_mod}
use operating_systems_work.Proc.Fork.{
  find_unused, allocproc, alloc_at, embryo_proc, init_proc, drop_proc,
}
use operating_systems_work.Proc.Still.{Evolves}
use operating_systems_work.Proc.Inv.{Pids-evolve, Pids-alloc}
use operating_systems_work.Proc.Evolve.{IsUsed}
use operating_systems_work.Proc.Calm.{Calm, Calm-modify, OnCpus, OnCpus-Calm, OnCpus-stop}
use operating_systems_work.Proc.Find.{find_unused-some}
use operating_systems_work.Proc.System.{Runs, IsOrderly}

-- The slot that `allocproc` has taken: in use, and on no CPU.
abbrev pub IsEmbryo : List Proc → ℕ → Type 0
IsEmbryo t i =
    (p : Proc) → get_elem? t i ≡ some p → (is_unused p.state ≡ false) × (is_running p.state ≡ false)

claimed_state :
    (t : List Proc) (i n fr now s : ℕ) (p : Proc)
    → get_elem? (modify (modify t i (embryo_proc n)) i (init_proc fr now s)) i ≡ some p
    → p.state ≡ embryo
claimed_state t i n fr now s p e =
    let (x, g, c) = get_elem?-modify_inv (modify t i (embryo_proc n)) i (init_proc fr now s) i e in
    let (y, g', c') = get_elem?-modify_inv t i (embryo_proc n) i g in ground arith

embryo_lem :
    (p : Proc) → p.state ≡ embryo → (is_unused p.state ≡ false) × (is_running p.state ≡ false)
embryo_lem p e = ground arith

-- The slot that `allocproc` returns is taken and not running.
module _ {W : Type 0} (env : Env W) (k : Kernel W) (np : ℕ) where
  alloc_at-IsEmbryo :
      (i : ℕ) → (alloc_at env i k).0 ≡ some np → IsEmbryo (alloc_at env i k).1.table np
  unfolding alloc_at
  alloc_at-IsEmbryo i h = elim (Option-cases (env.kalloc k.w).0) [
    | inl e ↦ absurd (let h' : none ≡ some np = rw (e, alloc_at) at h in cc)
    | inr (s, e) ↦
        (let h' : some i ≡ some np = rw (e, alloc_at) at h in
          let q : i ≡ np = ground arith in
          rw (e, alloc_at)
            (subst (IsEmbryo _) q (λ p g. embryo_lem p (claimed_state k.table i _ _ _ _ p g))))
  ]

  pub allocproc-IsEmbryo : (allocproc env k).0 ≡ some np → IsEmbryo (allocproc env k).1.table np
  unfolding allocproc
  allocproc-IsEmbryo h = elim (Option-cases (find_unused k.table)) [
    | inl e ↦ absurd (let h' : none ≡ some np = rw (e, allocproc) at h in cc)
    | inr (i, e) ↦ rw (e, allocproc) (alloc_at-IsEmbryo i (rw (e, allocproc) at h))
  ]

module _ {W : Type 0} (k : Kernel W) (v : IsOrderly k) where
  pub evolved :
      (l : Kernel W)
      → l.nextpid ≡ k.nextpid
      → Evolves k.ticks k.table l.table
      → OnCpus l.cpus l.table
      → IsOrderly l
  evolved l n ev o = record { pids = rw n (Pids-evolve ev v.pids); on_cpus = o }

  pub running_used : (p : Proc) → is_running p.state ≡ true → is_unused p.state ≡ false
  running_used p h = ground arith

  pub Runs-IsUsed : (c i : ℕ) → Runs k c i → IsUsed k.table i
  Runs-IsUsed c i r p e = let (q, e', h) = v.on_cpus.runs c i r in running_used p (ground arith)

  pub calm : (t : List Proc) → Calm none k.table t → OnCpus k.cpus t
  calm t m = OnCpus-Calm k.cpus k.table t v.on_cpus m

  pub stop :
      (c i : ℕ) (t : List Proc)
      → Runs k c i
      → Calm (some i) k.table t
      → OnCpus (set k.cpus c none) t
  stop c i t r m = OnCpus-stop k.cpus k.table t v.on_cpus c i r m

  module _ (env : Env W) where
    pub alloc_at-IsOrderly :
        (i : ℕ)
        → find_unused k.table ≡ some i
        → k.nextpid + 1 < int_mod
        → IsOrderly (alloc_at env i k).1
    unfolding alloc_at
    alloc_at-IsOrderly i found h = elim (Option-cases (env.kalloc k.w).0) [
      | inl e ↦
          rw (e, alloc_at)
            (claimed (λ p. drop_proc (embryo_proc k.nextpid p)) (λ p. refl) (λ p. refl) _ _
              (sym (modify-modify k.table i _ _)))
      | inr (s, e) ↦
          rw (e, alloc_at)
            (claimed (λ p. init_proc env.forkret k.ticks s (embryo_proc k.nextpid p)) (λ p. refl)
              (λ p. refl) _ _ (sym (modify-modify k.table i _ _)))
    ]
      where
        free_idle : (p : Proc) → is_unused p.state ≡ true → is_running p.state ≡ false
        free_idle p u = ground arith

        idle : (p : Proc) → get_elem? k.table i ≡ some p → is_running p.state ≡ false
        idle p e =
            let f = find_unused-some k.table i found in free_idle p (same f.at_slot f.here f.passes)
          where
            same :
                (q : Proc)
                → get_elem? k.table i ≡ some q
                → is_unused q.state ≡ true
                → is_unused p.state ≡ true
            same q g u = ground arith

        claimed :
            (f : Proc → Proc)
            → ((p : Proc) → (f p).pid ≡ k.nextpid)
            → ((p : Proc) → is_running (f p).state ≡ false)
            → (w : W) (t : List Proc) → modify k.table i f ≡ t
            → IsOrderly (record k { table = t; nextpid = (k.nextpid + 1) % int_mod; w = w })
        claimed f pid_f still w t e = record {
          pids = rw wraps (rw (← e) (Pids-alloc k.table i v.pids f pid_f));
          on_cpus = rw (← e) (calm _ (Calm-modify k.table i f (λ p g. still p ∙ sym (idle p g))));
        }
          where
            wraps : (k.nextpid + 1) % int_mod ≡ k.nextpid + 1
            wraps = omega arith

    pub allocproc-IsOrderly : k.nextpid + 1 < int_mod → IsOrderly (allocproc env k).1
    unfolding allocproc
    allocproc-IsOrderly h = elim (Option-cases (find_unused k.table)) [
      | inl e ↦ rw (e, allocproc) v
      | inr (i, e) ↦ rw (e, allocproc) (alloc_at-IsOrderly i e h)
    ]

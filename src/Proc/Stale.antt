-- ===== src/Proc/Stale.antt =====
-- What an `allocproc` that gets no kernel stack leaves behind for `kill`.
use operating_systems_work.Base.{
  ℕ, ◌+◌, ◌%◌, ◌<◌, ◌≡◌, refl, ap, sym, ◌∙◌, true, false, inl, inr, none, some, List, get_elem?,
  modify, arith, Option-cases, ◌==◌, get_elem?-modify_self, get_elem?-modify_ne, modify-modify,
  ℕ_discrete,
}
use operating_systems_work.Proc.Types.{is_unused, Proc, Kernel, Env, int_mod}
use operating_systems_work.Proc.Fork.{find_unused, allocproc, alloc_at, embryo_proc, drop_proc}
use operating_systems_work.Proc.Exit.{kill, kill_proc, find_pid}
use operating_systems_work.Proc.Find.{First, find_unused-some, find_pid-some, find_pid-none}

-- The table after an `allocproc` that got no kernel stack.
abbrev failed_table : {W : Type 0} → Kernel W → ℕ → List Proc
failed_table k i = modify (modify k.table i (embryo_proc k.nextpid)) i drop_proc

module _ {W : Type 0} (k : Kernel W) (i : ℕ) (found : find_unused k.table ≡ some i)
    (small : (j : ℕ) (q : Proc) → get_elem? k.table j ≡ some q → q.pid < k.nextpid) where
  stale : Proc
  stale = drop_proc (embryo_proc k.nextpid (find_unused-some k.table i found).at_slot)

  stale_slot : get_elem? (failed_table k i) i ≡ some stale
  unfolding stale
  stale_slot =
      rw (modify-modify k.table i (embryo_proc k.nextpid) drop_proc)
        (get_elem?-modify_self k.table i _ (find_unused-some k.table i found).here)

  stale_first : (j : ℕ) → First (λ p. p.pid == k.nextpid) (failed_table k i) j → j ≡ i
  stale_first j f = elim (ℕ_discrete i j) [
    | yes s ↦ sym s
    | no s ↦
        (let e = f.here in
          let g = get_elem?-modify_ne (modify k.table i (embryo_proc k.nextpid)) i j drop_proc s in
          let h = get_elem?-modify_ne k.table i j (embryo_proc k.nextpid) s in
          let l = small j f.at_slot (sym h ∙ (sym g ∙ e)) in
          let o = f.passes in absurd (ground arith))
  ]

  find_stale : find_pid k.nextpid (failed_table k i) ≡ some i
  unfolding stale
  find_stale = elim (Option-cases (find_pid k.nextpid (failed_table k i))) [
    | inl e ↦ absurd (no_pid (find_pid-none k.nextpid _ e i stale stale_slot))
    | inr (j, e) ↦ e ∙ ap some (stale_first j (find_pid-some k.nextpid _ j e))
  ]
    where
      no_pid : (stale.pid == k.nextpid) ≡ false → ⊥
      no_pid h = ground arith

  kill_failed :
      (l : Kernel W) (next : ℕ) (w : W)
      → l ≡ record k { table = failed_table k i; nextpid = next; w = w }
      → ((kill k.nextpid l).0 ≡ true)
        × (q : Proc) × (get_elem? (kill k.nextpid l).1.table i ≡ some q)
        × (is_unused q.state ≡ true)
        × (q.killed ≡ true)
  unfolding kill stale
  kill_failed l next w s = rw s (
      rw (find_stale, kill)
        (
          refl,
          kill_proc stale,
          get_elem?-modify_self (failed_table k i) i kill_proc stale_slot,
          refl,
          refl,
        ))

-- A failed `allocproc` leaves its pid in the slot that it gives back: a `kill` of that pid then
-- returns 0 and marks the unused slot as killed.
pub kill_stale :
    {W : Type 0} (env : Env W) (k : Kernel W) (i : ℕ)
    → find_unused k.table ≡ some i
    → (env.kalloc k.w).0 ≡ none
    → ((j : ℕ) (q : Proc) → get_elem? k.table j ≡ some q → q.pid < k.nextpid)
    → ((allocproc env k).0 ≡ none)
      × ((kill k.nextpid (allocproc env k).1).0 ≡ true)
      × (q : Proc) × (get_elem? (kill k.nextpid (allocproc env k).1).1.table i ≡ some q)
      × (is_unused q.state ≡ true)
      × (q.killed ≡ true)
unfolding allocproc alloc_at
kill_stale env k i found no_mem small =
    let r =
      kill_failed k i found small (allocproc env k).1 ((k.nextpid + 1) % int_mod)
        ((env.kalloc k.w).1) (rw (found, allocproc) (rw (no_mem, alloc_at) refl)) in
    (rw (found, allocproc) (rw (no_mem, alloc_at) refl), r.0, r.1, r.2, r.3, r.4)

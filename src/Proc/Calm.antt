-- ===== src/Proc/Calm.antt =====
-- Which processes are on a CPU: how the operations of proc.c change it.
use operating_systems_work.Base.{
  ℕ, ◌<◌, ◌≡◌, ◌≢◌, ap, subst, sym, ◌∙◌, true, false, ◌⊎◌, inl, inr, Option, none, some, List, map,
  length, get_elem?, set, modify, arith, ℕ_discrete, get_elem?-map_inv, get_elem?-modify_inv,
  get_elem?-map, get_elem?-modify_self, get_elem?-modify_ne, get_elem?-set_self, get_elem?-set_ne,
  get_elem?_lt,
}
use operating_systems_work.Proc.Types.{is_running, Proc}

-- `own` is the slot of the process that leaves its CPU; all others stay where they are.
pub record Calm (own : Option ℕ) (t t' : List Proc) : Type 0 where
  pub keep :
      (i : ℕ) (p : Proc)
      → own ≢ some i
      → get_elem? t i ≡ some p
      → is_running p.state ≡ true
      → (q : Proc) × (get_elem? t' i ≡ some q) × (is_running q.state ≡ true)
  pub back :
      (i : ℕ) (q : Proc)
      → get_elem? t' i ≡ some q
      → is_running q.state ≡ true
      → (own ≢ some i) × ((p : Proc) × (get_elem? t i ≡ some p) × (is_running p.state ≡ true))

-- A slot holds a RUNNING process exactly when it is the `proc` of a CPU, and of one only.
pub record OnCpus (cpus : List (Option ℕ)) (t : List Proc) : Type 0 where
  pub runs :
      (c i : ℕ)
      → get_elem? cpus c ≡ some (some i)
      → (p : Proc) × (get_elem? t i ≡ some p) × (is_running p.state ≡ true)
  pub once :
      (c d i : ℕ) → get_elem? cpus c ≡ some (some i) → get_elem? cpus d ≡ some (some i) → c ≡ d
  pub covered :
      (i : ℕ) (p : Proc)
      → get_elem? t i ≡ some p
      → is_running p.state ≡ true
      → (c : ℕ) × (get_elem? cpus c ≡ some (some i))

none≢some : {i : ℕ} → none ≢ some i
none≢some e = cc

pub Calm-refl : (t : List Proc) → Calm none t t
Calm-refl t = record { keep = λ i p n e r. (p, e, r); back = λ i q e r. (none≢some, (q, e, r)) }

pub Calm-trans : (own : Option ℕ) (t u v : List Proc) → Calm none t u → Calm own u v → Calm own t v
Calm-trans own t u v a b = record {
  keep = λ i p n e r. let (q, e', r') = a.keep i p none≢some e r in b.keep i q n e' r';
  back = λ i q e r. let (n, (p, e', r')) = b.back i q e r in (n, (a.back i p e' r').1);
}

pub Calm-map :
    (t : List Proc) (f : Proc → Proc)
    → ((p : Proc) → is_running (f p).state ≡ is_running p.state)
    → Calm none t (map f t)
Calm-map t f h = record {
  keep = λ i p n e r. (f p, get_elem?-map f t i e, h p ∙ r);
  back = λ i q e r.
      let (p, e', s) = get_elem?-map_inv f t i e in (none≢some, (p, e', sym (h p) ∙ (rw s at r)));
}

pub Calm-modify :
    (t : List Proc) (j : ℕ) (f : Proc → Proc)
    → ((p : Proc) → get_elem? t j ≡ some p → is_running (f p).state ≡ is_running p.state)
    → Calm none t (modify t j f)
Calm-modify t j f h = record { keep = keep; back = back }
  where
    keep :
        (i : ℕ) (p : Proc)
        → none ≢ some i
        → get_elem? t i ≡ some p
        → is_running p.state ≡ true
        → (q : Proc) × (get_elem? (modify t j f) i ≡ some q) × (is_running q.state ≡ true)
    keep i p n e r = elim (ℕ_discrete j i) [
      | yes s ↦ (f p, rw s (get_elem?-modify_self t i f e), h p (rw s e) ∙ r)
      | no s ↦ (p, get_elem?-modify_ne t j i f s ∙ e, r)
    ]

    back :
        (i : ℕ) (q : Proc)
        → get_elem? (modify t j f) i ≡ some q
        → is_running q.state ≡ true
        → (none ≢ some i) × ((p : Proc) × (get_elem? t i ≡ some p) × (is_running p.state ≡ true))
    back i q e r =
        let (p, e', c) = get_elem?-modify_inv t j f i e in
        elim c [
          | inl (s, g) ↦ (none≢some, (p, e', sym (h p (rw s e')) ∙ (rw g at r)))
          | inr (s, g) ↦ (none≢some, (p, e', rw g at r))
        ]

-- The process at slot `j` stops running.
pub Calm-stop :
    (t : List Proc) (j : ℕ) (f : Proc → Proc)
    → ((p : Proc) → is_running (f p).state ≡ false)
    → Calm (some j) t (modify t j f)
Calm-stop t j f h = record {
  keep = λ i p n e r. (p, get_elem?-modify_ne t j i f (λ s. n (ap some s)) ∙ e, r);
  back = back;
}
  where
    back :
        (i : ℕ) (q : Proc)
        → get_elem? (modify t j f) i ≡ some q
        → is_running q.state ≡ true
        → (some j ≢ some i) × ((p : Proc) × (get_elem? t i ≡ some p) × (is_running p.state ≡ true))
    back i q e r =
        let (p, e', c) = get_elem?-modify_inv t j f i e in
        elim c [
          | inl (s, g) ↦ (let o = h p in absurd (ground arith))
          | inr (s, g) ↦ (λ w. s (ground arith), (p, e', rw g at r))
        ]

module _ (cpus : List (Option ℕ)) (t t' : List Proc) (v : OnCpus cpus t) where
  pub OnCpus-Calm : Calm none t t' → OnCpus cpus t'
  OnCpus-Calm m = record {
    runs = λ c i e. let (p, e', r) = v.runs c i e in m.keep i p none≢some e' r;
    once = v.once;
    covered = λ i q e r. let (n, (p, e', r')) = m.back i q e r in v.covered i p e' r';
  }

  set-none :
      (c d : ℕ) (i : ℕ)
      → get_elem? (set cpus c none) d ≡ some (some i)
      → c < length cpus
      → (c ≢ d) × (get_elem? cpus d ≡ some (some i))
  set-none c d i e l = elim (ℕ_discrete c d) [
    | yes s ↦
        (let e' = subst (λ x. get_elem? (set cpus c none) x ≡ some (some i)) (sym s) e in
          let f = get_elem?-set_self cpus c none l in absurd (cc))
    | no s ↦ (s, sym (get_elem?-set_ne cpus none s) ∙ e)
  ]

  -- CPU `c` gives up its process.
  pub OnCpus-stop :
      (c i : ℕ)
      → get_elem? cpus c ≡ some (some i)
      → Calm (some i) t t'
      → OnCpus (set cpus c none) t'
  OnCpus-stop c i own m = record {
    runs = λ d j e.
        let (n, e') = set-none c d j e (get_elem?_lt cpus c own) in
        let (p, g, r) = v.runs d j e' in m.keep j p (λ s. n (v.once c d j (sym_own s) e')) g r;
    once = λ d d' j e e'.
        v.once d d' j (set-none c d j e (get_elem?_lt cpus c own)).1
          (set-none c d' j e' (get_elem?_lt cpus c own)).1;
    covered = covered;
  }
    where
      some_inj : {a b : Option ℕ} → some a ≡ some b → a ≡ b
      some_inj e = ground arith

      sym_own : {j : ℕ} → some i ≡ some j → get_elem? cpus c ≡ some (some j)
      sym_own s = own ∙ ap some s

      covered :
          (j : ℕ) (q : Proc)
          → get_elem? t' j ≡ some q
          → is_running q.state ≡ true
          → (d : ℕ) × (get_elem? (set cpus c none) d ≡ some (some j))
      covered j q e r =
          let (n, (p, e', r')) = m.back j q e r in
          let (d, g) = v.covered j p e' r' in
          (
            d,
            get_elem?-set_ne cpus none
                  (λ (s : c ≡ d). n (some_inj (sym own ∙ (ap (get_elem? cpus) s ∙ g))))
                ∙ g,
          )

-- An idle CPU `c` takes the process at slot `i`, which was not running.
module _ (cpus : List (Option ℕ)) (t : List Proc) (v : OnCpus cpus t) (c i : ℕ) (p : Proc)
    (free : get_elem? cpus c ≡ some none) (slot_i : get_elem? t i ≡ some p)
    (idle : is_running p.state ≡ false) (f : Proc → Proc)
    (starts : is_running (f p).state ≡ true) where
  -- What CPU `d` has, if it is `c` and if not.
  set-some :
      (d j : ℕ)
      → get_elem? (set cpus c (some i)) d ≡ some (some j)
      → ((c ≡ d) × (i ≡ j)) ⊎ ((c ≢ d) × (get_elem? cpus d ≡ some (some j)))
  set-some d j e = elim (ℕ_discrete c d) [
    | yes s ↦
        (let e' = subst (λ x. get_elem? (set cpus c (some i)) x ≡ some (some j)) (sym s) e in
          let g = get_elem?-set_self cpus c (some i) (get_elem?_lt cpus c free) in
          inl (s, ground arith))
    | no s ↦ inr (s, sym (get_elem?-set_ne cpus (some i) s) ∙ e)
  ]

  -- No CPU had the process before.
  unclaimed : (d : ℕ) → get_elem? cpus d ≢ some (some i)
  unclaimed d e = let (q, g, r) = v.runs d i e in absurd (ground arith)

  pub OnCpus-start : OnCpus (set cpus c (some i)) (modify t i f)
  OnCpus-start = record { runs = runs; once = once; covered = covered }
    where
      runs :
          (d j : ℕ)
          → get_elem? (set cpus c (some i)) d ≡ some (some j)
          → (q : Proc) × (get_elem? (modify t i f) j ≡ some q) × (is_running q.state ≡ true)
      runs d j e = elim (set-some d j e) [
        | inl (s, u) ↦ (f p, rw (← u) (get_elem?-modify_self t i f slot_i), starts)
        | inr (s, g) ↦
            (let (q, h, r) = v.runs d j g in
              (q, get_elem?-modify_ne t i j f (λ u. unclaimed d (rw u g)) ∙ h, r))
      ]

      once :
          (d d' j : ℕ)
          → get_elem? (set cpus c (some i)) d ≡ some (some j)
          → get_elem? (set cpus c (some i)) d' ≡ some (some j)
          → d ≡ d'
      once d d' j e e' = elim (set-some d j e) [
        | inl (s, u) ↦ elim (set-some d' j e') [
          | inl (s', u') ↦ sym s ∙ s'
          | inr (s', g') ↦ absurd (unclaimed d' (rw u g'))
        ]
        | inr (s, g) ↦ elim (set-some d' j e') [
          | inl (s', u') ↦ absurd (unclaimed d (rw u' g))
          | inr (s', g') ↦ v.once d d' j g g'
        ]
      ]

      covered :
          (j : ℕ) (q : Proc)
          → get_elem? (modify t i f) j ≡ some q
          → is_running q.state ≡ true
          → (d : ℕ) × (get_elem? (set cpus c (some i)) d ≡ some (some j))
      covered j q e r =
          let (o, h, w) = get_elem?-modify_inv t i f j e in
          elim w [
            | inl (s, u) ↦
                (c, rw (← s) (get_elem?-set_self cpus c (some i) (get_elem?_lt cpus c free)))
            | inr (s, u) ↦
                (let (d, g) = v.covered j o h (rw u at r) in
                  (
                    d,
                    get_elem?-set_ne cpus (some i)
                          (λ (x : c ≡ d). clash (sym free ∙ (ap (get_elem? cpus) x ∙ g)))
                        ∙ g,
                  ))
          ]
        where
          clash : some none ≡ some (some j) → ⊥
          clash x = cc

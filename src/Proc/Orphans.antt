-- ===== src/Proc/Orphans.antt =====
-- What `exit` does to the family of the process: its children and its waiting parent.
use mathlib.Core.Option
use operating_systems_work.Base.{
  ℕ, zero, suc, ◌+◌, ◌<◌, ◌≡◌, ◌≢◌, refl, sym, ap, subst, ◌∙◌, false, ◌&&◌, inl, inr, Option, some,
  List, map, length, get_elem?, modify, arith, Bool-cases, get_elem?_lt, get_elem?-map_inv,
  get_elem?-modify_inv, get_or_of_get_elem?, ℕ_discrete,
}
use operating_systems_work.Proc.Types.{
  is_zombie, is_sleeping, opt_chan_eq, Chan, Proc, Kernel, proc_at, zero_proc,
}
use operating_systems_work.Proc.Exit.{
  is_child, wake, wakeup1, adopt, abandon, abandon_from, bury, exit_table,
}
use operating_systems_work.Proc.Evolve.{Evolves-abandon_from}

-- Every slot has the property.
abbrev pub Everywhere : (Proc → Type 0) → List Proc → Type 0
Everywhere P t = (i : ℕ) (p : Proc) → get_elem? t i ≡ some p → P p

module _ (P : Proc → Type 0) where
  Everywhere-map :
      (f : Proc → Proc)
      → ((p : Proc) → P p → P (f p))
      → (t : List Proc) → Everywhere P t
      → Everywhere P (map f t)
  Everywhere-map f keep t h i q e =
      let (p, g, s) = get_elem?-map_inv f t i e in subst P (sym s) (keep p (h i p g))

  Everywhere-modify :
      (f : Proc → Proc)
      → ((p : Proc) → P p → P (f p))
      → (t : List Proc) (i : ℕ) → Everywhere P t
      → Everywhere P (modify t i f)
  Everywhere-modify f keep t i h j q e =
      let (p, g, c) = get_elem?-modify_inv t i f j e in
      elim c [
        | inl (s, u) ↦ subst P (sym u) (keep p (h j p g))
        | inr (s, u) ↦ subst P (sym u) (h j p g)
      ]

  Everywhere-abandon_from :
      (cur init : ℕ)
      → ((p : Proc) → P p → P (adopt init p))
      → ((p : Proc) → P p → P (wake (some (Chan.slot init)) p))
      → (n i : ℕ) (t : List Proc) → Everywhere P t
      → Everywhere P (abandon_from cur init n i t)
  unfolding abandon_from abandon wakeup1
  Everywhere-abandon_from cur init a w zero i t h = h
  Everywhere-abandon_from cur init a w (suc n) i t h =
      Everywhere-abandon_from cur init a w n (i + 1) _
        (elim (Bool-cases (is_child cur (proc_at t i))) [
          | inr c ↦ rw c h
          | inl c ↦ rw c (elim (Bool-cases (is_zombie (proc_at t i).state)) [
            | inl z ↦ rw z (Everywhere-map _ w _ (Everywhere-modify _ a t i h))
            | inr z ↦ rw z (Everywhere-modify _ a t i h)
          ])
        ])

-- The process does not sleep on the channel.
abbrev pub IsAwakeOn : Option Chan → Proc → Type 0
IsAwakeOn chan p = (is_sleeping p.state && opt_chan_eq p.chan chan) ≡ false

wake_awake : (c : Option Chan) (p : Proc) → IsAwakeOn c (wake c p)
wake_awake c p = elim (Bool-cases (is_sleeping p.state && opt_chan_eq p.chan c)) [
  | inl e ↦ rw e refl
  | inr e ↦ rw e e
]

wake_keeps : (c d : Option Chan) (p : Proc) → IsAwakeOn c p → IsAwakeOn c (wake d p)
wake_keeps c d p h = elim (Bool-cases (is_sleeping p.state && opt_chan_eq p.chan d)) [
  | inl e ↦ rw e refl
  | inr e ↦ rw e h
]

-- After `wakeup1`, no process sleeps on the channel.
pub wakeup1_awake : (c : Option Chan) (t : List Proc) → Everywhere (IsAwakeOn c) (wakeup1 c t)
unfolding wakeup1
wakeup1_awake c t i q e =
    let (p, g, s) = get_elem?-map_inv (wake c) t i e in subst (IsAwakeOn c) (sym s) (wake_awake c p)

-- The slots before `i` are no children of `cur`.
abbrev Disowned : ℕ → ℕ → List Proc → Type 0
Disowned cur i t = (j : ℕ) (p : Proc) → j < i → get_elem? t j ≡ some p → is_child cur p ≡ false

module _ (cur init : ℕ) (other : cur ≢ init) where
  adopted : (p : Proc) → is_child cur (adopt init p) ≡ false
  adopted p = ground arith

  woken_parent : (c : Option Chan) (p : Proc) → (wake c p).parent ≡ p.parent
  woken_parent c p = elim (Bool-cases (is_sleeping p.state && opt_chan_eq p.chan c)) [
    | inl e ↦ rw e refl
    | inr e ↦ rw e refl
  ]

  not_child : (p q : Proc) → p.parent ≡ q.parent → is_child cur q ≡ false → is_child cur p ≡ false
  not_child p q e h = rw e h

  Disowned-wakeup1 :
      (c : Option Chan) (i : ℕ) (t : List Proc) → Disowned cur i t → Disowned cur i (wakeup1 c t)
  unfolding wakeup1
  Disowned-wakeup1 c i t h j q l e =
      let (p, g, s) = get_elem?-map_inv (wake c) t j e in
      not_child q p (ap (λ r. r.parent) s ∙ woken_parent c p) (h j p l g)

  Disowned-adopt :
      (i : ℕ) (t : List Proc) → Disowned cur i t → Disowned cur (i + 1) (modify t i (adopt init))
  Disowned-adopt i t h j q l e =
      let (p, g, c) = get_elem?-modify_inv t i (adopt init) j e in
      elim c [ inl (s, u) ↦ rw u (adopted p) | inr (s, u) ↦ rw u (h j p (omega arith) g) ]

  Disowned-abandon :
      (i : ℕ) (t : List Proc) → Disowned cur i t → Disowned cur (i + 1) (abandon cur init i t)
  unfolding abandon
  Disowned-abandon i t h = elim (Bool-cases (is_child cur (proc_at t i))) [
    | inl c ↦ rw c (elim (Bool-cases (is_zombie (proc_at t i).state)) [
      | inl z ↦ rw z (Disowned-wakeup1 _ (i + 1) _ (Disowned-adopt i t h))
      | inr z ↦ rw z (Disowned-adopt i t h)
    ])
    | inr c ↦ rw c (λ j q l e. elim (ℕ_discrete j i) [
      | yes s ↦
          (let g : get_elem? t i ≡ some q = rw (← s) e in
            ap (is_child cur) (sym (get_or_of_get_elem? t i zero_proc g)) ∙ c)
      | no s ↦ h j q (omega arith) e
    ])
  ]

  Disowned-abandon_from :
      (n i m : ℕ) (t : List Proc)
      → i + n ≡ m
      → Disowned cur i t
      → Disowned cur m (abandon_from cur init n i t)
  unfolding abandon_from
  Disowned-abandon_from zero i m t s h =
      let q : i ≡ m = omega arith in subst (λ x. Disowned cur x t) q h
  Disowned-abandon_from (suc n) i m t s h =
      Disowned-abandon_from n (i + 1) m _ (omega arith) (Disowned-abandon i t h)

module _ {W : Type 0} (cur : ℕ) (k : Kernel W) where
  -- When a process other than init exits, no slot names it as its parent any more, and no process
  -- is left asleep on the slot of its parent.
  pub exit_orphans :
      cur ≢ k.initproc
      → Everywhere (λ p. is_child cur p ≡ false) (exit_table cur k).table
        × Everywhere
            (IsAwakeOn (Option.map Chan.slot (proc_at k.table cur).parent))
            (exit_table cur k).table
  unfolding exit_table
  exit_orphans other = (no_child, awake)
    where
      chan : Option Chan
      chan = Option.map Chan.slot (proc_at k.table cur).parent

      woken : List Proc
      woken = wakeup1 chan k.table

      moved : List Proc
      moved = abandon_from cur k.initproc (length woken) 0 woken

      disowned : Everywhere (λ p. is_child cur p ≡ false) moved
      disowned j p e =
          let (q, g, s) =
            Evolves-abandon_from {now = 0} cur k.initproc (length woken) 0 woken j p e in
          Disowned-abandon_from cur k.initproc other (length woken) 0 (length woken) woken
            (omega arith) (λ i r l x. elim l [ ]) j p (get_elem?_lt woken j g) e

      no_child : Everywhere (λ p. is_child cur p ≡ false) (modify moved cur (bury k.ticks))
      no_child = Everywhere-modify _ (bury k.ticks) (λ p h. h) moved cur disowned

      awake : Everywhere (IsAwakeOn chan) (modify moved cur (bury k.ticks))
      awake =
          Everywhere-modify _ (bury k.ticks) (λ p h. refl) moved cur
            (Everywhere-abandon_from _ cur k.initproc (λ p h. h) (λ p h. wake_keeps chan _ p h) _ 0
              woken (wakeup1_awake chan k.table))

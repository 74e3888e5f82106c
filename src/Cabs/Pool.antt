-- ===== src/Cabs/Pool.antt =====
-- What a passenger who wants a shared ride gets.
use mathlib.Core.Option
use operating_systems_work.Base.{
  ℕ, zero, suc, ◌+◌, ◌⊎◌, sym, ◌<◌, ◌≡◌, ◌≢◌, refl, ap, subst, ◌∙◌, Bool, true, false, Option, none,
  some, List, [], ◌∷◌, if◌then◌else◌, modify, get_elem?, inl, inr, Bool-cases, Option-cases, arith,
  modify-modify, get_elem?-modify_self, get_elem?-modify_ne,
}
use operating_systems_work.Cabs.{
  Cab, Others, on_ride_pool_full, open_half, open_wait, first, fill, start_pool, unlock, find_free,
  pool_round, search_pool, release, take_cab,
}

-- The cab and the cabs, by the first open half-full cab and the first open free cab. If there are
-- both, the passenger gets the free one, and the other is marked as full and stays locked.
abbrev pub pool_outcome : Option ℕ → Option ℕ → List Cab → Option ℕ × List Cab
pool_outcome none none cabs = (none, cabs)
pool_outcome none (some j) cabs = (some j, modify cabs j (λ c. unlock (start_pool c)))
pool_outcome (some i) none cabs = (some i, modify cabs i (λ c. unlock (fill c)))
pool_outcome (some i) (some j) cabs =
    (some j, modify (modify cabs i fill) j (λ c. unlock (start_pool c)))

fill_half : (c : Cab) → open_half c ≡ true → open_wait c ≡ false
fill_half c h = ground arith

-- Filling the half-full cab leaves the first free cab the same.
first-modify :
    (cabs : List Cab) (i : ℕ)
    → first open_half cabs ≡ some i
    → first open_wait (modify cabs i fill) ≡ first open_wait cabs
unfolding first
first-modify [] i h = refl
first-modify (c ∷ cs) i h = elim (Bool-cases (open_half c)) [
  | inl e ↦
      (let h' : some 0 ≡ some i = rw (e, first) at h in
        let q : i ≡ 0 = ground arith in rw (q, fill_half c e) refl)
  | inr e ↦ elim (Option-cases (first open_half cs)) [
    | inl n ↦ absurd (let h' : none ≡ some i = rw (e, n, first) at h in cc)
    | inr (j, n) ↦
        (let h' : some (j + 1) ≡ some i = rw (e, n, first) at h in
          let q : i ≡ suc j = ground arith in
          rw q (
            ap (λ o. if open_wait c then some 0 else Option.map (λ x. x + 1) o)
              (first-modify cs j n)))
  ]
]

module _ (cabs : List Cab) where
  quiet_round :
      first open_half cabs ≡ none → first open_wait cabs ≡ none → pool_round cabs ≡ (none, cabs)
  unfolding pool_round find_free
  quiet_round e f = rw (e, pool_round) (rw (f, find_free) refl)

  found_search :
      (others : Others) (t i : ℕ) (cs : List Cab)
      → pool_round cabs ≡ (some i, cs)
      → search_pool others (suc t) cabs ≡ (some i, cs)
  unfolding search_pool
  found_search others t i cs e = rw (search_pool, ap (λ r. r.0) e) (ap (λ r. (some i, r.1)) e)

  free_round :
      (j : ℕ)
      → first open_half cabs ≡ none
      → first open_wait cabs ≡ some j
      → pool_round cabs ≡ (some j, modify cabs j start_pool)
  unfolding pool_round find_free
  free_round j e f = rw (e, pool_round) (rw (f, find_free) refl)

  half_round :
      (i : ℕ)
      → first open_half cabs ≡ some i
      → first open_wait cabs ≡ none
      → pool_round cabs ≡ (some i, modify cabs i fill)
  unfolding pool_round find_free
  half_round i e f = rw (e, pool_round) (rw (first-modify cabs i e ∙ f, find_free) refl)

  both_round :
      (i j : ℕ)
      → first open_half cabs ≡ some i
      → first open_wait cabs ≡ some j
      → pool_round cabs ≡ (some j, modify (modify cabs i fill) j start_pool)
  unfolding pool_round find_free
  both_round i j e f = rw (e, pool_round) (rw (first-modify cabs i e ∙ f, find_free) refl)

-- No cab that a shared ride can use is open.
abbrev pub IsQuiet : List Cab → Type 0
IsQuiet cabs = (first open_half cabs ≡ none) × (first open_wait cabs ≡ none)

module _ (others : Others) where
  -- A round without an open cab.
  quiet_take :
      (t : ℕ) (cabs : List Cab)
      → IsQuiet cabs
      → take_cab others true (suc t) cabs ≡ take_cab others true t (others t cabs)
  unfolding take_cab search_pool
  quiet_take t cabs (e, f) =
      ap release
        (next (ap (λ r. r.0) (quiet_round cabs e f)) (ap (λ r. r.1) (quiet_round cabs e f)))
    where
      next :
          (pool_round cabs).0 ≡ none
          → (pool_round cabs).1 ≡ cabs
          → search_pool others (suc t) cabs ≡ search_pool others t (others t cabs)
      next p q = rw (search_pool, p) (ap (λ x. search_pool others t (others t x)) q)

  -- A round with an open cab.
  pub busy_take :
      (t : ℕ) (cabs : List Cab)
      → ¬ (IsQuiet cabs)
      → take_cab others true (suc t) cabs
        ≡ pool_outcome (first open_half cabs) (first open_wait cabs) cabs
  unfolding take_cab release
  busy_take t cabs n = elim (Option-cases (first open_half cabs)) [
    | inl e ↦ elim (Option-cases (first open_wait cabs)) [
      | inl f ↦ absurd (n (e, f))
      | inr (j, f) ↦
          rw (e, f)
            (rw (found_search cabs others t j _ (free_round cabs j e f))
              (ap (λ x. (some j, x)) (modify-modify cabs j start_pool unlock)))
    ]
    | inr (i, e) ↦ elim (Option-cases (first open_wait cabs)) [
      | inl f ↦
          rw (e, f)
            (rw (found_search cabs others t i _ (half_round cabs i e f))
              (ap (λ x. (some i, x)) (modify-modify cabs i fill unlock)))
      | inr (j, f) ↦
          rw (e, f)
            (rw (found_search cabs others t j _ (both_round cabs i j e f))
              (ap (λ x. (some j, x)) (modify-modify (modify cabs i fill) j start_pool unlock)))
    ]
  ]

  -- The cabs that a passenger with `time_to_wait` rounds left finds after `r` rounds without an open cab.
  abbrev pub cabs_after : ℕ → ℕ → List Cab → List Cab
  cabs_after zero time_to_wait cabs = cabs
  cabs_after (suc r) zero cabs = cabs
  cabs_after (suc r) (suc t) cabs = cabs_after r t (others t cabs)

  abbrev pub Waits : ℕ → ℕ → List Cab → Type 0
  Waits r wait_time cabs = (s : ℕ) → s < r → IsQuiet (cabs_after s wait_time cabs)

  -- The outcome for a shared ride: that of the first round with an open cab, or no cab.
  abbrev pub PoolPost : ℕ → List Cab → Option ℕ × List Cab → Type 0
  PoolPost wait_time cabs o =
      ((r : ℕ) × (r < wait_time)
        × Waits r wait_time cabs
        × ¬ (IsQuiet (cabs_after r wait_time cabs))
        × (o
            ≡ pool_outcome (first open_half (cabs_after r wait_time cabs))
                (first open_wait (cabs_after r wait_time cabs)) (cabs_after r wait_time cabs)))
      ⊎ (Waits wait_time wait_time cabs × (o ≡ (none, cabs_after wait_time wait_time cabs)))

  IsQuiet-or : (cabs : List Cab) → IsQuiet cabs ⊎ (¬ (IsQuiet cabs))
  IsQuiet-or cabs = elim (Option-cases (first open_half cabs)) [
    | inr (i, e) ↦ inr (λ q. clash q.0 e)
    | inl e ↦ elim (Option-cases (first open_wait cabs)) [
      | inr (i, f) ↦ inr (λ q. clash q.1 f)
      | inl f ↦ inl (e, f)
    ]
  ]
    where
      clash : {o : Option ℕ} {i : ℕ} → o ≡ none → o ≡ some i → ⊥
      clash p q = cc

  later :
      (t : ℕ) (cabs : List Cab) (o : Option ℕ × List Cab)
      → IsQuiet cabs
      → PoolPost t (others t cabs) o
      → PoolPost (suc t) cabs o
  later t cabs o q (inl (r, l, w, n, e)) = inl (suc r, omega arith, shifted, n, e)
    where
      shifted : Waits (suc r) (suc t) cabs
      shifted zero h = q
      shifted (suc s) h = w s (omega arith)
  later t cabs o q (inr (w, e)) = inr (shifted, e)
    where
      shifted : Waits (suc t) (suc t) cabs
      shifted zero h = q
      shifted (suc s) h = w s (omega arith)

  no_time : (cabs : List Cab) → take_cab others true 0 cabs ≡ (none, cabs)
  unfolding take_cab search_pool release
  no_time cabs = refl

  -- Whatever the other threads do to the cabs between the rounds, a passenger who wants a shared ride
  -- gets what `pool_outcome` says of the cabs at the first of the rounds of the waiting time at which a
  -- half-full cab or a free cab is open, and gets no cab only if there is no such round.
  pub take_cab_pool :
      (wait_time : ℕ) (cabs : List Cab)
      → PoolPost wait_time cabs (take_cab others true wait_time cabs)
  take_cab_pool zero cabs = inr (λ s h. absurd (omega arith), no_time cabs)
  take_cab_pool (suc t) cabs = elim (IsQuiet-or cabs) [
    | inr n ↦ inl (zero, omega arith, (λ s h. absurd (omega arith)), n, busy_take t cabs n)
    | inl q ↦
        subst (PoolPost (suc t) cabs) (sym (quiet_take t cabs q))
          (later t cabs _ q (take_cab_pool t (others t cabs)))
  ]

first_slot :
    (test : Cab → Bool) (cabs : List Cab) (i : ℕ)
    → first test cabs ≡ some i
    → (c : Cab) × (get_elem? cabs i ≡ some c) × (test c ≡ true)
unfolding first
first_slot test [] i h = absurd (ground arith)
first_slot test (c ∷ cs) i h = elim (Bool-cases (test c)) [
  | inl e ↦
      (let h' : some 0 ≡ some i = rw (e, first) at h in
        let q : i ≡ 0 = ground arith in rw q (c, refl, e))
  | inr e ↦ elim (Option-cases (first test cs)) [
    | inl n ↦ absurd (let h' : none ≡ some i = rw (e, n, first) at h in cc)
    | inr (j, n) ↦
        (let h' : some (j + 1) ≡ some i = rw (e, n, first) at h in
          let q : i ≡ suc j = ground arith in rw q (first_slot test cs j n))
  ]
]

-- If there are an open half-full cab and an open free cab in the first round, a passenger who wants
-- a shared ride and can wait rides in the free one, but the half-full one is marked as full and stays locked.
pub lost_cab :
    (others : Others) (cabs : List Cab) (wait_time i j : ℕ)
    → 0 < wait_time
    → first open_half cabs ≡ some i
    → first open_wait cabs ≡ some j
    → ((take_cab others true wait_time cabs).0 ≡ some j)
      × (c : Cab) × (get_elem? (take_cab others true wait_time cabs).1 i ≡ some c)
      × (c.lock ≡ true)
      × (c.ride_status ≡ on_ride_pool_full)
lost_cab others cabs zero i j h e f = absurd (omega arith)
lost_cab others cabs (suc t) i j h e f =
    let (c, g, u) = first_slot open_half cabs i e in
    rw (busy_take others t cabs (λ q. clash q.0 e), e, f)
      (
        refl,
        fill c,
        get_elem?-modify_ne (modify cabs i fill) j i _ (apart c g u)
            ∙ get_elem?-modify_self cabs i fill g,
        refl,
        refl,
      )
  where
    clash : {o : Option ℕ} {i : ℕ} → o ≡ none → o ≡ some i → ⊥
    clash p q = cc

    apart : (c : Cab) → get_elem? cabs i ≡ some c → open_half c ≡ true → j ≢ i
    apart c g t s =
        let (d, k, u) = first_slot open_wait cabs j f in
        two c d g (subst (λ x. get_elem? cabs x ≡ some d) s k) t u
      where
        two :
            (x y : Cab)
            → get_elem? cabs i ≡ some x
            → get_elem? cabs i ≡ some y
            → open_half x ≡ true
            → open_wait y ≡ true
            → ⊥
        two x y p q v w = ground arith

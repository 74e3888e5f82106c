-- ===== src/Files/Held.antt =====
-- Each reference that is held can be copied and closed, in every state.
use operating_systems_work.Base.{
  ℕ, zero, suc, ◌+◌, ◌<◌, ◌≡◌, refl, sym, ap, subst, ◌∙◌, false, Option, none, some, List, [], ◌∷◌,
  ltb, modify, get_or, get_elem?, inl, inr, ◌⊎◌, arith, get_or_of_get_elem?,
}
use operating_systems_work.Files.{
  File, no_file, find_file, first_ref, one_more, filedup, one_less, clear, fileclose,
}
use operating_systems_work.Files.References.{
  Open, without, Step, opens, dups, closes, Reach, here, next, count, Counted, count-without,
  without_inv, find_file-some, held_ref, Counted-modify, still_there, alloc_inv, dup_inv, close_lem,
}

module _ (s : Open) (v : Counted s) where
  -- The references after one to slot `i` is added.
  grown :
      (i : ℕ) (f : File)
      → get_elem? s.table i ≡ some f
      → (g : File → File) → (k j : ℕ) → get_elem? (i ∷ s.held) k ≡ some j
      → (x : File) × (get_elem? (modify s.table i g) j ≡ some x)
  grown i f e g zero j d =
      let q : i ≡ j = ground arith in
      still_there s.table i j g f (subst (λ y. get_elem? s.table y ≡ some f) q e)
  grown i f e g (suc k) j d = let (x, y) = v.inside k j d in still_there s.table i j g x y

  Counted-opens :
      (i : ℕ)
      → find_file s.table ≡ some i
      → Counted (record { table = modify s.table i first_ref; held = i ∷ s.held })
  Counted-opens i h =
      let (f, e, z) = find_file-some s.table i h in
      Counted-modify s i first_ref (i ∷ s.held) v
        (λ g d r.
          let q = get_or_of_get_elem? s.table i no_file d in
          let q' = get_or_of_get_elem? s.table i no_file e in
          let w : g ≡ f = sym q ∙ q' in zero_ref g f w z r)
        (λ j n. ground arith) (grown i f e first_ref)
    where
      zero_ref :
          (g f : File) → g ≡ f → f.ref ≡ 0 → g.ref ≡ count i s.held → 1 ≡ count i (i ∷ s.held)
      zero_ref g f w z r = let q : g.ref ≡ 0 = ap (λ y. y.ref) w ∙ z in ground arith

  Counted-dups :
      (k i : ℕ)
      → get_elem? s.held k ≡ some i
      → Counted (record { table = modify s.table i one_more; held = i ∷ s.held })
  Counted-dups k i h =
      let (f, e) = v.inside k i h in
      Counted-modify s i one_more (i ∷ s.held) v (λ g d r. ground arith) (λ j n. ground arith)
        (grown i f e one_more)

  -- The references after one to slot `i` is dropped.
  shrunk :
      (k i : ℕ) (g : File → File)
      → get_elem? s.held k ≡ some i
      → ((f : File) → f.ref ≡ count i s.held → (g f).ref + 1 ≡ f.ref)
      → Counted (record { table = modify s.table i g; held = without s.held k })
  shrunk k i g h less =
      Counted-modify s i g (without s.held k) v
        (λ f d r. ground (arith, less f r, count-without s.held k i i h))
        (λ j n. ground (arith, count-without s.held k i j h))
        (λ l j d.
          let (m, e) = without_inv s.held k l d in
          let (x, y) = v.inside m j e in still_there s.table i j g x y)

  -- Where the counts are exact, someone who holds a reference can copy it and drop it without a
  -- panic, and `fileclose` hands out the file to close exactly when no one else holds it; the drop
  -- leaves the counts exact.
  pub close_held :
      (k i : ℕ)
      → get_elem? s.held k ≡ some i
      → (filedup i s.table ≡ some (modify s.table i one_more))
        × ((last : Option File) × (t : List File) × (fileclose i s.table ≡ some (last, t))
            × Counted (record { table = t; held = without s.held k })
            × ((last ≡ none) × (0 < count i (without s.held k))
                ⊎ (last ≡ some (get_or s.table i no_file)) × (count i (without s.held k) ≡ 0)))
  unfolding filedup
  close_held k i h = (
    dup,
    elim (close_lem s.table i r.0) [
      | inl (a, e) ↦ (
        none,
        modify s.table i one_less,
        e,
        shrunk k i one_less h (λ f q. omega (arith, a, q, r.1)),
        inl (refl, omega (arith, a, r.1, left)),
      )
      | inr (a, e) ↦ (
        some (get_or s.table i no_file),
        modify s.table i clear,
        e,
        shrunk k i clear h (λ f q. omega (arith, a, q, r.1)),
        inr (refl, omega (arith, a, r.1, left)),
      )
    ],
  )
    where
      r : (0 < (get_or s.table i no_file).ref) × ((get_or s.table i no_file).ref ≡ count i s.held)
      r = held_ref s k i v h

      left : count i (without s.held k) + 1 ≡ count i s.held
      left = ground (arith, count-without s.held k i i h)

      dup : filedup i s.table ≡ some (modify s.table i one_more)
      dup =
          let a : ltb (get_or s.table i no_file).ref 1 ≡ false = ground (arith, r.0) in
          rw (filedup, a) refl

-- Every call keeps the counts exact.
Step-Counted : {s t : Open} → Counted s → Step s t → Counted t
Step-Counted {s} v (opens i t h) =
    let (f, e) = alloc_inv s.table i t h in
    subst (λ u. Counted (record { table = u; held = i ∷ s.held })) (sym e) (Counted-opens s v i f)
Step-Counted {s} v (dups k i t g h) =
    subst (λ u. Counted (record { table = u; held = i ∷ s.held })) (sym (dup_inv s.table i t h))
      (Counted-dups s v k i g)
Step-Counted {s} v (closes k i last t g h) =
    let (l, u, e, c, o) = (close_held s v k i g).1 in
    subst (λ u. Counted (record { table = u; held = without s.held k })) (same_table (sym e ∙ h)) c
  where
    same_table : {r q : Option File × List File} → some r ≡ some q → r.1 ≡ q.1
    same_table h = ap table_of h
      where
        table_of : Option (Option File × List File) → List File
        table_of none = []
        table_of (some r) = r.1

-- From a table whose counts are exact, whoever opens, copies and closes files, the counts stay the
-- numbers of the references that are held.
pub Reach-Counted : {s t : Open} → Counted s → Reach s t → Counted t
Reach-Counted v here = v
Reach-Counted v (next r h) = Step-Counted (Reach-Counted v r) h

-- ===== src/Files/Restore.antt =====
-- Slots of the table of files that are taken and given back.
use operating_systems_work.Base.{
  ℕ, suc, ◌≡◌, ◌≢◌, refl, sym, ap, ap₂, subst, ◌∙◌, Option, none, some, List, [], ◌∷◌, modify,
  get_or, get_elem?, arith, ℕ_discrete, Option-cases, inl, inr, get_or_of_get_elem?,
  get_elem?-modify_self, get_elem?-modify_ne,
}
use operating_systems_work.Files.{
  File, fd_none, no_file, find_file, first_ref, filealloc, clear, fileclose,
}
use operating_systems_work.Files.References.{find_file-some}
use operating_systems_work.Files.Pipes.{close_new}

table_ext : (t u : List File) → ((n : ℕ) → get_elem? t n ≡ get_elem? u n) → t ≡ u
table_ext [] [] h = refl
table_ext [] (y ∷ u) h = absurd (let e = h 0 in cc)
table_ext (x ∷ t) [] h = absurd (let e = h 0 in cc)
table_ext (x ∷ t) (y ∷ u) h = ap₂ (λ a b. a ∷ b) (head_eq (h 0)) (table_ext t u (λ n. h (suc n)))
  where
    head_eq : some x ≡ some y → x ≡ y
    head_eq e = cc

-- What `filealloc` gives.
pub alloc_some :
    (t : List File) (i : ℕ) (u : List File)
    → filealloc t ≡ some (i, u)
    → (f : File) × (get_elem? t i ≡ some f) × (f.ref ≡ 0) × (u ≡ modify t i first_ref)
unfolding filealloc
alloc_some t i u h = elim (Option-cases (find_file t)) [
  | inl e ↦
      absurd (
        let h' : ◌≡◌ {A = Option (ℕ × List File)} none (some (i, u)) = rw (e, filealloc) at h in cc)
  | inr (j, e) ↦
      (let h' : ◌≡◌ {A = Option (ℕ × List File)} (some (j, modify t j first_ref)) (some (i, u)) =
          rw (e, filealloc) at h in
        let q : j ≡ i = ground arith in
        let r : modify t j first_ref ≡ u = ground arith in
        let (f, g, z) = find_file-some t j e in
        (f, subst (λ x. get_elem? t x ≡ some f) q g, z, sym r ∙ ap (λ x. modify t x first_ref) q))
]

-- `fileclose` of a file with one reference.
pub close_one :
    (t : List File) (i : ℕ) (f : File)
    → get_elem? t i ≡ some f
    → f.ref ≡ 1
    → close_new (some i) t ≡ some (modify t i clear)
unfolding close_new fileclose
close_one t i f h e =
    (let r : (get_or t i no_file).ref ≡ 1 =
        ap (λ x. x.ref) (get_or_of_get_elem? t i no_file h) ∙ e in
      rw (close_new, fileclose, r) refl)

-- A slot that was taken and given back is as it was.
module _ (f : File) (z : f.ref ≡ 0) (y : f.type ≡ fd_none) where
  given_back : clear (first_ref f) ≡ f
  given_back = λ i. record f { ref = (sym z) i; type = (sym y) i }

module _ (t : List File) (i : ℕ) (f : File) (g : get_elem? t i ≡ some f) (z : f.ref ≡ 0)
    (y : f.type ≡ fd_none) where
  abbrev pub taken : List File
  taken = modify t i first_ref

  pub one_back : modify taken i clear ≡ t
  one_back = table_ext _ _ (λ n. elim (ℕ_discrete i n) [
    | yes q ↦
        subst (λ m. get_elem? (modify taken i clear) m ≡ get_elem? t m) q
          (get_elem?-modify_self taken i clear (get_elem?-modify_self t i first_ref g)
            ∙ ap some (given_back f z y)
            ∙ sym g)
    | no q ↦ get_elem?-modify_ne taken i n clear q ∙ get_elem?-modify_ne t i n first_ref q
  ])

  -- The second slot.
  module _ (j : ℕ) (h : File) (g' : get_elem? taken j ≡ some h) (z' : h.ref ≡ 0) where
    pub other : i ≢ j
    other q =
        clash (subst (λ m. get_elem? taken m ≡ some h) (sym q) g')
          (get_elem?-modify_self t i first_ref g) z'
      where
        clash : {u : Option File} → u ≡ some h → u ≡ some (first_ref f) → h.ref ≡ 0 → ⊥
        clash a b c = count_off (inj (sym a ∙ b)) c
          where
            inj : some h ≡ some (first_ref f) → h ≡ first_ref f
            inj e = cc

            count_off : h ≡ first_ref f → h.ref ≡ 0 → ⊥
            count_off e c = omega (arith, ap (λ x. x.ref) e)

    pub was_there : get_elem? t j ≡ some h
    was_there = sym (get_elem?-modify_ne t i j first_ref other) ∙ g'

    abbrev both : List File
    both = modify taken j first_ref

    pub two_back : h.type ≡ fd_none → modify (modify both i clear) j clear ≡ t
    two_back y' = table_ext _ _ (λ n. elim (ℕ_discrete j n) [
      | yes q ↦
          subst (λ m. get_elem? (modify (modify both i clear) j clear) m ≡ get_elem? t m) q
            (get_elem?-modify_self (modify both i clear) j clear (
                get_elem?-modify_ne both i j clear other
                ∙ get_elem?-modify_self taken j first_ref g')
              ∙ ap some (given_back h z' y')
              ∙ sym was_there)
      | no q ↦ get_elem?-modify_ne (modify both i clear) j n clear q ∙ elim (ℕ_discrete i n) [
        | yes r ↦
            subst (λ m. get_elem? (modify both i clear) m ≡ get_elem? t m) r
              (get_elem?-modify_self both i clear (
                  get_elem?-modify_ne taken j i first_ref (λ e. other (sym e))
                  ∙ get_elem?-modify_self t i first_ref g)
                ∙ ap some (given_back f z y)
                ∙ sym g)
        | no r ↦
            get_elem?-modify_ne both i n clear r
            ∙ get_elem?-modify_ne taken j n first_ref q
            ∙ get_elem?-modify_ne t i n first_ref r
      ]
    ])

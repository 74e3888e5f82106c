-- ===== src/Files/Ends.antt =====
-- What `pipealloc` gives, and what it undoes.
use operating_systems_work.Base.{
  ℕ, ◌≡◌, ◌≢◌, refl, sym, ap, subst, ◌∙◌, true, false, none, some, List, ◌==◌, modify, get_elem?,
  arith, ℕ_discrete, Option-cases, Bool-cases, inl, inr, get_elem?-modify_self, get_elem?-modify_ne,
}
use operating_systems_work.Files.{File, first_ref, filealloc, clear}
use operating_systems_work.Pages.{Kmem, kalloc}
use operating_systems_work.Files.Pipes.{end_of, close_new, undo, pipealloc, Idle, PipeallocPost}
use operating_systems_work.Files.Restore.{
  alloc_some, close_one, taken, one_back, other, was_there, two_back,
}

close_none : (t : List File) → close_new none t ≡ some t
unfolding close_new
close_none t = refl

-- The runs of `pipealloc`.
module _ (t : List File) (k : Kmem) where
  no_first : filealloc t ≡ none → pipealloc t k ≡ some (none, t, k)
  unfolding pipealloc undo close_new
  no_first e = rw (pipealloc, e) refl

  no_second :
      (i : ℕ) (t₁ t' : List File)
      → filealloc t ≡ some (i, t₁)
      → filealloc t₁ ≡ none
      → close_new (some i) t₁ ≡ some t'
      → pipealloc t k ≡ some (none, t', k)
  unfolding pipealloc undo
  no_second i t₁ t' e e' c = rw (pipealloc, e, e', undo, c, close_none t') refl

  module _ (i j : ℕ) (t₁ t₂ : List File) (e : filealloc t ≡ some (i, t₁))
      (e' : filealloc t₁ ≡ some (j, t₂)) where
    no_page :
        (t' t'' : List File)
        → (kalloc k).0 ≡ 0
        → close_new (some i) t₂ ≡ some t'
        → close_new (some j) t' ≡ some t''
        → pipealloc t k ≡ some (none, t'', (kalloc k).1)
    unfolding pipealloc undo
    no_page t' t'' z c c' = rw (pipealloc, e, e', z, undo, c, c') refl

    made :
        (kalloc k).0 ≢ 0
        → pipealloc t k
          ≡ some (
            some (i, j, (kalloc k).0),
            modify (modify t₂ i (end_of (kalloc k).0 true)) j (end_of (kalloc k).0 false),
            (kalloc k).1,
          )
    unfolding pipealloc
    made n = (let z : ((kalloc k).0 == 0) ≡ false = ground arith in rw (pipealloc, e, e', z) refl)

kalloc_none : (k : Kmem) → (kalloc k).0 ≡ 0 → (kalloc k).1 ≡ k
unfolding kalloc
kalloc_none k h = elim (Bool-cases (k.freelist == 0)) [
  | inl e ↦ rw e refl
  | inr e ↦ absurd (let z : k.freelist ≡ 0 = rw (e, kalloc) at h in ground arith)
]

-- The case of two files.
module _ (t : List File) (k : Kmem) (idle : Idle t) (i j : ℕ) (t₁ t₂ : List File) (f h : File)
    (e : filealloc t ≡ some (i, t₁)) (e' : filealloc t₁ ≡ some (j, t₂)) (g : get_elem? t i ≡ some f)
    (z : f.ref ≡ 0) (q : t₁ ≡ modify t i first_ref) (g' : get_elem? t₁ j ≡ some h) (z' : h.ref ≡ 0)
    (q' : t₂ ≡ modify t₁ j first_ref) where
  second_there : get_elem? (taken t i f g z (idle i f g z)) j ≡ some h
  second_there = subst (λ x. get_elem? x j ≡ some h) q g'

  apart : i ≢ j
  apart = other t i f g z (idle i f g z) j h second_there z'

  h_there : get_elem? t j ≡ some h
  h_there = was_there t i f g z (idle i f g z) j h second_there z'

  both_taken : t₂ ≡ modify (modify t i first_ref) j first_ref
  both_taken = q' ∙ ap (λ x. modify x j first_ref) q

  first_in : get_elem? t₂ i ≡ some (first_ref f)
  first_in =
      ap (λ x. get_elem? x i) both_taken
      ∙ get_elem?-modify_ne (modify t i first_ref) j i first_ref (λ c. apart (sym c))
      ∙ get_elem?-modify_self t i first_ref g

  second_in : get_elem? t₂ j ≡ some (first_ref h)
  second_in = ap (λ x. get_elem? x j) q' ∙ get_elem?-modify_self t₁ j first_ref g'

  others_in : (n : ℕ) → i ≢ n → j ≢ n → get_elem? t₂ n ≡ get_elem? t n
  others_in n a b =
      ap (λ x. get_elem? x n) both_taken
      ∙ get_elem?-modify_ne (modify t i first_ref) j n first_ref b
      ∙ get_elem?-modify_ne t i n first_ref a

  two_files : PipeallocPost t k (pipealloc t k)
  two_files = elim (ℕ_discrete (kalloc k).0 0) [
    | yes c ↦
        subst (PipeallocPost t k)
          (sym (
            no_page t k i j t₁ t₂ e e' (modify t₂ i clear) (modify (modify t₂ i clear) j clear) c
              (close_one t₂ i (first_ref f) first_in refl)
              (close_one (modify t₂ i clear) j (first_ref h)
                (get_elem?-modify_ne t₂ i j clear apart ∙ second_in) refl)))
          (
            ap (λ x. modify (modify x i clear) j clear) both_taken
                ∙ two_back t i f g z (idle i f g z) j h second_there z' (idle j h h_there z'),
            kalloc_none k c,
          )
    | no c ↦ subst (PipeallocPost t k) (sym (made t k i j t₁ t₂ e e' c)) (
      apart,
      c,
      refl,
      (
        f,
        g,
        z,
        get_elem?-modify_ne (modify t₂ i (end_of (kalloc k).0 true)) j i (end_of (kalloc k).0 false)
              (λ r. apart (sym r))
            ∙ get_elem?-modify_self t₂ i (end_of (kalloc k).0 true) first_in,
      ),
      (
        h,
        h_there,
        z',
        get_elem?-modify_self (modify t₂ i (end_of (kalloc k).0 true)) j (end_of (kalloc k).0 false)
            (get_elem?-modify_ne t₂ i j (end_of (kalloc k).0 true) apart ∙ second_in),
      ),
      λ n a b.
          get_elem?-modify_ne (modify t₂ i (end_of (kalloc k).0 true)) j n
            (end_of (kalloc k).0 false) b
          ∙ get_elem?-modify_ne t₂ i n (end_of (kalloc k).0 true) a
          ∙ others_in n a b,
    )
  ]

first_there :
    (t : List File) (i : ℕ) (t₁ : List File) (f : File)
    → get_elem? t i ≡ some f
    → t₁ ≡ modify t i first_ref
    → get_elem? t₁ i ≡ some (first_ref f)
first_there t i t₁ f g q = ap (λ x. get_elem? x i) q ∙ get_elem?-modify_self t i first_ref g

pub pipealloc_lem : (t : List File) (k : Kmem) → Idle t → PipeallocPost t k (pipealloc t k)
pipealloc_lem t k idle = elim (Option-cases (filealloc t)) [
  | inl e ↦ subst (PipeallocPost t k) (sym (no_first t k e)) (refl, refl)
  | inr ((i, t₁), e) ↦
      (let (f, g, z, q) = alloc_some t i t₁ e in
        elim (Option-cases (filealloc t₁)) [
          | inl e' ↦
              subst (PipeallocPost t k)
                (sym (
                  no_second t k i t₁ (modify t₁ i clear) e e'
                    (close_one t₁ i (first_ref f) (first_there t i t₁ f g q) refl)))
                (ap (λ x. modify x i clear) q ∙ one_back t i f g z (idle i f g z), refl)
          | inr ((j, t₂), e') ↦
              (let (h, g', z', q') = alloc_some t₁ j t₂ e' in
                two_files t k idle i j t₁ t₂ f h e e' g z q g' z' q')
        ])
]

-- ===== src/Files/Unused.antt =====
-- The type of the slots that are not in use, through the calls of ass5/final_repo/file.c and pipe.c.
-- Each call keeps `Idle`, and the table before the first call has it.
use operating_systems_work.Base.{
  ℕ, zero, suc, Bool, ◌⊎◌, get_or_of_get_elem?, ◌-◌, ◌≡◌, ◌≢◌, refl, sym, ap, subst, ◌∙◌, true,
  false, Option, none, some, List, [], ◌∷◌, ltb, modify, get_elem?, arith, inl, inr,
  get_elem?-modify_inv, ℕ_discrete, get_or, if◌then◌else◌,
}
use operating_systems_work.Files.{
  File, no_file, fd_none, first_ref, filealloc, one_more, filedup, one_less, clear, fileclose,
}
use operating_systems_work.Files.Pipes.{Idle, PipeallocPost, pipealloc, end_of}
use operating_systems_work.Files.Restore.{alloc_some}
use operating_systems_work.Files.Ends.{pipealloc_lem}
use operating_systems_work.Pages.{Kmem}

abbrev IsQuietSlot : File → Type 0
IsQuietSlot f = f.ref ≡ 0 → f.type ≡ fd_none

Idle-modify :
    (t : List File) (i : ℕ) (f : File → File)
    → Idle t
    → ((x : File) → get_elem? t i ≡ some x → IsQuietSlot (f x))
    → Idle (modify t i f)
Idle-modify t i f v h j y e =
    let (x, g, c) = get_elem?-modify_inv t i f j e in
    elim c [
      | inl (a, b) ↦ subst IsQuietSlot (sym b) (h x (subst (λ k. get_elem? t k ≡ some x) (sym a) g))
      | inr (a, b) ↦ subst IsQuietSlot (sym b) (v j x g)
    ]

-- The table before the first call.
abbrev zero_files : ℕ → List File
zero_files zero = []
zero_files (suc n) = no_file ∷ zero_files n

zero_files-Idle : (n : ℕ) → Idle (zero_files n)
zero_files-Idle zero i f e z = absurd cc
zero_files-Idle (suc n) zero f e z = same e
  where
    same : some no_file ≡ some f → f.type ≡ fd_none
    same e = cc
zero_files-Idle (suc n) (suc i) f e z = zero_files-Idle n i f e z

Idle-filealloc : (t t' : List File) (i : ℕ) → Idle t → filealloc t ≡ some (i, t') → Idle t'
Idle-filealloc t t' i v h =
    let (f, g, z, q) = alloc_some t i t' h in
    subst Idle (sym q) (Idle-modify t i first_ref v (λ x e r. absurd (omega (arith, r))))

Idle-filedup : (t t' : List File) (i : ℕ) → Idle t → filedup i t ≡ some t' → Idle t'
unfolding filedup
Idle-filedup t t' i v h =
    subst Idle (taken (ltb (get_or t i no_file).ref 1) h)
      (Idle-modify t i one_more v (λ x e r. absurd (omega (arith, r))))
  where
    taken :
        (b : Bool)
        → (if b then none else some (modify t i one_more)) ≡ some t'
        → modify t i one_more ≡ t'
    taken b e = ground arith

-- A close that does not panic gives one reference back, or the slot.
close_cases :
    (a b : Bool) (p q t' : List File) (f : File) (o : Option File)
    → ◌≡◌ {A = Option (Option File × List File)}
        (if a then none else if b then some (none, p) else some (some f, q))
        (some (o, t'))
    → ((b ≡ true) × (p ≡ t')) ⊎ (q ≡ t')
close_cases true b p q t' f o e = absurd cc
close_cases false true p q t' f o e = inl (refl, ground arith)
close_cases false false p q t' f o e = inr (ground arith)

Idle-fileclose :
    (t t' : List File) (i : ℕ) (o : Option File) → Idle t → fileclose i t ≡ some (o, t') → Idle t'
unfolding fileclose
Idle-fileclose t t' i o v h =
    elim (close_cases (ltb (get_or t i no_file).ref 1) (ltb 0 ((get_or t i no_file).ref - 1))
      (modify t i one_less) (modify t i clear) t' (get_or t i no_file) o h) [
        | inl (e, r) ↦ subst Idle r (Idle-modify t i one_less v (λ x g z. absurd (left x g z e)))
        | inr r ↦ subst Idle r (Idle-modify t i clear v (λ x g z. refl))
      ]
  where
    left :
        (x : File)
        → get_elem? t i ≡ some x
        → x.ref - 1 ≡ 0
        → ltb 0 ((get_or t i no_file).ref - 1) ≡ true
        → ⊥
    left x g z e =
        let r : (get_or t i no_file).ref ≡ x.ref =
          ap (λ y. y.ref) (get_or_of_get_elem? t i no_file g) in
        ground (arith, r, z, e)

Idle-pipealloc :
    (t t' : List File) (k k' : Kmem) (r : Option (ℕ × ℕ × ℕ))
    → Idle t
    → pipealloc t k ≡ some (r, t', k')
    → Idle t'
Idle-pipealloc t t' k k' r v h = by_result r (subst (PipeallocPost t k) h (pipealloc_lem t k v))
  where
    in_use : (p : ℕ) (b : Bool) (x f : File) → some (end_of p b (first_ref f)) ≡ some x → x.ref ≢ 0
    in_use p b x f e z = ground arith

    by_result : (r : Option (ℕ × ℕ × ℕ)) → PipeallocPost t k (some (r, t', k')) → Idle t'
    by_result none (e, q) n x g y = subst Idle (sym e) v n x g y
    by_result (some (i, j, p)) (a, c, q, (f, g, z, m), (f', g', z', m'), o) n x e y =
        elim (ℕ_discrete i n) [
          | yes s ↦
              absurd (in_use p true x f (sym m ∙ subst (λ l. get_elem? t' l ≡ some x) (sym s) e) y)
          | no s ↦ elim (ℕ_discrete j n) [
            | yes w ↦
                absurd
                  (in_use p false x f' (sym m' ∙ subst (λ l. get_elem? t' l ≡ some x) (sym w) e) y)
            | no w ↦ v n x (sym (o n s w) ∙ e) y
          ]
        ]

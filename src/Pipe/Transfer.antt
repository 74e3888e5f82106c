-- ===== src/Pipe/Transfer.antt =====
-- What `pipewrite` puts in the pipe and what `piperead` takes out.
use mathlib.Core.List.{append-nil, append_assoc}
use operating_systems_work.Base.{
  ℕ, zero, suc, ◌%◌, ◌≡◌, ◌≢◌, refl, sym, ap, ◌∙◌, Bool, true, false, ◌&&◌, ◌||◌, not, ◌⊎◌, inl,
  inr, List, [], ◌∷◌, ◌++◌, get_or, take, drop, arith, Bool-cases,
}
use operating_systems_work.Pipe.{
  Pipe, pipe_size, is_full, is_empty, put, advance, Written, all_written, write_failed,
  write_blocked, pipewrite, Read, bytes, read_failed, read_blocked, copy_out, piperead,
}
use operating_systems_work.Pipe.Fifo.{IsValid, count, contents, put_lem, advance_lem}

-- What a call of `pipewrite` with the bytes `cs` has done when it returns or sleeps.
abbrev pub WritePost : Bool → List ℕ → Pipe → Written × Pipe → Type 0
WritePost killed cs p (all_written, q) = contents q ≡ contents p ++ cs
WritePost killed cs p (write_blocked rest, q) =
    (pre : List ℕ) × (cs ≡ pre ++ rest)
    × (contents q ≡ contents p ++ pre)
    × (count q ≡ pipe_size)
    × (q.readopen ≡ true)
    × (killed ≡ false)
WritePost killed cs p (write_failed, q) =
    (pre : List ℕ) × (rest : List ℕ) × (cs ≡ pre ++ rest)
    × (contents q ≡ contents p ++ pre)
    × (count q ≡ pipe_size)
    × ((q.readopen ≡ false) ⊎ (killed ≡ true))

full_count : (p : Pipe) → IsValid p → is_full p ≡ true → count p ≡ pipe_size
full_count p v h = ground arith

closed_or : (a b : Bool) → (not a || b) ≡ true → (a ≡ false) ⊎ (b ≡ true)
closed_or a b h = ground arith

open_and : (a b : Bool) → (not a || b) ≡ false → (a ≡ true) × (b ≡ false)
open_and a b h = ground arith

-- One byte more in front.
write_cons :
    (killed : Bool) (c : ℕ) (cs : List ℕ) (p : Pipe) (r : Written × Pipe)
    → contents (put c p) ≡ contents p ++ c ∷ []
    → WritePost killed cs (put c p) r
    → WritePost killed (c ∷ cs) p r
write_cons killed c cs p (all_written, q) e h =
    h ∙ ap (λ x. x ++ cs) e ∙ append_assoc (contents p) (c ∷ []) cs
write_cons killed c cs p (write_blocked rest, q) e (pre, s, h, f, o, k) = (
  c ∷ pre,
  ap (λ x. c ∷ x) s,
  h ∙ ap (λ x. x ++ pre) e ∙ append_assoc (contents p) (c ∷ []) pre,
  f,
  o,
  k,
)
write_cons killed c cs p (write_failed, q) e (pre, rest, s, h, f, o) = (
  c ∷ pre,
  rest,
  ap (λ x. c ∷ x) s,
  h ∙ ap (λ x. x ++ pre) e ∙ append_assoc (contents p) (c ∷ []) pre,
  f,
  o,
)

-- `pipewrite` keeps the pipe valid, and appends its bytes in order: all of them, or, when it finds
-- the pipe full, those before the ones that it sleeps with; it fails only on a full pipe, if the
-- reader is gone or the process has been killed.
pub pipewrite_lem :
    (killed : Bool) (cs : List ℕ) (p : Pipe)
    → IsValid p
    → IsValid (pipewrite killed cs p).1 × WritePost killed cs p (pipewrite killed cs p)
unfolding pipewrite
pipewrite_lem killed [] p v = (v, sym (append-nil (contents p)))
pipewrite_lem killed (c ∷ cs) p v = elim (Bool-cases (is_full p)) [
  | inr f ↦
      (let w = put_lem c p v f in
        let h = pipewrite_lem killed cs (put c p) w.0 in
        rw f (h.0, write_cons killed c cs p _ w.1 h.1))
  | inl f ↦ elim (Bool-cases (not p.readopen || killed)) [
    | inl g ↦
        rw (f, g)
          (v, ([], c ∷ cs, refl, sym (append-nil (contents p)), full_count p v f, closed_or _ _ g))
    | inr g ↦
        rw (f, g)
          (
            v,
            (
              [],
              refl,
              sym (append-nil (contents p)),
              full_count p v f,
              (open_and _ _ g).0,
              (open_and _ _ g).1,
            ),
          )
  ]
]

empty_contents : (p : Pipe) → IsValid p → is_empty p ≡ true → contents p ≡ []
empty_contents p v h = let e : count p ≡ 0 = ground arith in rw e refl

copy_out_lem :
    (n : ℕ) (p : Pipe)
    → IsValid p
    → IsValid (copy_out n p).1
      × ((copy_out n p).0 ≡ take n (contents p))
      × (contents (copy_out n p).1 ≡ drop n (contents p))
unfolding copy_out
copy_out_lem zero p v = (v, refl, refl)
copy_out_lem (suc n) p v = elim (Bool-cases (is_empty p)) [
  | inl e ↦ rw (e, empty_contents p v e) (v, refl, refl)
  | inr e ↦
      (let a = advance_lem p v e in
        let h = copy_out_lem n (advance p) a.0 in
        rw (e, a.1) (h.0, ap (λ x. get_or p.buf (p.nread % pipe_size) 0 ∷ x) h.1, h.2))
]

-- What a call of `piperead` for `n` bytes has done when it returns or sleeps.
abbrev pub ReadPost : Bool → ℕ → Pipe → Read × Pipe → Type 0
ReadPost killed n p (bytes cs, q) =
    (cs ≡ take n (contents p))
    × (contents q ≡ drop n (contents p))
    × ((p.writeopen ≡ true) → contents p ≢ [])
ReadPost killed n p (read_failed, q) =
    (contents p ≡ []) × (p.writeopen ≡ true) × (killed ≡ true) × (q ≡ p)
ReadPost killed n p (read_blocked, q) =
    (contents p ≡ []) × (p.writeopen ≡ true) × (killed ≡ false) × (q ≡ p)

both : (a b : Bool) → (a && b) ≡ true → (a ≡ true) × (b ≡ true)
both a b h = ground arith

nonempty :
    (p : Pipe)
    → IsValid p
    → (is_empty p && p.writeopen) ≡ false
    → p.writeopen ≡ true
    → contents p ≢ []
nonempty p v h o e = let f = (advance_lem p v (not_empty _ _ h o)).1 in cc
  where
    not_empty : (a b : Bool) → (a && b) ≡ false → b ≡ true → a ≡ false
    not_empty a b h o = ground arith

-- `piperead` keeps the pipe valid and takes the oldest bytes out, in order, as many as it wants or
-- as there are; it sleeps or fails exactly on an empty pipe whose writer is open, and fails if the
-- process has been killed.
pub piperead_lem :
    (killed : Bool) (n : ℕ) (p : Pipe)
    → IsValid p
    → IsValid (piperead killed n p).1 × ReadPost killed n p (piperead killed n p)
unfolding piperead
piperead_lem killed n p v = elim (Bool-cases (is_empty p && p.writeopen)) [
  | inl e ↦
      (let b = both _ _ e in
        elim (Bool-cases killed) [
          | inl k ↦ rw (e, k) (v, (empty_contents p v b.0, b.1, refl, refl))
          | inr k ↦ rw (e, k) (v, (empty_contents p v b.0, b.1, refl, refl))
        ])
  | inr e ↦ (let h = copy_out_lem n p v in rw e (h.0, (h.1, h.2, nonempty p v e)))
]

-- ===== src/Files/Pipes.antt =====
-- `pipealloc` of ass5/final_repo/pipe.c: two files for the ends of a pipe in a new page.
use operating_systems_work.Base.{
  ℕ, ◌≡◌, ◌≢◌, Bool, true, false, Option, none, some, List, ◌==◌, if◌then◌else◌, modify, get_elem?,
}
use operating_systems_work.Files.{File, fd_none, fd_pipe, first_ref, filealloc, fileclose}
use operating_systems_work.Pages.{Kmem, kalloc}

-- `(*f0)->type = FD_PIPE; ...`: an end of the pipe in page `p`, for reading or for writing.
abbrev pub end_of : ℕ → Bool → File → File
end_of p reading f = record f {
  type = fd_pipe;
  readable = reading;
  writable = if reading then false else true;
  pipe = p;
}

-- `if(*f0) fileclose(*f0);` at `bad`. The file has no type yet, so `fileclose` closes nothing else.
unfoldable pub close_new : Option ℕ → List File → Option (List File)
close_new none t = some t
close_new (some i) t = elim (fileclose i t) [ none ↦ none | some (f, t') ↦ some t' ]

-- The code at `bad`, where no page has been taken.
unfoldable pub undo :
    Option ℕ → Option ℕ → List File → Kmem → Option (Option (ℕ × ℕ × ℕ) × List File × Kmem)
undo f₀ f₁ t k = elim (close_new f₀ t) [
  | none ↦ none
  | some t' ↦ elim (close_new f₁ t') [ none ↦ none | some t'' ↦ some (none, t'', k) ]
]

-- The two files and the page, or -1 (`none`), with the tables; `none` is a panic. The stores into the
-- new page make the `Pipe.fresh` of the pipe and are no words of `Kmem` here.
unfoldable pub pipealloc : List File → Kmem → Option (Option (ℕ × ℕ × ℕ) × List File × Kmem)
pipealloc t k = elim (filealloc t) [
  | none ↦ undo none none t k
  | some (i, t₁) ↦ elim (filealloc t₁) [
    | none ↦ undo (some i) none t₁ k
    | some (j, t₂) ↦
        (let (p, k') = kalloc k in
          if p == 0
          then undo (some i) (some j) t₂ k'
          else some (some (i, j, p), modify (modify t₂ i (end_of p true)) j (end_of p false), k'))
  ]
]

-- A slot that is not in use has no type.
abbrev pub Idle : List File → Type 0
Idle t = (i : ℕ) (f : File) → get_elem? t i ≡ some f → f.ref ≡ 0 → f.type ≡ fd_none

-- An end of the new pipe in a slot that was not in use.
abbrev pub NewEnd : List File → List File → ℕ → ℕ → Bool → Type 0
NewEnd t t' p i reading =
    (f : File) × (get_elem? t i ≡ some f)
    × (f.ref ≡ 0)
    × (get_elem? t' i ≡ some (end_of p reading (first_ref f)))

abbrev pub PipeallocPost :
    List File → Kmem → Option (Option (ℕ × ℕ × ℕ) × List File × Kmem) → Type 0
PipeallocPost t k none = ⊥
PipeallocPost t k (some (none, t', k')) = (t' ≡ t) × (k' ≡ k)
PipeallocPost t k (some (some (i, j, p), t', k')) =
    (i ≢ j)
    × (p ≢ 0)
    × (◌≡◌ {A = ℕ × Kmem} (p, k') (kalloc k))
    × NewEnd t t' p i true
    × NewEnd t t' p j false
    × ((n : ℕ) → i ≢ n → j ≢ n → get_elem? t' n ≡ get_elem? t n)

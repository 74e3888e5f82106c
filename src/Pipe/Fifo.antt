-- ===== src/Pipe/Fifo.antt =====
-- A pipe is a queue of at most PIPESIZE bytes, also when its counters wrap around.
use operating_systems_work.Base.{
  ℕ, zero, suc, ◌+◌, ◌-◌, ◌%◌, ◌<◌, ◌≤◌, ◌≡◌, ◌≢◌, refl, ap, ap₂, ◌∙◌, false, List, [], ◌∷◌, ◌++◌,
  get_or, set, length, length-set, arith,
}
use operating_systems_work.Pipe.{Pipe, pipe_size, uint_mod, is_full, is_empty, put, advance, fresh}

-- The bytes in the pipe: the counters are taken modulo 2^32.
abbrev pub count : Pipe → ℕ
count p = (p.nwrite + uint_mod - p.nread) % uint_mod

-- The `n` bytes from counter `h` on.
abbrev pub window : List ℕ → ℕ → ℕ → List ℕ
window buf h zero = []
window buf h (suc n) = get_or buf (h % pipe_size) 0 ∷ window buf ((h + 1) % uint_mod) n

abbrev pub contents : Pipe → List ℕ
contents p = window p.buf p.nread (count p)

pub record IsValid (p : Pipe) : Type 0 where
  pub storage : length p.buf ≡ pipe_size
  pub read_small : p.nread < uint_mod
  pub write_small : p.nwrite < uint_mod
  pub bounded : count p ≤ pipe_size

get_or-set_self : (xs : List ℕ) (i v d : ℕ) → i < length xs → get_or (set xs i v) i d ≡ v
get_or-set_self [] i v d h = absurd (omega arith)
get_or-set_self (x ∷ xs) zero v d h = refl
get_or-set_self (x ∷ xs) (suc i) v d h = get_or-set_self xs i v d (omega arith)

get_or-set_ne : (xs : List ℕ) (i j v d : ℕ) → i ≢ j → get_or (set xs i v) j d ≡ get_or xs j d
get_or-set_ne [] i j v d h = refl
get_or-set_ne (x ∷ xs) zero zero v d h = absurd (h refl)
get_or-set_ne (x ∷ xs) zero (suc j) v d h = refl
get_or-set_ne (x ∷ xs) (suc i) zero v d h = refl
get_or-set_ne (x ∷ xs) (suc i) (suc j) v d h = get_or-set_ne xs i j v d (λ e. h (ap suc e))

-- A byte written just past a window of fewer than PIPESIZE bytes extends it.
window-set :
    (buf : List ℕ) (x n h : ℕ)
    → length buf ≡ pipe_size
    → n < pipe_size
    → (i : ℕ) → i ≡ (h + n) % uint_mod % pipe_size
    → window (set buf i x) h (suc n) ≡ window buf h n ++ x ∷ []
window-set buf x zero h l b i e =
    let q : i ≡ h % pipe_size = omega arith in
    rw q (ap (λ r. r ∷ []) (get_or-set_self buf (h % pipe_size) x 0 (omega arith)))
window-set buf x (suc n) h l b i e =
    ap₂ ◌∷◌ (get_or-set_ne buf i (h % pipe_size) x 0 (omega arith))
      (window-set buf x n ((h + 1) % uint_mod) l (omega arith) i (omega arith))

-- The count in a form without subtraction.
count_lem : (p : Pipe) → IsValid p → p.nwrite ≡ (p.nread + count p) % uint_mod
count_lem p v = omega arith

room : (p : Pipe) → IsValid p → is_full p ≡ false → count p < pipe_size
room p v f = ground arith

pub length-window : (buf : List ℕ) (h n : ℕ) → length (window buf h n) ≡ n
length-window buf h zero = refl
length-window buf h (suc n) = ap suc (length-window buf ((h + 1) % uint_mod) n)

-- A byte put in a valid pipe that is not full leaves it valid, and is the last of its contents.
pub put_lem :
    (c : ℕ) (p : Pipe)
    → IsValid p
    → is_full p ≡ false
    → IsValid (put c p) × (contents (put c p) ≡ contents p ++ c ∷ [])
unfolding put
put_lem c p v f = (
  record {
    storage = length-set p.buf _ c ∙ v.storage;
    read_small = v.read_small;
    write_small = omega arith;
    bounded = omega (arith, grows, room p v f);
  },
  rw grows (
      window-set p.buf c (count p) p.nread v.storage (room p v f) (p.nwrite % pipe_size)
        (omega arith)),
)
  where
    grows : count (put c p) ≡ suc (count p)
    grows = omega (arith, room p v f)

-- In a valid pipe that is not empty, the byte at `nread` is the first of the contents, and after
-- `nread++` the pipe is valid and holds the others.
pub advance_lem :
    (p : Pipe)
    → IsValid p
    → is_empty p ≡ false
    → IsValid (advance p)
      × (contents p ≡ get_or p.buf (p.nread % pipe_size) 0 ∷ contents (advance p))
unfolding advance
advance_lem p v e = (
  record {
    storage = v.storage;
    read_small = omega arith;
    write_small = v.write_small;
    bounded = omega (arith, shrinks);
  },
  rw shrinks refl,
)
  where
    ne : p.nread ≢ p.nwrite
    ne = ground arith

    shrinks : count p ≡ suc (count (advance p))
    shrinks = omega (arith, ne)

abbrev pub zeros : ℕ → List ℕ
zeros zero = []
zeros (suc n) = 0 ∷ zeros n

pub length-zeros : (n : ℕ) → length (zeros n) ≡ n
length-zeros zero = refl
length-zeros (suc n) = ap suc (length-zeros n)

-- `pipealloc` makes a valid pipe.
pub fresh-IsValid : (page : List ℕ) → length page ≡ pipe_size → IsValid (fresh page)
unfolding fresh
fresh-IsValid page h = record {
  storage = h;
  read_small = omega arith;
  write_small = omega arith;
  bounded = omega arith;
}

-- ===== src/Log/Reserve.antt =====
-- The reservations of `begin_op`, with any number of operations in progress.
use operating_systems_work.Base.{
  ℕ, zero, suc, ◌+◌, ◌-◌, ◌*◌, ◌<◌, ◌≤◌, ◌≡◌, refl, ◌∙◌, Bool, true, false, some, List, [], ◌∷◌,
  ◌==◌, arith, Bool-cases, length, get_elem?, set, inl, inr,
}
use operating_systems_work.Log.{
  Log, max_op_blocks, log_size, begin_op, end_op, end_commit, log_write, absorb,
}

-- The log, and for each operation between its `begin_op` and its `end_op` how often it has
-- called `log_write`.
pub record Ops : Type 0 where
  pub log : Log
  pub used : List ℕ

abbrev pub remove : List ℕ → ℕ → List ℕ
remove [] i = []
remove (u ∷ us) zero = us
remove (u ∷ us) (suc i) = u ∷ remove us i

-- What an operation does to the log; each one writes at most MAXOPBLOCKS blocks.
pub data Step (s : Ops) : Ops → Type 0 where
  begins : (l : Log) → begin_op s.log ≡ some l → Step s (record { log = l; used = 0 ∷ s.used })
  writes :
      (i u b : ℕ) (l : Log)
      → get_elem? s.used i ≡ some u
      → u < max_op_blocks
      → log_write b s.log ≡ some l
      → Step s (record { log = l; used = set s.used i (u + 1) })
  ends :
      (i u : ℕ) (commits : Bool) (l : Log)
      → get_elem? s.used i ≡ some u
      → end_op s.log ≡ some (commits, l)
      → Step s (record { log = l; used = remove s.used i })
  committed : s.log.committing ≡ true → Step s (record { log = end_commit s.log; used = s.used })

pub data Reach (s : Ops) : Ops → Type 0 where
  here : Reach s s
  next : {t u : Ops} → Reach s t → Step t u → Reach s u

-- What the operations in progress may still write.
abbrev pub reserved : List ℕ → ℕ
reserved [] = 0
reserved (u ∷ us) = (max_op_blocks - u) + reserved us

pub record Reserved (s : Ops) : Type 0 where
  pub counted : s.log.outstanding ≡ length s.used
  pub fits : length s.log.lh + reserved s.used ≤ log_size
  pub quiet : s.log.committing ≡ true → s.used ≡ []

length-absorb : (b : ℕ) (lh : List ℕ) → length (absorb b lh) ≤ length lh + 1
unfolding absorb
length-absorb b [] = omega arith
length-absorb b (c ∷ cs) = ground (arith, length-absorb b cs)

reserved-set :
    (us : List ℕ) (i u : ℕ)
    → get_elem? us i ≡ some u
    → u < max_op_blocks
    → (reserved (set us i (u + 1)) + 1 ≡ reserved us) × (length (set us i (u + 1)) ≡ length us)
reserved-set [] i u e h = absurd (ground arith)
reserved-set (v ∷ us) zero u e h = ground arith
reserved-set (v ∷ us) (suc i) u e h = ground (arith, reserved-set us i u e h)

reserved-remove :
    (us : List ℕ) (i u : ℕ)
    → get_elem? us i ≡ some u
    → (reserved (remove us i) ≤ reserved us) × (length (remove us i) + 1 ≡ length us)
reserved-remove [] i u e = absurd (ground arith)
reserved-remove (v ∷ us) zero u e = ground arith
reserved-remove (v ∷ us) (suc i) u e = ground (arith, reserved-remove us i u e)

reserved-length : (us : List ℕ) → reserved us ≤ length us * max_op_blocks
reserved-length [] = omega arith
reserved-length (u ∷ us) = omega (arith, reserved-length us)

nil_of_length : (us : List ℕ) → length us ≡ 0 → us ≡ []
nil_of_length [] h = refl
nil_of_length (u ∷ us) h = absurd (omega arith)

-- Every step keeps the reservations.
pub Step-Reserved : {s t : Ops} → Reserved s → Step s t → Reserved t
unfolding begin_op log_write end_op end_commit
Step-Reserved {s} r (begins l e) =
    ground (arith, r.counted, r.fits, r.quiet, reserved-length s.used)
Step-Reserved {s} r (writes i u b l g h e) =
    ground
      (arith, r.counted, r.fits, r.quiet, reserved-set s.used i u g h, length-absorb b s.log.lh)
Step-Reserved {s} r (ends i u c l g e) = ground (
  arith,
  r.counted,
  r.fits,
  r.quiet,
  reserved-remove s.used i u g,
  nil_of_length (remove s.used i),
)
Step-Reserved {s} r (committed e) = ground (arith, r.counted, r.fits, r.quiet)

-- The log as `initlog` leaves it, with a log of `size` blocks on the disk.
abbrev pub start : ℕ → Ops
start size = record {
  log = record { lh = []; size = size; outstanding = 0; committing = false };
  used = [];
}

-- Every state that a run of operations reaches keeps the reservations: no more blocks are logged
-- or reserved than the log has.
pub Reach-Reserved : {size : ℕ} {s : Ops} → Reach (start size) s → Reserved s
Reach-Reserved here = record { counted = refl; fits = omega arith; quiet = λ e. refl }
Reach-Reserved (next r st) = Step-Reserved (Reach-Reserved r) st

Step-size : {s t : Ops} → Step s t → t.log.size ≡ s.log.size
unfolding begin_op log_write end_op end_commit
Step-size (begins l e) = ground arith
Step-size (writes i u b l g h e) = ground arith
Step-size (ends i u c l g e) = ground arith
Step-size (committed e) = refl

Reach-size : {size : ℕ} {s : Ops} → Reach (start size) s → s.log.size ≡ size
Reach-size here = refl
Reach-size (next r st) = Step-size st ∙ Reach-size r

reserved_pos :
    (us : List ℕ) (i u : ℕ) → get_elem? us i ≡ some u → u < max_op_blocks → 0 < reserved us
reserved_pos [] i u e h = absurd (ground arith)
reserved_pos (v ∷ us) zero u e h = ground arith
reserved_pos (v ∷ us) (suc i) u e h = omega (arith, reserved_pos us i u e h)

length_pos : (us : List ℕ) (i u : ℕ) → get_elem? us i ≡ some u → 0 < length us
length_pos [] i u e = absurd (ground arith)
length_pos (v ∷ us) i u e = omega arith

-- If the log on the disk has more than LOGSIZE blocks, then whatever operations have run, an
-- operation in progress that has written fewer than MAXOPBLOCKS blocks can write one more, and
-- its `end_op` does not panic.
pub no_panic :
    {size : ℕ} {s : Ops} (i u b : ℕ)
    → log_size < size
    → Reach (start size) s
    → get_elem? s.used i ≡ some u
    → u < max_op_blocks
    → ((l : Log) × (log_write b s.log ≡ some l))
      × ((c : Bool) × (l : Log) × (end_op s.log ≡ some (c, l)))
unfolding log_write end_op
no_panic {size} {s} i u b big r g h = (written, ended)
  where
    v : Reserved s
    v = Reach-Reserved r

    active : s.log.committing ≡ false
    active = ground (arith, v.quiet, length_pos s.used i u g)

    written : (l : Log) × (log_write b s.log ≡ some l)
    written = (
      record (s.log) { lh = absorb b s.log.lh },
      ground (
        arith,
        v.counted,
        v.fits,
        Reach-size r,
        reserved_pos s.used i u g h,
        length_pos s.used i u g,
      ),
    )

    ended : (c : Bool) × (l : Log) × (end_op s.log ≡ some (c, l))
    ended = elim (Bool-cases (s.log.outstanding - 1 == 0)) [
      | inl e ↦ (
        true,
        record (s.log) { outstanding = s.log.outstanding - 1; committing = true },
        rw (active, e) refl,
      )
      | inr e ↦ (false, record (s.log) { outstanding = s.log.outstanding - 1 }, rw (active, e) refl)
    ]

-- While a commit is under way, no operation is in progress.
pub commit_alone :
    {size : ℕ} {s : Ops}
    → Reach (start size) s
    → s.log.committing ≡ true
    → (s.used ≡ []) × (s.log.outstanding ≡ 0)
commit_alone r e = let v = Reach-Reserved r in (v.quiet e, ground (arith, v.counted, v.quiet e))

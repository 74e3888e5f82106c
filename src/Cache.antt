-- ===== src/Cache.antt =====
-- The buffer cache of ass5/final_repo/bio.c.
pub mod Unique
pub mod Release
pub mod Get
use operating_systems_work.Base.{
  ℕ, zero, suc, ◌+◌, ◌-◌, ◌%◌, ◌^◌, Bool, true, false, ◌&&◌, not, Option, none, some, List, [], ◌∷◌,
  ◌==◌, if◌then◌else◌, get_or, set,
}

-- `struct buf` without its lock, links and data: the list from `bcache.head.next` on is the order of the
-- buffers. `valid` and `dirty` are the two bits of `flags`.
pub record Buf : Type 0 where
  pub dev : ℕ
  pub blockno : ℕ
  pub valid : Bool
  pub dirty : Bool
  pub refcnt : ℕ

abbrev pub uint_mod : ℕ
uint_mod = 2 ^ 32

abbrev pub is_block : ℕ → ℕ → Buf → Bool
is_block dev blockno b = (b.dev == dev) && (b.blockno == blockno)

abbrev pub is_spare : Buf → Bool
is_spare b = (b.refcnt == 0) && not b.dirty

abbrev pub add_ref : Buf → Buf
add_ref b = record b { refcnt = (b.refcnt + 1) % uint_mod }

abbrev pub recycle : ℕ → ℕ → Buf → Buf
recycle dev blockno b = record b {
  dev = dev;
  blockno = blockno;
  valid = false;
  dirty = false;
  refcnt = 1;
}

-- The results of a search behind a buffer that it has passed.
abbrev pub behind : Buf → Option (ℕ × List Buf) → Option (ℕ × List Buf)
behind b none = none
behind b (some (i, bs)) = some (suc i, b ∷ bs)

-- The first loop of `bget`, from the head of the list: the place of the buffer, and the list.
unfoldable pub find_cached : ℕ → ℕ → List Buf → Option (ℕ × List Buf)
find_cached dev blockno [] = none
find_cached dev blockno (b ∷ bs) =
    let rest = find_cached dev blockno bs in
    if is_block dev blockno b then some (0, add_ref b ∷ bs) else behind b rest

-- The second loop, from the end of the list.
unfoldable pub find_spare : ℕ → ℕ → List Buf → Option (ℕ × List Buf)
find_spare dev blockno [] = none
find_spare dev blockno (b ∷ bs) =
    let rest = find_spare dev blockno bs in
    let this = if is_spare b then some (0, recycle dev blockno b ∷ bs) else none in
    elim rest [ none ↦ this | some r ↦ behind b (some r) ]

-- `bget` before it waits for the lock of the buffer; `none` is the panic "bget: no buffers".
unfoldable pub bget : ℕ → ℕ → List Buf → Option (ℕ × List Buf)
bget dev blockno bs = elim (find_cached dev blockno bs) [
  | none ↦ find_spare dev blockno bs
  | some r ↦ some r
]

abbrev pub remove : ℕ → List Buf → List Buf
remove i [] = []
remove zero (b ∷ bs) = bs
remove (suc i) (b ∷ bs) = b ∷ remove i bs

abbrev pub no_buf : Buf
no_buf = record { dev = 0; blockno = 0; valid = false; dirty = false; refcnt = 1 }

abbrev pub drop_ref : Buf → Buf
drop_ref b = record b { refcnt = (b.refcnt + uint_mod - 1) % uint_mod }

-- `brelse` of the buffer at place `i`, after its lock has been released.
unfoldable pub brelse : ℕ → List Buf → List Buf
brelse i bs =
    let b = drop_ref (get_or bs i no_buf) in if b.refcnt == 0 then b ∷ remove i bs else set bs i b

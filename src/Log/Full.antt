-- ===== src/Log/Full.antt =====
-- The log that mkfs.c makes has LOGSIZE blocks, its header among them.
use operating_systems_work.Base.{
  ℕ, ◌+◌, ◌<◌, ◌≤◌, ◌≡◌, refl, sym, ap, ◌∙◌, false, Option, none, some, List, [], ◌∷◌, ◌++◌, arith,
  length, length-append,
}
use mathlib.Core.List.{append-nil, append_assoc}
use operating_systems_work.Log.{Log, log_size, begin_op, log_write, absorb}
use operating_systems_work.Log.Install.{holds}

-- `log_write` for each block in turn.
abbrev pub log_writes : List ℕ → Log → Option Log
log_writes [] l = some l
log_writes (b ∷ bs) l = elim (log_write b l) [ none ↦ none | some m ↦ log_writes bs m ]

-- No block is in the log or twice in the list.
abbrev pub Fresh : List ℕ → List ℕ → Type 0
Fresh [] lh = Unit
Fresh (b ∷ bs) lh = (holds b lh ≡ false) × Fresh bs (lh ++ b ∷ [])

absorb_fresh : (b : ℕ) (lh : List ℕ) → holds b lh ≡ false → absorb b lh ≡ lh ++ b ∷ []
unfolding absorb
absorb_fresh b [] h = refl
absorb_fresh b (c ∷ cs) h = ground (arith, absorb_fresh b cs)

abbrev pub three_ops : List ℕ → Log
three_ops lh = record { lh = lh; size = log_size; outstanding = 3; committing = false }

write_fresh :
    (b : ℕ) (lh : List ℕ)
    → holds b lh ≡ false
    → length lh < 29
    → log_write b (three_ops lh) ≡ some (three_ops (lh ++ b ∷ []))
unfolding log_write
write_fresh b lh h l = ground (arith, absorb_fresh b lh h)

length-snoc : (lh : List ℕ) (b : ℕ) → length (lh ++ b ∷ []) ≡ length lh + 1
length-snoc lh b = length-append lh (b ∷ [])

write_all :
    (bs lh : List ℕ)
    → Fresh bs lh
    → length lh + length bs ≤ 29
    → log_writes bs (three_ops lh) ≡ some (three_ops (lh ++ bs))
write_all [] lh f l = ap (λ x. some (three_ops x)) (sym (append-nil lh))
write_all (b ∷ bs) lh f l =
    rw (write_fresh b lh f.0 (omega arith), log_writes)
      (write_all bs (lh ++ b ∷ []) f.1 (omega (arith, length-snoc lh b))
        ∙ ap (λ x. some (three_ops x)) (append_assoc lh (b ∷ []) bs))

-- With a log of LOGSIZE blocks, `begin_op` lets three operations in, which may write ten blocks
-- each; but once they have written 29 different blocks, `log_write` of any block panics.
pub overflow :
    (bs : List ℕ) (b : ℕ)
    → Fresh bs []
    → length bs ≡ 29
    → ((l : Log) × (begin_op (record (three_ops []) { outstanding = 2 }) ≡ some l)
        × (log_writes bs l ≡ some (three_ops bs)))
      × (log_write b (three_ops bs) ≡ none)
unfolding begin_op log_write
overflow bs b f l = ((three_ops [], refl, write_all bs [] f (omega arith)), ground arith)

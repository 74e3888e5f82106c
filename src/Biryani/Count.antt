-- ===== src/Biryani/Count.antt =====
-- The students that have a slot, and those that are left to feed.
use operating_systems_work.Base.{ℕ, ◌+◌, ◌-◌, ◌≡◌, ap, ◌∙◌, some, pos, arith, ℕ_discrete, length}
use operating_systems_work.Biryani.Moves.{TableAt, State, initial, set_at}
use operating_systems_work.Biryani.Tables.{Move, move, Reach, here, then_move}

-- Each student is coming, in `go_fetch_slot` or has a slot; the count of those to feed is that of the
-- first two; and no container has left before it is 0.
pub record IsCounted (k : ℕ) (s : State) : Type 0 where
  pub all : s.coming + s.standing + length s.slots ≡ k
  pub left : s.students_left_to_feed ≡ pos (s.coming + s.standing)
  pub gone : (i : ℕ) → s.table_at i ≡ TableAt.gone → s.coming + s.standing ≡ 0

set_gone :
    (f : ℕ → TableAt) (j : ℕ) (x : TableAt) (c : ℕ)
    → ((i : ℕ) → f i ≡ TableAt.gone → c ≡ 0)
    → (x ≡ TableAt.gone → c ≡ 0)
    → (i : ℕ) → set_at f j x i ≡ TableAt.gone
    → c ≡ 0
set_gone f j x c h g i e = elim (ℕ_discrete i j) [
  | yes q ↦ ground arith
  | no q ↦ ground (arith, h i)
]

move-IsCounted :
    (a : Move) (k : ℕ) (s t : State) → IsCounted k s → move a s ≡ some t → IsCounted k t
move-IsCounted (Move.chef_starts i) k s t v h = ground arith
move-IsCounted (Move.chef_loops i a b) k s t v h = ground arith
move-IsCounted (Move.chef_makes i) k s t v h = ground arith
move-IsCounted (Move.chef_serves i) k s t v h = ground arith
move-IsCounted (Move.table_starts i) k s t v h = ground (arith, set_gone s.table_at i)
move-IsCounted (Move.table_ends i) k s t v h = ground (arith, set_gone s.table_at i)
move-IsCounted (Move.table_gets i j) k s t v h = ground (arith, set_gone s.table_at i)
move-IsCounted (Move.table_leaves i) k s t v h = ground (arith, set_gone s.table_at i)
move-IsCounted (Move.table_offers i rand) k s t v h = ground (arith, set_gone s.table_at i)
move-IsCounted (Move.table_returns i) k s t v h = ground (arith, set_gone s.table_at i)
move-IsCounted Move.student_comes k s t v h = ground arith
move-IsCounted (Move.student_sits j) k s t v h = ground arith

Reach-IsCounted : (k : ℕ) (s t : State) → IsCounted k s → Reach s t → IsCounted k t
Reach-IsCounted k s t v here = v
Reach-IsCounted k s t v (then_move {t = u} r a h) =
    move-IsCounted a k u t (Reach-IsCounted k s u v r) h

initial-IsCounted : (m n k : ℕ) → IsCounted k (initial m n k)
initial-IsCounted m n k = record {
  all = omega arith;
  left = ap pos (omega arith);
  gone = λ i h. absurd (ground arith);
}

-- In every run, `students_left_to_feed` is the number of the `k` students who have no slot yet, and when
-- a container has left then each of them has a slot.
pub fed_lem :
    (m n k : ℕ) (s : State)
    → Reach (initial m n k) s
    → (s.students_left_to_feed ≡ pos (k - length s.slots))
      × ((i : ℕ) → s.table_at i ≡ TableAt.gone → length s.slots ≡ k)
fed_lem m n k s r =
    let v = Reach-IsCounted k (initial m n k) s (initial-IsCounted m n k) r in
    (v.left ∙ ap pos (omega (arith, v.all)), λ i h. omega (arith, v.all, v.gone i h))

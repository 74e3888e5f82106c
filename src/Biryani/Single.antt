-- ===== src/Biryani/Single.antt =====
-- A mess with one container.
use operating_systems_work.Base.{
  ℕ, ◌+◌, ◌-◌, ◌<◌, ◌≤◌, ◌≡◌, ◌≢◌, refl, sym, ap, ◌∙◌, Bool, true, false, some, ℤ, pos, negsuc,
  arith, length,
}
use operating_systems_work.Biryani.Moves.{TableAt, State, initial}
use operating_systems_work.Biryani.Tables.{Move, move, Reach, here, then_move}
use operating_systems_work.Biryani.Last.{IsBehind, move-IsBehind, initial-IsBehind, move_n}
use operating_systems_work.Biryani.Count.{fed_lem}

-- How many students can have a slot, by the place of the container's thread, its `load` and its
-- `students_to_feed`.
abbrev Fed : TableAt → Bool → ℤ → ℕ → Type 0
Fed TableAt.created false left fed = (fed ≡ 0) × (left ≡ pos 0)
Fed TableAt.created true left fed = fed ≤ 1
Fed TableAt.looping load left fed = (fed ≤ 1) × (load ≡ true)
Fed (TableAt.holding food) load left fed = (fed ≤ 1) × (load ≡ true)
Fed (TableAt.waiting food) false (pos left) fed = (0 < left) × (fed + left ≤ 10)
Fed (TableAt.waiting food) false (negsuc left) fed = ⊥
Fed (TableAt.waiting food) true left fed = fed ≤ 10
Fed TableAt.gone load left fed = (fed ≤ 1) × (load ≡ true)

pub record IsSingle (s : State) : Type 0 where
  pub one : s.n ≡ 1
  pub behind : IsBehind s
  pub fed :
      Fed (s.table_at 0) (s.container 0).load (s.container 0).students_to_feed (length s.slots)

move-Fed :
    (a : Move) (s t : State)
    → IsSingle s
    → move a s ≡ some t
    → Fed (t.table_at 0) (t.container 0).load (t.container 0).students_to_feed (length t.slots)
move-Fed (Move.chef_starts i) s t v h = ground arith
move-Fed (Move.chef_loops i a b) s t v h = ground arith
move-Fed (Move.chef_makes i) s t v h = ground arith
move-Fed (Move.chef_serves i) s t v h = ground arith
move-Fed (Move.table_starts i) s t v h = ground arith
move-Fed (Move.table_ends i) s t v h = ground arith
move-Fed (Move.table_gets i j) s t v h = ground arith
move-Fed (Move.table_leaves i) s t v h = ground arith
move-Fed (Move.table_offers i rand) s t v h = ground arith
move-Fed (Move.table_returns i) s t v h =
    (let e : (s.container 0).container_number ≡ 1 = v.behind.numbers 0 (omega (arith, v.one)) in
      let g : (s.container 1).load ≡ false =
        ap (λ x. (s.container x).load) (sym v.one) ∙ v.behind.not_loading in
      ground arith)
move-Fed Move.student_comes s t v h = ground arith
move-Fed (Move.student_sits j) s t v h = ground arith

Reach-IsSingle : (s t : State) → IsSingle s → Reach s t → IsSingle t
Reach-IsSingle s t v here = v
Reach-IsSingle s t v (then_move {t = u} r a h) =
    let w = Reach-IsSingle s u v r in
    record {
      one = move_n a u t h ∙ w.one;
      behind = move-IsBehind a u t w.behind h;
      fed = move-Fed a u t w h;
    }

Fed-at_most : (a : TableAt) (load : Bool) (left : ℤ) (fed : ℕ) → Fed a load left fed → fed ≤ 10
Fed-at_most TableAt.created false left fed h = omega arith
Fed-at_most TableAt.created true left fed h = omega arith
Fed-at_most TableAt.looping load left fed h = omega arith
Fed-at_most (TableAt.holding food) load left fed h = omega arith
Fed-at_most (TableAt.waiting food) false (pos left) fed h = omega arith
Fed-at_most (TableAt.waiting food) false (negsuc left) fed h = absurd h
Fed-at_most (TableAt.waiting food) true left fed h = h
Fed-at_most TableAt.gone load left fed h = omega arith

-- With a single container, in every run at most ten students ever get a slot, whatever the number of
-- chefs and of students: so with eleven or more the program, which waits for all students, never
-- ends.
pub one_container_lem :
    (m k : ℕ) (s : State)
    → Reach (initial m 1 k) s
    → (length s.slots ≤ 10) × (10 < k → s.students_left_to_feed ≢ pos 0)
one_container_lem m k s r =
    let v =
      Reach-IsSingle (initial m 1 k) s
        (record { one = refl; behind = initial-IsBehind m 1 k; fed = (refl, refl) }) r in
    let b =
      Fed-at_most (s.table_at 0) (s.container 0).load (s.container 0).students_to_feed
        (length s.slots) v.fed in
    (b, λ g e. clash g b (sym (fed_lem m 1 k s r).0 ∙ e))
  where
    clash : 10 < k → length s.slots ≤ 10 → pos (k - length s.slots) ≡ pos 0 → ⊥
    clash g b e = ground arith

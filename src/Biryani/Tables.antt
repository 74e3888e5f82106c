-- ===== src/Biryani/Tables.antt =====
-- The moves of the containers and the students, and the runs of the simulation.
use operating_systems_work.Base.{
  ℕ, ◌+◌, ◌-◌, ◌≡◌, true, false, not, ◌&&◌, ◌∷◌, Option, none, some, ltb, if◌then◌else◌, min, ℤ,
  pos, negsuc, sub, is_positive,
}
use operating_systems_work.Biryani.Moves.{
  Container, TableAt, State, get_random_number_between, set_at, start_cooking, chef_loop,
  make_biryani, serve_biryani,
}

-- The start of `start_fetching`.
abbrev pub start_fetching : ℕ → State → Option State
start_fetching i s = elim (s.table_at i) [
  | TableAt.created ↦ some (record s {
    container =
        set_at s.container i
          (record (s.container i) { load = true; lock = false; students_to_feed = pos 0 });
    table_at = set_at s.table_at i TableAt.looping;
  })
  | other ↦ none
]

-- The test of the outer loop, where it ends the thread.
abbrev pub fetching_ends : ℕ → State → Option State
fetching_ends i s = elim (s.table_at i) [
  | TableAt.looping ↦
      if is_positive s.students_left_to_feed
      then none
      else some (record s { table_at = set_at s.table_at i TableAt.gone })
  | other ↦ none
]

-- A vessel of chef `j` is given away.
abbrev pub give_vessel : ℕ → State → State
give_vessel j s =
    let left = sub (s.c j).r 1 in
    record s {
      c = set_at s.c j (record (s.c j) {
        r = left;
        cooking = if is_positive left then (s.c j).cooking else true;
        lock = false;
      });
    }

-- `get_biryani_from_handler`, up to the chef `j` that its search finds, which can be any.
abbrev pub get_biryani_from_handler : ℕ → ℕ → State → Option State
get_biryani_from_handler i j s = elim (s.table_at i) [
  | TableAt.looping ↦
      if not s.mutex_for_chef_container
        && is_positive s.students_left_to_feed
        && ltb j s.m
        && not (s.c j).cooking
        && not (s.c j).lock
      then some
          (record (give_vessel j s) { table_at = set_at s.table_at i (TableAt.holding (s.c j).p) })
      else none
  | other ↦ none
]

-- The ends of the thread in `get_biryani_from_handler`, which leave the mutex locked.
abbrev pub handler_ends : ℕ → State → Option State
handler_ends i s = elim (s.table_at i) [
  | TableAt.looping ↦
      if not s.mutex_for_chef_container && not (is_positive s.students_left_to_feed)
      then some (record s {
        mutex_for_chef_container = true;
        table_at = set_at s.table_at i TableAt.gone;
      })
      else none
  | other ↦ none
]

-- `num`, where the number of students left is `left`.
abbrev pub portion : ℕ → ℤ → ℕ → ℕ
portion rand (pos left) food = min (min (get_random_number_between 1 (pos 10) rand) left) food
portion rand (negsuc left) food = 0

-- A round of the inner loop of `start_fetching`, up to `ready_to_serve`, or its end.
abbrev pub serve_round : ℕ → ℕ → State → Option State
serve_round i rand s = elim (s.table_at i) [
  | TableAt.holding food ↦
      let num = portion rand s.students_left_to_feed food in
      some (
        if ltb 0 food && is_positive s.students_left_to_feed
        then record s {
          container =
              set_at s.container i
                (record (s.container i) { students_to_feed = pos num; load = false; lock = false });
          table_at = set_at s.table_at i (TableAt.waiting (food - num));
        }
        else record s { table_at = set_at s.table_at i TableAt.looping })
  | other ↦ none
]

-- The end of the wait in `ready_to_serve`, which looks at `container[container_number]`.
abbrev pub ready_to_serve : ℕ → State → Option State
ready_to_serve i s = elim (s.table_at i) [
  | TableAt.waiting food ↦
      if (s.container (s.container i).container_number).load
      then some (record s { table_at = set_at s.table_at i (TableAt.holding food) })
      else none
  | other ↦ none
]

-- A round of the loop of `bring_all_students`.
abbrev pub bring_student : State → Option State
bring_student s =
    if ltb 0 s.coming
    then some (record s { coming = s.coming - 1; standing = s.standing + 1 })
    else none

-- What `go_fetch_slot` does to the container that it finds.
abbrev pub take_slot : Container → Container
take_slot t =
    let left = sub t.students_to_feed 1 in
    record t { students_to_feed = left; load = not (is_positive left); lock = false }

-- `go_fetch_slot` of a student, up to the container `j` that its search finds, which can be any.
abbrev pub go_fetch_slot : ℕ → State → Option State
go_fetch_slot j s =
    if ltb 0 s.standing && ltb j s.n && not (s.container j).load && not (s.container j).lock
    then some (record s {
      container = set_at s.container j (take_slot (s.container j));
      students_left_to_feed = sub s.students_left_to_feed 1;
      standing = s.standing - 1;
      slots = (s.container j).container_number ∷ s.slots;
    })
    else none

-- A move of some thread, with the random numbers that it draws and the one that its search finds.
pub data Move : Type 0 where
  chef_starts : ℕ → Move
  chef_loops : ℕ → ℕ → ℕ → Move
  chef_makes : ℕ → Move
  chef_serves : ℕ → Move
  table_starts : ℕ → Move
  table_ends : ℕ → Move
  table_gets : ℕ → ℕ → Move
  table_leaves : ℕ → Move
  table_offers : ℕ → ℕ → Move
  table_returns : ℕ → Move
  student_comes : Move
  student_sits : ℕ → Move

-- The threads of the chefs and the containers have the numbers below `m` and `n`.
abbrev pub move : Move → State → Option State
move (chef_starts i) s = if ltb i s.m then start_cooking i s else none
move (chef_loops i a b) s = if ltb i s.m then chef_loop i a b s else none
move (chef_makes i) s = if ltb i s.m then make_biryani i s else none
move (chef_serves i) s = if ltb i s.m then serve_biryani i s else none
move (table_starts i) s = if ltb i s.n then start_fetching i s else none
move (table_ends i) s = if ltb i s.n then fetching_ends i s else none
move (table_gets i j) s = if ltb i s.n then get_biryani_from_handler i j s else none
move (table_leaves i) s = if ltb i s.n then handler_ends i s else none
move (table_offers i rand) s = if ltb i s.n then serve_round i rand s else none
move (table_returns i) s = if ltb i s.n then ready_to_serve i s else none
move student_comes s = bring_student s
move (student_sits j) s = go_fetch_slot j s

pub data Reach (s : State) : State → Type 0 where
  here : Reach s s
  then_move : {t u : State} → Reach s t → (a : Move) → move a t ≡ some u → Reach s u

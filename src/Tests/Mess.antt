-- ===== src/Tests/Mess.antt =====
-- Runs of the simulation of ass4/Q2/main.c.
use operating_systems_work.Base.{
  ◌<◌, ◌≤◌, ◌≡◌, ◌≢◌, refl, List, [], ◌∷◌, Option, none, some, pos, length,
}
use operating_systems_work.Biryani.Moves.{State, TableAt, initial}
use operating_systems_work.Biryani.Tables.{Move, move, Reach, here, then_move}
use operating_systems_work.Biryani.Last.{last_container_waits}
use operating_systems_work.Biryani.Single.{one_container_lem}

-- The moves in order; a move that cannot be made is left out.
abbrev run : List Move → State → State
run [] s = s
run (a ∷ moves) s = run moves (elim (move a s) [ none ↦ s | some t ↦ t ])

Reach-run : (s : State) (moves : List Move) (t : State) → Reach s t → Reach s (run moves t)
Reach-run s [] t r = r
Reach-run s (a ∷ moves) t r = Reach-run s moves _ (after (move a t) refl)
  where
    after : (o : Option State) → move a t ≡ o → Reach s (elim o [ none ↦ t | some u ↦ u ])
    after none e = r
    after (some u) e = then_move r a e

-- The chef cooks a vessel for six, and the container offers places for two.
abbrev first_moves : List Move
first_moves =
    Move.chef_starts 0
    ∷ Move.chef_loops 0 0 4
    ∷ Move.chef_makes 0
    ∷ Move.table_starts 0
    ∷ Move.table_gets 0 0
    ∷ Move.table_offers 0 1
    ∷ []

abbrev offered : State
offered = run first_moves (initial 1 1 12)

abbrev later_moves : List Move
later_moves =
    Move.student_comes
    ∷ Move.student_sits 0
    ∷ Move.student_comes
    ∷ Move.student_sits 0
    ∷ Move.table_returns 0
    ∷ []

abbrev seated : State
seated = run later_moves offered

offered_place : offered.table_at 0 ≡ TableAt.waiting 4
offered_place = refl

offered-Reach : Reach (initial 1 1 12) offered
offered-Reach = Reach-run (initial 1 1 12) first_moves (initial 1 1 12) here

offered-seated : Reach offered seated
offered-seated = Reach-run offered later_moves offered here

last_container_waits_example : seated.table_at 0 ≡ TableAt.waiting 4
last_container_waits_example =
    last_container_waits 1 1 12 0 4 offered seated refl offered-Reach offered_place offered-seated

seated-Reach : Reach (initial 1 1 12) seated
seated-Reach = Reach-run (initial 1 1 12) later_moves offered offered-Reach

one_container_lem_example :
    (length seated.slots ≤ 10) × (10 < 12 → seated.students_left_to_feed ≢ pos 0)
one_container_lem_example = one_container_lem 1 12 seated seated-Reach

two_seated : length seated.slots ≡ 2
two_seated = refl

-- A student who comes before the container's thread has started gets a slot though no food is there.
early_student :
    (run (Move.student_comes ∷ Move.student_sits 0 ∷ []) (initial 1 1 12)).slots ≡ 1 ∷ []
early_student = refl

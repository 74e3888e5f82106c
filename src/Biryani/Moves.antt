-- ===== src/Biryani/Moves.antt =====
-- The state of the simulation and its moves, each of which one thread makes.
use operating_systems_work.Base.{
  ℕ, ◌+◌, ◌-◌, ◌*◌, ◌%◌, Bool, true, false, List, [], Option, none, some, ◌==◌, ltb, if◌then◌else◌,
  ℤ, pos, negsuc, sub, is_positive, min_int,
}

-- `struct chefs`. A flag is true where the int is not 0.
pub record Chef : Type 0 where
  pub r : ℤ
  pub p : ℕ
  pub cooking : Bool
  pub lock : Bool

-- `struct containers`
pub record Container : Type 0 where
  pub container_number : ℕ
  pub lock : Bool
  pub load : Bool
  pub students_to_feed : ℤ

-- Where a chef's thread is: before `start_cooking`, at the test of its loop, in `make_biryani` with the
-- `r` and `p` that it has drawn, in `serve_biryani`, or gone.
pub data ChefAt : Type 0 where
  created : ChefAt
  looping : ChefAt
  making : ℕ → ℕ → ChefAt
  serving : ChefAt
  gone : ChefAt

-- Where a container's thread is: before `start_fetching`, at the test of the outer loop, at the test of
-- the inner loop or in `ready_to_serve` with its `students_that_can_be_served`, or gone.
pub data TableAt : Type 0 where
  created : TableAt
  looping : TableAt
  holding : ℕ → TableAt
  waiting : ℕ → TableAt
  gone : TableAt

-- `coming` and `standing` are the students that have not arrived and that are in `go_fetch_slot`;
-- `slots` is what `go_fetch_slot` has returned, the last one first.
pub record State : Type 0 where
  pub m : ℕ
  pub n : ℕ
  pub students_left_to_serve : ℤ
  pub students_left_to_feed : ℤ
  pub c : ℕ → Chef
  pub chef_at : ℕ → ChefAt
  pub container : ℕ → Container
  pub table_at : ℕ → TableAt
  pub mutex_for_chef_container : Bool
  pub coming : ℕ
  pub standing : ℕ
  pub slots : List ℕ

-- The arrays are zero at the start; the threads of the chefs and the containers are created.
abbrev pub initial : ℕ → ℕ → ℕ → State
initial m n k = record {
  m = m;
  n = n;
  students_left_to_serve = pos k;
  students_left_to_feed = pos k;
  c = λ i. record { r = pos 0; p = 0; cooking = false; lock = false };
  chef_at = λ i. ChefAt.created;
  container = λ i. record {
    container_number = if ltb i n then i + 1 else 0;
    lock = false;
    load = false;
    students_to_feed = pos 0;
  };
  table_at = λ i. TableAt.created;
  mutex_for_chef_container = false;
  coming = k;
  standing = 0;
  slots = [];
}

-- `rand()%(b - a) + a`, where the remainder is by the size of `b - a`.
abbrev pub get_random_number_between : ℕ → ℤ → ℕ → ℕ
get_random_number_between a (pos b) rand =
    if b == a then a else if ltb a b then rand % (b - a) + a else rand % (a - b) + a
get_random_number_between a (negsuc b) rand = rand % (a + b + 1) + a

abbrev pub set_at {ℓ} : {A : Type ℓ} → (ℕ → A) → ℕ → A → ℕ → A
set_at f i x j = if j == i then x else f j

-- The start of `start_cooking`.
abbrev pub start_cooking : ℕ → State → Option State
start_cooking i s = elim (s.chef_at i) [
  | ChefAt.created ↦ some (record s {
    c = set_at s.c i (record { r = pos 0; p = 0; cooking = true; lock = false });
    chef_at = set_at s.chef_at i ChefAt.looping;
  })
  | other ↦ none
]

-- The test of its loop, and `make_biryani` up to its sleep, or the end of the thread.
abbrev pub chef_loop : ℕ → ℕ → ℕ → State → Option State
chef_loop i rand_r rand_p s = elim (s.chef_at i) [
  | ChefAt.looping ↦ some (
      if is_positive s.students_left_to_serve
      then record s {
        c = set_at s.c i (record (s.c i) { cooking = true; lock = true });
        chef_at = set_at s.chef_at i (
            ChefAt.making (get_random_number_between 1 (pos 10) rand_r)
              (get_random_number_between 2 (min_int 10 s.students_left_to_serve) rand_p));
      }
      else record s { chef_at = set_at s.chef_at i ChefAt.gone })
  | other ↦ none
]

-- The rest of `make_biryani`.
abbrev pub make_biryani : ℕ → State → Option State
make_biryani i s = elim (s.chef_at i) [
  | ChefAt.making r p ↦ some (record s {
    c = set_at s.c i (record { r = pos r; p = p; cooking = false; lock = false });
    students_left_to_serve = sub s.students_left_to_serve (r * p);
    chef_at = set_at s.chef_at i ChefAt.serving;
  })
  | other ↦ none
]

-- The end of the wait in `serve_biryani`.
abbrev pub serve_biryani : ℕ → State → Option State
serve_biryani i s = elim (s.chef_at i) [
  | ChefAt.serving ↦
      if (s.c i).cooking
      then some (record s {
        chef_at =
            set_at s.chef_at i
              (if is_positive s.students_left_to_serve then ChefAt.looping else ChefAt.gone);
      })
      else none
  | other ↦ none
]

-- ===== src/Cabs.antt =====
-- The cab booking of ass4/Q3/main.c.
pub mod Pool
pub mod Payment
use mathlib.Core.Option
use operating_systems_work.Base.{
  ℕ, zero, suc, ◌+◌, ◌%◌, Bool, true, false, ◌&&◌, not, Option, none, some, List, [], ◌∷◌,
  if◌then◌else◌, modify, length, get_or,
}

pub data RideStatus : Type 0 where
  wait_state on_ride_premier on_ride_pool_full on_ride_pool_half : RideStatus

abbrev pub is_wait : RideStatus → Bool
is_wait wait_state = true
is_wait _ = false

abbrev pub is_half : RideStatus → Bool
is_half on_ride_pool_half = true
is_half _ = false

-- `struct cabs`
pub record Cab : Type 0 where
  pub lock : Bool
  pub cab_number : ℕ
  pub ride_status : RideStatus

-- `init_all_cabs`: the cabs from number `i` on, `n` of them.
unfoldable pub init_cabs : ℕ → ℕ → List Cab
init_cabs zero i = []
init_cabs (suc n) i =
    record { lock = false; cab_number = i; ride_status = wait_state } ∷ init_cabs n (i + 1)

-- The two tests of the loops of `take_cab`.
abbrev pub open_half : Cab → Bool
open_half c = not c.lock && is_half c.ride_status

abbrev pub open_wait : Cab → Bool
open_wait c = not c.lock && is_wait c.ride_status

-- The index at which a loop over the active cabs stops.
unfoldable pub first : (Cab → Bool) → List Cab → Option ℕ
first test [] = none
first test (c ∷ cs) = if test c then some 0 else Option.map (λ i. i + 1) (first test cs)

abbrev pub fill : Cab → Cab
fill c = record c { lock = true; ride_status = on_ride_pool_full }

abbrev pub start_pool : Cab → Cab
start_pool c = record c { lock = true; ride_status = on_ride_pool_half }

abbrev pub start_premier : Cab → Cab
start_premier c = record c { lock = true; ride_status = on_ride_premier }

abbrev pub unlock : Cab → Cab
unlock c = record c { lock = false }

-- The second loop: a free cab replaces a `cab_found` of the first.
unfoldable pub find_free : Option ℕ → List Cab → Option ℕ × List Cab
find_free cab_found cabs = elim (first open_wait cabs) [
  | none ↦ (cab_found, cabs)
  | some j ↦ (some j, modify cabs j start_pool)
]

-- A round of the `while` loop: both loops over the cabs.
unfoldable pub pool_round : List Cab → Option ℕ × List Cab
pool_round cabs = elim (first open_half cabs) [
  | none ↦ find_free none cabs
  | some i ↦ find_free (some i) (modify cabs i fill)
]

-- What the threads of other rides and of the payment servers do to the cabs while a passenger waits:
-- `others k` is what they have done by the round that has `k` rounds more behind it. They do not hold
-- the mutex of `take_cab`.
abbrev pub Others : Type 0
Others = ℕ → List Cab → List Cab

-- The `while` loop, with `time_to_wait` rounds left.
unfoldable pub search_pool : Others → ℕ → List Cab → Option ℕ × List Cab
search_pool others zero cabs = (none, cabs)
search_pool others (suc time_to_wait) cabs =
    let again : List Cab → Option ℕ × List Cab =
      λ cs. search_pool others time_to_wait (others time_to_wait cs) in
    let (cab_found, cabs') = pool_round cabs in
    elim cab_found [ none ↦ again cabs' | some i ↦ (some i, cabs') ]

abbrev pub no_cab : Cab
no_cab = record { lock = true; cab_number = 0; ride_status = wait_state }

-- The search for a premier ride, from cab `i` on, with `time_to_wait` rounds left.
unfoldable pub search_premier : Others → ℕ → ℕ → List Cab → Option ℕ × List Cab
search_premier others zero i cabs = (none, cabs)
search_premier others (suc time_to_wait) i cabs =
    let rest =
      search_premier others time_to_wait ((i + 1) % length cabs) (others time_to_wait cabs) in
    if open_wait (get_or cabs i no_cab) then (some i, modify cabs i start_premier) else rest

-- `c[cab_found].lock = 0`, if there is a cab.
unfoldable pub release : Option ℕ × List Cab → Option ℕ × List Cab
release (none, cabs) = (none, cabs)
release (some i, cabs) = (some i, modify cabs i unlock)

-- `take_cab` up to the ride: the cab that the passenger gets, and the cabs.
unfoldable pub take_cab : Others → Bool → ℕ → List Cab → Option ℕ × List Cab
take_cab others pool wait_time cabs =
    if pool
    then release (search_pool others wait_time cabs)
    else release (search_premier others wait_time 0 cabs)

-- ===== src/Tests/Rides.antt =====
-- Runs of the cab booking of ass4/Q3/main.c.
use operating_systems_work.Base.{
  ◌≡◌, ◌<◌, ◌==◌, if◌then◌else◌, refl, arith, true, false, some, List, [], ◌∷◌, get_elem?,
}
use operating_systems_work.Cabs.{
  Cab, Others, wait_state, on_ride_premier, search_pool, pool_round, find_free, release,
  on_ride_pool_half, on_ride_pool_full, first, open_half, open_wait, take_cab,
}
use operating_systems_work.Cabs.Pool.{PoolPost, take_cab_pool, lost_cab}
use operating_systems_work.Cabs.Payment.{Payments}

-- Cab 0 has one pool passenger, and cab 1 is free.
abbrev half_full : Cab
half_full = record { lock = false; cab_number = 0; ride_status = on_ride_pool_half }

abbrev two_cabs : List Cab
two_cabs = half_full ∷ record { lock = false; cab_number = 1; ride_status = wait_state } ∷ []

can_wait : 0 < 20
can_wait = omega arith

-- Cab 1 is on a ride, and a payment server frees it before the last round but one.
abbrev busy_cabs : List Cab
busy_cabs = record { lock = false; cab_number = 1; ride_status = on_ride_premier } ∷ []

abbrev one_server : Others
one_server k cabs =
    if k == 1 then record { lock = false; cab_number = 1; ride_status = wait_state } ∷ [] else cabs

take_cab_pool_example : PoolPost one_server 20 busy_cabs (take_cab one_server true 20 busy_cabs)
take_cab_pool_example = take_cab_pool one_server 20 busy_cabs

late_cab : (take_cab one_server true 20 busy_cabs).0 ≡ some 0
unfolding take_cab search_pool pool_round find_free first release
late_cab = refl

abbrev nothing_else : Others
nothing_else k cabs = cabs

half_first : first open_half two_cabs ≡ some 0
unfolding first
half_first = refl

free_first : first open_wait two_cabs ≡ some 1
unfolding first
free_first = refl

lost_cab_example :
    ((take_cab nothing_else true 20 two_cabs).0 ≡ some 1)
    × (c : Cab) × (get_elem? (take_cab nothing_else true 20 two_cabs).1 0 ≡ some c)
    × (c.lock ≡ true)
    × (c.ride_status ≡ on_ride_pool_full)
lost_cab_example = lost_cab nothing_else two_cabs 20 0 1 can_wait half_first free_first

abbrev evening : Payments
evening = record { cabs = two_cabs; pay = []; passengers_done = 4 }

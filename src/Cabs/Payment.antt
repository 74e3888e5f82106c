-- ===== src/Cabs/Payment.antt =====
-- The payments of ass4/Q3/main.c.
use operating_systems_work.Base.{
  ℕ, ◌+◌, ◌≡◌, ◌≢◌, refl, Bool, true, false, some, List, [], ◌∷◌, ◌++◌, if◌then◌else◌, modify,
  get_or, length, get_elem?, get_elem?-modify_self, get_elem?-modify_ne,
}
use operating_systems_work.Cabs.{Cab, RideStatus, wait_state, on_ride_pool_full, on_ride_pool_half}

-- `struct payment_servers`
pub record Payment : Type 0 where
  pub cab_number : ℕ
  pub reduce_status_to : RideStatus
  pub payment_status : Bool

-- The cabs, the slots that are in use so far (`current_empty_pay_slot` is their number), and by how
-- much the servers have brought `total_passengers_left` down.
pub record Payments : Type 0 where
  pub cabs : List Cab
  pub pay : List Payment
  pub passengers_done : ℕ

-- `reduce_status_to` for the status of the ride. For a cab that is not on a ride it keeps what the
-- slot held, which is 0, the waiting state.
abbrev pub reduced : RideStatus → RideStatus
reduced on_ride_pool_full = on_ride_pool_half
reduced _ = wait_state

-- `do_payment` up to the wait: the slot, and the state.
unfoldable pub do_payment : ℕ → RideStatus → Payments → ℕ × Payments
do_payment cab status s = (
  length s.pay,
  record s {
    pay =
        s.pay
        ++ record { cab_number = cab; reduce_status_to = reduced status; payment_status = true }
          ∷ [];
  },
)

abbrev pub no_payment : Payment
no_payment = record { cab_number = 0; reduce_status_to = wait_state; payment_status = false }

-- What a server does at slot `i`, with its lock held.
unfoldable pub serve : ℕ → Payments → Payments
serve i s =
    let p = get_or s.pay i no_payment in
    if p.payment_status
    then record s {
      cabs = modify s.cabs (p.cab_number) (λ c. record c { ride_status = p.reduce_status_to });
      pay = modify s.pay i (λ q. record q { payment_status = false });
      passengers_done = s.passengers_done + 1;
    }
    else s

get_or-snoc : (xs : List Payment) (x : Payment) → get_or (xs ++ x ∷ []) (length xs) no_payment ≡ x
get_or-snoc [] x = refl
get_or-snoc (y ∷ ys) x = get_or-snoc ys x

get_elem?-snoc : (xs : List Payment) (x : Payment) → get_elem? (xs ++ x ∷ []) (length xs) ≡ some x
get_elem?-snoc [] x = refl
get_elem?-snoc (y ∷ ys) x = get_elem?-snoc ys x

-- The state once a payment has been made and served.
abbrev pub paid : ℕ → RideStatus → Payments → Payments
paid cab status s = serve (do_payment cab status s).0 (do_payment cab status s).1

-- A payment that a server comes to next brings the cab down from full to half full and from half
-- full or premier to waiting, leaves the other cabs as they were, ends the wait of the passenger,
-- and counts the passenger.
pub payment_served :
    (cab : ℕ) (status : RideStatus) (s : Payments) (c : Cab)
    → get_elem? s.cabs cab ≡ some c
    → ((d : Cab) × (get_elem? (paid cab status s).cabs cab ≡ some d)
        × (d.ride_status ≡ reduced status)
        × (d.lock ≡ c.lock))
      × ((j : ℕ) → cab ≢ j → get_elem? (paid cab status s).cabs j ≡ get_elem? s.cabs j)
      × ((p : Payment) × (get_elem? (paid cab status s).pay (do_payment cab status s).0 ≡ some p)
          × (p.payment_status ≡ false))
      × ((paid cab status s).passengers_done ≡ s.passengers_done + 1)
unfolding do_payment serve
payment_served cab status s c g =
    let x : Payment = record {
      cab_number = cab;
      reduce_status_to = reduced status;
      payment_status = true;
    } in
    rw (get_or-snoc s.pay x) (
      (record c { ride_status = reduced status }, get_elem?-modify_self s.cabs cab _ g, refl, refl),
      λ j n. get_elem?-modify_ne s.cabs cab j _ n,
      (
        record x { payment_status = false },
        get_elem?-modify_self (s.pay ++ x ∷ []) (length s.pay) _ (get_elem?-snoc s.pay x),
        refl,
      ),
      refl,
    )

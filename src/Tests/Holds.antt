-- ===== src/Tests/Holds.antt =====
-- A reservation that is released, and one that is consumed already.
use apparel_network.Prelude.{ℕ, ◌≡◌, refl, Option, none, some, [], ◌∷◌, arith, All}
use apparel_network.Tables.Enums.{ReservationStatus}
use apparel_network.Tables.Commerce.{InventoryReservation}
use apparel_network.Session.{Tables}
use apparel_network.Session.Runs.{Runs, committed}
use apparel_network.Reservations.Lifecycle.{IsLifecycle, lifecycle_timestamps}
use apparel_network.Reservations.Requests.{
  Request, handle, reservations-IsLifecycle, finished_reservation_final,
}
use apparel_network.Tests.Data.{world, tables}

abbrev reservation_in : ReservationStatus → Option ℕ → InventoryReservation
reservation_in status consumed_at = record {
  id = 61;
  order_id = 31;
  payment_id = 41;
  customer_id = 8;
  store_id = 5;
  status = status;
  expires_at = 5000;
  released_at = none;
  consumed_at = consumed_at;
  version = 2;
  created_at = 30;
  updated_at = 30;
  created_by_id = some 8;
  updated_by_id = some 8;
  deleted_at = none;
  deleted_by_id = none;
}

abbrev pub consumed_reservation : InventoryReservation
consumed_reservation = reservation_in ReservationStatus.consumed (some 40)

abbrev held_tables : Tables
held_tables = record tables { reservations = reservation_in ReservationStatus.active none ∷ [] }

abbrev used_tables : Tables
used_tables = record tables { reservations = consumed_reservation ∷ [] }

abbrev release_it : Request
release_it = Request.release 61 8 (record { expected_version = 2; actor_id = 8 })

reservations-IsLifecycle_example :
    All IsLifecycle (committed world (handle release_it) held_tables).reservations
reservations-IsLifecycle_example =
    reservations-IsLifecycle held_tables (committed world (handle release_it) held_tables)
      (Runs.then_request held_tables held_tables world release_it (Runs.no_request held_tables))
      (
        record { timestamps = unfold lifecycle_timestamps in refl; version_positive = omega arith },
        tt,
      )

finished_reservation_final_example :
    All
      (λ r. r.id ≡ 61 → r ≡ consumed_reservation)
      (committed world (handle release_it) used_tables).reservations
finished_reservation_final_example =
    finished_reservation_final consumed_reservation used_tables
      (committed world (handle release_it) used_tables)
      (Runs.then_request used_tables used_tables world release_it (Runs.no_request used_tables))
      (λ e. ground arith) ((λ _. refl), tt)

-- ===== src/Tests/Parcels.antt =====
-- A packed shipment that is dispatched, one that is created, and one that is delivered already.
use apparel_network.Prelude.{ℕ, ◌≡◌, refl, Option, none, some, [], ◌∷◌, arith, All}
use apparel_network.Prelude.Text.{codes}
use apparel_network.Tables.Enums.{ShipmentStatus}
use apparel_network.Tables.Shipping.{Shipment}
use apparel_network.Session.{Tables}
use apparel_network.Session.Rules.{Ensures}
use apparel_network.Session.Runs.{Runs, committed}
use apparel_network.Shipments.Lifecycle.{IsLifecycle, lifecycle_timestamps}
use apparel_network.Shipments.Service.{ShipmentTransition, ship_owned}
use apparel_network.Shipments.Requests.{
  Handling, Request, handle, answer, shipments-IsLifecycle, closed_shipment_final,
}
use apparel_network.Shipments.Dispatch.{IsDispatched, ship_owned-IsDispatched}
use apparel_network.Tests.Data.{world, tables, session_of}
use apparel_network.Tests.Holds.{consumed_reservation}
use apparel_network.Tests.Stock.{tables-HasStock}

abbrev shipment_in : ShipmentStatus → Option ℕ → Option ℕ → Shipment
shipment_in status shipped_at delivered_at = record {
  id = 71;
  order_id = 31;
  reservation_id = 61;
  payment_id = 41;
  customer_id = 8;
  store_id = 5;
  status = status;
  carrier = some "null-carrier";
  tracking_number = some "NULL-71";
  tracking_url = none;
  shipping_method = codes "express";
  estimated_delivery_at = some 900;
  shipped_at = shipped_at;
  delivered_at = delivered_at;
  version = 3;
  created_at = 50;
  updated_at = 50;
  created_by_id = some 8;
  updated_by_id = some 8;
  deleted_at = none;
  deleted_by_id = none;
}

abbrev parcel_tables : Tables
parcel_tables = record tables {
  shipments = shipment_in ShipmentStatus.packed none none ∷ [];
  reservations = consumed_reservation ∷ [];
  reservation_items =
      record {
        id = 62;
        reservation_id = 61;
        inventory_item_id = 1;
        variant_id = 4;
        quantity = 3;
        inventory_version = 1;
        created_at = 30;
      }
      ∷ [];
}

abbrev delivered_shipment : Shipment
delivered_shipment = shipment_in ShipmentStatus.delivered (some 60) (some 70)

abbrev delivered_tables : Tables
delivered_tables = record tables { shipments = delivered_shipment ∷ [] }

abbrev third_version : ShipmentTransition
third_version = record { expected_version = 3; actor_id = 8 }

abbrev send_it : Handling
send_it = Handling.dispatch 71 8 third_version

abbrev bring_back : Handling
bring_back = Handling.return_request 71 8 third_version

ship_owned-IsDispatched_example :
    Ensures
      (ship_owned 71 8 third_version)
      (session_of parcel_tables)
      (λ r s'. IsDispatched parcel_tables r s'.db)
ship_owned-IsDispatched_example =
    ship_owned-IsDispatched 71 8 third_version (session_of parcel_tables) tables-HasStock

shipments-IsLifecycle_example :
    All IsLifecycle (committed world (answer (Request.handling send_it)) parcel_tables).shipments
shipments-IsLifecycle_example =
    shipments-IsLifecycle parcel_tables
      (committed world (answer (Request.handling send_it)) parcel_tables)
      (Runs.then_request parcel_tables parcel_tables world (Request.handling send_it)
        (Runs.no_request parcel_tables))
      (
        record { timestamps = unfold lifecycle_timestamps in refl; version_positive = omega arith },
        tt,
      )

closed_shipment_final_example :
    All
      (λ r. r.id ≡ 71 → r ≡ delivered_shipment)
      (committed world (handle bring_back) delivered_tables).shipments
closed_shipment_final_example =
    closed_shipment_final delivered_shipment delivered_tables
      (committed world (handle bring_back) delivered_tables)
      (Runs.then_request delivered_tables delivered_tables world bring_back
        (Runs.no_request delivered_tables))
      tt ((λ _. refl), tt)

-- ===== src/Shipments/Repository.antt =====
-- shipments/infrastructure/repositories.py: the rows of shipments, packages and tracking events.
use apparel_network.Prelude.{
  ℕ, ◌+◌, String, Bool, Option, none, some, List, [], ◌∷◌, ◌++◌, ◌&&◌, ◌||◌, ◌==◌, is_none, any,
  leb, ltb, scalar, select, sort_by, save, if◌then◌else◌,
}
use apparel_network.Prelude.Text.{Text, eq_string}
use apparel_network.Errors.{value_error}
use apparel_network.Tables.Enums.{ShipmentStatus, shipment_status_enum, ◌is◌}
use apparel_network.Tables.Shipping.{Shipment, ShipmentPackage, ShipmentTrackingEvent}
use apparel_network.Session.{
  Action, Tables, return, gets, modify, raise_if, uuid7, db_now, update_where, ◌>>=◌, ◌>>◌,
}
use apparel_network.Shipments.Gateway.{PackageCreate, ShippingLabel}

abbrev pub shipment_key : Shipment → ℕ
shipment_key shipment = shipment.id

unfoldable pub store_shipment : Shipment → Tables → Tables
store_shipment shipment db = record db { shipments = save shipment_key shipment db.shipments }

-- `get_for_order`
unfoldable pub get_for_order : ℕ → Tables → Option Shipment
get_for_order order_id db = scalar (λ r. r.order_id == order_id) db.shipments

-- `_model` without a version, and `get_for_customer`
unfoldable pub get_for_customer : ℕ → ℕ → Tables → Option Shipment
get_for_customer shipment_id customer_id db =
    scalar (λ r. (r.id == shipment_id) && (r.customer_id == customer_id) && is_none r.deleted_at)
      db.shipments

-- `_model` with a version
unfoldable pub select_version : ℕ → ℕ → ℕ → Tables → Option Shipment
select_version shipment_id customer_id version db =
    scalar
      (λ r.
        (r.id == shipment_id)
        && (r.customer_id == customer_id)
        && is_none r.deleted_at
        && (r.version == version))
      db.shipments

-- What `add` is given, beside the columns that start as `None`.
pub record NewShipment : Type 0 where
  pub order_id : ℕ
  pub reservation_id : ℕ
  pub payment_id : ℕ
  pub customer_id : ℕ
  pub store_id : ℕ
  pub shipping_method : Text
  pub estimated_delivery_at : ℕ
  pub actor_id : ℕ

unfoldable pub shipment_row : NewShipment → ℕ → ℕ → Shipment
shipment_row values id now = record {
  id = id;
  order_id = values.order_id;
  reservation_id = values.reservation_id;
  payment_id = values.payment_id;
  customer_id = values.customer_id;
  store_id = values.store_id;
  status = ShipmentStatus.created;
  carrier = none;
  tracking_number = none;
  tracking_url = none;
  shipping_method = values.shipping_method;
  estimated_delivery_at = some values.estimated_delivery_at;
  shipped_at = none;
  delivered_at = none;
  version = 1;
  created_at = now;
  updated_at = now;
  created_by_id = some values.actor_id;
  updated_by_id = some values.actor_id;
  deleted_at = none;
  deleted_by_id = none;
}

-- the primary key, `uq_shipments_order` and `uq_shipments_reservation`
unfoldable pub collides : Shipment → Shipment → Bool
collides new old =
    (old.id == new.id)
    || (old.order_id == new.order_id)
    || (old.reservation_id == new.reservation_id)

-- `add`: the database refuses a row that collides with another
unfoldable pub add : NewShipment → Action Shipment
unfolding shipment_row collides
add values = do
  id ← uuid7
  now ← db_now
  refused ← gets λ db. any (collides (shipment_row values id now)) db.shipments
  raise_if refused (value_error "IntegrityError")
  modify λ db. record db { shipments = db.shipments ++ shipment_row values id now ∷ [] }
  return (shipment_row values id now)

-- the assignments of `transition`; `label` is its `values`, which only `pack_owned` gives
unfoldable pub transition_row :
    ShipmentStatus → ℕ → ℕ → Option ShippingLabel → Bool → ℕ → Shipment → Shipment
transition_row status transitioned_at actor_id label archive now shipment = record shipment {
  status = status;
  carrier = labelled label (λ l. l.carrier) shipment.carrier;
  tracking_number = labelled label (λ l. l.tracking_number) shipment.tracking_number;
  tracking_url = labelled label (λ l. l.tracking_url) shipment.tracking_url;
  shipped_at =
      if status is ShipmentStatus.shipped then some transitioned_at else shipment.shipped_at;
  delivered_at =
      if status is ShipmentStatus.delivered then some transitioned_at else shipment.delivered_at;
  deleted_at = if archive then some transitioned_at else shipment.deleted_at;
  deleted_by_id = if archive then some actor_id else shipment.deleted_by_id;
  updated_by_id = some actor_id;
  version = shipment.version + 1;
  updated_at = now;
}
  where
    labelled : Option ShippingLabel → (ShippingLabel → String) → Option String → Option String
    labelled none field current = current
    labelled (some l) field current = some (field l)

-- `transition`
unfoldable pub transition :
    ℕ → ℕ → ℕ → ShipmentStatus → ℕ → ℕ → Option ShippingLabel → Bool → Action (Option Shipment)
unfolding transition_row
transition shipment_id customer_id expected_version status transitioned_at actor_id label archive =
    update_where (select_version shipment_id customer_id expected_version) store_shipment
      (transition_row status transitioned_at actor_id label archive)

unfoldable pub package_row : ℕ → PackageCreate → ShippingLabel → ℕ → ℕ → ShipmentPackage
package_row shipment_id parcel label id now = record {
  id = id;
  shipment_id = shipment_id;
  package_number = parcel.package_number;
  weight = parcel.weight;
  length = parcel.length;
  width = parcel.width;
  height = parcel.height;
  label_url = some label.label_url;
  created_at = now;
}

-- `uq_shipment_packages_number`
unfoldable pub numbered : ℕ → String → ShipmentPackage → Bool
numbered shipment_id package_number row =
    (row.shipment_id == shipment_id) && eq_string row.package_number package_number

-- `SqlAlchemyShipmentPackageRepository.add_many`: the database refuses a number that the shipment
-- has already
unfoldable pub add_many : ℕ → List (PackageCreate × ShippingLabel) → Action Unit
unfolding package_row numbered
add_many shipment_id [] = return tt
add_many shipment_id ((parcel, label) ∷ packages) = do
  id ← uuid7
  now ← db_now
  refused ← gets λ db. any (numbered shipment_id parcel.package_number) db.packages
  raise_if refused (value_error "IntegrityError")
  modify
      λ db. record db { packages = db.packages ++ package_row shipment_id parcel label id now ∷ [] }
  add_many shipment_id packages

-- `SqlAlchemyShipmentTrackingRepository.add`
unfoldable pub add_tracking : ℕ → ShipmentStatus → String → ℕ → Action Unit
add_tracking shipment_id status description occurred_at = do
  id ← uuid7
  modify λ db. record db {
    tracking =
        db.tracking
        ++ record {
          id = id;
          shipment_id = shipment_id;
          status = status;
          location = none;
          description = description;
          occurred_at = occurred_at;
        }
          ∷ [];
  }

unfoldable pub tracking_order : ShipmentTrackingEvent → ShipmentTrackingEvent → Bool
tracking_order a b =
    ltb a.occurred_at b.occurred_at || ((a.occurred_at == b.occurred_at) && leb a.id b.id)

-- `SqlAlchemyShipmentTrackingRepository.list_for_shipment`
unfoldable pub list_tracking : ℕ → Tables → List ShipmentTrackingEvent
unfolding tracking_order
list_tracking shipment_id db =
    sort_by tracking_order (select (λ e. e.shipment_id == shipment_id) db.tracking)

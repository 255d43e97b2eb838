-- ===== src/Reservations/Repository.antt =====
-- reservations/infrastructure/repositories.py: selection, the guarded write, and the items.
use apparel_network.Prelude.{
  ℕ, ◌+◌, Bool, false, Option, none, some, List, [], ◌∷◌, ◌++◌, ◌&&◌, ◌||◌, ◌==◌, is_none, any, ltb,
  leb, scalar, select, sort_by, save, if◌then◌else◌,
}
use apparel_network.Errors.{value_error}
use apparel_network.Tables.Enums.{ReservationStatus, reservation_status_enum, ◌is◌}
use apparel_network.Tables.Commerce.{InventoryReservation, ReservationItem}
use apparel_network.Session.{
  Action, Tables, return, modify, raise_if, uuid7, db_now, update_where, ◌>>=◌, ◌>>◌,
}
use apparel_network.Inventory.Repository.{active_reservation_quantity}

abbrev pub reservation_key : InventoryReservation → ℕ
reservation_key reservation = reservation.id

unfoldable pub store_reservation : InventoryReservation → Tables → Tables
store_reservation reservation db = record db {
  reservations = save reservation_key reservation db.reservations;
}

-- `get_active_for_order`
unfoldable pub get_active_for_order : ℕ → Tables → Option InventoryReservation
get_active_for_order order_id db =
    scalar
      (λ r.
        (r.order_id == order_id) && (r.status is ReservationStatus.active) && is_none r.deleted_at)
      db.reservations

-- `_model` without a version, and `get_for_customer`
unfoldable pub get_for_customer : ℕ → ℕ → Tables → Option InventoryReservation
get_for_customer reservation_id customer_id db =
    scalar (λ r. (r.id == reservation_id) && (r.customer_id == customer_id) && is_none r.deleted_at)
      db.reservations

-- `_model` with a version
unfoldable pub select_version : ℕ → ℕ → ℕ → Tables → Option InventoryReservation
select_version reservation_id customer_id version db =
    scalar
      (λ r.
        (r.id == reservation_id)
        && (r.customer_id == customer_id)
        && is_none r.deleted_at
        && (r.version == version))
      db.reservations

-- What `add` is given.
pub record NewReservation : Type 0 where
  pub order_id : ℕ
  pub payment_id : ℕ
  pub customer_id : ℕ
  pub store_id : ℕ
  pub expires_at : ℕ
  pub actor_id : ℕ

unfoldable pub reservation_row : NewReservation → ℕ → ℕ → InventoryReservation
reservation_row values id now = record {
  id = id;
  order_id = values.order_id;
  payment_id = values.payment_id;
  customer_id = values.customer_id;
  store_id = values.store_id;
  status = ReservationStatus.created;
  expires_at = values.expires_at;
  released_at = none;
  consumed_at = none;
  version = 1;
  created_at = now;
  updated_at = now;
  created_by_id = some values.actor_id;
  updated_by_id = some values.actor_id;
  deleted_at = none;
  deleted_by_id = none;
}

-- `add`
unfoldable pub add : NewReservation → Action InventoryReservation
unfolding reservation_row
add values = do
  id ← uuid7
  now ← db_now
  modify λ db. record db { reservations = db.reservations ++ reservation_row values id now ∷ [] }
  return (reservation_row values id now)

-- the assignments of `transition`
unfoldable pub transition_row :
    ReservationStatus → ℕ → ℕ → Bool → ℕ → InventoryReservation → InventoryReservation
transition_row status transitioned_at actor_id archive now reservation = record reservation {
  status = status;
  released_at =
      if status is ReservationStatus.released
      then some transitioned_at
      else reservation.released_at;
  consumed_at =
      if status is ReservationStatus.consumed
      then some transitioned_at
      else reservation.consumed_at;
  deleted_at = if archive then some transitioned_at else reservation.deleted_at;
  deleted_by_id = if archive then some actor_id else reservation.deleted_by_id;
  updated_by_id = some actor_id;
  version = reservation.version + 1;
  updated_at = now;
}

-- `transition`
unfoldable pub transition :
    ℕ → ℕ → ℕ → ReservationStatus → ℕ → ℕ → Bool → Action (Option InventoryReservation)
unfolding transition_row
transition reservation_id customer_id expected_version status transitioned_at actor_id archive =
    update_where (select_version reservation_id customer_id expected_version) store_reservation
      (transition_row status transitioned_at actor_id archive)

-- `active_quantity`, the same query as the inventory repository's
unfoldable pub active_quantity : ℕ → ℕ → Tables → ℕ
active_quantity inventory_item_id now db = active_reservation_quantity inventory_item_id now db

-- What `_prepare_item` returns.
pub record PreparedItem : Type 0 where
  pub inventory_item_id : ℕ
  pub variant_id : ℕ
  pub quantity : ℕ
  pub inventory_version : ℕ

unfoldable pub item_row : PreparedItem → ℕ → ℕ → ℕ → ReservationItem
item_row item reservation_id id now = record {
  id = id;
  reservation_id = reservation_id;
  inventory_item_id = item.inventory_item_id;
  variant_id = item.variant_id;
  quantity = item.quantity;
  inventory_version = item.inventory_version;
  created_at = now;
}

-- `uq_inventory_reservation_items_inventory` within the items of one reservation
unfoldable pub has_duplicates : List PreparedItem → Bool
has_duplicates [] = false
has_duplicates (item ∷ items) =
    any (λ other. other.inventory_item_id == item.inventory_item_id) items || has_duplicates items

unfoldable pub add_each : ℕ → List PreparedItem → Action Unit
unfolding item_row
add_each reservation_id [] = return tt
add_each reservation_id (item ∷ items) = do
  id ← uuid7
  now ← db_now
  modify λ db. record db {
    reservation_items = db.reservation_items ++ item_row item reservation_id id now ∷ [];
  }
  add_each reservation_id items

-- `add_many`: the database refuses two items with one inventory item
unfoldable pub add_many : ℕ → List PreparedItem → Action Unit
unfolding has_duplicates add_each
add_many reservation_id items = do
  raise_if (has_duplicates items) (value_error "IntegrityError")
  add_each reservation_id items

-- `list_for_reservation`
unfoldable pub item_order : ReservationItem → ReservationItem → Bool
item_order a b = ltb a.created_at b.created_at || ((a.created_at == b.created_at) && leb a.id b.id)

unfoldable pub list_for_reservation : ℕ → Tables → List ReservationItem
unfolding item_order
list_for_reservation reservation_id db =
    sort_by item_order (select (λ i. i.reservation_id == reservation_id) db.reservation_items)

-- ===== src/Inventory/Repository.antt =====
-- inventory/infrastructure/repositories.py: the queries and writes of the inventory service.
-- Row locks (`with_for_update`) have no effect on a session that runs alone and are left out.
use apparel_network.Prelude.{
  ℕ, ◌+◌, Bool, Option, none, some, [], ◌∷◌, ◌++◌, ◌&&◌, ◌==◌, ltb, is_none, is_some, scalar,
  select, any, sum_of, save, if◌then◌else◌,
}
use apparel_network.Prelude.Int.{ℤ, ◌-ℤ◌, ltb_ℤ}
use apparel_network.Prelude.Text.{Text}
use apparel_network.Tables.Enums.{
  InventoryStatus, TrackingPolicy, InventoryMovementType, ReservationStatus,
  reservation_status_enum, ◌is◌,
}
use apparel_network.Tables.Inventory.{InventoryItem, InventoryMovement, ProductVariant}
use apparel_network.Tables.Commerce.{InventoryReservation, ReservationItem}
use apparel_network.Session.{Action, Tables, return, gets, modify, uuid7, db_now, ◌>>=◌, ◌>>◌}
use apparel_network.Inventory.Access.{accessible}

abbrev pub item_key : InventoryItem → ℕ
item_key item = item.id

-- What `variant_context` returns.
pub record VariantContext : Type 0 where
  pub product_id : ℕ
  pub catalog_id : ℕ
  pub store_id : ℕ
  pub reference : Text

context_of : Tables → ℕ → ProductVariant → Option VariantContext
context_of db owner_id variant =
    elim (scalar
      (λ p.
        (p.id == variant.product_id) && is_none p.deleted_at && accessible db owner_id p.store_id)
      db.products) [
        | none ↦ none
        | some p ↦ some (record {
          product_id = p.id;
          catalog_id = p.catalog_id;
          store_id = p.store_id;
          reference = variant.reference;
        })
      ]

first_context : Tables → ℕ → Option ProductVariant → Option VariantContext
unfolding context_of
first_context db owner_id none = none
first_context db owner_id (some variant) = context_of db owner_id variant

-- `SqlAlchemyInventoryRepository.variant_context`
unfoldable pub variant_context : ℕ → ℕ → Tables → Option VariantContext
unfolding first_context
variant_context variant_id owner_id db =
    first_context db owner_id
      (scalar (λ v. (v.id == variant_id) && is_none v.deleted_at && v.is_active) db.variants)

-- `variant_has_inventory`: archived items count too
unfoldable pub variant_has_inventory : ℕ → Tables → Bool
variant_has_inventory variant_id db =
    is_some (scalar (λ i. i.variant_id == variant_id) db.inventory)

-- What `add` is given; the other columns are defaults.
pub record NewItem : Type 0 where
  pub variant_id : ℕ
  pub product_id : ℕ
  pub catalog_id : ℕ
  pub store_id : ℕ
  pub sku_snapshot : Text
  pub quantity_on_hand : ℤ
  pub quantity_reserved : ℤ
  pub quantity_available : ℤ
  pub status : InventoryStatus
  pub tracking_policy : TrackingPolicy
  pub low_stock_threshold : ℤ
  pub created_by_id : Option ℕ
  pub updated_by_id : Option ℕ

unfoldable pub item_row : NewItem → ℕ → ℕ → InventoryItem
item_row v id now = record {
  id = id;
  variant_id = v.variant_id;
  product_id = v.product_id;
  catalog_id = v.catalog_id;
  store_id = v.store_id;
  sku_snapshot = v.sku_snapshot;
  quantity_on_hand = v.quantity_on_hand;
  quantity_reserved = v.quantity_reserved;
  quantity_available = v.quantity_available;
  status = v.status;
  tracking_policy = v.tracking_policy;
  low_stock_threshold = v.low_stock_threshold;
  created_at = now;
  updated_at = now;
  deleted_at = none;
  version = 1;
  created_by_id = v.created_by_id;
  updated_by_id = v.updated_by_id;
}

-- `add`: insert, flush and read back
unfoldable pub add : NewItem → Action InventoryItem
unfolding item_row
add values = do
  id ← uuid7
  now ← db_now
  let item = item_row values id now
  modify (λ db. record db { inventory = db.inventory ++ item ∷ [] })
  return item

-- `get_for_owner` and `get_locked_for_operator`, which differ in the lock alone
unfoldable pub get_for_owner : ℕ → ℕ → Tables → Option InventoryItem
get_for_owner inventory_id owner_id db =
    scalar
      (λ i. (i.id == inventory_id) && is_none i.deleted_at && accessible db owner_id i.store_id)
      db.inventory

unfoldable pub get_for_store : ℕ → ℕ → Tables → Option InventoryItem
get_for_store inventory_id store_id db =
    scalar (λ i. (i.id == inventory_id) && (i.store_id == store_id) && is_none i.deleted_at)
      db.inventory

-- a reservation that is active, not past its expiry and not archived
unfoldable pub holds_stock : ℕ → InventoryReservation → Bool
holds_stock now r =
    (r.status is ReservationStatus.active) && ltb now r.expires_at && is_none r.deleted_at

unfoldable pub quantity_of : ReservationItem → ℕ
quantity_of item = item.quantity

-- `active_reservation_quantity`: the join pairs an item with its reservation
unfoldable pub active_reservation_quantity : ℕ → ℕ → Tables → ℕ
unfolding holds_stock quantity_of
active_reservation_quantity inventory_id now db = sum_of quantity_of (
    select
      (λ item.
        (item.inventory_item_id == inventory_id)
        && any (λ r. (r.id == item.reservation_id) && holds_stock now r) db.reservations)
      db.reservation_items)

-- flush of a changed item
unfoldable pub store_item : InventoryItem → Tables → Tables
store_item item db = record db { inventory = save item_key item db.inventory }

-- `update`: the row of this version gets the values and the next version. SQLAlchemy's `onupdate`
-- sets `updated_at`.
unfoldable pub update_row : (InventoryItem → InventoryItem) → ℕ → InventoryItem → InventoryItem
update_row values now item =
    let changed = values item in record changed { version = changed.version + 1; updated_at = now }

unfoldable pub select_version : ℕ → ℕ → ℕ → Tables → Option InventoryItem
select_version inventory_id owner_id expected_version db =
    scalar
      (λ i.
        (i.id == inventory_id)
        && is_none i.deleted_at
        && (i.version == expected_version)
        && accessible db owner_id i.store_id)
      db.inventory

unfoldable pub save_or_none :
    (ℕ → InventoryItem → InventoryItem) → Option InventoryItem → Action (Option InventoryItem)
unfolding store_item
save_or_none values none = return none
save_or_none values (some item) = do
  now ← db_now
  modify (store_item (values now item))
  return (some (values now item))

unfoldable pub update : ℕ → ℕ → (InventoryItem → InventoryItem) → ℕ → Action (Option InventoryItem)
unfolding select_version save_or_none update_row
update inventory_id owner_id values expected_version = do
  model ← gets (select_version inventory_id owner_id expected_version)
  save_or_none (update_row values) model

-- `consume`: the assignments to the model
unfoldable pub consume_row : ℤ → ℕ → ℕ → InventoryItem → InventoryItem
consume_row quantity actor_id now item = record item {
  quantity_on_hand = item.quantity_on_hand -ℤ quantity;
  quantity_available = item.quantity_on_hand -ℤ quantity -ℤ item.quantity_reserved;
  updated_by_id = some actor_id;
  version = item.version + 1;
  updated_at = now;
}

-- `model is None or model.quantity_available < quantity`
unfoldable pub enough : ℤ → Option InventoryItem → Option InventoryItem
enough quantity none = none
enough quantity (some item) = if ltb_ℤ item.quantity_available quantity then none else some item

unfoldable pub select_store_version : ℕ → ℕ → ℕ → Tables → Option InventoryItem
select_store_version inventory_id store_id expected_version db =
    scalar
      (λ i.
        (i.id == inventory_id)
        && (i.store_id == store_id)
        && is_none i.deleted_at
        && (i.version == expected_version))
      db.inventory

unfoldable pub consume : ℕ → ℕ → ℤ → ℕ → ℕ → Action (Option InventoryItem)
unfolding select_store_version save_or_none enough consume_row
consume inventory_id store_id quantity actor_id expected_version = do
  model ← gets (select_store_version inventory_id store_id expected_version)
  save_or_none (consume_row quantity actor_id) (enough quantity model)

unfoldable pub archive_row : ℕ → ℕ → ℕ → InventoryItem → InventoryItem
archive_row deleted_at owner_id now item = record item {
  deleted_at = some deleted_at;
  status = InventoryStatus.discontinued;
  updated_by_id = some owner_id;
  version = item.version + 1;
  updated_at = now;
}

unfoldable pub archive : ℕ → ℕ → ℕ → ℕ → Action (Option InventoryItem)
unfolding select_version save_or_none archive_row
archive inventory_id owner_id expected_version deleted_at = do
  model ← gets (select_version inventory_id owner_id expected_version)
  save_or_none (archive_row deleted_at owner_id) model

-- What the service gives to `SqlAlchemyInventoryMovementRepository.add`, next to the item.
pub record NewMovement : Type 0 where
  pub movement_type : InventoryMovementType
  pub quantity_delta : ℤ
  pub previous_on_hand : ℤ
  pub previous_available : ℤ
  pub reservation_quantity : ℤ
  pub reason : Text
  pub actor_id : ℕ
  pub source : Text
  pub reference_id : Option ℕ

unfoldable pub movement_row : InventoryItem → NewMovement → ℕ → ℕ → InventoryMovement
movement_row item v id now = record {
  id = id;
  inventory_id = item.id;
  store_id = item.store_id;
  variant_id = item.variant_id;
  movement_type = v.movement_type;
  quantity_delta = v.quantity_delta;
  previous_on_hand = v.previous_on_hand;
  new_on_hand = item.quantity_on_hand;
  previous_available = v.previous_available;
  new_available = item.quantity_available;
  reservation_quantity = v.reservation_quantity;
  reason = v.reason;
  actor_id = v.actor_id;
  source = v.source;
  reference_id = v.reference_id;
  created_at = now;
}

-- `_record_movement` of the service and `add` of the repository
unfoldable pub record_movement : InventoryItem → NewMovement → Action Unit
unfolding movement_row
record_movement item values = do
  id ← uuid7
  now ← db_now
  modify (λ db. record db { movements = db.movements ++ movement_row item values id now ∷ [] })

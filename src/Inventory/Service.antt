-- ===== src/Inventory/Service.antt =====
-- `InventoryService` of inventory/application/services.py. Metrics are left out; an event is
-- published as the outbox row that `TransactionalOutboxPublisher` writes.
use apparel_network.Prelude.{
  ℕ, String, Bool, Option, none, some, List, [], ◌∷◌, ◌&&◌, ◌||◌, not, ◌!=◌, leb, sort_by,
  get_or_else, if◌then◌else◌,
}
use apparel_network.Prelude.Int.{ℤ, pos, ◌+ℤ◌, ◌-ℤ◌, ltb_ℤ, leb_ℤ, eqb_ℤ}
use apparel_network.Prelude.Text.{Text, codes}
use apparel_network.Errors.{AppError, validation, not_found, conflict}
use apparel_network.Tables.Enums.{
  InventoryStatus, TrackingPolicy, InventoryMovementType, inventory_status_enum,
  inventory_movement_type_enum, ◌is◌,
}
use apparel_network.Tables.Inventory.{InventoryItem}
use apparel_network.Session.{
  Action, return, gets, require, raise_if, branch, check, now_utc, ◌>>=◌, ◌>>◌,
}
use apparel_network.Outbox.{DomainEvent, publish}
use apparel_network.Inventory.Repository
use apparel_network.Inventory.Repository.{
  NewItem, NewMovement, variant_context, variant_has_inventory, get_for_owner, get_for_store,
  active_reservation_quantity, record_movement,
}
use apparel_network.Inventory.Validation.{
  Dynamic, Changes, quantities, changes, typed_or, new_item, audit, adjustment,
}

abbrev pub item_not_found : AppError
item_not_found = not_found "Inventory"

abbrev pub modified : AppError
modified = conflict "The inventory item was modified by another request."

-- `_publish`
unfoldable pub inventory_event : String → InventoryItem → DomainEvent
inventory_event name item = record {
  event_name = name;
  aggregate_type = "inventory";
  aggregate_id = item.id;
  payload =
      ("inventory_id", item.id)
      ∷ ("variant_id", item.variant_id)
      ∷ ("product_id", item.product_id)
      ∷ ("catalog_id", item.catalog_id)
      ∷ ("store_id", item.store_id)
      ∷ ("version", item.version)
      ∷ [];
}

-- application/schemas.py
pub record InventoryCreate : Type 0 where
  pub variant_id : ℕ
  pub quantity_on_hand : ℤ
  pub quantity_reserved : ℤ
  pub status : InventoryStatus
  pub tracking_policy : TrackingPolicy
  pub low_stock_threshold : ℤ
  pub actor_id : ℕ

pub record InventoryUpdate : Type 0 where
  pub values : Changes
  pub expected_version : ℕ
  pub actor_id : ℕ

pub record InventoryAdjustment : Type 0 where
  pub quantity_delta : ℤ
  pub movement_type : InventoryMovementType
  pub reason : Text
  pub expected_version : ℕ
  pub actor_id : ℕ
  pub source : Text
  pub reference_id : Option ℕ

pub record InventoryReconciliation : Type 0 where
  pub physical_count : ℤ
  pub reason : Text
  pub expected_version : ℕ
  pub actor_id : ℕ
  pub source : Text
  pub reference_id : Option ℕ

pub record InventoryReservationConsumption : Type 0 where
  pub inventory_id : ℕ
  pub quantity : ℤ

unfoldable pub new_values : InventoryCreate → Repository.VariantContext → NewItem
new_values values context = record {
  variant_id = values.variant_id;
  product_id = context.product_id;
  catalog_id = context.catalog_id;
  store_id = context.store_id;
  sku_snapshot = context.reference;
  quantity_on_hand = values.quantity_on_hand;
  quantity_reserved = values.quantity_reserved;
  quantity_available = values.quantity_on_hand -ℤ values.quantity_reserved;
  status = values.status;
  tracking_policy = values.tracking_policy;
  low_stock_threshold = values.low_stock_threshold;
  created_by_id = some values.actor_id;
  updated_by_id = some values.actor_id;
}

-- The arguments of `_record_movement` in `create`.
unfoldable pub initial_movement : InventoryItem → ℕ → NewMovement
initial_movement item actor_id = record {
  movement_type = InventoryMovementType.initial_stock;
  quantity_delta = item.quantity_on_hand;
  previous_on_hand = pos 0;
  previous_available = pos 0;
  reservation_quantity = item.quantity_reserved;
  reason = codes "Initial stock setup";
  actor_id = actor_id;
  source = codes "inventory_create";
  reference_id = none;
}

-- `create`
unfoldable pub create : InventoryCreate → Action InventoryItem
create values = do
  found ← gets (variant_context values.variant_id values.actor_id)
  context ← require found item_not_found
  taken ← gets (variant_has_inventory values.variant_id)
  raise_if taken (conflict "This variant already has inventory.")
  check (new_item values.quantity_on_hand values.quantity_reserved values.low_stock_threshold)
  item ← Repository.add (new_values values context)
  record_movement item (initial_movement item values.actor_id)
  publish (inventory_event "inventory.created" item)
  return item

-- `get_owned`
unfoldable pub get_owned : ℕ → ℕ → Action InventoryItem
get_owned inventory_id owner_id = do
  item ← gets (get_for_owner inventory_id owner_id)
  require item item_not_found

-- `get_for_reservation`
unfoldable pub get_for_reservation : ℕ → ℕ → Action InventoryItem
get_for_reservation inventory_id store_id = do
  item ← gets (get_for_store inventory_id store_id)
  require item item_not_found

-- The arguments of `_record_movement` in `consume_reservation`.
unfoldable pub consumption_movement : InventoryItem → ℤ → ℕ → NewMovement
consumption_movement existing quantity actor_id = record {
  movement_type = InventoryMovementType.reservation_consumption;
  quantity_delta = pos 0 -ℤ quantity;
  previous_on_hand = existing.quantity_on_hand;
  previous_available = existing.quantity_available;
  reservation_quantity = quantity;
  reason = codes "Consumed by Shipment dispatch";
  actor_id = actor_id;
  source = codes "shipment";
  reference_id = none;
}

-- the body of the loop of `consume_reservation`
unfoldable pub consume_one : ℕ → ℕ → InventoryReservationConsumption → Action InventoryItem
unfolding get_for_reservation
consume_one store_id actor_id value = do
  raise_if (leb_ℤ value.quantity (pos 0)) (validation "quantity" "Quantity must be positive.")
  found ← gets (get_for_store value.inventory_id store_id)
  existing ← require found item_not_found
  raise_if (not (existing.status is InventoryStatus.active)) (conflict "Inventory is not active.")
  consumed ← Repository.consume value.inventory_id store_id value.quantity actor_id existing.version
  item ← require consumed (conflict "Inventory could not be consumed for the Shipment.")
  record_movement item (consumption_movement existing value.quantity actor_id)
  publish (inventory_event "inventory.updated" item)
  publish (inventory_event "inventory.adjusted" item)
  return item

unfoldable pub consume_each :
    ℕ → ℕ → List InventoryReservationConsumption → Action (List InventoryItem)
consume_each store_id actor_id [] = return []
consume_each store_id actor_id (value ∷ values) = do
  item ← consume_one store_id actor_id value
  rest ← consume_each store_id actor_id values
  return (item ∷ rest)

-- UUIDs and the texts that print them are in the same order.
unfoldable pub by_inventory :
    InventoryReservationConsumption → InventoryReservationConsumption → Bool
by_inventory a b = leb a.inventory_id b.inventory_id

-- `consume_reservation`
unfoldable pub consume_reservation :
    ℕ → List InventoryReservationConsumption → ℕ → Action (List InventoryItem)
unfolding consume_each by_inventory
consume_reservation store_id values actor_id =
    consume_each store_id actor_id (sort_by by_inventory values)

-- `changes.get(field, existing.field)` with its `isinstance` test
unfoldable pub int_or : Option (Dynamic ℤ) → ℤ → Option ℤ
int_or none current = some current
int_or (some (Dynamic.typed v)) current = some v
int_or (some _) current = none

-- The `setattr` of `{**changes, "updated_by_id": actor_id}` with `quantity_available`.
unfoldable pub patched : Changes → ℤ → ℤ → ℕ → InventoryItem → InventoryItem
unfolding typed_or
patched c on_hand reserved actor_id item = record item {
  quantity_on_hand = on_hand;
  quantity_reserved = reserved;
  quantity_available = on_hand -ℤ reserved;
  status = typed_or c.status item.status;
  tracking_policy = typed_or c.tracking_policy item.tracking_policy;
  low_stock_threshold = typed_or c.low_stock_threshold item.low_stock_threshold;
  updated_by_id = some actor_id;
}

unfoldable pub legacy_movement : InventoryItem → ℤ → ℤ → ℤ → ℕ → NewMovement
legacy_movement existing on_hand reserved active_reservations actor_id = record {
  movement_type = InventoryMovementType.legacy_update;
  quantity_delta = on_hand -ℤ existing.quantity_on_hand;
  previous_on_hand = existing.quantity_on_hand;
  previous_available = existing.quantity_available;
  reservation_quantity = reserved +ℤ active_reservations;
  reason = codes "Inventory quantity updated through the compatibility API";
  actor_id = actor_id;
  source = codes "legacy_patch";
  reference_id = none;
}

-- the first `if quantity_changed` of `update_owned`: what the active reservations hold
unfoldable pub guard_quantity : Bool → ℕ → ℤ → ℤ → Action ℤ
guard_quantity changed inventory_id on_hand reserved =
    if changed
    then (do
      now ← now_utc
      active ← gets (active_reservation_quantity inventory_id now)
      raise_if (ltb_ℤ (on_hand -ℤ reserved) (pos active))
          (conflict "The quantity would invalidate active Inventory Reservations.")
      return (pos active))
    else return (pos 0)

-- the second one
unfoldable pub record_legacy : Bool → InventoryItem → NewMovement → Action Unit
record_legacy changed item movement =
    if changed
    then (do record_movement item movement; publish (inventory_event "inventory.adjusted" item))
    else return tt

unfoldable pub quantity_changed : InventoryItem → ℤ → ℤ → Bool
quantity_changed existing on_hand reserved =
    not (eqb_ℤ on_hand existing.quantity_on_hand) || not (eqb_ℤ reserved existing.quantity_reserved)

-- `update_owned`
unfoldable pub update_owned : ℕ → ℕ → InventoryUpdate → Action InventoryItem
update_owned inventory_id owner_id values = do
  found ← gets (get_for_owner inventory_id owner_id)
  existing ← require found item_not_found
  raise_if (existing.version != values.expected_version) modified
  check (changes values.values)
  on_hand ←
      require (int_or values.values.quantity_on_hand existing.quantity_on_hand)
        (validation "quantity" "Quantity must be non-negative.")
  reserved ←
      require (int_or values.values.quantity_reserved existing.quantity_reserved)
        (validation "quantity" "Quantity must be non-negative.")
  check (quantities on_hand reserved)
  let changed = quantity_changed existing on_hand reserved
  active ← guard_quantity changed inventory_id on_hand reserved
  updated ←
      Repository.update inventory_id owner_id
        (patched values.values on_hand reserved values.actor_id) values.expected_version
  item ← require updated modified
  publish (inventory_event "inventory.updated" item)
  record_legacy changed item (legacy_movement existing on_hand reserved active values.actor_id)
  return item

-- `_publish_threshold_crossing`
unfoldable pub publish_threshold_crossing : InventoryItem → InventoryItem → ℤ → Action Unit
publish_threshold_crossing previous updated active =
    let before = previous.quantity_available -ℤ active in
    let after = updated.quantity_available -ℤ active in
    branch (ltb_ℤ (pos 0) before && leb_ℤ after (pos 0))
      (publish (inventory_event "inventory.out_of_stock" updated))
      (branch
        (ltb_ℤ previous.low_stock_threshold before
          && (ltb_ℤ (pos 0) after && leb_ℤ after updated.low_stock_threshold))
        (publish (inventory_event "inventory.low_stock" updated)) (return tt))

-- The arguments of `_apply_quantity_operation` that describe the operation.
pub record QuantityOperation : Type 0 where
  pub expected_version : ℕ
  pub quantity_delta : Option ℤ
  pub physical_count : Option ℤ
  pub movement_type : InventoryMovementType
  pub reason : Text
  pub source : Text
  pub reference_id : Option ℕ

-- `physical_count if physical_count is not None else existing.quantity_on_hand + (delta or 0)`
unfoldable pub new_on_hand : QuantityOperation → InventoryItem → ℤ
new_on_hand op existing = elim op.physical_count [
  | some count ↦ count
  | none ↦ existing.quantity_on_hand +ℤ get_or_else op.quantity_delta (pos 0)
]

-- The `setattr` of `_apply_quantity_operation`.
unfoldable pub recounted : ℤ → ℤ → ℕ → InventoryItem → InventoryItem
recounted on_hand available actor_id item = record item {
  quantity_on_hand = on_hand;
  quantity_available = available;
  status = if eqb_ℤ available (pos 0) then InventoryStatus.out_of_stock else InventoryStatus.active;
  updated_by_id = some actor_id;
}

unfoldable pub operation_movement : QuantityOperation → InventoryItem → ℤ → ℤ → ℕ → NewMovement
operation_movement op existing on_hand protected_quantity actor_id = record {
  movement_type = op.movement_type;
  quantity_delta = on_hand -ℤ existing.quantity_on_hand;
  previous_on_hand = existing.quantity_on_hand;
  previous_available = existing.quantity_available;
  reservation_quantity = protected_quantity;
  reason = op.reason;
  actor_id = actor_id;
  source = op.source;
  reference_id = op.reference_id;
}

operation_event : InventoryMovementType → String
operation_event t =
    if t is InventoryMovementType.reconciliation
    then "inventory.reconciled"
    else "inventory.adjusted"

-- `_apply_quantity_operation`
unfoldable pub apply_quantity_operation : ℕ → ℕ → QuantityOperation → Action InventoryItem
unfolding operation_event
apply_quantity_operation inventory_id actor_id op = do
  found ← gets (get_for_owner inventory_id actor_id)
  existing ← require found item_not_found
  raise_if (existing.version != op.expected_version) modified
  raise_if (existing.status is InventoryStatus.discontinued)
      (conflict "Discontinued Inventory cannot be adjusted.")
  now ← now_utc
  active ← gets (active_reservation_quantity inventory_id now)
  let on_hand = new_on_hand op existing
  raise_if (ltb_ℤ on_hand (pos 0)) (conflict "The adjustment would make on-hand quantity negative.")
  let protected_quantity = existing.quantity_reserved +ℤ pos active
  raise_if (ltb_ℤ on_hand protected_quantity)
      (conflict "The adjustment would invalidate active Inventory Reservations.")
  let available = on_hand -ℤ existing.quantity_reserved
  result ←
      Repository.update inventory_id actor_id (recounted on_hand available actor_id)
        op.expected_version
  updated ← require result modified
  record_movement updated (operation_movement op existing on_hand protected_quantity actor_id)
  publish (inventory_event (operation_event op.movement_type) updated)
  publish_threshold_crossing existing updated (pos active)
  return updated

-- `adjust_owned`
unfoldable pub adjust_owned : ℕ → ℕ → InventoryAdjustment → Action InventoryItem
adjust_owned inventory_id actor_id values = do
  check (adjustment values.quantity_delta values.movement_type values.reason values.source)
  apply_quantity_operation inventory_id actor_id (record {
    expected_version = values.expected_version;
    quantity_delta = some values.quantity_delta;
    physical_count = none;
    movement_type = values.movement_type;
    reason = values.reason;
    source = values.source;
    reference_id = values.reference_id;
  })

-- `reconcile_owned`
unfoldable pub reconcile_owned : ℕ → ℕ → InventoryReconciliation → Action InventoryItem
reconcile_owned inventory_id actor_id values = do
  raise_if (ltb_ℤ values.physical_count (pos 0))
      (validation "physical_count" "Physical count must be non-negative.")
  check (audit values.reason values.source)
  apply_quantity_operation inventory_id actor_id (record {
    expected_version = values.expected_version;
    quantity_delta = none;
    physical_count = some values.physical_count;
    movement_type = InventoryMovementType.reconciliation;
    reason = values.reason;
    source = values.source;
    reference_id = values.reference_id;
  })

-- `delete_owned`
unfoldable pub delete_owned : ℕ → ℕ → ℕ → Action Unit
unfolding get_owned
delete_owned inventory_id owner_id version = do
  found ← gets (get_for_owner inventory_id owner_id)
  existing ← require found item_not_found
  deleted_at ← now_utc
  archived ← Repository.archive inventory_id owner_id version deleted_at
  item ← require archived modified
  publish (inventory_event "inventory.deleted" item)

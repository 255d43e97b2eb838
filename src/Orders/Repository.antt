-- ===== src/Orders/Repository.antt =====
-- orders/infrastructure/repositories.py: selection by customer, and the two guarded writes.
use apparel_network.Prelude.{
  ℕ, ◌+◌, Bool, Option, some, List, ◌&&◌, ◌||◌, ◌==◌, ltb, leb, is_none, scalar, select, sort_by,
  keep_if, save,
}
use apparel_network.Tables.Enums.{OrderStatus, order_status_enum, ◌is◌}
use apparel_network.Tables.Commerce.{Order, OrderItem}
use apparel_network.Session.{Action, Tables, update_where}

abbrev pub order_key : Order → ℕ
order_key order = order.id

unfoldable pub store_order : Order → Tables → Tables
store_order order db = record db { orders = save order_key order db.orders }

-- `_model` without a version, and `get_for_customer`
unfoldable pub get_for_customer : ℕ → ℕ → Tables → Option Order
get_for_customer order_id customer_id db =
    scalar (λ o. (o.id == order_id) && (o.customer_id == customer_id) && is_none o.deleted_at)
      db.orders

-- `_model` with a version
unfoldable pub select_version : ℕ → ℕ → ℕ → Tables → Option Order
select_version order_id customer_id version db =
    scalar
      (λ o.
        (o.id == order_id)
        && (o.customer_id == customer_id)
        && is_none o.deleted_at
        && (o.version == version))
      db.orders

-- the assignments of `transition`
unfoldable pub transition_row : OrderStatus → ℕ → ℕ → ℕ → Order → Order
transition_row status transitioned_at actor_id now order = record order {
  status = status;
  confirmed_at = some transitioned_at;
  updated_by_id = some actor_id;
  version = order.version + 1;
  updated_at = now;
}

-- `transition`
unfoldable pub transition : ℕ → ℕ → ℕ → OrderStatus → ℕ → ℕ → Action (Option Order)
unfolding select_version transition_row
transition order_id customer_id expected_version status transitioned_at actor_id =
    update_where
      (λ db.
        keep_if (λ o. o.status is OrderStatus.pending)
          (select_version order_id customer_id expected_version db))
      store_order (transition_row status transitioned_at actor_id)

-- the assignments of `archive`
unfoldable pub archive_row : ℕ → ℕ → ℕ → Order → Order
archive_row deleted_at deleted_by_id now order = record order {
  status = OrderStatus.cancelled;
  cancelled_at = some deleted_at;
  deleted_at = some deleted_at;
  deleted_by_id = some deleted_by_id;
  updated_by_id = some deleted_by_id;
  version = order.version + 1;
  updated_at = now;
}

-- `archive`
unfoldable pub archive : ℕ → ℕ → ℕ → ℕ → ℕ → Action (Option Order)
unfolding select_version archive_row
archive order_id customer_id expected_version deleted_at deleted_by_id =
    update_where
      (λ db.
        keep_if (λ o. o.status is OrderStatus.confirmed)
          (select_version order_id customer_id expected_version db))
      store_order (archive_row deleted_at deleted_by_id)

-- `order_by(created_at, id)`
unfoldable pub item_order : OrderItem → OrderItem → Bool
item_order a b = ltb a.created_at b.created_at || ((a.created_at == b.created_at) && leb a.id b.id)

-- `list_for_order`
unfoldable pub list_for_order : ℕ → Tables → List OrderItem
unfolding item_order
list_for_order order_id db =
    sort_by item_order (select (λ i. i.order_id == order_id) db.order_items)

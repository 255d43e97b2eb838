-- ===== src/Tests/Data.antt =====
-- A store with one item in stock, one order with its payment, and two events.
use apparel_network.Prelude.{ℕ, ◌+◌, String, Option, none, some, List, [], ◌∷◌, true}
use apparel_network.Prelude.Int.{pos}
use apparel_network.Tables.Enums.{
  InventoryStatus, TrackingPolicy, InventoryMovementType, OrderStatus, PaymentStatus, OutboxStatus,
}
use apparel_network.Tables.Inventory.{InventoryItem, InventoryMovement}
use apparel_network.Tables.Commerce.{Order, PaymentIntent}
use apparel_network.Tables.Shipping.{OutboxEvent}
use apparel_network.Session.{World, Tables, Session}

abbrev pub world : World
world = record { clock = λ i. 1000 + i; uuid7 = λ i. 900 + i; transaction_time = 1000 }

-- ten shirts of variant 4, of which two are set aside
abbrev pub shirt : InventoryItem
shirt = record {
  id = 1;
  variant_id = 4;
  product_id = 3;
  catalog_id = 2;
  store_id = 5;
  sku_snapshot = [];
  quantity_on_hand = pos 10;
  quantity_reserved = pos 2;
  quantity_available = pos 8;
  status = InventoryStatus.active;
  tracking_policy = TrackingPolicy.track;
  low_stock_threshold = pos 3;
  created_at = 10;
  updated_at = 10;
  deleted_at = none;
  version = 1;
  created_by_id = some 7;
  updated_by_id = some 7;
}

abbrev pub shirt_movement : InventoryMovement
shirt_movement = record {
  id = 21;
  inventory_id = 1;
  store_id = 5;
  variant_id = 4;
  movement_type = InventoryMovementType.initial_stock;
  quantity_delta = pos 10;
  previous_on_hand = pos 0;
  new_on_hand = pos 10;
  previous_available = pos 0;
  new_available = pos 8;
  reservation_quantity = pos 2;
  reason = [];
  actor_id = 7;
  source = [];
  reference_id = none;
  created_at = 10;
}

abbrev pub order : Order
order = record {
  id = 31;
  checkout_session_id = 32;
  cart_id = 33;
  store_id = 5;
  customer_id = 8;
  order_number = "ORD-20250101-000001";
  status = OrderStatus.pending;
  currency = "EUR";
  subtotal = pos 250000;
  placed_at = 20;
  confirmed_at = none;
  cancelled_at = none;
  version = 1;
  created_at = 20;
  updated_at = 20;
  created_by_id = some 8;
  updated_by_id = some 8;
  deleted_at = none;
  deleted_by_id = none;
}

abbrev pub payment_in : PaymentStatus → Option ℕ → Option ℕ → PaymentIntent
payment_in status authorized_at captured_at = record {
  id = 41;
  order_id = 31;
  customer_id = 8;
  store_id = 5;
  provider = "null";
  provider_reference = "null-41";
  status = status;
  currency = "EUR";
  amount = pos 250000;
  idempotency_key = "0123456789abcdef";
  expires_at = 9000;
  authorized_at = authorized_at;
  captured_at = captured_at;
  failed_at = none;
  cancelled_at = none;
  version = 2;
  created_at = 22;
  updated_at = 22;
  created_by_id = some 8;
  updated_by_id = some 8;
  deleted_at = none;
  deleted_by_id = none;
}

abbrev pub event_in : ℕ → OutboxStatus → Option ℕ → Option String → Option ℕ → OutboxEvent
event_in id status locked_at locked_by published_at = record {
  id = id;
  aggregate_type = "order";
  aggregate_id = 31;
  event_name = "order.created";
  payload = [];
  occurred_at = 20;
  published_at = published_at;
  status = status;
  retry_count = 0;
  available_at = 20;
  attempts = 1;
  locked_at = locked_at;
  locked_by = locked_by;
  dispatched_at = none;
  last_error = none;
  created_at = 20;
  updated_at = 20;
  version = 2;
}

-- tables with one payment and some events
abbrev pub tables_with : PaymentIntent → List OutboxEvent → Tables
tables_with payment events = record {
  stores = record { id = 5; owner_id = 7; deleted_at = none } ∷ [];
  memberships = [];
  products = record { id = 3; catalog_id = 2; store_id = 5; deleted_at = none } ∷ [];
  variants =
      record {
        id = 4;
        product_id = 3;
        store_id = 5;
        reference = [];
        is_active = true;
        deleted_at = none;
      }
      ∷ [];
  inventory = shirt ∷ [];
  movements = shirt_movement ∷ [];
  checkouts = [];
  orders = order ∷ [];
  order_items = [];
  redemptions = [];
  payments = payment ∷ [];
  transactions = [];
  reservations = [];
  reservation_items = [];
  shipments = [];
  packages = [];
  tracking = [];
  outbox = events;
  receipts = [];
  hours = [];
  catalogs = record { id = 2; store_id = 5; deleted_at = none } ∷ [];
  prices = [];
}

abbrev pub authorized_payment : PaymentIntent
authorized_payment = payment_in PaymentStatus.authorized (some 23) none

abbrev pub tables : Tables
tables = tables_with authorized_payment []

abbrev pub session_of : Tables → Session
session_of db = record { world = world; clock_reads = 0; uuids_drawn = 0; db = db }

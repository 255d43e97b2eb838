-- ===== src/Reservations/Service.antt =====
-- `ReservationService` of reservations/application/services.py.
use apparel_network.Prelude.{
  ℕ, ◌+◌, ◌*◌, String, Bool, Option, none, some, List, [], ◌∷◌, not, ◌!=◌, ◌||◌, leb, ltb, is_empty,
  sort_by, get_or_else,
}
use apparel_network.Prelude.Int.{pos, ◌-ℤ◌, ltb_ℤ}
use apparel_network.Errors.{AppError, not_found, conflict, validation}
use apparel_network.Tables.Enums.{
  ReservationStatus, reservation_status_enum, PaymentStatus, payment_status_enum, OrderStatus,
  order_status_enum, CheckoutStatus, checkout_status_enum, InventoryStatus, inventory_status_enum,
  ◌is◌,
}
use apparel_network.Tables.Commerce.{
  InventoryReservation, ReservationItem, OrderItem, PaymentIntent, Order, CheckoutSession,
}
use apparel_network.Session.{
  Action, return, gets, fetch, require, raise_if, branch, now_utc, ◌>>=◌, ◌>>◌,
}
use apparel_network.Outbox.{DomainEvent, write}
use apparel_network.Payments.Service as Payments
use apparel_network.Orders.Service as Orders
use apparel_network.Checkout.Sessions as Checkouts
use apparel_network.Inventory.Service as Inventory
use apparel_network.Reservations.Repository.{
  PreparedItem, get_active_for_order, get_for_customer, add, transition, active_quantity, add_many,
  list_for_reservation,
}

abbrev pub reservation_not_found : AppError
reservation_not_found = not_found "Reservation"

abbrev pub reservation_modified : AppError
reservation_modified = conflict "The Reservation was modified by another request."

-- `_emit`, with the payload of reservations/domain/events.py
unfoldable pub reservation_event : String → InventoryReservation → DomainEvent
reservation_event name reservation = record {
  event_name = name;
  aggregate_type = "reservation";
  aggregate_id = reservation.id;
  payload =
      ("reservation_id", reservation.id)
      ∷ ("order_id", reservation.order_id)
      ∷ ("payment_id", reservation.payment_id)
      ∷ ("customer_id", reservation.customer_id)
      ∷ ("store_id", reservation.store_id)
      ∷ ("version", reservation.version)
      ∷ [];
}

-- A `datetime` of a request: its instant, and whether it has a UTC offset.
pub record Timestamp : Type 0 where
  pub instant : ℕ
  pub has_offset : Bool

pub record ReservationCreate : Type 0 where
  pub order_id : ℕ
  pub payment_id : ℕ
  pub expires_at : Option Timestamp
  pub actor_id : ℕ

pub record ReservationTransition : Type 0 where
  pub expected_version : ℕ
  pub actor_id : ℕ

-- `_expire`
unfoldable pub expire : InventoryReservation → ℕ → Action InventoryReservation
expire reservation now = do
  result ←
      transition reservation.id reservation.customer_id reservation.version
        ReservationStatus.expired now reservation.customer_id Bool.true
  expired ← require result reservation_modified
  write (reservation_event "reservation.expired" expired)
  return expired

-- `_expire_if_needed`
unfoldable pub expire_if_needed : InventoryReservation → Action InventoryReservation
unfolding expire
expire_if_needed reservation = do
  now ← now_utc
  branch (not (reservation.status is ReservationStatus.active) || ltb now reservation.expires_at)
      (return reservation) (expire reservation now)

-- `get_owned`, with `_get_owned`
unfoldable pub get_owned : ℕ → ℕ → Action InventoryReservation
unfolding expire_if_needed
get_owned reservation_id customer_id = do
  reservation ← fetch (get_for_customer reservation_id customer_id) reservation_not_found
  expire_if_needed reservation

-- `detail_owned`
unfoldable pub detail_owned : ℕ → ℕ → Action (InventoryReservation × List ReservationItem)
unfolding get_owned
detail_owned reservation_id customer_id = do
  reservation ← get_owned reservation_id customer_id
  items ← gets (list_for_reservation reservation.id)
  return (reservation, items)

-- `_terminal_transition`
unfoldable pub terminal_transition :
    InventoryReservation
    → ReservationTransition
    → ReservationStatus
    → String
    → Action InventoryReservation
terminal_transition reservation values status event = do
  now ← now_utc
  result ←
      transition reservation.id reservation.customer_id values.expected_version status now
        values.actor_id (status is ReservationStatus.released)
  transitioned ← require result reservation_modified
  write (reservation_event event transitioned)
  return transitioned

-- `release_owned` and `consume_owned`, with `_validate_active`
unfoldable pub finish_owned :
    ReservationStatus → String → ℕ → ℕ → ReservationTransition → Action InventoryReservation
unfolding get_owned terminal_transition
finish_owned status event reservation_id customer_id values = do
  reservation ← get_owned reservation_id customer_id
  raise_if (not (reservation.status is ReservationStatus.active))
      (conflict "Only an active Reservation can be changed.")
  raise_if (reservation.version != values.expected_version) reservation_modified
  terminal_transition reservation values status event

unfoldable pub release_owned : ℕ → ℕ → ReservationTransition → Action InventoryReservation
unfolding finish_owned
release_owned = finish_owned ReservationStatus.released "reservation.released"

unfoldable pub consume_owned : ℕ → ℕ → ReservationTransition → Action InventoryReservation
unfolding finish_owned
consume_owned = finish_owned ReservationStatus.consumed "reservation.consumed"

-- `_prepare_item`
unfoldable pub prepare_item : ℕ → ℕ → OrderItem → Action PreparedItem
prepare_item store_id now item = do
  inventory ← Inventory.get_for_reservation item.inventory_id store_id
  raise_if (not (inventory.status is InventoryStatus.active)) (conflict "Inventory is not active.")
  raise_if (inventory.variant_id != item.variant_id)
      (conflict "Inventory does not match the ordered Variant.")
  raise_if (inventory.version != item.inventory_version)
      (conflict "Inventory changed after the Order snapshot.")
  active ← gets (active_quantity inventory.id now)
  raise_if (ltb_ℤ (inventory.quantity_available -ℤ pos active) (pos item.quantity))
      (conflict "Insufficient available Inventory for the Reservation.")
  return (record {
    inventory_item_id = inventory.id;
    variant_id = inventory.variant_id;
    quantity = item.quantity;
    inventory_version = inventory.version;
  })

unfoldable pub prepare_each : ℕ → ℕ → List OrderItem → Action (List PreparedItem)
unfolding prepare_item
prepare_each store_id now [] = return []
prepare_each store_id now (item ∷ items) = do
  prepared ← prepare_item store_id now item
  rest ← prepare_each store_id now items
  return (prepared ∷ rest)

-- the branch of `create` on an active reservation of the order
unfoldable pub supersede : Option InventoryReservation → ℕ → Action Unit
supersede none now = return tt
supersede (some existing) now =
    branch (leb existing.expires_at now) (do expired ← expire existing now; return tt)
      (raise_if Bool.true (conflict "This Order already has an active Reservation."))

-- Payment, order and checkout belong together.
unfoldable pub mismatched : PaymentIntent → Order → CheckoutSession → Bool
mismatched payment order checkout =
    payment.order_id != order.id
    || payment.customer_id != order.customer_id
    || payment.store_id != order.store_id
    || checkout.user_id != order.customer_id
    || checkout.store_id != order.store_id

-- `values.expires_at or now + timedelta(minutes=30)`
unfoldable pub expiration : Option Timestamp → ℕ → Timestamp
expiration requested now =
    get_or_else requested (record { instant = now + 30 * 60 * 1000000; has_offset = Bool.true })

-- UUIDs and the texts that print them are in the same order.
unfoldable pub by_inventory : OrderItem → OrderItem → Bool
by_inventory a b = leb a.inventory_id b.inventory_id

-- `create`
unfoldable pub create : ReservationCreate → Action InventoryReservation
unfolding supersede expiration by_inventory prepare_each
create values = do
  now ← now_utc
  payment ← Payments.get_owned values.payment_id values.actor_id
  order ← Orders.get_owned values.order_id values.actor_id
  checkout ← Checkouts.get_owned order.checkout_session_id values.actor_id
  raise_if (not (payment.status is PaymentStatus.captured))
      (conflict "Reservations require a captured Payment.")
  raise_if (not (order.status is OrderStatus.confirmed))
      (conflict "Reservations require a confirmed Order.")
  raise_if (not (checkout.status is CheckoutStatus.confirmed))
      (conflict "Reservations require a confirmed Checkout Session.")
  raise_if (mismatched payment order checkout)
      (conflict "Payment, Order, and Checkout ownership do not match.")
  existing ← gets (get_active_for_order order.id)
  supersede existing now
  items ← Orders.items_owned order.id values.actor_id
  raise_if (is_empty items) (conflict "An Order without Items cannot be reserved.")
  let expires_at = expiration values.expires_at now
  raise_if (not expires_at.has_offset || leb expires_at.instant now)
      (validation "expires_at" "Expiration must be a future timestamp.")
  prepared ← prepare_each order.store_id now (sort_by by_inventory items)
  reservation ← add (record {
    order_id = order.id;
    payment_id = payment.id;
    customer_id = order.customer_id;
    store_id = order.store_id;
    expires_at = expires_at.instant;
    actor_id = values.actor_id;
  })
  add_many reservation.id prepared
  write (reservation_event "reservation.created" reservation)
  activated ←
      transition reservation.id reservation.customer_id reservation.version ReservationStatus.active
        now values.actor_id Bool.false
  active ← require activated (conflict "The Reservation could not be activated.")
  write (reservation_event "reservation.activated" active)
  return active

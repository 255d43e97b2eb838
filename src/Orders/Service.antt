-- ===== src/Orders/Service.antt =====
-- `OrderService` of orders/application/services.py: reading, confirming and cancelling an order.
use apparel_network.Prelude.{ℕ, String, List, [], ◌∷◌, not}
use apparel_network.Errors.{AppError, not_found, conflict}
use apparel_network.Tables.Enums.{OrderStatus, order_status_enum, ◌is◌}
use apparel_network.Tables.Commerce.{Order, OrderItem}
use apparel_network.Session.{Action, return, gets, fetch, require, raise_if, now_utc, ◌>>=◌, ◌>>◌}
use apparel_network.Outbox.{DomainEvent, write}
use apparel_network.Orders.Repository.{get_for_customer, transition, archive, list_for_order}

abbrev pub order_not_found : AppError
order_not_found = not_found "Order"

abbrev pub order_modified : AppError
order_modified = conflict "The Order was modified by another request."

-- `_emit`, with the payload of orders/domain/events.py
unfoldable pub order_event : String → Order → DomainEvent
order_event name order = record {
  event_name = name;
  aggregate_type = "order";
  aggregate_id = order.id;
  payload =
      ("order_id", order.id)
      ∷ ("checkout_session_id", order.checkout_session_id)
      ∷ ("customer_id", order.customer_id)
      ∷ ("store_id", order.store_id)
      ∷ ("version", order.version)
      ∷ [];
}

pub record OrderConfirm : Type 0 where
  pub expected_version : ℕ
  pub actor_id : ℕ

-- `get_owned`
unfoldable pub get_owned : ℕ → ℕ → Action Order
get_owned order_id customer_id = fetch (get_for_customer order_id customer_id) order_not_found

-- `confirm_owned`, with `OrderValidationService.confirmable`
unfoldable pub confirm_owned : ℕ → ℕ → OrderConfirm → Action Order
unfolding get_owned
confirm_owned order_id customer_id values = do
  order ← get_owned order_id customer_id
  raise_if (not (order.status is OrderStatus.pending))
      (conflict "Only a pending Order can be confirmed.")
  now ← now_utc
  result ←
      transition order.id customer_id values.expected_version OrderStatus.confirmed now
        values.actor_id
  confirmed ← require result order_modified
  write (order_event "order.confirmed" confirmed)
  return confirmed

-- `cancel_owned`, with `OrderValidationService.cancellable`
unfoldable pub cancel_owned : ℕ → ℕ → ℕ → Action Unit
unfolding get_owned
cancel_owned order_id customer_id expected_version = do
  order ← get_owned order_id customer_id
  raise_if (not (order.status is OrderStatus.confirmed))
      (conflict "Only a confirmed Order can be cancelled.")
  now ← now_utc
  result ← archive order.id customer_id expected_version now customer_id
  cancelled ← require result order_modified
  write (order_event "order.cancelled" cancelled)

-- the items of `summary_owned`
unfoldable pub items_owned : ℕ → ℕ → Action (List OrderItem)
unfolding get_owned
items_owned order_id customer_id = do
  order ← get_owned order_id customer_id
  gets (list_for_order order.id)

-- ===== src/Shipments/Service.antt =====
-- `ShipmentService` of shipments/application/services.py.
use apparel_network.Prelude.{
  ℕ, String, Bool, Option, none, some, List, [], ◌∷◌, not, ◌!=◌, ◌||◌, map, ltb, any, is_empty,
  is_some, length,
}
use apparel_network.Prelude.Int.{pos, leb_ℤ}
use apparel_network.Prelude.Text.{Text, strip, eq_string}
use apparel_network.Errors.{AppError, not_found, conflict, validation, value_error}
use apparel_network.Tables.Enums.{
  ShipmentStatus, shipment_status_enum, ReservationStatus, reservation_status_enum, PaymentStatus,
  payment_status_enum, OrderStatus, order_status_enum, ◌is◌,
}
use apparel_network.Tables.Commerce.{InventoryReservation, ReservationItem, PaymentIntent, Order}
use apparel_network.Tables.Shipping.{Shipment, ShipmentTrackingEvent}
use apparel_network.Session.{
  Action, return, gets, fetch, require, raise_if, branch, now_utc, ◌>>=◌, ◌>>◌,
}
use apparel_network.Outbox.{DomainEvent, write}
use apparel_network.Payments.Service as Payments
use apparel_network.Orders.Service as Orders
use apparel_network.Reservations.Service as Reservations
use apparel_network.Inventory.Service as Inventory
use apparel_network.Inventory.Service.{InventoryReservationConsumption}
use apparel_network.Shipments.Gateway.{ShippingGateway, ShippingLabel, PackageCreate}
use apparel_network.Shipments.Repository.{
  add, add_many, add_tracking, get_for_customer, get_for_order, list_tracking, transition,
}

abbrev pub shipment_not_found : AppError
shipment_not_found = not_found "Shipment"

abbrev pub shipment_modified : AppError
shipment_modified = conflict "The Shipment was modified by another request."

-- `_emit`, with the payload of shipments/domain/events.py
unfoldable pub shipment_event : String → Shipment → DomainEvent
shipment_event name shipment = record {
  event_name = name;
  aggregate_type = "shipment";
  aggregate_id = shipment.id;
  payload =
      ("shipment_id", shipment.id)
      ∷ ("order_id", shipment.order_id)
      ∷ ("reservation_id", shipment.reservation_id)
      ∷ ("payment_id", shipment.payment_id)
      ∷ ("customer_id", shipment.customer_id)
      ∷ ("store_id", shipment.store_id)
      ∷ ("version", shipment.version)
      ∷ [];
}

pub record ShipmentCreate : Type 0 where
  pub order_id : ℕ
  pub reservation_id : ℕ
  pub payment_id : ℕ
  pub shipping_method : Text
  pub actor_id : ℕ

pub record ShipmentPack : Type 0 where
  pub expected_version : ℕ
  pub packages : List PackageCreate
  pub actor_id : ℕ

pub record ShipmentTransition : Type 0 where
  pub expected_version : ℕ
  pub actor_id : ℕ

-- `get_owned`
unfoldable pub get_owned : ℕ → ℕ → Action Shipment
get_owned shipment_id customer_id =
    fetch (get_for_customer shipment_id customer_id) shipment_not_found

-- `tracking_owned`
unfoldable pub tracking_owned : ℕ → ℕ → Action (List ShipmentTrackingEvent)
unfolding get_owned
tracking_owned shipment_id customer_id = do
  shipment ← get_owned shipment_id customer_id
  gets (list_tracking shipment.id)

-- `_validate_transition`
unfoldable pub one_of : ShipmentStatus → List ShipmentStatus → Bool
one_of status allowed = any (λ s. status is s) allowed

-- `_transition`, then `_record` and, where the handler emits an event, `_emit`
unfoldable pub transition_and_record :
    Shipment → ℕ → ShipmentStatus → ℕ → ℕ → Option ShippingLabel → Bool → String → Action Shipment
transition_and_record shipment expected_version status actor_id now label archive description = do
  result ←
      transition shipment.id shipment.customer_id expected_version status now actor_id label archive
  transitioned ← require result shipment_modified
  add_tracking transitioned.id transitioned.status description now
  return transitioned

-- Payment, order and reservation belong together.
unfoldable pub mismatched : PaymentIntent → Order → InventoryReservation → Bool
mismatched payment order reservation =
    payment.id != reservation.payment_id
    || payment.order_id != order.id
    || reservation.order_id != order.id
    || payment.customer_id != order.customer_id
    || reservation.customer_id != order.customer_id
    || payment.store_id != order.store_id
    || reservation.store_id != order.store_id

-- the package numbers of a request are unique
unfoldable pub has_duplicates : List PackageCreate → Bool
has_duplicates [] = Bool.false
has_duplicates (parcel ∷ packages) =
    any (λ other. eq_string other.package_number parcel.package_number) packages
    || has_duplicates packages

unfoldable pub unmeasured : PackageCreate → Bool
unmeasured parcel =
    leb_ℤ parcel.weight (pos 0)
    || leb_ℤ parcel.length (pos 0)
    || leb_ℤ parcel.width (pos 0)
    || leb_ℤ parcel.height (pos 0)

-- the arguments of `consume_reservation`
unfoldable pub consumptions : List ReservationItem → List InventoryReservationConsumption
consumptions items =
    map (λ item. record { inventory_id = item.inventory_item_id; quantity = pos item.quantity })
      items

-- `labels[0]`, or an `IndexError`
unfoldable pub first_label : List (PackageCreate × ShippingLabel) → Option ShippingLabel
first_label [] = none
first_label ((parcel, label) ∷ packages) = some label

-- `ship_owned`
unfoldable pub ship_owned : ℕ → ℕ → ShipmentTransition → Action Shipment
unfolding get_owned one_of consumptions
ship_owned shipment_id customer_id values = do
  shipment ← get_owned shipment_id customer_id
  raise_if (not (one_of shipment.status (ShipmentStatus.packed ∷ [])))
      (conflict "The Shipment cannot make this lifecycle transition.")
  raise_if (shipment.version != values.expected_version) shipment_modified
  detail ← Reservations.detail_owned shipment.reservation_id customer_id
  raise_if (not (detail.0.status is ReservationStatus.consumed))
      (conflict "The Shipment Reservation is not consumed.")
  consumed ← Inventory.consume_reservation shipment.store_id (consumptions detail.1) values.actor_id
  now ← now_utc
  shipped ←
      transition_and_record shipment values.expected_version ShipmentStatus.shipped values.actor_id
        now none Bool.false "Shipment dispatched."
  write (shipment_event "shipment.shipped" shipped)
  return shipped

-- `cancel_owned`, `request_return_owned` and `return_owned`: one move from one status
unfoldable pub move_owned :
    ShipmentStatus
    → ShipmentStatus
    → Bool
    → String
    → String
    → ℕ
    → ℕ
    → ShipmentTransition
    → Action Shipment
unfolding get_owned one_of transition_and_record
move_owned allowed status archive description event shipment_id customer_id values = do
  shipment ← get_owned shipment_id customer_id
  raise_if (not (one_of shipment.status (allowed ∷ [])))
      (conflict "The Shipment cannot make this lifecycle transition.")
  raise_if (shipment.version != values.expected_version) shipment_modified
  now ← now_utc
  result ←
      transition_and_record shipment values.expected_version status values.actor_id now none archive
        description
  write (shipment_event event result)
  return result

unfoldable pub cancel_owned : ℕ → ℕ → ShipmentTransition → Action Shipment
unfolding move_owned
cancel_owned =
    move_owned ShipmentStatus.packed ShipmentStatus.cancelled Bool.true "Shipment cancelled."
      "shipment.cancelled"

unfoldable pub request_return_owned : ℕ → ℕ → ShipmentTransition → Action Shipment
unfolding move_owned
request_return_owned =
    move_owned ShipmentStatus.shipped ShipmentStatus.return_requested Bool.false
      "Shipment return requested." "shipment.return_requested"

unfoldable pub return_owned : ℕ → ℕ → ShipmentTransition → Action Shipment
unfolding move_owned
return_owned =
    move_owned ShipmentStatus.return_requested ShipmentStatus.returned Bool.false
      "Shipment returned." "shipment.returned"

-- the branch of `deliver_owned` on a shipment that is on no vehicle yet
unfoldable pub out_for_delivery : Shipment → ShipmentTransition → ℕ → Action Shipment
unfolding transition_and_record
out_for_delivery shipment values now =
    branch (shipment.status is ShipmentStatus.shipped)
      (do
        leaving ←
            transition_and_record shipment values.expected_version ShipmentStatus.out_for_delivery
              values.actor_id now none Bool.false "Out for delivery."
        write (shipment_event "shipment.out_for_delivery" leaving)
        return leaving)
      (return shipment)

-- `deliver_owned`
unfoldable pub deliver_owned : ℕ → ℕ → ShipmentTransition → Action Shipment
unfolding get_owned one_of out_for_delivery
deliver_owned shipment_id customer_id values = do
  shipment ← get_owned shipment_id customer_id
  raise_if
      (not (one_of shipment.status (ShipmentStatus.shipped ∷ ShipmentStatus.out_for_delivery ∷ [])))
      (conflict "The Shipment cannot make this lifecycle transition.")
  raise_if (shipment.version != values.expected_version) shipment_modified
  now ← now_utc
  leaving ← out_for_delivery shipment values now
  delivered ←
      transition_and_record leaving leaving.version ShipmentStatus.delivered values.actor_id now
        none Bool.false "Shipment delivered."
  write (shipment_event "shipment.delivered" delivered)
  return delivered

module _ (gateway : ShippingGateway) where
  -- the loop of `pack_owned`
  unfoldable pub label_each : ℕ → List PackageCreate → Action (List (PackageCreate × ShippingLabel))
  unfolding unmeasured
  label_each shipment_id [] = return []
  label_each shipment_id (parcel ∷ packages) = do
    raise_if (unmeasured parcel) (validation "packages" "Package measurements must be positive.")
    rest ← label_each shipment_id packages
    return ((parcel, gateway.create_label shipment_id parcel) ∷ rest)

  -- `pack_owned`
  unfoldable pub pack_owned : ℕ → ℕ → ShipmentPack → Action Shipment
  unfolding get_owned one_of has_duplicates label_each first_label
  pack_owned shipment_id customer_id values = do
    shipment ← get_owned shipment_id customer_id
    raise_if (not (one_of shipment.status (ShipmentStatus.ready_for_fulfillment ∷ [])))
        (conflict "The Shipment cannot make this lifecycle transition.")
    raise_if (shipment.version != values.expected_version) shipment_modified
    raise_if (is_empty values.packages) (validation "packages" "At least one package is required.")
    raise_if (has_duplicates values.packages)
        (validation "packages" "Package numbers must be unique.")
    packages ← label_each shipment.id values.packages
    add_many shipment.id packages
    now ← now_utc
    label ← require (first_label packages) (value_error "IndexError")
    packed ←
        transition_and_record shipment values.expected_version ShipmentStatus.packed values.actor_id
          now (some label) Bool.false "Shipment packed."
    write (shipment_event "shipment.packed" packed)
    return packed

  -- `create`, with the `lower` of Python's strings
  unfoldable pub create : (Text → Text) → ShipmentCreate → Action Shipment
  unfolding mismatched transition_and_record
  create lower values = do
    now ← now_utc
    payment ← Payments.get_owned values.payment_id values.actor_id
    order ← Orders.get_owned values.order_id values.actor_id
    detail ← Reservations.detail_owned values.reservation_id values.actor_id
    raise_if (not (payment.status is PaymentStatus.captured))
        (conflict "Shipments require a captured Payment.")
    raise_if (not (order.status is OrderStatus.confirmed))
        (conflict "Shipments require a confirmed Order.")
    raise_if (not (detail.0.status is ReservationStatus.consumed))
        (conflict "Shipments require a consumed Reservation.")
    raise_if (mismatched payment order detail.0)
        (conflict "Payment, Order, and Reservation ownership do not match.")
    existing ← gets (get_for_order order.id)
    raise_if (is_some existing) (conflict "This Order already has a Shipment.")
    let shipping_method = lower (strip values.shipping_method)
    raise_if (is_empty shipping_method || ltb 100 (length shipping_method))
        (validation "shipping_method" "Shipping method is invalid.")
    shipment ← add (record {
      order_id = order.id;
      reservation_id = detail.0.id;
      payment_id = payment.id;
      customer_id = order.customer_id;
      store_id = order.store_id;
      shipping_method = shipping_method;
      estimated_delivery_at = gateway.estimate shipping_method now;
      actor_id = values.actor_id;
    })
    add_tracking shipment.id shipment.status "Shipment created." now
    write (shipment_event "shipment.created" shipment)
    transition_and_record shipment shipment.version ShipmentStatus.ready_for_fulfillment
        values.actor_id now none Bool.false "Ready for fulfillment."

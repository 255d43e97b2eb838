-- ===== src/Payments/Service.antt =====
-- `PaymentService` of payments/application/services.py: authorizing, capturing and cancelling.
use apparel_network.Prelude.{ℕ, String, Bool, Option, none, some, List, [], ◌∷◌, not, ◌!=◌, any}
use apparel_network.Errors.{AppError, not_found, conflict, value_error}
use apparel_network.Tables.Enums.{PaymentStatus, payment_status_enum, ◌is◌}
use apparel_network.Tables.Commerce.{PaymentIntent}
use apparel_network.Session.{Action, return, fetch, require, raise_if, branch, now_utc, ◌>>=◌, ◌>>◌}
use apparel_network.Outbox.{DomainEvent, write}
use apparel_network.Orders.Service as Orders
use apparel_network.Payments.Gateway.{PaymentGateway, PaymentGatewayResult}
use apparel_network.Payments.Repository.{get_for_customer, transition, add_transaction}

abbrev pub payment_not_found : AppError
payment_not_found = not_found "Payment"

abbrev pub payment_modified : AppError
payment_modified = conflict "The Payment was modified by another request."

-- `_emit`, with the payload of payments/domain/events.py
unfoldable pub payment_event : String → PaymentIntent → DomainEvent
payment_event name payment = record {
  event_name = name;
  aggregate_type = "payment";
  aggregate_id = payment.id;
  payload =
      ("payment_id", payment.id)
      ∷ ("order_id", payment.order_id)
      ∷ ("customer_id", payment.customer_id)
      ∷ ("store_id", payment.store_id)
      ∷ ("version", payment.version)
      ∷ [];
}

pub record PaymentTransition : Type 0 where
  pub expected_version : ℕ
  pub actor_id : ℕ

-- `_transition_contract`: the event and the type of the transaction, or a `KeyError`
unfoldable pub transition_contract : PaymentStatus → Option (String × PaymentStatus)
transition_contract PaymentStatus.created = none
transition_contract PaymentStatus.authorized = some ("payment.authorized", PaymentStatus.authorized)
transition_contract PaymentStatus.captured = some ("payment.captured", PaymentStatus.captured)
transition_contract PaymentStatus.failed = some ("payment.failed", PaymentStatus.failed)
transition_contract PaymentStatus.cancelled = some ("payment.cancelled", PaymentStatus.cancelled)

-- `status in {...}`
unfoldable pub one_of : PaymentStatus → List PaymentStatus → Bool
one_of status expected = any (λ s. status is s) expected

-- `get_owned`
unfoldable pub get_owned : ℕ → ℕ → Action PaymentIntent
get_owned payment_id customer_id = fetch (get_for_customer payment_id customer_id) payment_not_found

-- `_apply_result`
unfoldable pub apply_result :
    PaymentIntent
    → PaymentTransition
    → PaymentGatewayResult
    → List PaymentStatus
    → Action PaymentIntent
unfolding one_of transition_contract
apply_result payment values result expected = do
  raise_if (not (one_of result.status expected))
      (conflict "The Payment provider returned an invalid transition.")
  now ← now_utc
  written ←
      transition payment.id payment.customer_id values.expected_version result.status now
        values.actor_id (result.status is PaymentStatus.cancelled)
  transitioned ← require written payment_modified
  contract ← require (transition_contract result.status) (value_error "KeyError")
  add_transaction transitioned result.provider_transaction_id contract.1 result.status
      result.payload now
  write (payment_event contract.0 transitioned)
  return transitioned

module _ (gateway : PaymentGateway) where
  -- `authorize_owned`
  unfoldable pub authorize_owned : ℕ → ℕ → PaymentTransition → Action PaymentIntent
  unfolding get_owned
  authorize_owned payment_id customer_id values = do
    payment ← get_owned payment_id customer_id
    raise_if (not (payment.status is PaymentStatus.created))
        (conflict "Only a created Payment can be authorized.")
    raise_if (payment.version != values.expected_version) payment_modified
    apply_result payment values (gateway.authorize payment.id payment.provider_reference)
        (PaymentStatus.authorized ∷ PaymentStatus.failed ∷ [])

  -- `if transitioned.status is PaymentStatus.CAPTURED` of `capture_owned`
  unfoldable pub confirm_order : PaymentIntent → PaymentIntent → ℕ → ℕ → Action Unit
  confirm_order payment transitioned customer_id actor_id =
      branch (transitioned.status is PaymentStatus.captured)
        (do
          order ← Orders.get_owned payment.order_id customer_id
          confirmed ←
              Orders.confirm_owned order.id customer_id
                (record { expected_version = order.version; actor_id = actor_id })
          return tt)
        (return tt)

  -- `capture_owned`
  unfoldable pub capture_owned : ℕ → ℕ → PaymentTransition → Action PaymentIntent
  unfolding get_owned
  capture_owned payment_id customer_id values = do
    payment ← get_owned payment_id customer_id
    raise_if (not (payment.status is PaymentStatus.authorized))
        (conflict "Only an authorized Payment can be captured.")
    raise_if (payment.version != values.expected_version) payment_modified
    transitioned ←
        apply_result payment values (gateway.capture payment.id payment.provider_reference)
          (PaymentStatus.captured ∷ PaymentStatus.failed ∷ [])
    confirm_order payment transitioned customer_id values.actor_id
    return transitioned

  -- `cancel_owned`
  unfoldable pub cancel_owned : ℕ → ℕ → PaymentTransition → Action PaymentIntent
  unfolding get_owned one_of
  cancel_owned payment_id customer_id values = do
    payment ← get_owned payment_id customer_id
    raise_if (not (one_of payment.status (PaymentStatus.created ∷ PaymentStatus.authorized ∷ [])))
        (conflict "Only a created or authorized Payment can be cancelled.")
    raise_if (payment.version != values.expected_version) payment_modified
    apply_result payment values (gateway.cancel payment.id payment.provider_reference)
        (PaymentStatus.cancelled ∷ PaymentStatus.failed ∷ [])

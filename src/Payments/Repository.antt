-- ===== src/Payments/Repository.antt =====
-- payments/infrastructure/repositories.py: selection by customer, the guarded write, and the ledger
-- of transactions.
use apparel_network.Prelude.{
  ℕ, ◌+◌, String, Bool, Option, some, List, [], ◌∷◌, ◌++◌, ◌&&◌, ◌==◌, is_none, scalar, save,
  if◌then◌else◌,
}
use apparel_network.Tables.Enums.{PaymentStatus, payment_status_enum, ◌is◌}
use apparel_network.Tables.Commerce.{PaymentIntent}
use apparel_network.Session.{Action, Tables, modify, uuid7, db_now, update_where, ◌>>=◌}

abbrev pub payment_key : PaymentIntent → ℕ
payment_key payment = payment.id

unfoldable pub store_payment : PaymentIntent → Tables → Tables
store_payment payment db = record db { payments = save payment_key payment db.payments }

-- `_model` without a version, and `get_for_customer`
unfoldable pub get_for_customer : ℕ → ℕ → Tables → Option PaymentIntent
get_for_customer payment_id customer_id db =
    scalar (λ p. (p.id == payment_id) && (p.customer_id == customer_id) && is_none p.deleted_at)
      db.payments

-- `_model` with a version
unfoldable pub select_version : ℕ → ℕ → ℕ → Tables → Option PaymentIntent
select_version payment_id customer_id version db =
    scalar
      (λ p.
        (p.id == payment_id)
        && (p.customer_id == customer_id)
        && is_none p.deleted_at
        && (p.version == version))
      db.payments

-- `if status is target: column = transitioned_at`
unfoldable pub stamp : PaymentStatus → PaymentStatus → ℕ → Option ℕ → Option ℕ
stamp target status transitioned_at column =
    if status is target then some transitioned_at else column

-- the assignments of `transition`
unfoldable pub transition_row : PaymentStatus → ℕ → ℕ → Bool → ℕ → PaymentIntent → PaymentIntent
unfolding stamp
transition_row status transitioned_at actor_id archive now payment = record payment {
  status = status;
  authorized_at = stamp PaymentStatus.authorized status transitioned_at payment.authorized_at;
  captured_at = stamp PaymentStatus.captured status transitioned_at payment.captured_at;
  failed_at = stamp PaymentStatus.failed status transitioned_at payment.failed_at;
  cancelled_at = stamp PaymentStatus.cancelled status transitioned_at payment.cancelled_at;
  deleted_at = if archive then some transitioned_at else payment.deleted_at;
  deleted_by_id = if archive then some actor_id else payment.deleted_by_id;
  updated_by_id = some actor_id;
  version = payment.version + 1;
  updated_at = now;
}

-- `transition`
unfoldable pub transition : ℕ → ℕ → ℕ → PaymentStatus → ℕ → ℕ → Bool → Action (Option PaymentIntent)
unfolding transition_row
transition payment_id customer_id expected_version status transitioned_at actor_id archive =
    update_where (select_version payment_id customer_id expected_version) store_payment
      (transition_row status transitioned_at actor_id archive)

-- `SqlAlchemyPaymentTransactionRepository.add`
unfoldable pub add_transaction :
    PaymentIntent
    → String
    → PaymentStatus
    → PaymentStatus
    → List (String × String)
    → ℕ
    → Action Unit
add_transaction payment provider_transaction_id event_type status payload occurred_at = do
  id ← uuid7
  now ← db_now
  modify λ db. record db {
    transactions =
        db.transactions
        ++ record {
          id = id;
          payment_intent_id = payment.id;
          provider_transaction_id = provider_transaction_id;
          event_type = event_type;
          status = status;
          amount = payment.amount;
          currency = payment.currency;
          provider_payload = payload;
          occurred_at = occurred_at;
          created_at = now;
        }
          ∷ [];
  }

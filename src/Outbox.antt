-- ===== src/Outbox.antt =====
-- The transactional outbox, as the services write it: events/infrastructure/publishers.py, and the
-- `*OutboxRepository.add` of the commerce modules. The worker's side is in the child `Delivery`.
pub mod Rules
pub mod Delivery
pub mod Lifecycle
pub mod Leases
pub mod Consistency
pub mod Claims
pub mod Receipts
use apparel_network.Prelude.{ℕ, String, none, List, [], ◌∷◌, ◌++◌}
use apparel_network.Tables.Enums.{OutboxStatus}
use apparel_network.Tables.Shipping.{OutboxEvent}
use apparel_network.Session.{Action, Tables, modify, now_utc, uuid7, db_now, ◌>>=◌, ◌>>◌}

-- A domain event: its class's `event_name`, the aggregate that the row is filed under, and its
-- payload's entries.
pub record DomainEvent : Type 0 where
  pub event_name : String
  pub aggregate_type : String
  pub aggregate_id : ℕ
  pub payload : List (String × ℕ)

-- The row that `EventOutboxModel(...)` stands for, with the column defaults.
unfoldable pub outbox_row : DomainEvent → ℕ → ℕ → ℕ → ℕ → OutboxEvent
outbox_row event event_id occurred_at available_at created_at = record {
  id = event_id;
  aggregate_type = event.aggregate_type;
  aggregate_id = event.aggregate_id;
  event_name = event.event_name;
  payload = event.payload;
  occurred_at = occurred_at;
  published_at = none;
  status = OutboxStatus.pending;
  retry_count = 0;
  available_at = available_at;
  attempts = 0;
  locked_at = none;
  locked_by = none;
  dispatched_at = none;
  last_error = none;
  created_at = created_at;
  updated_at = created_at;
  version = 1;
}

append_event : OutboxEvent → Tables → Tables
append_event row db = record db { outbox = db.outbox ++ row ∷ [] }

-- `TransactionalOutboxPublisher.publish`: the event is due at once.
unfoldable pub publish : DomainEvent → Action Unit
unfolding outbox_row append_event
publish event = do
  event_id ← uuid7
  occurred_at ← now_utc
  created_at ← db_now
  modify (append_event (outbox_row event event_id occurred_at occurred_at created_at))

-- `SqlAlchemy…OutboxRepository.add`: `available_at` is the column's default, `now()`.
unfoldable pub write : DomainEvent → Action Unit
unfolding outbox_row append_event
write event = do
  event_id ← uuid7
  occurred_at ← now_utc
  created_at ← db_now
  modify (append_event (outbox_row event event_id occurred_at created_at created_at))

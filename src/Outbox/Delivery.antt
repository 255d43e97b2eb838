-- ===== src/Outbox/Delivery.antt =====
-- `SqlAlchemyReliableOutboxRepository` of events/infrastructure/repositories.py, the worker's side
-- of the outbox. Times are in microseconds; `locked_at <= now - lease_timeout` is written without a
-- subtraction. Rows that other transactions have locked (`skip_locked`) are a parameter of `claim`.
use apparel_network.Prelude.{
  ℕ, String, Bool, true, false, Option, none, some, List, [], ◌∷◌, ◌++◌, ◌+◌, ◌-◌, ◌*◌, ◌^◌, ◌&&◌,
  ◌||◌, not, leb, ltb, ◌==◌, any, take, is_empty, select, sort_by, scalar, save, if◌then◌else◌,
}
use apparel_network.Prelude.Text.{Text, codes, normalize, eq_string}
use apparel_network.Tables.Enums.{OutboxStatus, outbox_status_enum, ◌is◌}
use apparel_network.Tables.Shipping.{OutboxEvent, EventConsumerReceipt}
use apparel_network.Session.{Action, Tables, return, gets, modify, ◌>>=◌, ◌>>◌}

-- `ClaimedEvent` of events/domain.py
pub record ClaimedEvent : Type 0 where
  pub id : ℕ
  pub event_name : String
  pub payload : List (String × ℕ)
  pub attempts : ℕ
  pub recovered : Bool

-- a nullable column against a value
unfoldable pub locked_before : Option ℕ → ℕ → ℕ → Bool
locked_before none lease_timeout now = false
locked_before (some t) lease_timeout now = leb (t + lease_timeout) now

unfoldable pub locked_by_worker : Option String → String → Bool
locked_by_worker none worker_id = false
locked_by_worker (some w) worker_id = eq_string w worker_id

-- `and_(status == PROCESSING, locked_at <= stale_before)`
unfoldable pub is_stale : ℕ → ℕ → OutboxEvent → Bool
unfolding locked_before
is_stale lease_timeout now row =
    (row.status is OutboxStatus.processing) && locked_before row.locked_at lease_timeout now

-- the `where` of `claim`
unfoldable pub claimable : List String → ℕ → ℕ → OutboxEvent → Bool
unfolding is_stale
claimable event_names lease_timeout now row =
    (((row.status is OutboxStatus.pending) && leb row.available_at now)
      || is_stale lease_timeout now row)
    && any (λ name. eq_string name row.event_name) event_names

-- `order_by(available_at, id)`
unfoldable pub due_order : OutboxEvent → OutboxEvent → Bool
due_order a b =
    ltb a.available_at b.available_at || ((a.available_at == b.available_at) && leb a.id b.id)

unfoldable pub claim_row : String → ℕ → OutboxEvent → OutboxEvent
claim_row worker_id now row = record row {
  status = OutboxStatus.processing;
  attempts = row.attempts + 1;
  locked_at = some now;
  locked_by = some worker_id;
  updated_at = now;
  version = row.version + 1;
}

unfoldable pub claimed_event : String → ℕ → OutboxEvent → ClaimedEvent
unfolding claim_row
claimed_event worker_id now row = record {
  id = row.id;
  event_name = row.event_name;
  payload = row.payload;
  attempts = (claim_row worker_id now row).attempts;
  recovered = row.status is OutboxStatus.processing;
}

abbrev pub event_key : OutboxEvent → ℕ
event_key row = row.id

unfoldable pub store_event : OutboxEvent → Tables → Tables
store_event row db = record db { outbox = save event_key row db.outbox }

-- the loop of `claim`
unfoldable pub claim_each : String → ℕ → List OutboxEvent → Action (List ClaimedEvent)
unfolding store_event claimed_event
claim_each worker_id now [] = return []
claim_each worker_id now (row ∷ rows) = do
  modify (store_event (claim_row worker_id now row))
  rest ← claim_each worker_id now rows
  return (claimed_event worker_id now row ∷ rest)

-- the rows that `claim` selects
unfoldable pub due : (ℕ → Bool) → List String → ℕ → ℕ → ℕ → Tables → List OutboxEvent
unfolding due_order
due skip event_names lease_timeout now limit db = take limit (
    sort_by due_order
      (select (λ row. claimable event_names lease_timeout now row && not (skip row.id)) db.outbox))

-- `claim`
unfoldable pub claim : (ℕ → Bool) → List String → String → ℕ → ℕ → ℕ → Action (List ClaimedEvent)
unfolding due
claim skip event_names worker_id now lease_timeout limit = do
  rows ← gets (due skip event_names lease_timeout now limit)
  claim_each worker_id now rows

-- the `where` of `_claimed`
unfoldable pub holds : ℕ → String → OutboxEvent → Bool
unfolding locked_by_worker
holds event_id worker_id row =
    (row.id == event_id)
    && (row.status is OutboxStatus.processing)
    && locked_by_worker row.locked_by worker_id

-- `_claimed`
unfoldable pub claimed : ℕ → String → Tables → Option OutboxEvent
claimed event_id worker_id db = scalar (holds event_id worker_id) db.outbox

-- `if row is None: return False`, and the statements on the row
unfoldable pub on_row : Option OutboxEvent → (OutboxEvent → Action Unit) → Action Bool
on_row none change = return false
on_row (some row) change = do change row; return true

-- the receipt, `on_conflict_do_nothing(event_id, consumer_name)`
unfoldable pub add_receipt :
    EventConsumerReceipt → List EventConsumerReceipt → List EventConsumerReceipt
add_receipt receipt receipts =
    if any
      (λ r. (r.event_id == receipt.event_id) && eq_string r.consumer_name receipt.consumer_name)
      receipts
    then receipts
    else receipts ++ receipt ∷ []

unfoldable pub acknowledge : ℕ → String → ℕ → Tables → Tables
unfolding add_receipt
acknowledge event_id consumer_name now db = record db {
  receipts =
      add_receipt
        (record { event_id = event_id; consumer_name = consumer_name; processed_at = now })
        db.receipts;
}

unfoldable pub processed_row : ℕ → OutboxEvent → OutboxEvent
processed_row now row = record row {
  status = OutboxStatus.published;
  published_at = some now;
  locked_at = none;
  locked_by = none;
  last_error = none;
  updated_at = now;
  version = row.version + 1;
}

-- `mark_processed`
unfoldable pub mark_processed : String → ℕ → String → ℕ → Action Bool
unfolding claimed on_row acknowledge store_event
mark_processed consumer_name event_id worker_id now = do
  row ← gets (claimed event_id worker_id)
  on_row row λ r. (do
    modify (acknowledge event_id consumer_name now)
    modify (store_event (processed_row now r)))

-- the assignments that `release` and `recover` share
unfoldable pub pending_row : ℕ → OutboxEvent → OutboxEvent
pending_row now row = record row {
  status = OutboxStatus.pending;
  available_at = now;
  locked_at = none;
  locked_by = none;
  updated_at = now;
  version = row.version + 1;
}

-- `release`
unfoldable pub release : ℕ → String → ℕ → Action Bool
unfolding claimed on_row store_event
release event_id worker_id now = do
  row ← gets (claimed event_id worker_id)
  on_row row λ r. modify (store_event (pending_row now r))

-- `_safe_error`
unfoldable pub safe_error : Text → Text
safe_error value =
    let normalized = normalize value in
    take 2000 (if is_empty normalized then codes "Event processing failed." else normalized)

-- what a failed attempt does to the row; the back-off is in microseconds
unfoldable pub failed_row : Text → ℕ → ℕ → ℕ → OutboxEvent → OutboxEvent
unfolding safe_error
failed_row error max_attempts retry_base_seconds now row = record row {
  status = if leb max_attempts row.attempts then OutboxStatus.failed else OutboxStatus.pending;
  retry_count = row.attempts;
  available_at = now + retry_base_seconds * 2 ^ (row.attempts - 1) * 1000000;
  locked_at = none;
  locked_by = none;
  last_error = some (safe_error error);
  updated_at = now;
  version = row.version + 1;
}

-- `mark_failed`
unfoldable pub mark_failed : ℕ → String → ℕ → Text → ℕ → ℕ → Action Bool
unfolding claimed on_row store_event
mark_failed event_id worker_id now error max_attempts retry_base_seconds = do
  row ← gets (claimed event_id worker_id)
  on_row row λ r. modify (store_event (failed_row error max_attempts retry_base_seconds now r))

-- the `where` of `inspect_problematic` and `recover`
unfoldable pub is_problematic : ℕ → ℕ → OutboxEvent → Bool
unfolding is_stale
is_problematic lease_timeout now row =
    (row.status is OutboxStatus.failed) || is_stale lease_timeout now row

-- `order_by(updated_at, id)`
unfoldable pub update_order : OutboxEvent → OutboxEvent → Bool
update_order a b =
    ltb a.updated_at b.updated_at || ((a.updated_at == b.updated_at) && leb a.id b.id)

-- `inspect_problematic`
unfoldable pub inspect_problematic : ℕ → ℕ → ℕ → Tables → List OutboxEvent
unfolding update_order
inspect_problematic now lease_timeout limit db =
    take limit (sort_by update_order (select (is_problematic lease_timeout now) db.outbox))

-- the statements of `recover` after the query; `_inspection` is a view of the row
unfoldable pub recover_row : Option OutboxEvent → ℕ → Action (Option OutboxEvent)
unfolding store_event
recover_row none now = return none
recover_row (some row) now = do
  modify (store_event (pending_row now row))
  return (some (pending_row now row))

-- `recover`
unfoldable pub recover : ℕ → ℕ → ℕ → Action (Option OutboxEvent)
unfolding recover_row
recover event_id now lease_timeout = do
  row ← gets λ db. scalar (λ r. (r.id == event_id) && is_problematic lease_timeout now r) db.outbox
  recover_row row now

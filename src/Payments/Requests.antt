-- ===== src/Payments/Requests.antt =====
-- The requests on a payment, and what every sequence of them keeps.
use apparel_network.Prelude.{ℕ, ◌≡◌, refl, sym, ◌∙◌, All}
use apparel_network.Tables.Enums.{PaymentStatus}
use apparel_network.Tables.Commerce.{PaymentIntent}
use apparel_network.Session.{Session, Tables, Action, discard}
use apparel_network.Session.Preserves.{Preserves, Preserves-discard}
use apparel_network.Session.Runs.{Runs, Runs-keeps}
use apparel_network.Payments.Gateway.{PaymentGateway}
use apparel_network.Payments.Repository.{transition_row}
use apparel_network.Payments.Service.{
  PaymentTransition, authorize_owned, capture_owned, cancel_owned,
}
use apparel_network.Payments.Lifecycle.{Step, Move, IsLifecycle, Step-IsLifecycle}
use apparel_network.Payments.Steps.{authorize_owned-steps, capture_owned-steps, cancel_owned-steps}

-- Each request meets the provider as it is at that time.
pub data Request : Type 0 where
  authorization : PaymentGateway → (payment_id customer_id : ℕ) → PaymentTransition → Request
  capture : PaymentGateway → (payment_id customer_id : ℕ) → PaymentTransition → Request
  cancellation : PaymentGateway → (payment_id customer_id : ℕ) → PaymentTransition → Request

unfoldable pub handle : Request → Action Unit
handle (Request.authorization gateway payment_id customer_id values) =
    discard (authorize_owned gateway payment_id customer_id values)
handle (Request.capture gateway payment_id customer_id values) =
    discard (capture_owned gateway payment_id customer_id values)
handle (Request.cancellation gateway payment_id customer_id values) =
    discard (cancel_owned gateway payment_id customer_id values)

payments-keep :
    (P : PaymentIntent → Type 0)
    → ((p p' : PaymentIntent) → Step p p' → P p → P p')
    → (db db' : Tables) → Runs handle db db'
    → All P db.payments
    → All P db'.payments
payments-keep P step db db' runs all =
    Runs-keeps handle (λ d. All P d.payments) keep db db' runs all
  where
    keep :
        (r : Request) (s : Session)
        → All P s.db.payments
        → Preserves (λ s'. All P s'.db.payments) (handle r) s
    keep (Request.authorization gateway id customer values) s h =
        unfold handle in
        Preserves-discard _ s (authorize_owned-steps P step gateway id customer values s h)
    keep (Request.capture gateway id customer values) s h =
        unfold handle in
        Preserves-discard _ s (capture_owned-steps P step gateway id customer values s h)
    keep (Request.cancellation gateway id customer values) s h =
        unfold handle in
        Preserves-discard _ s (cancel_owned-steps P step gateway id customer values s h)

-- Whatever authorizations, captures and cancellations are made, whatever the provider answers and
-- however they end, the table of payments goes on to satisfy the constraint that ties a payment's
-- timestamps to its status.
pub payments-IsLifecycle :
    (db db' : Tables)
    → Runs handle db db'
    → All IsLifecycle db.payments
    → All IsLifecycle db'.payments
payments-IsLifecycle = payments-keep IsLifecycle Step-IsLifecycle

-- A payment that is settled: the statuses that no move leaves.
abbrev pub IsSettled : PaymentStatus → Type 0
IsSettled PaymentStatus.captured = Unit
IsSettled PaymentStatus.failed = Unit
IsSettled PaymentStatus.cancelled = Unit
IsSettled _ = ⊥

settled_refused : (old new : PaymentStatus) → IsSettled old → Move old new → ⊥
settled_refused _ _ h Move.authorization = absurd h
settled_refused _ _ h Move.refusal = absurd h
settled_refused _ _ h Move.withdrawal = absurd h
settled_refused _ _ h Move.settlement = absurd h
settled_refused _ _ h Move.failure = absurd h
settled_refused _ _ h Move.reversal = absurd h

Step-id : (p p' : PaymentIntent) → Step p p' → p'.id ≡ p.id
unfolding transition_row
Step-id p _ (Step.moving _ status at actor now move) = refl

-- A captured, failed or cancelled payment stays what it is, the row with its identifier, along every
-- sequence of authorizations, captures and cancellations.
pub settled_payment_final :
    (settled : PaymentIntent) (db db' : Tables)
    → Runs handle db db'
    → IsSettled settled.status
    → All (λ p. p.id ≡ settled.id → p ≡ settled) db.payments
    → All (λ p. p.id ≡ settled.id → p ≡ settled) db'.payments
settled_payment_final settled db db' runs done h = payments-keep _ step db db' runs h
  where
    refused : (p p' : PaymentIntent) → Step p p' → p ≡ settled → ⊥
    refused p _ (Step.moving _ status at actor now move) same =
        settled_refused p.status status (rw same done) move

    step :
        (p p' : PaymentIntent)
        → Step p p'
        → (p.id ≡ settled.id → p ≡ settled)
        → p'.id ≡ settled.id
        → p' ≡ settled
    step p p' move held same = absurd (refused p p' move (held (sym (Step-id p p' move) ∙ same)))

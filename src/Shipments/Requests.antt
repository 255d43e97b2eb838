-- ===== src/Shipments/Requests.antt =====
-- The requests on the shipments, and what every sequence of them keeps.
use apparel_network.Prelude.{ℕ, ◌≡◌, refl, sym, ◌∙◌, Bool, All}
use apparel_network.Prelude.Text.{Text}
use apparel_network.Tables.Enums.{ShipmentStatus}
use apparel_network.Tables.Shipping.{Shipment}
use apparel_network.Session.{Session, Tables, Action, discard}
use apparel_network.Session.Preserves.{Preserves, Preserves-discard}
use apparel_network.Session.Runs.{Runs, Runs-keeps}
use apparel_network.Shipments.Gateway.{ShippingGateway}
use apparel_network.Shipments.Repository.{transition_row}
use apparel_network.Shipments.Service.{
  ShipmentCreate, ShipmentPack, ShipmentTransition, create, pack_owned, ship_owned, deliver_owned,
  cancel_owned, request_return_owned, return_owned,
}
use apparel_network.Shipments.Lifecycle.{
  Step, Move, IsLifecycle, Step-IsLifecycle, shipment_row-IsLifecycle,
}
use apparel_network.Shipments.Handlers.{
  pack_owned-steps, ship_owned-steps, deliver_owned-steps, move_owned-steps,
}
use apparel_network.Shipments.Creation.{create-steps}

-- The requests on a shipment that exists; each meets the carrier as it is at that time.
pub data Handling : Type 0 where
  packing : ShippingGateway → (shipment_id customer_id : ℕ) → ShipmentPack → Handling
  dispatch : (shipment_id customer_id : ℕ) → ShipmentTransition → Handling
  delivery : (shipment_id customer_id : ℕ) → ShipmentTransition → Handling
  cancellation : (shipment_id customer_id : ℕ) → ShipmentTransition → Handling
  return_request : (shipment_id customer_id : ℕ) → ShipmentTransition → Handling
  homecoming : (shipment_id customer_id : ℕ) → ShipmentTransition → Handling

unfoldable pub handle : Handling → Action Unit
handle (Handling.packing gateway id customer values) =
    discard (pack_owned gateway id customer values)
handle (Handling.dispatch id customer values) = discard (ship_owned id customer values)
handle (Handling.delivery id customer values) = discard (deliver_owned id customer values)
handle (Handling.cancellation id customer values) = discard (cancel_owned id customer values)
handle (Handling.return_request id customer values) =
    discard (request_return_owned id customer values)
handle (Handling.homecoming id customer values) = discard (return_owned id customer values)

pub data Request : Type 0 where
  handling : Handling → Request
  creation : ShippingGateway → (Text → Text) → ShipmentCreate → Request

unfoldable pub answer : Request → Action Unit
answer (Request.handling request) = handle request
answer (Request.creation gateway lower values) = discard (create gateway lower values)

handle-keeps :
    (P : Shipment → Type 0)
    → ((r r' : Shipment) → Step r r' → P r → P r')
    → (request : Handling) (s : Session) → All P s.db.shipments
    → Preserves (λ s'. All P s'.db.shipments) (handle request) s
unfolding handle cancel_owned request_return_owned return_owned
handle-keeps P step (Handling.packing gateway id customer values) s h =
    Preserves-discard _ s (pack_owned-steps P step gateway id customer values s h)
handle-keeps P step (Handling.dispatch id customer values) s h =
    Preserves-discard _ s (ship_owned-steps P step id customer values s h)
handle-keeps P step (Handling.delivery id customer values) s h =
    Preserves-discard _ s (deliver_owned-steps P step id customer values s h)
handle-keeps P step (Handling.cancellation id customer values) s h =
    Preserves-discard _ s
      (move_owned-steps P step _ _ _ _ _ id customer values s Move.cancellation h)
handle-keeps P step (Handling.return_request id customer values) s h =
    Preserves-discard _ s
      (move_owned-steps P step _ _ _ _ _ id customer values s Move.return_request h)
handle-keeps P step (Handling.homecoming id customer values) s h =
    Preserves-discard _ s (move_owned-steps P step _ _ _ _ _ id customer values s Move.homecoming h)

-- Whatever shipments are created, packed, dispatched, delivered, cancelled and returned, whatever the
-- carrier answers and however the requests end, the table of shipments goes on to satisfy the
-- constraints that tie a shipment's timestamps to its status.
pub shipments-IsLifecycle :
    (db db' : Tables)
    → Runs answer db db'
    → All IsLifecycle db.shipments
    → All IsLifecycle db'.shipments
shipments-IsLifecycle db db' runs all =
    Runs-keeps answer (λ d. All IsLifecycle d.shipments) keep db db' runs all
  where
    keep :
        (request : Request) (s : Session)
        → All IsLifecycle s.db.shipments
        → Preserves (λ s'. All IsLifecycle s'.db.shipments) (answer request) s
    keep (Request.handling request) s h =
        unfold answer in handle-keeps IsLifecycle Step-IsLifecycle request s h
    keep (Request.creation gateway lower values) s h =
        unfold answer in
        Preserves-discard _ s (
          create-steps IsLifecycle Step-IsLifecycle shipment_row-IsLifecycle gateway lower values s
            h)

-- The statuses that no move leaves.
abbrev pub IsClosed : ShipmentStatus → Type 0
IsClosed ShipmentStatus.delivered = Unit
IsClosed ShipmentStatus.cancelled = Unit
IsClosed ShipmentStatus.returned = Unit
IsClosed _ = ⊥

closed_refused :
    (old new : ShipmentStatus) (archive : Bool) → IsClosed old → Move old new archive → ⊥
closed_refused _ _ _ h Move.preparation = absurd h
closed_refused _ _ _ h Move.packing = absurd h
closed_refused _ _ _ h Move.dispatch = absurd h
closed_refused _ _ _ h Move.cancellation = absurd h
closed_refused _ _ _ h Move.departure = absurd h
closed_refused _ _ _ h Move.delivery = absurd h
closed_refused _ _ _ h Move.return_request = absurd h
closed_refused _ _ _ h Move.homecoming = absurd h

Step-id : (r r' : Shipment) → Step r r' → r'.id ≡ r.id
unfolding transition_row
Step-id r _ (Step.moving _ status at actor label archive now move) = refl

-- A delivered, cancelled or returned shipment stays what it is, the row with its identifier, along
-- every sequence of requests that pack, dispatch, deliver, cancel and return shipments.
pub closed_shipment_final :
    (closed : Shipment) (db db' : Tables)
    → Runs handle db db'
    → IsClosed closed.status
    → All (λ r. r.id ≡ closed.id → r ≡ closed) db.shipments
    → All (λ r. r.id ≡ closed.id → r ≡ closed) db'.shipments
closed_shipment_final closed db db' runs done h =
    Runs-keeps handle (λ d. All (λ r. r.id ≡ closed.id → r ≡ closed) d.shipments)
      (handle-keeps (λ r. r.id ≡ closed.id → r ≡ closed) step) db db' runs h
  where
    refused : (r r' : Shipment) → Step r r' → r ≡ closed → ⊥
    refused r _ (Step.moving _ status at actor label archive now move) same =
        closed_refused r.status status archive (rw same done) move

    step :
        (r r' : Shipment)
        → Step r r'
        → (r.id ≡ closed.id → r ≡ closed)
        → r'.id ≡ closed.id
        → r' ≡ closed
    step r r' move held same = absurd (refused r r' move (held (sym (Step-id r r' move) ∙ same)))

-- ===== src/Orders/Requests.antt =====
-- The requests on an order, and what every sequence of them keeps.
use apparel_network.Prelude.{ℕ, ◌≡◌, refl, sym, ◌∙◌, All, arith}
use apparel_network.Tables.Enums.{OrderStatus}
use apparel_network.Tables.Commerce.{Order}
use apparel_network.Session.{Session, Tables, Action, discard}
use apparel_network.Session.Preserves.{Preserves, Preserves-discard}
use apparel_network.Session.Runs.{Runs, Runs-keeps}
use apparel_network.Orders.Repository.{transition_row, archive_row}
use apparel_network.Orders.Service.{OrderConfirm, confirm_owned, cancel_owned}
use apparel_network.Orders.Lifecycle.{
  Step, IsLifecycle, Step-IsLifecycle, confirm_owned-steps, cancel_owned-steps,
}

pub data Request : Type 0 where
  confirmation : (order_id customer_id : ℕ) → OrderConfirm → Request
  cancellation : (order_id customer_id expected_version : ℕ) → Request

unfoldable pub handle : Request → Action Unit
handle (Request.confirmation order_id customer_id values) =
    discard (confirm_owned order_id customer_id values)
handle (Request.cancellation order_id customer_id version) =
    cancel_owned order_id customer_id version

-- What the steps of an order keep, every sequence of requests keeps of all orders.
pub orders-keep :
    (P : Order → Type 0)
    → ((o o' : Order) → Step o o' → P o → P o')
    → (db db' : Tables) → Runs handle db db'
    → All P db.orders
    → All P db'.orders
orders-keep P step db db' runs all = Runs-keeps handle (λ d. All P d.orders) keep db db' runs all
  where
    keep :
        (r : Request) (s : Session)
        → All P s.db.orders
        → Preserves (λ s'. All P s'.db.orders) (handle r) s
    keep (Request.confirmation order_id customer_id values) s h =
        unfold handle in
        Preserves-discard _ s (confirm_owned-steps P step order_id customer_id values s h)
    keep (Request.cancellation order_id customer_id version) s h =
        unfold handle in cancel_owned-steps P step order_id customer_id version s h

-- Whatever confirmations and cancellations are made and however they end, the table of orders goes
-- on to satisfy the constraint that ties an order's timestamps to its status.
pub orders-IsLifecycle :
    (db db' : Tables) → Runs handle db db' → All IsLifecycle db.orders → All IsLifecycle db'.orders
orders-IsLifecycle = orders-keep IsLifecycle Step-IsLifecycle

-- The parts of an order that are frozen when it is placed.
pub record IsPlacedAs (placed o : Order) : Type 0 where
  pub checkout : o.checkout_session_id ≡ placed.checkout_session_id
  pub customer : o.customer_id ≡ placed.customer_id
  pub store : o.store_id ≡ placed.store_id
  pub number : o.order_number ≡ placed.order_number
  pub currency : o.currency ≡ placed.currency
  pub subtotal : o.subtotal ≡ placed.subtotal
  pub time : o.placed_at ≡ placed.placed_at

-- Along every sequence of confirmations and cancellations an order's checkout, customer, store,
-- number, currency, subtotal and time never change, and a cancelled order stays cancelled.
pub placed_order_frozen :
    (placed : Order) (db db' : Tables)
    → Runs handle db db'
    → All
        (λ o.
          o.id ≡ placed.id
          → IsPlacedAs placed o
            × (placed.status ≡ OrderStatus.cancelled → o.status ≡ OrderStatus.cancelled))
        db.orders
    → All
        (λ o.
          o.id ≡ placed.id
          → IsPlacedAs placed o
            × (placed.status ≡ OrderStatus.cancelled → o.status ≡ OrderStatus.cancelled))
        db'.orders
placed_order_frozen placed db db' runs h = orders-keep _ step db db' runs h
  where
    copy : (o o' : Order) → Step o o' → IsPlacedAs placed o → IsPlacedAs placed o'
    copy o _ (Step.confirming _ at actor now p) h =
        unfold transition_row in
        record {
          checkout = h.checkout;
          customer = h.customer;
          store = h.store;
          number = h.number;
          currency = h.currency;
          subtotal = h.subtotal;
          time = h.time;
        }
    copy o _ (Step.cancelling _ at actor now p) h =
        unfold archive_row in
        record {
          checkout = h.checkout;
          customer = h.customer;
          store = h.store;
          number = h.number;
          currency = h.currency;
          subtotal = h.subtotal;
          time = h.time;
        }

    id_of : (o o' : Order) → Step o o' → o'.id ≡ o.id
    id_of o _ (Step.confirming _ at actor now p) = unfold transition_row in refl
    id_of o _ (Step.cancelling _ at actor now p) = unfold archive_row in refl

    cancelled :
        (o o' : Order)
        → Step o o'
        → o.status ≡ OrderStatus.cancelled
        → o'.status ≡ OrderStatus.cancelled
    cancelled o _ (Step.confirming _ at actor now p) e = ground arith
    cancelled o _ (Step.cancelling _ at actor now p) e = unfold archive_row in refl

    step :
        (o o' : Order)
        → Step o o'
        → (o.id ≡ placed.id
            → IsPlacedAs placed o
              × (placed.status ≡ OrderStatus.cancelled → o.status ≡ OrderStatus.cancelled))
        → o'.id ≡ placed.id
        → IsPlacedAs placed o'
          × (placed.status ≡ OrderStatus.cancelled → o'.status ≡ OrderStatus.cancelled)
    step o o' move held same =
        let (as_placed, gone) = held (sym (id_of o o' move) ∙ same) in
        (copy o o' move as_placed, λ e. cancelled o o' move (gone e))

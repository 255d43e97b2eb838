-- ===== src/Payments/Capture.antt =====
-- Capturing a payment confirms its order, in the same transaction.
use apparel_network.Prelude.{
  ℕ, ◌≡◌, refl, sym, subst, ◌∙◌, ap, Bool, true, some, List, All, All-save, save, without_version,
  keep_if_inv, ◌==◌, ◌&&◌, scalar_test, ==_iff, is_none, arith,
}
use apparel_network.Tables.Enums.{PaymentStatus, payment_status_enum, OrderStatus, ◌is◌, is_refl}
use apparel_network.Tables.Commerce.{PaymentIntent, Order}
use apparel_network.Session.{Session, Tables}
use apparel_network.Session.Rules.{
  Ensures, Ensures-return, Ensures-bind, Ensures-raise_if, Ensures-branch, Ensures-now,
  Ensures-require,
}
use apparel_network.Session.Queries.{Ensures-fetch, Ensures-update_where}
use apparel_network.Outbox.Rules.{Ensures-write}
use apparel_network.Outbox.Claims.{All-true}
use apparel_network.Orders.Repository as OrderRepository
use apparel_network.Orders.Service as OrderService
use apparel_network.Orders.Service.{OrderConfirm}
use apparel_network.Payments.Gateway.{PaymentGateway, PaymentGatewayResult}
use apparel_network.Payments.Repository.{select_version, transition, transition_row}
use apparel_network.Payments.Service.{
  PaymentTransition, get_owned, apply_result, capture_owned, confirm_order,
}
use apparel_network.Payments.Transactions.{Ensures-add_transaction}
use apparel_network.Payments.Lifecycle.{select_version-get_for_customer}
use mathlib.Core.Option.{some-injective}

-- every row of orders that goes by an identifier is confirmed
abbrev pub IsConfirmed : ℕ → Session → Type 0
IsConfirmed order_id s = All (λ o. o.id ≡ order_id → o.status ≡ OrderStatus.confirmed) s.orders

head3 : (a b c : Bool) → (a && b && c) ≡ true → a ≡ true
head3 a b c h = ground arith

get_for_customer-id :
    (order_id customer_id : ℕ) (db : Tables) (order : Order)
    → OrderRepository.get_for_customer order_id customer_id db ≡ some order
    → order.id ≡ order_id
unfolding OrderRepository.get_for_customer
get_for_customer-id order_id customer_id db order e = (==_iff _ _).0 (
    head3 (order.id == order_id) (order.customer_id == customer_id) (is_none order.deleted_at)
      (scalar_test _ db.orders e))

select_version-id :
    (order_id customer_id version : ℕ) (db : Tables) (order : Order)
    → OrderRepository.select_version order_id customer_id version db ≡ some order
    → order.id ≡ order_id
unfolding OrderRepository.select_version
select_version-id order_id customer_id version db order e = (==_iff _ _).0 (
    head3 (order.id == order_id) (order.customer_id == customer_id) (is_none order.deleted_at) (
      without_version (order.id == order_id) (order.customer_id == customer_id)
        (is_none order.deleted_at) (order.version == version) (scalar_test _ db.orders e)))

confirm_owned-IsConfirmed :
    (order_id customer_id : ℕ) (values : OrderConfirm) (s : Session)
    → Ensures
        (OrderService.confirm_owned order_id customer_id values)
        s
        (λ o s'. IsConfirmed order_id s')
unfolding OrderService.confirm_owned OrderService.get_owned OrderRepository.transition
    OrderRepository.store_order
confirm_owned-IsConfirmed order_id customer_id values s = Ensures-fetch _ _ _ λ order found.
    Ensures-raise_if _ λ _. Ensures-now λ now. Ensures-update_where _ _ _ _ _ λ row selected.
      let same : row.id ≡ order_id =
        select_version-id order.id customer_id _ s.db row ((keep_if_inv _ _ selected).0)
        ∙ get_for_customer-id order_id customer_id s.db order found in
      Ensures-write _ λ event.
        Ensures-return _ _ (unfold OrderRepository.transition_row in confirmed row same _ _ _)
  where
    confirmed :
        (row : Order)
        → row.id ≡ order_id
        → (at now actor : ℕ)
        → let row' = OrderRepository.transition_row OrderStatus.confirmed at actor now row in
          All
            (λ o. o.id ≡ order_id → o.status ≡ OrderStatus.confirmed)
            (save OrderRepository.order_key row' s.orders)
    confirmed row same at now actor =
        unfold OrderRepository.transition_row in
        All-save OrderRepository.order_key (λ _. Unit) _ _ s.orders (All-true s.orders)
          (λ x _ ne e. absurd (ne (e ∙ sym same))) (λ _. refl)

-- The payment that is written belongs to the same order.
apply_result-order_id :
    (payment : PaymentIntent) (values : PaymentTransition) (result : PaymentGatewayResult)
    (expected : List PaymentStatus) (s : Session)
    → select_version payment.id payment.customer_id values.expected_version s.db ≡ some payment
    → Ensures
        (apply_result payment values result expected)
        s
        (λ p s'. p.order_id ≡ payment.order_id)
unfolding apply_result transition
apply_result-order_id payment values result expected s selected = Ensures-raise_if _ λ allowed.
    Ensures-now λ now. Ensures-update_where _ _ _ _ _ λ row found.
      Ensures-require _ λ contract named. Ensures-add_transaction _ _ _ _ _ _ λ rows.
        Ensures-write _ λ event. Ensures-return _ _ (
          unfold transition_row in
          ap (λ p. p.order_id) (some-injective row payment (sym found ∙ selected)))

confirm_order-IsConfirmed :
    (gateway : PaymentGateway) (payment transitioned : PaymentIntent) (customer_id actor_id : ℕ)
    (s : Session)
    → transitioned.order_id ≡ payment.order_id
    → Ensures (confirm_order gateway payment transitioned customer_id actor_id) s (λ _ s'.
      transitioned.status ≡ PaymentStatus.captured → IsConfirmed transitioned.order_id s')
unfolding confirm_order OrderService.get_owned
confirm_order-IsConfirmed gateway payment transitioned customer_id actor_id s same =
    Ensures-branch _ _
      (λ _. Ensures-fetch _ _ _ λ order found.
        Ensures-bind (confirm_owned-IsConfirmed order.id customer_id _ _) λ confirmed s' done.
          Ensures-return _ _ λ _.
            subst (λ id. IsConfirmed id s')
              (get_for_customer-id payment.order_id customer_id s.db order found ∙ sym same) done)
      (λ no. Ensures-return _ _ λ e. cc (no, captured e))
  where
    captured :
        transitioned.status ≡ PaymentStatus.captured
        → (transitioned.status is PaymentStatus.captured) ≡ true
    captured e = rw e (is_refl PaymentStatus.captured)

-- Whatever the provider answers: when `capture_owned` returns a captured payment, the payment's
-- order is confirmed in the same transaction.
pub capture_owned-IsConfirmed :
    (gateway : PaymentGateway) (payment_id customer_id : ℕ) (values : PaymentTransition)
    (s : Session)
    → Ensures
        (capture_owned gateway payment_id customer_id values)
        s
        (λ p s'. p.status ≡ PaymentStatus.captured → IsConfirmed p.order_id s')
unfolding capture_owned get_owned
capture_owned-IsConfirmed gateway payment_id customer_id values s =
    Ensures-fetch _ _ _ λ payment found. Ensures-raise_if _ λ authorized.
      Ensures-raise_if _ λ version.
        Ensures-bind
          (apply_result-order_id payment values _ _ s
            (select_version-get_for_customer payment_id customer_id _ s.db payment found version))
          λ transitioned s' same.
            Ensures-bind
              (confirm_order-IsConfirmed gateway payment transitioned customer_id values.actor_id s'
                same)
              λ _ s'' done. Ensures-return _ _ done

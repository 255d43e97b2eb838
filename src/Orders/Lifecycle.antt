-- ===== src/Orders/Lifecycle.antt =====
-- The life of an order: pending, confirmed, cancelled. Every row of the table moves by these steps
-- alone, so what the steps keep all orders keep.
use apparel_network.Prelude.{
  ℕ, ◌≤◌, ◌≡◌, refl, true, none, All, All-save, All-scalar, keep_if_inv, is_some, arith,
}
use apparel_network.Tables.Enums.{OrderStatus, order_status_enum, is→eq}
use apparel_network.Tables.Commerce.{Order}
use apparel_network.Session.{Session}
use apparel_network.Session.Preserves.{
  Preserves, Preserves-return, Preserves-raise_if, Preserves-now, Preserves-fetch,
  Preserves-update_where,
}
use apparel_network.Outbox.Rules.{Preserves-write, Preserves-write_last}
use apparel_network.Orders.Repository.{
  order_key, store_order, select_version, transition, transition_row, archive, archive_row,
}
use apparel_network.Orders.Service.{OrderConfirm, get_owned, confirm_owned, cancel_owned}

-- One step of an order.
pub data Step : Order → Order → Type 0 where
  confirming :
      (order : Order) (at actor_id now : ℕ)
      → order.status ≡ OrderStatus.pending
      → Step order (transition_row OrderStatus.confirmed at actor_id now order)
  cancelling :
      (order : Order) (at actor_id now : ℕ)
      → order.status ≡ OrderStatus.confirmed
      → Step order (archive_row at actor_id now order)

module _ (P : Order → Type 0) (step : (o o' : Order) → Step o o' → P o → P o') where
  abbrev KeepsOrders : Session → Type 0
  KeepsOrders s = All P s.orders

  stored_order :
      (o o' : Order) (s : Session) → All P s.orders → P o' → All P (store_order o' s.db).orders
  unfolding store_order
  stored_order o o' s all new = All-save order_key P P o' s.orders all (λ x p ne. p) new

  pub confirm_owned-steps :
      (order_id customer_id : ℕ) (values : OrderConfirm) (s : Session)
      → All P s.orders
      → Preserves (λ s'. All P s'.orders) (confirm_owned order_id customer_id values) s
  unfolding confirm_owned get_owned transition
  confirm_owned-steps order_id customer_id values s all = Preserves-fetch _ _ _ all λ order found.
      Preserves-raise_if _ all λ _. Preserves-now _ (
        Preserves-update_where _ _ _ _ _ all λ row selected.
          let (same, pending) = keep_if_inv _ _ selected in
          let new =
            step row _ (confirming row _ _ _ (is→eq row.status OrderStatus.pending pending))
              (unfold select_version in All-scalar P _ s.orders all same) in
          Preserves-write _ λ event. Preserves-return _ _ (stored_order row _ s all new))

  pub cancel_owned-steps :
      (order_id customer_id expected_version : ℕ) (s : Session)
      → All P s.orders
      → Preserves (λ s'. All P s'.orders) (cancel_owned order_id customer_id expected_version) s
  unfolding cancel_owned get_owned archive
  cancel_owned-steps order_id customer_id expected_version s all =
      Preserves-fetch _ _ _ all λ order found. Preserves-raise_if _ all λ _. Preserves-now _ (
        Preserves-update_where _ _ _ _ _ all λ row selected.
          let (same, confirmed) = keep_if_inv _ _ selected in
          let new =
            step row _ (cancelling row _ _ _ (is→eq row.status OrderStatus.confirmed confirmed))
              (unfold select_version in All-scalar P _ s.orders all same) in
          Preserves-write_last _ λ event. stored_order row _ s all new)

-- the constraint `lifecycle_timestamps` of the table, with `version_positive`
pub record IsLifecycle (o : Order) : Type 0 where
  pub pending :
      o.status ≡ OrderStatus.pending
      → (o.confirmed_at ≡ none) × (o.cancelled_at ≡ none) × (o.deleted_at ≡ none)
  pub confirmed :
      o.status ≡ OrderStatus.confirmed
      → (is_some o.confirmed_at ≡ true) × (o.cancelled_at ≡ none) × (o.deleted_at ≡ none)
  pub cancelled :
      o.status ≡ OrderStatus.cancelled
      → (is_some o.confirmed_at ≡ true)
        × (is_some o.cancelled_at ≡ true)
        × (is_some o.deleted_at ≡ true)
  pub version_positive : 1 ≤ o.version

pub Step-IsLifecycle : (o o' : Order) → Step o o' → IsLifecycle o → IsLifecycle o'
unfolding transition_row archive_row
Step-IsLifecycle o _ (Step.confirming _ at actor now p) h = record {
  pending = λ e. ground arith;
  confirmed = λ _. (refl, (h.pending p).1, (h.pending p).2);
  cancelled = λ e. ground arith;
  version_positive = omega arith;
}
Step-IsLifecycle o _ (Step.cancelling _ at actor now p) h = record {
  pending = λ e. ground arith;
  confirmed = λ e. ground arith;
  cancelled = λ _. ((h.confirmed p).0, refl, refl);
  version_positive = omega arith;
}

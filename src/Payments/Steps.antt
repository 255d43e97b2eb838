-- ===== src/Payments/Steps.antt =====
-- Every handler of the payment service changes the payments by the moves of their life alone, and
-- the orders by the steps of theirs.
use apparel_network.Prelude.{
  ℕ, ◌≡◌, ◌∙◌, sym, subst, true, some, List, ◌∷◌, [], All, All-save, All-scalar, not-false, inl,
  inr, ◌⊎◌,
}
use mathlib.Core.Option.{some-injective}
use apparel_network.Tables.Enums.{PaymentStatus, payment_status_enum, ◌is◌, is→eq}
use apparel_network.Tables.Commerce.{PaymentIntent}
use apparel_network.Session.{Session}
use apparel_network.Session.Preserves.{
  Preserves, Preserves-return, Preserves-bind, Preserves-fetch, Preserves-require,
  Preserves-raise_if, Preserves-branch, Preserves-now, Preserves-update_where,
}
use apparel_network.Outbox.Rules.{Preserves-write}
use apparel_network.Orders.Service as OrderService
use apparel_network.Orders.Service.{OrderConfirm}
use apparel_network.Orders.Repository as OrderRepository
use apparel_network.Payments.Gateway.{PaymentGateway, PaymentGatewayResult}
use apparel_network.Payments.Repository.{
  payment_key, store_payment, get_for_customer, select_version, transition, transition_row,
}
use apparel_network.Payments.Service.{
  PaymentTransition, one_of, get_owned, apply_result, authorize_owned, capture_owned, cancel_owned,
  confirm_order,
}
use apparel_network.Payments.Transactions.{Preserves-add_transaction}
use apparel_network.Payments.Lifecycle.{Move, Step, one_of_two, select_version-get_for_customer}

module _ (P : PaymentIntent → Type 0) (step : (p p' : PaymentIntent) → Step p p' → P p → P p') where
  stored_payment :
      (p' : PaymentIntent) (s : Session)
      → All P s.payments
      → P p'
      → All P (store_payment p' s.db).payments
  unfolding store_payment
  stored_payment p' s all new = All-save payment_key P P p' s.payments all (λ x p ne. p) new

  read_payment :
      (payment_id customer_id : ℕ) (s : Session) {payment : PaymentIntent}
      → All P s.payments
      → get_for_customer payment_id customer_id s.db ≡ some payment
      → P payment
  unfolding get_for_customer
  read_payment payment_id customer_id s all e = All-scalar P _ s.payments all e

  apply_result-steps :
      (payment : PaymentIntent) (values : PaymentTransition) (result : PaymentGatewayResult)
      (expected : List PaymentStatus) (s : Session)
      → All P s.payments
      → P payment
      → select_version payment.id payment.customer_id values.expected_version s.db ≡ some payment
      → (one_of result.status expected ≡ true → Move payment.status result.status)
      → Preserves (λ s'. All P s'.payments) (apply_result payment values result expected) s
  unfolding apply_result transition
  apply_result-steps payment values result expected s all old selected legal =
      Preserves-raise_if _ all λ allowed. Preserves-now _ (
        Preserves-update_where _ _ _ _ _ all λ row found.
          let same : payment ≡ row = some-injective payment row (sym selected ∙ found) in
          let new =
            step payment _ (Step.moving payment result.status _ _ _ (legal (not-false _ allowed)))
              old in
          let stored = stored_payment _ s all (
            subst
              (λ p. P (
                transition_row result.status (s.world.clock s.clock_reads) values.actor_id
                  (result.status is PaymentStatus.cancelled) s.world.transaction_time p))
              same new) in
          Preserves-require _ stored λ contract named.
            Preserves-add_transaction _ _ _ _ _ _
              λ rows. Preserves-write _ λ event. Preserves-return _ _ stored)

  pub authorize_owned-steps :
      (gateway : PaymentGateway) (payment_id customer_id : ℕ) (values : PaymentTransition)
      (s : Session)
      → All P s.payments
      → Preserves
          (λ s'. All P s'.payments)
          (authorize_owned gateway payment_id customer_id values)
          s
  unfolding authorize_owned get_owned
  authorize_owned-steps gateway payment_id customer_id values s all =
      Preserves-fetch _ _ _ all λ payment found. Preserves-raise_if _ all λ created.
        Preserves-raise_if _ all λ version.
          apply_result-steps payment values _ _ s all
            (read_payment payment_id customer_id s all found)
            (select_version-get_for_customer payment_id customer_id _ s.db payment found version)
            (leads payment.status _ (is→eq _ _ (not-false _ created)))
    where
      leads :
          (old new : PaymentStatus)
          → old ≡ PaymentStatus.created
          → one_of new (PaymentStatus.authorized ∷ PaymentStatus.failed ∷ []) ≡ true
          → Move old new
      leads old new e allowed = elim (one_of_two new _ _ allowed) [
        | inl q ↦ rw (e, q) Move.authorization
        | inr q ↦ rw (e, q) Move.refusal
      ]

  pub cancel_owned-steps :
      (gateway : PaymentGateway) (payment_id customer_id : ℕ) (values : PaymentTransition)
      (s : Session)
      → All P s.payments
      → Preserves (λ s'. All P s'.payments) (cancel_owned gateway payment_id customer_id values) s
  unfolding cancel_owned get_owned
  cancel_owned-steps gateway payment_id customer_id values s all =
      Preserves-fetch _ _ _ all λ payment found. Preserves-raise_if _ all λ open_status.
        Preserves-raise_if _ all λ version.
          apply_result-steps payment values _ _ s all
            (read_payment payment_id customer_id s all found)
            (select_version-get_for_customer payment_id customer_id _ s.db payment found version)
            (leads payment.status _ (one_of_two _ _ _ (not-false _ open_status)))
    where
      leads :
          (old new : PaymentStatus)
          → (old ≡ PaymentStatus.created) ⊎ (old ≡ PaymentStatus.authorized)
          → one_of new (PaymentStatus.cancelled ∷ PaymentStatus.failed ∷ []) ≡ true
          → Move old new
      leads old new (inl e) allowed = elim (one_of_two new _ _ allowed) [
        | inl q ↦ rw (e, q) Move.withdrawal
        | inr q ↦ rw (e, q) Move.refusal
      ]
      leads old new (inr e) allowed = elim (one_of_two new _ _ allowed) [
        | inl q ↦ rw (e, q) Move.reversal
        | inr q ↦ rw (e, q) Move.failure
      ]

  -- Confirming the order touches no payment.
  confirm_order-payments :
      (gateway : PaymentGateway) (payment transitioned : PaymentIntent) (customer_id actor_id : ℕ)
      (s : Session)
      → All P s.payments
      → Preserves
          (λ s'. All P s'.payments)
          (confirm_order gateway payment transitioned customer_id actor_id)
          s
  unfolding confirm_order
  confirm_order-payments gateway payment transitioned customer_id actor_id s all =
      Preserves-branch _ _
        (λ _.
          unfold OrderService.get_owned OrderService.confirm_owned OrderRepository.transition
            OrderRepository.store_order in
          Preserves-fetch _ _ _ all λ order found.
            Preserves-bind
              (Preserves-fetch _ _ _ all λ order' found'. Preserves-raise_if _ all λ _.
                Preserves-now _ (
                  Preserves-update_where _ _ _ _ _ all
                    λ row selected. Preserves-write _ λ event. Preserves-return _ _ all))
              λ _ s' kept. Preserves-return _ s' kept)
        (λ _. Preserves-return _ s all)

  pub capture_owned-steps :
      (gateway : PaymentGateway) (payment_id customer_id : ℕ) (values : PaymentTransition)
      (s : Session)
      → All P s.payments
      → Preserves (λ s'. All P s'.payments) (capture_owned gateway payment_id customer_id values) s
  unfolding capture_owned get_owned
  capture_owned-steps gateway payment_id customer_id values s all =
      Preserves-fetch _ _ _ all λ payment found. Preserves-raise_if _ all λ authorized.
        Preserves-raise_if _ all λ version.
          Preserves-bind
            (apply_result-steps payment values _ _ s all
              (read_payment payment_id customer_id s all found)
              (select_version-get_for_customer payment_id customer_id _ s.db payment found version)
              (leads payment.status _ (is→eq _ _ (not-false _ authorized))))
            λ transitioned s' kept.
              Preserves-bind
                (confirm_order-payments gateway payment transitioned customer_id values.actor_id s'
                  kept)
                λ _ s'' kept'. Preserves-return _ s'' kept'
    where
      leads :
          (old new : PaymentStatus)
          → old ≡ PaymentStatus.authorized
          → one_of new (PaymentStatus.captured ∷ PaymentStatus.failed ∷ []) ≡ true
          → Move old new
      leads old new e allowed = elim (one_of_two new _ _ allowed) [
        | inl q ↦ rw (e, q) Move.settlement
        | inr q ↦ rw (e, q) Move.failure
      ]

-- ===== src/Shipments/Handlers.antt =====
-- Packing, dispatching, delivering, cancelling and returning a shipment, and its creation, move the
-- shipments along their life.
use apparel_network.Prelude.{
  ℕ, String, ◌≡◌, sym, subst, Bool, true, false, none, some, List, ◌∷◌, [], All, not-false, inl,
  inr, ◌⊎◌, Bool-cases, ◌!=◌, !=→eq,
}
use apparel_network.Tables.Enums.{ShipmentStatus, shipment_status_enum, ◌is◌, is→eq, is_refl}
use apparel_network.Tables.Shipping.{Shipment}
use apparel_network.Session.{Session}
use apparel_network.Session.Preserves.{
  Preserves, Preserves-return, Preserves-bind, Preserves-fetch, Preserves-require,
  Preserves-raise_if, Preserves-branch, Preserves-now,
}
use apparel_network.Session.Rules.{Ensures, Ensures-return, Ensures-branch, Ensures-bind}
use apparel_network.Session.Queries.{Preserves-bind_ensures, Preserves-seq}
use apparel_network.Outbox.Rules.{Preserves-write, Ensures-write}
use apparel_network.Shipments.Gateway.{ShippingGateway}
use apparel_network.Shipments.Service.{
  ShipmentTransition, ShipmentPack, get_owned, one_of, move_owned, ship_owned, out_for_delivery,
  deliver_owned, pack_owned,
}
use apparel_network.Shipments.Lifecycle.{Move, Step}
use apparel_network.Shipments.Frame.{
  detail_owned-shipments, consume_reservation-shipments, add_many-shipments, label_each-shipments,
}
use apparel_network.Shipments.Steps.{
  SelectsOnly, Held, read-Held, transition_and_record-steps, transition_and_record-Held,
}

pub one_of_one : (s a : ShipmentStatus) → one_of s (a ∷ []) ≡ true → s ≡ a
unfolding one_of
one_of_one s a h = elim (Bool-cases (s is a)) [ inl t ↦ is→eq s a t | inr t ↦ cc (rw t at h) ]

one_of_two : (s a b : ShipmentStatus) → one_of s (a ∷ b ∷ []) ≡ true → (s ≡ a) ⊎ (s ≡ b)
unfolding one_of
one_of_two s a b h = elim (Bool-cases (s is a)) [
  | inl t ↦ inl (is→eq s a t)
  | inr t ↦ elim (Bool-cases (s is b)) [ inl u ↦ inr (is→eq s b u) | inr u ↦ cc (rw (t, u) at h) ]
]

module _ (P : Shipment → Type 0) (step : (r r' : Shipment) → Step r r' → P r → P r') where
  abbrev AllKept : Session → Type 0
  AllKept s = All P s.shipments

  -- A handler that has checked the status makes a legal move.
  from :
      (allowed : ShipmentStatus) {old new : ShipmentStatus} {archive : Bool}
      → Move allowed new archive
      → one_of old (allowed ∷ []) ≡ true
      → Move old new archive
  from allowed {old} {new} {archive} move h =
      subst (λ s. Move s new archive) (sym (one_of_one old allowed h)) move

  pub move_owned-steps :
      (allowed status : ShipmentStatus) (archive : Bool) (description event : String)
      (shipment_id customer_id : ℕ) (values : ShipmentTransition) (s : Session)
      → Move allowed status archive
      → All P s.shipments
      → Preserves AllKept
          (move_owned allowed status archive description event shipment_id customer_id values)
          s
  unfolding move_owned get_owned
  move_owned-steps allowed status archive description event shipment_id customer_id values s move
        all =
      Preserves-fetch _ _ _ all λ shipment found. Preserves-raise_if _ all λ guard.
        Preserves-raise_if _ all λ version. Preserves-now _ (
          Preserves-bind
            (transition_and_record-steps P step shipment _ status _ _ none archive description _ all
              (read-Held P step shipment_id customer_id _ s shipment all found version)
              (from allowed move (not-false _ guard)))
            λ result s' kept. Preserves-write _ λ row. Preserves-return _ _ kept)

  pub ship_owned-steps :
      (shipment_id customer_id : ℕ) (values : ShipmentTransition) (s : Session)
      → All P s.shipments
      → Preserves AllKept (ship_owned shipment_id customer_id values) s
  unfolding ship_owned get_owned
  ship_owned-steps shipment_id customer_id values s all =
      Preserves-fetch _ _ _ all λ shipment found. Preserves-raise_if _ all λ guard.
        Preserves-raise_if _ all λ version.
          let held = read-Held P step shipment_id customer_id _ s shipment all found version in
          let J : List Shipment → Type 0 =
            λ rows. All P rows × SelectsOnly shipment values.expected_version rows in
          Preserves-seq (detail_owned-shipments J _ customer_id s (all, held.1)) (λ _ k. k.0)
            λ detail s1 k1. Preserves-raise_if _ k1.0 λ consumed.
              Preserves-seq (consume_reservation-shipments J _ _ _ s1 k1) (λ _ k. k.0)
                λ items s2 k2. Preserves-now _ (
                  Preserves-bind
                    (transition_and_record-steps P step shipment _ ShipmentStatus.shipped _ _ none
                      false _ _ k2.0 (held.0, k2.1)
                      (from ShipmentStatus.packed Move.dispatch (not-false _ guard)))
                    λ result s' kept. Preserves-write _ λ row. Preserves-return _ _ kept)

  pub pack_owned-steps :
      (gateway : ShippingGateway) (shipment_id customer_id : ℕ) (values : ShipmentPack)
      (s : Session)
      → All P s.shipments
      → Preserves AllKept (pack_owned gateway shipment_id customer_id values) s
  unfolding pack_owned get_owned
  pack_owned-steps gateway shipment_id customer_id values s all =
      Preserves-fetch _ _ _ all λ shipment found. Preserves-raise_if _ all λ guard.
        Preserves-raise_if _ all λ version. Preserves-raise_if _ all λ given.
          Preserves-raise_if _ all λ unique.
            let held = read-Held P step shipment_id customer_id _ s shipment all found version in
            let J : List Shipment → Type 0 =
              λ rows. All P rows × SelectsOnly shipment values.expected_version rows in
            Preserves-seq (label_each-shipments J gateway shipment.id _ s (all, held.1))
              (λ _ k. k.0)
              λ packages s1 k1.
                Preserves-seq (add_many-shipments J shipment.id packages s1 k1) (λ _ k. k.0)
                  λ _ s2 k2. Preserves-now _ (
                    Preserves-require _ k2.0 λ label first.
                      Preserves-bind
                        (transition_and_record-steps P step shipment _ ShipmentStatus.packed _ _
                          (some label) false _ _ k2.0 (held.0, k2.1)
                          (from ShipmentStatus.ready_for_fulfillment Move.packing
                            (not-false _ guard)))
                        λ result s' kept. Preserves-write _ λ row. Preserves-return _ _ kept)

  -- The first of the two moves of a delivery, and what the second one relies on.
  out_for_delivery-steps :
      (shipment : Shipment) (values : ShipmentTransition) (now : ℕ) (s : Session)
      → All P s.shipments
      → Held P step shipment values.expected_version s.shipments
      → Preserves AllKept (out_for_delivery shipment values now) s
  unfolding out_for_delivery
  out_for_delivery-steps shipment values now s all held =
      Preserves-branch _ _
        (λ leaving.
          Preserves-bind
            (transition_and_record-steps P step shipment _ ShipmentStatus.out_for_delivery _ now
              none false _ s all held
              (subst (λ x. Move x ShipmentStatus.out_for_delivery false) (sym (is→eq _ _ leaving))
                Move.departure))
            λ result s' kept. Preserves-write _ λ row. Preserves-return _ _ kept)
        (λ _. Preserves-return _ s all)

  out_for_delivery-Held :
      (shipment : Shipment) (values : ShipmentTransition) (now : ℕ) (s : Session)
      → Held P step shipment values.expected_version s.shipments
      → (shipment.version != values.expected_version) ≡ false
      → (shipment.status ≡ ShipmentStatus.shipped)
        ⊎ (shipment.status ≡ ShipmentStatus.out_for_delivery)
      → Ensures (out_for_delivery shipment values now) s (λ r s'.
        (r.status ≡ ShipmentStatus.out_for_delivery) × Held P step r r.version s'.shipments)
  unfolding out_for_delivery
  out_for_delivery-Held shipment values now s held version before =
      Ensures-branch _ _
        (λ leaving.
          Ensures-bind
            (transition_and_record-Held P step shipment _ ShipmentStatus.out_for_delivery _ now none
              false _ s held
              (subst (λ x. Move x ShipmentStatus.out_for_delivery false) (sym (is→eq _ _ leaving))
                Move.departure))
            λ result s' kept. Ensures-write _ λ row. Ensures-return _ _ kept)
        (λ gone. Ensures-return _ s (
          second before gone,
          subst (λ v. Held P step shipment v s.shipments) (sym (!=→eq _ _ version)) held,
        ))
    where
      second :
          (shipment.status ≡ ShipmentStatus.shipped)
            ⊎ (shipment.status ≡ ShipmentStatus.out_for_delivery)
          → (shipment.status is ShipmentStatus.shipped) ≡ false
          → shipment.status ≡ ShipmentStatus.out_for_delivery
      second (inl e) gone = cc (rw e at gone, is_refl ShipmentStatus.shipped)
      second (inr e) gone = e

  pub deliver_owned-steps :
      (shipment_id customer_id : ℕ) (values : ShipmentTransition) (s : Session)
      → All P s.shipments
      → Preserves AllKept (deliver_owned shipment_id customer_id values) s
  unfolding deliver_owned get_owned
  deliver_owned-steps shipment_id customer_id values s all =
      Preserves-fetch _ _ _ all λ shipment found. Preserves-raise_if _ all λ guard.
        Preserves-raise_if _ all λ version. Preserves-now _ (
          let held = read-Held P step shipment_id customer_id _ s shipment all found version in
          Preserves-bind_ensures (out_for_delivery-steps shipment values _ _ all held)
            (out_for_delivery-Held shipment values _ _ held version
              (one_of_two _ _ _ (not-false _ guard)))
            λ leaving s' kept out.
              Preserves-bind
                (transition_and_record-steps P step leaving _ ShipmentStatus.delivered _ _ none
                  false _ s' kept out.1
                  (subst (λ x. Move x ShipmentStatus.delivered false) (sym out.0) Move.delivery))
                λ result s'' kept'. Preserves-write _ λ row. Preserves-return _ _ kept')

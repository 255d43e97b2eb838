-- ===== src/Shipments/Creation.antt =====
-- The creation of a shipment: the new row collides with no other, and the service moves it to the
-- warehouse at once.
use apparel_network.Prelude.{
  ℕ, ◌≡◌, refl, sym, Bool, true, false, none, List, [], ◌∷◌, ◌++◌, All, All-snoc, All-map, All-any,
  All-scalar, scalar_test, arith, ◌&&◌, ◌||◌, ◌==◌, ==_iff, any, subst,
}
use apparel_network.Prelude.Text.{Text}
use apparel_network.Tables.Enums.{ShipmentStatus}
use apparel_network.Tables.Shipping.{Shipment}
use apparel_network.Session.{Session}
use apparel_network.Session.Preserves.{
  Preserves, Preserves-return, Preserves-gets, Preserves-fetch, Preserves-raise_if, Preserves-now,
  Preserves-uuid, Preserves-db_now, Preserves-modify, Preserves-bind,
}
use apparel_network.Session.Rules.{
  Ensures, Ensures-return, Ensures-uuid, Ensures-db_now, Ensures-gets, Ensures-raise_if,
  Ensures-modify,
}
use apparel_network.Session.Queries.{Preserves-bind_ensures}
use apparel_network.Outbox.Rules.{Preserves-write}
use apparel_network.Payments.Service as Payments
use apparel_network.Orders.Service as Orders
use apparel_network.Shipments.Gateway.{ShippingGateway}
use apparel_network.Shipments.Repository.{NewShipment, shipment_row, collides, add}
use apparel_network.Shipments.Service.{ShipmentCreate, create}
use apparel_network.Shipments.Lifecycle.{Move, Step}
use apparel_network.Shipments.Frame.{detail_owned-shipments}
use apparel_network.Shipments.Tracking.{Preserves-add_tracking}
use apparel_network.Shipments.Steps.{SelectsOnly, Held, transition_and_record-steps}

-- A row that collides with none is the only one with its identifier.
fresh_selected :
    (new : Shipment) (rows : List Shipment)
    → any (collides new) rows ≡ false
    → SelectsOnly new new.version (rows ++ new ∷ [])
unfolding collides
fresh_selected new rows h row e =
    All-scalar (λ r. r.id ≡ new.id → new ≡ r) _ (rows ++ new ∷ [])
      (All-snoc (λ r. r.id ≡ new.id → new ≡ r) rows
        (All-map (λ r. collides new r ≡ false) (λ r. r.id ≡ new.id → new ≡ r)
          (λ r apart same. absurd (distinct r.id new.id _ _ apart same)) rows (All-any _ rows h))
        (λ _. refl))
      e ((==_iff _ _).0 (first _ _ _ _ (scalar_test _ (rows ++ new ∷ []) e)))
  where
    distinct : (a b : ℕ) (p q : Bool) → ((a == b) || p || q) ≡ false → a ≡ b → ⊥
    distinct a b p q apart same = ground arith

    first : (a b c d : Bool) → (a && b && c && d) ≡ true → a ≡ true
    first a b c d t = ground arith

module _ (P : Shipment → Type 0) (step : (r r' : Shipment) → Step r r' → P r → P r')
    (born : (values : NewShipment) (id now : ℕ) → P (shipment_row values id now)) where
  add-steps :
      (values : NewShipment) (s : Session)
      → All P s.shipments
      → Preserves (λ s'. All P s'.shipments) (add values) s
  unfolding add
  add-steps values s all = Preserves-uuid _ (
      Preserves-db_now _ (
        Preserves-gets _ _ (
          Preserves-raise_if _ all λ apart.
            Preserves-modify _
              (Preserves-return _ _ (All-snoc P s.shipments all (born values _ _))))))

  add-Held :
      (values : NewShipment) (s : Session)
      → Ensures
          (add values)
          s
          (λ r s'. (r.status ≡ ShipmentStatus.created) × Held P step r r.version s'.shipments)
  unfolding add
  add-Held values s = Ensures-uuid _ (
      Ensures-db_now _ (
        Ensures-gets _ _ (
          Ensures-raise_if _ λ apart. Ensures-modify _ (
            Ensures-return _ _ (
              unfold shipment_row in refl,
              (born values _ _, fresh_selected (shipment_row values _ _) s.shipments apart),
            )))))

  pub create-steps :
      (gateway : ShippingGateway) (lower : Text → Text) (values : ShipmentCreate) (s : Session)
      → All P s.shipments
      → Preserves (λ s'. All P s'.shipments) (create gateway lower values) s
  unfolding create Payments.get_owned Orders.get_owned
  create-steps gateway lower values s all = Preserves-now _ (
      Preserves-fetch _ _ _ all λ payment paid. Preserves-fetch _ _ _ all λ order placed.
        Preserves-bind (detail_owned-shipments (All P) _ _ _ all) λ detail s1 k1.
          Preserves-raise_if _ k1 λ _. Preserves-raise_if _ k1 λ _. Preserves-raise_if _ k1 λ _.
            Preserves-raise_if _ k1 λ _. Preserves-gets _ _ (
              Preserves-raise_if _ k1 λ _. Preserves-raise_if _ k1 λ _.
                Preserves-bind_ensures (add-steps _ s1 k1) (add-Held _ s1) λ shipment s2 k2 held.
                  Preserves-add_tracking _ _ _ _ λ event. Preserves-write _ λ row.
                    transition_and_record-steps P step shipment _
                      ShipmentStatus.ready_for_fulfillment _ _ none false _ _ k2 held.1
                      (subst (λ x. Move x ShipmentStatus.ready_for_fulfillment false) (sym held.0)
                        Move.preparation)))

-- ===== src/Shipments/Steps.antt =====
-- Every handler of the shipment service changes the shipments by the moves of their life alone.
use apparel_network.Prelude.{
  ℕ, String, ◌≡◌, ◌∙◌, refl, sym, subst, Bool, false, some, Option, List, All, All-save, All-scalar,
  ◌!=◌, scalar, is_none, ◌&&◌, ◌==◌,
}
use mathlib.Core.Option.{some-injective}
use apparel_network.Tables.Enums.{ShipmentStatus, shipment_status_enum}
use apparel_network.Tables.Shipping.{Shipment}
use apparel_network.Session.{Session}
use apparel_network.Session.Preserves.{Preserves, Preserves-return, Preserves-update_where}
use apparel_network.Session.Rules.{Ensures, Ensures-return}
use apparel_network.Session.Queries.{Ensures-update_where}
use apparel_network.Session.Selection.{version-read, version-saved}
use apparel_network.Shipments.Gateway.{ShippingLabel}
use apparel_network.Shipments.Repository.{
  shipment_key, store_shipment, get_for_customer, select_version, transition, transition_row,
}
use apparel_network.Shipments.Service.{transition_and_record}
use apparel_network.Shipments.Lifecycle.{Move, Step}
use apparel_network.Shipments.Tracking.{Preserves-add_tracking, Ensures-add_tracking}

-- The only shipment that a write can select: the one that the service holds.
abbrev pub SelectsOnly : Shipment → ℕ → List Shipment → Type 0
SelectsOnly shipment version rows =
    (row : Shipment)
    → scalar
        (λ r.
          (r.id == shipment.id)
          && (r.customer_id == shipment.customer_id)
          && is_none r.deleted_at
          && (r.version == version))
        rows
      ≡ some row
    → shipment ≡ row

module _ (P : Shipment → Type 0) (step : (r r' : Shipment) → Step r r' → P r → P r') where
  abbrev Kept : List Shipment → Type 0
  Kept rows = All P rows

  abbrev pub Held : Shipment → ℕ → List Shipment → Type 0
  Held shipment version rows = P shipment × SelectsOnly shipment version rows

  stored_shipment :
      (r' : Shipment) (s : Session)
      → All P s.shipments
      → P r'
      → All P (store_shipment r' s.db).shipments
  unfolding store_shipment
  stored_shipment r' s all new = All-save shipment_key P P r' s.shipments all (λ x p ne. p) new

  pub read-Held :
      (shipment_id customer_id version : ℕ) (s : Session) (shipment : Shipment)
      → All P s.shipments
      → get_for_customer shipment_id customer_id s.db ≡ some shipment
      → (shipment.version != version) ≡ false
      → Held shipment version s.shipments
  unfolding get_for_customer
  read-Held shipment_id customer_id version s shipment all found same = (
    All-scalar P _ s.shipments all found,
    λ row selected. some-injective shipment row (
        sym (
          version-read (λ r. r.id) (λ r. r.customer_id) (λ r. r.version) (λ r. is_none r.deleted_at)
            shipment_id customer_id version s.shipments shipment found same)
        ∙ selected),
  )

  pub transition_and_record-steps :
      (shipment : Shipment) (version : ℕ) (status : ShipmentStatus) (actor_id now : ℕ)
      (label : Option ShippingLabel) (archive : Bool) (description : String) (s : Session)
      → All P s.shipments
      → Held shipment version s.shipments
      → Move shipment.status status archive
      → Preserves
          (λ s'. All P s'.shipments)
          (transition_and_record shipment version status actor_id now label archive description)
          s
  unfolding transition_and_record transition select_version
  transition_and_record-steps shipment version status actor_id now label archive description s all
        held move =
      Preserves-update_where _ _ _ _ _ all λ row found.
        let stored = stored_shipment _ s all (
          subst
            (λ r. P (transition_row status now actor_id label archive s.world.transaction_time r))
            (held.1 row found)
            (step shipment _ (Step.moving shipment status now actor_id label archive _ move)
              held.0)) in
        Preserves-add_tracking _ _ _ _ λ event. Preserves-return _ _ stored

  -- After the write of a move the service holds the row that it wrote.
  pub transition_and_record-Held :
      (shipment : Shipment) (version : ℕ) (status : ShipmentStatus) (actor_id now : ℕ)
      (label : Option ShippingLabel) (archive : Bool) (description : String) (s : Session)
      → Held shipment version s.shipments
      → Move shipment.status status archive
      → Ensures
          (transition_and_record shipment version status actor_id now label archive description)
          s
          (λ r s'. (r.status ≡ status) × Held r r.version s'.shipments)
  unfolding transition_and_record transition store_shipment select_version transition_row
  transition_and_record-Held shipment version status actor_id now label archive description s held
        move =
      Ensures-update_where _ _ _ _ _ λ row found.
        let same = held.1 row found in
        let written =
          subst
            (λ r. P (transition_row status now actor_id label archive s.world.transaction_time r))
            same
            (step shipment _ (Step.moving shipment status now actor_id label archive _ move)
              held.0) in
        Ensures-add_tracking _ _ _ _ λ event. Ensures-return _ _ (
          refl,
          (
            written,
            λ r selected. sym (
                version-saved (λ x. x.id) (λ x. x.customer_id) (λ x. x.version)
                  (λ x. is_none x.deleted_at) _ _ _ r s.shipments selected),
          ),
        )

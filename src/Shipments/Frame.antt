-- ===== src/Shipments/Frame.antt =====
-- What the other services do for a shipment touches no row of `shipments`: the read of the
-- reservation, the dispatch of its stock, and the rows of packages.
use apparel_network.Prelude.{ℕ, Option, none, some, List, [], ◌∷◌}
use apparel_network.Prelude.Int.{ℤ}
use apparel_network.Tables.Inventory.{InventoryItem}
use apparel_network.Tables.Shipping.{Shipment}
use apparel_network.Session.{Session}
use apparel_network.Session.Preserves.{
  Preserves, Preserves-return, Preserves-bind, Preserves-gets, Preserves-require,
  Preserves-raise_if, Preserves-now, Preserves-uuid, Preserves-db_now, Preserves-modify,
  Preserves-modify_last,
}
use apparel_network.Outbox.{DomainEvent, publish}
use apparel_network.Reservations.Service.{detail_owned}
use apparel_network.Reservations.Frame.{detail_owned-frame}
use apparel_network.Inventory.Repository.{
  NewMovement, record_movement, consume, save_or_none, store_item,
}
use apparel_network.Inventory.Service.{
  InventoryReservationConsumption, consume_one, consume_each, consume_reservation,
}
use apparel_network.Shipments.Gateway.{ShippingGateway, PackageCreate, ShippingLabel}
use apparel_network.Shipments.Repository.{add_many}
use apparel_network.Shipments.Service.{label_each}

module _ (J : List Shipment → Type 0) where
  -- of the session
  abbrev pub KeepsShipments : Session → Type 0
  KeepsShipments s = J s.shipments

  pub detail_owned-shipments :
      (reservation_id customer_id : ℕ) (s : Session)
      → J s.shipments
      → Preserves KeepsShipments (detail_owned reservation_id customer_id) s
  detail_owned-shipments reservation_id customer_id s h =
      detail_owned-frame (λ db. J db.shipments) (λ db rows p. p) (λ db rows p. p) reservation_id
        customer_id s h

  save_or_none-shipments :
      (values : ℕ → InventoryItem → InventoryItem) (o : Option InventoryItem) (s : Session)
      → J s.shipments
      → Preserves KeepsShipments (save_or_none values o) s
  unfolding save_or_none store_item
  save_or_none-shipments values none s h = Preserves-return _ s h
  save_or_none-shipments values (some item) s h =
      Preserves-db_now _ (Preserves-modify _ (Preserves-return _ _ h))

  consume-shipments :
      (inventory_id store_id : ℕ) (quantity : ℤ) (actor_id version : ℕ) (s : Session)
      → J s.shipments
      → Preserves KeepsShipments (consume inventory_id store_id quantity actor_id version) s
  unfolding consume
  consume-shipments inventory_id store_id quantity actor_id version s h =
      Preserves-gets _ _ (save_or_none-shipments _ _ s h)

  record_movement-shipments :
      (item : InventoryItem) (values : NewMovement) (s : Session)
      → J s.shipments
      → Preserves KeepsShipments (record_movement item values) s
  unfolding record_movement
  record_movement-shipments item values s h =
      Preserves-uuid _ (Preserves-db_now _ (Preserves-modify_last _ h))

  publish-shipments :
      (event : DomainEvent) (s : Session)
      → J s.shipments
      → Preserves KeepsShipments (publish event) s
  unfolding publish
  publish-shipments event s h =
      Preserves-uuid _ (Preserves-now _ (Preserves-db_now _ (Preserves-modify_last _ h)))

  consume_each-shipments :
      (store_id actor_id : ℕ) (values : List InventoryReservationConsumption) (s : Session)
      → J s.shipments
      → Preserves KeepsShipments (consume_each store_id actor_id values) s
  unfolding consume_each consume_one
  consume_each-shipments store_id actor_id [] s h = Preserves-return _ s h
  consume_each-shipments store_id actor_id (value ∷ values) s h =
      Preserves-bind
        (Preserves-raise_if _ h λ _. Preserves-gets _ _ (
          Preserves-require _ h λ existing found. Preserves-raise_if _ h λ _.
            Preserves-bind
              (consume-shipments value.inventory_id store_id value.quantity actor_id
                existing.version s h)
              λ m s1 h1. Preserves-require _ h1 λ item written.
                Preserves-bind (record_movement-shipments item _ s1 h1) λ _ s2 h2.
                  Preserves-bind (publish-shipments _ s2 h2) λ _ s3 h3.
                    Preserves-bind (publish-shipments _ s3 h3) λ _ s4 h4. Preserves-return _ s4 h4))
        λ item s' kept.
          Preserves-bind (consume_each-shipments store_id actor_id values s' kept)
            λ rest s'' kept'. Preserves-return _ s'' kept'

  pub consume_reservation-shipments :
      (store_id : ℕ) (values : List InventoryReservationConsumption) (actor_id : ℕ) (s : Session)
      → J s.shipments
      → Preserves KeepsShipments (consume_reservation store_id values actor_id) s
  unfolding consume_reservation
  consume_reservation-shipments store_id values actor_id s h =
      consume_each-shipments store_id actor_id _ s h

  pub add_many-shipments :
      (shipment_id : ℕ) (packages : List (PackageCreate × ShippingLabel)) (s : Session)
      → J s.shipments
      → Preserves KeepsShipments (add_many shipment_id packages) s
  unfolding add_many
  add_many-shipments shipment_id [] s h = Preserves-return _ s h
  add_many-shipments shipment_id ((parcel, label) ∷ packages) s h = Preserves-uuid _ (
      Preserves-db_now _ (
        Preserves-gets _ _ (
          Preserves-raise_if _ h
            λ _. Preserves-modify _ (add_many-shipments shipment_id packages _ h))))

  pub label_each-shipments :
      (gateway : ShippingGateway) (shipment_id : ℕ) (packages : List PackageCreate) (s : Session)
      → J s.shipments
      → Preserves KeepsShipments (label_each gateway shipment_id packages) s
  unfolding label_each
  label_each-shipments gateway shipment_id [] s h = Preserves-return _ s h
  label_each-shipments gateway shipment_id (parcel ∷ packages) s h = Preserves-raise_if _ h λ _.
      Preserves-bind (label_each-shipments gateway shipment_id packages s h)
        λ rest s' kept. Preserves-return _ s' kept

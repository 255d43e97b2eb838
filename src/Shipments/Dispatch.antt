-- ===== src/Shipments/Dispatch.antt =====
-- The dispatch of a shipment: the stock that its reservation holds leaves the shelves, and the ledger
-- of the stock says so, item by item.
use apparel_network.Prelude.{
  ℕ, ◌≡◌, refl, sym, ap, ◌∙◌, some, none, Option, String, subst, not-false, All, List, [], ◌∷◌,
  ◌++◌, map, Bool, true, false, arith, scalar_test, ◌&&◌, ==_iff, sort_by, leb,
}
use apparel_network.Prelude.Int.{ℤ, pos, ◌-ℤ◌}
use apparel_network.Prelude.Sorting.{sort_by-map}
use apparel_network.Tables.Commerce.{ReservationItem}
use apparel_network.Tables.Inventory.{InventoryItem, InventoryMovement}
use apparel_network.Session.{Session, Tables, return, now_utc, ◌>>=◌, ◌>>◌}
use apparel_network.Outbox.{write}
use apparel_network.Outbox.Rules.{Ensures-write}
use apparel_network.Shipments.Lifecycle.{Move, Step}
use apparel_network.Shipments.Handlers.{one_of_one}
use apparel_network.Session.Preserves.{Preserves, Preserves-return, Preserves-update_where}
use apparel_network.Session.Queries.{Ensures-fetch, Ensures-both, Preserves-Ensures}
use apparel_network.Tables.Enums.{ShipmentStatus}
use apparel_network.Tables.Shipping.{Shipment, ShipmentTrackingEvent}
use apparel_network.Reservations.Frame.{detail_owned-frame, detail_owned-items}
use apparel_network.Reservations.Repository.{list_for_reservation}
use apparel_network.Inventory.Invariant.{HasStock}
use apparel_network.Inventory.Consume.{consume_reservation-Keeps}
use apparel_network.Shipments.Gateway.{ShippingLabel}
use apparel_network.Shipments.Repository.{transition, store_shipment, transition_row}
use apparel_network.Shipments.Service.{
  ShipmentTransition, consumptions, transition_and_record, ship_owned, get_owned, shipment_event,
}
use apparel_network.Shipments.Tracking.{Preserves-add_tracking}
use apparel_network.Shipments.Steps.{SelectsOnly, read-Held, transition_and_record-Held}
use apparel_network.Shipments.Frame.{consume_reservation-shipments}
use apparel_network.Session.Rules.{
  Ensures, Ensures-return, Ensures-gets, Ensures-require, Ensures-raise_if, Ensures-bind,
  Ensures-now,
}
use apparel_network.Inventory.Repository.{consume_row, movement_row, get_for_store}
use apparel_network.Inventory.Service.{
  InventoryReservationConsumption, consumption_movement, consume_one, consume_each, by_inventory,
  consume_reservation,
}
use apparel_network.Inventory.Steps.{Ensures-consume, Ensures-record_movement, Ensures-publish}
use apparel_network.Inventory.Consume.{enough-get_for_store}

-- an item of the ledger: the stock that moved, and by how much
abbrev pub booked : InventoryMovement → ℕ × ℤ
booked m = (m.inventory_id, m.quantity_delta)

abbrev pub owed : InventoryReservationConsumption → ℕ × ℤ
owed value = (value.inventory_id, pos 0 -ℤ value.quantity)

-- what a dispatch takes of one item of a reservation, and the order of the items
abbrev pub withdrawn : ReservationItem → ℕ × ℤ
withdrawn item = (item.inventory_item_id, pos 0 -ℤ pos item.quantity)

abbrev pub earlier_stock : ReservationItem → ReservationItem → Bool
earlier_stock a b = leb a.inventory_item_id b.inventory_item_id

withdrawals :
    (items : List ReservationItem)
    → map owed (sort_by by_inventory (consumptions items))
      ≡ map withdrawn (sort_by earlier_stock items)
unfolding consumptions by_inventory
withdrawals items =
    ap (map owed) (sort_by-map _ by_inventory items) ∙ each (sort_by earlier_stock items)
  where
    each : (rows : List ReservationItem) → map owed (consumptions rows) ≡ map withdrawn rows
    each [] = refl
    each (row ∷ rows) = ap (λ rest. withdrawn row ∷ rest) (each rows)

-- The ledger has grown by these movements alone.
pub record Books (before after : List InventoryMovement) (entries : List (ℕ × ℤ)) : Type 0 where
  pub movements : List InventoryMovement
  pub appended : after ≡ before ++ movements
  pub entered : map booked movements ≡ entries

append_assoc : {A : Type 0} (xs ys zs : List A) → (xs ++ ys) ++ zs ≡ xs ++ (ys ++ zs)
append_assoc [] ys zs = refl
append_assoc (x ∷ xs) ys zs = ap (λ rest. x ∷ rest) (append_assoc xs ys zs)

append_nil : {A : Type 0} (xs : List A) → xs ++ [] ≡ xs
append_nil [] = refl
append_nil (x ∷ xs) = ap (λ rest. x ∷ rest) (append_nil xs)

map_append : {A B : Type 0} (f : A → B) (xs ys : List A) → map f (xs ++ ys) ≡ map f xs ++ map f ys
map_append f [] ys = refl
map_append f (x ∷ xs) ys = ap (λ rest. f x ∷ rest) (map_append f xs ys)

Books-trans :
    (a b c : List InventoryMovement) (xs ys : List (ℕ × ℤ))
    → Books a b xs
    → Books b c ys
    → Books a c (xs ++ ys)
Books-trans a b c xs ys one others = record {
  movements = one.movements ++ others.movements;
  appended =
      others.appended
      ∙ ap (λ rows. rows ++ others.movements) one.appended
      ∙ append_assoc a one.movements others.movements;
  entered =
      map_append booked one.movements others.movements
      ∙ ap (λ rows. rows ++ map booked others.movements) one.entered
      ∙ ap (λ rows. xs ++ rows) others.entered;
}

consume_one-Books :
    (store_id actor_id : ℕ) (value : InventoryReservationConsumption) (s : Session)
    → Ensures
        (consume_one store_id actor_id value)
        s
        (λ _ s'. Books s.movements s'.movements (owed value ∷ []))
unfolding consume_one
consume_one-Books store_id actor_id value s = Ensures-raise_if _ λ positive. Ensures-gets _ _ (
    Ensures-require _ λ existing found. Ensures-raise_if _ λ _.
      Ensures-consume value.inventory_id store_id actor_id existing.version value.quantity _ _
        λ m selected.
          let same =
            (enough-get_for_store value.inventory_id store_id value.quantity s.db existing m found
              selected).0 in
          Ensures-record_movement _ _ (
            Ensures-publish _ λ row. Ensures-publish _ λ row'. Ensures-return _ _ (record {
              movements = _;
              appended = refl;
              entered =
                  unfold movement_row consumption_movement consume_row in
                  rw (same, named existing found) refl;
            })))
  where
    named :
        (existing : InventoryItem)
        → get_for_store value.inventory_id store_id s.db ≡ some existing
        → existing.id ≡ value.inventory_id
    named existing e =
        (==_iff _ _).0 (unfold get_for_store in first _ _ _ (scalar_test _ s.inventory e))
      where
        first : (a b c : Bool) → (a && b && c) ≡ true → a ≡ true
        first a b c h = ground arith

consume_each-Books :
    (store_id actor_id : ℕ) (values : List InventoryReservationConsumption) (s : Session)
    → Ensures
        (consume_each store_id actor_id values)
        s
        (λ _ s'. Books s.movements s'.movements (map owed values))
unfolding consume_each
consume_each-Books store_id actor_id [] s =
    Ensures-return _ _ (record { movements = []; appended = sym (append_nil _); entered = refl })
consume_each-Books store_id actor_id (value ∷ values) s =
    Ensures-bind (consume_one-Books store_id actor_id value s) λ item s1 one.
      Ensures-bind (consume_each-Books store_id actor_id values s1)
        λ rest s2 others. Ensures-return _ _ (Books-trans _ _ _ _ _ one others)

pub consume_reservation-Books :
    (store_id : ℕ) (values : List InventoryReservationConsumption) (actor_id : ℕ) (s : Session)
    → Ensures
        (consume_reservation store_id values actor_id)
        s
        (λ _ s'. Books s.movements s'.movements (map owed (sort_by by_inventory values)))
unfolding consume_reservation
consume_reservation-Books store_id values actor_id s = consume_each-Books store_id actor_id _ s

-- What a dispatch has done.
pub record IsDispatched (before : Tables) (r : Shipment) (after : Tables) : Type 0 where
  pub shipped : r.status ≡ ShipmentStatus.shipped
  pub booked_items :
      Books before.movements after.movements
        (map withdrawn (sort_by earlier_stock (list_for_reservation r.reservation_id before)))
  pub stock : HasStock after

module _ (I : Tables → Type 0)
    (on_shipments : (db : Tables) (rows : List Shipment)
      → I db
      → I (record db { shipments = rows }))
    (on_tracking : (db : Tables) (rows : List ShipmentTrackingEvent)
      → I db
      → I (record db { tracking = rows })) where
  transition_and_record-frame :
      (shipment : Shipment) (version : ℕ) (status : ShipmentStatus) (actor_id now : ℕ)
      (label : Option ShippingLabel) (archive : Bool) (description : String) (s : Session)
      → I s.db
      → Preserves
          (λ s'. I s'.db)
          (transition_and_record shipment version status actor_id now label archive description)
          s
  unfolding transition_and_record transition store_shipment
  transition_and_record-frame shipment version status actor_id now label archive description s h =
      Preserves-update_where _ _ _ _ _ h λ row found.
        let stored = on_shipments _ _ h in
        Preserves-add_tracking _ _ _ _ λ event. Preserves-return _ _ (on_tracking _ _ stored)

Step-reservation :
    (reservation_id : ℕ) (r r' : Shipment)
    → Step r r'
    → r.reservation_id ≡ reservation_id
    → r'.reservation_id ≡ reservation_id
unfolding transition_row
Step-reservation reservation_id r _ (Step.moving _ status at actor label archive now move) same =
    same

abbrev Ledger : List InventoryMovement → List (ℕ × ℤ) → Tables → Type 0
Ledger before entries db = HasStock db × Books before db.movements entries

-- The second half of a dispatch: the stock has left, the shipment moves.
moved_out :
    (shipment : Shipment) (version actor_id : ℕ) (before : Tables) (s : Session)
    → shipment.status ≡ ShipmentStatus.packed
    → SelectsOnly shipment version s.shipments
    → Ledger before.movements
        (map owed (
          sort_by by_inventory
            (consumptions (list_for_reservation shipment.reservation_id before))))
        s.db
    → Ensures
        (now_utc >>= λ now.
          transition_and_record shipment version ShipmentStatus.shipped actor_id now none false
            "Shipment dispatched."
          >>= λ shipped. write (shipment_event "shipment.shipped" shipped) >> return shipped)
        s
        (λ r s'. IsDispatched before r s'.db)
moved_out shipment version actor_id before s packed only ledger = Ensures-now λ now.
    Ensures-bind
      (Ensures-both
        (transition_and_record-Held (λ r. r.reservation_id ≡ shipment.reservation_id)
          (Step-reservation shipment.reservation_id) shipment version ShipmentStatus.shipped
          actor_id now none false _ _ (refl, only)
          (subst (λ x. Move x ShipmentStatus.shipped false) (sym packed) Move.dispatch))
        (Preserves-Ensures (
          transition_and_record-frame (Ledger before.movements _) (λ db rows p. p) (λ db rows p. p)
            shipment version ShipmentStatus.shipped actor_id now none false _ _ ledger)))
      λ r s' k. Ensures-write _ λ row. Ensures-return _ _ (record {
        shipped = k.0.0;
        booked_items =
            rw (k.0.1.0, sym (withdrawals (list_for_reservation shipment.reservation_id before)))
              k.1.1;
        stock = k.1.0;
      })

-- When a shipment is dispatched, the ledger of the stock has one more movement for each item of the
-- shipment's reservation, in the order of the stock's identifiers and of minus the item's quantity,
-- and no other; the tables of the stock go on to satisfy their constraints and to agree with the
-- ledger, as they did before.
pub ship_owned-IsDispatched :
    (shipment_id customer_id : ℕ) (values : ShipmentTransition) (s : Session)
    → HasStock s.db
    → Ensures (ship_owned shipment_id customer_id values) s (λ r s'. IsDispatched s.db r s'.db)
unfolding ship_owned get_owned
ship_owned-IsDispatched shipment_id customer_id values s stock =
    Ensures-fetch _ _ _ λ shipment found. Ensures-raise_if _ λ guard. Ensures-raise_if _ λ version.
      let only =
        (read-Held (λ r. Unit {0}) (λ r r' move p. tt) shipment_id customer_id _ s shipment
          (everything s.shipments) found version).1 in
      Ensures-bind
        (Ensures-both (detail_owned-items shipment.reservation_id customer_id s) (
          Preserves-Ensures (
            detail_owned-frame
              (λ db.
                HasStock db
                × (db.movements ≡ s.movements)
                × SelectsOnly shipment values.expected_version db.shipments)
              (λ db rows p. p) (λ db rows p. p) shipment.reservation_id customer_id s
              (stock, refl, only))))
        λ detail s1 k1. Ensures-raise_if _ λ consumed.
          Ensures-bind
            (Ensures-both
              (Ensures-both (consume_reservation-Books shipment.store_id _ values.actor_id s1)
                (consume_reservation-Keeps shipment.store_id _ values.actor_id s1 k1.1.0))
              (Preserves-Ensures (
                consume_reservation-shipments (SelectsOnly shipment values.expected_version) _ _ _
                  s1 k1.1.2)))
            λ items s2 k2.
              moved_out shipment values.expected_version values.actor_id s.db s2
                (one_of_one _ _ (not-false _ guard)) k2.1 (k2.0.1, rw (sym k1.0, sym k1.1.1) k2.0.0)
  where
    everything : (rows : List Shipment) → All (λ _. Unit {0}) rows
    everything [] = tt
    everything (x ∷ xs) = (tt, everything xs)

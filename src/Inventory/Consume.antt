-- ===== src/Inventory/Consume.antt =====
-- The dispatch of reserved stock, `consume_reservation`, keeps the stock tables' constraints and
-- the ledger.
use mathlib.Core.Option.{some-injective}
use apparel_network.Prelude.{
  sym, true, Bool-cases, inl, inr, ℕ, ◌≡◌, refl, Bool, some, List, [], ◌∷◌, ◌&&◌, ◌==◌, arith,
  is_none, All-scalar, scalar_refine, scalar_test,
}
use apparel_network.Prelude.Int.{ℤ, pos, ◌-ℤ◌, ◌≤ℤ◌, ◌<ℤ◌, int_laws, ltb_ℤ, ltb_ℤ→le, leb_ℤ→lt}
use apparel_network.Tables.Inventory.{InventoryItem}
use apparel_network.Session.{Session, Tables}
use apparel_network.Session.Rules.{
  Ensures, Ensures-return, Ensures-gets, Ensures-require, Ensures-raise_if, Ensures-bind,
}
use apparel_network.Inventory.Repository.{
  get_for_store, select_store_version, enough, consume_row, movement_row,
}
use apparel_network.Inventory.Service.{
  InventoryReservationConsumption, consumption_movement, consume_one, consume_each,
  consume_reservation,
}
use apparel_network.Inventory.Invariant.{IsSoundItem, HasStock, IsGoodItem, Accounts, move-IsStock}
use apparel_network.Inventory.Steps.{Ensures-consume, Ensures-record_movement, Ensures-publish}
use apparel_network.Inventory.Keeps.{Keeps}

enough_inv :
    (quantity : ℤ) (existing m : InventoryItem)
    → enough quantity (some existing) ≡ some m
    → (m ≡ existing) × (quantity ≤ℤ existing.quantity_available)
unfolding enough
enough_inv quantity existing m e = elim (Bool-cases (ltb_ℤ existing.quantity_available quantity)) [
  | inl t ↦ cc (rw t at e)
  | inr t ↦ (sym (some-injective existing m (rw t at e)), ltb_ℤ→le _ _ t)
]

-- The row that `consume` writes to is the one that the service has read, and it has enough.
pub enough-get_for_store :
    (inventory_id store_id : ℕ) (quantity : ℤ) (db : Tables) (existing m : InventoryItem)
    → get_for_store inventory_id store_id db ≡ some existing
    → enough quantity (select_store_version inventory_id store_id existing.version db) ≡ some m
    → (m ≡ existing) × (quantity ≤ℤ existing.quantity_available)
unfolding get_for_store select_store_version
enough-get_for_store inventory_id store_id quantity db existing m found selected =
    enough_inv quantity existing m (rw same at selected)
  where
    weaken : (a b c d : Bool) → (a && b && c && d) ≡ true → (a && b && c) ≡ true
    weaken a b c d h = ground arith

    strengthen : (a b c d : Bool) → d ≡ true → (a && b && c) ≡ true → (a && b && c && d) ≡ true
    strengthen a b c d n h = ground arith

    self : (n : ℕ) → (n == n) ≡ true
    self n = ground arith

    same : select_store_version inventory_id store_id existing.version db ≡ some existing
    same =
        scalar_refine _ _ db.inventory
          (λ x h.
            weaken (x.id == inventory_id) (x.store_id == store_id) (is_none x.deleted_at)
              (x.version == existing.version) h)
          found
          (strengthen (existing.id == inventory_id) (existing.store_id == store_id)
            (is_none existing.deleted_at) (existing.version == existing.version)
            (self existing.version) (scalar_test _ db.inventory found))

-- What is left after a dispatch that the available quantity covers.
remaining_nonnegative :
    (on_hand reserved available quantity : ℤ)
    → available ≡ on_hand -ℤ reserved
    → pos 0 ≤ℤ reserved
    → quantity ≤ℤ available
    → (pos 0 ≤ℤ on_hand -ℤ quantity) × (pos 0 ≤ℤ on_hand -ℤ quantity -ℤ reserved)
remaining_nonnegative on_hand reserved available quantity derived nonneg cover =
    let cover' : quantity ≤ℤ on_hand -ℤ reserved = rw derived at cover in
    (omega int_laws, omega int_laws)

consumed-Accounts :
    (existing : InventoryItem) (quantity : ℤ) (actor_id id now : ℕ)
    → IsSoundItem existing
    → pos 0 <ℤ quantity
    → quantity ≤ℤ existing.quantity_available
    → let item = consume_row quantity actor_id now existing in
      Accounts existing item
        (movement_row item (consumption_movement existing quantity actor_id) id now)
unfolding consume_row movement_row consumption_movement
consumed-Accounts existing quantity actor_id id now sound positive cover =
    let left =
      remaining_nonnegative existing.quantity_on_hand existing.quantity_reserved
        existing.quantity_available quantity sound.available_derived sound.reserved_nonnegative
        cover in
    record {
      same_item = refl;
      for_item = refl;
      accounted = omega int_laws;
      sound_item = record {
        on_hand_nonnegative = left.0;
        reserved_nonnegative = sound.reserved_nonnegative;
        available_nonnegative = left.1;
        available_derived = refl;
        threshold_nonnegative = sound.threshold_nonnegative;
        version_positive = omega arith;
      };
      sound_movement = record {
        on_hand_delta = omega int_laws;
        previous_on_hand_nonnegative = sound.on_hand_nonnegative;
        new_on_hand_nonnegative = left.0;
        previous_available_nonnegative = sound.available_nonnegative;
        new_available_nonnegative = left.1;
        reservation_nonnegative = omega arith;
      };
    }

pub consume_one-Keeps :
    (store_id actor_id : ℕ) (value : InventoryReservationConsumption) (s : Session)
    → HasStock s.db
    → Ensures (consume_one store_id actor_id value) s Keeps
unfolding consume_one
consume_one-Keeps store_id actor_id value s stock = Ensures-raise_if _ λ positive.
    Ensures-gets _ _ (
      Ensures-require _ λ existing found. Ensures-raise_if _ λ _.
        Ensures-consume value.inventory_id store_id actor_id existing.version value.quantity _ _
          λ m selected.
            let (same, cover) =
              enough-get_for_store value.inventory_id store_id value.quantity s.db existing m found
                selected in
            rw same (
              Ensures-record_movement _ _ (
                Ensures-publish _ λ row. Ensures-publish _ λ row'. Ensures-return _ _ (
                  let good = read_good found in
                  move-IsStock stock existing _ good _ (
                    consumed-Accounts existing value.quantity actor_id _ _ good.sound
                      (leb_ℤ→lt _ _ positive) cover)))))
  where
    read_good :
        {existing : InventoryItem}
        → get_for_store value.inventory_id store_id s.db ≡ some existing
        → IsGoodItem s.movements existing
    read_good e =
        unfold get_for_store in All-scalar (IsGoodItem s.movements) _ s.inventory stock.good e

consume_each-Keeps :
    (store_id actor_id : ℕ) (values : List InventoryReservationConsumption) (s : Session)
    → HasStock s.db
    → Ensures (consume_each store_id actor_id values) s Keeps
unfolding consume_each
consume_each-Keeps store_id actor_id [] s stock = Ensures-return _ _ stock
consume_each-Keeps store_id actor_id (value ∷ values) s stock =
    Ensures-bind (consume_one-Keeps store_id actor_id value s stock) λ item s' kept.
      Ensures-bind (consume_each-Keeps store_id actor_id values s' kept)
        λ rest s'' kept'. Ensures-return _ _ kept'

pub consume_reservation-Keeps :
    (store_id : ℕ) (values : List InventoryReservationConsumption) (actor_id : ℕ) (s : Session)
    → HasStock s.db
    → Ensures (consume_reservation store_id values actor_id) s Keeps
unfolding consume_reservation
consume_reservation-Keeps store_id values actor_id s stock =
    consume_each-Keeps store_id actor_id _ s stock

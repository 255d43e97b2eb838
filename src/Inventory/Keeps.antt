-- ===== src/Inventory/Keeps.antt =====
-- Every operation on the stock keeps the constraints of its tables and the ledger.
use apparel_network.Prelude.{ℕ, ◌≡◌, refl, some, arith, All-scalar}
use apparel_network.Prelude.Int.{ℤ, pos, ◌+ℤ◌, ◌-ℤ◌, ◌≤ℤ◌, int_laws, ltb_ℤ→le}
use apparel_network.Tables.Inventory.{InventoryItem}
use apparel_network.Session.{Session}
use apparel_network.Session.Rules.{
  Ensures, Ensures-return, Ensures-gets, Ensures-require, Ensures-require_some, Ensures-raise_if,
  Ensures-now, Ensures-branch, Ensures-check, Ensures-bind,
}
use apparel_network.Inventory.Repository.{
  select_version, archive_row, get_for_owner, update_row, movement_row,
}
use apparel_network.Inventory.Service.{
  QuantityOperation, InventoryAdjustment, InventoryReconciliation, apply_quantity_operation,
  recounted, delete_owned, operation_movement, publish_threshold_crossing, adjust_owned,
  reconcile_owned,
}
use apparel_network.Inventory.Invariant.{
  IsSoundItem, IsGoodItem, HasStock, Accounts, move-IsStock, keep-IsStock,
}
use apparel_network.Inventory.Steps.{
  Ensures-archive, Ensures-publish, Ensures-publish_last, Ensures-record_movement, Ensures-update,
  select_version-get_for_owner,
}

abbrev pub Keeps : {A : Type 0} → A → Session → Type 0
Keeps _ s = HasStock s.db

module _ (s : Session) (stock : HasStock s.db) where
  -- A selected item is good.
  pub read-IsGoodItem :
      (inventory_id owner_id : ℕ) {existing : InventoryItem}
      → get_for_owner inventory_id owner_id s.db ≡ some existing
      → IsGoodItem s.movements existing
  unfolding get_for_owner
  read-IsGoodItem inventory_id owner_id e =
      All-scalar (IsGoodItem s.movements) _ s.inventory stock.good e

  select-IsGoodItem :
      (inventory_id owner_id version : ℕ) {m : InventoryItem}
      → select_version inventory_id owner_id version s.db ≡ some m
      → IsGoodItem s.movements m
  unfolding select_version
  select-IsGoodItem inventory_id owner_id version e =
      All-scalar (IsGoodItem s.movements) _ s.inventory stock.good e

publish_threshold_crossing-Keeps :
    (previous updated : InventoryItem) (active : ℤ) (s : Session)
    → HasStock s.db
    → Ensures (publish_threshold_crossing previous updated active) s Keeps
unfolding publish_threshold_crossing
publish_threshold_crossing-Keeps previous updated active s stock =
    Ensures-branch _ _ (λ _. Ensures-publish_last HasStock _ s (λ _. stock))
      λ _.
        Ensures-branch _ _ (λ _. Ensures-publish_last HasStock _ s (λ _. stock))
          (λ _. Ensures-return _ _ stock)

-- The new counts and the movement agree, given the guards of the operation.
recounted-Accounts :
    (op : QuantityOperation) (existing : InventoryItem) (on_hand : ℤ) (active actor_id id now : ℕ)
    → IsSoundItem existing
    → pos 0 ≤ℤ on_hand
    → existing.quantity_reserved +ℤ pos active ≤ℤ on_hand
    → let item =
        update_row
          (recounted on_hand (on_hand -ℤ existing.quantity_reserved) actor_id)
          now
          existing in
      Accounts existing item (
        movement_row item
          (operation_movement op existing on_hand
            (existing.quantity_reserved +ℤ pos active)
            actor_id)
          id
          now)
unfolding update_row recounted movement_row operation_movement
recounted-Accounts op existing on_hand active actor_id id now sound nonneg cover = record {
  same_item = refl;
  for_item = refl;
  accounted = omega int_laws;
  sound_item = record {
    on_hand_nonnegative = nonneg;
    reserved_nonnegative = sound.reserved_nonnegative;
    available_nonnegative = omega int_laws;
    available_derived = refl;
    threshold_nonnegative = sound.threshold_nonnegative;
    version_positive = omega arith;
  };
  sound_movement = record {
    on_hand_delta = omega int_laws;
    previous_on_hand_nonnegative = sound.on_hand_nonnegative;
    new_on_hand_nonnegative = nonneg;
    previous_available_nonnegative = sound.available_nonnegative;
    new_available_nonnegative = omega int_laws;
    reservation_nonnegative = omega int_laws;
  };
}

pub apply_quantity_operation-Keeps :
    (inventory_id actor_id : ℕ) (op : QuantityOperation) (s : Session)
    → HasStock s.db
    → Ensures (apply_quantity_operation inventory_id actor_id op) s Keeps
unfolding apply_quantity_operation
apply_quantity_operation-Keeps inventory_id actor_id op s stock = Ensures-gets _ _ (
    Ensures-require _ λ existing found. Ensures-raise_if _ λ version. Ensures-raise_if _ λ _.
      Ensures-now λ now. Ensures-gets _ _ (
        Ensures-raise_if _ λ nonneg. Ensures-raise_if _ λ cover.
          let good = read-IsGoodItem s stock inventory_id actor_id found in
          Ensures-update inventory_id actor_id op.expected_version _ _
            (select_version-get_for_owner inventory_id actor_id op.expected_version s.db found
              version)
            (Ensures-require_some _ _ (
              Ensures-record_movement _ _ (
                Ensures-publish _ λ row.
                  Ensures-bind
                    (publish_threshold_crossing-Keeps existing _ _ _ (
                      move-IsStock stock existing _ good _ (
                        recounted-Accounts op existing _ _ actor_id _ _ good.sound
                          (ltb_ℤ→le _ _ nonneg) (ltb_ℤ→le _ _ cover))))
                    (λ _ s' kept. Ensures-return _ s' kept))))))

pub adjust_owned-Keeps :
    (inventory_id actor_id : ℕ) (values : InventoryAdjustment) (s : Session)
    → HasStock s.db
    → Ensures (adjust_owned inventory_id actor_id values) s Keeps
unfolding adjust_owned
adjust_owned-Keeps inventory_id actor_id values s stock =
    Ensures-check λ _. apply_quantity_operation-Keeps inventory_id actor_id _ s stock

pub reconcile_owned-Keeps :
    (inventory_id actor_id : ℕ) (values : InventoryReconciliation) (s : Session)
    → HasStock s.db
    → Ensures (reconcile_owned inventory_id actor_id values) s Keeps
unfolding reconcile_owned
reconcile_owned-Keeps inventory_id actor_id values s stock =
    Ensures-raise_if _
      λ _. Ensures-check λ _. apply_quantity_operation-Keeps inventory_id actor_id _ s stock

pub delete_owned-Keeps :
    (inventory_id owner_id version : ℕ) (s : Session)
    → HasStock s.db
    → Ensures (delete_owned inventory_id owner_id version) s Keeps
unfolding delete_owned archive_row
delete_owned-Keeps inventory_id owner_id version s stock = Ensures-gets _ _ (
    Ensures-require _ λ existing found. Ensures-now λ now.
      Ensures-archive inventory_id owner_id version now _ _ λ m selected.
        let good = select-IsGoodItem s stock inventory_id owner_id version selected in
        Ensures-publish_last HasStock _ _
          λ row. keep-IsStock stock m _ good refl refl (bumped good.sound))
  where
    bumped : {m : InventoryItem} {t u a : ℕ} → IsSoundItem m → IsSoundItem (archive_row t u a m)
    bumped v = ground arith

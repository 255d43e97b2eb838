-- ===== src/Inventory/Edits.antt =====
-- Creating and patching an item keep the constraints of the stock tables and the ledger.
use apparel_network.Prelude.{true, none, not, save, ℕ, ◌+◌, ◌≡◌, refl, Bool, false, arith, ||_split}
use apparel_network.Prelude.Int.{ℤ, pos, ◌≤ℤ◌, int_laws, eqb_ℤ→eq}
use apparel_network.Tables.Inventory.{InventoryItem}
use apparel_network.Session.{Session}
use apparel_network.Session.Rules.{
  Ensures, Ensures-return, Ensures-gets, Ensures-require, Ensures-require_some, Ensures-raise_if,
  Ensures-check,
}
use apparel_network.Inventory.Repository.{
  VariantContext, item_row, update_row, movement_row, item_key,
}
use apparel_network.Inventory.Validation.{
  Changes, changes, quantities, quantities_none, new_item, new_item_none, changes-threshold,
  threshold_change-nonneg,
}
use apparel_network.Inventory.Service.{
  new_values, initial_movement, patched, legacy_movement, quantity_changed, InventoryCreate,
  InventoryUpdate, create, update_owned,
}
use apparel_network.Inventory.Invariant.{
  IsSoundItem, IsSoundMovement, IsGoodItem, IsStock, HasStock, IsUnused, Accounts, move-IsStock,
  keep-IsStock, add-IsStock,
}
use apparel_network.Inventory.Steps.{
  Ensures-add, Ensures-guard_quantity, Ensures-record_legacy, Ensures-publish,
  Ensures-record_movement, Ensures-update, select_version-get_for_owner,
}
use apparel_network.Inventory.Keeps.{Keeps, read-IsGoodItem}

-- The row of a new item satisfies the constraints, and so does its first movement.
created-IsSound :
    (values : InventoryCreate) (context : VariantContext) (id mid now actor_id : ℕ)
    → new_item values.quantity_on_hand values.quantity_reserved values.low_stock_threshold ≡ none
    → let item = item_row (new_values values context) id now in
      IsSoundItem item
      × IsSoundMovement (movement_row item (initial_movement item actor_id) mid now)
unfolding item_row new_values movement_row initial_movement
created-IsSound values context id mid now actor_id valid =
    let facts = new_item_none _ _ _ valid in
    (
      record {
        on_hand_nonnegative = facts.0;
        reserved_nonnegative = facts.1;
        available_nonnegative = omega int_laws;
        available_derived = refl;
        threshold_nonnegative = facts.3;
        version_positive = omega arith;
      },
      record {
        on_hand_delta = omega int_laws;
        previous_on_hand_nonnegative = omega arith;
        new_on_hand_nonnegative = facts.0;
        previous_available_nonnegative = omega arith;
        new_available_nonnegative = omega int_laws;
        reservation_nonnegative = facts.1;
      },
    )

pub create-Keeps :
    (values : InventoryCreate) (s : Session)
    → HasStock s.db
    → IsUnused (s.world.uuid7 s.uuids_drawn) s.db
    → Ensures (create values) s Keeps
unfolding create item_row movement_row initial_movement
create-Keeps values s stock unused = Ensures-gets _ _ (
    Ensures-require _ λ context found. Ensures-gets _ _ (
      Ensures-raise_if _ λ _. Ensures-check λ valid.
        let sound =
          created-IsSound values context (s.world.uuid7 s.uuids_drawn)
            (s.world.uuid7 (s.uuids_drawn + 1)) s.world.transaction_time values.actor_id valid in
        Ensures-add _ _ (
          Ensures-record_movement _ _ (
            Ensures-publish _ λ row.
              Ensures-return _ _
                (add-IsStock _ _ stock unused.items unused.movements refl refl sound.0 sound.1)))))

-- The patched item satisfies the constraints.
patched-IsSound :
    (c : Changes) (existing : InventoryItem) (on_hand reserved : ℤ) (actor_id now : ℕ)
    → IsSoundItem existing
    → changes c ≡ none
    → quantities on_hand reserved ≡ none
    → IsSoundItem (update_row (patched c on_hand reserved actor_id) now existing)
unfolding update_row patched
patched-IsSound c existing on_hand reserved actor_id now sound valid q =
    let facts = quantities_none _ _ q in
    record {
      on_hand_nonnegative = facts.0;
      reserved_nonnegative = facts.1;
      available_nonnegative = omega int_laws;
      available_derived = refl;
      threshold_nonnegative =
          threshold_change-nonneg c.low_stock_threshold existing.low_stock_threshold
            (changes-threshold c valid) sound.threshold_nonnegative;
      version_positive = omega arith;
    }

patched-Accounts :
    (c : Changes) (existing : InventoryItem) (on_hand reserved active : ℤ) (actor_id id now : ℕ)
    → IsSoundItem existing
    → changes c ≡ none
    → quantities on_hand reserved ≡ none
    → pos 0 ≤ℤ active
    → let item = update_row (patched c on_hand reserved actor_id) now existing in
      Accounts existing item
        (movement_row item (legacy_movement existing on_hand reserved active actor_id) id now)
unfolding update_row patched movement_row legacy_movement
patched-Accounts c existing on_hand reserved active actor_id id now sound valid q nonneg =
    let facts = quantities_none _ _ q in
    record {
      same_item = refl;
      for_item = refl;
      accounted = omega int_laws;
      sound_item = patched-IsSound c existing on_hand reserved actor_id now sound valid q;
      sound_movement = record {
        on_hand_delta = omega int_laws;
        previous_on_hand_nonnegative = sound.on_hand_nonnegative;
        new_on_hand_nonnegative = facts.0;
        previous_available_nonnegative = sound.available_nonnegative;
        new_available_nonnegative = omega int_laws;
        reservation_nonnegative = omega int_laws;
      };
    }

unchanged-on_hand :
    (existing : InventoryItem) (on_hand reserved : ℤ)
    → quantity_changed existing on_hand reserved ≡ false
    → on_hand ≡ existing.quantity_on_hand
unfolding quantity_changed
unchanged-on_hand existing on_hand reserved h = eqb_ℤ→eq _ _ (not_not _ ((||_split _ _ h).0))
  where
    not_not : (b : Bool) → not b ≡ false → b ≡ true
    not_not b e = ground arith

pub update_owned-Keeps :
    (inventory_id owner_id : ℕ) (values : InventoryUpdate) (s : Session)
    → HasStock s.db
    → Ensures (update_owned inventory_id owner_id values) s Keeps
unfolding update_owned
update_owned-Keeps inventory_id owner_id values s stock = Ensures-gets _ _ (
    Ensures-require _ λ existing found. Ensures-raise_if _ λ version. Ensures-check λ valid.
      Ensures-require _ λ on_hand eo. Ensures-require _ λ reserved er. Ensures-check λ q.
        let good = read-IsGoodItem s stock inventory_id owner_id found in
        let hit =
          select_version-get_for_owner inventory_id owner_id values.expected_version s.db found
            version in
        Ensures-guard_quantity (quantity_changed existing on_hand reserved) _ _ _ _
          (λ active changed cover.
            Ensures-update inventory_id owner_id values.expected_version _ _ hit (
              Ensures-require_some _ _ (
                Ensures-publish _ λ row.
                  Ensures-record_legacy _ _ _
                    (λ row' _. Ensures-return _ _ (
                      move-IsStock stock existing _ good _ (
                        patched-Accounts values.values existing on_hand reserved (pos active)
                          values.actor_id _ _ good.sound valid q (omega arith))))
                    (λ same. absurd_bool changed same))))
          (λ same. Ensures-update inventory_id owner_id values.expected_version _ _ hit (
            Ensures-require_some _ _ (
              Ensures-publish _ λ row.
                Ensures-record_legacy _ _ _ (λ row' changed. absurd_bool changed same)
                  (λ _. Ensures-return _ _ (
                    kept existing on_hand reserved values good same (
                      patched-IsSound values.values existing on_hand reserved values.actor_id _
                        good.sound valid q)))))))
  where
    absurd_bool : {b : Bool} {C : Type 0} → b ≡ true → b ≡ false → C
    absurd_bool t f = cc

    kept :
        (existing : InventoryItem) (on_hand reserved : ℤ) (values : InventoryUpdate)
        → IsGoodItem s.movements existing
        → quantity_changed existing on_hand reserved ≡ false
        → IsSoundItem (
            update_row
              (patched values.values on_hand reserved values.actor_id)
              s.world.transaction_time
              existing)
        → IsStock
            (save item_key
              (update_row
                (patched values.values on_hand reserved values.actor_id)
                s.world.transaction_time
                existing)
              s.inventory)
            s.movements
    kept existing on_hand reserved values good same sound =
        unfold update_row patched in
        keep-IsStock stock existing _ good refl (unchanged-on_hand existing on_hand reserved same)
          sound

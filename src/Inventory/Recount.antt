-- ===== src/Inventory/Recount.antt =====
-- A reconciliation that passes its guards: it returns, and the item has the count.
use apparel_network.Prelude.{
  ℕ, ◌+◌, ◌≡◌, refl, false, Option, none, some, List, [], ◌∷◌, ◌++◌, ◌!=◌, ◌≢◌, ap, subst, save,
  sym, ◌∙◌, eq→!=, length, All, All-save, arith,
}
use apparel_network.Prelude.Int.{ℤ, pos, ◌+ℤ◌, ◌-ℤ◌, ◌≤ℤ◌, le→ltb_ℤ}
use apparel_network.Tables.Enums.{InventoryStatus, inventory_status_enum, is_false}
use apparel_network.Tables.Inventory.{InventoryItem, InventoryMovement}
use apparel_network.Tables.Shipping.{OutboxEvent}
use apparel_network.Session.{Session, Action, ◌>>=◌, ◌>>◌}
use apparel_network.Session.Succeeds.{
  Succeeds, Succeeds-return, Succeeds-bind, Succeeds-gets, Succeeds-require, Succeeds-raise_if,
  Succeeds-check, Succeeds-branch, Succeeds-now,
}
use apparel_network.Outbox.{DomainEvent, publish}
use apparel_network.Outbox.Rules.{Succeeds-publish}
use apparel_network.Inventory.Repository
use apparel_network.Inventory.Repository.{
  NewMovement, get_for_owner, item_key, select_version, save_or_none, store_item, update_row,
  record_movement, active_reservation_quantity,
}
use apparel_network.Inventory.Validation.{audit}
use apparel_network.Inventory.Service.{
  InventoryReconciliation, apply_quantity_operation, new_on_hand, recounted, reconcile_owned,
  publish_threshold_crossing,
}
use apparel_network.Outbox.Claims.{All-true}
use apparel_network.Inventory.Steps.{stored, moved, select_version-get_for_owner}

module _ {B : Type 0} {Q : B → Session → Type 0} where
  Succeeds-update :
      (inventory_id owner_id version : ℕ) (values : InventoryItem → InventoryItem)
      (f : Option InventoryItem → Action B) {s : Session} {existing : InventoryItem}
      → select_version inventory_id owner_id version s.db ≡ some existing
      → Succeeds
          (f (some (update_row values s.world.transaction_time existing)))
          (stored (update_row values s.world.transaction_time existing) s)
          Q
      → Succeeds (Repository.update inventory_id owner_id values version >>= f) s Q
  unfolding Repository.update ◌>>=◌ store_item save_or_none
  Succeeds-update inventory_id owner_id version values f e h = record {
    at = rw (e, save_or_none) (h.at);
  }

  Succeeds-record_movement :
      (item : InventoryItem) (values : NewMovement) {k : Action B} {s : Session}
      → Succeeds k (moved item values s) Q
      → Succeeds (record_movement item values >> k) s Q
  unfolding record_movement ◌>>=◌
  Succeeds-record_movement item values h = record { at = h.at }

Succeeds-publish_last :
    {Q : Unit {0} → Session → Type 0} (event : DomainEvent) {s : Session}
    → ((uuids clock : ℕ) (rows : List OutboxEvent)
        → Q tt (record s {
          uuids_drawn = uuids;
          clock_reads = clock;
          db = record s.db { outbox = rows };
        }))
    → Succeeds (publish event) s Q
unfolding publish ◌>>=◌
Succeeds-publish_last event h = record { at = h _ _ _ }

-- the tables of stock of a session
abbrev SameStock : Session → Session → Type 0
SameStock s s' = (s'.inventory ≡ s.inventory) × (s'.movements ≡ s.movements)

crossing-SameStock :
    (previous updated : InventoryItem) (active : ℤ) (s : Session)
    → Succeeds (publish_threshold_crossing previous updated active) s (λ _ s'. SameStock s s')
unfolding publish_threshold_crossing
crossing-SameStock previous updated active s =
    Succeeds-branch _ _ (λ _. Succeeds-publish_last _ λ u c rows. (refl, refl))
      λ _.
        Succeeds-branch _ _ (λ _. Succeeds-publish_last _ λ u c rows. (refl, refl))
          (λ _. Succeeds-return _ _ (refl, refl))

-- What a reconciliation leaves: the item with the count, at the next version, and one more movement
-- in the ledger.
pub record IsRecounted (existing : InventoryItem) (count : ℤ) (s : Session) (item : InventoryItem)
    (s' : Session) : Type 0 where
  pub on_hand : item.quantity_on_hand ≡ count
  pub available : item.quantity_available ≡ count -ℤ existing.quantity_reserved
  pub version : item.version ≡ existing.version + 1
  pub row : All (λ i. i.id ≡ existing.id → i ≡ item) s'.inventory
  pub ledger : length s'.movements ≡ length s.movements + 1

length-snoc : {A : Type 0} (xs : List A) (a : A) → length (xs ++ a ∷ []) ≡ length xs + 1
length-snoc [] a = refl
length-snoc (x ∷ xs) a = omega (arith, length-snoc xs a)

recounted_row :
    (existing : InventoryItem) (count : ℤ) (actor_id now : ℕ) (m : InventoryMovement)
    (s s' : Session)
    → (let item =
          update_row
            (recounted count (count -ℤ existing.quantity_reserved) actor_id)
            now
            existing in
        s'.inventory ≡ save item_key item s.inventory)
    → s'.movements ≡ s.movements ++ m ∷ []
    → IsRecounted existing count s
        (update_row (recounted count (count -ℤ existing.quantity_reserved) actor_id) now existing)
        s'
unfolding update_row recounted
recounted_row existing count actor_id now m s s' items movements = record {
  on_hand = refl;
  available = refl;
  version = refl;
  row =
      subst
        (λ xs.
          All
            (λ i.
              i.id ≡ existing.id
              → i
                ≡ update_row (recounted count (count -ℤ existing.quantity_reserved) actor_id) now
                    existing)
            xs)
        (sym items)
        (All-save item_key (λ _. Unit) _ _ s.inventory (All-true s.inventory)
          (λ x _ ne e. absurd (ne e)) (λ _. refl));
  ledger = ap length movements ∙ length-snoc s.movements m;
}

-- A reconciliation of an item that the actor may operate, at its current version and not
-- discontinued, with a reason and a source, and with a count that covers what is set aside and what
-- active reservations hold, returns: the item has the count, its availability follows, its version is
-- the next one, and the ledger has one more movement.
pub reconcile_owned-IsRecounted :
    (inventory_id actor_id : ℕ) (values : InventoryReconciliation) (s : Session)
    (existing : InventoryItem)
    → get_for_owner inventory_id actor_id s.db ≡ some existing
    → existing.version ≡ values.expected_version
    → existing.status ≢ InventoryStatus.discontinued
    → audit values.reason values.source ≡ none
    → pos 0 ≤ℤ values.physical_count
    → existing.quantity_reserved
        +ℤ pos (active_reservation_quantity inventory_id (s.world.clock s.clock_reads) s.db)
      ≤ℤ values.physical_count
    → Succeeds
        (reconcile_owned inventory_id actor_id values)
        s
        (IsRecounted existing values.physical_count s)
unfolding reconcile_owned apply_quantity_operation new_on_hand
reconcile_owned-IsRecounted inventory_id actor_id values s existing found current live audited
      nonneg cover =
    Succeeds-raise_if _ (le→ltb_ℤ _ _ nonneg) (
      Succeeds-check audited (
        Succeeds-gets _ _ (
          Succeeds-require _ _ found (
            Succeeds-raise_if _ same (
              Succeeds-raise_if _ (is_false _ _ live) (
                Succeeds-now _ (
                  Succeeds-gets _ _ (
                    Succeeds-raise_if _ (le→ltb_ℤ _ _ nonneg) (
                      Succeeds-raise_if _ (le→ltb_ℤ _ _ cover) (
                        Succeeds-update inventory_id actor_id values.expected_version _ _
                          (select_version-get_for_owner inventory_id actor_id
                            values.expected_version s.db found same)
                          (Succeeds-require _ _ refl (
                            Succeeds-record_movement _ _ (
                              Succeeds-publish _ λ row.
                                Succeeds-bind (crossing-SameStock existing _ _ _) λ _ s' stock.
                                  Succeeds-return _ _ (
                                    recounted_row existing values.physical_count actor_id _ _ s s'
                                      stock.0 stock.1))))))))))))))
  where
    same : (existing.version != values.expected_version) ≡ false
    same = eq→!= _ _ current

-- ===== src/Inventory/Steps.antt =====
-- Proof rules for the statements of the inventory service: one for each repository write, and for
-- the publication of an event, which touches the outbox alone.
use apparel_network.Prelude.{
  Option-cases, false, ◌!=◌, not, scalar_test, scalar_refine, ℕ, ◌+◌, ◌≡◌, refl, Bool, true, Option,
  some, [], ◌∷◌, ◌++◌, ◌&&◌, ◌==◌, save, Bool-cases, inl, inr, arith, is_none,
}
use apparel_network.Prelude.Int.{ℤ, pos, ◌-ℤ◌, ltb_ℤ}
use apparel_network.Errors.{AppError}
use apparel_network.Tables.Inventory.{InventoryItem}
use apparel_network.Tables.Shipping.{OutboxEvent}
use apparel_network.Session.{Action, Session, Tables, require, ◌>>=◌, ◌>>◌}
use apparel_network.Session.Rules.{Ensures}
use apparel_network.Outbox.{DomainEvent, publish}
use apparel_network.Outbox.Rules.{published}
use apparel_network.Inventory.Service.{guard_quantity, record_legacy}
use apparel_network.Inventory.Repository
use apparel_network.Inventory.Repository.{
  NewItem, NewMovement, item_row, item_key, movement_row, update_row, archive_row, consume_row,
  store_item, record_movement, enough, select_store_version, active_reservation_quantity,
  get_for_owner, select_version, save_or_none,
}

-- the session after a movement
abbrev pub moved : InventoryItem → NewMovement → Session → Session
moved item values s = record s {
  uuids_drawn = s.uuids_drawn + 1;
  db = record s.db {
    movements =
        s.movements
        ++ movement_row item values (s.world.uuid7 s.uuids_drawn) s.world.transaction_time ∷ [];
  };
}

-- the session after a flush of an item
abbrev pub stored : InventoryItem → Session → Session
stored item s = record s { db = record s.db { inventory = save item_key item s.inventory } }

module _ {B : Type 0} {Q : B → Session → Type 0} where
  pub Ensures-publish :
      (event : DomainEvent) {k : Action B} {s : Session}
      → ((row : OutboxEvent) → Ensures k (published row s) Q)
      → Ensures (publish event >> k) s Q
  unfolding publish ◌>>=◌
  Ensures-publish event h = record { at = (h _).at }

  pub Ensures-record_movement :
      (item : InventoryItem) (values : NewMovement) {k : Action B} {s : Session}
      → Ensures k (moved item values s) Q
      → Ensures (record_movement item values >> k) s Q
  unfolding record_movement ◌>>=◌
  Ensures-record_movement item values h = record { at = h.at }

  pub Ensures-save_or_none :
      (values : ℕ → InventoryItem → InventoryItem) (item : InventoryItem)
      (f : Option InventoryItem → Action B) {s : Session}
      → Ensures
          (f (some (values s.world.transaction_time item)))
          (stored (values s.world.transaction_time item) s)
          Q
      → Ensures (save_or_none values (some item) >>= f) s Q
  unfolding save_or_none ◌>>=◌ store_item
  Ensures-save_or_none values item f h = record { at = h.at }

-- The row that the service has read, at the version that it has checked, is the one that the
-- write selects: in one session the second `modified` conflict cannot arise.
pub select_version-get_for_owner :
    (inventory_id owner_id version : ℕ) (db : Tables) {existing : InventoryItem}
    → get_for_owner inventory_id owner_id db ≡ some existing
    → (existing.version != version) ≡ false
    → select_version inventory_id owner_id version db ≡ some existing
unfolding get_for_owner select_version
select_version-get_for_owner inventory_id owner_id version db {existing} e v =
    scalar_refine _ _ db.inventory
      (λ x h. weaken (x.id == inventory_id) (is_none x.deleted_at) (x.version == version) _ h) e
      (strengthen (existing.id == inventory_id) (is_none existing.deleted_at)
        (existing.version == version) _ v (scalar_test _ db.inventory e))
  where
    weaken : (a b c d : Bool) → (a && b && c && d) ≡ true → (a && b && d) ≡ true
    weaken a b c d h = ground arith

    strengthen : (a b c d : Bool) → not c ≡ false → (a && b && d) ≡ true → (a && b && c && d) ≡ true
    strengthen a b c d n h = ground arith

module _ {B : Type 0} {Q : B → Session → Type 0} where
  pub Ensures-update :
      (inventory_id owner_id version : ℕ) (values : InventoryItem → InventoryItem)
      (f : Option InventoryItem → Action B) {s : Session} {existing : InventoryItem}
      → select_version inventory_id owner_id version s.db ≡ some existing
      → Ensures
          (f (some (update_row values s.world.transaction_time existing)))
          (stored (update_row values s.world.transaction_time existing) s)
          Q
      → Ensures (Repository.update inventory_id owner_id values version >>= f) s Q
  unfolding Repository.update ◌>>=◌ store_item save_or_none
  Ensures-update inventory_id owner_id version values f e h = record {
    at = rw (e, save_or_none) (h.at);
  }

  pub Ensures-archive :
      (inventory_id owner_id version deleted_at : ℕ) (e : AppError) (f : InventoryItem → Action B)
      {s : Session}
      → ((m : InventoryItem)
          → select_version inventory_id owner_id version s.db ≡ some m
          → Ensures
              (f (archive_row deleted_at owner_id s.world.transaction_time m))
              (stored (archive_row deleted_at owner_id s.world.transaction_time m) s)
              Q)
      → Ensures
          (Repository.archive inventory_id owner_id version deleted_at >>= λ r. require r e >>= f)
          s
          Q
  unfolding Repository.archive ◌>>=◌ store_item save_or_none
  Ensures-archive inventory_id owner_id version deleted_at e f {s} h =
      elim (Option-cases (select_version inventory_id owner_id version s.db)) [
        | inl missing ↦ record { at = rw (missing, save_or_none) tt }
        | inr (m, found) ↦ record { at = rw (found, save_or_none) ((h m found).at) }
      ]

  pub Ensures-consume :
      (inventory_id store_id actor_id version : ℕ) (quantity : ℤ) (e : AppError)
      (f : InventoryItem → Action B) {s : Session}
      → ((m : InventoryItem)
          → enough quantity (select_store_version inventory_id store_id version s.db) ≡ some m
          → Ensures
              (f (consume_row quantity actor_id s.world.transaction_time m))
              (stored (consume_row quantity actor_id s.world.transaction_time m) s)
              Q)
      → Ensures
          (Repository.consume inventory_id store_id quantity actor_id version >>= λ r.
            require r e >>= f)
          s
          Q
  unfolding Repository.consume ◌>>=◌ store_item save_or_none
  Ensures-consume inventory_id store_id actor_id version quantity e f {s} h =
      elim (Option-cases
        (enough quantity (select_store_version inventory_id store_id version s.db))) [
          | inl missing ↦ record { at = rw (missing, save_or_none) tt }
          | inr (m, found) ↦ record { at = rw (found, save_or_none) ((h m found).at) }
        ]

  pub Ensures-add :
      (values : NewItem) (f : InventoryItem → Action B) {s : Session}
      → (let item = item_row values (s.world.uuid7 s.uuids_drawn) s.world.transaction_time in
          Ensures
            (f item)
            (record s {
              uuids_drawn = s.uuids_drawn + 1;
              db = record s.db { inventory = s.inventory ++ item ∷ [] };
            })
            Q)
      → Ensures (Repository.add values >>= f) s Q
  unfolding Repository.add ◌>>=◌
  Ensures-add values f h = record { at = h.at }

  pub Ensures-guard_quantity :
      (changed : Bool) (inventory_id : ℕ) (on_hand reserved : ℤ) (f : ℤ → Action B) {s : Session}
      → ((active : ℕ)
          → changed ≡ true
          → ltb_ℤ (on_hand -ℤ reserved) (pos active) ≡ false
          → Ensures (f (pos active)) (record s { clock_reads = s.clock_reads + 1 }) Q)
      → (changed ≡ false → Ensures (f (pos 0)) s Q)
      → Ensures (guard_quantity changed inventory_id on_hand reserved >>= f) s Q
  unfolding guard_quantity ◌>>=◌
  Ensures-guard_quantity true inventory_id on_hand reserved f {s} h k =
      let active : ℕ =
        active_reservation_quantity inventory_id (s.world.clock s.clock_reads) s.db in
      elim (Bool-cases (ltb_ℤ (on_hand -ℤ reserved) (pos active))) [
        | inl t ↦ record { at = rw t tt }
        | inr t ↦ record { at = rw t ((h active refl t).at) }
      ]
  Ensures-guard_quantity false inventory_id on_hand reserved f h k = record { at = (k refl).at }

  pub Ensures-record_legacy :
      (changed : Bool) (item : InventoryItem) (movement : NewMovement) {k : Action B} {s : Session}
      → ((row : OutboxEvent) → changed ≡ true → Ensures k (published row (moved item movement s)) Q)
      → (changed ≡ false → Ensures k s Q)
      → Ensures (record_legacy changed item movement >> k) s Q
  unfolding record_legacy record_movement publish ◌>>=◌
  Ensures-record_legacy true item movement h k = record { at = (h _ refl).at }
  Ensures-record_legacy false item movement h k = record { at = (k refl).at }

pub Ensures-publish_last :
    (I : Tables → Type 0) (event : DomainEvent) (s : Session)
    → ((row : OutboxEvent) → I (published row s).db)
    → Ensures (publish event) s (λ _ s'. I s'.db)
unfolding publish ◌>>=◌
Ensures-publish_last I event s h = record { at = h _ }

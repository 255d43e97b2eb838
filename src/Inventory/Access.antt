-- ===== src/Inventory/Access.antt =====
-- stores/infrastructure/persistence/access.py: who may operate a store.
use apparel_network.Prelude.{ℕ, Bool, ◌==◌, ◌&&◌, ◌||◌, is_some, any, scalar}
use apparel_network.Tables.Enums.{StoreMembershipStatus, store_membership_status_enum, ◌is◌}
use apparel_network.Tables.Inventory.{Store}
use apparel_network.Session.{Tables}

-- `store_accessible_by(actor_id)`, on one row of `stores`
unfoldable pub store_accessible_by : Tables → ℕ → Store → Bool
store_accessible_by db actor_id store =
    (store.owner_id == actor_id)
    || any
        (λ m.
          (m.store_id == store.id)
          && (m.user_id == actor_id)
          && (m.status is StoreMembershipStatus.active))
        db.memberships

-- `.join(StoreModel).where(store_accessible_by(actor_id))`, for a row that belongs to a store
unfoldable pub accessible : Tables → ℕ → ℕ → Bool
unfolding store_accessible_by
accessible db actor_id store_id =
    is_some
      (scalar (λ store. (store.id == store_id) && store_accessible_by db actor_id store) db.stores)

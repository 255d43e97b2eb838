-- ===== src/Tables/Inventory.antt =====
-- modules/inventory/domain/models.py, and what the inventory queries read of the tables of the
-- stores and products modules. An identifier is the number that its UUID is; a time is a number of
-- microseconds.
use apparel_network.Prelude.{ℕ, Bool, Option}
use apparel_network.Prelude.Int.{ℤ}
use apparel_network.Prelude.Text.{Text}
use apparel_network.Tables.Enums.{
  InventoryStatus, TrackingPolicy, InventoryMovementType, StoreMembershipStatus,
}

-- a row of `inventory_items`
pub record InventoryItem : Type 0 where
  pub id : ℕ
  pub variant_id : ℕ
  pub product_id : ℕ
  pub catalog_id : ℕ
  pub store_id : ℕ
  pub sku_snapshot : Text
  pub quantity_on_hand : ℤ
  pub quantity_reserved : ℤ
  pub quantity_available : ℤ
  pub status : InventoryStatus
  pub tracking_policy : TrackingPolicy
  pub low_stock_threshold : ℤ
  pub created_at : ℕ
  pub updated_at : ℕ
  pub deleted_at : Option ℕ
  pub version : ℕ
  pub created_by_id : Option ℕ
  pub updated_by_id : Option ℕ

-- a row of `inventory_movements`
pub record InventoryMovement : Type 0 where
  pub id : ℕ
  pub inventory_id : ℕ
  pub store_id : ℕ
  pub variant_id : ℕ
  pub movement_type : InventoryMovementType
  pub quantity_delta : ℤ
  pub previous_on_hand : ℤ
  pub new_on_hand : ℤ
  pub previous_available : ℤ
  pub new_available : ℤ
  pub reservation_quantity : ℤ
  pub reason : Text
  pub actor_id : ℕ
  pub source : Text
  pub reference_id : Option ℕ
  pub created_at : ℕ

-- the columns of `stores` that decide access
pub record Store : Type 0 where
  pub id : ℕ
  pub owner_id : ℕ
  pub deleted_at : Option ℕ

-- the columns of `store_memberships` that decide access
pub record StoreMembership : Type 0 where
  pub store_id : ℕ
  pub user_id : ℕ
  pub status : StoreMembershipStatus

-- the columns of `products` that the queries of inventory and pricing read
pub record Product : Type 0 where
  pub id : ℕ
  pub catalog_id : ℕ
  pub store_id : ℕ
  pub deleted_at : Option ℕ

-- the columns of `product_variants` that the queries of inventory and pricing read
pub record ProductVariant : Type 0 where
  pub id : ℕ
  pub product_id : ℕ
  pub store_id : ℕ
  pub reference : Text
  pub is_active : Bool
  pub deleted_at : Option ℕ

-- ===== src/Tables/Pricing.antt =====
-- modules/pricing/domain/models.py: the row of a product's price; and what its service reads of a
-- catalog.
use apparel_network.Prelude.{ℕ, Option}
use apparel_network.Prelude.Text.{Text}
use apparel_network.Tables.Enums.{PriceStatus}

-- Amounts are ten-thousandths, the scale of the columns.
pub record ProductPrice : Type 0 where
  pub id : ℕ
  pub store_id : ℕ
  pub product_id : ℕ
  pub variant_id : Option ℕ
  pub currency_code : Text
  pub base_price : ℕ
  pub sale_price : Option ℕ
  pub compare_at_price : Option ℕ
  pub cost_price : Option ℕ
  pub tax_class : Text
  pub status : PriceStatus
  pub effective_from : Option ℕ
  pub effective_until : Option ℕ
  pub version : ℕ
  pub created_at : ℕ
  pub updated_at : ℕ
  pub created_by_id : Option ℕ
  pub updated_by_id : Option ℕ
  pub deleted_at : Option ℕ
  pub deleted_by_id : Option ℕ

-- the columns of `catalogs` that the ownership policy reads
pub record Catalog : Type 0 where
  pub id : ℕ
  pub store_id : ℕ
  pub deleted_at : Option ℕ

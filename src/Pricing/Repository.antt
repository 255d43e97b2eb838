-- ===== src/Pricing/Repository.antt =====
-- `SqlAlchemyProductPriceRepository` of pricing/infrastructure/repositories.py, and
-- `PricingOwnershipPolicy` of pricing/application/policies.py on its queries.
use apparel_network.Prelude.{
  ℕ, ◌+◌, Bool, true, false, Option, none, some, [], ◌∷◌, ◌++◌, ◌&&◌, ◌==◌, ◌!=◌, is_none, is_some,
  any, scalar, save, get_or_else,
}
use apparel_network.Prelude.Text.{Text, eq_text}
use apparel_network.Errors.{value_error}
use apparel_network.Tables.Enums.{PriceStatus, price_status_enum, ◌is◌}
use apparel_network.Tables.Inventory.{Product}
use apparel_network.Tables.Pricing.{ProductPrice}
use apparel_network.Session.{
  Action, Tables, return, gets, modify, raise_if, db_now, uuid7, ◌>>=◌, ◌>>◌,
}
use apparel_network.Inventory.Access.{store_accessible_by}
use apparel_network.Inventory.Validation.{Dynamic}
use apparel_network.Pricing.Money.{Decimal, ten_thousandths}
use apparel_network.Pricing.Validation.{
  ProductPriceCreate, PriceChanges, merged, nullable, amount_of, time_of, zoned,
}

-- a column that may be null against a value that may be None: `IS NULL`, or `=`
unfoldable pub matches : Option ℕ → Option ℕ → Bool
matches none none = true
matches (some a) (some b) = a == b
matches _ _ = false

-- `store_owned`, and the join with `stores` of the other queries
unfoldable pub store_owned : ℕ → ℕ → Tables → Bool
store_owned store_id owner_id db = is_some (
    scalar
      (λ store.
        (store.id == store_id) && store_accessible_by db owner_id store && is_none store.deleted_at)
      db.stores)

-- `product_context`
unfoldable pub product_context : ℕ → ℕ → Tables → Option Product
unfolding store_owned
product_context product_id owner_id db =
    scalar (λ p. (p.id == product_id) && is_none p.deleted_at && store_owned p.store_id owner_id db)
      db.products

-- `catalog_owned`
unfoldable pub catalog_owned : ℕ → ℕ → ℕ → Tables → Bool
unfolding store_owned
catalog_owned catalog_id store_id owner_id db = is_some (
    scalar
      (λ c.
        (c.id == catalog_id)
        && (c.store_id == store_id)
        && is_none c.deleted_at
        && store_owned c.store_id owner_id db)
      db.catalogs)

-- `variant_owned`
unfoldable pub variant_owned : ℕ → ℕ → ℕ → ℕ → Tables → Bool
unfolding store_owned
variant_owned variant_id product_id store_id owner_id db = is_some (
    scalar
      (λ v.
        (v.id == variant_id)
        && (v.product_id == product_id)
        && (v.store_id == store_id)
        && is_none v.deleted_at
        && v.is_active
        && store_owned v.store_id owner_id db)
      db.variants)

-- `PricingOwnershipPolicy.validate`
unfoldable pub validate : ℕ → ℕ → Option ℕ → ℕ → Tables → Bool
unfolding store_owned product_context catalog_owned variant_owned
validate store_id product_id variant_id owner_id db =
    store_owned store_id owner_id db && in_context (product_context product_id owner_id db)
  where
    of_product : Option ℕ → Bool
    of_product none = true
    of_product (some variant) = variant_owned variant product_id store_id owner_id db

    in_context : Option Product → Bool
    in_context none = false
    in_context (some p) =
        (p.store_id == store_id)
        && catalog_owned p.catalog_id store_id owner_id db
        && of_product variant_id

-- one row of `active_price_exists`, without the test on `exclude_id`
unfoldable pub takes :
    (product_id : ℕ) (variant_id : Option ℕ) (currency_code : Text)
    (effective_from effective_until : Option ℕ)
    → ProductPrice
    → Bool
unfolding matches
takes product_id variant_id currency_code effective_from effective_until r =
    (r.product_id == product_id)
    && eq_text r.currency_code currency_code
    && (r.status is PriceStatus.active)
    && is_none r.deleted_at
    && matches r.variant_id variant_id
    && matches r.effective_from effective_from
    && matches r.effective_until effective_until

-- `active_price_exists`
unfoldable pub active_price_exists :
    (product_id : ℕ) (variant_id : Option ℕ) (currency_code : Text)
    (effective_from effective_until : Option ℕ) (exclude_id : ℕ)
    → Tables
    → Bool
unfolding takes
active_price_exists product_id variant_id currency_code effective_from effective_until exclude_id
      db =
    any
      (λ r.
        takes product_id variant_id currency_code effective_from effective_until r
        && (r.id != exclude_id))
      db.prices

abbrev pub price_key : ProductPrice → ℕ
price_key price = price.id

unfoldable pub store_price : ProductPrice → Tables → Tables
store_price price db = record db { prices = save price_key price db.prices }

-- the row of `add`, with the validated currency code and tax class
unfoldable pub price_row : ProductPriceCreate → Text → Text → ℕ → ℕ → ProductPrice
price_row values currency_code tax_class id now = record {
  id = id;
  store_id = values.store_id;
  product_id = values.product_id;
  variant_id = values.variant_id;
  currency_code = currency_code;
  base_price = ten_thousandths values.base_price;
  sale_price = amount_of (nullable values.sale_price);
  compare_at_price = amount_of (nullable values.compare_at_price);
  cost_price = amount_of (nullable values.cost_price);
  tax_class = tax_class;
  status = values.status;
  effective_from = time_of (nullable values.effective_from);
  effective_until = time_of (nullable values.effective_until);
  version = 1;
  created_at = now;
  updated_at = now;
  created_by_id = some values.actor_id;
  updated_by_id = some values.actor_id;
  deleted_at = none;
  deleted_by_id = none;
}

-- `add`: the database refuses a primary key that it has
unfoldable pub add : ProductPriceCreate → Text → Text → Action ProductPrice
unfolding price_row
add values currency_code tax_class = do
  id ← uuid7
  now ← db_now
  refused ← gets λ db. any (λ r. r.id == id) db.prices
  raise_if refused (value_error "IntegrityError")
  modify
      λ db. record db { prices = db.prices ++ price_row values currency_code tax_class id now ∷ [] }
  return (price_row values currency_code tax_class id now)

-- `get_for_owner`
unfoldable pub get_for_owner : ℕ → ℕ → Tables → Option ProductPrice
unfolding store_owned
get_for_owner price_id owner_id db =
    scalar (λ r. (r.id == price_id) && is_none r.deleted_at && store_owned r.store_id owner_id db)
      db.prices

-- `_versioned_model`
unfoldable pub versioned_model : ℕ → ℕ → ℕ → Tables → Option ProductPrice
unfolding store_owned
versioned_model price_id owner_id expected_version db =
    scalar
      (λ r.
        (r.id == price_id)
        && is_none r.deleted_at
        && (r.version == expected_version)
        && store_owned r.store_id owner_id db)
      db.prices

-- `setattr` of a column for a field that the mapping has
unfoldable pub set_amount : Option (Dynamic Decimal) → Option ℕ → Option ℕ
set_amount none column = column
set_amount (some value) column = amount_of value

unfoldable pub set_column : {A : Type 0} → Option (Dynamic A) → A → A
set_column (some (Dynamic.typed a)) column = a
set_column _ column = column

-- the assignments of `update`; `base_price`, `tax_class` and `status` have passed their type tests
unfoldable pub update_row : PriceChanges → ℕ → ℕ → ProductPrice → ProductPrice
unfolding set_amount set_column merged
update_row changes actor_id now price = record price {
  base_price = get_or_else (set_amount changes.base_price (some price.base_price)) 0;
  sale_price = set_amount changes.sale_price price.sale_price;
  compare_at_price = set_amount changes.compare_at_price price.compare_at_price;
  cost_price = set_amount changes.cost_price price.cost_price;
  tax_class = set_column changes.tax_class price.tax_class;
  status = set_column changes.status price.status;
  effective_from = time_of (merged changes.effective_from (zoned price.effective_from));
  effective_until = time_of (merged changes.effective_until (zoned price.effective_until));
  updated_by_id = some actor_id;
  updated_at = now;
  version = price.version + 1;
}

-- the assignments of `archive`
unfoldable pub archive_row : ℕ → ℕ → ℕ → ProductPrice → ProductPrice
archive_row deleted_at deleted_by_id now price = record price {
  status = PriceStatus.archived;
  deleted_at = some deleted_at;
  deleted_by_id = some deleted_by_id;
  updated_by_id = some deleted_by_id;
  updated_at = now;
  version = price.version + 1;
}

-- ===== src/Pricing/Service.antt =====
-- `PricingService` of pricing/application/services.py.
use apparel_network.Prelude.{ℕ, String, not, Option, none, some, List, [], ◌∷◌, ◌++◌, ◌&&◌, ◌||◌}
use apparel_network.Prelude.Text.{Text}
use apparel_network.Errors.{AppError, not_found, conflict}
use apparel_network.Tables.Enums.{PriceStatus, price_status_enum, ◌is◌}
use apparel_network.Tables.Pricing.{ProductPrice}
use apparel_network.Session.{
  Action, return, raise, gets, fetch, require, raise_if, check, branch, now_utc, update_where,
  ◌>>=◌, ◌>>◌,
}
use apparel_network.Session.Checked.{raise_invalid}
use apparel_network.Outbox.{DomainEvent, publish}
use apparel_network.Inventory.Validation.{◌and_then◌, reject_if}
use apparel_network.Pricing.Validation.{
  ProductPriceCreate, PriceChanges, merged, time_of, zoned, validate_create, validate_changes,
}
use apparel_network.Pricing.Repository.{
  validate, active_price_exists, store_price, add, get_for_owner, versioned_model, set_column,
  update_row, archive_row,
}

-- application/schemas.py
pub record ProductPriceUpdate : Type 0 where
  pub values : PriceChanges
  pub expected_version : ℕ
  pub actor_id : ℕ

-- `_not_found`
abbrev pub price_not_found : AppError
price_not_found = not_found "Product price"

abbrev pub price_modified : AppError
price_modified = conflict "The product price was modified by another request."

-- `_publish`: the entries of the payload that are identifiers and numbers
unfoldable pub price_event : String → ProductPrice → DomainEvent
price_event name price = record {
  event_name = name;
  aggregate_type = "product_price";
  aggregate_id = price.id;
  payload =
      ("price_id", price.id) ∷ ("product_id", price.product_id) ∷ variant price.variant_id
      ++ ("store_id", price.store_id) ∷ ("version", price.version) ∷ [];
}
  where
    variant : Option ℕ → List (String × ℕ)
    variant none = []
    variant (some id) = ("variant_id", id) ∷ []

-- `get_owned`
unfoldable pub get_owned : ℕ → ℕ → Action ProductPrice
get_owned price_id owner_id = fetch (get_for_owner price_id owner_id) price_not_found

-- `_validate_transition`: the failure that it raises, or `none`
unfoldable pub validate_transition : PriceStatus → PriceStatus → Option AppError
unfolding ◌and_then◌
validate_transition current target =
    reject_if ((current is PriceStatus.archived) && not (target is PriceStatus.archived))
      (conflict "Archived prices cannot be reactivated.")
    and_then reject_if
        ((current is PriceStatus.draft)
          && not (
              (target is PriceStatus.draft)
              || (target is PriceStatus.active)
              || (target is PriceStatus.archived)))
        (conflict "Invalid price lifecycle transition.")
    and_then reject_if
        ((current is PriceStatus.active)
          && not ((target is PriceStatus.active) || (target is PriceStatus.archived)))
        (conflict "Active prices cannot return to draft.")

-- the events of `update_owned` after the first
unfoldable pub announce : PriceStatus → PriceStatus → ProductPrice → Action Unit
unfolding price_event
announce current target price =
    branch (not (current is target) && (target is PriceStatus.active))
      (publish (price_event "product_price.activated" price))
      (branch (not (current is target) && (target is PriceStatus.archived))
        (publish (price_event "product_price.archived" price)) (return tt))

-- `if price is None` of `update_owned`
unfoldable pub require_updated : ℕ → ℕ → Option ProductPrice → Action ProductPrice
require_updated price_id owner_id (some price) = return price
require_updated price_id owner_id none = do
  again ← gets (get_for_owner price_id owner_id)
  found ← require again price_not_found
  raise price_modified

module _ (upper lower : Text → Text) where
  -- `create`
  unfoldable pub create : ProductPriceCreate → Action ProductPrice
  unfolding price_event
  create values = do
    persisted ← raise_invalid (validate_create upper lower values)
    owned ← gets (validate values.store_id values.product_id values.variant_id values.actor_id)
    raise_if (not owned) price_not_found
    price ← add values persisted.0 persisted.1
    publish (price_event "product_price.created" price)
    return price

  -- `update_owned`
  unfoldable pub update_owned : ℕ → ℕ → ProductPriceUpdate → Action ProductPrice
  unfolding get_owned price_event merged set_column validate_transition
  update_owned price_id owner_id values = do
    current ← get_owned price_id owner_id
    changes ← raise_invalid (validate_changes upper lower values.values current)
    check (validate_transition current.status (set_column changes.status current.status))
    taken ← gets (
        active_price_exists current.product_id current.variant_id current.currency_code
          (time_of (merged changes.effective_from (zoned current.effective_from)))
          (time_of (merged changes.effective_until (zoned current.effective_until))) current.id)
    raise_if ((set_column changes.status current.status is PriceStatus.active) && taken)
        (conflict "An active price already exists for this effective period.")
    written ←
        update_where (versioned_model price_id owner_id values.expected_version) store_price
          (update_row changes values.actor_id)
    price ← require_updated price_id owner_id written
    publish (price_event "product_price.updated" price)
    announce current.status (set_column changes.status current.status) price
    return price

-- `delete_owned`
unfoldable pub delete_owned : ℕ → ℕ → ℕ → Action Unit
unfolding get_owned price_event archive_row
delete_owned price_id owner_id expected_version = do
  current ← get_owned price_id owner_id
  deleted_at ← now_utc
  written ←
      update_where (versioned_model price_id owner_id expected_version) store_price
        (archive_row deleted_at owner_id)
  price ← require written price_modified
  branch (current.status is PriceStatus.archived) (return tt)
      (publish (price_event "product_price.archived" price))
  publish (price_event "product_price.deleted" price)

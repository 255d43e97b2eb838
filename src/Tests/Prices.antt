-- ===== src/Tests/Prices.antt =====
-- A price of nine euros for the shirt, its change to a sale that is active, and amounts of money.
use apparel_network.Prelude.{ℕ, ◌≡◌, refl, false, none, some, [], ◌∷◌, arith}
use apparel_network.Prelude.Int.{pos}
use apparel_network.Prelude.Text.{Text, codes, eq_text, strip, lstrip, is_space}
use apparel_network.Tables.Enums.{PriceStatus, price_status_ordinal, ◌is◌}
use apparel_network.Tables.Pricing.{ProductPrice}
use apparel_network.Session.{Tables}
use apparel_network.Session.Runs.{Runs}
use apparel_network.Inventory.Validation.{Dynamic}
use apparel_network.Pricing.Money.{Decimal, amount_error, ten_thousandths}
use apparel_network.Pricing.Validation.{
  ProductPriceCreate, sale_exceeds, compare_below, out_of_order, validate_create, is_tax_class,
  prices, period, currency, tax_class, price_field,
}
use apparel_network.Session.Checked.{Checked, ◌then_check◌}
use apparel_network.Pricing.Money.{normalize_currency_code, is_iso_4217, money_error}
use apparel_network.Pricing.Invariant.{HasPrices}
use apparel_network.Pricing.Requests.{Request}
use apparel_network.Pricing.Amounts.{IsMoney, amount_error_iff}
use apparel_network.Prelude.{scalar, true, ◌↔◌}
use apparel_network.Session.Rules.{Ensures}
use apparel_network.Session.Succeeds.{Succeeds}
use apparel_network.Pricing.Lookup.{get_for_owner-create}
use apparel_network.Session.Preserves.{Preserves}
use apparel_network.Inventory.Access.{store_accessible_by}
use apparel_network.Pricing.Repository.{
  get_for_owner, store_owned, validate, product_context, catalog_owned, variant_owned,
}
use apparel_network.Pricing.Service.{ProductPriceUpdate, create, update_owned}
use apparel_network.Pricing.Refusals.{stale_update_refused}
use apparel_network.Tests.Data.{tables, session_of}

abbrev shirt_price : ℕ → PriceStatus → ProductPrice
shirt_price id status = record {
  id = id;
  store_id = 5;
  product_id = 3;
  variant_id = some 4;
  currency_code = codes "EUR";
  base_price = 90_000;
  sale_price = none;
  compare_at_price = none;
  cost_price = some 40_000;
  tax_class = codes "standard";
  status = status;
  effective_from = none;
  effective_until = none;
  version = 1;
  created_at = 10;
  updated_at = 10;
  created_by_id = some 7;
  updated_by_id = some 7;
  deleted_at = none;
  deleted_by_id = none;
}

abbrev priced_tables : Tables
priced_tables = record tables { prices = shirt_price 95 PriceStatus.draft ∷ [] }

priced_tables-HasPrices : HasPrices priced_tables.prices
unfolding sale_exceeds compare_below out_of_order
priced_tables-HasPrices = record {
  prices_valid = (
    record {
      sale_admitted = refl;
      compare_admitted = refl;
      period_ordered = refl;
      version_positive = omega arith;
      deleted_archived = refl;
    },
    tt,
  );
  prices_apart = (tt, tt);
}

-- the texts are in the case that the service wants
abbrev same_text : Text → Text
same_text value = value

abbrev to_sale : Request
to_sale = Request.change 95 7 (record {
  values = record {
    base_price = none;
    sale_price = some (Dynamic.typed (Decimal.finite (pos 799) 2));
    compare_at_price = none;
    cost_price = none;
    tax_class = none;
    status = some (Dynamic.typed PriceStatus.active);
    effective_from = none;
    effective_until = none;
    has_unsupported = false;
  };
  expected_version = 1;
  actor_id = 7;
})

amount_error_iff_example :
    (amount_error (Decimal.finite (pos 799) 2) ≡ none) ↔ IsMoney (Decimal.finite (pos 799) 2)
amount_error_iff_example = amount_error_iff (Decimal.finite (pos 799) 2)

abbrev from_second_version : ProductPriceUpdate
from_second_version = record {
  values = record {
    base_price = some (Dynamic.typed (Decimal.finite (pos 8) 0));
    sale_price = none;
    compare_at_price = none;
    cost_price = none;
    tax_class = none;
    status = none;
    effective_from = none;
    effective_until = none;
    has_unsupported = false;
  };
  expected_version = 2;
  actor_id = 7;
}

stale_update_refused_example :
    Ensures
      (update_owned same_text same_text 95 7 from_second_version)
      (session_of priced_tables)
      (λ _ _. ⊥)
    × Preserves
        (λ s'. s'.db ≡ priced_tables)
        (update_owned same_text same_text 95 7 from_second_version)
        (session_of priced_tables)
stale_update_refused_example =
    stale_update_refused same_text same_text 95 7 from_second_version (session_of priced_tables)
      (shirt_price 95 PriceStatus.draft) priced_tables-HasPrices found (omega arith)
  where
    found : get_for_owner 95 7 priced_tables ≡ some (shirt_price 95 PriceStatus.draft)
    found = unfold get_for_owner store_owned store_accessible_by scalar in refl

abbrev new_price : ProductPriceCreate
new_price = record {
  store_id = 5;
  product_id = 3;
  variant_id = some 4;
  currency_code = codes " EUR";
  base_price = Decimal.finite (pos 85) 1;
  sale_price = none;
  compare_at_price = some (Decimal.finite (pos 10) 0);
  cost_price = none;
  tax_class = codes "reduced";
  status = PriceStatus.draft;
  effective_from = none;
  effective_until = none;
  actor_id = 7;
}

new_price-valid :
    validate_create same_text same_text new_price ≡ Checked.valid (codes "EUR", codes "reduced")
unfolding validate_create ◌then_check◌ ◌is◌ price_status_ordinal normalize_currency_code eq_text
    strip codes is_tax_class prices sale_exceeds compare_below ten_thousandths period out_of_order
    is_space lstrip amount_error is_iso_4217 money_error currency tax_class price_field
new_price-valid = refl

new_price-owned : validate 5 3 (some 4) 7 priced_tables ≡ true
unfolding validate store_owned product_context catalog_owned variant_owned scalar
    store_accessible_by
new_price-owned = refl

get_for_owner-create_example :
    Succeeds
      (create same_text same_text new_price)
      (session_of priced_tables)
      (λ price s'. get_for_owner price.id 7 s'.db ≡ some price)
get_for_owner-create_example =
    get_for_owner-create same_text same_text new_price (codes "EUR") (codes "reduced")
      (session_of priced_tables) new_price-valid new_price-owned refl

-- ===== src/Pricing/Validation.antt =====
-- `ProductPriceValidationService` of pricing/application/services.py. Python's `str.upper` and
-- `str.lower` are parameters.
use apparel_network.Prelude.{
  ℕ, String, Bool, true, false, not, Option, none, some, [], ◌∷◌, ◌&&◌, ◌||◌, ◌==◌, is_none, leb,
  ltb, length, if◌then◌else◌, get_or_else,
}
use apparel_network.Prelude.Text.{Text, strip}
use apparel_network.Errors.{validation}
use apparel_network.Tables.Enums.{PriceStatus, price_status_enum, ◌is◌}
use apparel_network.Tables.Pricing.{ProductPrice}
use apparel_network.Session.Checked.{Checked, ◌then_check◌, fail_if}
use apparel_network.Inventory.Validation.{Dynamic}
use apparel_network.Stores.Validation.{Moment}
use apparel_network.Pricing.Money.{
  Decimal, normalize_currency_code, money_error, ten_thousandths, stored,
}

-- application/schemas.py
pub record ProductPriceCreate : Type 0 where
  pub store_id : ℕ
  pub product_id : ℕ
  pub variant_id : Option ℕ
  pub currency_code : Text
  pub base_price : Decimal
  pub sale_price : Option Decimal
  pub compare_at_price : Option Decimal
  pub cost_price : Option Decimal
  pub tax_class : Text
  pub status : PriceStatus
  pub effective_from : Option Moment
  pub effective_until : Option Moment
  pub actor_id : ℕ

-- `ProductPriceUpdate.values`: the supported fields that the mapping has, and whether it has others
pub record PriceChanges : Type 0 where
  pub base_price : Option (Dynamic Decimal)
  pub sale_price : Option (Dynamic Decimal)
  pub compare_at_price : Option (Dynamic Decimal)
  pub cost_price : Option (Dynamic Decimal)
  pub tax_class : Option (Dynamic Text)
  pub status : Option (Dynamic PriceStatus)
  pub effective_from : Option (Dynamic Moment)
  pub effective_until : Option (Dynamic Moment)
  pub has_unsupported : Bool

unfoldable pub is_empty_body : PriceChanges → Bool
is_empty_body c =
    is_none c.base_price
    && is_none c.sale_price
    && is_none c.compare_at_price
    && is_none c.cost_price
    && is_none c.tax_class
    && is_none c.status
    && is_none c.effective_from
    && is_none c.effective_until

-- a nullable value
abbrev pub nullable : {A : Type 0} → Option A → Dynamic A
nullable none = Dynamic.null
nullable (some a) = Dynamic.typed a

-- `values.get(field, current.field)`
unfoldable pub merged : {A : Type 0} → Option (Dynamic A) → Dynamic A → Dynamic A
merged none current = current
merged (some value) current = value

-- the current values of nullable columns
abbrev pub stored_option : Option ℕ → Option Decimal
stored_option none = none
stored_option (some amount) = some (stored amount)

-- the column of a value that passed validation
abbrev pub amount_of : Dynamic Decimal → Option ℕ
amount_of (Dynamic.typed d) = some (ten_thousandths d)
amount_of _ = none

abbrev pub time_of : Dynamic Moment → Option ℕ
time_of (Dynamic.typed m) = some m.instant
time_of _ = none

-- `_TAX_CLASS`: a lower-case letter, then at most 49 of the lower-case letters, digits, `_` and `-`
abbrev is_lower_letter : ℕ → Bool
is_lower_letter c = leb 97 c && leb c 122

abbrev is_tax_mark : ℕ → Bool
is_tax_mark c = is_lower_letter c || (leb 48 c && leb c 57) || c == 95 || c == 45

unfoldable pub is_tax_class : Text → Bool
is_tax_class [] = false
is_tax_class (c ∷ rest) = is_lower_letter c && every rest && leb (length rest) 49
  where
    every : Text → Bool
    every [] = true
    every (d ∷ marks) = is_tax_mark d && every marks

-- the loop of `prices` on one field: a value that is there must be an amount of money
unfoldable pub price_field : (Text → Text) → Text → String → Bool → Dynamic Decimal → Checked Unit
unfolding money_error
price_field upper currency field is_required Dynamic.null =
    fail_if is_required field "Price must be a decimal amount."
price_field upper currency field is_required Dynamic.mistyped =
    Checked.invalid (validation field "Price must be a decimal amount.")
price_field upper currency field is_required (Dynamic.typed d) =
    money (money_error upper d currency)
  where
    money : Option String → Checked Unit
    money none = Checked.valid tt
    money (some message) = Checked.invalid (validation field message)

-- the comparisons of `prices`, on columns
unfoldable pub sale_exceeds : ℕ → Option ℕ → Bool
sale_exceeds base none = false
sale_exceeds base (some sale) = ltb base sale

unfoldable pub compare_below : ℕ → Option ℕ → Bool
compare_below base none = false
compare_below base (some compare_at) = ltb compare_at base

-- `prices`
unfoldable pub prices :
    (Text → Text) → Text → (base sale compare_at cost : Dynamic Decimal) → Checked Unit
unfolding price_field
prices upper currency base sale compare_at cost =
    price_field upper currency "base_price" true base then_check λ _.
    price_field upper currency "sale_price" false sale then_check λ _.
    price_field upper currency "compare_at_price" false compare_at then_check λ _.
    price_field upper currency "cost_price" false cost then_check λ _.
    fail_if (sale_exceeds (get_or_else (amount_of base) 0) (amount_of sale)) "sale_price"
      "Sale price cannot exceed base price."
    then_check λ _.
        fail_if (compare_below (get_or_else (amount_of base) 0) (amount_of compare_at))
          "compare_at_price" "Compare-at price cannot be below base price."

abbrev lacks_zone : Dynamic Moment → Bool
lacks_zone (Dynamic.typed m) = not m.has_zone
lacks_zone _ = false

-- an end that does not come after the start
unfoldable pub out_of_order : Option ℕ → Option ℕ → Bool
out_of_order (some start) (some end) = leb end start
out_of_order _ _ = false

-- `period`, with the type tests of `validate_changes` before it
unfoldable pub period : Dynamic Moment → Dynamic Moment → Checked Unit
period start end =
    fail_if (is_mistyped start) "effective_from" "Effective timestamp is invalid." then_check λ _.
    fail_if (is_mistyped end) "effective_until" "Effective timestamp is invalid." then_check λ _.
    fail_if (lacks_zone start) "effective_from" "Effective timestamps must include a timezone."
    then_check λ _.
        fail_if (lacks_zone end) "effective_until" "Effective timestamps must include a timezone."
        then_check λ _.
            fail_if (out_of_order (time_of start) (time_of end)) "effective_until"
              "Effective end must be after effective start."
  where
    is_mistyped : Dynamic Moment → Bool
    is_mistyped Dynamic.mistyped = true
    is_mistyped _ = false

-- a time of a column
abbrev pub zoned : Option ℕ → Dynamic Moment
zoned none = Dynamic.null
zoned (some t) = Dynamic.typed (record { instant = t; has_zone = true })

module _ (upper lower : Text → Text) where
  -- `currency`
  unfoldable pub currency : Text → Checked Text
  currency value = normalized (normalize_currency_code upper value)
    where
      normalized : Option Text → Checked Text
      normalized none =
          Checked.invalid
            (validation "currency_code" "currency_code must be an active ISO-4217 code")
      normalized (some code) = Checked.valid code

  -- `tax_class`
  unfoldable pub tax_class : Text → Checked Text
  tax_class value =
      let normalized = lower (strip value) in
      if is_tax_class normalized
      then Checked.valid normalized
      else Checked.invalid (validation "tax_class" "Tax class must use canonical format.")

  -- `validate_create`: the currency code and the tax class that the row gets
  unfoldable pub validate_create : ProductPriceCreate → Checked (Text × Text)
  unfolding currency tax_class
  validate_create values =
      fail_if (not (values.status is PriceStatus.draft)) "status" "Prices must be created as draft."
      then_check λ _. currency values.currency_code then_check λ code.
          tax_class values.tax_class then_check λ class.
          prices upper code (Dynamic.typed values.base_price) (nullable values.sale_price)
            (nullable values.compare_at_price) (nullable values.cost_price)
          then_check λ _.
              period (nullable values.effective_from) (nullable values.effective_until)
              then_check λ _. Checked.valid (code, class)

  -- `tax_class` on a value of the mapping
  unfoldable pub changed_tax_class : Option (Dynamic Text) → Checked (Option (Dynamic Text))
  unfolding tax_class
  changed_tax_class none = Checked.valid none
  changed_tax_class (some (Dynamic.typed value)) =
      tax_class value then_check λ class. Checked.valid (some (Dynamic.typed class))
  changed_tax_class (some _) = Checked.invalid (validation "tax_class" "Tax class is invalid.")

  unfoldable pub bad_status : Option (Dynamic PriceStatus) → Bool
  bad_status (some Dynamic.null) = true
  bad_status (some Dynamic.mistyped) = true
  bad_status _ = false

  -- `validate_changes`
  unfoldable pub validate_changes : PriceChanges → ProductPrice → Checked PriceChanges
  unfolding is_empty_body changed_tax_class bad_status merged
  validate_changes values current =
      fail_if (is_empty_body values || values.has_unsupported) "body"
        "At least one supported field is required."
      then_check λ _. changed_tax_class values.tax_class then_check λ class.
          fail_if (bad_status values.status) "status" "Price status is invalid." then_check λ _.
          prices upper current.currency_code
            (merged values.base_price (Dynamic.typed (stored current.base_price)))
            (merged values.sale_price (nullable (stored_option current.sale_price)))
            (merged values.compare_at_price (nullable (stored_option current.compare_at_price)))
            (merged values.cost_price (nullable (stored_option current.cost_price)))
          then_check λ _.
              period (merged values.effective_from (zoned current.effective_from))
                (merged values.effective_until (zoned current.effective_until))
              then_check λ _. Checked.valid (record values { tax_class = class })

-- ===== src/Promotions/Discount.antt =====
-- `calculate_discount` of promotions/domain/policies.py. A discount is an exact fraction of the unit
-- until it is rounded; the sums of `Decimal` that the tables' columns allow are exact.
use apparel_network.Prelude.{
  ℕ, ◌+◌, ◌-◌, ◌*◌, ◌/◌, ◌^◌, Option, none, some, List, [], ◌∷◌, leb, ltb, get_or_else,
  if◌then◌else◌,
}
use apparel_network.Prelude.Int.{pos, leb_ℤ}
use apparel_network.Promotions.Model.{Promotion, PromotionType, Tier}

-- `numerator / denominator` ten-thousandths
pub record Fraction : Type 0 where
  pub numerator : ℕ
  pub denominator : ℕ

abbrev pub whole : ℕ → Fraction
whole amount = record { numerator = amount; denominator = 1 }

-- `min` with an amount
unfoldable pub at_most : ℕ → Fraction → Fraction
at_most amount x = if leb x.numerator (amount * x.denominator) then x else whole amount

-- `.quantize(Decimal("0.0001"), rounding=ROUND_HALF_UP)`
unfoldable pub round_half_up : Fraction → ℕ
round_half_up x = (2 * x.numerator + x.denominator) / (2 * x.denominator)

-- the loop over the tiers: the last one that the quantity reaches
unfoldable pub tier_percentage : ℕ → List Tier → Tier → Tier
tier_percentage eligible_quantity [] best = best
tier_percentage eligible_quantity (tier ∷ tiers) best = tier_percentage eligible_quantity tiers (
    if leb_ℤ (get_or_else tier.minimum_quantity (pos 0)) (pos eligible_quantity)
    then tier
    else best)

abbrev pub no_tier : Tier
no_tier = record { minimum_quantity = none; percentage = 0; scale = 0 }

-- The discount before it is capped; `max(0, regular - price)` is the subtraction that stops at 0.
unfoldable pub raw_discount :
    Promotion
    → (eligible_subtotal eligible_quantity lowest_unit_price : ℕ) → PromotionType
    → Fraction
unfolding tier_percentage
raw_discount p eligible_subtotal quantity lowest PromotionType.percentage = record {
  numerator = eligible_subtotal * get_or_else p.percentage 0;
  denominator = 1_000_000;
}
raw_discount p eligible_subtotal quantity lowest PromotionType.fixed_amount =
    whole (get_or_else p.fixed_amount 0)
raw_discount p eligible_subtotal quantity lowest PromotionType.buy_x_get_y =
    let get = get_or_else p.get_quantity 0 in
    let group = get_or_else p.buy_quantity 0 + get in
    if ltb 0 group then whole (lowest * get * (quantity / group)) else whole 0
raw_discount p eligible_subtotal quantity lowest PromotionType.bundle =
    let size = get_or_else p.bundle_quantity 0 in
    let regular = lowest * size in
    if ltb 0 size
    then whole ((regular - price_or p.bundle_price regular) * (quantity / size))
    else whole 0
  where
    -- `bundle_price or regular`: a price of zero counts as none
    price_or : Option ℕ → ℕ → ℕ
    price_or none regular = regular
    price_or (some price) regular = if ltb 0 price then price else regular
raw_discount p eligible_subtotal quantity lowest PromotionType.tier_discount =
    let tier = tier_percentage quantity p.tiers no_tier in
    record { numerator = eligible_subtotal * tier.percentage; denominator = 100 * 10 ^ tier.scale }
raw_discount p eligible_subtotal quantity lowest PromotionType.free_shipping = whole 0

-- `maximum_discount`, where there is one
unfoldable pub at_most_maximum : Option ℕ → Fraction → Fraction
unfolding at_most
at_most_maximum none x = x
at_most_maximum (some maximum) x = at_most maximum x

-- `calculate_discount`
unfoldable pub calculate_discount :
    Promotion → (subtotal eligible_subtotal eligible_quantity lowest_unit_price : ℕ) → ℕ
unfolding at_most round_half_up raw_discount at_most_maximum
calculate_discount p subtotal eligible_subtotal eligible_quantity lowest_unit_price =
    round_half_up (
      at_most subtotal (
        at_most_maximum p.maximum_discount
          (raw_discount p eligible_subtotal eligible_quantity lowest_unit_price p.promotion_type)))

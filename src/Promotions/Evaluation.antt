-- ===== src/Promotions/Evaluation.antt =====
-- `_evaluate` of promotions/application/services.py, on what it has read: the cart's summary, the
-- active promotions of the store with their rules, the coupons of the request, and the counts of the
-- redemptions. The printing of identifiers and `casefold` are Python's.
use apparel_network.Prelude.{
  ℕ, ◌-◌, ◌*◌, String, Bool, false, not, Option, none, some, List, [], ◌∷◌, ◌++◌, ◌&&◌, ◌||◌, ◌==◌,
  is_some, is_none, leb, ltb, any, map, select, sum_of, if◌then◌else◌,
}
use apparel_network.Prelude.Text.{Text, eq_string, eq_text}
use apparel_network.Promotions.Model.{
  Promotion, PromotionType, PromotionRule, PromotionCoupon, RuleCondition, ShoppingCartItem,
  DiscountLine, RejectedPromotion, Candidate,
}
use apparel_network.Promotions.Discount.{calculate_discount}
use apparel_network.Promotions.Stacking.{code_of, reject, resolve_stacking}

-- An entry of `item_contexts`, and `{}` for a product that has none, as the rules print them.
pub record ItemContext : Type 0 where
  pub catalog_id : Text
  pub brand : Text
  pub category_ids : List ℕ

-- What `_evaluate` has read.
pub record Readings : Type 0 where
  pub cart_id : ℕ
  pub currency : String
  pub customer_group : String
  pub customer_id : ℕ
  pub items : List ShoppingCartItem
  pub now : ℕ
  pub promotions : List Promotion
  pub rules : (promotion_id : ℕ) → List PromotionRule
  pub codes : List Text
  pub coupons : List PromotionCoupon
  pub contexts : (product_id : ℕ) → ItemContext
  pub prior_orders : ℕ
  pub promotion_usage : (promotion_id : ℕ) → ℕ
  pub customer_promotion_usage : (promotion_id customer_id : ℕ) → ℕ
  pub customer_usage : (promotion_id customer_id coupon_id : ℕ) → ℕ
  pub coupon_usage : (coupon_id : ℕ) → ℕ
  pub str : ℕ → Text
  pub casefold : Text → Text

-- `PromotionEvaluation`
pub record PromotionEvaluation : Type 0 where
  pub cart_id : ℕ
  pub applied_promotions : List DiscountLine
  pub rejected_promotions : List RejectedPromotion
  pub subtotal : ℕ
  pub discount_total : ℕ
  pub final_total : ℕ
  pub currency : String
  pub evaluated_at : ℕ

unfoldable pub subtotal_of : List ShoppingCartItem → ℕ
subtotal_of items = sum_of (λ item. item.unit_price * item.quantity) items

unfoldable pub quantity_of : List ShoppingCartItem → ℕ
quantity_of items = sum_of (λ item. item.quantity) items

-- `limit is not None and usage >= limit`
unfoldable pub reached : Option ℕ → ℕ → Bool
reached none usage = false
reached (some limit) usage = leb limit usage

-- `start is not None and start > now`
unfoldable pub starts_after : Option ℕ → ℕ → Bool
starts_after none now = false
starts_after (some start) now = ltb now start

-- `minimum and value < minimum`
unfoldable pub below : Option ℕ → ℕ → Bool
below none value = false
below (some minimum) value = ltb value minimum

-- `expected is not None and expected != value`
unfoldable pub differs : Option String → String → Bool
differs none value = false
differs (some expected) value = not (eq_string expected value)

-- `group and group != value`: an empty text counts as none
unfoldable pub excludes : Option String → String → Bool
excludes none value = false
excludes (some expected) value = not (eq_string expected "") && not (eq_string expected value)

-- the first reason that holds
unfoldable pub first_reason : List (Bool × String) → Option String
first_reason [] = none
first_reason ((holds, reason) ∷ reasons) =
    let later = first_reason reasons in if holds then some reason else later

-- the end of `_reject_reason`, on the coupon
unfoldable pub coupon_reasons : Readings → Promotion → Option PromotionCoupon → List (Bool × String)
unfolding reached starts_after
coupon_reasons r p none = []
coupon_reasons r p (some coupon) =
    (not coupon.active, "Coupon is inactive.")
    ∷ (starts_after coupon.effective_from r.now, "Coupon is not active yet.")
    ∷ (reached coupon.effective_until r.now, "Coupon has expired.")
    ∷ (
      reached coupon.per_customer_usage_limit (r.customer_usage p.id r.customer_id coupon.id),
      "Coupon per-customer usage limit was reached.",
    )
    ∷ (reached coupon.usage_limit (r.coupon_usage coupon.id), "Coupon usage limit was reached.")
    ∷ []

-- the tests of `_reject_reason` in their order, with the reasons that they return
unfoldable pub reasons : Readings → Promotion → Option PromotionCoupon → List (Bool × String)
unfolding coupon_reasons reached below differs excludes
reasons r p coupon =
    (not p.public && is_none coupon, "A coupon code is required.")
    ∷ (differs p.currency r.currency, "Promotion currency does not match the Cart.")
    ∷ (excludes p.customer_group r.customer_group, "Customer group is not eligible.")
    ∷ (p.first_purchase_only && ltb 0 r.prior_orders, "Promotion is limited to the first purchase.")
    ∷ (below p.minimum_order_amount (subtotal_of r.items), "Minimum order amount was not met.")
    ∷ (below p.minimum_quantity (quantity_of r.items), "Minimum quantity was not met.")
    ∷ (reached p.usage_limit (r.promotion_usage p.id), "Promotion usage limit was reached.")
    ∷ (
      reached p.per_customer_usage_limit (r.customer_promotion_usage p.id r.customer_id),
      "Per-customer usage limit was reached.",
    )
    ∷ coupon_reasons r p coupon

-- `_reject_reason`
unfoldable pub reject_reason : Readings → Promotion → Option PromotionCoupon → Option String
unfolding first_reason reasons
reject_reason r p coupon = first_reason (reasons r p coupon)

-- one rule of `_eligible_items`
unfoldable pub matches : Readings → ShoppingCartItem → PromotionRule → RuleCondition → Bool
matches r item rule RuleCondition.product = eq_text (r.str item.product_id) rule.target
matches r item rule RuleCondition.variant = eq_text (r.str item.variant_id) rule.target
matches r item rule RuleCondition.catalog =
    eq_text (r.contexts item.product_id).catalog_id rule.target
matches r item rule RuleCondition.brand =
    eq_text (r.casefold (r.contexts item.product_id).brand) (r.casefold rule.target)
matches r item rule RuleCondition.category =
    any (λ id. eq_text (r.str id) rule.target) (r.contexts item.product_id).category_ids

-- `_eligible_items`: the items that every rule matches
unfoldable pub eligible_items : Readings → List PromotionRule → List ShoppingCartItem
unfolding matches
eligible_items r rules =
    select (λ item. not (any (λ rule. not (matches r item rule rule.condition)) rules)) r.items

-- `coupon_by_promotion.get(promotion.id)`: the last coupon of the promotion
unfoldable pub coupon_of : ℕ → List PromotionCoupon → Option PromotionCoupon
coupon_of promotion_id [] = none
coupon_of promotion_id (coupon ∷ coupons) = later (coupon_of promotion_id coupons)
  where
    later : Option PromotionCoupon → Option PromotionCoupon
    later (some c) = some c
    later none = if coupon.promotion_id == promotion_id then some coupon else none

-- `min(item.unit_price for item in eligible)`
unfoldable pub lowest_price : ShoppingCartItem → List ShoppingCartItem → ℕ
lowest_price item [] = item.unit_price
lowest_price item (other ∷ items) =
    let rest = lowest_price other items in
    if leb item.unit_price rest then item.unit_price else rest

pub data Outcome : Type 0 where
  skipped : Outcome
  refused : RejectedPromotion → Outcome
  proposed : Candidate → Outcome

-- `discount <= 0 and promotion_type is not FREE_SHIPPING`
unfoldable pub is_idle : PromotionType → ℕ → Bool
is_idle PromotionType.free_shipping discount = false
is_idle _ discount = leb discount 0

-- the discount of a promotion on the items that its rules match
unfoldable pub discount_on : Readings → Promotion → ShoppingCartItem → List ShoppingCartItem → ℕ
discount_on r p item items =
    calculate_discount p (subtotal_of r.items) (subtotal_of (item ∷ items))
      (quantity_of (item ∷ items)) (lowest_price item items)

-- the second half of the loop's body, on the items that the rules match
unfoldable pub propose :
    Readings → Promotion → Option PromotionCoupon → List ShoppingCartItem → Outcome
unfolding reject code_of below discount_on is_idle
propose r p coupon [] = Outcome.refused (record {
  promotion_id = some p.id;
  coupon_code = code_of coupon;
  reason = "Promotion rules did not match any Cart Item.";
})
propose r p coupon (item ∷ items) =
    let discount = discount_on r p item items in
    let candidate : Candidate = record { promotion = p; coupon = coupon; discount = discount } in
    if below p.minimum_quantity (quantity_of (item ∷ items))
    then Outcome.refused (reject "Minimum quantity was not met." candidate)
    else if is_idle p.promotion_type discount
    then Outcome.refused (reject "Promotion produced no discount." candidate)
    else Outcome.proposed candidate

-- the body of the loop over the promotions
unfoldable pub consider : Readings → Promotion → Outcome
unfolding reject_reason propose eligible_items coupon_of
consider r p = judge (reject_reason r p coupon)
  where
    coupon : Option PromotionCoupon
    coupon = coupon_of p.id r.coupons

    judge : Option String → Outcome
    judge (some reason) =
        if is_some coupon || p.public
        then Outcome.refused
            (record { promotion_id = some p.id; coupon_code = code_of coupon; reason = reason })
        else Outcome.skipped
    judge none = propose r p coupon (eligible_items r (r.rules p.id))

abbrev pub collect :
    Outcome → List Candidate × List RejectedPromotion → List Candidate × List RejectedPromotion
collect Outcome.skipped rest = rest
collect (Outcome.refused x) rest = (rest.0, x ∷ rest.1)
collect (Outcome.proposed c) rest = (c ∷ rest.0, rest.1)

unfoldable pub consider_each : Readings → List Promotion → List Candidate × List RejectedPromotion
unfolding consider
consider_each r [] = ([], [])
consider_each r (p ∷ ps) = collect (consider r p) (consider_each r ps)

-- `coupon.id if coupon else None`
unfoldable pub id_of : Option PromotionCoupon → Option ℕ
id_of none = none
id_of (some coupon) = some coupon.id

-- the loop over the selected candidates: the lines, and what remains of the subtotal
unfoldable pub charge : ℕ → List Candidate → List DiscountLine × ℕ
unfolding id_of code_of
charge remaining [] = ([], remaining)
charge remaining (c ∷ cs) =
    let discount = if leb c.discount remaining then c.discount else remaining in
    let rest = charge (remaining - discount) cs in
    (
      record {
        promotion_id = c.promotion.id;
        coupon_id = id_of c.coupon;
        coupon_code = code_of c.coupon;
        promotion_type = c.promotion.promotion_type;
        discount_amount = discount;
        priority = c.promotion.priority;
      }
          ∷ rest.0,
      rest.1,
    )

-- the codes that name no coupon
unfoldable pub unknown_codes : List Text → List PromotionCoupon → List RejectedPromotion
unknown_codes codes coupons =
    map
      (λ code. record {
        promotion_id = none;
        coupon_code = some code;
        reason = "Coupon code is invalid or unavailable.";
      })
      (select (λ code. not (any (λ c. eq_text c.code code) coupons)) codes)

-- `_evaluate`
unfoldable pub evaluate : Readings → PromotionEvaluation
unfolding consider_each charge unknown_codes
evaluate r =
    let subtotal = subtotal_of r.items in
    let considered = consider_each r r.promotions in
    let resolved = resolve_stacking considered.0 in
    let charged = charge subtotal resolved.0 in
    let discount_total = subtotal - charged.1 in
    record {
      cart_id = r.cart_id;
      applied_promotions = charged.0;
      rejected_promotions = unknown_codes r.codes r.coupons ++ considered.1 ++ resolved.1;
      subtotal = subtotal;
      discount_total = discount_total;
      final_total = subtotal - discount_total;
      currency = r.currency;
      evaluated_at = r.now;
    }

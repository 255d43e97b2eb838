-- ===== src/Tests/Discounts.antt =====
-- A cart of 250,0000 with a percentage, a fixed amount and an exclusive promotion.
use apparel_network.Prelude.{
  ℕ, ◌*◌, ◌+◌, ◌≤◌, ◌<◌, ◌≡◌, refl, Bool, true, false, Option, none, some, [], ◌∷◌, map, All,
  sum_of, arith,
}
use apparel_network.Prelude.Text.{codes}
use apparel_network.Prelude.Sorting.{Reordered}
use apparel_network.Promotions.Model.{Promotion, PromotionType, ShoppingCartItem, Candidate}
use apparel_network.Promotions.Discount.{calculate_discount}
use apparel_network.Promotions.Stacking.{resolve_stacking}
use apparel_network.Promotions.Evaluation.{Readings, evaluate, subtotal_of}
use apparel_network.Promotions.Bounds.{calculate_discount-le, calculate_discount-nearest}
use apparel_network.Promotions.Eligibility.{IsEligible}
use apparel_network.Promotions.Totals.{LineOf, evaluate-totals, evaluate-IsEligible}
use apparel_network.Promotions.Resolution.{IsResolved, resolve_stacking-IsResolved}
use apparel_network.Promotions.Combination.{resolve_stacking-Reordered}

abbrev promotion_of : ℕ → PromotionType → Option ℕ → Option ℕ → Bool → ℕ → Promotion
promotion_of id kind percentage maximum exclusive priority = record {
  id = id;
  store_id = 5;
  promotion_type = kind;
  currency = none;
  percentage = percentage;
  fixed_amount = some 150_000;
  buy_quantity = none;
  get_quantity = none;
  bundle_quantity = none;
  bundle_price = none;
  tiers = [];
  public = true;
  first_purchase_only = false;
  customer_group = none;
  minimum_order_amount = none;
  minimum_quantity = some 1;
  maximum_discount = maximum;
  usage_limit = none;
  per_customer_usage_limit = none;
  exclusive = exclusive;
  stackable = true;
  priority = priority;
  maximum_stack = some 2;
}

-- 12.5 percent
abbrev eighth : Promotion
eighth = promotion_of 81 PromotionType.percentage (some 125_000) none false 3

abbrev fixed : Promotion
fixed = promotion_of 82 PromotionType.fixed_amount none (some 100_000) false 7

abbrev item : ShoppingCartItem
item = record { product_id = 3; variant_id = 4; quantity = 2; unit_price = 1_250_003 }

abbrev readings : Readings
readings = record {
  cart_id = 33;
  currency = "EUR";
  customer_group = "retail";
  customer_id = 8;
  items = item ∷ [];
  now = 1000;
  promotions = fixed ∷ eighth ∷ [];
  rules = λ id. [];
  codes = codes "WELCOME10" ∷ [];
  coupons = [];
  contexts = λ id. record { catalog_id = []; brand = []; category_ids = [] };
  prior_orders = 0;
  promotion_usage = λ id. 0;
  customer_promotion_usage = λ id customer. 0;
  customer_usage = λ id customer coupon. 0;
  coupon_usage = λ id. 0;
  str = λ id. id ∷ [];
  casefold = λ text. text;
}

-- the candidate with an identifier
abbrev candidate : ℕ → Candidate
candidate id = record {
  promotion = promotion_of id PromotionType.fixed_amount none none false id;
  coupon = none;
  discount = 100_000;
}

calculate_discount-le_example :
    (calculate_discount fixed 2_500_006 2_500_006 2 1_250_003 ≤ 2_500_006)
    × ((maximum : ℕ)
        → fixed.maximum_discount ≡ some maximum
        → calculate_discount fixed 2_500_006 2_500_006 2 1_250_003 ≤ maximum)
calculate_discount-le_example = calculate_discount-le fixed 2_500_006 2_500_006 2 1_250_003

calculate_discount-nearest_example :
    let discount = calculate_discount eighth 2_500_006 2_500_006 2 1_250_003 in
    (2 * 1_000_000 * discount ≤ 2 * (2_500_006 * 125_000) + 1_000_000)
    × (2 * (2_500_006 * 125_000) < 2 * 1_000_000 * discount + 1_000_000)
    × (discount ≤ 2_500_006)
calculate_discount-nearest_example =
    calculate_discount-nearest eighth 125_000 2_500_006 2_500_006 2 1_250_003 refl refl refl
      (omega arith) (omega arith)

evaluate-totals_example :
    let e = evaluate readings in
    (sum_of (λ line. line.discount_amount) e.applied_promotions ≡ e.discount_total)
    × (e.final_total + e.discount_total ≡ subtotal_of readings.items)
evaluate-totals_example = evaluate-totals readings

evaluate-IsEligible_example :
    All (LineOf (IsEligible readings)) (evaluate readings).applied_promotions
evaluate-IsEligible_example = evaluate-IsEligible readings

resolve_stacking-IsResolved_example :
    IsResolved
      (candidate 1 ∷ candidate 2 ∷ candidate 3 ∷ [])
      (resolve_stacking (candidate 1 ∷ candidate 2 ∷ candidate 3 ∷ []))
resolve_stacking-IsResolved_example =
    resolve_stacking-IsResolved (candidate 1 ∷ candidate 2 ∷ candidate 3 ∷ [])

resolve_stacking-Reordered_example :
    resolve_stacking (map candidate (1 ∷ 2 ∷ [])) ≡ resolve_stacking (map candidate (2 ∷ 1 ∷ []))
resolve_stacking-Reordered_example =
    resolve_stacking-Reordered candidate (λ id. refl) (1 ∷ 2 ∷ []) (2 ∷ 1 ∷ [])
      (Reordered.exchange 1 2 [])

-- The discounts that the evaluation gives: the percentage is rounded up at the half.
test_discount : calculate_discount eighth 2_500_006 2_500_006 2 1_250_003 ≡ 312_501
unfolding calculate_discount
test_discount = refl

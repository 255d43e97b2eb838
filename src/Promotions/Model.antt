-- ===== src/Promotions/Model.antt =====
-- modules/promotions/domain/models.py. Amounts are in ten-thousandths of the currency, the scale of
-- `Numeric(19, 4)`; the CHECK constraints of `promotions` and the validation of the service keep them
-- from being negative, so they are natural numbers.
use apparel_network.Prelude.{ℕ, String, Bool, Option, List}
use apparel_network.Prelude.Int.{ℤ}
use apparel_network.Prelude.Text.{Text}

pub data PromotionType : Type 0 where
  percentage fixed_amount buy_x_get_y bundle tier_discount free_shipping : PromotionType

pub data RuleCondition : Type 0 where
  category brand catalog product variant : RuleCondition

-- An entry of the JSON column `tiers`: `minimum_quantity`, where it is an integer, and what
-- `Decimal(str(...))` reads in `percentage`, a number of `1 / 10 ^ scale`. The service does not validate
-- it; texts that are no number, and negative percentages, are outside of the model.
pub record Tier : Type 0 where
  pub minimum_quantity : Option ℤ
  pub percentage : ℕ
  pub scale : ℕ

-- The columns that the evaluation reads; `percentage` is in ten-thousandths of a percent.
pub record Promotion : Type 0 where
  pub id : ℕ
  pub store_id : ℕ
  pub promotion_type : PromotionType
  pub currency : Option String
  pub percentage : Option ℕ
  pub fixed_amount : Option ℕ
  pub buy_quantity : Option ℕ
  pub get_quantity : Option ℕ
  pub bundle_quantity : Option ℕ
  pub bundle_price : Option ℕ
  pub tiers : List Tier
  pub public : Bool
  pub first_purchase_only : Bool
  pub customer_group : Option String
  pub minimum_order_amount : Option ℕ
  pub minimum_quantity : Option ℕ
  pub maximum_discount : Option ℕ
  pub usage_limit : Option ℕ
  pub per_customer_usage_limit : Option ℕ
  pub exclusive : Bool
  pub stackable : Bool
  pub priority : ℕ
  pub maximum_stack : Option ℕ

-- `target` is `str(configuration.get("id") or configuration.get("value"))`.
pub record PromotionRule : Type 0 where
  pub condition : RuleCondition
  pub target : Text

pub record PromotionCoupon : Type 0 where
  pub id : ℕ
  pub promotion_id : ℕ
  pub store_id : ℕ
  pub code : Text
  pub active : Bool
  pub effective_from : Option ℕ
  pub effective_until : Option ℕ
  pub usage_limit : Option ℕ
  pub per_customer_usage_limit : Option ℕ

-- What a cart item is to the evaluation.
pub record ShoppingCartItem : Type 0 where
  pub product_id : ℕ
  pub variant_id : ℕ
  pub quantity : ℕ
  pub unit_price : ℕ

pub record DiscountLine : Type 0 where
  pub promotion_id : ℕ
  pub coupon_id : Option ℕ
  pub coupon_code : Option Text
  pub promotion_type : PromotionType
  pub discount_amount : ℕ
  pub priority : ℕ

pub record RejectedPromotion : Type 0 where
  pub promotion_id : Option ℕ
  pub coupon_code : Option Text
  pub reason : String

-- `_Candidate`
pub record Candidate : Type 0 where
  pub promotion : Promotion
  pub coupon : Option PromotionCoupon
  pub discount : ℕ

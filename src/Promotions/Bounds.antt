-- ===== src/Promotions/Bounds.antt =====
-- How large the discount of one promotion can be, and how it is rounded.
use apparel_network.Prelude.{
  ℕ, ◌+◌, ◌*◌, ◌^◌, ◌≤◌, ◌<◌, ◌≡◌, Option, none, some, true, leb, Bool-cases, inl, inr, arith,
  leb→le, leb→lt, le→leb, subst,
}
use native.Mathlib.Nat.{mul-le-mul_left, mul-le-mul_right, one-le-pow}
use mathlib.Core.Option.{some-injective}
use apparel_network.Promotions.Model.{Promotion, PromotionType}
use apparel_network.Promotions.Discount.{
  Fraction, at_most, at_most_maximum, round_half_up, raw_discount, calculate_discount,
}

-- Rounding half up is the nearest number, and a tie goes up.
round_half_up-nearest :
    (x : Fraction)
    → 0 < x.denominator
    → (2 * x.denominator * round_half_up x ≤ 2 * x.numerator + x.denominator)
      × (2 * x.numerator < 2 * x.denominator * round_half_up x + x.denominator)
unfolding round_half_up
round_half_up-nearest x h = grind arith

round_half_up-le :
    (x : Fraction) (bound : ℕ)
    → 0 < x.denominator
    → x.numerator ≤ bound * x.denominator
    → round_half_up x ≤ bound
unfolding round_half_up
round_half_up-le x bound positive h = grind arith

at_most-positive :
    (amount : ℕ) (x : Fraction) → 0 < x.denominator → 0 < (at_most amount x).denominator
unfolding at_most
at_most-positive amount x h = ground arith

at_most-le :
    (amount : ℕ) (x : Fraction)
    → (at_most amount x).numerator ≤ amount * (at_most amount x).denominator
unfolding at_most
at_most-le amount x = elim (Bool-cases (leb x.numerator (amount * x.denominator))) [
  | inl t ↦ rw t (leb→le _ _ t)
  | inr t ↦ rw t (omega arith)
]

cancel : (a b d n : ℕ) → a * d < n → n ≤ b * d → a ≤ b * 1
cancel a b d n h k = grind arith

-- A bound that holds of an amount still holds of the lesser one.
at_most-keeps :
    (amount bound : ℕ) (x : Fraction)
    → x.numerator ≤ bound * x.denominator
    → (at_most amount x).numerator ≤ bound * (at_most amount x).denominator
unfolding at_most
at_most-keeps amount bound x h = elim (Bool-cases (leb x.numerator (amount * x.denominator))) [
  | inl t ↦ rw t h
  | inr t ↦ rw t (cancel amount bound x.denominator x.numerator (leb→lt _ _ t) h)
]

power_positive : (n : ℕ) → 0 < 100 * 10 ^ n
power_positive n = let p : 1 ≤ 10 ^ n = one-le-pow n 10 (omega arith) in omega arith

raw_discount-positive :
    (p : Promotion) (eligible quantity lowest : ℕ) (kind : PromotionType)
    → 0 < (raw_discount p eligible quantity lowest kind).denominator
unfolding raw_discount
raw_discount-positive p eligible quantity lowest PromotionType.percentage = omega arith
raw_discount-positive p eligible quantity lowest PromotionType.fixed_amount = omega arith
raw_discount-positive p eligible quantity lowest PromotionType.buy_x_get_y = ground arith
raw_discount-positive p eligible quantity lowest PromotionType.bundle = ground arith
raw_discount-positive p eligible quantity lowest PromotionType.tier_discount = power_positive _
raw_discount-positive p eligible quantity lowest PromotionType.free_shipping = omega arith

capped-positive :
    (maximum : Option ℕ) (x : Fraction)
    → 0 < x.denominator
    → 0 < (at_most_maximum maximum x).denominator
unfolding at_most_maximum
capped-positive none x h = h
capped-positive (some maximum) x h = at_most-positive maximum x h

capped-le :
    (maximum : Option ℕ) (bound : ℕ) (x : Fraction)
    → maximum ≡ some bound
    → (at_most_maximum maximum x).numerator ≤ bound * (at_most_maximum maximum x).denominator
unfolding at_most_maximum
capped-le none bound x e = cc
capped-le (some maximum) bound x e =
    subst (λ b. (at_most maximum x).numerator ≤ b * (at_most maximum x).denominator)
      (some-injective maximum bound e) (at_most-le maximum x)

-- A discount is never more than the subtotal of the cart, and never more than the maximum that the
-- promotion sets, where it sets one, whatever its type and its parameters.
pub calculate_discount-le :
    (p : Promotion) (subtotal eligible quantity lowest : ℕ)
    → (calculate_discount p subtotal eligible quantity lowest ≤ subtotal)
      × ((maximum : ℕ)
          → p.maximum_discount ≡ some maximum
          → calculate_discount p subtotal eligible quantity lowest ≤ maximum)
unfolding calculate_discount
calculate_discount-le p subtotal eligible quantity lowest =
    let raw = raw_discount p eligible quantity lowest p.promotion_type in
    let capped = at_most_maximum p.maximum_discount raw in
    let positive : 0 < capped.denominator =
      capped-positive p.maximum_discount raw
        (raw_discount-positive p eligible quantity lowest p.promotion_type) in
    (
      round_half_up-le (at_most subtotal capped) subtotal
          (at_most-positive subtotal capped positive) (at_most-le subtotal capped),
      λ maximum e.
          round_half_up-le (at_most subtotal capped) maximum
            (at_most-positive subtotal capped positive)
            (at_most-keeps subtotal maximum capped (capped-le p.maximum_discount maximum raw e)),
    )

-- What a percentage takes off, without a maximum: the ten-thousandth that is nearest to the exact
-- product of the eligible amount and the rate (in ten-thousandths of a percent), a tie going up, and
-- no more than the eligible amount, when the rate is at most 100 percent and the eligible amount is
-- at most the subtotal.
pub calculate_discount-nearest :
    (p : Promotion) (rate subtotal eligible quantity lowest : ℕ)
    → p.promotion_type ≡ PromotionType.percentage
    → p.percentage ≡ some rate
    → p.maximum_discount ≡ none
    → rate ≤ 1_000_000
    → eligible ≤ subtotal
    → let discount = calculate_discount p subtotal eligible quantity lowest in
      (2 * 1_000_000 * discount ≤ 2 * (eligible * rate) + 1_000_000)
      × (2 * (eligible * rate) < 2 * 1_000_000 * discount + 1_000_000)
      × (discount ≤ eligible)
unfolding calculate_discount at_most_maximum raw_discount at_most
calculate_discount-nearest p rate subtotal eligible quantity lowest kind at uncapped most within =
    rw (kind, at, uncapped, within_subtotal)
      (let near = round_half_up-nearest exact (omega arith) in
        (near.0, near.1, round_half_up-le exact eligible (omega arith) (scaled eligible rate most)))
  where
    exact : Fraction
    exact = record { numerator = eligible * rate; denominator = 1_000_000 }

    scaled : (e r : ℕ) → r ≤ 1_000_000 → e * r ≤ e * 1_000_000
    scaled e r h = mul-le-mul_left e h

    within_subtotal : leb (eligible * rate) (subtotal * 1_000_000) ≡ true
    within_subtotal =
        let bound = scaled eligible rate most in
        let scaled_subtotal : eligible * 1_000_000 ≤ subtotal * 1_000_000 =
          mul-le-mul_right 1_000_000 within in
        le→leb (eligible * rate) (subtotal * 1_000_000) (omega arith)

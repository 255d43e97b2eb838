-- ===== src/Pricing/Amounts.antt =====
-- Which decimals are amounts of money.
use apparel_network.Prelude.{
  ℕ, zero, suc, refl, ◌≡◌, ◌≤◌, arith, sym, ltb→le, ◌∙◌, ◌↔◌, ◌*◌, ◌^◌, String, Bool, true, false,
  none, some, ltb, if◌then◌else◌,
}
use apparel_network.Prelude.Int.{pos, negsuc}
use apparel_network.Pricing.Money.{Decimal, amount_error, ten_thousandths, max_amount}

-- An amount of money: finite and not negative, with at most four decimal places, and in the range of
-- the column, which holds it exactly.
pub record IsMoney (amount : Decimal) : Type 0 where
  pub units : ℕ
  pub places : ℕ
  pub written : amount ≡ Decimal.finite (pos units) places
  pub few_places : places ≤ 4
  pub exact : ten_thousandths amount * 10 ^ places ≡ units * 10_000
  pub in_range : ten_thousandths amount ≤ max_amount

-- The column holds a number with at most four places exactly, and the test on its size is the one on
-- the column.
few_exact :
    (units places : ℕ)
    → places ≤ 4
    → (ten_thousandths (Decimal.finite (pos units) places) * 10 ^ places ≡ units * 10_000)
      × (ltb (max_amount * 10 ^ places) (units * 10_000)
          ≡ ltb max_amount (ten_thousandths (Decimal.finite (pos units) places)))
unfolding ten_thousandths
few_exact units zero h = (omega arith, ground arith)
few_exact units (suc zero) h = (omega arith, ground arith)
few_exact units (suc (suc zero)) h = (omega arith, ground arith)
few_exact units (suc (suc (suc zero))) h = (omega arith, ground arith)
few_exact units (suc (suc (suc (suc zero)))) h = (omega arith, ground arith)
few_exact units (suc (suc (suc (suc (suc places))))) h = absurd (omega arith)

-- The tests of `Money` on a decimal raise nothing just when it is an amount of money: infinity, the
-- values that are not numbers, negative ones, those with more than four places and those beyond the
-- range of the column are refused, and the column holds the others without rounding.
pub amount_error_iff : (amount : Decimal) → (amount_error amount ≡ none) ↔ IsMoney amount
unfolding amount_error
amount_error_iff Decimal.special =
    (λ h. cc, λ m. absurd (special_written m.units m.places m.written))
  where
    special_written : (n p : ℕ) → Decimal.special ≡ Decimal.finite (pos n) p → ⊥
    special_written n p e = cc
amount_error_iff (Decimal.finite (negsuc n) places) =
    (λ h. cc, λ m. absurd (negative m.units m.places m.written))
  where
    negative : (u p : ℕ) → Decimal.finite (negsuc n) places ≡ Decimal.finite (pos u) p → ⊥
    negative u p e = cc
amount_error_iff (Decimal.finite (pos n) places) = (
  λ h.
      let tests = passed (ltb (max_amount * 10 ^ places) (n * 10_000)) (ltb 4 places) _ _ h in
      let few : places ≤ 4 = ltb→le 4 places tests.1 in
      let held = few_exact n places few in
      record {
        units = n;
        places = places;
        written = refl;
        few_places = few;
        exact = held.0;
        in_range = ltb→le max_amount _ (sym held.1 ∙ tests.0);
      },
  λ m. admitted n places m.units m.places m.written m.few_places m.in_range,
)
  where
    passed :
        (b c : Bool) (x y : String)
        → (if b then some x else if c then some y else none) ≡ none
        → (b ≡ false) × (c ≡ false)
    passed true c x y h = cc
    passed false true x y h = cc
    passed false false x y h = (refl, refl)

    not_below : (a b : ℕ) → b ≤ a → ltb a b ≡ false
    not_below a b h = ground arith

    admitted :
        (n places u p : ℕ)
        → Decimal.finite (pos n) places ≡ Decimal.finite (pos u) p
        → p ≤ 4
        → ten_thousandths (Decimal.finite (pos n) places) ≤ max_amount
        → amount_error (Decimal.finite (pos n) places) ≡ none
    admitted n places u p e few range =
        let same : places ≡ p = cc in
        let held = few_exact n places (rw same few) in
        rw (held.1, not_below max_amount _ range, not_below 4 places (rw same few)) refl

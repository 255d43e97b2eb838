-- ===== src/Pricing/Invariant.antt =====
-- What the service keeps true of the table of prices.
use apparel_network.Prelude.{
  ℕ, ◌≡◌, ◌≢◌, ◌≤◌, refl, sym, ap, Bool, false, not, Option, none, some, List, [], ◌∷◌, ◌&&◌, ◌==◌,
  is_none, is_some, get_or_else, All, arith,
}
use apparel_network.Prelude.Text.{Text, eq_text}
use apparel_network.Prelude.Pairs.{Apart}
use apparel_network.Tables.Enums.{PriceStatus, price_status_enum, ◌is◌}
use apparel_network.Tables.Pricing.{ProductPrice}
use apparel_network.Session.Checked.{
  Lets, Lets-bind, Lets-any, Lets-fail_if, Lets-fail_last, Lets-valid,
}
use apparel_network.Inventory.Validation.{Dynamic}
use apparel_network.Stores.Validation.{Moment}
use apparel_network.Pricing.Money.{Decimal, ten_thousandths, stored}
use apparel_network.Pricing.Validation.{
  ProductPriceCreate, PriceChanges, merged, nullable, stored_option, amount_of, time_of, prices,
  period, sale_exceeds, compare_below, out_of_order, validate_create, validate_changes,
}
use apparel_network.Pricing.Repository.{matches, update_row, set_amount}

-- The CHECK constraints of the table that a change could break.
pub record IsPrice (p : ProductPrice) : Type 0 where
  pub sale_admitted : sale_exceeds p.base_price p.sale_price ≡ false
  pub compare_admitted : compare_below p.base_price p.compare_at_price ≡ false
  pub period_ordered : out_of_order p.effective_from p.effective_until ≡ false
  pub version_positive : 1 ≤ p.version
  pub deleted_archived : (is_some p.deleted_at && not (p.status is PriceStatus.archived)) ≡ false

-- two active prices, both kept, of one product or variant, one currency and one period
unfoldable pub rivals : ProductPrice → ProductPrice → Bool
rivals a b =
    (a.product_id == b.product_id)
    && matches a.variant_id b.variant_id
    && eq_text a.currency_code b.currency_code
    && matches a.effective_from b.effective_from
    && matches a.effective_until b.effective_until
    && (a.status is PriceStatus.active)
    && (b.status is PriceStatus.active)
    && is_none a.deleted_at
    && is_none b.deleted_at

abbrev pub Distinct : ProductPrice → ProductPrice → Type 0
Distinct a b = (a.id ≢ b.id) × (rivals a b ≡ false)

pub record HasPrices (rows : List ProductPrice) : Type 0 where
  pub prices_valid : All IsPrice rows
  pub prices_apart : Apart Distinct rows

matches-sym : (a b : Option ℕ) → matches a b ≡ matches b a
unfolding matches
matches-sym none none = refl
matches-sym none (some b) = refl
matches-sym (some a) none = refl
matches-sym (some a) (some b) = same a b
  where
    same : (m n : ℕ) → (m == n) ≡ (n == m)
    same m n = ground arith

eq_text-sym : (a b : Text) → eq_text a b ≡ eq_text b a
unfolding eq_text
eq_text-sym [] [] = refl
eq_text-sym [] (d ∷ t) = refl
eq_text-sym (c ∷ s) [] = refl
eq_text-sym (c ∷ s) (d ∷ t) = each c d (eq_text s t) (eq_text t s) (eq_text-sym s t)
  where
    each : (m n : ℕ) (x y : Bool) → x ≡ y → ((m == n) && x) ≡ ((n == m) && y)
    each m n x y h = ground arith

pub Distinct-sym : (a b : ProductPrice) → Distinct a b → Distinct b a
unfolding rivals
Distinct-sym a b h = (
  λ e. h.0 (sym e),
  reorder a.product_id b.product_id _ _ (a.status is PriceStatus.active)
      (b.status is PriceStatus.active) (is_none a.deleted_at) (is_none b.deleted_at) _ _ _ _ _ _
      (eq_text-sym a.currency_code b.currency_code) (matches-sym a.variant_id b.variant_id)
      (matches-sym a.effective_from b.effective_from)
      (matches-sym a.effective_until b.effective_until) h.1,
)
  where
    reorder :
        (p q : ℕ) (c c' x y d e v v' f f' u u' : Bool)
        → c ≡ c'
        → v ≡ v'
        → f ≡ f'
        → u ≡ u'
        → ((p == q) && v && c && f && u && x && y && d && e) ≡ false
        → ((q == p) && v' && c' && f' && u' && y && x && e && d) ≡ false
    reorder p q c c' x y d e v v' f f' u u' k l m n h = ground arith

-- What `prices` and `period` let through.
pub prices-Lets :
    (upper : Text → Text) (currency : Text) (base sale compare_at cost : Dynamic Decimal)
    → Lets
        (λ _.
          (sale_exceeds (get_or_else (amount_of base) 0) (amount_of sale) ≡ false)
          × (compare_below (get_or_else (amount_of base) 0) (amount_of compare_at) ≡ false))
        (prices upper currency base sale compare_at cost)
unfolding prices
prices-Lets upper currency base sale compare_at cost = Lets-any _ _ _ λ _. Lets-any _ _ _ λ _.
    Lets-any _ _ _ λ _.
      Lets-any _ _ _
        λ _. Lets-fail_if _ _ _ _ _ λ below. Lets-fail_last _ _ _ _ λ above. (below, above)

pub period-Lets :
    (start end : Dynamic Moment)
    → Lets (λ _. out_of_order (time_of start) (time_of end) ≡ false) (period start end)
unfolding period
period-Lets start end = Lets-any _ _ _ λ _.
    Lets-any _ _ _
      λ _. Lets-any _ _ _ λ _. Lets-any _ _ _ λ _. Lets-fail_last _ _ _ _ λ ordered. ordered

-- the values of a creation that was let through
pub record IsCreatable (values : ProductPriceCreate) : Type 0 where
  pub sale :
      sale_exceeds (ten_thousandths values.base_price) (amount_of (nullable values.sale_price))
      ≡ false
  pub compare_at :
      compare_below
        (ten_thousandths values.base_price)
        (amount_of (nullable values.compare_at_price))
      ≡ false
  pub ordered :
      out_of_order
        (time_of (nullable values.effective_from))
        (time_of (nullable values.effective_until))
      ≡ false
  pub draft : not (values.status is PriceStatus.draft) ≡ false

-- the columns of a change that was let through
pub record IsChange (current : ProductPrice) (changes : PriceChanges) : Type 0 where
  pub sale :
      sale_exceeds
        (update_row changes 0 0 current).base_price
        (update_row changes 0 0 current).sale_price
      ≡ false
  pub compare_at :
      compare_below
        (update_row changes 0 0 current).base_price
        (update_row changes 0 0 current).compare_at_price
      ≡ false
  pub ordered :
      out_of_order
        (update_row changes 0 0 current).effective_from
        (update_row changes 0 0 current).effective_until
      ≡ false

stored_amount : (amount : ℕ) → ten_thousandths (stored amount) ≡ amount
unfolding ten_thousandths
stored_amount amount = omega arith

-- A field that is set, or kept, has the amount that was validated.
set_amount-merged :
    (change : Option (Dynamic Decimal)) (column : Option ℕ)
    → amount_of (merged change (nullable (stored_option column))) ≡ set_amount change column
unfolding merged set_amount
set_amount-merged none none = refl
set_amount-merged none (some amount) = ap some (stored_amount amount)
set_amount-merged (some value) none = refl
set_amount-merged (some value) (some amount) = refl

module _ (upper lower : Text → Text) where
  pub validate_create-IsCreatable :
      (values : ProductPriceCreate)
      → Lets (λ _. IsCreatable values) (validate_create upper lower values)
  unfolding validate_create
  validate_create-IsCreatable values = Lets-fail_if _ _ _ _ _ λ draft. Lets-any _ _ _ λ code.
      Lets-any _ _ _ λ class. Lets-bind _ _ _ _ (prices-Lets upper code _ _ _ _) λ _ priced.
        Lets-bind _ _ _ _ (period-Lets _ _) λ _ ordered.
          Lets-valid _ _
            (record { sale = priced.0; compare_at = priced.1; ordered = ordered; draft = draft })

  pub validate_changes-IsChange :
      (values : PriceChanges) (current : ProductPrice)
      → Lets (IsChange current) (validate_changes upper lower values current)
  unfolding validate_changes update_row
  validate_changes-IsChange values current = Lets-fail_if _ _ _ _ _ λ _. Lets-any _ _ _ λ class.
      Lets-fail_if _ _ _ _ _ λ _.
        Lets-bind _ _ _ _
          (prices-Lets upper current.currency_code _ _ _
            (merged values.cost_price (nullable (stored_option current.cost_price))))
          λ _ priced. Lets-bind _ _ _ _ (period-Lets _ _) λ _ ordered. Lets-valid _ _ (record {
            sale =
                rw (sym (base), sym (set_amount-merged values.sale_price current.sale_price))
                  priced.0;
            compare_at =
                rw
                  (
                    sym (base),
                    sym (set_amount-merged values.compare_at_price current.compare_at_price),
                  )
                  priced.1;
            ordered = ordered;
          })
    where
      base :
          amount_of (merged values.base_price (Dynamic.typed (stored current.base_price)))
          ≡ set_amount values.base_price (some current.base_price)
      base = set_amount-merged values.base_price (some current.base_price)

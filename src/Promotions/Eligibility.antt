-- ===== src/Promotions/Eligibility.antt =====
-- What a promotion and its coupon have to pass, written out from the request's point of view, and the
-- proof that the checks of `_reject_reason` and the rules of `_eligible_items` amount to it.
use apparel_network.Prelude.{
  ℕ, ◌*◌, ◌≡◌, ◌≤◌, ◌<◌, refl, sym, ap, subst, ◌∙◌, String, Bool, true, false, not, Option, none,
  some, List, [], ◌∷◌, ◌&&◌, ◌==◌, ◌⊎◌, inl, inr, All, any, sum_of, is_none, ltb, leb→lt, ltb→le,
  Bool-cases, Option-cases, ==_iff, arith,
}
use mathlib.Core.Option.{some-injective}
use apparel_network.Prelude.Text.{Text, eq_string, eq_string→eq, eq_text→eq}
use apparel_network.Prelude.Members.{Among, All-each, any-Among, select-Among}
use apparel_network.Promotions.Model.{
  Promotion, PromotionRule, PromotionCoupon, RuleCondition, ShoppingCartItem, Candidate,
}
use apparel_network.Promotions.Evaluation.{
  Readings, reached, starts_after, below, differs, excludes, first_reason, coupon_reasons, reasons,
  reject_reason, matches, eligible_items, coupon_of, discount_on, subtotal_of, quantity_of,
}

-- a coupon that can be used at this time, by this customer
pub record IsUsable (r : Readings) (promotion_id : ℕ) (coupon : PromotionCoupon) : Type 0 where
  pub active : coupon.active ≡ true
  pub started : (start : ℕ) → coupon.effective_from ≡ some start → start ≤ r.now
  pub not_over : (end : ℕ) → coupon.effective_until ≡ some end → r.now < end
  pub customer_limit :
      (limit : ℕ)
      → coupon.per_customer_usage_limit ≡ some limit
      → r.customer_usage promotion_id r.customer_id coupon.id < limit
  pub limit : (limit : ℕ) → coupon.usage_limit ≡ some limit → r.coupon_usage coupon.id < limit

-- a promotion that the cart and the customer qualify for, with the coupon that was given for it
pub record Qualifies (r : Readings) (p : Promotion) (coupon : Option PromotionCoupon) : Type 0 where
  pub public_or_coupon : coupon ≡ none → p.public ≡ true
  pub currency : (code : String) → p.currency ≡ some code → code ≡ r.currency
  pub customer_group :
      (group : String) → p.customer_group ≡ some group → (group ≡ "") ⊎ (group ≡ r.customer_group)
  pub first_purchase : p.first_purchase_only ≡ true → r.prior_orders ≡ 0
  pub minimum_amount :
      (minimum : ℕ)
      → p.minimum_order_amount ≡ some minimum
      → minimum ≤ sum_of (λ item. item.unit_price * item.quantity) r.items
  pub minimum_quantity :
      (minimum : ℕ)
      → p.minimum_quantity ≡ some minimum
      → minimum ≤ sum_of (λ item. item.quantity) r.items
  pub limit : (limit : ℕ) → p.usage_limit ≡ some limit → r.promotion_usage p.id < limit
  pub customer_limit :
      (limit : ℕ)
      → p.per_customer_usage_limit ≡ some limit
      → r.customer_promotion_usage p.id r.customer_id < limit
  pub coupon_usable : (given : PromotionCoupon) → coupon ≡ some given → IsUsable r p.id given

not_reached :
    (o : Option ℕ) (usage limit : ℕ) → reached o usage ≡ false → o ≡ some limit → usage < limit
unfolding reached
not_reached none usage limit h e = cc
not_reached (some l) usage limit h e =
    let same = some-injective l limit e in let less = leb→lt l usage h in omega arith

pub not_below :
    (o : Option ℕ) (value minimum : ℕ) → below o value ≡ false → o ≡ some minimum → minimum ≤ value
unfolding below
not_below none value minimum h e = cc
not_below (some m) value minimum h e =
    let same = some-injective m minimum e in let le = ltb→le value m h in omega arith

not_differs :
    (o : Option String) (value expected : String)
    → differs o value ≡ false
    → o ≡ some expected
    → expected ≡ value
unfolding differs
not_differs none value expected h e = cc
not_differs (some x) value expected h e =
    sym (some-injective x expected e) ∙ eq_string→eq x value (not_not (eq_string x value) h)
  where
    not_not : (b : Bool) → not b ≡ false → b ≡ true
    not_not b h = ground arith

not_excludes :
    (o : Option String) (value expected : String)
    → excludes o value ≡ false
    → o ≡ some expected
    → (expected ≡ "") ⊎ (expected ≡ value)
unfolding excludes
not_excludes none value expected h e = cc
not_excludes (some x) value expected h e = elim (Bool-cases (eq_string x "")) [
  | inl t ↦ inl (sym (some-injective x expected e) ∙ eq_string→eq x "" t)
  | inr t ↦ inr (
      sym (some-injective x expected e)
      ∙ eq_string→eq x value (second (eq_string x "") (eq_string x value) t h))
]
  where
    second : (a b : Bool) → a ≡ false → (not a && not b) ≡ false → b ≡ true
    second a b k h = ground arith

-- No reason holds.
first_reason-none :
    (reasons : List (Bool × String)) → first_reason reasons ≡ none → All (λ x. x.0 ≡ false) reasons
unfolding first_reason
first_reason-none [] e = tt
first_reason-none ((holds, reason) ∷ reasons) e = elim (Bool-cases holds) [
  | inl t ↦ cc (rw t at e)
  | inr t ↦ (t, first_reason-none reasons (rw t at e))
]

-- The checks on a coupon.
coupon_reasons-IsUsable :
    (r : Readings) (p : Promotion) (coupon : PromotionCoupon)
    → All (λ x. x.0 ≡ false) (coupon_reasons r p (some coupon))
    → IsUsable r p.id coupon
unfolding coupon_reasons
coupon_reasons-IsUsable r p coupon h = record {
  active = not_not coupon.active h.0;
  started = λ start e. starts coupon.effective_from start h.1.0 e;
  not_over = λ end e. not_reached coupon.effective_until r.now end h.1.1.0 e;
  customer_limit = λ limit e. not_reached coupon.per_customer_usage_limit _ limit h.1.1.1.0 e;
  limit = λ limit e. not_reached coupon.usage_limit _ limit h.1.1.1.1.0 e;
}
  where
    not_not : (b : Bool) → not b ≡ false → b ≡ true
    not_not b h = ground arith

    starts :
        (o : Option ℕ) (start : ℕ) → starts_after o r.now ≡ false → o ≡ some start → start ≤ r.now
    starts none start h e = cc
    starts (some t) start h e =
        unfold starts_after in
        let same = some-injective t start e in let le = ltb→le r.now t h in omega arith

-- A promotion without a reason to reject it qualifies.
pub reject_reason-Qualifies :
    (r : Readings) (p : Promotion) (coupon : Option PromotionCoupon)
    → reject_reason r p coupon ≡ none
    → Qualifies r p coupon
unfolding reject_reason reasons
reject_reason-Qualifies r p coupon e =
    let h = first_reason-none (reasons r p coupon) e in
    record {
      public_or_coupon = λ missing. public p.public coupon missing h.0;
      currency = λ code e. not_differs p.currency r.currency code h.1.0 e;
      customer_group = λ group e. not_excludes p.customer_group r.customer_group group h.1.1.0 e;
      first_purchase = λ first. none_before p.first_purchase_only r.prior_orders first h.1.1.1.0;
      minimum_amount = λ minimum e.
          unfold subtotal_of in
          not_below p.minimum_order_amount (subtotal_of r.items) minimum h.1.1.1.1.0 e;
      minimum_quantity = λ minimum e.
          unfold quantity_of in
          not_below p.minimum_quantity (quantity_of r.items) minimum h.1.1.1.1.1.0 e;
      limit = λ limit e. not_reached p.usage_limit _ limit h.1.1.1.1.1.1.0 e;
      customer_limit =
          λ limit e. not_reached p.per_customer_usage_limit _ limit h.1.1.1.1.1.1.1.0 e;
      coupon_usable = λ given e. usable coupon given e h.1.1.1.1.1.1.1.1;
    }
  where
    public :
        (b : Bool) (o : Option PromotionCoupon) → o ≡ none → (not b && is_none o) ≡ false → b ≡ true
    public true o e h = refl
    public false none e h = cc
    public false (some c) e h = cc

    none_before : (b : Bool) (n : ℕ) → b ≡ true → (b && ltb 0 n) ≡ false → n ≡ 0
    none_before b n e h = ground arith

    usable :
        (o : Option PromotionCoupon) (given : PromotionCoupon)
        → o ≡ some given
        → All (λ x. x.0 ≡ false) (coupon_reasons r p o)
        → IsUsable r p.id given
    usable none given e h = cc
    usable (some c) given e h =
        subst (IsUsable r p.id) (some-injective c given e) (coupon_reasons-IsUsable r p c h)

-- an item meets a condition on its product, its variant, its catalog, its brand or its categories
abbrev pub Meets : Readings → ShoppingCartItem → Text → RuleCondition → Type 0
Meets r item target RuleCondition.product = r.str item.product_id ≡ target
Meets r item target RuleCondition.variant = r.str item.variant_id ≡ target
Meets r item target RuleCondition.catalog = (r.contexts item.product_id).catalog_id ≡ target
Meets r item target RuleCondition.brand =
    r.casefold (r.contexts item.product_id).brand ≡ r.casefold target
Meets r item target RuleCondition.category =
    (id : ℕ) × Among id (r.contexts item.product_id).category_ids × (r.str id ≡ target)

matches-Meets :
    (r : Readings) (item : ShoppingCartItem) (rule : PromotionRule) (condition : RuleCondition)
    → matches r item rule condition ≡ true
    → Meets r item rule.target condition
unfolding matches
matches-Meets r item rule RuleCondition.product h = eq_text→eq _ _ h
matches-Meets r item rule RuleCondition.variant h = eq_text→eq _ _ h
matches-Meets r item rule RuleCondition.catalog h = eq_text→eq _ _ h
matches-Meets r item rule RuleCondition.brand h = eq_text→eq _ _ h
matches-Meets r item rule RuleCondition.category h =
    let found = any-Among _ (r.contexts item.product_id).category_ids h in
    (found.0, found.1, eq_text→eq _ _ found.2)

-- an item of the cart that meets every rule
abbrev pub MeetsAll : Readings → List PromotionRule → ShoppingCartItem → Type 0
MeetsAll r rules item =
    Among item r.items × All (λ rule. Meets r item rule.target rule.condition) rules

pub eligible_items-MeetsAll :
    (r : Readings) (rules : List PromotionRule) → All (MeetsAll r rules) (eligible_items r rules)
unfolding eligible_items
eligible_items-MeetsAll r rules =
    All-each (MeetsAll r rules) _
      λ item among. let found = select-Among _ r.items among in (found.0, met item rules found.1)
  where
    met :
        (item : ShoppingCartItem) (each : List PromotionRule)
        → not (any (λ rule. not (matches r item rule rule.condition)) each) ≡ true
        → All (λ rule. Meets r item rule.target rule.condition) each
    met item [] h = tt
    met item (rule ∷ each) h = elim (Bool-cases (matches r item rule rule.condition)) [
      | inl t ↦ (matches-Meets r item rule rule.condition t, met item each (rw t at h))
      | inr t ↦ cc (rw t at h)
    ]

-- The coupon of a promotion is one of the given ones.
pub coupon_of-Among :
    (id : ℕ) (coupons : List PromotionCoupon) (coupon : PromotionCoupon)
    → coupon_of id coupons ≡ some coupon
    → Among coupon coupons × (coupon.promotion_id ≡ id)
unfolding coupon_of
coupon_of-Among id [] coupon e = cc
coupon_of-Among id (c ∷ coupons) coupon e = elim (Option-cases (coupon_of id coupons)) [
  | inl missing ↦ elim (Bool-cases (c.promotion_id == id)) [
    | inl t ↦
        let same : c ≡ coupon = some-injective c coupon (rw (missing, t) at e) in
        (inl (sym same), sym (ap (λ x. x.promotion_id) same) ∙ (==_iff _ _).0 t)
    | inr t ↦ cc (rw (missing, t) at e)
  ]
  | inr (later, found) ↦
      let same : later ≡ coupon = some-injective later coupon (rw found at e) in
      let rest = coupon_of-Among id coupons coupon (found ∙ ap some same) in (inr rest.0, rest.1)
]

-- What is said of each promotion that applies: it is one of the store's active promotions, its coupon
-- is one that was given for it, cart and customer qualify, and the items on which its discount is
-- calculated meet all its rules and are enough.
pub record IsEligible (r : Readings) (c : Candidate) : Type 0 where
  pub listed : Among c.promotion r.promotions
  pub given :
      (coupon : PromotionCoupon)
      → c.coupon ≡ some coupon
      → Among coupon r.coupons × (coupon.promotion_id ≡ c.promotion.id)
  pub qualifies : Qualifies r c.promotion c.coupon
  pub first_item : ShoppingCartItem
  pub other_items : List ShoppingCartItem
  pub matched : eligible_items r (r.rules c.promotion.id) ≡ first_item ∷ other_items
  pub meets : All (MeetsAll r (r.rules c.promotion.id)) (first_item ∷ other_items)
  pub enough :
      (minimum : ℕ)
      → c.promotion.minimum_quantity ≡ some minimum
      → minimum ≤ sum_of (λ item. item.quantity) (first_item ∷ other_items)
  pub priced : c.discount ≡ discount_on r c.promotion first_item other_items

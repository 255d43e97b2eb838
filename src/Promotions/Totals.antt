-- ===== src/Promotions/Totals.antt =====
-- The totals of an evaluation, and what each applied promotion has passed.
use apparel_network.Prelude.{
  ℕ, ◌+◌, ◌-◌, ◌≤◌, ◌≡◌, refl, Option, none, some, List, [], ◌∷◌, All, All-sort_by, All-scalar, leb,
  ltb, not, ◌||◌, ◌&&◌, Bool-cases, inl, inr, sum_of, arith, leb→le, suc, if◌then◌else◌,
  Option-cases, is_some,
}
use apparel_network.Promotions.Model.{
  Promotion, Candidate, DiscountLine, ShoppingCartItem, RejectedPromotion,
}
use apparel_network.Prelude.{subst}
use apparel_network.Prelude.Members.{Among, All-each}
use apparel_network.Promotions.Eligibility.{
  IsEligible, MeetsAll, not_below, reject_reason-Qualifies, eligible_items-MeetsAll,
  coupon_of-Among,
}
use apparel_network.Promotions.Stacking.{precedes, stack, choose, resolve_stacking}
use apparel_network.Promotions.Evaluation.{
  Readings, Outcome, reject_reason, propose, consider, consider_each, collect, charge, evaluate,
  subtotal_of, coupon_of, eligible_items, discount_on, below, is_idle, quantity_of,
}

abbrev line_total : List DiscountLine → ℕ
line_total lines = sum_of (λ l. l.discount_amount) lines

-- The lines and what remains add up.
charge-total :
    (remaining : ℕ) (cs : List Candidate)
    → line_total (charge remaining cs).0 + (charge remaining cs).1 ≡ remaining
unfolding charge sum_of
charge-total remaining [] = omega arith
charge-total remaining (c ∷ cs) = elim (Bool-cases (leb c.discount remaining)) [
  | inl t ↦ rw t (
      let le = leb→le c.discount remaining t in
      let rest = charge-total (remaining - c.discount) cs in omega arith)
  | inr t ↦ rw t (let rest = charge-total (remaining - remaining) cs in omega arith)
]

-- For every cart, every set of promotions and every count of redemptions, the discount of an
-- evaluation is the sum of its lines, and the final total and the discount add up to the subtotal of
-- the cart's items: no discount exceeds what there is to pay.
pub evaluate-totals :
    (r : Readings)
    → let e = evaluate r in
      (sum_of (λ line. line.discount_amount) e.applied_promotions ≡ e.discount_total)
      × (e.final_total + e.discount_total ≡ subtotal_of r.items)
unfolding evaluate
evaluate-totals r =
    let total =
      charge-total (subtotal_of r.items) (resolve_stacking (consider_each r r.promotions).0).0 in
    (omega arith, omega arith)

module _ (P : Candidate → Type 0) where
  pub stack-All :
      (limit taken : ℕ) (cs : List Candidate) → All P cs → All P (stack limit taken cs).0
  unfolding stack
  stack-All limit taken [] h = tt
  stack-All limit taken (c ∷ cs) h =
      elim (Bool-cases (leb limit taken || (ltb 0 taken && not c.promotion.stackable))) [
        | inl t ↦ rw t (stack-All limit taken cs h.1)
        | inr t ↦ rw t (h.0, stack-All limit (suc taken) cs h.1)
      ]

  choose-All :
      (exclusive : Option Candidate) (ordered : List Candidate)
      → ((c : Candidate) → exclusive ≡ some c → P c)
      → All P ordered
      → All P (choose exclusive ordered).0
  unfolding choose
  choose-All none ordered first h = stack-All _ 0 ordered h
  choose-All (some c) ordered first h = (first c refl, tt)

  -- What holds of every candidate holds of the ones that apply together.
  pub resolve_stacking-All : (cs : List Candidate) → All P cs → All P (resolve_stacking cs).0
  unfolding resolve_stacking
  resolve_stacking-All cs h =
      let sorted = All-sort_by P precedes cs h in
      choose-All _ _ (λ c e. All-scalar P (λ x. x.promotion.exclusive) _ sorted e) sorted

-- a line of a candidate that has the property
abbrev pub LineOf : (Candidate → Type 0) → DiscountLine → Type 0
LineOf P line =
    (c : Candidate) × P c
    × (line.promotion_id ≡ c.promotion.id)
    × (line.discount_amount ≤ c.discount)

charge-All :
    (P : Candidate → Type 0) (cs : List Candidate) (remaining : ℕ)
    → All P cs
    → All (LineOf P) (charge remaining cs).0
unfolding charge
charge-All P [] remaining h = tt
charge-All P (c ∷ cs) remaining h = ((c, h.0, refl, capped c.discount), charge-All P cs _ h.1)
  where
    capped : (d : ℕ) → (if leb d remaining then d else remaining) ≤ d
    capped d = ground arith

-- what a promotion is judged to be
abbrev Proposes : (Candidate → Type 0) → Outcome → Type 0
Proposes P (Outcome.proposed c) = P c
Proposes P _ = Unit

propose-IsEligible :
    (r : Readings) (p : Promotion) (items : List ShoppingCartItem)
    → Among p r.promotions
    → reject_reason r p (coupon_of p.id r.coupons) ≡ none
    → eligible_items r (r.rules p.id) ≡ items
    → Proposes (IsEligible r) (propose r p (coupon_of p.id r.coupons) items)
unfolding propose
propose-IsEligible r p [] among reason matched = tt
propose-IsEligible r p (item ∷ items) among reason matched =
    elim (Bool-cases (below p.minimum_quantity (quantity_of (item ∷ items)))) [
      | inl t ↦ rw t tt
      | inr t ↦ elim (Bool-cases (is_idle p.promotion_type (discount_on r p item items))) [
        | inl u ↦ rw (t, u) tt
        | inr u ↦
            rw (t, u)
              (record {
                listed = among;
                given = λ coupon e. coupon_of-Among p.id r.coupons coupon e;
                qualifies = reject_reason-Qualifies r p (coupon_of p.id r.coupons) reason;
                first_item = item;
                other_items = items;
                matched = matched;
                meets =
                    subst (All (MeetsAll r (r.rules p.id))) matched
                      (eligible_items-MeetsAll r (r.rules p.id));
                enough = λ minimum e.
                    unfold quantity_of in
                    not_below p.minimum_quantity (quantity_of (item ∷ items)) minimum t e;
                priced = refl;
              })
      ]
    ]

consider-IsEligible :
    (r : Readings) (p : Promotion) → Among p r.promotions → Proposes (IsEligible r) (consider r p)
unfolding consider
consider-IsEligible r p among = elim (Option-cases (reject_reason r p (coupon_of p.id r.coupons))) [
  | inl passed ↦ rw passed (propose-IsEligible r p _ among passed refl)
  | inr (reason, failed) ↦
      rw failed (elim (Bool-cases (is_some (coupon_of p.id r.coupons) || p.public)) [
        | inl t ↦ rw t tt
        | inr t ↦ rw t tt
      ])
]

consider_each-IsEligible :
    (r : Readings) (ps : List Promotion)
    → All (λ p. Among p r.promotions) ps
    → All (IsEligible r) (consider_each r ps).0
unfolding consider_each
consider_each-IsEligible r [] among = tt
consider_each-IsEligible r (p ∷ ps) among =
    collected (consider r p) (consider_each r ps) (consider-IsEligible r p among.0)
      (consider_each-IsEligible r ps among.1)
  where
    collected :
        (o : Outcome) (rest : List Candidate × List RejectedPromotion)
        → Proposes (IsEligible r) o
        → All (IsEligible r) rest.0
        → All (IsEligible r) (collect o rest).0
    collected Outcome.skipped rest p h = h
    collected (Outcome.refused x) rest p h = h
    collected (Outcome.proposed c) rest p h = (p, h)

-- Each line of an evaluation is that of an active promotion of the store, with a coupon that was given
-- for it and can be used or with none if the promotion is public; currency, customer group, first
-- purchase, minimum amount, minimum quantity and the usage limits of the promotion admit the cart and
-- the customer; the items of the cart on which its discount is calculated meet all its rules, are not
-- none and reach its minimum quantity; and the line is at most that discount.
pub evaluate-IsEligible :
    (r : Readings) → All (LineOf (IsEligible r)) (evaluate r).applied_promotions
unfolding evaluate
evaluate-IsEligible r = charge-All (IsEligible r) _ _ (
    resolve_stacking-All (IsEligible r) _
      (consider_each-IsEligible r r.promotions (All-each _ r.promotions λ p among. among)))

-- ===== src/Promotions/Stacking.antt =====
-- `_resolve_stacking` of promotions/application/services.py: which of the candidates apply together.
use apparel_network.Prelude.{
  ℕ, suc, String, Bool, not, Option, none, some, List, [], ◌∷◌, ◌&&◌, ◌||◌, ◌==◌, leb, ltb, length,
  map, scalar, sort_by, get_or_else, if◌then◌else◌,
}
use apparel_network.Prelude.Text.{Text}
use apparel_network.Promotions.Model.{Candidate, PromotionCoupon, RejectedPromotion}

-- `coupon.code if coupon else None`
unfoldable pub code_of : Option PromotionCoupon → Option Text
code_of none = none
code_of (some coupon) = some coupon.code

unfoldable pub reject : String → Candidate → RejectedPromotion
unfolding code_of
reject reason candidate = record {
  promotion_id = some candidate.promotion.id;
  coupon_code = code_of candidate.coupon;
  reason = reason;
}

-- the key `(-priority, str(id))`; UUIDs and the texts that print them are in the same order
unfoldable pub precedes : Candidate → Candidate → Bool
precedes a b =
    ltb b.promotion.priority a.promotion.priority
    || ((a.promotion.priority == b.promotion.priority) && leb a.promotion.id b.promotion.id)

-- the least `maximum_stack`
abbrev pub lesser : Option ℕ → Option ℕ → Option ℕ
lesser none limit = limit
lesser (some maximum) none = some maximum
lesser (some maximum) (some limit) = some (if leb maximum limit then maximum else limit)

unfoldable pub least_stack : List Candidate → Option ℕ
least_stack [] = none
least_stack (c ∷ cs) = lesser c.promotion.maximum_stack (least_stack cs)

abbrev pub excluded : String
excluded = "A higher-priority exclusive Promotion was selected."

abbrev pub unstacked : String
unstacked = "Promotion stacking policy excluded this Promotion."

-- the candidates after an exclusive one, and those before it: all others are rejected
unfoldable pub others_rejected : List Candidate → List RejectedPromotion
unfolding reject
others_rejected [] = []
others_rejected (c ∷ cs) =
    if c.promotion.exclusive
    then map (reject excluded) cs
    else reject excluded c ∷ others_rejected cs

-- the loop over the candidates; `taken` is `len(selected)`
unfoldable pub stack : ℕ → ℕ → List Candidate → List Candidate × List RejectedPromotion
unfolding reject
stack limit taken [] = ([], [])
stack limit taken (c ∷ cs) =
    let refused = stack limit taken cs in
    let accepted = stack limit (suc taken) cs in
    if leb limit taken || (ltb 0 taken && not c.promotion.stackable)
    then (refused.0, reject unstacked c ∷ refused.1)
    else (c ∷ accepted.0, accepted.1)

-- the choice between the two ways, for the ordered candidates
unfoldable pub choose : Option Candidate → List Candidate → List Candidate × List RejectedPromotion
unfolding others_rejected stack least_stack
choose none ordered = stack (get_or_else (least_stack ordered) (length ordered)) 0 ordered
choose (some exclusive) ordered = (exclusive ∷ [], others_rejected ordered)

unfoldable pub resolve_stacking : List Candidate → List Candidate × List RejectedPromotion
unfolding precedes choose
resolve_stacking candidates =
    let ordered = sort_by precedes candidates in
    choose (scalar (λ c. c.promotion.exclusive) ordered) ordered

-- ===== src/Promotions/Resolution.antt =====
-- Which candidates apply together: an exclusive one alone, or as many as the limits admit, in the order
-- of their priorities.
use apparel_network.Prelude.{
  ◌≡◌, refl, ap, ◌∙◌, subst, String, true, false, Option, none, some, List, [], ◌∷◌, ◌++◌, map, All,
  All-map, sort_by, scalar, scalar_test, Bool-cases, inl, inr, arith,
}
use apparel_network.Prelude.Members.{Among, All-Among, scalar-head, scalar-Among, scalar-none}
use apparel_network.Prelude.Pairs.{Apart}
use apparel_network.Prelude.Sorting.{
  Reordered, Reordered-refl, Reordered-sym, All-Reordered, Reordered-sort_by,
}
use apparel_network.Promotions.Model.{Candidate, RejectedPromotion}
use apparel_network.Promotions.Stacking.{
  precedes, reject, code_of, excluded, unstacked, others_rejected, choose, resolve_stacking,
}
use apparel_network.Promotions.Stacks.{
  Leads, IsStack, precedes-Leads, sorted_candidates, stacked_from,
}

-- The one that is selected is exclusive, and leads all that are.
pub record IsAlone (cs selected : List Candidate) : Type 0 where
  pub chosen : Candidate
  pub only : selected ≡ chosen ∷ []
  pub exclusive : chosen.promotion.exclusive ≡ true
  pub leading : All (λ c. c.promotion.exclusive ≡ true → Leads chosen c) cs

-- the entry of the answer for a candidate that does not apply
abbrev pub turned_down : String → Candidate → RejectedPromotion
turned_down reason c = record {
  promotion_id = some c.promotion.id;
  coupon_code = code_of c.coupon;
  reason = reason;
}

-- What a choice among candidates has to be.
pub record IsResolved (cs : List Candidate) (result : List Candidate × List RejectedPromotion)
    : Type 0 where
  pub left : List Candidate
  pub reason : String
  pub parted : Reordered cs (result.0 ++ left)
  pub rejected : result.1 ≡ map (turned_down reason) left
  pub alone : (c : Candidate) → Among c cs → c.promotion.exclusive ≡ true → IsAlone cs result.0
  pub stacked : All (λ c. c.promotion.exclusive ≡ false) cs → IsStack cs result.0 left

map-turned_down :
    (reason : String) (cs : List Candidate) → map (reject reason) cs ≡ map (turned_down reason) cs
unfolding reject
map-turned_down reason cs = refl

-- The others of an exclusive candidate.
others_rejected-Parts :
    (cs : List Candidate) (first : Candidate)
    → scalar (λ c. c.promotion.exclusive) cs ≡ some first
    → (left : List Candidate) × (others_rejected cs ≡ map (reject excluded) left)
      × Reordered cs (first ∷ left)
unfolding others_rejected scalar
others_rejected-Parts [] first e = cc
others_rejected-Parts (c ∷ cs) first e = elim (Bool-cases c.promotion.exclusive) [
  | inl t ↦ (
    cs,
    rw t refl,
    subst (λ x. Reordered (c ∷ cs) (x ∷ cs)) (scalar-head (λ x. x.promotion.exclusive) c cs t e)
        (Reordered-refl (c ∷ cs)),
  )
  | inr t ↦
      let rest = others_rejected-Parts cs first (rw t at e) in
      (
        c ∷ rest.0,
        rw t (ap (λ r. reject excluded c ∷ r) rest.1),
        Reordered.chain _ _ _ (Reordered.keep c _ _ rest.2) (Reordered.exchange c first rest.0),
      )
]

-- The first exclusive candidate of a sorted list leads all that are exclusive.
scalar-Leads :
    (cs : List Candidate) (first : Candidate)
    → Apart (λ a b. precedes a b ≡ true) cs
    → scalar (λ c. c.promotion.exclusive) cs ≡ some first
    → All (λ c. c.promotion.exclusive ≡ true → Leads first c) cs
unfolding scalar
scalar-Leads [] first sorted e = cc
scalar-Leads (c ∷ cs) first sorted e = elim (Bool-cases c.promotion.exclusive) [
  | inl t ↦
      subst (λ x. All (λ d. d.promotion.exclusive ≡ true → Leads x d) (c ∷ cs))
        (scalar-head (λ x. x.promotion.exclusive) c cs t e)
        (
          λ _. inr (refl, omega arith),
          All-map (λ d. precedes c d ≡ true) _ (λ d h _. precedes-Leads c d h) cs sorted.0,
        )
  | inr t ↦ (λ h. cc (t, h), scalar-Leads cs first sorted.1 (rw t at e))
]

-- Each candidate is selected or rejected, exactly once. When one is exclusive, an exclusive one applies
-- alone, and it leads all exclusive ones: it has the higher priority, or the same and the lower
-- identifier. When none is, those that apply are in that order, all but the first are stackable, and
-- their number is at most the `maximum_stack` of every candidate that sets one; and a candidate is
-- rejected only when it is not stackable and another one applies, or when no greater number would be
-- within those limits.
pub resolve_stacking-IsResolved :
    (candidates : List Candidate) → IsResolved candidates (resolve_stacking candidates)
unfolding resolve_stacking choose
resolve_stacking-IsResolved candidates = go _ refl
  where
    ordered : List Candidate
    ordered = sort_by precedes candidates

    same : Reordered candidates ordered
    same = Reordered-sort_by precedes candidates

    go :
        (first : Option Candidate)
        → scalar (λ c. c.promotion.exclusive) ordered ≡ first
        → IsResolved candidates (choose first ordered)
    go none e =
        let parts = stacked_from candidates in
        record {
          left = parts.0;
          reason = unstacked;
          parted = parts.2;
          rejected = parts.1 ∙ map-turned_down unstacked parts.0;
          alone = λ c among exclusive.
              let no =
                All-Among (λ c. c.promotion.exclusive ≡ false) candidates
                  (All-Reordered _ (Reordered-sym same) (scalar-none _ ordered e)) among in
              cc (no, exclusive);
          stacked = λ _. parts.3;
        }
    go (some first) e =
        let parts = others_rejected-Parts ordered first e in
        let exclusive = scalar_test (λ c. c.promotion.exclusive) ordered e in
        record {
          left = parts.0;
          reason = excluded;
          parted = Reordered.chain _ _ _ same parts.2;
          rejected = parts.1 ∙ map-turned_down excluded parts.0;
          alone = λ _ _ _. record {
            chosen = first;
            only = refl;
            exclusive = exclusive;
            leading =
                All-Reordered _ (Reordered-sym same)
                  (scalar-Leads ordered first (sorted_candidates candidates) e);
          };
          stacked = λ none_exclusive.
              let no =
                All-Among (λ c. c.promotion.exclusive ≡ false) ordered
                  (All-Reordered _ same none_exclusive) (scalar-Among _ ordered e) in
              cc (no, exclusive);
        }

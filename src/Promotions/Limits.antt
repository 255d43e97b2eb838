-- ===== src/Promotions/Limits.antt =====
-- How many promotions the candidates allow (`maximum_stack`): the least of their limits.
use apparel_network.Prelude.{
  ℕ, ◌≤◌, ◌≡◌, refl, Option, none, some, List, [], ◌∷◌, All, All-map, arith, get_or_else,
}
use apparel_network.Promotions.Model.{Candidate}
use apparel_network.Promotions.Stacking.{least_stack, lesser}

-- No candidate sets a lower limit.
abbrev pub AllowsAll : ℕ → List Candidate → Type 0
AllowsAll n cs =
    All (λ c. (maximum : ℕ) → c.promotion.maximum_stack ≡ some maximum → n ≤ maximum) cs

abbrev pub AtMost : Option ℕ → ℕ → Type 0
AtMost none b = ⊥
AtMost (some k) b = k ≤ b

pub AtMost-default : (o : Option ℕ) (default b : ℕ) → AtMost o b → get_or_else o default ≤ b
AtMost-default none default b h = absurd h
AtMost-default (some k) default b h = h

lesser_new : (maximum : ℕ) (limit : Option ℕ) → AtMost (lesser (some maximum) limit) maximum
lesser_new maximum none = omega arith
lesser_new maximum (some k) = ground arith

lesser_old : (o limit : Option ℕ) (b : ℕ) → AtMost limit b → AtMost (lesser o limit) b
lesser_old none limit b h = h
lesser_old (some maximum) none b h = absurd h
lesser_old (some maximum) (some k) b h = ground arith

-- the promotion sets no lower limit
abbrev pub Allows : Option ℕ → Candidate → Type 0
Allows limit c = (maximum : ℕ) → c.promotion.maximum_stack ≡ some maximum → AtMost limit maximum

pub least_stack-Allows : (cs : List Candidate) → All (Allows (least_stack cs)) cs
unfolding least_stack
least_stack-Allows [] = tt
least_stack-Allows (c ∷ cs) = (
  λ maximum e. rw e (lesser_new maximum (least_stack cs)),
  All-map (Allows (least_stack cs)) (Allows (lesser c.promotion.maximum_stack (least_stack cs)))
      (λ x h maximum e. lesser_old c.promotion.maximum_stack (least_stack cs) maximum (h maximum e))
      cs (least_stack-Allows cs),
)

-- A limit that all candidates allow is at most the least.
pub least_stack-least :
    (cs : List Candidate) (default n : ℕ)
    → n ≤ default
    → AllowsAll n cs
    → n ≤ get_or_else (least_stack cs) default
unfolding least_stack
least_stack-least [] default n h allowed = h
least_stack-least (c ∷ cs) default n h allowed =
    lesser_least c.promotion.maximum_stack (least_stack cs) allowed.0
      (least_stack-least cs default n h allowed.1)
  where
    lesser_least :
        (o limit : Option ℕ)
        → ((maximum : ℕ) → o ≡ some maximum → n ≤ maximum)
        → n ≤ get_or_else limit default
        → n ≤ get_or_else (lesser o limit) default
    lesser_least none limit k l = l
    lesser_least (some m) none k l = k m refl
    lesser_least (some m) (some b) k l = let least = k m refl in ground arith

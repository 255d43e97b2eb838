-- ===== src/Promotions/Combination.antt =====
-- The choice of the candidates that apply together does not depend on the order in which they come.
use apparel_network.Prelude.{
  ℕ, ◌≡◌, refl, sym, ap, ◌∙◌, Bool, true, false, List, [], ◌∷◌, map, sort_by, insert_by, scalar,
  leb, ltb, ◌&&◌, ◌||◌, ◌==◌, Bool-cases, inl, inr, arith,
}
use apparel_network.Prelude.Sorting.{Reordered, sort_by-Reordered}
use apparel_network.Promotions.Model.{Candidate}
use apparel_network.Promotions.Stacking.{precedes, choose, resolve_stacking}

-- The order of the keys.
abbrev before : ℕ → ℕ → ℕ → ℕ → Bool
before p i q j = ltb q p || ((p == q) && leb i j)

pub before_total : (p i q j : ℕ) → before p i q j ≡ false → before q j p i ≡ true
before_total p i q j h = ground arith

before_antisym : (p i q j : ℕ) → before p i q j ≡ true → before q j p i ≡ true → i ≡ j
before_antisym p i q j h k = ground arith

pub before_trans :
    (p i q j r k : ℕ) → before p i q j ≡ true → before q j r k ≡ true → before p i r k ≡ true
before_trans p i q j r k h l = ground arith

-- The promotions of a store, one for each identifier.
module _ (candidate : ℕ → Candidate) (named : (id : ℕ) → (candidate id).promotion.id ≡ id) where
  by_id : ℕ → ℕ → Bool
  by_id a b = precedes (candidate a) (candidate b)

  map-insert_by :
      (a : ℕ) (xs : List ℕ)
      → map candidate (insert_by by_id a xs) ≡ insert_by precedes (candidate a) (map candidate xs)
  unfolding insert_by by_id
  map-insert_by a [] = refl
  map-insert_by a (x ∷ xs) = elim (Bool-cases (precedes (candidate a) (candidate x))) [
    | inl t ↦ rw t refl
    | inr t ↦ rw t (ap (λ r. candidate x ∷ r) (map-insert_by a xs))
  ]

  map-sort_by :
      (xs : List ℕ) → map candidate (sort_by by_id xs) ≡ sort_by precedes (map candidate xs)
  unfolding sort_by
  map-sort_by [] = refl
  map-sort_by (x ∷ xs) =
      map-insert_by x (sort_by by_id xs) ∙ ap (insert_by precedes (candidate x)) (map-sort_by xs)

  -- The result is the same whatever the order in which the candidates come: priority and identifier
  -- decide, when each identifier names one candidate.
  pub resolve_stacking-Reordered :
      (ids ids' : List ℕ)
      → Reordered ids ids'
      → resolve_stacking (map candidate ids) ≡ resolve_stacking (map candidate ids')
  unfolding resolve_stacking by_id precedes
  resolve_stacking-Reordered ids ids' same =
      ap (λ ordered. choose (scalar (λ c. c.promotion.exclusive) ordered) ordered)
        (sym (map-sort_by ids)
          ∙ ap (map candidate) (sort_by-Reordered by_id total antisym transitive same)
          ∙ map-sort_by ids')
    where
      total : (a b : ℕ) → by_id a b ≡ false → by_id b a ≡ true
      total a b h =
          before_total (candidate a).promotion.priority _ (candidate b).promotion.priority _ h

      antisym : (a b : ℕ) → by_id a b ≡ true → by_id b a ≡ true → a ≡ b
      antisym a b h k =
          sym (named a)
          ∙ before_antisym (candidate a).promotion.priority _ (candidate b).promotion.priority _ h k
          ∙ named b

      transitive : (a b c : ℕ) → by_id a b ≡ true → by_id b c ≡ true → by_id a c ≡ true
      transitive a b c h k =
          before_trans (candidate a).promotion.priority _ (candidate b).promotion.priority _
            (candidate c).promotion.priority _ h k

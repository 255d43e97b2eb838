-- ===== src/Prelude/Members.antt =====
-- Membership in a list, and what a query for one row says of it.
use mathlib.Core.Path.{◌≡◌, refl, sym, ap, ◌∙◌}
use mathlib.Core.Logic.{◌⊎◌, inl, inr}
use mathlib.Core.Bool.{Bool, true, false}
use mathlib.Core.Option.{some, none, some-injective}
use mathlib.Core.List.{List, [], ◌∷◌}
use apparel_network.Prelude.Tests.{Bool-cases}
use apparel_network.Prelude.Sorting.{Reordered}
use apparel_network.Prelude.Lists.{All, any, scalar, select}

abbrev pub Among : {A : Type 0} → A → List A → Type 0
Among a [] = ⊥
Among a (x ∷ xs) = (a ≡ x) ⊎ Among a xs

pub All-Among : {A : Type 0} (P : A → Type 0) {a : A} (xs : List A) → All P xs → Among a xs → P a
All-Among P [] h m = absurd m
All-Among P (x ∷ xs) h (inl e) = rw e h.0
All-Among P (x ∷ xs) h (inr m) = All-Among P xs h.1 m

pub All-each : {A : Type 0} (P : A → Type 0) (xs : List A) → ((a : A) → Among a xs → P a) → All P xs
All-each P [] f = tt
All-each P (x ∷ xs) f = (f x (inl refl), All-each P xs (λ a m. f a (inr m)))

module _ {A : Type 0} (p : A → Bool) where
  pub scalar-Among : (xs : List A) {a : A} → scalar p xs ≡ some a → Among a xs
  unfolding scalar
  scalar-Among [] e = cc
  scalar-Among (x ∷ xs) {a} e = elim (Bool-cases (p x)) [
    | inl t ↦ inl (sym (some-injective x a (rw t at e)))
    | inr t ↦ inr (scalar-Among xs (rw t at e))
  ]

  pub scalar-none : (xs : List A) → scalar p xs ≡ none → All (λ x. p x ≡ false) xs
  unfolding scalar
  scalar-none [] e = tt
  scalar-none (x ∷ xs) e = elim (Bool-cases (p x)) [
    | inl t ↦ cc (rw t at e)
    | inr t ↦ (t, scalar-none xs (rw t at e))
  ]

  pub select-Among : (xs : List A) {a : A} → Among a (select p xs) → Among a xs × (p a ≡ true)
  unfolding select
  select-Among [] m = absurd m
  select-Among (x ∷ xs) {a} m = elim (Bool-cases (p x)) [
    | inl t ↦ elim (rw t at m) [
      | inl e ↦ (inl e, rw e t)
      | inr n ↦ let rest = select-Among xs n in (inr rest.0, rest.1)
    ]
    | inr t ↦ let rest = select-Among xs (rw t at m) in (inr rest.0, rest.1)
  ]

  pub any-Among : (xs : List A) → any p xs ≡ true → (a : A) × Among a xs × (p a ≡ true)
  any-Among [] e = cc
  any-Among (x ∷ xs) e = elim (Bool-cases (p x)) [
    | inl t ↦ (x, inl refl, t)
    | inr t ↦ let found = any-Among xs (rw t at e) in (found.0, inr found.1, found.2)
  ]

  -- A row that passes the test is the one that is found.
  pub scalar-head : (x : A) (xs : List A) {a : A} → p x ≡ true → scalar p (x ∷ xs) ≡ some a → x ≡ a
  unfolding scalar
  scalar-head x xs {a} t e = some-injective x a (rw t at e)

  pub Among-select : (xs : List A) {a : A} → Among a xs → p a ≡ true → Among a (select p xs)
  unfolding select
  Among-select [] m t = absurd m
  Among-select (x ∷ xs) {a} (inl e) t = rw (sym (ap p e) ∙ t) (inl e)
  Among-select (x ∷ xs) {a} (inr m) t = elim (Bool-cases (p x)) [
    | inl u ↦ rw u (inr (Among-select xs m t))
    | inr u ↦ rw u (Among-select xs m t)
  ]

  pub Among-any : (xs : List A) {a : A} → Among a xs → p a ≡ true → any p xs ≡ true
  Among-any [] m t = absurd m
  Among-any (x ∷ xs) (inl e) t = rw (sym (ap p e) ∙ t) refl
  Among-any (x ∷ xs) (inr m) t = elim (Bool-cases (p x)) [
    | inl u ↦ rw u refl
    | inr u ↦ rw u (Among-any xs m t)
  ]

pub Among-Reordered :
    {A : Type 0} (a : A) {xs ys : List A} → Reordered xs ys → Among a xs → Among a ys
Among-Reordered a Reordered.nothing m = m
Among-Reordered a (Reordered.keep x xs ys p) (inl e) = inl e
Among-Reordered a (Reordered.keep x xs ys p) (inr m) = inr (Among-Reordered a p m)
Among-Reordered a (Reordered.exchange x y xs) (inl e) = inr (inl e)
Among-Reordered a (Reordered.exchange x y xs) (inr (inl e)) = inl e
Among-Reordered a (Reordered.exchange x y xs) (inr (inr m)) = inr (inr m)
Among-Reordered a (Reordered.chain xs ys zs p q) m = Among-Reordered a q (Among-Reordered a p m)

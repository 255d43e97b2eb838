-- ===== src/Prelude/Pairs.antt =====
-- A relation between any two elements of a list at different places.
use Prim.Native.Nat.{ℕ}
use mathlib.Core.Path.{◌≡◌, sym, ap, ◌∙◌}
use mathlib.Core.Logic.{inl, inr, ◌≢◌}
use mathlib.Core.Bool.{Bool}
use mathlib.Core.Option.{some, some-injective}
use mathlib.Core.List.{List, [], ◌∷◌, ◌++◌}
use native.Mathlib.Omega.{arith}
use apparel_network.Prelude.Tests.{Bool-cases, ◌==◌, ==_iff}
use apparel_network.Prelude.Lists.{
  scalar, All-scalar, All, All-select, All-insert_by, All-sort_by, All-save, All-snoc, All-map,
  insert_by, sort_by, select, save,
}

module _ {A : Type 0} (R : A → A → Type 0) where
  abbrev pub Apart : List A → Type 0
  Apart [] = Unit
  Apart (x ∷ xs) = All (R x) xs × Apart xs

  pub Apart-select : (p : A → Bool) (xs : List A) → Apart xs → Apart (select p xs)
  unfolding select
  Apart-select p [] h = tt
  Apart-select p (x ∷ xs) h = elim (Bool-cases (p x)) [
    | inl t ↦ rw t (All-select (R x) p xs h.0, Apart-select p xs h.1)
    | inr t ↦ rw t (Apart-select p xs h.1)
  ]

  module _ (symmetric : (a b : A) → R a b → R b a) where
    pub Apart-insert_by :
        (le : A → A → Bool) (a : A) (xs : List A)
        → All (R a) xs
        → Apart xs
        → Apart (insert_by le a xs)
    unfolding insert_by
    Apart-insert_by le a [] new h = (tt, tt)
    Apart-insert_by le a (x ∷ xs) new h = elim (Bool-cases (le a x)) [
      | inl t ↦ rw t (new, h)
      | inr t ↦
          rw t (
            All-insert_by (R x) le a xs (symmetric a x new.0) h.0,
            Apart-insert_by le a xs new.1 h.1,
          )
    ]

    pub Apart-sort_by : (le : A → A → Bool) (xs : List A) → Apart xs → Apart (sort_by le xs)
    unfolding sort_by
    Apart-sort_by le [] h = tt
    Apart-sort_by le (x ∷ xs) h =
        Apart-insert_by le x (sort_by le xs) (All-sort_by (R x) le xs h.0) (Apart-sort_by le xs h.1)

    pub Apart-snoc : (xs : List A) (a : A) → Apart xs → All (R a) xs → Apart (xs ++ a ∷ [])
    Apart-snoc [] a h new = (tt, tt)
    Apart-snoc (x ∷ xs) a h new =
        (All-snoc (R x) xs h.0 (symmetric a x new.0), Apart-snoc xs a h.1 new.1)

    module _ (key : A → ℕ) (distinct : (a b : A) → R a b → key a ≢ key b) where
      All-save_fresh :
          (a : A) (xs : List A) → All (λ x. (key x ≢ key a) × R a x) xs → All (R a) (save key a xs)
      unfolding save
      All-save_fresh a [] h = tt
      All-save_fresh a (x ∷ xs) h = elim (Bool-cases (key x == key a)) [
        | inl t ↦ absurd (h.0.0 ((==_iff _ _).0 t))
        | inr t ↦ rw t (h.0.1, All-save_fresh a xs h.1)
      ]

      -- A row is replaced by one that is apart from all others.
      pub Apart-save :
          (a : A) (xs : List A)
          → Apart xs
          → All (λ x. key x ≢ key a → R a x) xs
          → Apart (save key a xs)
      unfolding save
      Apart-save a [] h new = tt
      Apart-save a (x ∷ xs) h new = elim (Bool-cases (key x == key a)) [
        | inl t ↦ rw t (
          All-save_fresh a xs (others ((==_iff _ _).0 t) xs h.0 new.1),
          Apart-save a xs h.1 new.1,
        )
        | inr t ↦ rw t (
          All-save key (R x) (R x) a xs h.0 (λ y r ne. r) (symmetric a x (new.0 (ground arith))),
          Apart-save a xs h.1 new.1,
        )
      ]
        where
          others :
              key x ≡ key a
              → (ys : List A) → All (R x) ys
              → All (λ y. key y ≢ key a → R a y) ys
              → All (λ y. (key y ≢ key a) × R a y) ys
          others same [] r n = tt
          others same (y ∷ ys) r n =
              let ne : key y ≢ key a = λ e. distinct x y r.0 (same ∙ sym e) in
              ((ne, n.0 ne), others same ys r.1 n.1)

-- Two queries that find the key of one row find one row.
module _ {A : Type 0} (R : A → A → Type 0) (key : A → ℕ)
    (distinct : (a b : A) → R a b → key a ≢ key b) where
  pub Apart-unique :
      (p q : A → Bool) (xs : List A) {a b : A}
      → Apart R xs
      → scalar p xs ≡ some a
      → scalar q xs ≡ some b
      → key a ≡ key b
      → a ≡ b
  unfolding scalar
  Apart-unique p q [] h e f same = cc
  Apart-unique p q (x ∷ xs) {a} {b} h e f same = elim (Bool-cases (p x)) [
    | inl t ↦ elim (Bool-cases (q x)) [
      | inl u ↦ sym (some-injective x a (rw t at e)) ∙ some-injective x b (rw u at f)
      | inr u ↦
          let first = some-injective x a (rw t at e) in
          absurd (distinct x b (All-scalar (R x) q xs h.0 (rw u at f)) (ap key first ∙ same))
    ]
    | inr t ↦ elim (Bool-cases (q x)) [
      | inl u ↦
          let first = some-injective x b (rw u at f) in
          absurd (distinct x a (All-scalar (R x) p xs h.0 (rw t at e)) (ap key first ∙ sym same))
      | inr u ↦ Apart-unique p q xs h.1 (rw t at e) (rw u at f) same
    ]
  ]

pub Apart-map :
    {A : Type 0} (R S : A → A → Type 0)
    → ((a b : A) → R a b → S a b)
    → (xs : List A) → Apart R xs
    → Apart S xs
Apart-map R S f [] h = tt
Apart-map R S f (x ∷ xs) h = (All-map (R x) (S x) (f x) xs h.0, Apart-map R S f xs h.1)

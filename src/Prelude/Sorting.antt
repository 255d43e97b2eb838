-- ===== src/Prelude/Sorting.antt =====
-- A sort by a total order depends on what it sorts alone, not on the order in which it comes.
use mathlib.Core.Path.{◌≡◌, refl, ap, ◌∙◌}
use mathlib.Core.Logic.{inl, inr}
use mathlib.Core.Bool.{Bool, true, false}
use Prim.Native.Nat.{suc}
use mathlib.Core.List.{List, [], ◌∷◌, ◌++◌, map}
use apparel_network.Prelude.Tests.{Bool-cases}
use apparel_network.Prelude.Lists.{insert_by, sort_by, length, All, All-map, All-insert_by}
use apparel_network.Prelude.Pairs.{Apart}

-- Two lists with the same elements, each as often, by exchanges of neighbours.
pub data Reordered {A : Type 0} : List A → List A → Type 0 where
  nothing : Reordered [] []
  keep : (x : A) (xs ys : List A) → Reordered xs ys → Reordered (x ∷ xs) (x ∷ ys)
  exchange : (x y : A) (xs : List A) → Reordered (x ∷ y ∷ xs) (y ∷ x ∷ xs)
  chain : (xs ys zs : List A) → Reordered xs ys → Reordered ys zs → Reordered xs zs

module _ {A : Type 0} (le : A → A → Bool) (total : (a b : A) → le a b ≡ false → le b a ≡ true)
    (antisym : (a b : A) → le a b ≡ true → le b a ≡ true → a ≡ b)
    (transitive : (a b c : A) → le a b ≡ true → le b c ≡ true → le a c ≡ true) where
  -- What comes after `x` comes after all that is before `x`.
  stays_after : (a x b : A) → le a x ≡ true → le b x ≡ false → le b a ≡ false
  stays_after a x b ax bx = elim (Bool-cases (le b a)) [
    | inl t ↦ cc (transitive b a x t ax, bx)
    | inr t ↦ t
  ]

  exchanged : {a b : A} → a ≡ b → (rest : List A) → a ∷ b ∷ rest ≡ b ∷ a ∷ rest
  exchanged e rest = rw e refl

  -- Two insertions in either order.
  insert_by_comm :
      (a b : A) (xs : List A)
      → insert_by le a (insert_by le b xs) ≡ insert_by le b (insert_by le a xs)
  unfolding insert_by
  insert_by_comm a b [] = elim (Bool-cases (le a b)) [
    | inl t ↦ elim (Bool-cases (le b a)) [
      | inl u ↦ rw (antisym a b t u) refl
      | inr u ↦ rw (t, u) refl
    ]
    | inr t ↦ rw (t, total a b t) refl
  ]
  insert_by_comm a b (x ∷ xs) = elim (Bool-cases (le a x)) [
    | inl ax ↦ elim (Bool-cases (le b x)) [
      | inl bx ↦ elim (Bool-cases (le a b)) [
        | inl t ↦ elim (Bool-cases (le b a)) [
          | inl u ↦ rw (ax, bx, t, u) (exchanged (antisym a b t u) (x ∷ xs))
          | inr u ↦ rw (ax, bx, t, u) refl
        ]
        | inr t ↦ rw (ax, bx, t, total a b t, ax) refl
      ]
      | inr bx ↦ rw (ax, bx, stays_after a x b ax bx, ax) refl
    ]
    | inr ax ↦ elim (Bool-cases (le b x)) [
      | inl bx ↦ rw (ax, bx, stays_after b x a bx ax, ax) refl
      | inr bx ↦ rw (ax, bx, ax) (ap (λ r. x ∷ r) (insert_by_comm a b xs))
    ]
  ]

  pub sort_by-Reordered : {xs ys : List A} → Reordered xs ys → sort_by le xs ≡ sort_by le ys
  unfolding sort_by
  sort_by-Reordered Reordered.nothing = refl
  sort_by-Reordered (Reordered.keep x xs ys p) = ap (insert_by le x) (sort_by-Reordered p)
  sort_by-Reordered (Reordered.exchange x y xs) = insert_by_comm x y (sort_by le xs)
  sort_by-Reordered (Reordered.chain xs ys zs p q) = sort_by-Reordered p ∙ sort_by-Reordered q

module _ {A B : Type 0} (f : A → B) (le : B → B → Bool) where
  insert_by-map :
      (x : A) (xs : List A)
      → insert_by le (f x) (map f xs) ≡ map f (insert_by (λ a b. le (f a) (f b)) x xs)
  unfolding insert_by
  insert_by-map x [] = refl
  insert_by-map x (y ∷ ys) = elim (Bool-cases (le (f x) (f y))) [
    | inl t ↦ rw t refl
    | inr t ↦ rw t (ap (λ rest. f y ∷ rest) (insert_by-map x ys))
  ]

  -- A sort by what `f` gives commutes with `f`.
  pub sort_by-map :
      (xs : List A) → sort_by le (map f xs) ≡ map f (sort_by (λ a b. le (f a) (f b)) xs)
  unfolding sort_by
  sort_by-map [] = refl
  sort_by-map (x ∷ xs) = ap (insert_by le (f x)) (sort_by-map xs) ∙ insert_by-map x (sort_by _ xs)

module _ {A : Type 0} where
  pub Reordered-refl : (xs : List A) → Reordered xs xs
  Reordered-refl [] = Reordered.nothing
  Reordered-refl (x ∷ xs) = Reordered.keep x xs xs (Reordered-refl xs)

  pub Reordered-sym : {xs ys : List A} → Reordered xs ys → Reordered ys xs
  Reordered-sym Reordered.nothing = Reordered.nothing
  Reordered-sym (Reordered.keep x xs ys p) = Reordered.keep x ys xs (Reordered-sym p)
  Reordered-sym (Reordered.exchange x y xs) = Reordered.exchange y x xs
  Reordered-sym (Reordered.chain xs ys zs p q) =
      Reordered.chain zs ys xs (Reordered-sym q) (Reordered-sym p)

  pub Reordered-middle : (x : A) (xs ys : List A) → Reordered (x ∷ (xs ++ ys)) (xs ++ x ∷ ys)
  Reordered-middle x [] ys = Reordered-refl (x ∷ ys)
  Reordered-middle x (y ∷ xs) ys =
      Reordered.chain _ _ _ (Reordered.exchange x y (xs ++ ys))
        (Reordered.keep y _ _ (Reordered-middle x xs ys))

  pub All-Reordered : (P : A → Type 0) {xs ys : List A} → Reordered xs ys → All P xs → All P ys
  All-Reordered P Reordered.nothing h = tt
  All-Reordered P (Reordered.keep x xs ys p) h = (h.0, All-Reordered P p h.1)
  All-Reordered P (Reordered.exchange x y xs) h = (h.1.0, (h.0, h.1.1))
  All-Reordered P (Reordered.chain xs ys zs p q) h = All-Reordered P q (All-Reordered P p h)

  pub length-Reordered : {xs ys : List A} → Reordered xs ys → length xs ≡ length ys
  length-Reordered Reordered.nothing = refl
  length-Reordered (Reordered.keep x xs ys p) = ap suc (length-Reordered p)
  length-Reordered (Reordered.exchange x y xs) = refl
  length-Reordered (Reordered.chain xs ys zs p q) = length-Reordered p ∙ length-Reordered q

  module _ (le : A → A → Bool) where
    insert_by-Reordered : (x : A) (xs : List A) → Reordered (x ∷ xs) (insert_by le x xs)
    unfolding insert_by
    insert_by-Reordered x [] = Reordered-refl (x ∷ [])
    insert_by-Reordered x (y ∷ ys) = elim (Bool-cases (le x y)) [
      | inl t ↦ rw t (Reordered-refl (x ∷ y ∷ ys))
      | inr t ↦ rw t (
          Reordered.chain _ _ _ (Reordered.exchange x y ys)
            (Reordered.keep y _ _ (insert_by-Reordered x ys)))
    ]

    -- A sort changes the order alone.
    pub Reordered-sort_by : (xs : List A) → Reordered xs (sort_by le xs)
    unfolding sort_by
    Reordered-sort_by [] = Reordered.nothing
    Reordered-sort_by (x ∷ xs) =
        Reordered.chain _ _ _ (Reordered.keep x _ _ (Reordered-sort_by xs))
          (insert_by-Reordered x (sort_by le xs))

    module _ (total : (a b : A) → le a b ≡ false → le b a ≡ true)
        (transitive : (a b c : A) → le a b ≡ true → le b c ≡ true → le a c ≡ true) where
      insert_by-Apart :
          (x : A) (xs : List A)
          → Apart (λ a b. le a b ≡ true) xs
          → Apart (λ a b. le a b ≡ true) (insert_by le x xs)
      unfolding insert_by
      insert_by-Apart x [] h = (tt, tt)
      insert_by-Apart x (y ∷ ys) h = elim (Bool-cases (le x y)) [
        | inl t ↦ rw t ((t, All-map (λ z. le y z ≡ true) _ (λ z u. transitive x y z t u) ys h.0), h)
        | inr t ↦
            rw t (
              All-insert_by (λ z. le y z ≡ true) le x ys (total x y t) h.0,
              insert_by-Apart x ys h.1,
            )
      ]

      -- In a sorted list each element comes before all that follow.
      pub sort_by-Apart : (xs : List A) → Apart (λ a b. le a b ≡ true) (sort_by le xs)
      unfolding sort_by
      sort_by-Apart [] = tt
      sort_by-Apart (x ∷ xs) = insert_by-Apart x (sort_by le xs) (sort_by-Apart xs)

-- ===== src/Prelude/Lists.antt =====
-- Tables as lists: selection by a predicate, update by primary key, sums, and predicates on all
-- rows.
use Prim.Native.Nat.{ℕ, zero, suc, ◌+◌}
use mathlib.Core.Path.{◌≡◌, refl, sym, ap, subst, ◌∙◌}
use mathlib.Core.Bool.{Bool, true, false}
use mathlib.Core.Logic.{◌≢◌, inl, inr}
use mathlib.Core.List.{List, [], ◌∷◌, ◌++◌}
use mathlib.Core.Option.{Option, none, some, some-injective}
use native.Mathlib.Omega.{arith}
use apparel_network.Prelude.Tests.{if◌then◌else◌, ◌==◌, Bool-cases}

module _ {ℓ} {A : Type ℓ} where
  abbrev pub length : List A → ℕ
  length [] = 0
  length (x ∷ xs) = suc (length xs)

  abbrev pub is_empty : List A → Bool
  is_empty [] = true
  is_empty (x ∷ xs) = false

  abbrev pub take : ℕ → List A → List A
  take zero xs = []
  take (suc n) [] = []
  take (suc n) (x ∷ xs) = x ∷ take n xs

  -- The rows that pass a test, in order: `select(...).where(...)`.
  unfoldable pub select : (A → Bool) → List A → List A
  select p [] = []
  select p (x ∷ xs) = let rest = select p xs in if p x then x ∷ rest else rest

  -- The first row that passes a test: `session.scalar(select(...).where(...))`.
  unfoldable pub scalar : (A → Bool) → List A → Option A
  scalar p [] = none
  scalar p (x ∷ xs) = let rest = scalar p xs in if p x then some x else rest

  abbrev pub any : (A → Bool) → List A → Bool
  any p [] = false
  any p (x ∷ xs) = if p x then true else any p xs

  -- The sum of a numeric column over a selection.
  unfoldable pub sum_of : (A → ℕ) → List A → ℕ
  sum_of f [] = 0
  sum_of f (x ∷ xs) = f x + sum_of f xs

  pub sum_of-append : (f : A → ℕ) (xs ys : List A) → sum_of f (xs ++ ys) ≡ sum_of f xs + sum_of f ys
  unfolding sum_of
  sum_of-append f [] ys = omega arith
  sum_of-append f (x ∷ xs) ys = omega (arith, sum_of-append f xs ys)

  -- Stable insertion by a Boolean order, and the sort that it gives: `sorted(values, key=...)`.
  unfoldable pub insert_by : (A → A → Bool) → A → List A → List A
  insert_by le a [] = a ∷ []
  insert_by le a (x ∷ xs) = let rest = insert_by le a xs in if le a x then a ∷ x ∷ xs else x ∷ rest

  unfoldable pub sort_by : (A → A → Bool) → List A → List A
  unfolding insert_by
  sort_by le [] = []
  sort_by le (x ∷ xs) = insert_by le x (sort_by le xs)

  abbrev pub All {κ} : (A → Type κ) → List A → Type κ
  All P [] = Unit
  All P (x ∷ xs) = P x × All P xs

-- `None` unless the row passes a further test.
unfoldable pub keep_if {ℓ} : {A : Type ℓ} → (A → Bool) → Option A → Option A
keep_if p none = none
keep_if p (some a) = if p a then some a else none

pub keep_if_inv {ℓ} :
    {A : Type ℓ} (p : A → Bool) (o : Option A) {a : A}
    → keep_if p o ≡ some a
    → (o ≡ some a) × (p a ≡ true)
unfolding keep_if
keep_if_inv p none e = cc
keep_if_inv p (some x) {a} e = elim (Bool-cases (p x)) [
  | inl t ↦ let same : x ≡ a = some-injective x a (rw t at e) in (ap some same, sym (ap p same) ∙ t)
  | inr t ↦ cc (rw t at e)
]

module _ {ℓ κ} {A : Type ℓ} (P : A → Type κ) where
  pub All-append : (xs ys : List A) → All P xs → All P ys → All P (xs ++ ys)
  All-append [] ys hx hy = hy
  All-append (x ∷ xs) ys hx hy = (hx.0, All-append xs ys hx.1 hy)

  pub All-snoc : (xs : List A) {y : A} → All P xs → P y → All P (xs ++ y ∷ [])
  All-snoc xs hx hy = All-append xs _ hx (hy, tt)

  pub All-select : (p : A → Bool) (xs : List A) → All P xs → All P (select p xs)
  unfolding select
  All-select p [] h = tt
  All-select p (x ∷ xs) h = elim (Bool-cases (p x)) [
    | inl e ↦ rw e (h.0, All-select p xs h.1)
    | inr e ↦ rw e (All-select p xs h.1)
  ]

  -- The selected rows pass the test.
  pub All-select_test :
      (p : A → Bool) (xs : List A) → All P xs → All (λ x. P x × (p x ≡ true)) (select p xs)
  unfolding select
  All-select_test p [] h = tt
  All-select_test p (x ∷ xs) h = elim (Bool-cases (p x)) [
    | inl e ↦ rw e ((h.0, e), All-select_test p xs h.1)
    | inr e ↦ rw e (All-select_test p xs h.1)
  ]

  pub All-take : (n : ℕ) (xs : List A) → All P xs → All P (take n xs)
  All-take zero xs h = tt
  All-take (suc n) [] h = tt
  All-take (suc n) (x ∷ xs) h = (h.0, All-take n xs h.1)

  pub All-insert_by :
      (le : A → A → Bool) (a : A) (xs : List A) → P a → All P xs → All P (insert_by le a xs)
  unfolding insert_by
  All-insert_by le a [] ha h = (ha, tt)
  All-insert_by le a (x ∷ xs) ha h = elim (Bool-cases (le a x)) [
    | inl e ↦ rw e (ha, h)
    | inr e ↦ rw e (h.0, All-insert_by le a xs ha h.1)
  ]

  pub All-sort_by : (le : A → A → Bool) (xs : List A) → All P xs → All P (sort_by le xs)
  unfolding sort_by
  All-sort_by le [] h = tt
  All-sort_by le (x ∷ xs) h = All-insert_by le x (sort_by le xs) h.0 (All-sort_by le xs h.1)

  -- A selected row satisfies what all rows satisfy.
  pub All-scalar : (p : A → Bool) (xs : List A) {a : A} → All P xs → scalar p xs ≡ some a → P a
  unfolding scalar
  All-scalar p [] h e = cc
  All-scalar p (x ∷ xs) {a} h e = elim (Bool-cases (p x)) [
    | inl t ↦ subst P (some-injective x a (rw t at e)) h.0
    | inr t ↦ All-scalar p xs h.1 (rw t at e)
  ]

pub All-map {ℓ κ μ} :
    {A : Type ℓ} (P : A → Type κ) (Q : A → Type μ) (f : (a : A) → P a → Q a) (xs : List A)
    → All P xs
    → All Q xs
All-map P Q f [] h = tt
All-map P Q f (x ∷ xs) h = (f x h.0, All-map P Q f xs h.1)

-- No row passes a test that no row of the list passes.
pub All-any {ℓ} :
    {A : Type ℓ} (p : A → Bool) (xs : List A) → any p xs ≡ false → All (λ x. p x ≡ false) xs
All-any p [] h = tt
All-any p (x ∷ xs) h = elim (Bool-cases (p x)) [
  | inl t ↦ cc (rw t at h)
  | inr t ↦ (t, All-any p xs (rw t at h))
]

-- A selected row passes the test.
pub scalar_test {ℓ} :
    {A : Type ℓ} (p : A → Bool) (xs : List A) {a : A} → scalar p xs ≡ some a → p a ≡ true
unfolding scalar
scalar_test p [] e = cc
scalar_test p (x ∷ xs) {a} e = elim (Bool-cases (p x)) [
  | inl t ↦ cc (t, rw t at e)
  | inr t ↦ scalar_test p xs (rw t at e)
]

-- The first row that passes a test and, as it happens, a stricter one is the first to pass that.
pub scalar_refine {ℓ} :
    {A : Type ℓ} (p q : A → Bool) (xs : List A) {a : A}
    → ((x : A) → q x ≡ true → p x ≡ true)
    → scalar p xs ≡ some a
    → q a ≡ true
    → scalar q xs ≡ some a
unfolding scalar
scalar_refine p q [] weaker e ok = cc
scalar_refine p q (x ∷ xs) {a} weaker e ok = elim (Bool-cases (p x)) [
  | inl t ↦ let here : x ≡ a = some-injective x a (rw t at e) in rw (ap q here ∙ ok) (ap some here)
  | inr t ↦ elim (Bool-cases (q x)) [
    | inl u ↦ cc (weaker x u)
    | inr u ↦ rw u (scalar_refine p q xs weaker (rw t at e) ok)
  ]
]

-- The unit of work flushes a changed object to the row with its primary key.
module _ {ℓ} {A : Type ℓ} (key : A → ℕ) where
  unfoldable pub save : A → List A → List A
  save a [] = []
  save a (x ∷ xs) = (if key x == key a then a else x) ∷ save a xs

  pub All-save {κ μ} :
      (P : A → Type κ) (Q : A → Type μ) (a : A) (xs : List A)
      → All P xs
      → ((x : A) → P x → key x ≢ key a → Q x)
      → Q a
      → All Q (save a xs)
  unfolding save
  All-save P Q a [] h keep new = tt
  All-save P Q a (x ∷ xs) h keep new = elim (Bool-cases (key x == key a)) [
    | inl e ↦ rw e (new, All-save P Q a xs h.1 keep new)
    | inr e ↦ rw e (keep x h.0 (ground arith), All-save P Q a xs h.1 keep new)
  ]

  pub length-save : (a : A) (xs : List A) → length (save a xs) ≡ length xs
  unfolding save
  length-save a [] = refl
  length-save a (x ∷ xs) = ap suc (length-save a xs)

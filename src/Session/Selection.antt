-- ===== src/Session/Selection.antt =====
-- The read of a row by its key and customer, and the guarded write that selects it again by its
-- version: the repositories of orders, payments, reservations and shipments share this pair of
-- queries.
use apparel_network.Prelude.{
  ℕ, ◌≡◌, refl, [], ◌∷◌, ap, Bool, true, some, List, ◌&&◌, ◌==◌, ◌!=◌, arith, scalar, scalar_test,
  scalar_refine, &&_split, ==_iff, with_version, save, All, All-save, All-scalar,
}

module _ {A : Type 0} (id customer version : A → ℕ) (live : A → Bool) where
  -- The row that a service has read is the one that its write selects.
  pub version-read :
      (id' customer' version' : ℕ) (rows : List A) (row : A)
      → scalar (λ r. (id r == id') && (customer r == customer') && live r) rows ≡ some row
      → (version row != version') ≡ Bool.false
      → scalar
          (λ r.
            (id r == id row) && (customer r == customer row) && live r && (version r == version'))
          rows
        ≡ some row
  version-read id' customer' version' rows row e v =
      scalar_refine _ _ rows
        (λ x h.
          rename (id x == id row) (id x == id') (customer x == customer row)
            (customer x == customer') (live x) (version x == version') (ap (λ n. id x == n) same.0)
            (ap (λ n. customer x == n) same.1) h)
        e
        (with_version (id row == id row) (customer row == customer row) (live row)
          (version row == version') v
          (rw (ap (λ n. id row == n) same.0, ap (λ n. customer row == n) same.1) tested))
    where
      tested : ((id row == id') && (customer row == customer') && live row) ≡ true
      tested = scalar_test _ rows e

      same : (id row ≡ id') × (customer row ≡ customer')
      same =
          let parts = &&_split _ _ ((&&_split _ (live row) tested).0) in
          ((==_iff _ _).0 parts.0, (==_iff _ _).0 parts.1)

      rename :
          (a a' b b' c d : Bool)
          → a ≡ a'
          → b ≡ b'
          → (a && b && c && d) ≡ true
          → (a' && b' && c) ≡ true
      rename a a' b b' c d p q h = ground arith

  -- What the write of a row that was just saved selects is that row.
  pub version-saved :
      (customer' version' : ℕ) (saved row : A) (rows : List A)
      → scalar
          (λ r.
            (id r == id saved) && (customer r == customer') && live r && (version r == version'))
          (save id saved rows)
        ≡ some row
      → row ≡ saved
  version-saved customer' version' saved row rows e =
      All-scalar (λ r. id r ≡ id saved → r ≡ saved) _ (save id saved rows)
        (All-save id (λ _. Unit {0}) (λ r. id r ≡ id saved → r ≡ saved) saved rows (trivial rows)
          (λ x _ ne same. absurd (ne same)) (λ same. refl))
        e
        ((==_iff _ _).0 (
          first (id row == id saved) (customer row == customer') (live row)
            (version row == version') (scalar_test _ (save id saved rows) e)))
    where
      first : (a b c d : Bool) → (a && b && c && d) ≡ true → a ≡ true
      first a b c d h = ground arith

      trivial : (xs : List A) → All (λ _. Unit {0}) xs
      trivial [] = tt
      trivial (x ∷ xs) = (tt, trivial xs)

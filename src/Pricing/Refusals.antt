-- ===== src/Pricing/Refusals.antt =====
-- The update of a price from a version that is not the current one.
use apparel_network.Prelude.{
  ℕ, ◌≡◌, ◌≢◌, refl, sym, ap, ◌∙◌, Bool, true, none, some, ◌&&◌, ◌==◌, is_none, scalar_test, arith,
}
use apparel_network.Prelude.Text.{Text}
use apparel_network.Prelude.Pairs.{Apart-unique}
use apparel_network.Tables.Pricing.{ProductPrice}
use apparel_network.Session.{Session}
use apparel_network.Session.Rules.{
  Ensures, Ensures-raise, Ensures-bind, Ensures-gets, Ensures-check, Ensures-raise_if,
  Ensures-require,
}
use apparel_network.Session.Queries.{Ensures-fetch, Ensures-update_option, Preserves-bind_ensures}
use apparel_network.Session.Preserves.{
  Preserves, Preserves-raise, Preserves-gets, Preserves-fetch, Preserves-raise_if, Preserves-check,
  Preserves-require, Preserves-update_option,
}
use apparel_network.Session.Checked.{Ensures-valid, Preserves-valid}
use apparel_network.Pricing.Repository.{price_key, get_for_owner, versioned_model}
use apparel_network.Pricing.Service.{
  ProductPriceUpdate, get_owned, require_updated, update_owned, price_modified,
}
use apparel_network.Pricing.Invariant.{HasPrices, Distinct, IsChange, validate_changes-IsChange}

never :
    (price_id owner_id : ℕ) (s : Session)
    → Ensures (require_updated price_id owner_id none) s (λ _ _. ⊥)
unfolding require_updated
never price_id owner_id s =
    Ensures-gets _ _ (Ensures-require _ λ found _. Ensures-raise price_modified s)

-- No row has the version that is asked for.
no_version :
    (price_id owner_id expected_version : ℕ) (s : Session) (current row : ProductPrice)
    → HasPrices s.prices
    → get_for_owner price_id owner_id s.db ≡ some current
    → current.version ≢ expected_version
    → versioned_model price_id owner_id expected_version s.db ≡ some row
    → ⊥
unfolding get_for_owner versioned_model
no_version price_id owner_id expected_version s current row has found stale chosen =
    let test =
      tested row.id price_id (is_none row.deleted_at) row.version expected_version _
        (scalar_test _ s.prices chosen) in
    let read =
      named current.id price_id (is_none current.deleted_at) _ (scalar_test _ s.prices found) in
    let same : current ≡ row =
      Apart-unique Distinct price_key (λ a b h. h.0) _ _ s.prices has.prices_apart found chosen
        (read ∙ sym test.0) in
    stale (ap (λ p. p.version) same ∙ test.1)
  where
    tested :
        (a b : ℕ) (d : Bool) (v w : ℕ) (x : Bool)
        → ((a == b) && d && (v == w) && x) ≡ true
        → (a ≡ b) × (v ≡ w)
    tested a b d v w x h = ground arith

    named : (a b : ℕ) (d x : Bool) → ((a == b) && d && x) ≡ true → a ≡ b
    named a b d x h = ground arith

-- An update of a price that names another version than the current one is refused, whatever else it
-- asks for: it does not return, and it leaves the tables as they were. The identifiers of the table
-- are unique.
pub stale_update_refused :
    (upper lower : Text → Text) (price_id owner_id : ℕ) (values : ProductPriceUpdate) (s : Session)
    (current : ProductPrice)
    → HasPrices s.prices
    → get_for_owner price_id owner_id s.db ≡ some current
    → current.version ≢ values.expected_version
    → Ensures (update_owned upper lower price_id owner_id values) s (λ _ _. ⊥)
      × Preserves (λ s'. s'.db ≡ s.db) (update_owned upper lower price_id owner_id values) s
unfolding update_owned get_owned
stale_update_refused upper lower price_id owner_id values s current has found stale = (
  Ensures-fetch _ _ _ λ read fetched. Ensures-valid _ _ λ changes. Ensures-check λ moved.
      Ensures-gets _ _ (
        Ensures-raise_if _ λ free.
          Ensures-update_option _ _ _ _
            (Ensures-bind (never price_id owner_id s) λ price s' no. absurd no)
            λ row chosen. absurd (none_chosen row chosen)),
  Preserves-fetch _ _ _ refl λ read fetched.
      Preserves-valid (IsChange read) _ _ refl
        (validate_changes-IsChange upper lower values.values read)
        λ changes valid. Preserves-check refl λ moved. Preserves-gets _ _ (
          Preserves-raise_if _ refl λ free.
            Preserves-update_option _ _ _ _
              (Preserves-bind_ensures untouched (never price_id owner_id s)
                λ price s' kept no. absurd no)
              λ row chosen. absurd (none_chosen row chosen)),
)
  where
    none_chosen :
        (row : ProductPrice)
        → versioned_model price_id owner_id values.expected_version s.db ≡ some row
        → ⊥
    none_chosen row chosen = no_version price_id owner_id _ s current row has found stale chosen

    untouched : Preserves (λ s'. s'.db ≡ s.db) (require_updated price_id owner_id none) s
    untouched =
        unfold require_updated in
        Preserves-gets _ _
          (Preserves-require _ refl λ found _. Preserves-raise price_modified s refl)

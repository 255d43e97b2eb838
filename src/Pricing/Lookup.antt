-- ===== src/Pricing/Lookup.antt =====
-- A price that was created is found again.
use apparel_network.Prelude.{
  ℕ, ◌≡◌, refl, ap, Bool, true, false, not, Option, some, List, [], ◌∷◌, ◌++◌, ◌&&◌, ◌==◌, any,
  scalar, All, All-map, All-any, arith,
}
use apparel_network.Prelude.Text.{Text}
use apparel_network.Tables.Pricing.{ProductPrice}
use apparel_network.Tables.Shipping.{OutboxEvent}
use apparel_network.Session.{Session, Tables}
use apparel_network.Session.Succeeds.{
  Succeeds, Succeeds-return, Succeeds-bind, Succeeds-gets, Succeeds-raise_if, Succeeds-uuid,
  Succeeds-db_now, Succeeds-modify,
}
use apparel_network.Session.Checked.{Checked, Succeeds-valid}
use apparel_network.Inventory.Access.{store_accessible_by}
use apparel_network.Outbox.Rules.{Succeeds-publish}
use apparel_network.Pricing.Validation.{ProductPriceCreate, validate_create}
use apparel_network.Pricing.Repository.{validate, store_owned, price_row, add, get_for_owner}
use apparel_network.Pricing.Service.{create}

-- A query that no row passes finds the row that is appended.
scalar-snoc :
    {A : Type 0} (p : A → Bool) (a : A) (xs : List A)
    → All (λ x. p x ≡ false) xs
    → p a ≡ true
    → scalar p (xs ++ a ∷ []) ≡ some a
unfolding scalar
scalar-snoc p a [] h t = rw t refl
scalar-snoc p a (x ∷ xs) h t = rw (h.0) (scalar-snoc p a xs h.1 t)

validate-store_owned :
    (store_id product_id : ℕ) (variant_id : Option ℕ) (owner_id : ℕ) (db : Tables)
    → not (validate store_id product_id variant_id owner_id db) ≡ false
    → store_owned store_id owner_id db ≡ true
unfolding validate
validate-store_owned store_id product_id variant_id owner_id db h =
    first (store_owned store_id owner_id db) _ h
  where
    first : (a b : Bool) → not (a && b) ≡ false → a ≡ true
    first a b h = ground arith

-- the ownership of a store does not depend on the prices
store_owned-prices :
    (store_id owner_id : ℕ) (db : Tables) (rows : List ProductPrice)
    → store_owned store_id owner_id (record db { prices = rows }) ≡ store_owned store_id owner_id db
unfolding store_owned store_accessible_by
store_owned-prices store_id owner_id db rows = refl

found_again :
    (values : ProductPriceCreate) (code class : Text) (id now : ℕ) (db : Tables)
    → store_owned values.store_id values.actor_id db ≡ true
    → any (λ r. r.id == id) db.prices ≡ false
    → let new = price_row values code class id now in
      get_for_owner id values.actor_id (record db { prices = db.prices ++ new ∷ [] }) ≡ some new
unfolding get_for_owner price_row
found_again values code class id now db owned fresh =
    scalar-snoc _ _ db.prices
      (All-map (λ r. (r.id == id) ≡ false) _ (λ r f. rw f refl) db.prices
        (All-any _ db.prices fresh))
      (test id _ (rw (store_owned-prices values.store_id values.actor_id db _) owned))
  where
    test : (n : ℕ) (b : Bool) → b ≡ true → ((n == n) && true && b) ≡ true
    test n b h = ground arith

-- the reading of a price does not depend on the events
get_for_owner-outbox :
    (price_id owner_id : ℕ) (db : Tables) (rows : List OutboxEvent)
    → get_for_owner price_id owner_id (record db { outbox = rows })
      ≡ get_for_owner price_id owner_id db
unfolding get_for_owner store_owned store_accessible_by
get_for_owner-outbox price_id owner_id db rows = refl

-- A creation whose values are valid, whose product is its creator's and whose identifier is new returns
-- a price, and its creator finds that price under the returned identifier in the tables that the
-- creation leaves.
pub get_for_owner-create :
    (upper lower : Text → Text) (values : ProductPriceCreate) (code class : Text) (s : Session)
    → validate_create upper lower values ≡ Checked.valid (code, class)
    → validate values.store_id values.product_id values.variant_id values.actor_id s.db ≡ true
    → any (λ r. r.id == s.world.uuid7 s.uuids_drawn) s.prices ≡ false
    → Succeeds
        (create upper lower values)
        s
        (λ price s'. get_for_owner price.id values.actor_id s'.db ≡ some price)
unfolding create add
get_for_owner-create upper lower values code class s valid owned fresh = Succeeds-valid _ valid (
    Succeeds-gets _ _ (
      Succeeds-raise_if _ (passes owned) (
        Succeeds-bind {P = λ price s'. get_for_owner price.id values.actor_id s'.db ≡ some price}
          (Succeeds-uuid _ (
            Succeeds-db_now _ (
              Succeeds-gets _ _ (
                Succeeds-raise_if _ fresh (
                  Succeeds-modify _ (
                    Succeeds-return _ _ (
                      unfold price_row in
                      found_again values code class _ _ s.db
                        (validate-store_owned _ _ _ _ s.db (passes owned)) fresh)))))))
          λ price s' found. Succeeds-publish _ λ row.
            Succeeds-return _ _
              (rw (get_for_owner-outbox price.id values.actor_id s'.db _) found))))
  where
    passes : {b : Bool} → b ≡ true → not b ≡ false
    passes h = ap not h

-- ===== src/Pricing/Rows.antt =====
-- The rows that the requests on product prices write: each keeps the table's constraints, and the
-- active prices apart.
use apparel_network.Prelude.{
  ℕ, ◌≡◌, ◌≢◌, refl, sym, subst, Bool, true, false, not, Option, none, some, List, [], ◌∷◌, ◌++◌,
  ◌&&◌, ◌==◌, ◌!=◌, is_none, is_some, if◌then◌else◌, any, All, All-map, All-snoc, All-any, save,
  All-save, arith,
}
use apparel_network.Prelude.Text.{Text, eq_text}
use apparel_network.Prelude.Pairs.{Apart-snoc, Apart-save}
use apparel_network.Tables.Enums.{PriceStatus, price_status_enum, price_status_ordinal, ◌is◌}
use apparel_network.Tables.Pricing.{ProductPrice}
use apparel_network.Pricing.Validation.{ProductPriceCreate, PriceChanges, merged, time_of, zoned}
use apparel_network.Pricing.Repository.{
  takes, matches, price_key, price_row, set_column, update_row, archive_row,
}
use apparel_network.Pricing.Invariant.{
  IsPrice, HasPrices, Distinct, Distinct-sym, rivals, IsCreatable, IsChange,
}

-- A price that is not active is nobody's rival.
inactive : (a b : ProductPrice) → (b.status is PriceStatus.active) ≡ false → rivals a b ≡ false
unfolding rivals
inactive a b h =
    last _ (b.status is PriceStatus.active) (is_none a.deleted_at) (is_none b.deleted_at) h
  where
    last : (t x d e : Bool) → x ≡ false → (t && x && d && e) ≡ false
    last t x d e h = ground arith

draft_inactive :
    (status : PriceStatus)
    → not (status is PriceStatus.draft) ≡ false
    → (status is PriceStatus.active) ≡ false
unfolding ◌is◌ price_status_ordinal
draft_inactive PriceStatus.draft h = refl
draft_inactive PriceStatus.active h = cc
draft_inactive PriceStatus.archived h = refl

pub created :
    (values : ProductPriceCreate) (code class : Text) (id now : ℕ) (rows : List ProductPrice)
    → HasPrices rows
    → IsCreatable values
    → any (λ r. r.id == id) rows ≡ false
    → HasPrices (rows ++ price_row values code class id now ∷ [])
unfolding price_row
created values code class id now rows has valid fresh = record {
  prices_valid = All-snoc IsPrice rows has.prices_valid (record {
    sale_admitted = valid.sale;
    compare_admitted = valid.compare_at;
    period_ordered = valid.ordered;
    version_positive = omega arith;
    deleted_archived = refl;
  });
  prices_apart = Apart-snoc Distinct Distinct-sym rows _ has.prices_apart (
      All-map (λ r. (r.id == id) ≡ false) (Distinct new)
        (λ r f.
          Distinct-sym r new
            (λ e. different r.id id f e, inactive r new (draft_inactive values.status valid.draft)))
        rows (All-any _ rows fresh));
}
  where
    new : ProductPrice
    new = price_row values code class id now

    different : (a b : ℕ) → (a == b) ≡ false → a ≡ b → ⊥
    different a b h e = ground arith

-- What the test before an update shows.
guarded :
    {A : Type 0} (active : Bool) (f : A → Bool) (rows : List A)
    → (active && any f rows) ≡ false
    → All (λ r. (active && f r) ≡ false) rows
guarded active f [] h = tt
guarded active f (r ∷ rows) h =
    let parts = split active (f r) (any f rows) h in (parts.0, guarded active f rows parts.1)
  where
    split :
        (a b c : Bool)
        → (a && (if b then true else c)) ≡ false
        → ((a && b) ≡ false) × ((a && c) ≡ false)
    split a b c h = ground arith

updated :
    (changes : PriceChanges) (actor_id now : ℕ) (row : ProductPrice) (rows : List ProductPrice)
    → HasPrices rows
    → is_none row.deleted_at ≡ true
    → IsChange row changes
    → let new = update_row changes actor_id now row in
      (new.status is PriceStatus.active
          && any
              (λ r.
                takes row.product_id row.variant_id row.currency_code new.effective_from
                  new.effective_until r
                && (r.id != row.id))
              rows)
        ≡ false
      → HasPrices (save price_key new rows)
unfolding update_row
updated changes actor_id now row rows has live valid guard = record {
  prices_valid =
      All-save price_key IsPrice IsPrice new rows has.prices_valid (λ x p ne. p)
        (record {
          sale_admitted = valid.sale;
          compare_admitted = valid.compare_at;
          period_ordered = valid.ordered;
          version_positive = omega arith;
          deleted_archived = kept row.deleted_at _ live;
        });
  prices_apart =
      Apart-save Distinct Distinct-sym price_key (λ a b h. h.0) new rows has.prices_apart
        (All-map
          (λ r. ((new.status is PriceStatus.active) && (same_slot r && (r.id != row.id))) ≡ false)
          (λ r. r.id ≢ row.id → Distinct new r)
          (λ r free ne. Distinct-sym r new (
            ne,
            unfold rivals takes in
                apart (r.product_id == row.product_id) (matches r.variant_id row.variant_id)
                  (eq_text r.currency_code row.currency_code)
                  (matches r.effective_from new.effective_from)
                  (matches r.effective_until new.effective_until) (r.status is PriceStatus.active)
                  (is_none r.deleted_at) (new.status is PriceStatus.active) (is_none new.deleted_at)
                  r.id row.id ne free,
          ))
          rows (guarded (new.status is PriceStatus.active) _ rows guard));
}
  where
    new : ProductPrice
    new = update_row changes actor_id now row

    same_slot : ProductPrice → Bool
    same_slot r =
        takes row.product_id row.variant_id row.currency_code new.effective_from new.effective_until
          r

    kept : (d : Option ℕ) (b : Bool) → is_none d ≡ true → (is_some d && b) ≡ false
    kept none b h = refl
    kept (some t) b h = cc

    apart :
        (p v c f u a d x e : Bool) (m n : ℕ)
        → m ≢ n
        → (x && ((p && c && a && d && v && f && u) && (m != n))) ≡ false
        → (p && v && c && f && u && a && x && d && e) ≡ false
    apart p v c f u a d x e m n ne h = ground arith

pub archived :
    (deleted_at actor_id now : ℕ) (row : ProductPrice) (rows : List ProductPrice)
    → IsPrice row
    → HasPrices rows
    → HasPrices (save price_key (archive_row deleted_at actor_id now row) rows)
unfolding archive_row
archived deleted_at actor_id now row rows valid has = record {
  prices_valid =
      All-save price_key IsPrice IsPrice new rows has.prices_valid (λ x p ne. p)
        (record {
          sale_admitted = valid.sale_admitted;
          compare_admitted = valid.compare_admitted;
          period_ordered = valid.period_ordered;
          version_positive = omega arith;
          deleted_archived = unfold ◌is◌ price_status_ordinal in refl;
        });
  prices_apart =
      Apart-save Distinct Distinct-sym price_key (λ a b h. h.0) new rows has.prices_apart
        (All-map IsPrice (λ r. r.id ≢ row.id → Distinct new r)
          (λ r p ne.
            Distinct-sym r new (ne, inactive r new (unfold ◌is◌ price_status_ordinal in refl)))
          rows has.prices_valid);
}
  where
    new : ProductPrice
    new = archive_row deleted_at actor_id now row

-- An update of the row that was read.
pub moved_row :
    (current row : ProductPrice) (changes : PriceChanges) (actor_id now : ℕ)
    (rows : List ProductPrice)
    → current ≡ row
    → HasPrices rows
    → is_none row.deleted_at ≡ true
    → IsChange current changes
    → ((set_column changes.status current.status is PriceStatus.active)
        && any
            (λ r.
              takes current.product_id current.variant_id current.currency_code
                (time_of (merged changes.effective_from (zoned current.effective_from)))
                (time_of (merged changes.effective_until (zoned current.effective_until)))
                r
              && (r.id != current.id))
            rows)
      ≡ false
    → HasPrices (save price_key (update_row changes actor_id now row) rows)
moved_row current row changes actor_id now rows same has live valid free =
    subst (λ x. HasPrices (save price_key (update_row changes actor_id now x) rows)) same
      (updated changes actor_id now current rows has
        (subst (λ x. is_none x.deleted_at ≡ true) (sym same) live) valid
        (unfold update_row in free))

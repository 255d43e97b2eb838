-- ===== src/Stores/Keeps.antt =====
-- Every request on the opening hours keeps the table's rules valid and apart.
use apparel_network.Prelude.{
  ℕ, ◌≡◌, ◌≢◌, refl, sym, ◌∙◌, Bool, true, false, Option, none, some, List, ◌∷◌, [], ◌++◌, ◌!=◌,
  any, All, All-map, All-snoc, All-any, save, All-save, All-scalar, scalar_test, arith, ◌&&◌, ◌==◌,
}
use apparel_network.Prelude.Text.{Text}
use apparel_network.Prelude.Pairs.{Apart-snoc, Apart-save}
use apparel_network.Errors.{AppError}
use apparel_network.Tables.Hours.{StoreOperatingHours}
use apparel_network.Session.{Session, raise_if}
use apparel_network.Session.Preserves.{
  Preserves, Preserves-return, Preserves-bind, Preserves-gets, Preserves-fetch, Preserves-raise_if,
  Preserves-now, Preserves-uuid, Preserves-db_now, Preserves-modify, Preserves-update_where,
}
use apparel_network.Session.Rules.{Ensures, Ensures-db_now, Ensures-gets, Ensures-raise_if}
use apparel_network.Session.Queries.{Preserves-bind_ensures}
use apparel_network.Session.Checked.{Preserves-valid}
use apparel_network.Stores.Schedule.{Zones, rules_overlap}
use apparel_network.Stores.Status.{Siblings-sym}
use apparel_network.Stores.Validation.{ZoneLookup, ValidHours, HoursChanges, StoreHoursCreate}
use apparel_network.Stores.Service.{
  hours_key, store_hours, hours_row, update_row, delete_row, is_other, find_conflicts,
  validate_against_store, owned_store, select_version, add, create, update, delete,
}
use apparel_network.Stores.Invariant.{
  HasHours, IsAdmitted, Neighbours, Neighbours-sym, IsValid, Fits, fits, validate_create-IsValid,
  merge-IsValid,
}

raise_if_last :
    {I : Session → Type 0} (b : Bool) (e : AppError) (s : Session)
    → I s
    → Preserves I (raise_if b e) s
unfolding raise_if
raise_if_last true e s h = record { after = h }
raise_if_last false e s h = record { after = h }

ensures_if_last :
    {Q : Unit {0} → Session → Type 0} (b : Bool) (e : AppError) (s : Session)
    → (b ≡ false → Q tt s)
    → Ensures (raise_if b e) s Q
unfolding raise_if
ensures_if_last true e s h = record { at = tt }
ensures_if_last false e s h = record { at = h refl }

validate_against_store-keeps :
    {I : Session → Type 0} (store_id : ℕ) (candidate : ValidHours) (exclude_id : Option ℕ)
    (s : Session)
    → I s
    → Preserves I (validate_against_store store_id candidate exclude_id) s
unfolding validate_against_store
validate_against_store-keeps store_id candidate exclude_id s h =
    Preserves-db_now _
      (Preserves-gets _ _ (Preserves-raise_if _ h λ _. Preserves-gets _ _ (raise_if_last _ _ s h)))

validate_against_store-Fits :
    (store_id : ℕ) (candidate : ValidHours) (exclude_id : Option ℕ) (s : Session)
    → Ensures
        (validate_against_store store_id candidate exclude_id)
        s
        (λ _ s'. Fits store_id candidate exclude_id s'.hours)
unfolding validate_against_store find_conflicts
validate_against_store-Fits store_id candidate exclude_id s = Ensures-db_now _ (
    Ensures-gets _ _ (
      Ensures-raise_if _ λ zone.
        Ensures-gets _ _
          (ensures_if_last _ _ s λ apart. fits store_id candidate exclude_id s.hours apart)))

abbrev KeptHours : (Text → ZoneLookup) → Session → Type 0
KeptHours known s = HasHours known s.hours

created :
    (known : Text → ZoneLookup) (store_id id now : ℕ) (v : ValidHours)
    (rules : List StoreOperatingHours)
    → HasHours known rules
    → IsValid known v
    → any (λ r. r.id == id) rules ≡ false
    → Fits store_id v none rules
    → HasHours known (rules ++ hours_row store_id v id now ∷ [])
unfolding hours_row is_other rules_overlap
created known store_id id now v rules has valid fresh fit = record {
  rules_valid = All-snoc (IsAdmitted known) rules has.rules_valid (record {
    rule = record { mode = valid.its_mode; period = valid.its_period };
    columns = valid.its_columns;
  });
  rules_apart =
      Apart-snoc Neighbours Neighbours-sym rules _ has.rules_apart
        (both rules (All-any _ rules fresh) fit);
}
  where
    new : StoreOperatingHours
    new = hours_row store_id v id now

    different : (a b : ℕ) → (a == b) ≡ false → a ≡ b → ⊥
    different a b h e = ground arith

    both :
        (rs : List StoreOperatingHours)
        → All (λ r. (r.id == id) ≡ false) rs
        → Fits store_id v none rs
        → All (Neighbours new) rs
    both [] f g = tt
    both (r ∷ rs) f g = (
      (
        λ e. different r.id id f.0 (sym e),
        λ store day priority live live'.
            Siblings-sym r new (λ a b c d e. g.0 a b c d refl) store day priority live live',
      ),
      both rs f.1 g.1,
    )

updated :
    (known : Text → ZoneLookup) (store_id schedule_id now : ℕ) (v : ValidHours)
    (row : StoreOperatingHours) (rules : List StoreOperatingHours)
    → row.id ≡ schedule_id
    → row.store_id ≡ store_id
    → HasHours known rules
    → IsValid known v
    → Fits store_id v (some schedule_id) rules
    → HasHours known (save hours_key (update_row v now row) rules)
unfolding hours_row update_row is_other rules_overlap
updated known store_id schedule_id now v row rules named owned has valid fit = record {
  rules_valid =
      All-save hours_key (IsAdmitted known) (IsAdmitted known) (update_row v now row) rules
        has.rules_valid (λ x p ne. p)
        (record {
          rule = record { mode = valid.its_mode; period = valid.its_period };
          columns = valid.its_columns;
        });
  rules_apart =
      Apart-save Neighbours Neighbours-sym hours_key (λ a b h. h.0) (update_row v now row) rules
        has.rules_apart
        (All-map _ (λ r. r.id ≢ row.id → Neighbours new r)
          (λ r apart ne. (
            λ e. ne (sym e),
            λ store day priority live live'.
                Siblings-sym r new
                  (λ a b c d e.
                    apart (a ∙ owned) b c d (eq_ne r.id schedule_id (λ e. ne (e ∙ sym named))))
                  store day priority live live',
          ))
          rules fit);
}
  where
    new : StoreOperatingHours
    new = update_row v now row

    eq_ne : (a b : ℕ) → a ≢ b → (a != b) ≡ true
    eq_ne a b h = ground arith

deleted :
    (known : Text → ZoneLookup) (deleted_at now : ℕ) (row : StoreOperatingHours)
    (rules : List StoreOperatingHours)
    → (IsAdmitted known) row
    → HasHours known rules
    → HasHours known (save hours_key (delete_row deleted_at now row) rules)
unfolding delete_row
deleted known deleted_at now row rules valid has = record {
  rules_valid =
      All-save hours_key (IsAdmitted known) (IsAdmitted known) (delete_row deleted_at now row) rules
        has.rules_valid (λ x p ne. p)
        (record {
          rule = record { mode = valid.rule.mode; period = valid.rule.period };
          columns = valid.columns;
        });
  rules_apart =
      Apart-save Neighbours Neighbours-sym hours_key (λ a b h. h.0) (delete_row deleted_at now row)
        rules has.rules_apart
        (All-map (IsAdmitted known)
          (λ r. r.id ≢ row.id → Neighbours (delete_row deleted_at now row) r)
          (λ r p ne. (λ e. ne (sym e), λ store day priority gone live. absurd (dead gone))) rules
          has.rules_valid);
}
  where
    dead : false ≡ true → ⊥
    dead e = cc

module _ (known : Text → ZoneLookup) (zones : Zones) where
  pub create-keeps :
      (store_id owner_id : ℕ) (values : StoreHoursCreate) (s : Session)
      → HasHours known s.hours
      → Preserves (KeptHours known) (create known zones store_id owner_id values) s
  unfolding create owned_store add
  create-keeps store_id owner_id values s has = Preserves-fetch _ _ _ has λ store owned.
      Preserves-valid (IsValid known) _ _ has (validate_create-IsValid known values) λ v valid.
        Preserves-bind_ensures (validate_against_store-keeps store_id v none s has)
          (validate_against_store-Fits store_id v none s)
          λ _ s1 kept fit.
            Preserves-bind
              (Preserves-uuid _ (
                Preserves-db_now _ (
                  Preserves-gets _ _ (
                    Preserves-raise_if _ kept λ fresh. Preserves-modify _ (
                      Preserves-return _ _
                        (created known store_id _ _ v s1.hours kept valid fresh fit))))))
              λ schedule s2 kept'. Preserves-now _ (Preserves-now _ (Preserves-return _ _ kept'))

  pub update-keeps :
      (store_id schedule_id owner_id version : ℕ) (changes : HoursChanges) (s : Session)
      → HasHours known s.hours
      → Preserves
          (KeptHours known)
          (update known zones store_id schedule_id owner_id version changes)
          s
  unfolding update owned_store store_hours select_version
  update-keeps store_id schedule_id owner_id version changes s has =
      Preserves-fetch _ _ _ has λ store owned. Preserves-fetch _ _ _ has λ current found.
        Preserves-valid (IsValid known) _ _ has (merge-IsValid known current changes) λ v valid.
          Preserves-bind_ensures (validate_against_store-keeps store_id v (some schedule_id) s has)
            (validate_against_store-Fits store_id v (some schedule_id) s)
            λ _ s1 kept fit. Preserves-update_where _ _ _ _ _ kept λ row selected.
              let tested =
                named row.id schedule_id row.store_id store_id _ _
                  (scalar_test _ s1.hours selected) in
              let after =
                updated known store_id schedule_id _ v row s1.hours tested.0 tested.1 kept valid
                  fit in
              Preserves-now _ (Preserves-return _ _ after)
    where
      named :
          (a a' b b' : ℕ) (c d : Bool)
          → ((a == a') && (b == b') && c && d) ≡ true
          → (a ≡ a') × (b ≡ b')
      named a a' b b' c d h = ground arith

  pub delete-keeps :
      (store_id schedule_id owner_id : ℕ) (s : Session)
      → HasHours known s.hours
      → Preserves (KeptHours known) (delete known zones store_id schedule_id owner_id) s
  unfolding delete owned_store store_hours select_version
  delete-keeps store_id schedule_id owner_id s has = Preserves-fetch _ _ _ has λ store owned.
      Preserves-fetch _ _ _ has λ current found. Preserves-now _ (
        Preserves-update_where _ _ _ _ _ has λ row selected.
          let valid = All-scalar (IsAdmitted known) _ s.hours has.rules_valid selected in
          let after = deleted known _ _ row s.hours valid has in
          Preserves-now _ (Preserves-return _ _ after))

-- ===== src/Stores/Invariant.antt =====
-- What the service keeps true of the table of opening hours.
use apparel_network.Prelude.{
  ℕ, suc, ◌≤◌, length, is_empty, ltb→le, subst, ◌≡◌, ◌≢◌, refl, sym, Bool, true, false, Option,
  none, some, List, [], ◌∷◌, ◌&&◌, ◌||◌, ◌==◌, not, any, All, select, is_none, leb, ltb, Bool-cases,
  inl, inr, arith,
}
use apparel_network.Prelude.{==_iff}
use mathlib.Core.Option.{some-injective}
use apparel_network.Prelude.Text.{Text, strip, normalize}
use apparel_network.Prelude.Pairs.{Apart}
use apparel_network.Tables.Hours.{StoreOperatingHours}
use apparel_network.Session.Checked.{
  Holds, Lets, Lets-then, Lets-any, Lets-bind, Lets-fail_if, Lets-valid,
}
use apparel_network.Stores.Schedule.{rules_overlap}
use apparel_network.Stores.Overlap.{IsRule, valid_mode, valid_period}
use apparel_network.Stores.Status.{Siblings, Siblings-sym}
use apparel_network.Stores.Validation.{
  ZoneLookup, ValidHours, HoursChanges, StoreHoursCreate, WallTime, Moment, validate_create, merge,
  mode, timezone, looked_up, notes, interval, effective_period,
}
use apparel_network.Stores.Service.{hours_row, is_other}

-- The columns of a rule that stand alone: its day, its time zone and its notes.
pub record Columns (known : Text → ZoneLookup) (day : ℕ) (zone : Text) (notes : Option Text)
    : Type 0 where
  pub weekday : day ≤ 6
  pub zone_found : known zone ≡ ZoneLookup.found
  pub zone_length : (1 ≤ length zone) × (length zone ≤ 64)
  pub noted : (text : Text) → notes ≡ some text → (1 ≤ length text) × (length text ≤ 500)

-- The columns of a rule that was let through.
pub record IsValid (known : Text → ZoneLookup) (v : ValidHours) : Type 0 where
  pub its_columns : Columns known v.day_of_week v.timezone v.notes
  pub its_mode : valid_mode v.is_closed v.is_24_hours v.opening_time v.closing_time ≡ true
  pub its_period : valid_period v.effective_from v.effective_until ≡ true

ltb_of_leb : (a b : ℕ) → leb a b ≡ false → ltb b a ≡ true
ltb_of_leb a b h = ground arith

mode-valid :
    (o e : Option WallTime) (c w : Bool) → Holds (λ t. valid_mode c w t.0 t.1 ≡ true) (mode o e c w)
unfolding mode interval valid_mode
mode-valid o e true true = tt
mode-valid none none true false = refl
mode-valid none (some e) true false = tt
mode-valid (some o) e true false = tt
mode-valid none none false true = refl
mode-valid none (some e) false true = tt
mode-valid (some o) e false true = tt
mode-valid none e false false = tt
mode-valid (some o) none false false = tt
mode-valid (some o) (some e) false false = elim (Bool-cases (o.has_zone || e.has_zone)) [
  | inl t ↦ rw t tt
  | inr t ↦ elim (Bool-cases (leb e.time o.time)) [
    | inl u ↦ rw (t, u) tt
    | inr u ↦ rw (t, u) (ltb_of_leb e.time o.time u)
  ]
]

period-valid :
    (f u : Option Moment) → Holds (λ p. valid_period p.0 p.1 ≡ true) (effective_period f u)
unfolding effective_period valid_period
period-valid none none = refl
period-valid none (some u) = tt
period-valid (some f) none = tt
period-valid (some f) (some u) = elim (Bool-cases (not f.has_zone || not u.has_zone)) [
  | inl t ↦ rw t tt
  | inr t ↦ elim (Bool-cases (leb u.instant f.instant)) [
    | inl v ↦ rw (t, v) tt
    | inr v ↦ rw (t, v) (ltb_of_leb u.instant f.instant v)
  ]
]

size :
    (text : Text) (n : ℕ)
    → (is_empty text || ltb n (length text)) ≡ false
    → (1 ≤ length text) × (length text ≤ n)
size [] n h = cc
size (c ∷ text) n h = (omega arith, ltb→le n (suc (length text)) h)

timezone-valid :
    (known : Text → ZoneLookup) (value : Text)
    → Lets
        (λ zone. (known zone ≡ ZoneLookup.found) × (1 ≤ length zone) × (length zone ≤ 64))
        (timezone known value)
unfolding timezone
timezone-valid known value =
    elim (Bool-cases (is_empty (strip value) || ltb 64 (length (strip value)))) [
      | inl t ↦ record { checked = rw t tt }
      | inr t ↦ record { checked = rw t (key (known (strip value)) refl (size (strip value) 64 t)) }
    ]
  where
    key :
        (lookup : ZoneLookup)
        → known (strip value) ≡ lookup
        → (1 ≤ length (strip value)) × (length (strip value) ≤ 64)
        → Holds
            (λ zone. (known zone ≡ ZoneLookup.found) × (1 ≤ length zone) × (length zone ≤ 64))
            (looked_up (strip value) lookup)
    key ZoneLookup.found e h = unfold looked_up in (e, h.0, h.1)
    key ZoneLookup.missing e h = unfold looked_up in tt
    key ZoneLookup.malformed e h = unfold looked_up in tt

notes-valid :
    (value : Option Text)
    → Lets
        (λ noted. (text : Text) → noted ≡ some text → (1 ≤ length text) × (length text ≤ 500))
        (notes value)
unfolding notes
notes-valid none = record { checked = λ text e. cc }
notes-valid (some value) = elim (Bool-cases (is_empty (normalize value))) [
  | inl t ↦ record { checked = rw t (λ text e. cc) }
  | inr t ↦ elim (Bool-cases (ltb 500 (length (normalize value)))) [
    | inl u ↦ record { checked = rw (t, u) tt }
    | inr u ↦ record {
      checked =
          rw (t, u)
            (λ text e.
              subst (λ x. (1 ≤ length x) × (length x ≤ 500)) (some-injective _ text e)
                (size (normalize value) 500 (rw (t, u) refl)));
    }
  ]
]

module _ (known : Text → ZoneLookup) where
  pub validate_create-IsValid :
      (values : StoreHoursCreate) → Lets (IsValid known) (validate_create known values)
  unfolding validate_create
  validate_create-IsValid values = Lets-any (IsValid known) _ _ λ day.
      Lets-fail_if (IsValid known) _ _ _ _ λ small. Lets-any (IsValid known) _ _ λ priority.
        Lets-bind (IsValid known) _ _ _ (timezone-valid known values.timezone) λ zone zoned.
          Lets-bind (IsValid known) _ _ _ (notes-valid values.notes) λ noted written.
            Lets-then (IsValid known) _ _ _
              (mode-valid values.opening_time values.closing_time values.is_closed
                values.is_24_hours)
              λ times timed.
                Lets-then (IsValid known) _ _ _
                  (period-valid values.effective_from values.effective_until)
                  λ period dated. Lets-valid (IsValid known) _ (record {
                    its_columns = record {
                      weekday = ltb→le 6 day small;
                      zone_found = zoned.0;
                      zone_length = (zoned.1, zoned.2);
                      noted = written;
                    };
                    its_mode = timed;
                    its_period = dated;
                  })

  pub merge-IsValid :
      (current : StoreOperatingHours) (c : HoursChanges)
      → Lets (IsValid known) (merge known current c)
  unfolding merge
  merge-IsValid current c = Lets-any (IsValid known) _ _ λ _. Lets-any (IsValid known) _ _ λ day.
      Lets-any (IsValid known) _ _ λ zone. Lets-any (IsValid known) _ _ λ opening.
        Lets-any (IsValid known) _ _ λ closing. Lets-any (IsValid known) _ _ λ closed.
          Lets-any (IsValid known) _ _ λ all_day. Lets-any (IsValid known) _ _ λ start.
            Lets-any (IsValid known) _ _ λ end.
              Lets-any (IsValid known) _ _
                λ priority. Lets-any (IsValid known) _ _ λ noted. validate_create-IsValid _

-- two rules of the table: different rows, which do not overlap when they are siblings
abbrev pub Neighbours : StoreOperatingHours → StoreOperatingHours → Type 0
Neighbours a b = (a.id ≢ b.id) × Siblings a b

pub Neighbours-sym : (a b : StoreOperatingHours) → Neighbours a b → Neighbours b a
Neighbours-sym a b h = (λ e. h.0 (sym e), Siblings-sym a b h.1)

-- A rule with the columns that validation lets through.
pub record IsAdmitted (known : Text → ZoneLookup) (r : StoreOperatingHours) : Type 0 where
  pub rule : IsRule r
  pub columns : Columns known r.day_of_week r.timezone r.notes

-- The invariant of the table: every rule is one that validation lets through, identifiers are unique,
-- and no two kept rules of a store, a day and a priority overlap.
pub record HasHours (known : Text → ZoneLookup) (rules : List StoreOperatingHours) : Type 0 where
  pub rules_valid : All (IsAdmitted known) rules
  pub rules_apart : Apart Neighbours rules

-- What the test against the store shows: the candidate overlaps no other rule.
abbrev pub Fits : ℕ → ValidHours → Option ℕ → List StoreOperatingHours → Type 0
Fits store_id candidate exclude_id rules =
    All
      (λ r.
        r.store_id ≡ store_id
        → r.day_of_week ≡ candidate.day_of_week
        → r.priority ≡ candidate.priority
        → is_none r.deleted_at ≡ true
        → is_other exclude_id r ≡ true
        → rules_overlap r (hours_row store_id candidate 0 0) ≡ false)
      rules

pub fits :
    (store_id : ℕ) (candidate : ValidHours) (exclude_id : Option ℕ)
    (rules : List StoreOperatingHours)
    → any
        (λ r. rules_overlap r (hours_row store_id candidate 0 0))
        (select
          (λ r.
            (r.store_id == store_id)
            && (r.day_of_week == candidate.day_of_week)
            && (r.priority == candidate.priority)
            && is_none r.deleted_at
            && is_other exclude_id r)
          rules)
      ≡ false
    → Fits store_id candidate exclude_id rules
unfolding select
fits store_id candidate exclude_id [] h = tt
fits store_id candidate exclude_id (r ∷ rules) h =
    elim (Bool-cases (
      (r.store_id == store_id)
      && (r.day_of_week == candidate.day_of_week)
      && (r.priority == candidate.priority)
      && is_none r.deleted_at
      && is_other exclude_id r)) [
        | inl t ↦ elim (Bool-cases (rules_overlap r (hours_row store_id candidate 0 0))) [
          | inl u ↦ cc (rw (t, u) at h)
          | inr u ↦ (λ a b c d e. u, fits store_id candidate exclude_id rules (rw (t, u) at h))
        ]
        | inr t ↦ (
          λ a b c d e. absurd (
              not_all (r.store_id == store_id) (r.day_of_week == candidate.day_of_week)
                (r.priority == candidate.priority) (is_none r.deleted_at) (is_other exclude_id r)
                ((==_iff _ _).1 a) ((==_iff _ _).1 b) ((==_iff _ _).1 c) d e t),
          fits store_id candidate exclude_id rules (rw t at h),
        )
      ]
  where
    not_all :
        (a b c d e : Bool)
        → a ≡ true
        → b ≡ true
        → c ≡ true
        → d ≡ true
        → e ≡ true
        → (a && b && c && d && e) ≡ false
        → ⊥
    not_all a b c d e h i j k l m = ground arith

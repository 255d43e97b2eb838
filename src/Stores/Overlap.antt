-- ===== src/Stores/Overlap.antt =====
-- When two rules overlap: there is an instant at which both are effective, and a time of the day that
-- both speak of.
use apparel_network.Prelude.{
  ℕ, ◌≡◌, refl, ◌↔◌, Bool, true, false, Option, none, some, ◌&&◌, ◌||◌, ltb, is_none, arith,
  get_or_else, if◌then◌else◌, &&_split,
}
use apparel_network.Tables.Hours.{StoreOperatingHours}
use apparel_network.Stores.Schedule.{
  periods_overlap, intervals_overlap, rules_overlap, within, effective, contains,
}

-- `_validate_mode`: closed, open all day, or an interval
unfoldable pub valid_mode : Bool → Bool → Option ℕ → Option ℕ → Bool
valid_mode true true opening closing = false
valid_mode true false opening closing = is_none opening && is_none closing
valid_mode false true opening closing = is_none opening && is_none closing
valid_mode false false (some opening) (some closing) = ltb opening closing
valid_mode false false _ _ = false

-- `_effective_period`: both timestamps or none
unfoldable pub valid_period : Option ℕ → Option ℕ → Bool
valid_period none none = true
valid_period (some start) (some end) = ltb start end
valid_period _ _ = false

-- The mode and the period of a rule that `validate_create` lets through.
pub record IsRule (r : StoreOperatingHours) : Type 0 where
  pub mode : valid_mode r.is_closed r.is_24_hours r.opening_time r.closing_time ≡ true
  pub period : valid_period r.effective_from r.effective_until ≡ true

-- a rule speaks of a time of the day: it closes or opens the whole day, or the interval has the time
unfoldable pub occupies : StoreOperatingHours → ℕ → Bool
occupies r time = r.is_closed || r.is_24_hours || contains r.opening_time r.closing_time time

-- Two periods that overlap have an instant in common, the later of the two starts.
periods_meet :
    (f u f' u' : Option ℕ)
    → valid_period f u ≡ true
    → valid_period f' u' ≡ true
    → periods_overlap f u f' u' ≡ true
    → (t : ℕ) × (within f u t ≡ true) × (within f' u' t ≡ true)
unfolding valid_period periods_overlap
periods_meet none none none none v v' h = (0, refl, refl)
periods_meet none none (some s) (some e) v v' h = (s, refl, ground arith)
periods_meet (some s) (some e) none none v v' h = (s, ground arith, refl)
periods_meet (some s) (some e) (some s') (some e') v v' h =
    (if ltb s s' then s' else s, ground arith, ground arith)
periods_meet none (some u) f' u' v v' h = cc
periods_meet (some f) none f' u' v v' h = cc
periods_meet none none none (some u') v v' h = cc
periods_meet none none (some f') none v v' h = cc
periods_meet (some f) (some u) none (some u') v v' h = cc
periods_meet (some f) (some u) (some f') none v v' h = cc

pub periods_overlap-within :
    (f u f' u' : Option ℕ) (t : ℕ)
    → within f u t ≡ true
    → within f' u' t ≡ true
    → periods_overlap f u f' u' ≡ true
unfolding periods_overlap
periods_overlap-within none u f' u' t h h' = refl
periods_overlap-within (some f) none f' u' t h h' = refl
periods_overlap-within (some f) (some u) none u' t h h' = refl
periods_overlap-within (some f) (some u) (some f') none t h h' = refl
periods_overlap-within (some f) (some u) (some f') (some u') t h h' = ground arith

later : ℕ → ℕ → ℕ
later a b = if ltb a b then b else a

abbrev speaks : Bool → Bool → Option ℕ → Option ℕ → ℕ → Bool
speaks closed all_day opening closing time = closed || all_day || contains opening closing time

-- The later of the two openings is a time that both rules speak of.
times_meet :
    (c w : Bool) (o e : Option ℕ) (c' w' : Bool) (o' e' : Option ℕ)
    → valid_mode c w o e ≡ true
    → valid_mode c' w' o' e' ≡ true
    → ((c || w || c' || w') || intervals_overlap o e o' e') ≡ true
    → (speaks c w o e (later (get_or_else o 0) (get_or_else o' 0)) ≡ true)
      × (speaks c' w' o' e' (later (get_or_else o 0) (get_or_else o' 0)) ≡ true)
unfolding valid_mode intervals_overlap contains later
times_meet c w o e c' w' o' e' v v' h = ground arith

times_meet_inv :
    (c w : Bool) (o e : Option ℕ) (c' w' : Bool) (o' e' : Option ℕ) (t : ℕ)
    → speaks c w o e t ≡ true
    → speaks c' w' o' e' t ≡ true
    → ((c || w || c' || w') || intervals_overlap o e o' e') ≡ true
unfolding intervals_overlap contains
times_meet_inv c w o e c' w' o' e' t h h' = ground arith

-- an instant at which both rules are effective, and a time of the day that both speak of
abbrev pub Collide : StoreOperatingHours → StoreOperatingHours → Type 0
Collide a b =
    ((instant : ℕ) × (effective a instant ≡ true) × (effective b instant ≡ true))
    × ((time : ℕ) × (occupies a time ≡ true) × (occupies b time ≡ true))

-- The test that refuses a rule is exact: for two rules that validation lets through it is true just
-- when there is an instant at which both are effective and a time of the day that both speak of.
pub rules_overlap_iff :
    (a b : StoreOperatingHours) → IsRule a → IsRule b → (rules_overlap a b ≡ true) ↔ Collide a b
unfolding rules_overlap effective occupies
rules_overlap_iff a b valid valid' = (
  λ h.
      let (p, q) = &&_split _ _ h in
      let meeting =
        times_meet a.is_closed a.is_24_hours a.opening_time a.closing_time b.is_closed b.is_24_hours
          b.opening_time b.closing_time valid.mode valid'.mode q in
      (
        periods_meet a.effective_from a.effective_until b.effective_from b.effective_until
            valid.period valid'.period p,
        (later (get_or_else a.opening_time 0) (get_or_else b.opening_time 0), meeting.0, meeting.1),
      ),
  λ c.
      &&_join _ _
        (periods_overlap-within a.effective_from a.effective_until b.effective_from
          b.effective_until c.0.0 c.0.1 c.0.2)
        (times_meet_inv a.is_closed a.is_24_hours a.opening_time a.closing_time b.is_closed
          b.is_24_hours b.opening_time b.closing_time c.1.0 c.1.1 c.1.2),
)
  where
    &&_join : (p q : Bool) → p ≡ true → q ≡ true → (p && q) ≡ true
    &&_join p q h k = ground arith

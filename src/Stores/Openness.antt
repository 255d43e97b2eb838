-- ===== src/Stores/Openness.antt =====
-- When a store is open by its rules, said without the order in which the program looks: one rule that
-- governs the instant has the store open.
use apparel_network.Prelude.{
  ℕ, ◌≡◌, ◌≤◌, ◌<◌, refl, ◌↔◌, ◌⊎◌, inl, inr, Bool, true, false, not, Option, none, some, List,
  ◌&&◌, ◌||◌, All, arith,
}
use apparel_network.Prelude.Members.{Among}
use apparel_network.Tables.Hours.{StoreOperatingHours, is_temporary}
use apparel_network.Stores.Schedule.{effective, within, contains}
use apparel_network.Stores.Status.{covers}

-- the instant is in the period of the rule, if it has one: from the start on, before the end
abbrev pub InPeriod : StoreOperatingHours → ℕ → Type 0
InPeriod r instant =
    (r.effective_from ≡ none)
    ⊎ ((start : ℕ) × (end : ℕ) × (r.effective_from ≡ some start)
        × (r.effective_until ≡ some end)
        × (start ≤ instant)
        × (instant < end))

-- a rule of the day whose period has the instant
abbrev pub Speaks : ℕ → ℕ → StoreOperatingHours → Type 0
Speaks day instant r = (r.day_of_week ≡ day) × InPeriod r instant

-- A rule that governs the instant: it speaks, a permanent one only when no temporary one does, and no
-- other of its kind that speaks has a higher priority.
pub record Governs (day instant : ℕ) (rules : List StoreOperatingHours) (r : StoreOperatingHours)
    : Type 0 where
  pub listed : Among r rules
  pub speaks : Speaks day instant r
  pub temporary_first :
      (is_temporary r ≡ true) ⊎ All (λ x. Speaks day instant x → is_temporary x ≡ false) rules
  pub highest :
      All
        (λ x. Speaks day instant x → is_temporary x ≡ is_temporary r → x.priority ≤ r.priority)
        rules

-- the rule has the store open at the local time: all day, or from its opening on, before its closing
abbrev pub HasOpen : StoreOperatingHours → ℕ → Type 0
HasOpen r time =
    (r.is_closed ≡ false)
    × ((r.is_24_hours ≡ true)
        ⊎ ((opening : ℕ) × (closing : ℕ) × (r.opening_time ≡ some opening)
            × (r.closing_time ≡ some closing)
            × (opening ≤ time)
            × (time < closing)))

-- the store is open at an instant with this day and local time
abbrev pub IsOpen : (day instant time : ℕ) → List StoreOperatingHours → Type 0
IsOpen day instant time rules =
    (r : StoreOperatingHours) × Governs day instant rules r × HasOpen r time

within-InPeriod :
    (f u : Option ℕ) (instant : ℕ)
    → (within f u instant ≡ true) ↔ (
        (f ≡ none)
        ⊎ ((start : ℕ) × (end : ℕ) × (f ≡ some start)
            × (u ≡ some end)
            × (start ≤ instant)
            × (instant < end)))
within-InPeriod f u instant = (there f u, back f u)
  where
    there :
        (f u : Option ℕ)
        → within f u instant ≡ true
        → (f ≡ none)
          ⊎ ((start : ℕ) × (end : ℕ) × (f ≡ some start)
              × (u ≡ some end)
              × (start ≤ instant)
              × (instant < end))
    there none u h = inl refl
    there (some f) none h = cc
    there (some f) (some u) h = inr (f, u, refl, refl, ground arith, ground arith)

    back :
        (f u : Option ℕ)
        → (f ≡ none)
          ⊎ ((start : ℕ) × (end : ℕ) × (f ≡ some start)
              × (u ≡ some end)
              × (start ≤ instant)
              × (instant < end))
        → within f u instant ≡ true
    back none u h = refl
    back (some f) u (inl e) = cc
    back (some f) u (inr (start, end, e, e', h, k)) = rw (e, e') (ground arith)

pub covers-HasOpen : (r : StoreOperatingHours) (time : ℕ) → (covers r time ≡ true) ↔ HasOpen r time
unfolding covers contains
covers-HasOpen r time = iff r.is_closed r.is_24_hours r.opening_time r.closing_time
  where
    there :
        (o e : Option ℕ)
        → contains o e time ≡ true
        → (opening : ℕ) × (closing : ℕ) × (o ≡ some opening)
          × (e ≡ some closing)
          × (opening ≤ time)
          × (time < closing)
    there none e h = cc
    there (some o) none h = cc
    there (some o) (some e) h = (o, e, refl, refl, ground arith, ground arith)

    back :
        (o e : Option ℕ)
        → (false ≡ true)
          ⊎ ((opening : ℕ) × (closing : ℕ) × (o ≡ some opening)
              × (e ≡ some closing)
              × (opening ≤ time)
              × (time < closing))
        → contains o e time ≡ true
    back o e (inl h) = cc
    back o e (inr (opening, closing, x, y, h, k)) = rw (x, y) (ground arith)

    iff :
        (c w : Bool) (o e : Option ℕ)
        → ((not c && (w || contains o e time)) ≡ true) ↔ (
            (c ≡ false)
            × ((w ≡ true)
                ⊎ ((opening : ℕ) × (closing : ℕ) × (o ≡ some opening)
                    × (e ≡ some closing)
                    × (opening ≤ time)
                    × (time < closing))))
    iff true w o e = (λ h. cc, λ h. absurd (cc (h.0)))
    iff false true o e = (λ h. (refl, inl refl), λ h. refl)
    iff false false o e = (λ h. (refl, inr (there o e h)), λ h. back o e h.1)

pub effective-InPeriod :
    (r : StoreOperatingHours) (instant : ℕ) → (effective r instant ≡ true) ↔ InPeriod r instant
unfolding effective
effective-InPeriod r instant = within-InPeriod r.effective_from r.effective_until instant

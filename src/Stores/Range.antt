-- ===== src/Stores/Range.antt =====
-- The range of `datetime` in the search for the next transitions (`_next_transitions`).
use apparel_network.Prelude.{
  ℕ, suc, zero, ◌+◌, ◌-◌, ◌≡◌, ◌≤◌, ◌<◌, refl, sym, subst, Bool, true, false, Option, none, some,
  List, [], ◌∷◌, ◌==◌, All, All-append, All-select, All-sort_by, leb, ltb, Bool-cases, inl, inr,
  if◌then◌else◌, arith,
}
use mathlib.Core.Option.{some-injective}
use apparel_network.Tables.Hours.{StoreOperatingHours}
use apparel_network.Stores.Schedule.{Zone, Zones, weekday, timezone_of}
use apparel_network.Stores.Transitions.{
  given, last_date, add_boundary, day_boundaries, boundaries, period_ends, scan, upcoming,
  next_transitions,
}

-- A zone converts all instants up to a last one, and the boundaries of the days up to a last one are
-- earlier than that instant.
pub record IsInRange (zone : Zone) (last_instant last_day : ℕ) : Type 0 where
  pub converts : (t : ℕ) → t ≤ last_instant → zone.converts t ≡ true
  pub boundary :
      (date wall : ℕ)
      → date ≤ last_day
      → (t : ℕ) × (zone.boundary date wall ≡ some t) × (t < last_instant)
  pub days : last_day ≤ last_date

-- the period of a rule ends before an instant
abbrev pub EndsBefore : ℕ → StoreOperatingHours → Type 0
EndsBefore last r =
    ((t : ℕ) → r.effective_from ≡ some t → t < last)
    × ((t : ℕ) → r.effective_until ≡ some t → t < last)

-- the instants that were found, each before the last
abbrev Found : ℕ → Option (List ℕ) → Type 0
Found last candidates = (ts : List ℕ) × (candidates ≡ some ts) × All (λ t. t < last) ts

module _ (zone : Zone) (last last_day : ℕ) (range : IsInRange zone last last_day) where
  add_boundary-Found :
      (date : ℕ) (wall : Option ℕ) (candidates : Option (List ℕ))
      → date ≤ last_day
      → Found last candidates
      → Found last (add_boundary zone date wall candidates)
  unfolding add_boundary
  add_boundary-Found date wall none h found = cc (found.1)
  add_boundary-Found date none (some ts) h found = found
  add_boundary-Found date (some wall) (some ts) h found =
      let at = range.boundary date wall h in
      rw (at.1) (
        at.0 ∷ ts,
        refl,
        (at.2, subst (All (λ t. t < last)) (sym (some-injective ts found.0 found.1)) found.2),
      )

  day_boundaries-Found :
      (date : ℕ) (rules : List StoreOperatingHours) (candidates : Option (List ℕ))
      → date ≤ last_day
      → Found last candidates
      → Found last (day_boundaries zone date rules candidates)
  unfolding day_boundaries
  day_boundaries-Found date [] candidates h found = found
  day_boundaries-Found date (r ∷ rules) candidates h found =
      let later = day_boundaries-Found date rules candidates h found in
      elim (Bool-cases (r.day_of_week == weekday date)) [
        | inl t ↦ rw t (
            add_boundary-Found date r.opening_time _ h
              (add_boundary-Found date r.closing_time _ h later))
        | inr t ↦ rw t later
      ]

  boundaries-Found :
      (today : ℕ) (rules : List StoreOperatingHours) (days : ℕ)
      → today + days ≤ suc last_day
      → Found last (boundaries zone today rules days)
  unfolding boundaries
  boundaries-Found today rules zero h = ([], refl, tt)
  boundaries-Found today rules (suc offset) h =
      let rest = boundaries-Found today rules offset (omega arith) in
      rw (inside (today + offset) last_day (omega arith) range.days)
        (day_boundaries-Found (today + offset) rules _ (omega arith) rest)
    where
      inside : (date most : ℕ) → date ≤ most → most ≤ last_date → ltb last_date date ≡ false
      inside date most h k = ground arith

period_ends-before :
    (last : ℕ) (rules : List StoreOperatingHours)
    → All (EndsBefore last) rules
    → All (λ t. t < last) (period_ends rules)
unfolding period_ends
period_ends-before last [] h = tt
period_ends-before last (r ∷ rules) h =
    All-append _ (given r.effective_from) _ (one r.effective_from h.0.0) (
      All-append _ (given r.effective_until) _ (one r.effective_until h.0.1)
        (period_ends-before last rules h.1))
  where
    one : (o : Option ℕ) → ((t : ℕ) → o ≡ some t → t < last) → All (λ t. t < last) (given o)
    one none f = tt
    one (some t) f = (f t refl, tt)

module _ (zones : Zones) (rules : List StoreOperatingHours) (last last_day : ℕ)
    (range : IsInRange (zones (timezone_of rules)) last last_day) where
  scan-some :
      (candidates : List ℕ) (found : Option ℕ × Option ℕ)
      → All (λ t. t < last) candidates
      → (transitions : Option ℕ × Option ℕ) × (scan zones rules candidates found ≡ some transitions)
  unfolding scan
  scan-some [] found h = (found, refl)
  scan-some (t ∷ ts) (opening, closing) h =
      rw (range.converts (t - 1) (omega (arith, h.0)), range.converts (t + 1) (omega (arith, h.0)))
        (pick _ _ _ (scan-some ts _ h.1))
    where
      pick :
          (b : Bool) (x : Option ℕ × Option ℕ) (o : Option (Option ℕ × Option ℕ))
          → (transitions : Option ℕ × Option ℕ) × (o ≡ some transitions)
          → (transitions : Option ℕ × Option ℕ) × ((if b then some x else o) ≡ some transitions)
      pick true x o h = (x, refl)
      pick false x o h = h

  -- The transitions are found.
  pub next_transitions-some :
      (instant : ℕ)
      → (zones (timezone_of rules)).local_date instant + 14 ≤ last_day
      → All (EndsBefore last) rules
      → (transitions : Option ℕ × Option ℕ) × (next_transitions zones rules instant
          ≡ some transitions)
  unfolding next_transitions upcoming
  next_transitions-some instant days ends =
      let found =
        boundaries-Found (zones (timezone_of rules)) last last_day range
          ((zones (timezone_of rules)).local_date instant) rules 15 (omega arith) in
      rw (found.1) (
        scan-some _ (none, none)
          (All-sort_by (λ t. t < last) leb _
            (All-select (λ t. t < last) (λ t. ltb instant t) _
              (All-append (λ t. t < last) found.0 _ found.2 (period_ends-before last rules ends)))))

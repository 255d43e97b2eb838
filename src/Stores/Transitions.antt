-- ===== src/Stores/Transitions.antt =====
-- `_next_transitions` of stores/application/operating_hours_services.py: when the store opens and closes
-- next. The result is nothing when a date or an instant leaves the range of `datetime`. The set of
-- candidates is a list that may have one twice.
use apparel_network.Prelude.{
  ℕ, suc, zero, ◌+◌, ◌-◌, Bool, not, Option, none, some, List, [], ◌∷◌, ◌++◌, ◌&&◌, ◌==◌, ltb, leb,
  is_some, select, sort_by, if◌then◌else◌,
}
use apparel_network.Tables.Hours.{StoreOperatingHours}
use apparel_network.Stores.Schedule.{Zone, Zones, weekday, timezone_of, open_now}

-- `date.max.toordinal()`
abbrev pub last_date : ℕ
last_date = 3_652_059

-- `candidates.add(_local_boundary(...))` for a time that a rule has
unfoldable pub add_boundary : Zone → ℕ → Option ℕ → Option (List ℕ) → Option (List ℕ)
add_boundary zone date wall none = none
add_boundary zone date none (some candidates) = some candidates
add_boundary zone date (some wall) (some candidates) = added (zone.boundary date wall)
  where
    added : Option ℕ → Option (List ℕ)
    added none = none
    added (some instant) = some (instant ∷ candidates)

-- the boundaries of the rules of one date
unfoldable pub day_boundaries :
    Zone → ℕ → List StoreOperatingHours → Option (List ℕ) → Option (List ℕ)
unfolding weekday add_boundary
day_boundaries zone date [] candidates = candidates
day_boundaries zone date (rule ∷ rules) candidates =
    let later = day_boundaries zone date rules candidates in
    if rule.day_of_week == weekday date
    then add_boundary zone date rule.opening_time (add_boundary zone date rule.closing_time later)
    else later

-- the loop over the days, from the last one down
unfoldable pub boundaries : Zone → ℕ → List StoreOperatingHours → ℕ → Option (List ℕ)
unfolding day_boundaries
boundaries zone today rules zero = some []
boundaries zone today rules (suc offset) =
    let rest = boundaries zone today rules offset in
    if ltb last_date (today + offset) then none else day_boundaries zone (today + offset) rules rest

abbrev pub given : Option ℕ → List ℕ
given none = []
given (some instant) = instant ∷ []

-- the ends of the periods of the rules
unfoldable pub period_ends : List StoreOperatingHours → List ℕ
period_ends [] = []
period_ends (rule ∷ rules) =
    given rule.effective_from ++ (given rule.effective_until ++ period_ends rules)

-- `if turns and known is None: known = candidate`
abbrev pub first_turn : Bool → Option ℕ → ℕ → Option ℕ
first_turn turns (some known) candidate = some known
first_turn turns none candidate = if turns then some candidate else none

-- the loop over the sorted candidates; a candidate that comes twice changes nothing the second time
unfoldable pub scan :
    Zones → List StoreOperatingHours → List ℕ → Option ℕ × Option ℕ → Option (Option ℕ × Option ℕ)
scan zones rules [] found = some found
scan zones rules (candidate ∷ candidates) (opening, closing) =
    let zone = zones (timezone_of rules) in
    let before = open_now zones rules (candidate - 1) in
    let after = open_now zones rules (candidate + 1) in
    let found : Option ℕ × Option ℕ = (
      first_turn (not before && after) opening candidate,
      first_turn (before && not after) closing candidate,
    ) in
    let rest = scan zones rules candidates found in
    if not (zone.converts (candidate - 1) && zone.converts (candidate + 1))
    then none
    else if is_some found.0 && is_some found.1
    then some found
    else rest

abbrev pub ordered : (List ℕ → List ℕ) → Option (List ℕ) → Option (List ℕ)
ordered f none = none
ordered f (some ts) = some (f ts)

-- the candidates, in order
unfoldable pub upcoming : Zone → List StoreOperatingHours → ℕ → Option (List ℕ)
unfolding boundaries period_ends
upcoming zone rules instant =
    ordered (λ instants. sort_by leb (select (λ t. ltb instant t) (instants ++ period_ends rules)))
      (boundaries zone (zone.local_date instant) rules 15)

abbrev pub scanned :
    Zones → List StoreOperatingHours → Option (List ℕ) → Option (Option ℕ × Option ℕ)
scanned zones rules none = none
scanned zones rules (some candidates) = scan zones rules candidates (none, none)

-- `_next_transitions`
unfoldable pub next_transitions :
    Zones → List StoreOperatingHours → ℕ → Option (Option ℕ × Option ℕ)
unfolding upcoming scan
next_transitions zones rules instant =
    scanned zones rules (upcoming (zones (timezone_of rules)) rules instant)

-- ===== src/Stores/Schedule.antt =====
-- The pure parts of `StoreOperatingHoursService` of stores/application/operating_hours_services.py:
-- which rules overlap, which are in force at an instant, and whether the store is open then. What the
-- zone database knows is a parameter.
use apparel_network.Prelude.{
  ℕ, ◌+◌, ◌%◌, Bool, true, false, not, Option, none, some, List, [], ◌∷◌, ◌&&◌, ◌||◌, ◌==◌, leb,
  ltb, get_or_else, select, sort_by, if◌then◌else◌,
}
use apparel_network.Prelude.Text.{Text, codes}
use apparel_network.Tables.Hours.{StoreOperatingHours, is_temporary}

-- `ZoneInfo(key)`: whether `astimezone` converts an instant or raises an OverflowError, the date and the
-- wall-clock time that it gives, and the instant of a wall-clock time on a date, or nothing for an
-- OverflowError. Dates are proleptic ordinals, as `date.toordinal` gives them.
pub record Zone : Type 0 where
  pub converts : ℕ → Bool
  pub local_date : ℕ → ℕ
  pub local_time : ℕ → ℕ
  pub boundary : (local_date wall_time : ℕ) → Option ℕ

-- the zones by their key
abbrev pub Zones : Type 0
Zones = Text → Zone

-- `date.weekday`
unfoldable pub weekday : ℕ → ℕ
weekday date = (date + 6) % 7

-- `_periods_overlap`
unfoldable pub periods_overlap : Option ℕ → Option ℕ → Option ℕ → Option ℕ → Bool
periods_overlap (some left_start) (some left_end) (some right_start) (some right_end) =
    ltb left_start right_end && ltb right_start left_end
periods_overlap _ _ _ _ = true

-- the end of `_rules_overlap`: four times that must be there
unfoldable pub intervals_overlap : Option ℕ → Option ℕ → Option ℕ → Option ℕ → Bool
intervals_overlap (some opening) (some closing) (some opening') (some closing') =
    ltb opening closing' && ltb opening' closing
intervals_overlap _ _ _ _ = false

-- `_rules_overlap`
unfoldable pub rules_overlap : StoreOperatingHours → StoreOperatingHours → Bool
unfolding periods_overlap intervals_overlap
rules_overlap existing candidate =
    periods_overlap existing.effective_from existing.effective_until candidate.effective_from
      candidate.effective_until
    && ((existing.is_closed || existing.is_24_hours || candidate.is_closed || candidate.is_24_hours)
        || intervals_overlap existing.opening_time existing.closing_time candidate.opening_time
            candidate.closing_time)

-- `_effective`
abbrev pub within : Option ℕ → Option ℕ → ℕ → Bool
within none until instant = true
within (some start) none instant = false
within (some start) (some end) instant = leb start instant && ltb instant end

unfoldable pub effective : StoreOperatingHours → ℕ → Bool
effective rule instant = within rule.effective_from rule.effective_until instant

-- `DEFAULT_STORE_TIMEZONE` and `_timezone`
unfoldable pub timezone_of : List StoreOperatingHours → Text
timezone_of [] = codes "Asia/Kolkata"
timezone_of (rule ∷ rules) = rule.timezone

-- `StoreSchedule`
pub record StoreSchedule : Type 0 where
  pub store_id : ℕ
  pub day_of_week : ℕ
  pub timezone : Text
  pub priority : ℕ
  pub intervals : List StoreOperatingHours
  pub is_temporary_override : Bool

-- `max(rule.priority for rule in ...)`
unfoldable pub top_priority : List StoreOperatingHours → ℕ
top_priority [] = 0
top_priority (rule ∷ rules) =
    let rest = top_priority rules in if leb rest rule.priority then rule.priority else rest

-- the key `(opening_time or time.min, str(id))`
unfoldable pub opens_before : StoreOperatingHours → StoreOperatingHours → Bool
opens_before a b =
    let x = get_or_else a.opening_time 0 in
    let y = get_or_else b.opening_time 0 in ltb x y || ((x == y) && leb a.id b.id)

-- the rules of the day that are effective
unfoldable pub eligible : ℕ → ℕ → List StoreOperatingHours → List StoreOperatingHours
unfolding effective
eligible day instant rules =
    select (λ rule. (rule.day_of_week == day) && effective rule instant) rules

-- `temporary or [permanent ...]`
abbrev pub prefer : List StoreOperatingHours → List StoreOperatingHours → List StoreOperatingHours
prefer [] permanent = permanent
prefer (rule ∷ temporary) permanent = rule ∷ temporary

unfoldable pub selected_pool : List StoreOperatingHours → List StoreOperatingHours
selected_pool rules = prefer (select is_temporary rules) (select (λ r. not (is_temporary r)) rules)

-- the rules in force, in order
unfoldable pub in_force : ℕ → ℕ → List StoreOperatingHours → List StoreOperatingHours
unfolding eligible selected_pool top_priority opens_before
in_force day instant rules =
    let pool = selected_pool (eligible day instant rules) in
    sort_by opens_before (select (λ rule. rule.priority == top_priority pool) pool)

-- the `StoreSchedule` of the rules in force
abbrev pub schedule_of : ℕ → Text → List StoreOperatingHours → Option StoreSchedule
schedule_of day timezone [] = none
schedule_of day timezone (first ∷ others) = some (record {
  store_id = first.store_id;
  day_of_week = day;
  timezone = timezone;
  priority = first.priority;
  intervals = first ∷ others;
  is_temporary_override = is_temporary first;
})

-- `local.weekday()` of an instant
unfoldable pub local_day : Zones → List StoreOperatingHours → ℕ → ℕ
unfolding weekday timezone_of
local_day zones rules instant = weekday ((zones (timezone_of rules)).local_date instant)

-- `_resolve`
unfoldable pub resolve : Zones → List StoreOperatingHours → ℕ → Option StoreSchedule
unfolding local_day timezone_of in_force
resolve zones rules instant =
    let day = local_day zones rules instant in
    schedule_of day (timezone_of rules) (in_force day instant rules)

-- `OperatingInterval` of a rule that has both times
unfoldable pub contains : Option ℕ → Option ℕ → ℕ → Bool
contains (some opening) (some closing) time = leb opening time && ltb time closing
contains _ _ time = false

-- the loop of `_open_details`, its first and last results: whether the store is open, and whether it
-- is so all day
unfoldable pub open_in : List StoreOperatingHours → ℕ → Bool × Bool
unfolding contains
open_in [] time = (false, false)
open_in (rule ∷ rules) time =
    let later = open_in rules time in
    if rule.is_closed
    then (false, false)
    else if rule.is_24_hours
    then (true, true)
    else if contains rule.opening_time rule.closing_time time
    then (true, false)
    else later

-- the second result of that loop: the interval that has the time
unfoldable pub interval_in : List StoreOperatingHours → ℕ → Option (ℕ × ℕ)
unfolding contains
interval_in [] time = none
interval_in (rule ∷ rules) time =
    let later = interval_in rules time in
    if rule.is_closed || rule.is_24_hours
    then none
    else if contains rule.opening_time rule.closing_time time
    then some (get_or_else rule.opening_time 0, get_or_else rule.closing_time 0)
    else later

-- `_open_details`, without the interval, which `interval_in` finds
unfoldable pub open_details : Zones → Option StoreSchedule → ℕ → Bool × Bool
unfolding open_in
open_details zones none instant = (false, false)
open_details zones (some schedule) instant =
    open_in schedule.intervals ((zones schedule.timezone).local_time instant)

-- `_state_for_rule`: whether a rule by itself has the store open
unfoldable pub state_for_rule : Zones → StoreOperatingHours → ℕ → Bool
unfolding contains
state_for_rule zones rule instant =
    if rule.is_closed
    then false
    else rule.is_24_hours
      || contains rule.opening_time rule.closing_time ((zones rule.timezone).local_time instant)

-- `open_now` of `status`
unfoldable pub open_now : Zones → List StoreOperatingHours → ℕ → Bool
unfolding resolve open_details
open_now zones rules instant = (open_details zones (resolve zones rules instant) instant).0

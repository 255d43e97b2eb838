-- ===== src/Stores/Validation.antt =====
-- `StoreOperatingHoursValidationService` of stores/application/operating_hours_services.py.
use apparel_network.Prelude.{
  ℕ, Bool, true, false, not, Option, none, some, ◌&&◌, ◌||◌, is_some, is_none, is_empty, leb, ltb,
  length, if◌then◌else◌,
}
use apparel_network.Prelude.Int.{ℤ, pos}
use apparel_network.Prelude.Text.{Text, strip, normalize}
use apparel_network.Errors.{AppError, validation, value_error}
use apparel_network.Session.Checked.{Checked, ◌then_check◌, fail_if}
use apparel_network.Inventory.Validation.{Dynamic}
use apparel_network.Tables.Hours.{StoreOperatingHours}

-- A `time` and a `datetime` of a request, and whether they have a `tzinfo`.
pub record WallTime : Type 0 where
  pub time : ℕ
  pub has_zone : Bool

pub record Moment : Type 0 where
  pub instant : ℕ
  pub has_zone : Bool

pub record StoreHoursCreate : Type 0 where
  pub day_of_week : ℤ
  pub timezone : Text
  pub opening_time : Option WallTime
  pub closing_time : Option WallTime
  pub is_closed : Bool
  pub is_24_hours : Bool
  pub effective_from : Option Moment
  pub effective_until : Option Moment
  pub priority : ℤ
  pub notes : Option Text

-- What `validate_create` returns: the values of the columns.
pub record ValidHours : Type 0 where
  pub day_of_week : ℕ
  pub timezone : Text
  pub opening_time : Option ℕ
  pub closing_time : Option ℕ
  pub is_closed : Bool
  pub is_24_hours : Bool
  pub effective_from : Option ℕ
  pub effective_until : Option ℕ
  pub priority : ℕ
  pub notes : Option Text

-- the tests on `day_of_week` and on `priority`
unfoldable pub natural : ℤ → AppError → Checked ℕ
natural (pos n) e = Checked.valid n
natural _ e = Checked.invalid e

-- What `ZoneInfo(key)` does: it returns, or raises ZoneInfoNotFoundError or another ValueError.
pub data ZoneLookup : Type 0 where
  found missing malformed : ZoneLookup

-- the `try` of `timezone`
unfoldable pub looked_up : Text → ZoneLookup → Checked Text
looked_up key ZoneLookup.found = Checked.valid key
looked_up key ZoneLookup.missing =
    Checked.invalid (validation "timezone" "Timezone must be a valid IANA name.")
looked_up key ZoneLookup.malformed = Checked.invalid (value_error "ZoneInfo")

-- `timezone`
unfoldable pub timezone : (Text → ZoneLookup) → Text → Checked Text
unfolding looked_up
timezone known value =
    let normalized = strip value in
    if is_empty normalized || ltb 64 (length normalized)
    then Checked.invalid (validation "timezone" "Timezone must be a valid IANA name.")
    else looked_up normalized (known normalized)

-- `notes`
unfoldable pub notes : Option Text → Checked (Option Text)
notes none = Checked.valid none
notes (some value) =
    let normalized = normalize value in
    if is_empty normalized
    then Checked.valid none
    else if ltb 500 (length normalized)
    then Checked.invalid (validation "notes" "Notes cannot exceed 500 characters.")
    else Checked.valid (some normalized)

-- the end of `_validate_mode`, on an interval
unfoldable pub interval : Option WallTime → Option WallTime → Checked (Option ℕ × Option ℕ)
interval (some opening) (some closing) =
    if opening.has_zone || closing.has_zone
    then Checked.invalid
        (validation "opening_time" "Wall-clock times must not include a timezone offset.")
    else if leb closing.time opening.time
    then Checked.invalid (validation "closing_time" "Closing time must be later than opening time.")
    else Checked.valid (some opening.time, some closing.time)
interval _ _ =
    Checked.invalid
      (validation "opening_time" "Opening and closing times are required for an interval.")

-- `_validate_mode`, with the times that pass it
unfoldable pub mode :
    Option WallTime → Option WallTime → Bool → Bool → Checked (Option ℕ × Option ℕ)
unfolding interval
mode opening closing is_closed is_24_hours =
    if is_closed && is_24_hours
    then Checked.invalid
        (validation "is_closed" "A schedule cannot be both closed and open 24 hours.")
    else if is_closed || is_24_hours
    then (if is_some opening || is_some closing
        then Checked.invalid
            (validation "opening_time" "Closed and 24-hour schedules cannot define opening times.")
        else Checked.valid (none, none))
    else interval opening closing

-- `_effective_period`
unfoldable pub effective_period : Option Moment → Option Moment → Checked (Option ℕ × Option ℕ)
effective_period none none = Checked.valid (none, none)
effective_period (some start) (some end) =
    if not start.has_zone || not end.has_zone
    then Checked.invalid
        (validation "effective_from" "Effective timestamps must be timezone-aware.")
    else if leb end.instant start.instant
    then Checked.invalid
        (validation "effective_until" "Effective end must be later than effective start.")
    else Checked.valid (some start.instant, some end.instant)
effective_period _ _ =
    Checked.invalid
      (validation "effective_from" "Temporary schedules require both effective timestamps.")

-- `validate_create`; `known` says which keys `ZoneInfo` accepts
unfoldable pub validate_create : (Text → ZoneLookup) → StoreHoursCreate → Checked ValidHours
unfolding natural timezone notes mode effective_period
validate_create known values =
    natural values.day_of_week (validation "day_of_week" "Day must be between 0 and 6.")
    then_check λ day.
        fail_if (ltb 6 day) "day_of_week" "Day must be between 0 and 6." then_check λ _.
        natural values.priority (validation "priority" "Priority cannot be negative.")
        then_check λ priority. timezone known values.timezone then_check λ zone.
            notes values.notes then_check λ noted.
            mode values.opening_time values.closing_time values.is_closed values.is_24_hours
            then_check λ times.
                effective_period values.effective_from values.effective_until then_check λ period.
                Checked.valid (record {
                  day_of_week = day;
                  timezone = zone;
                  opening_time = times.0;
                  closing_time = times.1;
                  is_closed = values.is_closed;
                  is_24_hours = values.is_24_hours;
                  effective_from = period.0;
                  effective_until = period.1;
                  priority = priority;
                  notes = noted;
                })

-- `StoreHoursUpdate.values`: the supported fields that the mapping has, and whether it has others.
pub record HoursChanges : Type 0 where
  pub day_of_week : Option (Dynamic ℤ)
  pub timezone : Option (Dynamic Text)
  pub opening_time : Option (Dynamic WallTime)
  pub closing_time : Option (Dynamic WallTime)
  pub is_closed : Option (Dynamic Bool)
  pub is_24_hours : Option (Dynamic Bool)
  pub effective_from : Option (Dynamic Moment)
  pub effective_until : Option (Dynamic Moment)
  pub priority : Option (Dynamic ℤ)
  pub notes : Option (Dynamic Text)
  pub has_unsupported : Bool

-- `_integer`, `_string` and `_boolean`, of the new value or the current one
unfoldable pub required : {A : Type 0} → Option (Dynamic A) → A → AppError → Checked A
required none current e = Checked.valid current
required (some (Dynamic.typed a)) current e = Checked.valid a
required (some _) current e = Checked.invalid e

-- `_optional_string`, `_optional_time` and `_optional_datetime`
unfoldable pub optional :
    {A : Type 0} → Option (Dynamic A) → Option A → AppError → Checked (Option A)
optional none current e = Checked.valid current
optional (some (Dynamic.typed a)) current e = Checked.valid (some a)
optional (some Dynamic.null) current e = Checked.valid none
optional (some Dynamic.mistyped) current e = Checked.invalid e

abbrev pub local : Option ℕ → Option WallTime
local none = none
local (some t) = some (record { time = t; has_zone = false })

abbrev pub aware : Option ℕ → Option Moment
aware none = none
aware (some t) = some (record { instant = t; has_zone = true })

unfoldable pub changes_nothing : HoursChanges → Bool
changes_nothing c =
    is_none c.day_of_week
    && is_none c.timezone
    && is_none c.opening_time
    && is_none c.closing_time
    && is_none c.is_closed
    && is_none c.is_24_hours
    && is_none c.effective_from
    && is_none c.effective_until
    && is_none c.priority
    && is_none c.notes

-- `merge`
unfoldable pub merge : (Text → ZoneLookup) → StoreOperatingHours → HoursChanges → Checked ValidHours
unfolding required optional changes_nothing
merge known current c =
    fail_if (changes_nothing c || c.has_unsupported) "body"
      "At least one supported field is required."
    then_check λ _.
        required c.day_of_week (pos current.day_of_week)
          (validation "day_of_week" "day_of_week must be an integer.")
        then_check λ day.
            required c.timezone current.timezone
              (validation "timezone" "timezone must be a string.")
            then_check λ zone.
                optional c.opening_time (local current.opening_time)
                  (validation "opening_time" "opening_time must be a local time or null.")
                then_check λ opening.
                    optional c.closing_time (local current.closing_time)
                      (validation "closing_time" "closing_time must be a local time or null.")
                    then_check λ closing.
                        required c.is_closed current.is_closed
                          (validation "is_closed" "is_closed must be a boolean.")
                        then_check λ closed.
                            required c.is_24_hours current.is_24_hours
                              (validation "is_24_hours" "is_24_hours must be a boolean.")
                            then_check λ all_day.
                                optional c.effective_from (aware current.effective_from) (
                                  validation "effective_from"
                                    "effective_from must be a timestamp or null.")
                                then_check λ start.
                                    optional c.effective_until (aware current.effective_until) (
                                      validation "effective_until"
                                        "effective_until must be a timestamp or null.")
                                    then_check λ end.
                                        required c.priority (pos current.priority)
                                          (validation "priority" "priority must be an integer.")
                                        then_check λ priority.
                                            optional c.notes current.notes
                                              (validation "notes" "notes must be a string or null.")
                                            then_check λ noted. validate_create known (record {
                                              day_of_week = day;
                                              timezone = zone;
                                              opening_time = opening;
                                              closing_time = closing;
                                              is_closed = closed;
                                              is_24_hours = all_day;
                                              effective_from = start;
                                              effective_until = end;
                                              priority = priority;
                                              notes = noted;
                                            })

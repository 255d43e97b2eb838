-- ===== src/Stores/Service.antt =====
-- `StoreOperatingHoursService` of stores/application/operating_hours_services.py, with the queries of
-- stores/infrastructure/persistence/operating_hours_repositories.py. The advisory lock of a day and a
-- priority orders concurrent requests, which are sequences here.
use apparel_network.Prelude.{
  ℕ, ◌+◌, String, Bool, true, false, not, Option, none, some, List, [], ◌∷◌, ◌++◌, ◌&&◌, ◌||◌, ◌==◌,
  ◌!=◌, is_none, is_some, any, leb, ltb, scalar, select, sort_by, save, get_or_else, if◌then◌else◌,
}
use apparel_network.Prelude.Text.{Text, eq_text}
use apparel_network.Errors.{AppError, not_found, conflict, validation, value_error}
use apparel_network.Tables.Inventory.{Store}
use apparel_network.Tables.Hours.{StoreOperatingHours}
use apparel_network.Session.{
  Action, Tables, return, gets, fetch, modify, require, raise_if, now_utc, db_now, uuid7,
  update_where, ◌>>=◌, ◌>>◌,
}
use apparel_network.Session.Checked.{raise_invalid}
use apparel_network.Stores.Schedule.{
  Zones, StoreSchedule, rules_overlap, effective, state_for_rule, resolve, open_now, open_details,
  interval_in, timezone_of,
}
use apparel_network.Stores.Transitions.{next_transitions}
use apparel_network.Stores.Validation.{
  ZoneLookup, StoreHoursCreate, ValidHours, HoursChanges, validate_create, merge,
}

-- `get_for_owner` of the repository of stores
unfoldable pub get_store_for_owner : ℕ → ℕ → Tables → Option Store
get_store_for_owner store_id owner_id db =
    scalar (λ s. (s.id == store_id) && (s.owner_id == owner_id) && is_none s.deleted_at) db.stores

abbrev pub hours_key : StoreOperatingHours → ℕ
hours_key rule = rule.id

unfoldable pub store_hours : StoreOperatingHours → Tables → Tables
store_hours rule db = record db { hours = save hours_key rule db.hours }

-- the row of `add`; `id` and the times are the database's
unfoldable pub hours_row : ℕ → ValidHours → ℕ → ℕ → StoreOperatingHours
hours_row store_id values id now = record {
  id = id;
  store_id = store_id;
  day_of_week = values.day_of_week;
  timezone = values.timezone;
  opening_time = values.opening_time;
  closing_time = values.closing_time;
  is_closed = values.is_closed;
  is_24_hours = values.is_24_hours;
  effective_from = values.effective_from;
  effective_until = values.effective_until;
  priority = values.priority;
  notes = values.notes;
  created_at = now;
  updated_at = now;
  deleted_at = none;
  version = 1;
}

-- `add`: the database refuses a primary key that it has
unfoldable pub add : ℕ → ValidHours → Action StoreOperatingHours
unfolding hours_row
add store_id values = do
  id ← uuid7
  now ← db_now
  refused ← gets λ db. any (λ r. r.id == id) db.hours
  raise_if refused (value_error "IntegrityError")
  modify λ db. record db { hours = db.hours ++ hours_row store_id values id now ∷ [] }
  return (hours_row store_id values id now)

-- `get`
unfoldable pub get : ℕ → ℕ → Tables → Option StoreOperatingHours
get store_id schedule_id db =
    scalar (λ r. (r.id == schedule_id) && (r.store_id == store_id) && is_none r.deleted_at) db.hours

-- the order of `list_for_store`: nulls first among the opening times
unfoldable pub listed_before : StoreOperatingHours → StoreOperatingHours → Bool
listed_before a b =
    ltb a.day_of_week b.day_of_week
    || ((a.day_of_week == b.day_of_week)
        && (ltb b.priority a.priority
            || ((a.priority == b.priority)
                && (ltb (opening a.opening_time) (opening b.opening_time)
                    || ((opening a.opening_time == opening b.opening_time) && leb a.id b.id)))))
  where
    opening : Option ℕ → ℕ
    opening none = 0
    opening (some t) = t + 1

-- `effective_until IS NULL OR effective_until > now()`
unfoldable pub unexpired : ℕ → StoreOperatingHours → Bool
unexpired now r = not (is_some r.effective_until) || ltb now (get_or_else r.effective_until 0)

-- `list_for_store`
unfoldable pub list_for_store : ℕ → Bool → ℕ → Tables → List StoreOperatingHours
unfolding listed_before unexpired
list_for_store store_id include_expired now db = sort_by listed_before (
    select
      (λ r.
        (r.store_id == store_id) && is_none r.deleted_at && (include_expired || unexpired now r))
      db.hours)

-- `rule.id != exclude_id`
unfoldable pub is_other : Option ℕ → StoreOperatingHours → Bool
is_other none r = true
is_other (some exclude_id) r = r.id != exclude_id

-- `find_conflicts`
unfoldable pub find_conflicts : ℕ → ValidHours → Option ℕ → Tables → List StoreOperatingHours
unfolding is_other
find_conflicts store_id candidate exclude_id db =
    select
      (λ r.
        (r.store_id == store_id)
        && (r.day_of_week == candidate.day_of_week)
        && (r.priority == candidate.priority)
        && is_none r.deleted_at
        && is_other exclude_id r)
      db.hours

-- the assignments of `update`
unfoldable pub update_row : ValidHours → ℕ → StoreOperatingHours → StoreOperatingHours
update_row values now rule = record rule {
  day_of_week = values.day_of_week;
  timezone = values.timezone;
  opening_time = values.opening_time;
  closing_time = values.closing_time;
  is_closed = values.is_closed;
  is_24_hours = values.is_24_hours;
  effective_from = values.effective_from;
  effective_until = values.effective_until;
  priority = values.priority;
  notes = values.notes;
  updated_at = now;
  version = rule.version + 1;
}

unfoldable pub select_version : ℕ → ℕ → ℕ → Tables → Option StoreOperatingHours
select_version store_id schedule_id version db =
    scalar
      (λ r.
        (r.id == schedule_id)
        && (r.store_id == store_id)
        && is_none r.deleted_at
        && (r.version == version))
      db.hours

-- the assignments of `soft_delete`
unfoldable pub delete_row : ℕ → ℕ → StoreOperatingHours → StoreOperatingHours
delete_row deleted_at now rule = record rule {
  deleted_at = some deleted_at;
  updated_at = now;
  version = rule.version + 1;
}

-- What `StoreOperatingHoursAuditService.publish` hands to the publisher of the application, which is
-- outside; a handler returns its events with its result.
pub record HoursEvent : Type 0 where
  pub event_name : String
  pub store_id : ℕ
  pub schedule_id : ℕ
  pub is_open : Bool

unfoldable pub hours_event : String → StoreOperatingHours → Bool → HoursEvent
hours_event name rule is_open = record {
  event_name = name;
  store_id = rule.store_id;
  schedule_id = rule.id;
  is_open = is_open;
}

abbrev pub schedule_modified : AppError
schedule_modified = conflict "The schedule was modified by another request."

-- `_owned_store`
unfoldable pub owned_store : ℕ → ℕ → Action Store
owned_store store_id owner_id = fetch (get_store_for_owner store_id owner_id) (not_found "Store")

-- `_validate_against_store`, with the candidate as a row for the test of an overlap
unfoldable pub validate_against_store : ℕ → ValidHours → Option ℕ → Action Unit
unfolding list_for_store is_other find_conflicts hours_row
validate_against_store store_id candidate exclude_id = do
  now ← db_now
  rules ← gets (list_for_store store_id false now)
  raise_if (any (λ r. is_other exclude_id r && not (eq_text r.timezone candidate.timezone)) rules)
      (validation "timezone" "All active schedules for a Store must use one timezone.")
  conflicts ← gets (find_conflicts store_id candidate exclude_id)
  raise_if (any (λ r. rules_overlap r (hours_row store_id candidate 0 0)) conflicts)
      (conflict "The schedule overlaps another interval at the same priority.")

-- the events of `create`: the rule may be in force at once
unfoldable pub created_events : StoreOperatingHours → Bool → ℕ → List HoursEvent
unfolding hours_event
created_events rule is_open instant =
    hours_event "store.hours.created" rule is_open
    ∷ (if effective rule instant
        then hours_event "store.schedule.activated" rule is_open ∷ []
        else [])

-- the events of `update`: the rule may be in force, or over
unfoldable pub updated_events : StoreOperatingHours → Bool → ℕ → List HoursEvent
unfolding hours_event
updated_events rule is_open instant =
    hours_event "store.hours.updated" rule is_open
    ∷ (if effective rule instant
        then hours_event "store.schedule.activated" rule is_open ∷ []
        else if is_some rule.effective_until && leb (get_or_else rule.effective_until 0) instant
        then hours_event "store.schedule.expired" rule is_open ∷ []
        else [])

-- `BusinessStatus`; its `current_status` says no more than `open_now`
pub record BusinessStatus : Type 0 where
  pub store_id : ℕ
  pub timezone : Text
  pub open_now : Bool
  pub is_24_hours : Bool
  pub current_interval : Option (ℕ × ℕ)
  pub today_schedule : Option StoreSchedule
  pub next_opening : Option ℕ
  pub next_closing : Option ℕ
  pub temporary_override : Bool

-- what `status` returns
unfoldable pub business_status :
    Zones → ℕ → List StoreOperatingHours → ℕ → Option ℕ × Option ℕ → BusinessStatus
business_status zones store_id rules instant transitions = record {
  store_id = store_id;
  timezone = timezone_of rules;
  open_now = open_now zones rules instant;
  is_24_hours = (open_details zones (resolve zones rules instant) instant).1;
  current_interval = current (resolve zones rules instant);
  today_schedule = resolve zones rules instant;
  next_opening = transitions.0;
  next_closing = transitions.1;
  temporary_override = overridden (resolve zones rules instant);
}
  where
    current : Option StoreSchedule → Option (ℕ × ℕ)
    current none = none
    current (some schedule) =
        interval_in schedule.intervals ((zones schedule.timezone).local_time instant)

    overridden : Option StoreSchedule → Bool
    overridden none = false
    overridden (some schedule) = schedule.is_temporary_override

-- the events of `status`, on the first rule in force
unfoldable pub status_events : Bool → Option StoreSchedule → List HoursEvent
unfolding hours_event
status_events is_open none = []
status_events is_open (some schedule) = on_first schedule.intervals
  where
    on_first : List StoreOperatingHours → List HoursEvent
    on_first [] = []
    on_first (first ∷ others) =
        hours_event (if is_open then "store.opened" else "store.closed") first is_open ∷ []

module _ (known : Text → ZoneLookup) (zones : Zones) where
  -- `create`
  unfoldable pub create : ℕ → ℕ → StoreHoursCreate → Action (StoreOperatingHours × List HoursEvent)
  unfolding owned_store raise_invalid validate_against_store created_events
  create store_id owner_id values = do
    store ← owned_store store_id owner_id
    validated ← raise_invalid (validate_create known values)
    validate_against_store store_id validated none
    schedule ← add store_id validated
    looked ← now_utc
    instant ← now_utc
    return (schedule, created_events schedule (state_for_rule zones schedule looked) instant)

  -- `update`
  unfoldable pub update :
      ℕ → ℕ → ℕ → ℕ → HoursChanges → Action (StoreOperatingHours × List HoursEvent)
  unfolding owned_store raise_invalid validate_against_store updated_events update_row
  update store_id schedule_id owner_id expected_version changes = do
    store ← owned_store store_id owner_id
    current ← fetch (get store_id schedule_id) (not_found "Store schedule")
    candidate ← raise_invalid (merge known current changes)
    validate_against_store store_id candidate (some schedule_id)
    written ←
        update_where (select_version store_id schedule_id expected_version) store_hours
          (update_row candidate)
    changed ← require written schedule_modified
    instant ← now_utc
    return (changed, updated_events changed (state_for_rule zones changed instant) instant)

  -- `delete`
  unfoldable pub delete : ℕ → ℕ → ℕ → Action (List HoursEvent)
  unfolding owned_store delete_row
  delete store_id schedule_id owner_id = do
    store ← owned_store store_id owner_id
    current ← fetch (get store_id schedule_id) (not_found "Store schedule")
    deleted_at ← now_utc
    written ←
        update_where (select_version store_id schedule_id current.version) store_hours
          (delete_row deleted_at)
    deleted ← require written (conflict "The schedule was modified during deletion.")
    looked ← now_utc
    return (hours_event "store.hours.deleted" deleted (state_for_rule zones deleted looked) ∷ [])

  -- `status`, at an instant that is aware; the events go to the publisher
  unfoldable pub status : ℕ → ℕ → ℕ → Action (BusinessStatus × List HoursEvent)
  unfolding owned_store business_status status_events
  status store_id owner_id instant = do
    store ← owned_store store_id owner_id
    now ← db_now
    rules ← gets (list_for_store store_id false now)
    raise_if (not ((zones (timezone_of rules)).converts instant)) (value_error "OverflowError")
    transitions ← require (next_transitions zones rules instant) (value_error "OverflowError")
    return (
      business_status zones store_id rules instant transitions,
      status_events (open_now zones rules instant) (resolve zones rules instant),
    )

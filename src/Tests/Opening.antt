-- ===== src/Tests/Opening.antt =====
-- A store that is open on Mondays from nine to five, and a second interval of the same day.
use apparel_network.Prelude.{
  scalar, arith, ℕ, ◌+◌, ◌-◌, ◌*◌, ◌/◌, ◌%◌, leb, All, ◌≡◌, ◌↔◌, refl, true, false, Option, none,
  some, [], ◌∷◌,
}
use apparel_network.Prelude.Int.{pos}
use apparel_network.Prelude.Text.{Text, codes}
use apparel_network.Tables.Hours.{StoreOperatingHours}
use apparel_network.Session.{Tables}
use apparel_network.Session.Runs.{Runs, committed}
use apparel_network.Session.Succeeds.{Succeeds}
use apparel_network.Stores.Schedule.{Zone, Zones, rules_overlap, weekday}
use apparel_network.Stores.Overlap.{IsRule, Collide, rules_overlap_iff, valid_mode, valid_period}
use apparel_network.Stores.Openness.{IsOpen}
use apparel_network.Stores.Range.{IsInRange, EndsBefore}
use apparel_network.Prelude.Members.{Among, All-Among, All-each}
use apparel_network.Stores.Validation.{ZoneLookup}
use apparel_network.Stores.Invariant.{HasHours, Columns}
use apparel_network.Stores.Service.{status, list_for_store, get_store_for_owner}
use apparel_network.Stores.Requests.{
  Request, handle, IsKept, Among-list_for_store, requests-HasHours, status-Answers,
}
use apparel_network.Tests.Data.{world, tables, session_of}

abbrev day_length : ℕ
day_length = 86_400_000_000

abbrev last_instant : ℕ
last_instant = 1_296_000_000_000

-- a zone that is at UTC, with fifteen days of 86,400 seconds, the first of which is a Monday
abbrev utc : Zone
utc = record {
  converts = λ t. leb t last_instant;
  local_date = λ t. 1 + t / day_length;
  local_time = λ t. t % day_length;
  boundary = λ date wall. some ((date - 1) * day_length + wall % day_length);
}

abbrev zones : Zones
zones = λ key. utc

utc-IsInRange : IsInRange utc last_instant 15
utc-IsInRange = record {
  converts = λ t h. ground arith;
  boundary = λ date wall h. ((date - 1) * day_length + wall % day_length, refl, omega arith);
  days = omega arith;
}

abbrev known : Text → ZoneLookup
known = λ key. ZoneLookup.found

abbrev monday : ℕ → Option ℕ → Option ℕ → StoreOperatingHours
monday id from until = record {
  id = id;
  store_id = 5;
  day_of_week = 0;
  timezone = codes "Europe/Berlin";
  opening_time = some 32_400_000_000;
  closing_time = some 61_200_000_000;
  is_closed = false;
  is_24_hours = false;
  effective_from = from;
  effective_until = until;
  priority = 0;
  notes = none;
  created_at = 10;
  updated_at = 10;
  deleted_at = none;
  version = 1;
}

abbrev open_tables : Tables
open_tables = record tables { hours = monday 91 none none ∷ [] }

monday-IsRule : (id : ℕ) → IsRule (monday id none none)
unfolding valid_mode valid_period
monday-IsRule id = record { mode = refl; period = refl }

holiday-IsRule : IsRule (monday 92 (some 5) (some 9))
unfolding valid_mode valid_period
holiday-IsRule = record { mode = refl; period = refl }

monday-Columns : Columns known 0 (codes "Europe/Berlin") none
unfolding codes
monday-Columns = record {
  weekday = omega arith;
  zone_found = refl;
  zone_length = (omega arith, omega arith);
  noted = λ text e. cc;
}

open_tables-HasHours : HasHours known open_tables.hours
open_tables-HasHours = record {
  rules_valid = (record { rule = monday-IsRule 91; columns = monday-Columns }, tt);
  rules_apart = (tt, tt);
}

abbrev evening : Request
evening = Request.creation 5 7 (record {
  day_of_week = pos 0;
  timezone = codes "Europe/Berlin";
  opening_time = some (record { time = 64_800_000_000; has_zone = false });
  closing_time = some (record { time = 72_000_000_000; has_zone = false });
  is_closed = false;
  is_24_hours = false;
  effective_from = none;
  effective_until = none;
  priority = pos 0;
  notes = none;
})

requests-HasHours_example :
    HasHours known (committed world (handle known zones evening) open_tables).hours
requests-HasHours_example =
    requests-HasHours known zones open_tables
      (committed world (handle known zones evening) open_tables)
      (Runs.then_request open_tables open_tables world evening (Runs.no_request open_tables))
      open_tables-HasHours

rules_overlap_iff_example :
    (rules_overlap (monday 91 none none) (monday 92 (some 5) (some 9)) ≡ true)
    ↔ Collide (monday 91 none none) (monday 92 (some 5) (some 9))
rules_overlap_iff_example =
    rules_overlap_iff (monday 91 none none) (monday 92 (some 5) (some 9)) (monday-IsRule 91)
      holiday-IsRule

listed-EndsBefore : All (EndsBefore last_instant) (list_for_store 5 false 1000 open_tables)
listed-EndsBefore = All-each (EndsBefore last_instant) _ (λ r m.
    All-Among (EndsBefore last_instant) (open_tables.hours) ((λ t e. cc, λ t e. cc), tt)
      ((Among-list_for_store 5 1000 open_tables r).0 m).0)

open_store-found :
    get_store_for_owner 5 7 open_tables ≡ some (record { id = 5; owner_id = 7; deleted_at = none })
unfolding get_store_for_owner scalar
open_store-found = refl

status-Answers_example :
    Succeeds (status known zones 5 7 36_000_000_001) (session_of open_tables) (λ answer s'.
      ((answer.0.open_now ≡ true)
        ↔ IsOpen
            (weekday (utc.local_date 36_000_000_001))
            36_000_000_001
            (utc.local_time 36_000_000_001)
            (list_for_store 5 false 1000 open_tables))
      × ((r : StoreOperatingHours)
          → Among r (list_for_store 5 false 1000 open_tables)
            ↔ (Among r open_tables.hours × IsKept 5 1000 r)))
status-Answers_example =
    status-Answers known zones 5 7 36_000_000_001 (session_of open_tables)
      (record { id = 5; owner_id = 7; deleted_at = none }) last_instant 15 open_store-found
      open_tables-HasHours utc-IsInRange (omega arith) (omega arith) listed-EndsBefore

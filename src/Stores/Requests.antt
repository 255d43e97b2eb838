-- ===== src/Stores/Requests.antt =====
-- The requests on the opening hours, what every sequence of them keeps, and what the status of a store
-- is in the tables that they lead to.
use apparel_network.Prelude.{
  ℕ, ◌≡◌, Bool, true, false, some, All, All-map, is_none, arith, ◌&&◌, ◌==◌,
}
use apparel_network.Prelude.Text.{Text}
use apparel_network.Prelude.Pairs.{Apart}
use apparel_network.Tables.Hours.{StoreOperatingHours}
use apparel_network.Session.{Session, Tables, Action, discard}
use apparel_network.Session.Preserves.{Preserves, Preserves-discard}
use apparel_network.Session.Runs.{Runs, Runs-keeps}
use apparel_network.Prelude.{
  ap, sym, ◌∙◌, ◌↔◌, ◌≤◌, ◌<◌, ◌+◌, refl, List, Option, none, not, is_some, ltb, get_or_else,
}
use apparel_network.Prelude.Members.{Among, Among-Reordered, Among-select, select-Among}
use apparel_network.Prelude.Sorting.{Reordered-sort_by, Reordered-sym}
use apparel_network.Stores.Openness.{IsOpen}
use apparel_network.Stores.Governing.{in_force-IsOpen}
use apparel_network.Stores.Range.{IsInRange, EndsBefore, next_transitions-some}
use apparel_network.Stores.Transitions.{next_transitions}
use apparel_network.Stores.Schedule.{Zones, weekday, open_now}
use apparel_network.Stores.Status.{Siblings, Siblings-sym}
use apparel_network.Stores.Validation.{ZoneLookup, HoursChanges, StoreHoursCreate}
use apparel_network.Stores.Service.{owned_store, create, update, delete, business_status}
use apparel_network.Stores.Invariant.{HasHours, IsAdmitted, Neighbours}
use apparel_network.Prelude.{All-select_test, All-sort_by, ◌||◌}
use apparel_network.Prelude.Pairs.{Apart-select, Apart-sort_by, Apart-map}
use apparel_network.Tables.Inventory.{Store}
use apparel_network.Session.Succeeds.{
  Succeeds, Succeeds-return, Succeeds-fetch, Succeeds-gets, Succeeds-db_now, Succeeds-raise_if,
  Succeeds-require,
}
use apparel_network.Stores.Schedule.{local_day, timezone_of}
use apparel_network.Stores.Status.{open_now-any}
use apparel_network.Stores.Service.{
  list_for_store, listed_before, unexpired, get_store_for_owner, status,
}
use apparel_network.Stores.Keeps.{create-keeps, update-keeps, delete-keeps}

-- The requests that change the opening hours; the zone database is as it is at that time.
pub data Request : Type 0 where
  creation : (store_id owner_id : ℕ) → StoreHoursCreate → Request
  change : (store_id schedule_id owner_id expected_version : ℕ) → HoursChanges → Request
  deletion : (store_id schedule_id owner_id : ℕ) → Request

unfoldable pub handle : (Text → ZoneLookup) → Zones → Request → Action Unit
handle known zones (Request.creation store_id owner_id values) =
    discard (create known zones store_id owner_id values)
handle known zones (Request.change store_id schedule_id owner_id version changes) =
    discard (update known zones store_id schedule_id owner_id version changes)
handle known zones (Request.deletion store_id schedule_id owner_id) =
    discard (delete known zones store_id schedule_id owner_id)

-- Whatever rules are created, changed and deleted, by whatever owners and however the requests end:
-- every rule of the table has a day from 0 to 6, a time zone that is found and whose key has from 1 to
-- 64 characters, no notes or notes of 1 to 500 characters, an interval that closes after it opens
-- unless it is closed or open all day, and both ends of its period in order or none; identifiers are
-- unique, and no two kept rules of one store, one day and one priority overlap. It is so at the start,
-- and the zone database finds the same keys all along.
pub requests-HasHours :
    (known : Text → ZoneLookup) (zones : Zones) (db db' : Tables)
    → Runs (handle known zones) db db'
    → HasHours known db.hours
    → HasHours known db'.hours
requests-HasHours known zones db db' runs has =
    Runs-keeps (handle known zones) (λ d. HasHours known d.hours) keep db db' runs has
  where
    keep :
        (request : Request) (s : Session)
        → HasHours known s.db.hours
        → Preserves (λ s'. HasHours known s'.db.hours) (handle known zones request) s
    keep (Request.creation store_id owner_id values) s h =
        unfold handle in
        Preserves-discard _ s (create-keeps known zones store_id owner_id values s h)
    keep (Request.change store_id schedule_id owner_id version changes) s h =
        unfold handle in
        Preserves-discard _ s
          (update-keeps known zones store_id schedule_id owner_id version changes s h)
    keep (Request.deletion store_id schedule_id owner_id) s h =
        unfold handle in
        Preserves-discard _ s (delete-keeps known zones store_id schedule_id owner_id s h)

abbrev OfStore : ℕ → StoreOperatingHours → Type 0
OfStore store_id r = (r.store_id ≡ store_id) × (is_none r.deleted_at ≡ true)

-- The listed rules are those of the store, kept and apart.
listed :
    (known : Text → ZoneLookup) (store_id now : ℕ) (db : Tables)
    → HasHours known db.hours
    → All (OfStore store_id) (list_for_store store_id false now db)
      × Apart Siblings (list_for_store store_id false now db)
unfolding list_for_store
listed known store_id now db has = (
  All-sort_by (OfStore store_id) listed_before _ (
      All-map _ (OfStore store_id)
        (λ r k. named r.store_id store_id (is_none r.deleted_at) (unexpired now r) k.1) _
        (All-select_test (IsAdmitted known)
          (λ r. (r.store_id == store_id) && is_none r.deleted_at && (false || unexpired now r))
          db.hours has.rules_valid)),
  Apart-sort_by Siblings Siblings-sym listed_before _ (
      Apart-select Siblings _ db.hours
        (Apart-map Neighbours Siblings (λ a b h. h.1) db.hours has.rules_apart)),
)
  where
    named :
        (a b : ℕ) (live current : Bool)
        → ((a == b) && live && (false || current)) ≡ true
        → (a ≡ b) × (live ≡ true)
    named a b live current h = ground arith

-- a rule of the store that is not deleted and whose period, if it has one, is not over
abbrev pub IsKept : ℕ → ℕ → StoreOperatingHours → Type 0
IsKept store_id now r =
    (r.store_id ≡ store_id)
    × (r.deleted_at ≡ none)
    × ((t : ℕ) → r.effective_until ≡ some t → now < t)

pub Among-list_for_store :
    (store_id now : ℕ) (db : Tables) (r : StoreOperatingHours)
    → Among r (list_for_store store_id false now db) ↔ (Among r db.hours × IsKept store_id now r)
unfolding list_for_store unexpired
Among-list_for_store store_id now db r = (
  λ m.
      let found =
        select-Among _ db.hours
          (Among-Reordered r (Reordered-sym (Reordered-sort_by listed_before _)) m) in
      (found.0, there r.store_id r.deleted_at r.effective_until found.1),
  λ h.
      Among-Reordered r (Reordered-sort_by listed_before _)
        (Among-select _ db.hours h.0 (back r.store_id r.deleted_at r.effective_until h.1)),
)
  where
    there :
        (a : ℕ) (d u : Option ℕ)
        → ((a == store_id)
            && is_none d
            && (false || (not (is_some u) || ltb now (get_or_else u 0))))
          ≡ true
        → (a ≡ store_id) × (d ≡ none) × ((t : ℕ) → u ≡ some t → now < t)
    there a none none h = (ground arith, refl, λ t e. cc)
    there a none (some u) h = (ground arith, refl, λ t e. ground arith)
    there a (some d) u h = ground arith

    back :
        (a : ℕ) (d u : Option ℕ)
        → (a ≡ store_id) × (d ≡ none) × ((t : ℕ) → u ≡ some t → now < t)
        → ((a == store_id)
            && is_none d
            && (false || (not (is_some u) || ltb now (get_or_else u 0))))
          ≡ true
    back a none none h = let same = h.0 in ground arith
    back a none (some u) h = let same = h.0 in let less = h.2 u refl in ground arith
    back a (some d) u h = let no = h.1 in cc

-- The status of a store that the owner has is answered, and the store is open in it just when a rule
-- that governs the instant has it open: a rule of the local weekday whose period, if it has one,
-- started by the instant and ends after it, a permanent one only when no temporary one is such a rule,
-- and of the highest priority of its kind, that is not a closure and is open all day or opens by the
-- local time and closes after it. The rules are those of the store in the table that are not deleted
-- and not over, and the time zone is that of the first of them. The table's rules are valid and apart;
-- the instant, the days that are looked at and the periods of the rules are in the range that the time
-- zone converts.
pub status-Answers :
    (known : Text → ZoneLookup) (zones : Zones) (store_id owner_id instant : ℕ) (s : Session)
    (store : Store) (last last_day : ℕ)
    → get_store_for_owner store_id owner_id s.db ≡ some store
    → HasHours known s.hours
    → let rules = list_for_store store_id false s.world.transaction_time s.db in
      let zone = zones (timezone_of rules) in
      IsInRange zone last last_day
      → instant ≤ last
      → zone.local_date instant + 14 ≤ last_day
      → All (EndsBefore last) rules
      → Succeeds (status known zones store_id owner_id instant) s (λ answer s'.
        ((answer.0.open_now ≡ true)
          ↔ IsOpen (weekday (zone.local_date instant)) instant (zone.local_time instant) rules)
        × ((r : StoreOperatingHours)
            → Among r rules ↔ (Among r s.hours × IsKept store_id s.world.transaction_time r)))
unfolding status owned_store business_status
status-Answers known zones store_id owner_id instant s store last last_day owned has range early
      days ends =
    Succeeds-fetch _ _ _ owned (
      Succeeds-db_now _ (
        Succeeds-gets _ _ (
          Succeeds-raise_if _ (ap not (range.converts instant early)) (
            Succeeds-require _ _ found.1 (
              Succeeds-return _ _
                (open_iff, Among-list_for_store store_id s.world.transaction_time s.db))))))
  where
    rules : List StoreOperatingHours
    rules = list_for_store store_id false s.world.transaction_time s.db

    found :
        (transitions : Option ℕ × Option ℕ) × (next_transitions zones rules instant
          ≡ some transitions)
    found = next_transitions-some zones rules last last_day range instant days ends

    open_iff :
        (open_now zones rules instant ≡ true)
        ↔ IsOpen
            (weekday ((zones (timezone_of rules)).local_date instant))
            instant
            ((zones (timezone_of rules)).local_time instant)
            rules
    open_iff =
        let apart = listed known store_id s.world.transaction_time s.db has in
        let any = open_now-any zones rules store_id instant apart.0 apart.1 in
        let iff =
          in_force-IsOpen (weekday ((zones (timezone_of rules)).local_date instant)) instant rules
            ((zones (timezone_of rules)).local_time instant) in
        unfold local_day in (λ h. iff.0 (sym any ∙ h), λ h. any ∙ iff.1 h)

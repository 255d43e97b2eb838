-- ===== src/Stores/Status.antt =====
-- Whether a store is open: the first rule in force that says so decides, and since no two rules of a
-- store overlap, it says what any of them says.
use apparel_network.Prelude.{
  ℕ, ◌≡◌, refl, sym, ◌∙◌, Bool, true, false, Option, List, [], ◌∷◌, ◌&&◌, ◌||◌, ◌==◌, not, any, All,
  All-select, All-select_test, All-sort_by, All-map, select, Bool-cases, inl, inr, is_none, arith,
  &&_split, ==_iff,
}
use apparel_network.Prelude.Pairs.{Apart, Apart-select, Apart-sort_by}
use apparel_network.Tables.Hours.{StoreOperatingHours, is_temporary}
use apparel_network.Stores.Schedule.{
  Zones, rules_overlap, periods_overlap, effective, contains, open_in, in_force, selected_pool,
  eligible, opens_before, top_priority, resolve, open_details, timezone_of, prefer, schedule_of,
  local_day, open_now, intervals_overlap,
}
use apparel_network.Stores.Overlap.{periods_overlap-within}

-- the rule has the store open at this time of the day
unfoldable pub covers : StoreOperatingHours → ℕ → Bool
covers r time = not r.is_closed && (r.is_24_hours || contains r.opening_time r.closing_time time)

-- A rule that speaks of the whole day leaves no room for another.
whole_day_alone :
    (a b : StoreOperatingHours) (instant : ℕ)
    → effective a instant ≡ true
    → effective b instant ≡ true
    → rules_overlap a b ≡ false
    → (a.is_closed || a.is_24_hours) ≡ true
    → ⊥
unfolding rules_overlap effective
whole_day_alone a b instant now now' apart whole =
    let same =
      periods_overlap-within a.effective_from a.effective_until b.effective_from b.effective_until
        instant now now' in
    impossible _ a.is_closed a.is_24_hours b.is_closed b.is_24_hours _ same apart whole
  where
    impossible :
        (p c w o v i : Bool)
        → p ≡ true
        → (p && ((c || w || o || v) || i)) ≡ false
        → (c || w) ≡ true
        → ⊥
    impossible p c w o v i h k l = ground arith

-- two rules of one store, one day and one priority that are both kept do not overlap
abbrev pub Siblings : StoreOperatingHours → StoreOperatingHours → Type 0
Siblings a b =
    a.store_id ≡ b.store_id
    → a.day_of_week ≡ b.day_of_week
    → a.priority ≡ b.priority
    → is_none a.deleted_at ≡ true
    → is_none b.deleted_at ≡ true
    → rules_overlap a b ≡ false

-- what is known of a rule in force
abbrev InForce : ℕ → ℕ → ℕ → ℕ → StoreOperatingHours → Type 0
InForce store day priority instant r =
    (r.store_id ≡ store)
    × (r.day_of_week ≡ day)
    × (r.priority ≡ priority)
    × (is_none r.deleted_at ≡ true)
    × (effective r instant ≡ true)

-- The loop answers as any of the rules does.
open_in-any :
    (store day priority instant time : ℕ) (rules : List StoreOperatingHours)
    → All (InForce store day priority instant) rules
    → Apart Siblings rules
    → (open_in rules time).0 ≡ any (λ r. covers r time) rules
unfolding open_in covers
open_in-any store day priority instant time [] now apart = refl
open_in-any store day priority instant time (r ∷ rules) now apart = elim (Bool-cases r.is_closed) [
  | inl t ↦ rw t (sym (nobody rules now.1 apart.0 (whole t)))
  | inr t ↦ elim (Bool-cases r.is_24_hours) [
    | inl u ↦ rw (t, u) refl
    | inr u ↦ elim (Bool-cases (contains r.opening_time r.closing_time time)) [
      | inl v ↦ rw (t, u, v) refl
      | inr v ↦ rw (t, u, v) (open_in-any store day priority instant time rules now.1 apart.1)
    ]
  ]
]
  where
    whole : r.is_closed ≡ true → (r.is_closed || r.is_24_hours) ≡ true
    whole t = rw t refl

    nobody :
        (others : List StoreOperatingHours)
        → All (InForce store day priority instant) others
        → All (Siblings r) others
        → (r.is_closed || r.is_24_hours) ≡ true
        → any (λ x. covers x time) others ≡ false
    nobody [] now' apart' w = refl
    nobody (x ∷ xs) now' apart' w = absurd (
        whole_day_alone r x instant now.0.4 now'.0.4
          (apart'.0 (now.0.0 ∙ sym now'.0.0) (now.0.1 ∙ sym now'.0.1) (now.0.2 ∙ sym now'.0.2)
            now.0.3 now'.0.3)
          w)

module _ (P : StoreOperatingHours → Type 0) where
  prefer-All : (xs ys : List StoreOperatingHours) → All P xs → All P ys → All P (prefer xs ys)
  prefer-All [] ys h k = k
  prefer-All (x ∷ xs) ys h k = h

  selected_pool-All : (rules : List StoreOperatingHours) → All P rules → All P (selected_pool rules)
  unfolding selected_pool
  selected_pool-All rules h =
      prefer-All _ _ (All-select P is_temporary rules h)
        (All-select P (λ r. not (is_temporary r)) rules h)

selected_pool-Apart :
    (rules : List StoreOperatingHours) → Apart Siblings rules → Apart Siblings (selected_pool rules)
unfolding selected_pool
selected_pool-Apart rules h =
    preferred (select is_temporary rules) _ (Apart-select Siblings is_temporary rules h)
      (Apart-select Siblings (λ r. not (is_temporary r)) rules h)
  where
    preferred :
        (xs ys : List StoreOperatingHours)
        → Apart Siblings xs
        → Apart Siblings ys
        → Apart Siblings (prefer xs ys)
    preferred [] ys h k = k
    preferred (x ∷ xs) ys h k = h

pub Siblings-sym : (a b : StoreOperatingHours) → Siblings a b → Siblings b a
unfolding rules_overlap periods_overlap intervals_overlap
Siblings-sym a b h store day priority live live' =
    swapped a.effective_from a.effective_until b.effective_from b.effective_until a.is_closed
      a.is_24_hours b.is_closed b.is_24_hours a.opening_time a.closing_time b.opening_time
      b.closing_time (h (sym store) (sym day) (sym priority) live' live)
  where
    swapped :
        (f u f' u' : Option ℕ) (c w c' w' : Bool) (o e o' e' : Option ℕ)
        → (periods_overlap f u f' u' && ((c || w || c' || w') || intervals_overlap o e o' e'))
          ≡ false
        → (periods_overlap f' u' f u && ((c' || w' || c || w) || intervals_overlap o' e' o e))
          ≡ false
    swapped f u f' u' c w c' w' o e o' e' h = ground arith

-- Whether a store is open at an instant is exactly what its rules in force say: it is open just when
-- one of them, of the day's weekday, effective, temporary ones before permanent ones and of the
-- highest priority, is not a closure and is open all day or has the local time in its interval. The
-- rules are those of one store, not deleted, and no two of one day and priority overlap.
pub open_now-any :
    (zones : Zones) (rules : List StoreOperatingHours) (store_id instant : ℕ)
    → All (λ r. (r.store_id ≡ store_id) × (is_none r.deleted_at ≡ true)) rules
    → Apart Siblings rules
    → open_now zones rules instant
      ≡ any
          (λ r. covers r ((zones (timezone_of rules)).local_time instant))
          (in_force (local_day zones rules instant) instant rules)
unfolding open_now resolve in_force eligible open_details open_in
open_now-any zones rules store_id instant known apart =
    looked_up (in_force day instant rules)
    ∙ open_in-any store_id day (top_priority pool) instant _ (in_force day instant rules)
        (All-sort_by (InForce store_id day (top_priority pool) instant) opens_before _
          (members pool (selected_pool-All _ _ (of_the_day rules known))))
        (Apart-sort_by Siblings Siblings-sym opens_before _ (
          Apart-select Siblings (λ r. r.priority == top_priority pool) pool
            (selected_pool-Apart _ (
              Apart-select Siblings (λ r. (r.day_of_week == day) && effective r instant) rules
                apart))))
  where
    day : ℕ
    day = local_day zones rules instant

    pool : List StoreOperatingHours
    pool = selected_pool (eligible day instant rules)

    looked_up :
        (found : List StoreOperatingHours)
        → (open_details zones (schedule_of day (timezone_of rules) found) instant).0
          ≡ (open_in found ((zones (timezone_of rules)).local_time instant)).0
    looked_up [] = refl
    looked_up (x ∷ xs) = refl

    of_the_day :
        (xs : List StoreOperatingHours)
        → All (λ r. (r.store_id ≡ store_id) × (is_none r.deleted_at ≡ true)) xs
        → All
            (λ r.
              (r.store_id ≡ store_id)
              × (r.day_of_week ≡ day)
              × (is_none r.deleted_at ≡ true)
              × (effective r instant ≡ true))
            (select (λ r. (r.day_of_week == day) && effective r instant) xs)
    of_the_day xs h =
        All-map _ _
          (λ r k.
            let tests = &&_split (r.day_of_week == day) (effective r instant) k.1 in
            (k.0.0, (==_iff _ _).0 tests.0, k.0.1, tests.1))
          _ (All-select_test _ (λ r. (r.day_of_week == day) && effective r instant) xs h)

    members :
        (xs : List StoreOperatingHours)
        → All
            (λ r.
              (r.store_id ≡ store_id)
              × (r.day_of_week ≡ day)
              × (is_none r.deleted_at ≡ true)
              × (effective r instant ≡ true))
            xs
        → All
            (InForce store_id day (top_priority pool) instant)
            (select (λ r. r.priority == top_priority pool) xs)
    members xs h =
        All-map _ _ (λ r k. (k.0.0, k.0.1, (==_iff _ _).0 k.1, k.0.2, k.0.3)) _
          (All-select_test _ (λ r. r.priority == top_priority pool) xs h)

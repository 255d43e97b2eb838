-- ===== src/Inventory/Validation.antt =====
-- `InventoryValidationService`, `_validate_adjustment` and `_validate_audit` of
-- inventory/application/services.py. A validation is the failure that it raises, or `none`.
use apparel_network.Prelude.{
  ◌≡◌, refl, arith, ℕ, Bool, true, false, Option, none, some, ◌&&◌, ◌||◌, not, leb, length,
  if◌then◌else◌,
}
use apparel_network.Prelude.Int.{ℤ, pos, ◌≤ℤ◌, ltb_ℤ, eqb_ℤ}
use apparel_network.Prelude.Text.{Text, strip}
use apparel_network.Errors.{AppError, validation}
use apparel_network.Tables.Enums.{InventoryStatus, TrackingPolicy, InventoryMovementType}

-- the first failure of two validations in a row
infixr 20 ◌and_then◌
unfoldable pub ◌and_then◌ : Option AppError → Option AppError → Option AppError
none and_then rest = rest
some e and_then rest = some e

abbrev pub reject_if : Bool → AppError → Option AppError
reject_if b e = if b then some e else none

-- A value of a request's body, which the service tests with `isinstance`.
pub data Dynamic (A : Type 0) : Type 0 where
  typed : A → Dynamic A
  null : Dynamic A
  mistyped : Dynamic A

-- `InventoryUpdate.values`: the supported fields that the mapping has, and whether it has others.
pub record Changes : Type 0 where
  pub quantity_on_hand : Option (Dynamic ℤ)
  pub quantity_reserved : Option (Dynamic ℤ)
  pub status : Option (Dynamic InventoryStatus)
  pub tracking_policy : Option (Dynamic TrackingPolicy)
  pub low_stock_threshold : Option (Dynamic ℤ)
  pub has_unsupported : Bool

abbrev is_absent {ℓ} : {A : Type ℓ} → Option A → Bool
is_absent none = true
is_absent (some a) = false

-- `changes.get(field, existing.field)`
unfoldable pub typed_or : {A : Type 0} → Option (Dynamic A) → A → A
typed_or (some (Dynamic.typed v)) current = v
typed_or _ current = current

is_empty_body : Changes → Bool
is_empty_body c =
    is_absent c.quantity_on_hand
    && is_absent c.quantity_reserved
    && is_absent c.status
    && is_absent c.tracking_policy
    && is_absent c.low_stock_threshold
    && not c.has_unsupported

-- `quantities`
unfoldable pub quantities : ℤ → ℤ → Option AppError
quantities on_hand reserved =
    reject_if (ltb_ℤ on_hand (pos 0))
      (validation "quantity_on_hand" "Quantity must be non-negative.")
    and_then reject_if (ltb_ℤ reserved (pos 0) || ltb_ℤ on_hand reserved)
        (validation "quantity_reserved" "Reserved quantity is invalid.")

-- What the validations leave.
pub quantities_none :
    (on_hand reserved : ℤ)
    → quantities on_hand reserved ≡ none
    → (pos 0 ≤ℤ on_hand) × (pos 0 ≤ℤ reserved) × (reserved ≤ℤ on_hand)
unfolding quantities ◌and_then◌ ltb_ℤ
quantities_none on_hand reserved h = ground arith

-- `status` and `tracking`: present values must be members
unfoldable pub member : {A : Type 0} → Option (Dynamic A) → AppError → Option AppError
member none e = none
member (some (Dynamic.typed a)) e = none
member (some Dynamic.null) e = some e
member (some Dynamic.mistyped) e = some e

unfoldable pub threshold : ℤ → Option AppError
threshold value =
    reject_if (ltb_ℤ value (pos 0))
      (validation "low_stock_threshold" "Threshold must be non-negative.")

unfoldable pub threshold_change : Option (Dynamic ℤ) → Option AppError
unfolding threshold
threshold_change none = none
threshold_change (some (Dynamic.typed v)) = threshold v
threshold_change (some _) =
    some (validation "low_stock_threshold" "Threshold must be non-negative.")

-- `value is not None and (not isinstance(value, int) or value < 0)`
unfoldable pub quantity_change : AppError → Option (Dynamic ℤ) → Option AppError
quantity_change e none = none
quantity_change e (some (Dynamic.typed v)) = reject_if (ltb_ℤ v (pos 0)) e
quantity_change e (some Dynamic.null) = none
quantity_change e (some Dynamic.mistyped) = some e

-- `changes`
unfoldable pub changes : Changes → Option AppError
unfolding is_empty_body member threshold_change quantity_change
changes c =
    reject_if (is_empty_body c || c.has_unsupported)
      (validation "body" "At least one supported field is required.")
    and_then member c.status (validation "status" "Inventory status is invalid.")
    and_then member c.tracking_policy (validation "tracking_policy" "Tracking policy is invalid.")
    and_then threshold_change c.low_stock_threshold
    and_then quantity_change (validation "quantity_on_hand" "Quantity must be non-negative.")
        c.quantity_on_hand
    and_then quantity_change (validation "quantity_reserved" "Quantity must be non-negative.")
        c.quantity_reserved

-- `create`: the enumerations are typed by `InventoryCreate`
unfoldable pub new_item : ℤ → ℤ → ℤ → Option AppError
unfolding quantities threshold
new_item on_hand reserved low_stock_threshold =
    quantities on_hand reserved and_then threshold low_stock_threshold

pub new_item_none :
    (on_hand reserved low_stock_threshold : ℤ)
    → new_item on_hand reserved low_stock_threshold ≡ none
    → (pos 0 ≤ℤ on_hand)
      × (pos 0 ≤ℤ reserved)
      × (reserved ≤ℤ on_hand)
      × (pos 0 ≤ℤ low_stock_threshold)
unfolding new_item ◌and_then◌ ltb_ℤ
new_item_none on_hand reserved low_stock_threshold h = ground arith

and_then-none : (a b : Option AppError) → (a and_then b) ≡ none → (a ≡ none) × (b ≡ none)
unfolding ◌and_then◌
and_then-none none b h = (refl, h)
and_then-none (some e) b h = cc

pub changes-threshold :
    (c : Changes) → changes c ≡ none → threshold_change c.low_stock_threshold ≡ none
unfolding changes
changes-threshold c h =
    let (_, h1) = and_then-none _ _ h in
    let (_, h2) = and_then-none _ _ h1 in
    let (_, h3) = and_then-none _ _ h2 in (and_then-none _ _ h3).0

-- The threshold that is in force after a change that was accepted.
pub threshold_change-nonneg :
    (o : Option (Dynamic ℤ)) (current : ℤ)
    → threshold_change o ≡ none
    → pos 0 ≤ℤ current
    → pos 0 ≤ℤ typed_or o current
unfolding threshold_change typed_or ltb_ℤ
threshold_change-nonneg none current h c = c
threshold_change-nonneg (some (Dynamic.typed v)) current h c = ground arith
threshold_change-nonneg (some _) current h c = cc

unfoldable pub is_increase : InventoryMovementType → Bool
is_increase InventoryMovementType.manual_increase = true
is_increase InventoryMovementType.found = true
is_increase _ = false

unfoldable pub is_decrease : InventoryMovementType → Bool
is_decrease InventoryMovementType.manual_decrease = true
is_decrease InventoryMovementType.damage = true
is_decrease InventoryMovementType.loss = true
is_decrease _ = false

unfoldable pub is_correction : InventoryMovementType → Bool
is_correction InventoryMovementType.correction = true
is_correction _ = false

within : ℕ → ℕ → Text → Bool
within lo hi t = let n = length (strip t) in leb lo n && leb n hi

-- `_validate_audit`
unfoldable pub audit : Text → Text → Option AppError
unfolding within
audit reason source =
    reject_if (not (within 1 500 reason))
      (validation "reason" "Reason must contain 1 to 500 characters.")
    and_then reject_if (not (within 1 100 source))
        (validation "source" "Source must contain 1 to 100 characters.")

-- `_validate_adjustment`
unfoldable pub adjustment : ℤ → InventoryMovementType → Text → Text → Option AppError
unfolding audit is_increase is_decrease is_correction
adjustment quantity_delta movement_type reason source =
    audit reason source
    and_then reject_if
        (not
          (is_increase movement_type || is_decrease movement_type || is_correction movement_type))
        (validation "movement_type" "Movement type is not adjustable.")
    and_then reject_if (eqb_ℤ quantity_delta (pos 0))
        (validation "quantity_delta" "Adjustment delta cannot be zero.")
    and_then reject_if (is_increase movement_type && ltb_ℤ quantity_delta (pos 0))
        (validation "quantity_delta" "This movement requires an increase.")
    and_then reject_if (is_decrease movement_type && ltb_ℤ (pos 0) quantity_delta)
        (validation "quantity_delta" "This movement requires a decrease.")

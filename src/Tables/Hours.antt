-- ===== src/Tables/Hours.antt =====
-- modules/stores/domain/operating_hours.py: a row of the table of opening hours.
use apparel_network.Prelude.{ℕ, Bool, Option, is_some}
use apparel_network.Prelude.Text.{Text}

-- Wall-clock times are microseconds after midnight, instants are microseconds of UTC.
pub record StoreOperatingHours : Type 0 where
  pub id : ℕ
  pub store_id : ℕ
  pub day_of_week : ℕ
  pub timezone : Text
  pub opening_time : Option ℕ
  pub closing_time : Option ℕ
  pub is_closed : Bool
  pub is_24_hours : Bool
  pub effective_from : Option ℕ
  pub effective_until : Option ℕ
  pub priority : ℕ
  pub notes : Option Text
  pub created_at : ℕ
  pub updated_at : ℕ
  pub deleted_at : Option ℕ
  pub version : ℕ

-- the property `is_temporary`
abbrev pub is_temporary : StoreOperatingHours → Bool
is_temporary rule = is_some rule.effective_from

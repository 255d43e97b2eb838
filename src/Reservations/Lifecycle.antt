-- ===== src/Reservations/Lifecycle.antt =====
-- The life of a reservation: the moves between its statuses, and the constraint of the table that
-- ties its timestamps to the status.
use apparel_network.Prelude.{
  ℕ, ◌≡◌, Bool, true, false, Option, some, is_some, is_none, arith, ◌&&◌, ◌!=◌, if◌then◌else◌, ◌≤◌,
}
use apparel_network.Tables.Enums.{
  ReservationStatus, reservation_status_enum, reservation_status_ordinal, ◌is◌,
}
use apparel_network.Tables.Commerce.{InventoryReservation}
use apparel_network.Session.Selection.{version-read}
use apparel_network.Session.{Tables}
use apparel_network.Reservations.Repository.{get_for_customer, select_version, transition_row}

-- The moves of an active reservation, with whether the row is archived.
pub data Move : ReservationStatus → ReservationStatus → Bool → Type 0 where
  expiry : Move ReservationStatus.active ReservationStatus.expired true
  release : Move ReservationStatus.active ReservationStatus.released true
  consumption : Move ReservationStatus.active ReservationStatus.consumed false

pub data Step : InventoryReservation → InventoryReservation → Type 0 where
  moving :
      (reservation : InventoryReservation) (status : ReservationStatus) (archive : Bool)
      (at actor_id now : ℕ)
      → Move reservation.status status archive
      → Step reservation (transition_row status at actor_id archive now reservation)

-- the constraint `lifecycle_timestamps`
unfoldable pub lifecycle_timestamps : ReservationStatus → Option ℕ → Option ℕ → Option ℕ → Bool
lifecycle_timestamps ReservationStatus.created released consumed deleted =
    is_none released && is_none consumed && is_none deleted
lifecycle_timestamps ReservationStatus.active released consumed deleted =
    is_none released && is_none consumed && is_none deleted
lifecycle_timestamps ReservationStatus.consumed released consumed deleted =
    is_none released && is_some consumed && is_none deleted
lifecycle_timestamps ReservationStatus.released released consumed deleted =
    is_some released && is_none consumed && is_some deleted
lifecycle_timestamps ReservationStatus.expired released consumed deleted =
    is_none released && is_none consumed && is_some deleted

pub record IsLifecycle (r : InventoryReservation) : Type 0 where
  pub timestamps : lifecycle_timestamps r.status r.released_at r.consumed_at r.deleted_at ≡ true
  pub version_positive : 1 ≤ r.version

Move-timestamps :
    (old new : ReservationStatus) (archive : Bool) (at : ℕ) (released consumed deleted : Option ℕ)
    → Move old new archive
    → lifecycle_timestamps old released consumed deleted ≡ true
    → lifecycle_timestamps new
        (if new is ReservationStatus.released then some at else released)
        (if new is ReservationStatus.consumed then some at else consumed)
        (if archive then some at else deleted)
      ≡ true
unfolding lifecycle_timestamps ◌is◌ reservation_status_ordinal
Move-timestamps _ _ _ at r c d Move.expiry h = ground arith
Move-timestamps _ _ _ at r c d Move.release h = ground arith
Move-timestamps _ _ _ at r c d Move.consumption h = ground arith

pub Step-IsLifecycle : (r r' : InventoryReservation) → Step r r' → IsLifecycle r → IsLifecycle r'
unfolding transition_row
Step-IsLifecycle r _ (Step.moving _ status archive at actor now move) h = record {
  timestamps = Move-timestamps r.status status archive at _ _ _ move h.timestamps;
  version_positive = omega arith;
}

-- The row that the service has read is the one that the write selects.
pub select_version-get_for_customer :
    (reservation_id customer_id version : ℕ) (db : Tables) (reservation : InventoryReservation)
    → get_for_customer reservation_id customer_id db ≡ some reservation
    → (reservation.version != version) ≡ false
    → select_version reservation.id reservation.customer_id version db ≡ some reservation
unfolding get_for_customer select_version
select_version-get_for_customer reservation_id customer_id version db reservation e v =
    version-read (λ r. r.id) (λ r. r.customer_id) (λ r. r.version) (λ r. is_none r.deleted_at)
      reservation_id customer_id version db.reservations reservation e v

-- ===== src/Reservations/Requests.antt =====
-- The requests on a reservation that exists, and what every sequence of them keeps.
use apparel_network.Prelude.{ℕ, ◌≡◌, ◌≢◌, refl, sym, ◌∙◌, Bool, All}
use apparel_network.Tables.Enums.{
  ReservationStatus, reservation_status_enum, reservation_status_ordinal, ◌is◌,
}
use apparel_network.Tables.Commerce.{InventoryReservation}
use apparel_network.Session.{Session, Tables, Action, discard}
use apparel_network.Session.Preserves.{Preserves, Preserves-discard}
use apparel_network.Session.Runs.{Runs, Runs-keeps}
use apparel_network.Reservations.Repository.{transition_row}
use apparel_network.Reservations.Service.{
  ReservationTransition, get_owned, release_owned, consume_owned,
}
use apparel_network.Reservations.Lifecycle.{Step, Move, IsLifecycle, Step-IsLifecycle}
use apparel_network.Reservations.Steps.{get_owned-steps, finish_owned-steps}

pub data Request : Type 0 where
  reading : (reservation_id customer_id : ℕ) → Request
  release : (reservation_id customer_id : ℕ) → ReservationTransition → Request
  consumption : (reservation_id customer_id : ℕ) → ReservationTransition → Request

unfoldable pub handle : Request → Action Unit
handle (Request.reading reservation_id customer_id) = discard (get_owned reservation_id customer_id)
handle (Request.release reservation_id customer_id values) =
    discard (release_owned reservation_id customer_id values)
handle (Request.consumption reservation_id customer_id values) =
    discard (consume_owned reservation_id customer_id values)

released_move :
    Move ReservationStatus.active ReservationStatus.released
      (ReservationStatus.released is ReservationStatus.released)
unfolding ◌is◌ reservation_status_ordinal
released_move = Move.release

consumed_move :
    Move ReservationStatus.active ReservationStatus.consumed
      (ReservationStatus.consumed is ReservationStatus.released)
unfolding ◌is◌ reservation_status_ordinal
consumed_move = Move.consumption

reservations-keep :
    (P : InventoryReservation → Type 0)
    → ((r r' : InventoryReservation) → Step r r' → P r → P r')
    → (db db' : Tables) → Runs handle db db'
    → All P db.reservations
    → All P db'.reservations
reservations-keep P step db db' runs all =
    Runs-keeps handle (λ d. All P d.reservations) keep db db' runs all
  where
    keep :
        (r : Request) (s : Session)
        → All P s.db.reservations
        → Preserves (λ s'. All P s'.db.reservations) (handle r) s
    keep (Request.reading id customer) s h =
        unfold handle in Preserves-discard _ s (get_owned-steps P step id customer s h)
    keep (Request.release id customer values) s h =
        unfold handle release_owned in
        Preserves-discard _ s (
          finish_owned-steps P step ReservationStatus.released "reservation.released" id customer
            values s released_move h)
    keep (Request.consumption id customer values) s h =
        unfold handle consume_owned in
        Preserves-discard _ s (
          finish_owned-steps P step ReservationStatus.consumed "reservation.consumed" id customer
            values s consumed_move h)

-- Whatever reads, releases and consumptions are made and however they end, the table of
-- reservations goes on to satisfy the constraint that ties a reservation's timestamps to its status.
pub reservations-IsLifecycle :
    (db db' : Tables)
    → Runs handle db db'
    → All IsLifecycle db.reservations
    → All IsLifecycle db'.reservations
reservations-IsLifecycle = reservations-keep IsLifecycle Step-IsLifecycle

-- A reservation that is not active, whether released, expired, consumed or not yet active, is
-- changed by no read, release or consumption: the row with its identifier stays what it is.
pub finished_reservation_final :
    (finished : InventoryReservation) (db db' : Tables)
    → Runs handle db db'
    → finished.status ≢ ReservationStatus.active
    → All (λ r. r.id ≡ finished.id → r ≡ finished) db.reservations
    → All (λ r. r.id ≡ finished.id → r ≡ finished) db'.reservations
finished_reservation_final finished db db' runs done h = reservations-keep _ step db db' runs h
  where
    from_active :
        (old new : ReservationStatus) (archive : Bool)
        → Move old new archive
        → old ≡ ReservationStatus.active
    from_active _ _ _ Move.expiry = refl
    from_active _ _ _ Move.release = refl
    from_active _ _ _ Move.consumption = refl

    same_id : (r r' : InventoryReservation) → Step r r' → r'.id ≡ r.id
    same_id r _ (Step.moving _ status archive at actor now move) = unfold transition_row in refl

    refused : (r r' : InventoryReservation) → Step r r' → r ≡ finished → ⊥
    refused r _ (Step.moving _ status archive at actor now move) same =
        done (rw (sym same) (from_active r.status status archive move))

    step :
        (r r' : InventoryReservation)
        → Step r r'
        → (r.id ≡ finished.id → r ≡ finished)
        → r'.id ≡ finished.id
        → r' ≡ finished
    step r r' move held same = absurd (refused r r' move (held (sym (same_id r r' move) ∙ same)))

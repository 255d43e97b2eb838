-- ===== src/Reservations/Steps.antt =====
-- Reading, releasing and consuming a reservation changes the table by the moves of its life alone.
use apparel_network.Prelude.{
  ℕ, String, ◌≡◌, ◌∙◌, refl, sym, subst, Bool, true, false, some, All, All-save, All-scalar, arith,
  not-false, ◌!=◌, !=→eq, ||_split,
}
use mathlib.Core.Option.{some-injective}
use apparel_network.Tables.Enums.{ReservationStatus, reservation_status_enum, ◌is◌, is→eq}
use apparel_network.Tables.Commerce.{InventoryReservation}
use apparel_network.Session.{Session}
use apparel_network.Session.Preserves.{
  Preserves, Preserves-return, Preserves-fetch, Preserves-raise_if, Preserves-branch, Preserves-now,
  Preserves-update_where,
}
use apparel_network.Session.Rules.{
  Ensures, Ensures-map, Ensures-return, Ensures-branch, Ensures-now,
}
use apparel_network.Session.Queries.{Ensures-fetch, Ensures-update_where, Preserves-bind_ensures}
use apparel_network.Outbox.Rules.{Ensures-write, Preserves-write}
use apparel_network.Reservations.Repository.{
  reservation_key, store_reservation, get_for_customer, select_version, transition, transition_row,
}
use apparel_network.Reservations.Service.{
  ReservationTransition, expire, expire_if_needed, get_owned, terminal_transition, finish_owned,
}
use apparel_network.Reservations.Lifecycle.{Move, Step, select_version-get_for_customer}

module _ (P : InventoryReservation → Type 0)
    (step : (r r' : InventoryReservation) → Step r r' → P r → P r') where
  stored_reservation :
      (r' : InventoryReservation) (s : Session)
      → All P s.reservations
      → P r'
      → All P (store_reservation r' s.db).reservations
  unfolding store_reservation
  stored_reservation r' s all new =
      All-save reservation_key P P r' s.reservations all (λ x p ne. p) new

  -- The write of a move, of the row that was read.
  written :
      (reservation row : InventoryReservation) (status : ReservationStatus) (archive : Bool)
      (at actor_id : ℕ) (s : Session)
      → All P s.reservations
      → P reservation
      → Move reservation.status status archive
      → reservation ≡ row
      → All P
          (store_reservation
            (transition_row status at actor_id archive s.world.transaction_time row)
            s.db).reservations
  written reservation row status archive at actor_id s all old move same =
      stored_reservation _ s all (
        subst (λ r. P (transition_row status at actor_id archive s.world.transaction_time r)) same
          (step reservation _ (Step.moving reservation status archive at actor_id _ move) old))

  expire-steps :
      (reservation : InventoryReservation) (now : ℕ) (s : Session)
      → All P s.reservations
      → P reservation
      → reservation.status ≡ ReservationStatus.active
      → select_version reservation.id reservation.customer_id reservation.version s.db
        ≡ some reservation
      → Preserves (λ s'. All P s'.reservations) (expire reservation now) s
  unfolding expire transition
  expire-steps reservation now s all old active selected =
      Preserves-update_where _ _ _ _ _ all λ row found.
        let stored =
          written reservation row ReservationStatus.expired true now reservation.customer_id s all
            old (rw active Move.expiry) (some-injective _ _ (sym selected ∙ found)) in
        Preserves-write _ λ event. Preserves-return _ _ stored

  pub get_owned-steps :
      (reservation_id customer_id : ℕ) (s : Session)
      → All P s.reservations
      → Preserves (λ s'. All P s'.reservations) (get_owned reservation_id customer_id) s
  unfolding get_owned expire_if_needed
  get_owned-steps reservation_id customer_id s all = Preserves-fetch _ _ _ all λ reservation found.
      Preserves-now _ (
        Preserves-branch _ _ (λ _. Preserves-return _ _ all)
          λ due.
            expire-steps reservation _ _ all (read reservation found)
              (is→eq _ _ (not-false _ ((||_split _ _ due).0)))
              (select_version-get_for_customer reservation_id customer_id reservation.version s.db
                reservation found (same_version reservation.version)))
    where
      read :
          (reservation : InventoryReservation)
          → get_for_customer reservation_id customer_id s.db ≡ some reservation
          → P reservation
      read reservation e = unfold get_for_customer in All-scalar P _ s.reservations all e

      same_version : (v : ℕ) → (v != v) ≡ false
      same_version v = ground arith

  -- What a caller of `get_owned` knows of an active reservation: it is the row of the table.
  abbrev IsRead : InventoryReservation → Session → Type 0
  IsRead r s =
      r.status ≡ ReservationStatus.active
      → P r × (select_version r.id r.customer_id r.version s.db ≡ some r)

  expire-status :
      (reservation : InventoryReservation) (now : ℕ) (s : Session)
      → Ensures (expire reservation now) s (λ r s'. r.status ≡ ReservationStatus.expired)
  unfolding expire transition
  expire-status reservation now s =
      Ensures-update_where _ _ _ _ _
        λ row found. Ensures-write _ λ event. Ensures-return _ _ (unfold transition_row in refl)

  get_owned-IsRead :
      (reservation_id customer_id : ℕ) (s : Session)
      → All P s.reservations
      → Ensures (get_owned reservation_id customer_id) s IsRead
  unfolding get_owned expire_if_needed
  get_owned-IsRead reservation_id customer_id s all = Ensures-fetch _ _ _ λ reservation found.
      Ensures-now λ now.
        Ensures-branch _ _
          (λ _. Ensures-return _ _ λ active. (
            unfold get_for_customer in All-scalar P _ s.reservations all found,
            select_version-get_for_customer reservation_id customer_id reservation.version s.db
                reservation found (same_version reservation.version),
          ))
          (λ due.
            Ensures-map (expire-status reservation now _)
              λ r s' expired active. absurd (other (sym expired ∙ active)))
    where
      same_version : (v : ℕ) → (v != v) ≡ false
      same_version v = ground arith

      other : ReservationStatus.expired ≡ ReservationStatus.active → ⊥
      other e = ground arith

  pub finish_owned-steps :
      (status : ReservationStatus) (event : String) (reservation_id customer_id : ℕ)
      (values : ReservationTransition) (s : Session)
      → Move ReservationStatus.active status (status is ReservationStatus.released)
      → All P s.reservations
      → Preserves
          (λ s'. All P s'.reservations)
          (finish_owned status event reservation_id customer_id values)
          s
  unfolding finish_owned terminal_transition transition
  finish_owned-steps status event reservation_id customer_id values s move all =
      Preserves-bind_ensures (get_owned-steps reservation_id customer_id s all)
        (get_owned-IsRead reservation_id customer_id s all)
        λ reservation s' kept read. Preserves-raise_if _ kept λ guard.
          Preserves-raise_if _ kept λ version. Preserves-now _ (
            Preserves-update_where _ _ _ _ _ kept λ row found.
              let active : reservation.status ≡ ReservationStatus.active =
                is→eq _ _ (not-false _ guard) in
              let selected =
                subst
                  (λ v.
                    select_version reservation.id reservation.customer_id v s'.db
                    ≡ some reservation)
                  (!=→eq reservation.version values.expected_version version) ((read active).1) in
              let stored =
                written reservation row status (status is ReservationStatus.released) _
                  values.actor_id s' kept ((read active).0) (rw active move)
                  (some-injective _ _ (sym selected ∙ found)) in
              Preserves-write _ λ row'. Preserves-return _ _ stored)

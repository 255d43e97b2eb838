-- ===== src/Reservations/Frame.antt =====
-- Reading a reservation, which expires one that is due, touches the tables of reservations and
-- events alone.
use apparel_network.Prelude.{
  ℕ, List, ◌≡◌, refl, ap, ◌∙◌, Bool, true, arith, ◌&&◌, ◌==◌, ==_iff, scalar_test, select, sort_by,
}
use apparel_network.Tables.Commerce.{InventoryReservation}
use apparel_network.Tables.Shipping.{OutboxEvent}
use apparel_network.Session.{Session, Tables}
use apparel_network.Session.Preserves.{
  Preserves, Preserves-return, Preserves-bind, Preserves-gets, Preserves-fetch, Preserves-branch,
  Preserves-now, Preserves-update_where,
}
use apparel_network.Session.Rules.{
  Ensures, Ensures-return, Ensures-bind, Ensures-gets, Ensures-branch, Ensures-now,
}
use apparel_network.Session.Queries.{Ensures-fetch, Ensures-update_where}
use apparel_network.Outbox.Rules.{Preserves-write, Ensures-write}
use apparel_network.Reservations.Service.{detail_owned, get_owned, expire_if_needed, expire}
use apparel_network.Reservations.Repository.{
  transition, store_reservation, transition_row, get_for_customer, select_version,
  list_for_reservation, item_order,
}

module _ (I : Tables → Type 0)
    (on_reservations : (db : Tables) (rows : List InventoryReservation)
      → I db
      → I (record db { reservations = rows }))
    (on_outbox : (db : Tables) (rows : List OutboxEvent)
      → I db
      → I (record db { outbox = rows })) where
  pub detail_owned-frame :
      (reservation_id customer_id : ℕ) (s : Session)
      → I s.db
      → Preserves (λ s'. I s'.db) (detail_owned reservation_id customer_id) s
  unfolding detail_owned get_owned expire_if_needed expire transition store_reservation
  detail_owned-frame reservation_id customer_id s h =
      Preserves-bind
        (Preserves-fetch _ _ _ h λ reservation found. Preserves-now _ (
          Preserves-branch _ _ (λ _. Preserves-return _ _ h)
            λ due. Preserves-update_where _ _ _ _ _ h λ row selected.
              let stored = on_reservations _ _ h in
              Preserves-write _ λ event. Preserves-return _ _ (on_outbox _ _ stored)))
        λ reservation s' kept. Preserves-gets _ _ (Preserves-return _ s' kept)

-- The reservation that is read is the one that was asked for, and its items are those of the table.
get_owned-id :
    (reservation_id customer_id : ℕ) (s : Session)
    → Ensures
        (get_owned reservation_id customer_id)
        s
        (λ r s'. (r.id ≡ reservation_id) × (s'.reservation_items ≡ s.reservation_items))
unfolding get_owned expire_if_needed expire transition store_reservation
get_owned-id reservation_id customer_id s = Ensures-fetch _ _ _ λ reservation found.
    let same : reservation.id ≡ reservation_id =
      (==_iff _ _).0
        (unfold get_for_customer in first _ _ _ (scalar_test _ s.reservations found)) in
    Ensures-now λ now.
      Ensures-branch _ _ (λ _. Ensures-return _ _ (same, refl))
        λ due. Ensures-update_where _ _ _ _ _ λ row selected.
          let kept : row.id ≡ reservation.id = (==_iff _ _).0 (
            unfold select_version in
            first_of_four _ _ _ _ (scalar_test _ s.reservations selected)) in
          Ensures-write _ λ event. Ensures-return _ _ (unfold transition_row in kept ∙ same, refl)
  where
    first : (a b c : Bool) → (a && b && c) ≡ true → a ≡ true
    first a b c h = ground arith

    first_of_four : (a b c d : Bool) → (a && b && c && d) ≡ true → a ≡ true
    first_of_four a b c d h = ground arith

pub detail_owned-items :
    (reservation_id customer_id : ℕ) (s : Session)
    → Ensures
        (detail_owned reservation_id customer_id)
        s
        (λ r _. r.1 ≡ list_for_reservation reservation_id s.db)
unfolding detail_owned list_for_reservation
detail_owned-items reservation_id customer_id s =
    Ensures-bind (get_owned-id reservation_id customer_id s) λ reservation s' known.
      Ensures-gets _ _ (
        Ensures-return _ s' (
          rw known.0 (
            ap (λ rows. sort_by item_order (select (λ i. i.reservation_id == reservation_id) rows))
              known.1)))

-- ===== src/Outbox/Claims.antt =====
-- What `claim` gives the worker.
use apparel_network.Prelude.{
  ℕ, String, Bool, List, [], ◌∷◌, ◌≡◌, refl, sym, ◌∙◌, All, All-save, All-map, save,
}
use apparel_network.Tables.Shipping.{OutboxEvent}
use apparel_network.Session.{Session}
use apparel_network.Session.Succeeds.{
  Succeeds, Succeeds-map, Succeeds-return, Succeeds-bind, Succeeds-gets, Succeeds-modify,
}
use apparel_network.Outbox.Delivery.{
  claimed_event, claim_row, claim_each, claim, due, store_event, event_key,
}
use apparel_network.Outbox.Leases.{IsHeld}

-- every row that goes by the identifier of an event is held
abbrev pub IsLeasedTo : String → ℕ → List OutboxEvent → ℕ → Type 0
IsLeasedTo w now rows id = All (λ r. r.id ≡ id → IsHeld w now r) rows

claimed-IsHeld : (w : String) (now : ℕ) (row : OutboxEvent) → IsHeld w now (claim_row w now row)
unfolding claim_row
claimed-IsHeld w now row = record { processing = refl; at = refl; by = refl }

claim_row-id : (w : String) (now : ℕ) (row : OutboxEvent) → (claim_row w now row).id ≡ row.id
unfolding claim_row
claim_row-id w now row = refl

pub All-true : {A : Type 0} (xs : List A) → All {0, 0} (λ _. Unit) xs
All-true [] = tt
All-true (x ∷ xs) = (tt, All-true xs)

-- A row that is stored is leased, and the earlier leases stay.
store-IsLeasedTo :
    (w : String) (now : ℕ) (row : OutboxEvent) (rows : List OutboxEvent)
    → IsLeasedTo w now (save event_key (claim_row w now row) rows) row.id
store-IsLeasedTo w now row rows =
    All-save event_key (λ _. Unit) _ (claim_row w now row) rows (All-true rows)
      (λ x _ ne same. absurd (ne (same ∙ sym (claim_row-id w now row))))
      (λ _. claimed-IsHeld w now row)

keep-IsLeasedTo :
    (w : String) (now id : ℕ) (row : OutboxEvent) (rows : List OutboxEvent)
    → IsLeasedTo w now rows id
    → IsLeasedTo w now (save event_key (claim_row w now row) rows) id
keep-IsLeasedTo w now id row rows h =
    All-save event_key _ _ (claim_row w now row) rows h (λ x held ne. held)
      (λ _. claimed-IsHeld w now row)

claim_each-IsLeasedTo :
    (w : String) (now : ℕ) (rows : List OutboxEvent) (old : List ℕ) (s : Session)
    → All (IsLeasedTo w now s.outbox) old
    → Succeeds (claim_each w now rows) s (λ events s'.
      All (IsLeasedTo w now s'.outbox) old
      × All (λ event. IsLeasedTo w now s'.outbox event.id) events)
unfolding claim_each store_event claimed_event
claim_each-IsLeasedTo w now [] old s h = Succeeds-return _ s (h, tt)
claim_each-IsLeasedTo w now (row ∷ rows) old s h = Succeeds-modify _ (
    Succeeds-bind
      (claim_each-IsLeasedTo w now rows (row.id ∷ old) _ (
        store-IsLeasedTo w now row s.outbox,
        All-map _ _ (λ id held. keep-IsLeasedTo w now id row s.outbox held) old h,
      ))
      λ rest s' (kept, new). Succeeds-return _ s' (kept.1, (kept.0, new)))

-- A claim returns, and every event that it returns is leased to the worker from that time on.
pub claim-IsLeasedTo :
    (skip : ℕ → Bool) (names : List String) (w : String) (now lease limit : ℕ) (s : Session)
    → Succeeds
        (claim skip names w now lease limit)
        s
        (λ events s'. All (λ event. IsLeasedTo w now s'.outbox event.id) events)
unfolding claim due
claim-IsLeasedTo skip names w now lease limit s =
    Succeeds-gets _ _ (Succeeds-map (claim_each-IsLeasedTo w now _ [] s tt) λ events s' h. h.1)

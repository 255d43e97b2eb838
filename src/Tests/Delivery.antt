-- ===== src/Tests/Delivery.antt =====
-- Two workers and one event of the outbox.
use apparel_network.Prelude.{ℕ, ◌≡◌, refl, none, some, [], ◌∷◌, arith, All, false}
use apparel_network.Tables.Enums.{OutboxStatus}
use apparel_network.Tables.Shipping.{OutboxEvent}
use apparel_network.Session.{Session}
use apparel_network.Session.Succeeds.{Succeeds}
use apparel_network.Outbox.Delivery.{claim, mark_processed}
use apparel_network.Outbox.Lifecycle.{Call, after_call}
use apparel_network.Outbox.Leases.{
  Runs, IsDone, IsFailed, lease_exclusive, published_final, IsFailed-stays,
}
use apparel_network.Outbox.Consistency.{IsConsistent, call-IsConsistent}
use apparel_network.Outbox.Claims.{IsLeasedTo, claim-IsLeasedTo}
use apparel_network.Outbox.Receipts.{Acknowledged, mark_processed-Acknowledged}
use apparel_network.Tests.Data.{session_of, tables_with, event_in, authorized_payment}

abbrev held : Session
held = session_of (
    tables_with authorized_payment
      (event_in 51 OutboxStatus.processing (some 100) (some "first") none ∷ []))

abbrev delivered : Session
delivered =
    session_of (
      tables_with authorized_payment (event_in 51 OutboxStatus.published none none (some 120) ∷ []))

abbrev given_up : Session
given_up =
    session_of
      (tables_with authorized_payment (event_in 51 OutboxStatus.failed none none none ∷ []))

abbrev waiting : Session
waiting =
    session_of
      (tables_with authorized_payment (event_in 51 OutboxStatus.pending none none none ∷ []))

-- the claim of a second worker at a time
abbrev second_claim : ℕ → Call
second_claim now = Call.claiming (λ _. false) ("order.created" ∷ []) "second" now 60 10

abbrev leased_event : OutboxEvent
leased_event = event_in 51 OutboxStatus.processing (some 100) (some "first") none

lease_exclusive_example :
    All (λ r. r.id ≡ 51 → r ≡ leased_event) (after_call (second_claim 150) held).outbox
lease_exclusive_example =
    lease_exclusive "first" 100 leased_event held (after_call (second_claim 150) held)
      (record { processing = refl; at = refl; by = refl })
      (Runs.then_call held held (second_claim 150) (Runs.no_call held) (omega arith))
      ((λ _. refl), tt)

published_final_example :
    All (λ r. r.id ≡ 51 → IsDone r) (after_call (second_claim 500) delivered).outbox
published_final_example =
    published_final 51 delivered (after_call (second_claim 500) delivered)
      (Runs.then_call delivered delivered (second_claim 500) (Runs.no_call delivered) tt)
      ((λ _. refl), tt)

IsFailed-stays_example :
    All (λ r. r.id ≡ 51 → IsFailed r) (after_call (second_claim 500) given_up).outbox
IsFailed-stays_example =
    IsFailed-stays 51 given_up (after_call (second_claim 500) given_up)
      (Runs.then_call given_up given_up (second_claim 500) (Runs.no_call given_up) tt)
      ((λ _. refl), tt)

claim-IsLeasedTo_example :
    Succeeds
      (claim (λ _. false) ("order.created" ∷ []) "first" 100 60 10)
      waiting
      (λ events s'. All (λ event. IsLeasedTo "first" 100 s'.outbox event.id) events)
claim-IsLeasedTo_example =
    claim-IsLeasedTo (λ _. false) ("order.created" ∷ []) "first" 100 60 10 waiting

mark_processed-Acknowledged_example :
    Succeeds
      (mark_processed "commerce-events" 51 "first" 120)
      held
      (Acknowledged "commerce-events" 51 "first" 120 held)
mark_processed-Acknowledged_example =
    mark_processed-Acknowledged "commerce-events" 51 "first" 120 held

waiting-IsConsistent : All IsConsistent waiting.outbox
waiting-IsConsistent = (
  record {
    leased = λ e. ground arith;
    free = λ _. (refl, refl);
    delivered = λ e. ground arith;
    retries = omega arith;
    version_positive = omega arith;
  },
  tt,
)

call-IsConsistent_example : All IsConsistent (after_call (second_claim 500) waiting).outbox
call-IsConsistent_example = call-IsConsistent (second_claim 500) waiting waiting-IsConsistent

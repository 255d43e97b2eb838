-- ===== src/Outbox/Consistency.antt =====
-- How the columns of a row of the outbox agree with each other.
use apparel_network.Prelude.{
  true, none, ◌≡◌, ◌≢◌, refl, ◌≤◌, leb, All, is_some, arith, Bool-cases, inl, inr,
}
use apparel_network.Tables.Enums.{OutboxStatus, outbox_status_enum}
use apparel_network.Tables.Shipping.{OutboxEvent}
use apparel_network.Session.{Session}
use apparel_network.Outbox.Delivery.{claim_row, processed_row, pending_row, failed_row}
use apparel_network.Outbox.Lifecycle.{Call, perform, after_call, call-rows}

-- What the columns of a row say together.
pub record IsConsistent (r : OutboxEvent) : Type 0 where
  pub leased :
      r.status ≡ OutboxStatus.processing
      → (is_some r.locked_at ≡ true) × (is_some r.locked_by ≡ true)
  pub free : r.status ≢ OutboxStatus.processing → (r.locked_at ≡ none) × (r.locked_by ≡ none)
  pub delivered : r.status ≡ OutboxStatus.published → is_some r.published_at ≡ true
  pub retries : r.retry_count ≤ r.attempts
  pub version_positive : 1 ≤ r.version

perform-IsConsistent : (c : Call) (r : OutboxEvent) → IsConsistent r → IsConsistent (perform c r)
unfolding perform claim_row processed_row pending_row failed_row
perform-IsConsistent (Call.claiming skip names w now lease limit) r h = record {
  leased = λ _. (refl, refl);
  free = λ ne. absurd (ne refl);
  delivered = λ e. ground arith;
  retries = ground arith;
  version_positive = ground arith;
}
perform-IsConsistent (Call.processing consumer id w now) r h = record {
  leased = λ e. ground arith;
  free = λ _. (refl, refl);
  delivered = λ _. refl;
  retries = h.retries;
  version_positive = ground arith;
}
perform-IsConsistent (Call.releasing id w now) r h = record {
  leased = λ e. ground arith;
  free = λ _. (refl, refl);
  delivered = λ e. ground arith;
  retries = h.retries;
  version_positive = ground arith;
}
perform-IsConsistent (Call.failing id w now error most base) r h =
    elim (Bool-cases (leb most r.attempts)) [
      | inl t ↦ rw t (record {
        leased = λ e. ground arith;
        free = λ _. (refl, refl);
        delivered = λ e. ground arith;
        retries = ground arith;
        version_positive = ground arith;
      })
      | inr t ↦ rw t (record {
        leased = λ e. ground arith;
        free = λ _. (refl, refl);
        delivered = λ e. ground arith;
        retries = ground arith;
        version_positive = ground arith;
      })
    ]
perform-IsConsistent (Call.recovering id now lease) r h = record {
  leased = λ e. ground arith;
  free = λ _. (refl, refl);
  delivered = λ e. ground arith;
  retries = h.retries;
  version_positive = ground arith;
}

-- Every call of the worker keeps the columns of all rows consistent: a row is processing just when
-- it has a lease, a published row has its time of publication, and the retries recorded are at
-- most the attempts made.
pub call-IsConsistent :
    (c : Call) (s : Session) → All IsConsistent s.outbox → All IsConsistent (after_call c s).outbox
call-IsConsistent c s h = call-rows IsConsistent c (λ r ok _. perform-IsConsistent c r ok) s h

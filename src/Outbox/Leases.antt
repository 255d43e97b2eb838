-- ===== src/Outbox/Leases.antt =====
-- Leases on the rows of the outbox: who may change a leased row, and the
-- states that no worker leaves.
use apparel_network.Prelude.{
  ℕ, String, true, false, some, List, ◌≡◌, ◌≢◌, refl, sym, subst, ◌∙◌, ◌<◌, ◌+◌, ◌&&◌, ◌==◌, All,
  arith, &&_split, inl, inr, ◌⊎◌,
}
use apparel_network.Prelude.Text.{eq_string→eq}
use apparel_network.Tables.Enums.{
  OutboxStatus, outbox_status_enum, outbox_status_ordinal, ◌is◌, is→eq,
}
use apparel_network.Tables.Shipping.{OutboxEvent}
use apparel_network.Session.{Session}
use apparel_network.Outbox.Delivery.{
  claimable, claim_row, is_stale, locked_before, holds, locked_by_worker, processed_row,
  pending_row, failed_row, is_problematic,
}
use apparel_network.Outbox.Lifecycle.{Call, permits, perform, after_call, call-rows}

-- The sessions that calls of one kind lead to.
pub data Runs (Allowed : Call → Type 0) : Session → Session → Type 0 where
  no_call : (s : Session) → Runs Allowed s s
  then_call :
      (s mid : Session) (c : Call)
      → Runs Allowed s mid
      → Allowed c
      → Runs Allowed s (after_call c mid)

Runs-rows :
    (Allowed : Call → Type 0) (P : OutboxEvent → Type 0)
    → ((c : Call) (r : OutboxEvent) → Allowed c → P r → permits c r ≡ true → P (perform c r))
    → (s s' : Session) → Runs Allowed s s'
    → All P s.outbox
    → All P s'.outbox
Runs-rows Allowed P step s _ (Runs.no_call _) h = h
Runs-rows Allowed P step s _ (Runs.then_call _ mid c before allowed) h =
    call-rows P c (λ r p ok. step c r allowed p ok) mid (Runs-rows Allowed P step s mid before h)

-- A row that a worker has leased at a time.
pub record IsHeld (w : String) (t : ℕ) (r : OutboxEvent) : Type 0 where
  pub processing : r.status ≡ OutboxStatus.processing
  pub at : r.locked_at ≡ some t
  pub by : r.locked_by ≡ some w

-- The calls of the others while the lease lasts: the finishing calls of other workers, and claims
-- and recoveries before it expires.
abbrev pub IsForeign : String → ℕ → Call → Type 0
IsForeign w t (Call.claiming skip names w' now lease limit) = now < t + lease
IsForeign w t (Call.processing consumer id w' now) = w ≢ w'
IsForeign w t (Call.releasing id w' now) = w ≢ w'
IsForeign w t (Call.failing id w' now error most base) = w ≢ w'
IsForeign w t (Call.recovering id now lease) = now < t + lease

held-is_stale :
    (w : String) (t lease now : ℕ) (r : OutboxEvent)
    → IsHeld w t r
    → now < t + lease
    → is_stale lease now r ≡ false
unfolding is_stale locked_before
held-is_stale w t lease now r h early = rw (h.processing, h.at) (ground arith)

held-claimable :
    (w : String) (t : ℕ) (names : List String) (lease now : ℕ) (r : OutboxEvent)
    → IsHeld w t r
    → now < t + lease
    → claimable names lease now r ≡ false
unfolding claimable ◌is◌ outbox_status_ordinal
held-claimable w t names lease now r h early =
    rw (held-is_stale w t lease now r h early, h.processing) refl

held-is_problematic :
    (w : String) (t lease now : ℕ) (r : OutboxEvent)
    → IsHeld w t r
    → now < t + lease
    → is_problematic lease now r ≡ false
unfolding is_problematic ◌is◌ outbox_status_ordinal
held-is_problematic w t lease now r h early =
    rw (held-is_stale w t lease now r h early, h.processing) refl

held-holds :
    (w w' : String) (t id : ℕ) (r : OutboxEvent) → IsHeld w t r → w ≢ w' → holds id w' r ≡ true → ⊥
unfolding holds locked_by_worker
held-holds w w' t id r h ne e =
    let parts =
      &&_split ((r.id == id) && (r.status is OutboxStatus.processing))
        (locked_by_worker r.locked_by w') e in
    let named : locked_by_worker (some w) w' ≡ true = rw h.by at parts.1 in
    ne (eq_string→eq w w' named)

-- A call changes no identifier.
perform-id : (c : Call) (r : OutboxEvent) → (perform c r).id ≡ r.id
unfolding perform claim_row processed_row pending_row failed_row
perform-id (Call.claiming skip names w now lease limit) r = refl
perform-id (Call.processing consumer id w now) r = refl
perform-id (Call.releasing id w now) r = refl
perform-id (Call.failing id w now error most base) r = refl
perform-id (Call.recovering id now lease) r = refl

foreign_refused :
    (w : String) (t : ℕ) (c : Call) (r : OutboxEvent)
    → IsForeign w t c
    → IsHeld w t r
    → permits c r ≡ true
    → ⊥
unfolding permits
foreign_refused w t (Call.claiming skip names w' now lease limit) r early h ok =
    cc (ok, held-claimable w t names lease now r h early)
foreign_refused w t (Call.processing consumer id w' now) r ne h ok = held-holds w w' t id r h ne ok
foreign_refused w t (Call.releasing id w' now) r ne h ok = held-holds w w' t id r h ne ok
foreign_refused w t (Call.failing id w' now error most base) r ne h ok =
    held-holds w w' t id r h ne ok
foreign_refused w t (Call.recovering id now lease) r early h ok =
    cc ((&&_split (r.id == id) _ ok).1, held-is_problematic w t lease now r h early)

-- While the lease of a worker lasts, no finishing call of another worker, no claim and no recovery
-- changes the leased row: the row with its identifier stays as it is, in every column.
pub lease_exclusive :
    (w : String) (t : ℕ) (leased : OutboxEvent) (s s' : Session)
    → IsHeld w t leased
    → Runs (IsForeign w t) s s'
    → All (λ r. r.id ≡ leased.id → r ≡ leased) s.outbox
    → All (λ r. r.id ≡ leased.id → r ≡ leased) s'.outbox
lease_exclusive w t leased s s' held runs h = Runs-rows (IsForeign w t) _ step s s' runs h
  where
    step :
        (c : Call) (r : OutboxEvent)
        → IsForeign w t c
        → (r.id ≡ leased.id → r ≡ leased)
        → permits c r ≡ true
        → (perform c r).id ≡ leased.id
        → perform c r ≡ leased
    step c r foreign same ok named =
        let here : r ≡ leased = same (sym (perform-id c r) ∙ named) in
        absurd (foreign_refused w t c r foreign (subst (IsHeld w t) (sym here) held) ok)

holds-processing :
    (id : ℕ) (w : String) (r : OutboxEvent)
    → holds id w r ≡ true
    → r.status ≡ OutboxStatus.processing
unfolding holds
holds-processing id w r e =
    let parts =
      &&_split ((r.id == id) && (r.status is OutboxStatus.processing))
        (locked_by_worker r.locked_by w) e in
    is→eq r.status OutboxStatus.processing ((&&_split (r.id == id) _ parts.0).1)

abbrev pub IsDone : OutboxEvent → Type 0
IsDone r = r.status ≡ OutboxStatus.published

abbrev pub IsFailed : OutboxEvent → Type 0
IsFailed r = r.status ≡ OutboxStatus.failed

settled-claimable :
    (names : List String) (lease now : ℕ) (r : OutboxEvent)
    → IsDone r ⊎ IsFailed r
    → claimable names lease now r ≡ false
unfolding claimable is_stale ◌is◌ outbox_status_ordinal
settled-claimable names lease now r (inl e) = rw e refl
settled-claimable names lease now r (inr e) = rw e refl

settled-holds :
    (id : ℕ) (w : String) (r : OutboxEvent) → IsDone r ⊎ IsFailed r → holds id w r ≡ true → ⊥
settled-holds id w r (inl e) ok = let p = holds-processing id w r ok in ground arith
settled-holds id w r (inr e) ok = let p = holds-processing id w r ok in ground arith

done-is_problematic :
    (lease now : ℕ) (r : OutboxEvent) → IsDone r → is_problematic lease now r ≡ false
unfolding is_problematic is_stale ◌is◌ outbox_status_ordinal
done-is_problematic lease now r e = rw e refl

done_refused : (c : Call) (r : OutboxEvent) → IsDone r → permits c r ≡ true → ⊥
unfolding permits
done_refused (Call.claiming skip names w now lease limit) r e ok =
    cc (ok, settled-claimable names lease now r (inl e))
done_refused (Call.processing consumer id w now) r e ok = settled-holds id w r (inl e) ok
done_refused (Call.releasing id w now) r e ok = settled-holds id w r (inl e) ok
done_refused (Call.failing id w now error most base) r e ok = settled-holds id w r (inl e) ok
done_refused (Call.recovering id now lease) r e ok =
    cc ((&&_split (r.id == id) _ ok).1, done-is_problematic lease now r e)

-- A published event stays published along every sequence of calls, whoever makes them and
-- whenever: no claim, failure or recovery makes it pending again.
pub published_final :
    (id : ℕ) (s s' : Session)
    → Runs (λ _. Unit) s s'
    → All (λ r. r.id ≡ id → IsDone r) s.outbox
    → All (λ r. r.id ≡ id → IsDone r) s'.outbox
published_final id s s' runs h =
    Runs-rows (λ _. Unit) _
      (λ c r _ done ok same. absurd (done_refused c r (done (sym (perform-id c r) ∙ same)) ok)) s s'
      runs h

-- The calls that are not an operator's recovery.
abbrev pub IsWork : Call → Type 0
IsWork (Call.recovering id now lease) = ⊥
IsWork _ = Unit

failed_refused : (c : Call) (r : OutboxEvent) → IsWork c → IsFailed r → permits c r ≡ true → ⊥
unfolding permits
failed_refused (Call.claiming skip names w now lease limit) r _ e ok =
    cc (ok, settled-claimable names lease now r (inr e))
failed_refused (Call.processing consumer id w now) r _ e ok = settled-holds id w r (inr e) ok
failed_refused (Call.releasing id w now) r _ e ok = settled-holds id w r (inr e) ok
failed_refused (Call.failing id w now error most base) r _ e ok = settled-holds id w r (inr e) ok
failed_refused (Call.recovering id now lease) r work e ok = absurd work

-- An event that has failed for good stays failed along every sequence of calls without an operator's
-- recovery.
pub IsFailed-stays :
    (id : ℕ) (s s' : Session)
    → Runs IsWork s s'
    → All (λ r. r.id ≡ id → IsFailed r) s.outbox
    → All (λ r. r.id ≡ id → IsFailed r) s'.outbox
IsFailed-stays id s s' runs h =
    Runs-rows IsWork _
      (λ c r work gone ok same.
        absurd (failed_refused c r work (gone (sym (perform-id c r) ∙ same)) ok))
      s s' runs h

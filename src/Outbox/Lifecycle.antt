-- ===== src/Outbox/Lifecycle.antt =====
-- What each call of the worker's repository does to the rows of the outbox, and the principle that
-- gives the invariants of the rows.
use apparel_network.Prelude.{
  ℕ, String, Bool, true, Option, none, some, List, [], ◌∷◌, ◌&&◌, ◌==◌, ◌≡◌, refl, All,
  All-select_test, All-sort_by, All-take, All-map, All-save, All-scalar, scalar_test, &&_split,
  scalar, save,
}
use apparel_network.Prelude.Text.{Text}
use apparel_network.Tables.Shipping.{OutboxEvent}
use apparel_network.Session.{discard, Session, Action}
use apparel_network.Session.Preserves.{
  Preserves, Preserves-discard, Preserves-return, Preserves-bind, Preserves-gets, Preserves-modify,
  Preserves-modify_last,
}
use apparel_network.Outbox.Delivery.{
  claimable, claim_row, claim, claim_each, due, due_order, holds, claimed, on_row, mark_processed,
  processed_row, release, pending_row, mark_failed, failed_row, is_problematic, recover,
  recover_row, store_event, event_key, acknowledge,
}

-- The calls, with their arguments.
pub data Call : Type 0 where
  claiming : (skip : ℕ → Bool) → List String → String → (now lease_timeout limit : ℕ) → Call
  processing : (consumer_name : String) (event_id : ℕ) → String → (now : ℕ) → Call
  releasing : (event_id : ℕ) → String → (now : ℕ) → Call
  failing :
      (event_id : ℕ) → String → (now : ℕ) → Text → (max_attempts retry_base_seconds : ℕ) → Call
  recovering : (event_id now lease_timeout : ℕ) → Call

unfoldable pub call : Call → Action Unit
unfolding discard
call (Call.claiming skip names w now lease limit) = discard (claim skip names w now lease limit)
call (Call.processing consumer id w now) = discard (mark_processed consumer id w now)
call (Call.releasing id w now) = discard (release id w now)
call (Call.failing id w now error most base) = discard (mark_failed id w now error most base)
call (Call.recovering id now lease) = discard (recover id now lease)

-- The rows that a call may change, and what it makes of one.
unfoldable pub permits : Call → OutboxEvent → Bool
permits (Call.claiming skip names w now lease limit) row = claimable names lease now row
permits (Call.processing consumer id w now) row = holds id w row
permits (Call.releasing id w now) row = holds id w row
permits (Call.failing id w now error most base) row = holds id w row
permits (Call.recovering id now lease) row = (row.id == id) && is_problematic lease now row

unfoldable pub perform : Call → OutboxEvent → OutboxEvent
perform (Call.claiming skip names w now lease limit) row = claim_row w now row
perform (Call.processing consumer id w now) row = processed_row now row
perform (Call.releasing id w now) row = pending_row now row
perform (Call.failing id w now error most base) row = failed_row error most base now row
perform (Call.recovering id now lease) row = pending_row now row

-- the tables after a call
unfoldable pub after_call : Call → Session → Session
after_call c s = (call c s).1

module _ (P : OutboxEvent → Type 0) where
  stored-All :
      (row : OutboxEvent) (rows : List OutboxEvent)
      → All P rows
      → P row
      → All P (save event_key row rows)
  stored-All row rows h new = All-save event_key P P row rows h (λ x p ne. p) new

  claim_each-KeepsRows :
      (w : String) (now : ℕ) (rows : List OutboxEvent) (s : Session)
      → All (λ r. P (claim_row w now r)) rows
      → All P s.outbox
      → Preserves (λ s'. All P s'.outbox) (claim_each w now rows) s
  unfolding claim_each store_event
  claim_each-KeepsRows w now [] s h all = Preserves-return _ s all
  claim_each-KeepsRows w now (row ∷ rows) s h all = Preserves-modify _ (
      Preserves-bind (claim_each-KeepsRows w now rows _ h.1 (stored-All _ s.outbox all h.0))
        λ rest s' kept. Preserves-return _ s' kept)

  on_row-KeepsRows :
      (found : Option OutboxEvent) (change : OutboxEvent → Action Unit) (s : Session)
      → All P s.outbox
      → ((row : OutboxEvent) → found ≡ some row → Preserves (λ s'. All P s'.outbox) (change row) s)
      → Preserves (λ s'. All P s'.outbox) (on_row found change) s
  unfolding on_row
  on_row-KeepsRows none change s all h = Preserves-return _ s all
  on_row-KeepsRows (some row) change s all h =
      Preserves-bind (h row refl) λ _ s' kept. Preserves-return _ s' kept

  recover_row-KeepsRows :
      (found : Option OutboxEvent) (now : ℕ) (s : Session)
      → All P s.outbox
      → ((row : OutboxEvent) → found ≡ some row → P (pending_row now row))
      → Preserves (λ s'. All P s'.outbox) (recover_row found now) s
  unfolding recover_row store_event
  recover_row-KeepsRows none now s all h = Preserves-return _ s all
  recover_row-KeepsRows (some row) now s all h =
      Preserves-modify _ (Preserves-return _ _ (stored-All _ s.outbox all (h row refl)))

  found-step :
      (c : Call) (p : OutboxEvent → Bool) (s : Session) {row : OutboxEvent}
      → ((r : OutboxEvent) → P r → permits c r ≡ true → P (perform c r))
      → ((r : OutboxEvent) → p r ≡ true → permits c r ≡ true)
      → All P s.outbox
      → scalar p s.outbox ≡ some row
      → P (perform c row)
  found-step c p s {row} step within all e =
      step row (All-scalar P p s.outbox all e) (within row (scalar_test p s.outbox e))

  -- A predicate of all rows of the outbox that the change of a row under a call's condition keeps
  -- is kept by the call.
  pub call-rows :
      (c : Call)
      → ((row : OutboxEvent) → P row → permits c row ≡ true → P (perform c row))
      → (s : Session) → All P s.outbox
      → All P (after_call c s).outbox
  unfolding call after_call permits perform
  call-rows c step s all = (run c step).after
    where
      run :
          (c : Call)
          → ((row : OutboxEvent) → P row → permits c row ≡ true → P (perform c row))
          → Preserves (λ s'. All P s'.outbox) (call c) s
      run (Call.claiming skip names w now lease limit) step = Preserves-discard _ s (
          unfold claim due in
          Preserves-gets _ _ (
            claim_each-KeepsRows w now _ s
              (All-take _ limit _ (
                All-sort_by _ due_order _ (
                  All-map _ _ (λ x h. step x h.0 ((&&_split _ _ h.1).0)) _
                    (All-select_test P _ s.outbox all))))
              all))
      run (Call.processing consumer id w now) step = Preserves-discard _ s (
          unfold mark_processed claimed acknowledge store_event in
          Preserves-gets _ _ (
            on_row-KeepsRows _ _ s all λ row e. Preserves-modify _ (
              Preserves-modify_last _ (
                stored-All _ s.outbox all
                  (found-step (Call.processing consumer id w now) _ s step (λ r h. h) all e)))))
      run (Call.releasing id w now) step = Preserves-discard _ s (
          unfold release claimed store_event in
          Preserves-gets _ _ (
            on_row-KeepsRows _ _ s all λ row e. Preserves-modify_last _ (
              stored-All _ s.outbox all
                (found-step (Call.releasing id w now) _ s step (λ r h. h) all e))))
      run (Call.failing id w now error most base) step = Preserves-discard _ s (
          unfold mark_failed claimed store_event in
          Preserves-gets _ _ (
            on_row-KeepsRows _ _ s all λ row e. Preserves-modify_last _ (
              stored-All _ s.outbox all
                (found-step (Call.failing id w now error most base) _ s step (λ r h. h) all e))))
      run (Call.recovering id now lease) step = Preserves-discard _ s (
          unfold recover in
          Preserves-gets _ _ (
            recover_row-KeepsRows _ now s all
              λ row e. found-step (Call.recovering id now lease) _ s step (λ r h. h) all e))

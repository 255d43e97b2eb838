-- ===== src/Outbox/Receipts.antt =====
-- What `mark_processed` promises: the receipt of an event and its publication.
use apparel_network.Prelude.Text.{eq_string, eq_string_refl, eq_string→eq}
use apparel_network.Prelude.Members.{Among, scalar-Among, scalar-none}
use apparel_network.Prelude.{
  arith, any, scalar, scalar_test, ap, All-map, Bool-cases, inl, inr, &&_split, ==_iff, ℕ, String,
  Bool, true, false, Option, none, some, List, [], ◌∷◌, ◌++◌, ◌≡◌, refl, sym, ◌∙◌, ◌==◌, ◌&&◌, All,
  All-save, save,
}
use apparel_network.Tables.Enums.{OutboxStatus, outbox_status_enum, ◌is◌, is→eq, is_refl}
use apparel_network.Tables.Shipping.{OutboxEvent}
use apparel_network.Session.{Session, Tables, modify, ◌>>◌}
use apparel_network.Session.Succeeds.{
  Succeeds, Succeeds-modify_last, Succeeds-return, Succeeds-bind, Succeeds-gets, Succeeds-modify,
}
use apparel_network.Outbox.Delivery.{
  locked_by_worker, acknowledge, add_receipt, on_row, mark_processed, claimed, holds, processed_row,
  store_event, event_key,
}
use apparel_network.Outbox.Claims.{All-true}

abbrev pub HasReceipt : ℕ → String → Tables → Type 0
HasReceipt event_id consumer db =
    any (λ r. (r.event_id == event_id) && eq_string r.consumer_name consumer) db.receipts ≡ true

any-snoc :
    {A : Type 0} (p : A → Bool) (xs : List A) (a : A) → p a ≡ true → any p (xs ++ a ∷ []) ≡ true
any-snoc p [] a h = rw h refl
any-snoc p (x ∷ xs) a h = elim (Bool-cases (p x)) [
  | inl t ↦ rw t refl
  | inr t ↦ rw t (any-snoc p xs a h)
]

acknowledge-HasReceipt :
    (event_id : ℕ) (consumer : String) (now : ℕ) (db : Tables)
    → HasReceipt event_id consumer (acknowledge event_id consumer now db)
unfolding acknowledge add_receipt
acknowledge-HasReceipt event_id consumer now db =
    elim (Bool-cases
      (any (λ r. (r.event_id == event_id) && eq_string r.consumer_name consumer) db.receipts)) [
        | inl t ↦ rw t t
        | inr t ↦ rw t (
            any-snoc _ db.receipts _
              (fresh (eq_string consumer consumer) (eq_string_refl consumer)))
      ]
  where
    fresh : (b : Bool) → b ≡ true → ((event_id == event_id) && b) ≡ true
    fresh b h = ground arith

-- A row whose lease the worker has.
pub record IsLease (event_id : ℕ) (w : String) (r : OutboxEvent) : Type 0 where
  pub named : r.id ≡ event_id
  pub processing : r.status ≡ OutboxStatus.processing
  pub by : r.locked_by ≡ some w

-- A row that was published at a time, and has no lease and no error.
pub record IsPublished (now : ℕ) (r : OutboxEvent) : Type 0 where
  pub status : r.status ≡ OutboxStatus.published
  pub at : r.published_at ≡ some now
  pub unlocked : (r.locked_at ≡ none) × (r.locked_by ≡ none)
  pub no_error : r.last_error ≡ none

-- What `mark_processed` says: true when the worker has the lease of the event, and then the event has
-- its receipt and is published at that time; false when the worker has it of no row, and then nothing
-- has changed.
abbrev pub Acknowledged : String → ℕ → String → ℕ → Session → Bool → Session → Type 0
Acknowledged consumer event_id w now s true s' =
    ((row : OutboxEvent) × Among row s.outbox × IsLease event_id w row)
    × HasReceipt event_id consumer s'.db
    × All (λ r. r.id ≡ event_id → IsPublished now r) s'.outbox
Acknowledged consumer event_id w now s false s' =
    All (λ r. IsLease event_id w r → ⊥) s.outbox × (s' ≡ s)

holds-IsLease : (id : ℕ) (w : String) (r : OutboxEvent) → holds id w r ≡ true → IsLease id w r
unfolding holds locked_by_worker
holds-IsLease id w r e =
    let parts =
      &&_split ((r.id == id) && (r.status is OutboxStatus.processing))
        (locked_by_worker r.locked_by w) e in
    let tests = &&_split (r.id == id) (r.status is OutboxStatus.processing) parts.0 in
    record {
      named = (==_iff _ _).0 tests.0;
      processing = is→eq r.status OutboxStatus.processing tests.1;
      by = locked r.locked_by parts.1;
    }
  where
    locked : (o : Option String) → locked_by_worker o w ≡ true → o ≡ some w
    locked none h = cc
    locked (some v) h = ap some (eq_string→eq v w h)

IsLease-holds : (id : ℕ) (w : String) (r : OutboxEvent) → IsLease id w r → holds id w r ≡ true
unfolding holds locked_by_worker
IsLease-holds id w r lease =
    rw (lease.processing, lease.by)
      (all_true (r.id == id) (OutboxStatus.processing is OutboxStatus.processing) (eq_string w w)
        ((==_iff _ _).1 lease.named) (is_refl OutboxStatus.processing) (eq_string_refl w))
  where
    all_true : (a b c : Bool) → a ≡ true → b ≡ true → c ≡ true → (a && b && c) ≡ true
    all_true a b c x y z = ground arith

Acknowledged-row :
    (consumer : String) (event_id : ℕ) (w : String) (now : ℕ) (s : Session)
    (found : Option OutboxEvent)
    → scalar (holds event_id w) s.outbox ≡ found
    → Succeeds
        (on_row found λ r. (do
          modify (acknowledge event_id consumer now)
          modify (store_event (processed_row now r))))
        s
        (Acknowledged consumer event_id w now s)
unfolding on_row
Acknowledged-row consumer event_id w now s none e = Succeeds-return _ s (
  All-map (λ r. holds event_id w r ≡ false) _
      (λ r no lease. cc (no, IsLease-holds event_id w r lease)) s.outbox (scalar-none _ s.outbox e),
  refl,
)
Acknowledged-row consumer event_id w now s (some row) e =
    Succeeds-bind {P = λ _ s'. Acknowledged consumer event_id w now s true s'}
      (Succeeds-modify _ (
        Succeeds-modify_last _ (
          unfold store_event in
          (
            (row, scalar-Among _ s.outbox e, lease),
            acknowledge-HasReceipt event_id consumer now s.db,
            published_rows (acknowledge event_id consumer now s.db).outbox,
          ))))
      λ _ s' h. Succeeds-return _ s' h
  where
    lease : IsLease event_id w row
    lease = holds-IsLease event_id w row (scalar_test _ s.outbox e)

    published_rows :
        (rows : List OutboxEvent)
        → All
            (λ r. r.id ≡ event_id → IsPublished now r)
            (save event_key (processed_row now row) rows)
    published_rows rows =
        unfold processed_row in
        All-save event_key (λ _. Unit) _ (processed_row now row) rows (All-true rows)
          (λ x _ ne same. absurd (ne (same ∙ sym lease.named)))
          (λ _. record { status = refl; at = refl; unlocked = (refl, refl); no_error = refl })

-- `mark_processed` returns in every session: true when the worker has the lease of the event, which
-- then has its receipt and is published at that time without a lease or an error, and false when the
-- worker has the lease of no row with that identifier, and then nothing has changed.
pub mark_processed-Acknowledged :
    (consumer : String) (event_id : ℕ) (w : String) (now : ℕ) (s : Session)
    → Succeeds (mark_processed consumer event_id w now) s (Acknowledged consumer event_id w now s)
unfolding mark_processed claimed
mark_processed-Acknowledged consumer event_id w now s =
    Succeeds-gets _ _ (Acknowledged-row consumer event_id w now s _ refl)

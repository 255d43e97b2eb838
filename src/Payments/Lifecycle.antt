-- ===== src/Payments/Lifecycle.antt =====
-- The life of a payment: the moves between its statuses, and the constraint of the table that ties
-- its timestamps to the status.
use apparel_network.Prelude.{
  ℕ, ◌≡◌, Bool, true, false, Option, some, ◌∷◌, [], is_some, is_none, arith, ◌&&◌, ◌!=◌, inl, inr,
  ◌⊎◌, Bool-cases, if◌then◌else◌, ◌≤◌,
}
use apparel_network.Tables.Enums.{
  PaymentStatus, payment_status_enum, payment_status_ordinal, ◌is◌, is→eq,
}
use apparel_network.Tables.Commerce.{PaymentIntent}
use apparel_network.Session.Selection.{version-read}
use apparel_network.Session.{Tables}
use apparel_network.Payments.Repository.{get_for_customer, select_version, transition_row, stamp}
use apparel_network.Payments.Service.{one_of}

-- The moves that the service makes.
pub data Move : PaymentStatus → PaymentStatus → Type 0 where
  authorization : Move PaymentStatus.created PaymentStatus.authorized
  refusal : Move PaymentStatus.created PaymentStatus.failed
  withdrawal : Move PaymentStatus.created PaymentStatus.cancelled
  settlement : Move PaymentStatus.authorized PaymentStatus.captured
  failure : Move PaymentStatus.authorized PaymentStatus.failed
  reversal : Move PaymentStatus.authorized PaymentStatus.cancelled

pub data Step : PaymentIntent → PaymentIntent → Type 0 where
  moving :
      (payment : PaymentIntent) (status : PaymentStatus) (at actor_id now : ℕ)
      → Move payment.status status
      → Step payment
          (transition_row status at actor_id (status is PaymentStatus.cancelled) now payment)

-- the constraint `lifecycle_timestamps`
unfoldable pub lifecycle_timestamps :
    PaymentStatus → Option ℕ → Option ℕ → Option ℕ → Option ℕ → Option ℕ → Bool
lifecycle_timestamps PaymentStatus.created authorized captured failed cancelled deleted =
    is_none authorized && is_none captured && is_none failed && is_none cancelled && is_none deleted
lifecycle_timestamps PaymentStatus.authorized authorized captured failed cancelled deleted =
    is_some authorized && is_none captured && is_none failed && is_none cancelled && is_none deleted
lifecycle_timestamps PaymentStatus.captured authorized captured failed cancelled deleted =
    is_some authorized && is_some captured && is_none failed && is_none cancelled && is_none deleted
lifecycle_timestamps PaymentStatus.failed authorized captured failed cancelled deleted =
    is_none captured && is_some failed && is_none cancelled && is_none deleted
lifecycle_timestamps PaymentStatus.cancelled authorized captured failed cancelled deleted =
    is_none captured && is_none failed && is_some cancelled && is_some deleted

pub record IsLifecycle (p : PaymentIntent) : Type 0 where
  pub timestamps :
      lifecycle_timestamps p.status p.authorized_at p.captured_at p.failed_at p.cancelled_at
        p.deleted_at
      ≡ true
  pub version_positive : 1 ≤ p.version

Move-timestamps :
    (old new : PaymentStatus) (at : ℕ) (authorized captured failed cancelled deleted : Option ℕ)
    → Move old new
    → lifecycle_timestamps old authorized captured failed cancelled deleted ≡ true
    → lifecycle_timestamps new
        (stamp PaymentStatus.authorized new at authorized)
        (stamp PaymentStatus.captured new at captured)
        (stamp PaymentStatus.failed new at failed)
        (stamp PaymentStatus.cancelled new at cancelled)
        (if new is PaymentStatus.cancelled then some at else deleted)
      ≡ true
unfolding lifecycle_timestamps stamp ◌is◌ payment_status_ordinal
Move-timestamps _ _ at a c f x d Move.authorization h = ground arith
Move-timestamps _ _ at a c f x d Move.refusal h = ground arith
Move-timestamps _ _ at a c f x d Move.withdrawal h = ground arith
Move-timestamps _ _ at a c f x d Move.settlement h = ground arith
Move-timestamps _ _ at a c f x d Move.failure h = ground arith
Move-timestamps _ _ at a c f x d Move.reversal h = ground arith

pub Step-IsLifecycle : (p p' : PaymentIntent) → Step p p' → IsLifecycle p → IsLifecycle p'
unfolding transition_row
Step-IsLifecycle p _ (Step.moving _ status at actor now move) h = record {
  timestamps = Move-timestamps p.status status at _ _ _ _ _ move h.timestamps;
  version_positive = omega arith;
}

pub one_of_two : (s a b : PaymentStatus) → one_of s (a ∷ b ∷ []) ≡ true → (s ≡ a) ⊎ (s ≡ b)
unfolding one_of
one_of_two s a b h = elim (Bool-cases (s is a)) [
  | inl t ↦ inl (is→eq s a t)
  | inr t ↦ elim (Bool-cases (s is b)) [ inl u ↦ inr (is→eq s b u) | inr u ↦ cc (rw (t, u) at h) ]
]

-- The row that the service has read is the one that the write selects.
pub select_version-get_for_customer :
    (payment_id customer_id version : ℕ) (db : Tables) (payment : PaymentIntent)
    → get_for_customer payment_id customer_id db ≡ some payment
    → (payment.version != version) ≡ false
    → select_version payment.id payment.customer_id version db ≡ some payment
unfolding get_for_customer select_version
select_version-get_for_customer payment_id customer_id version db payment e v =
    version-read (λ r. r.id) (λ r. r.customer_id) (λ r. r.version) (λ r. is_none r.deleted_at)
      payment_id customer_id version db.payments payment e v

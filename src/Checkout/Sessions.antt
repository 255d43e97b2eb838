-- ===== src/Checkout/Sessions.antt =====
-- `CheckoutService.get_owned` of checkout/application/services.py, with the queries and the write of
-- checkout/infrastructure/repositories.py that it uses.
use apparel_network.Prelude.{
  ℕ, ◌+◌, String, Option, none, some, [], ◌∷◌, ◌&&◌, ◌||◌, ◌==◌, not, ltb, is_none, scalar, keep_if,
  save, if◌then◌else◌,
}
use apparel_network.Errors.{AppError, not_found}
use apparel_network.Tables.Enums.{CheckoutStatus, checkout_status_enum, ◌is◌}
use apparel_network.Tables.Commerce.{CheckoutSession}
use apparel_network.Session.{
  Action, Tables, return, fetch, branch, now_utc, update_where, ◌>>=◌, ◌>>◌,
}
use apparel_network.Outbox.{DomainEvent, write}

abbrev pub checkout_not_found : AppError
checkout_not_found = not_found "Checkout Session"

abbrev pub checkout_key : CheckoutSession → ℕ
checkout_key checkout = checkout.id

unfoldable pub store_checkout : CheckoutSession → Tables → Tables
store_checkout checkout db = record db { checkouts = save checkout_key checkout db.checkouts }

-- `_model` without a version, and `get_for_user`
unfoldable pub get_for_user : ℕ → ℕ → Tables → Option CheckoutSession
get_for_user checkout_id user_id db =
    scalar (λ c. (c.id == checkout_id) && (c.user_id == user_id) && is_none c.deleted_at)
      db.checkouts

-- `_model` with a version
unfoldable pub select_version : ℕ → ℕ → ℕ → Tables → Option CheckoutSession
select_version checkout_id user_id version db =
    scalar
      (λ c.
        (c.id == checkout_id)
        && (c.user_id == user_id)
        && is_none c.deleted_at
        && (c.version == version))
      db.checkouts

-- the assignments of `transition`
unfoldable pub transition_row : CheckoutStatus → ℕ → ℕ → ℕ → CheckoutSession → CheckoutSession
transition_row status transitioned_at actor_id now checkout = record checkout {
  status = status;
  completed_at = if status is CheckoutStatus.confirmed then some transitioned_at else none;
  updated_by_id = some actor_id;
  version = checkout.version + 1;
  updated_at = now;
}

-- `transition`
unfoldable pub transition : ℕ → ℕ → ℕ → CheckoutStatus → ℕ → ℕ → Action (Option CheckoutSession)
unfolding select_version transition_row
transition checkout_id user_id expected_version status transitioned_at actor_id =
    update_where
      (λ db.
        keep_if (λ c. c.status is CheckoutStatus.active)
          (select_version checkout_id user_id expected_version db))
      store_checkout (transition_row status transitioned_at actor_id)

-- `_emit`, with the payload of checkout/domain/events.py
unfoldable pub checkout_event : String → CheckoutSession → DomainEvent
checkout_event name checkout = record {
  event_name = name;
  aggregate_type = "checkout";
  aggregate_id = checkout.id;
  payload =
      ("checkout_id", checkout.id)
      ∷ ("cart_id", checkout.cart_id)
      ∷ ("user_id", checkout.user_id)
      ∷ ("store_id", checkout.store_id)
      ∷ ("version", checkout.version)
      ∷ [];
}

-- what `_expire_if_needed` makes of the outcome of the transition
unfoldable pub expired_or_refreshed :
    CheckoutSession → Option CheckoutSession → Action CheckoutSession
expired_or_refreshed checkout none =
    fetch (get_for_user checkout.id checkout.user_id) checkout_not_found
expired_or_refreshed checkout (some expired) = do
  write (checkout_event "checkout.expired" expired)
  return expired

-- `_expire_if_needed`
unfoldable pub expire_if_needed : CheckoutSession → Action CheckoutSession
unfolding expired_or_refreshed
expire_if_needed checkout = do
  now ← now_utc
  branch (not (checkout.status is CheckoutStatus.active) || ltb now checkout.expires_at)
      (return checkout)
      (do
        expired ←
            transition checkout.id checkout.user_id checkout.version CheckoutStatus.expired now
              checkout.user_id
        expired_or_refreshed checkout expired)

-- `get_owned`
unfoldable pub get_owned : ℕ → ℕ → Action CheckoutSession
get_owned checkout_id user_id = do
  checkout ← fetch (get_for_user checkout_id user_id) checkout_not_found
  expire_if_needed checkout

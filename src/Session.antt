-- ===== src/Session.antt =====
-- The request session: what `AsyncSession` gives the repositories, as one state. A service call
-- reads and writes the tables, reads the clock (`datetime.now(UTC)`), draws identifiers (`uuid7`)
-- and may raise an `AppError`; `atomically` is the commit or rollback of `session_scope` and of the
-- service dependencies in api/dependencies.py.
pub mod Rules
pub mod Preserves
pub mod Succeeds
pub mod Runs
pub mod Queries
pub mod Selection
pub mod Checked
use apparel_network.Prelude.{ℕ, ◌+◌, Bool, Option, none, some, List, ◌++◌, [], ◌∷◌, if◌then◌else◌}
use apparel_network.Errors.{AppError, Result, ok, err}
use apparel_network.Tables.Inventory.{
  InventoryItem, InventoryMovement, Store, StoreMembership, Product, ProductVariant,
}
use apparel_network.Tables.Commerce.{
  CheckoutSession, Order, OrderItem, PromotionRedemption, PaymentIntent, PaymentTransaction,
  InventoryReservation, ReservationItem,
}
use apparel_network.Tables.Hours.{StoreOperatingHours}
use apparel_network.Tables.Pricing.{ProductPrice, Catalog}
use apparel_network.Tables.Shipping.{
  Shipment, ShipmentPackage, ShipmentTrackingEvent, OutboxEvent, EventConsumerReceipt,
}

-- What the process does not decide: the i-th reading of the clock, the i-th identifier that `uuid7`
-- returns, and `now()` of the database, which is constant in a transaction.
pub record World : Type 0 where
  pub clock : ℕ → ℕ
  pub uuid7 : ℕ → ℕ
  pub transaction_time : ℕ

pub record Tables : Type 0 where
  pub stores : List Store
  pub memberships : List StoreMembership
  pub products : List Product
  pub variants : List ProductVariant
  pub inventory : List InventoryItem
  pub movements : List InventoryMovement
  pub checkouts : List CheckoutSession
  pub orders : List Order
  pub order_items : List OrderItem
  pub redemptions : List PromotionRedemption
  pub payments : List PaymentIntent
  pub transactions : List PaymentTransaction
  pub reservations : List InventoryReservation
  pub reservation_items : List ReservationItem
  pub shipments : List Shipment
  pub packages : List ShipmentPackage
  pub tracking : List ShipmentTrackingEvent
  pub outbox : List OutboxEvent
  pub receipts : List EventConsumerReceipt
  pub hours : List StoreOperatingHours
  pub catalogs : List Catalog
  pub prices : List ProductPrice

pub record Session : Type 0 where
  pub world : World
  pub clock_reads : ℕ
  pub uuids_drawn : ℕ
  pub db : Tables
  pub open db use *

abbrev pub Action : Type 0 → Type 0
Action A = Session → Result A × Session

module _ {A : Type 0} where
  unfoldable pub return : A → Action A
  return a s = (ok a, s)

  unfoldable pub raise : AppError → Action A
  raise e s = (err e, s)

  unfoldable pub gets : (Tables → A) → Action A
  gets f s = (ok (f s.db), s)

  -- `if x is None: raise e`
  unfoldable pub require : Option A → AppError → Action A
  unfolding return raise
  require none e = raise e
  require (some a) e = return a

unfoldable pub modify : (Tables → Tables) → Action Unit
modify f s = (ok tt, record s { db = f s.db })

-- `if test: raise e`
unfoldable pub raise_if : Bool → AppError → Action Unit
unfolding return raise
raise_if b e = if b then raise e else return tt

-- `if test: m` / `else: n`, for statements
unfoldable pub branch : {A : Type 0} → Bool → Action A → Action A → Action A
branch b m n = if b then m else n

-- a validation that raises its first failure
unfoldable pub check : Option AppError → Action Unit
unfolding return raise
check none = return tt
check (some e) = raise e

-- `datetime.now(UTC)`
unfoldable pub now_utc : Action ℕ
now_utc s = (ok (s.world.clock s.clock_reads), record s { clock_reads = s.clock_reads + 1 })

unfoldable pub uuid7 : Action ℕ
uuid7 s = (ok (s.world.uuid7 s.uuids_drawn), record s { uuids_drawn = s.uuids_drawn + 1 })

unfoldable pub db_now : Action ℕ
db_now s = (ok s.world.transaction_time, s)

-- A query and `if x is None: raise e`.
unfoldable pub fetch : {A : Type 0} → (Tables → Option A) → AppError → Action A
unfolding require return raise
fetch g e s = require (g s.db) e s

abbrev pub flush_row :
    {A : Type 0} → (A → Tables → Tables) → (ℕ → A → A) → Option A → Action (Option A)
flush_row store change none s = (ok none, s)
flush_row store change (some row) s =
    let row' = change s.world.transaction_time row in
    (ok (some row'), record s { db = store row' s.db })

-- A query and `if model is None: return None`; otherwise the assignments, a flush and a read back.
-- The columns with `onupdate=now()` get the time of the transaction.
unfoldable pub update_where :
    {A : Type 0} → (Tables → Option A) → (A → Tables → Tables) → (ℕ → A → A) → Action (Option A)
update_where g store change s = flush_row store change (g s.db) s

abbrev pub continue : {A B : Type 0} → Result A → (A → Action B) → Action B
continue (ok a) f s = f a s
continue (err e) f s = (err e, s)

infixl 5 ◌>>=◌ ◌>>◌
unfoldable pub ◌>>=◌ : {A B : Type 0} → Action A → (A → Action B) → Action B
unfolding return raise gets require modify raise_if check now_utc uuid7 db_now
◌>>=◌ m f s = let (r, s') = m s in continue r f s'

abbrev pub ◌>>◌ : {A B : Type 0} → Action A → Action B → Action B
m >> k = m >>= λ _. k

-- An action for its effects alone.
unfoldable pub discard : {A : Type 0} → Action A → Action Unit
discard m = m >>= λ _. return tt

-- The service call as a request: committed if it returns, rolled back if it raises. The clock and
-- the source of identifiers go on either way.
unfoldable pub atomically : {A : Type 0} → Action A → Action A
atomically m s =
    let (r, s') = m s in elim r [ ok a ↦ (ok a, s') | err e ↦ (err e, record s' { db = s.db }) ]

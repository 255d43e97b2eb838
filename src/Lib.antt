-- ===== src/Lib.antt =====
-- A model of the commerce core of the backend (backend/app), with the theorems that make it correct.
--
-- The program is a FastAPI service on PostgreSQL. A request builds a service from repositories that
-- share one SQLAlchemy session, the service raises an AppError or returns, and the session is then
-- committed or rolled back. Events go to the table event_outbox in the same transaction; workers claim
-- them from there.
--
-- - Prelude: numbers, Python's integers, lists as tables, text. `scalar` is a query for one row, `select`
--   a query for rows, `save` the flush of a changed row to its primary key.
-- - Errors: common/exceptions/base.py and the raising helpers of each services.py.
-- - Tables: the rows that domain/models.py of each module describes, and the enumerations.
-- - Session: the session as state. An action reads and writes the tables, reads the clock, draws
--   identifiers and may raise. `atomically` is database/session.py with the dependencies of each
--   module: a request that raises leaves no trace. Its children are proof rules: Rules and Queries for
--   what holds when an action returns, Succeeds for actions that do return, Preserves for what holds
--   however they end, Runs for sequences of requests, Checked for validations as values, Selection for
--   a read and the versioned write after it.
-- - Outbox: events/infrastructure/publishers.py and the outbox repositories of the modules; Delivery is
--   events/infrastructure/repositories.py. Lifecycle, Leases, Consistency, Claims and Receipts prove
--   what the workers may rely on.
-- - Inventory: modules/inventory/infrastructure/repositories.py (Repository), the validation and the
--   service of modules/inventory/application/services.py (Validation, Service), and
--   modules/stores/infrastructure/persistence/access.py (Access). Invariant states the CHECK
--   constraints of modules/inventory/infrastructure/models.py and the agreement of items with the
--   ledger; Steps, Keeps, Edits, Consume and Requests prove them, and Recount is what a reconciliation does.
-- - Orders and Payments: Repository and Service of the modules of that name, modules/payments'
--   gateway as an interface (Gateway), the life of a row (Lifecycle, Steps), and sequences of requests
--   (Requests). Capture is the capture of a payment that confirms an order.
-- - Checkout: what checkout/application/services.py gives to the other modules, CheckoutService.get_owned.
-- - Reservations: Repository and Service of modules/reservations, the life of a reservation (Lifecycle,
--   Steps), and sequences of requests on reservations that exist (Requests).
-- - Shipments: Repository and Service of modules/shipments, the carrier as an interface (Gateway). The
--   dispatch calls ReservationService and InventoryService, as the source does. Lifecycle, Tracking,
--   Steps, Handlers, Creation and Requests prove what every sequence of requests keeps; Frame says what
--   the calls of the other modules leave alone, and Dispatch is what a dispatch books in the stock.
-- - Promotions: promotions/domain/policies.py (Discount), and PromotionEvaluationService of
--   promotions/application/services.py on the rows that it has read (Model, Stacking, Evaluation).
--   Eligibility says what the rules of a promotion ask for, Stacks and Resolution what stacking selects,
--   without the code's functions; Bounds, Totals, Combination, Limits, Stacks and Resolution are the proofs.
-- - Stores: the opening hours of modules/stores: the schedule of a store (Schedule), the validation and
--   the service of application/operating_hours_services.py (Validation, Transitions, Service). Openness
--   says when a store is open without the code's functions. Overlap and Status are about the tests on
--   rules, Governing about the rules in force, Range about the search for transitions, and Invariant,
--   Keeps and Requests about the table and the answers.
-- - Pricing: currencies and Money of pricing/domain (Money), the validation and the service of product
--   prices in pricing/application/services.py with its repository and ownership policy (Validation,
--   Repository, Service), which decimals Money admits (Amounts), and what the table keeps (Invariant,
--   Rows, Requests) and refuses (Refusals); Lookup reads a new price again.
-- - Tests: concrete tables, and the theorems at concrete inputs.
--
-- How code corresponds. A method of a repository or a service is the function of the same name, a
-- leading underscore dropped; its `if ...: raise` are `raise_if`, `require`, `fetch` or `check`, in the
-- order of the source. A row's assignments are a function `..._row`. An identifier is the number that
-- its UUID is, a time a number of microseconds, an amount a number of ten-thousandths. Columns with
-- onupdate=now() are written with the time of the transaction.
--
-- Parameters. What is not in the repository is an argument: the provider of payments, the carrier, the
-- zone database of opening hours, with the lookup of names by ZoneInfo and the range that a zone can
-- convert, and Python's `str.lower` and `str.upper`. The worker's `claim` takes the rows that other
-- transactions have locked. The events of opening hours go to a publisher outside the session, so a
-- handler returns them with its result.
--
-- Bounds and fuel: every loop is structural recursion, on a list or, for the fifteen days in which the
-- next opening is sought, on their number, so there is no fuel. Python's integers are unbounded, and
-- so are ℤ and ℕ here; the 32-bit range of the database's columns is not modelled.
--
-- Not modelled: metrics, logs, and the delegate that the publisher calls after the outbox; row and
-- advisory locks, except those that `claim` skips; unique and foreign keys, except primary keys of
-- opening hours and prices, the items of one reservation, and the orders, reservations and packages of
-- shipments; the listings; creating orders and payments; the freezing of an evaluation at checkout,
-- and the management of promotions and coupons; an overflow when the clock itself is converted after a
-- change of opening hours; tiers of a promotion without a percentage or with a negative one; price
-- lists and the resolution of a price; the carrier that is used when none is configured; and the
-- modules carts, returns, catalogs, products, identity, ingestion, notifications, and the rest of
-- stores.
pub mod Prelude
pub mod Errors
pub mod Tables
pub mod Session
pub mod Outbox
pub mod Inventory
pub mod Orders
pub mod Payments
pub mod Checkout
pub mod Reservations
pub mod Shipments
pub mod Stores
pub mod Pricing
pub mod Promotions
pub mod Tests

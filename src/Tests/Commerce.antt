-- ===== src/Tests/Commerce.antt =====
-- An order and its payment, with the provider that the repository ships.
use apparel_network.Prelude.{ℕ, ◌≡◌, refl, some, [], arith, All}
use apparel_network.Tables.Enums.{PaymentStatus, OrderStatus}
use apparel_network.Tables.Commerce.{PaymentIntent}
use apparel_network.Session.{Tables}
use apparel_network.Session.Rules.{Ensures}
use apparel_network.Session.Runs as Sessions
use apparel_network.Orders.Lifecycle as OrderLife
use apparel_network.Orders.Requests as OrderRequests
use apparel_network.Payments.Gateway.{PaymentGateway, null_gateway}
use apparel_network.Payments.Service.{PaymentTransition, capture_owned}
use apparel_network.Payments.Lifecycle as PaymentLife
use apparel_network.Payments.Requests as PaymentRequests
use apparel_network.Payments.Capture.{IsConfirmed, capture_owned-IsConfirmed}
use apparel_network.Tests.Data.{world, tables, tables_with, session_of, order, payment_in}

abbrev gateway : PaymentGateway
gateway = null_gateway (λ id. "41")

abbrev step_of_version : ℕ → PaymentTransition
step_of_version version = record { expected_version = version; actor_id = 8 }

abbrev confirm_first : OrderRequests.Request
confirm_first =
    OrderRequests.Request.confirmation 31 8 (record { expected_version = 1; actor_id = 8 })

abbrev confirmed_tables : Tables
confirmed_tables = Sessions.committed world (OrderRequests.handle confirm_first) tables

confirm_run : Sessions.Runs OrderRequests.handle tables confirmed_tables
confirm_run =
    Sessions.Runs.then_request tables tables world confirm_first (Sessions.Runs.no_request tables)

orders-IsLifecycle_example : All OrderLife.IsLifecycle confirmed_tables.orders
orders-IsLifecycle_example = OrderRequests.orders-IsLifecycle tables confirmed_tables confirm_run (
  record {
    pending = λ _. (refl, refl, refl);
    confirmed = λ e. ground arith;
    cancelled = λ e. ground arith;
    version_positive = omega arith;
  },
  tt,
)

placed_order_frozen_example :
    All
      (λ o.
        o.id ≡ 31
        → OrderRequests.IsPlacedAs order o
          × (order.status ≡ OrderStatus.cancelled → o.status ≡ OrderStatus.cancelled))
      confirmed_tables.orders
placed_order_frozen_example =
    OrderRequests.placed_order_frozen order tables confirmed_tables confirm_run (
      (λ _. (
        record {
          checkout = refl;
          customer = refl;
          store = refl;
          number = refl;
          currency = refl;
          subtotal = refl;
          time = refl;
        },
        λ e. e,
      )),
      tt,
    )

capture_owned-IsConfirmed_example :
    Ensures
      (capture_owned gateway 41 8 (step_of_version 2))
      (session_of tables)
      (λ p s'. p.status ≡ PaymentStatus.captured → IsConfirmed p.order_id s')
capture_owned-IsConfirmed_example =
    capture_owned-IsConfirmed gateway 41 8 (step_of_version 2) (session_of tables)

abbrev capture_it : PaymentRequests.Request
capture_it = PaymentRequests.Request.capture gateway 41 8 (step_of_version 2)

payments-IsLifecycle_example :
    All PaymentLife.IsLifecycle
      (Sessions.committed world (PaymentRequests.handle capture_it) tables).payments
payments-IsLifecycle_example =
    PaymentRequests.payments-IsLifecycle tables
      (Sessions.committed world (PaymentRequests.handle capture_it) tables)
      (Sessions.Runs.then_request tables tables world capture_it (Sessions.Runs.no_request tables))
      (
        record {
          timestamps = unfold PaymentLife.lifecycle_timestamps in refl;
          version_positive = omega arith;
        },
        tt,
      )

abbrev captured_payment : PaymentIntent
captured_payment = payment_in PaymentStatus.captured (some 23) (some 25)

abbrev settled_tables : Tables
settled_tables = tables_with captured_payment []

settled_payment_final_example :
    All
      (λ p. p.id ≡ 41 → p ≡ captured_payment)
      (Sessions.committed world (PaymentRequests.handle capture_it) settled_tables).payments
settled_payment_final_example =
    PaymentRequests.settled_payment_final captured_payment settled_tables
      (Sessions.committed world (PaymentRequests.handle capture_it) settled_tables)
      (Sessions.Runs.then_request settled_tables settled_tables world capture_it
        (Sessions.Runs.no_request settled_tables))
      tt ((λ _. refl), tt)

-- ===== src/Payments/Transactions.antt =====
-- Proof rules for the ledger of a payment's transactions.
use apparel_network.Prelude.{ℕ, ◌+◌, String, List}
use apparel_network.Tables.Enums.{PaymentStatus}
use apparel_network.Tables.Commerce.{PaymentIntent, PaymentTransaction}
use apparel_network.Session.{Session, Action, ◌>>=◌, ◌>>◌}
use apparel_network.Session.Preserves.{Preserves}
use apparel_network.Session.Rules.{Ensures}
use apparel_network.Payments.Repository.{add_transaction}

module _ {B : Type 0} {I : Session → Type 0} where
  -- The ledger of transactions is written.
  pub Preserves-add_transaction :
      (payment : PaymentIntent) (id : String) (event status : PaymentStatus)
      (payload : List (String × String)) (at : ℕ) {k : Action B} {s : Session}
      → ((rows : List PaymentTransaction)
          → Preserves I k (record s {
            uuids_drawn = s.uuids_drawn + 1;
            db = record s.db { transactions = rows };
          }))
      → Preserves I (add_transaction payment id event status payload at >> k) s
  unfolding add_transaction ◌>>=◌
  Preserves-add_transaction payment id event status payload at h = record { after = (h _).after }

module _ {B : Type 0} {Q : B → Session → Type 0} where
  pub Ensures-add_transaction :
      (payment : PaymentIntent) (id : String) (event status : PaymentStatus)
      (payload : List (String × String)) (at : ℕ) {k : Action B} {s : Session}
      → ((rows : List PaymentTransaction)
          → Ensures k
              (record s {
                uuids_drawn = s.uuids_drawn + 1;
                db = record s.db { transactions = rows };
              })
              Q)
      → Ensures (add_transaction payment id event status payload at >> k) s Q
  unfolding add_transaction ◌>>=◌
  Ensures-add_transaction payment id event status payload at h = record { at = (h _).at }

-- ===== src/Inventory/Requests.antt =====
-- The requests on the stock that the routers and the shipment service make, each one transaction,
-- and the tables that sequences of them reach.
use apparel_network.Prelude.{ℕ, List}
use apparel_network.Session.{discard, Session, Tables, World, Action, atomically}
use apparel_network.Session.Rules.{Ensures, Ensures-bind, Ensures-return, atomically-keeps}
use apparel_network.Inventory.Service.{
  InventoryCreate, InventoryUpdate, InventoryAdjustment, InventoryReconciliation,
  InventoryReservationConsumption, create, update_owned, adjust_owned, reconcile_owned,
  delete_owned, consume_reservation,
}
use apparel_network.Inventory.Invariant.{HasStock, IsUnused}
use apparel_network.Inventory.Keeps.{
  Keeps, adjust_owned-Keeps, reconcile_owned-Keeps, delete_owned-Keeps,
}
use apparel_network.Inventory.Edits.{create-Keeps, update_owned-Keeps}
use apparel_network.Inventory.Consume.{consume_reservation-Keeps}

-- The calls of the service that write.
pub data Request : Type 0 where
  creation : InventoryCreate → Request
  change : (inventory_id owner_id : ℕ) → InventoryUpdate → Request
  adjust : (inventory_id actor_id : ℕ) → InventoryAdjustment → Request
  reconcile : (inventory_id actor_id : ℕ) → InventoryReconciliation → Request
  deletion : (inventory_id owner_id version : ℕ) → Request
  dispatch : (store_id : ℕ) → List InventoryReservationConsumption → (actor_id : ℕ) → Request

unfoldable pub handle : Request → Action Unit
unfolding discard
handle (creation values) = discard (create values)
handle (change inventory_id owner_id values) = discard (update_owned inventory_id owner_id values)
handle (adjust inventory_id actor_id values) = discard (adjust_owned inventory_id actor_id values)
handle (reconcile inventory_id actor_id values) =
    discard (reconcile_owned inventory_id actor_id values)
handle (deletion inventory_id owner_id version) = delete_owned inventory_id owner_id version
handle (dispatch store_id values actor_id) = discard (consume_reservation store_id values actor_id)

abbrev pub opened : World → Tables → Session
opened w db = record { world = w; clock_reads = 0; uuids_drawn = 0; db = db }

-- The tables after one request: the environment chooses the clock and the identifiers.
unfoldable pub committed : World → Request → Tables → Tables
committed w r db = (atomically (handle r) (opened w db)).1.db

discard-Keeps :
    {A : Type 0} (m : Action A) (s : Session) → Ensures m s Keeps → Ensures (discard m) s Keeps
unfolding discard
discard-Keeps m s h = Ensures-bind h λ _ s' kept. Ensures-return _ s' kept

handle-Keeps :
    (r : Request) (s : Session)
    → HasStock s.db
    → IsUnused (s.world.uuid7 s.uuids_drawn) s.db
    → Ensures (handle r) s Keeps
unfolding handle
handle-Keeps (creation values) s stock unused =
    discard-Keeps _ s (create-Keeps values s stock unused)
handle-Keeps (change i o values) s stock _ =
    discard-Keeps _ s (update_owned-Keeps i o values s stock)
handle-Keeps (adjust i a values) s stock _ =
    discard-Keeps _ s (adjust_owned-Keeps i a values s stock)
handle-Keeps (reconcile i a values) s stock _ =
    discard-Keeps _ s (reconcile_owned-Keeps i a values s stock)
handle-Keeps (deletion i o version) s stock _ = delete_owned-Keeps i o version s stock
handle-Keeps (dispatch store values a) s stock _ =
    discard-Keeps _ s (consume_reservation-Keeps store values a s stock)

-- Whatever a request does, and whether it returns or raises, the stock tables satisfy their
-- constraints after it and every item agrees with its ledger, if they did before and the first
-- identifier that the request draws is new.
committed-HasStock :
    (w : World) (r : Request) (db : Tables)
    → HasStock db
    → IsUnused (w.uuid7 0) db
    → HasStock (committed w r db)
unfolding committed
committed-HasStock w r db stock unused =
    atomically-keeps HasStock (handle r) (opened w db) stock
      (handle-Keeps r (opened w db) stock unused)

-- The tables that a sequence of requests can lead to.
pub data Reach : Tables → Tables → Type 0 where
  start : (db : Tables) → Reach db db
  then_request :
      (db mid : Tables) (w : World) (r : Request)
      → Reach db mid
      → IsUnused (w.uuid7 0) mid
      → Reach db (committed w r mid)

-- Along every sequence of requests, committed or rolled back, whose identifiers are new, the stock
-- tables keep their constraints and every item agrees with its ledger.
pub Reach-HasStock : (db db' : Tables) → Reach db db' → HasStock db → HasStock db'
Reach-HasStock db _ (start _) stock = stock
Reach-HasStock db _ (then_request _ mid w r before unused) stock =
    committed-HasStock w r mid (Reach-HasStock db mid before stock) unused

-- ===== src/Tests/Stock.antt =====
-- The stock of one store under an adjustment, a reconciliation and a dispatch.
use apparel_network.Prelude.{scalar, select, sum_of, refl, none, [], ◌∷◌, arith}
use apparel_network.Prelude.Int.{pos, ◌-ℤ◌, ◌+ℤ◌}
use apparel_network.Prelude.Text.{codes, strip}
use apparel_network.Tables.Enums.{InventoryMovementType}
use apparel_network.Inventory.Invariant.{HasStock, IsUnused, balance}
use apparel_network.Inventory.Requests.{Request, committed, Reach, Reach-HasStock}
use apparel_network.Inventory.Service.{InventoryReconciliation, reconcile_owned}
use apparel_network.Inventory.Repository.{get_for_owner, active_reservation_quantity}
use apparel_network.Session.Succeeds.{Succeeds}
use apparel_network.Inventory.Recount.{IsRecounted, reconcile_owned-IsRecounted}
use apparel_network.Inventory.Access.{accessible}
use apparel_network.Inventory.Validation.{audit, ◌and_then◌}
use apparel_network.Tests.Data.{session_of, shirt, world, tables}

abbrev found_three : Request
found_three = Request.adjust 1 7 (record {
  quantity_delta = pos 3;
  movement_type = InventoryMovementType.found;
  reason = codes "count";
  expected_version = 1;
  actor_id = 7;
  source = codes "audit";
  reference_id = none;
})

abbrev dispatch_four : Request
dispatch_four = Request.dispatch 5 (record { inventory_id = 1; quantity = pos 4 } ∷ []) 7

pub tables-HasStock : HasStock tables
unfolding balance ◌-ℤ◌ ◌+ℤ◌
tables-HasStock = record {
  good = (
    record {
      sound = record {
        on_hand_nonnegative = omega arith;
        reserved_nonnegative = omega arith;
        available_nonnegative = omega arith;
        available_derived = refl;
        threshold_nonnegative = omega arith;
        version_positive = omega arith;
      };
      reconciles = refl;
    },
    tt,
  );
  sound = (
    record {
      on_hand_delta = refl;
      previous_on_hand_nonnegative = omega arith;
      new_on_hand_nonnegative = omega arith;
      previous_available_nonnegative = omega arith;
      new_available_nonnegative = omega arith;
      reservation_nonnegative = omega arith;
    },
    tt,
  );
}

tables-IsUnused : IsUnused 900 tables
tables-IsUnused = record { items = ((λ e. omega arith), tt); movements = ((λ e. omega arith), tt) }

Reach-HasStock_example : HasStock (committed world dispatch_four tables)
Reach-HasStock_example =
    Reach-HasStock tables (committed world dispatch_four tables)
      (Reach.then_request tables tables world dispatch_four (Reach.start tables) tables-IsUnused)
      tables-HasStock

abbrev count_twelve : InventoryReconciliation
count_twelve = record {
  physical_count = pos 12;
  reason = codes "count";
  expected_version = 1;
  actor_id = 7;
  source = codes "audit";
  reference_id = none;
}

reconcile_owned-IsRecounted_example :
    Succeeds
      (reconcile_owned 1 7 count_twelve)
      (session_of tables)
      (IsRecounted shirt (pos 12) (session_of tables))
unfolding get_for_owner accessible audit ◌and_then◌ strip codes active_reservation_quantity scalar
    select sum_of ◌+ℤ◌
reconcile_owned-IsRecounted_example =
    reconcile_owned-IsRecounted 1 7 count_twelve (session_of tables) shirt refl refl
      (λ e. ground arith) refl (omega arith) (omega arith)

-- ===== src/Shipments/Lifecycle.antt =====
-- The life of a shipment: the moves between its statuses, and the constraints of the table that tie
-- its timestamps to the status.
use apparel_network.Prelude.{
  ℕ, ◌≡◌, refl, ◌&&◌, true, Bool, Option, some, is_some, arith, ◌≤◌, if◌then◌else◌,
}
use apparel_network.Tables.Enums.{
  ShipmentStatus, shipment_status_enum, shipment_status_ordinal, ◌is◌,
}
use apparel_network.Tables.Shipping.{Shipment}
use apparel_network.Shipments.Gateway.{ShippingLabel}
use apparel_network.Shipments.Repository.{NewShipment, shipment_row, transition_row}

-- The moves that the service makes, and whether the row is archived with them.
pub data Move : ShipmentStatus → ShipmentStatus → Bool → Type 0 where
  preparation : Move ShipmentStatus.created ShipmentStatus.ready_for_fulfillment Bool.false
  packing : Move ShipmentStatus.ready_for_fulfillment ShipmentStatus.packed Bool.false
  dispatch : Move ShipmentStatus.packed ShipmentStatus.shipped Bool.false
  cancellation : Move ShipmentStatus.packed ShipmentStatus.cancelled Bool.true
  departure : Move ShipmentStatus.shipped ShipmentStatus.out_for_delivery Bool.false
  delivery : Move ShipmentStatus.out_for_delivery ShipmentStatus.delivered Bool.false
  return_request : Move ShipmentStatus.shipped ShipmentStatus.return_requested Bool.false
  homecoming : Move ShipmentStatus.return_requested ShipmentStatus.returned Bool.false

pub data Step : Shipment → Shipment → Type 0 where
  moving :
      (shipment : Shipment) (status : ShipmentStatus) (at actor_id : ℕ)
      (label : Option ShippingLabel) (archive : Bool) (now : ℕ)
      → Move shipment.status status archive
      → Step shipment (transition_row status at actor_id label archive now shipment)

-- the constraints `shipped_timestamp`, `delivered_timestamp` and `cancelled_archive`
unfoldable pub lifecycle_timestamps : ShipmentStatus → Option ℕ → Option ℕ → Option ℕ → Bool
lifecycle_timestamps ShipmentStatus.created shipped delivered deleted = true
lifecycle_timestamps ShipmentStatus.ready_for_fulfillment shipped delivered deleted = true
lifecycle_timestamps ShipmentStatus.packed shipped delivered deleted = true
lifecycle_timestamps ShipmentStatus.shipped shipped delivered deleted = is_some shipped
lifecycle_timestamps ShipmentStatus.out_for_delivery shipped delivered deleted = is_some shipped
lifecycle_timestamps ShipmentStatus.delivered shipped delivered deleted =
    is_some shipped && is_some delivered
lifecycle_timestamps ShipmentStatus.cancelled shipped delivered deleted = is_some deleted
lifecycle_timestamps ShipmentStatus.return_requested shipped delivered deleted = is_some shipped
lifecycle_timestamps ShipmentStatus.returned shipped delivered deleted = is_some shipped

pub record IsLifecycle (r : Shipment) : Type 0 where
  pub timestamps : lifecycle_timestamps r.status r.shipped_at r.delivered_at r.deleted_at ≡ true
  pub version_positive : 1 ≤ r.version

Move-timestamps :
    (old new : ShipmentStatus) (archive : Bool) (at : ℕ) (shipped delivered deleted : Option ℕ)
    → Move old new archive
    → lifecycle_timestamps old shipped delivered deleted ≡ true
    → lifecycle_timestamps new
        (if new is ShipmentStatus.shipped then some at else shipped)
        (if new is ShipmentStatus.delivered then some at else delivered)
        (if archive then some at else deleted)
      ≡ true
unfolding lifecycle_timestamps ◌is◌ shipment_status_ordinal
Move-timestamps _ _ _ at s d x Move.preparation h = ground arith
Move-timestamps _ _ _ at s d x Move.packing h = ground arith
Move-timestamps _ _ _ at s d x Move.dispatch h = ground arith
Move-timestamps _ _ _ at s d x Move.cancellation h = ground arith
Move-timestamps _ _ _ at s d x Move.departure h = ground arith
Move-timestamps _ _ _ at s d x Move.delivery h = ground arith
Move-timestamps _ _ _ at s d x Move.return_request h = ground arith
Move-timestamps _ _ _ at s d x Move.homecoming h = ground arith

pub Step-IsLifecycle : (r r' : Shipment) → Step r r' → IsLifecycle r → IsLifecycle r'
unfolding transition_row
Step-IsLifecycle r _ (Step.moving _ status at actor label archive now move) h = record {
  timestamps = Move-timestamps r.status status archive at _ _ _ move h.timestamps;
  version_positive = omega arith;
}

pub shipment_row-IsLifecycle :
    (values : NewShipment) (id now : ℕ) → IsLifecycle (shipment_row values id now)
unfolding shipment_row lifecycle_timestamps
shipment_row-IsLifecycle values id now = record {
  timestamps = refl;
  version_positive = omega arith;
}

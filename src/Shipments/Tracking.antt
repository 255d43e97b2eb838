-- ===== src/Shipments/Tracking.antt =====
-- Proof rules for the row that each move adds to `shipment_tracking_events`.
use apparel_network.Prelude.{ℕ, ◌+◌, String, [], ◌∷◌, ◌++◌}
use apparel_network.Tables.Enums.{ShipmentStatus}
use apparel_network.Tables.Shipping.{ShipmentTrackingEvent}
use apparel_network.Session.{Action, Session, ◌>>=◌, ◌>>◌}
use apparel_network.Session.Preserves.{Preserves}
use apparel_network.Session.Rules.{Ensures}
use apparel_network.Shipments.Repository.{add_tracking}

-- the session after an event of the tracking
abbrev pub tracked : ShipmentTrackingEvent → Session → Session
tracked row s = record s {
  uuids_drawn = s.uuids_drawn + 1;
  db = record s.db { tracking = s.tracking ++ row ∷ [] };
}

module _ {B : Type 0} where
  pub Preserves-add_tracking :
      {I : Session → Type 0} (id : ℕ) (status : ShipmentStatus) (description : String) (at : ℕ)
      {k : Action B} {s : Session}
      → ((row : ShipmentTrackingEvent) → Preserves I k (tracked row s))
      → Preserves I (add_tracking id status description at >> k) s
  unfolding add_tracking ◌>>=◌
  Preserves-add_tracking id status description at h = record { after = (h _).after }

  pub Ensures-add_tracking :
      {Q : B → Session → Type 0} (id : ℕ) (status : ShipmentStatus) (description : String) (at : ℕ)
      {k : Action B} {s : Session}
      → ((row : ShipmentTrackingEvent) → Ensures k (tracked row s) Q)
      → Ensures (add_tracking id status description at >> k) s Q
  unfolding add_tracking ◌>>=◌
  Ensures-add_tracking id status description at h = record { at = (h _).at }

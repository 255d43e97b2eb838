-- ===== src/Shipments/Gateway.antt =====
-- shipments/application/gateways.py: the carrier that the service calls, as an interface. A call of
-- a carrier is one answer; what the carrier does with the parcels is outside.
use apparel_network.Prelude.{ℕ, String}
use apparel_network.Prelude.Int.{ℤ}
use apparel_network.Prelude.Text.{Text}

-- `PackageCreate`: the measurements in thousandths
pub record PackageCreate : Type 0 where
  pub package_number : String
  pub weight : ℤ
  pub length : ℤ
  pub width : ℤ
  pub height : ℤ

pub record ShippingLabel : Type 0 where
  pub carrier : String
  pub tracking_number : String
  pub tracking_url : String
  pub label_url : String

-- `ShippingGateway`, the calls whose answer the service uses: `cancel_label`, `track` and `manifest`
-- are called for what they do at the carrier.
pub record ShippingGateway : Type 0 where
  pub create_label : (shipment_id : ℕ) → PackageCreate → ShippingLabel
  pub estimate : (shipping_method : Text) → (requested_at : ℕ) → ℕ

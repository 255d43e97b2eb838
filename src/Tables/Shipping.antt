-- ===== src/Tables/Shipping.antt =====
-- modules/shipments/domain/models.py, and the outbox of modules/products/infrastructure.
use apparel_network.Prelude.{ℕ, String, Option, List}
use apparel_network.Prelude.Int.{ℤ}
use apparel_network.Prelude.Text.{Text}
use apparel_network.Tables.Enums.{ShipmentStatus, OutboxStatus}

-- a row of `shipments`
pub record Shipment : Type 0 where
  pub id : ℕ
  pub order_id : ℕ
  pub reservation_id : ℕ
  pub payment_id : ℕ
  pub customer_id : ℕ
  pub store_id : ℕ
  pub status : ShipmentStatus
  pub carrier : Option String
  pub tracking_number : Option String
  pub tracking_url : Option String
  pub shipping_method : Text
  pub estimated_delivery_at : Option ℕ
  pub shipped_at : Option ℕ
  pub delivered_at : Option ℕ
  pub version : ℕ
  pub created_at : ℕ
  pub updated_at : ℕ
  pub created_by_id : Option ℕ
  pub updated_by_id : Option ℕ
  pub deleted_at : Option ℕ
  pub deleted_by_id : Option ℕ

-- a row of `shipment_packages`
pub record ShipmentPackage : Type 0 where
  pub id : ℕ
  pub shipment_id : ℕ
  pub package_number : String
  pub weight : ℤ
  pub length : ℤ
  pub width : ℤ
  pub height : ℤ
  pub label_url : Option String
  pub created_at : ℕ

-- a row of `shipment_tracking_events`
pub record ShipmentTrackingEvent : Type 0 where
  pub id : ℕ
  pub shipment_id : ℕ
  pub status : ShipmentStatus
  pub location : Option String
  pub description : String
  pub occurred_at : ℕ

-- a row of `event_outbox`
pub record OutboxEvent : Type 0 where
  pub id : ℕ
  pub aggregate_type : String
  pub aggregate_id : ℕ
  pub event_name : String
  pub payload : List (String × ℕ)
  pub occurred_at : ℕ
  pub published_at : Option ℕ
  pub status : OutboxStatus
  pub retry_count : ℕ
  pub available_at : ℕ
  pub attempts : ℕ
  pub locked_at : Option ℕ
  pub locked_by : Option String
  pub dispatched_at : Option ℕ
  pub last_error : Option Text
  pub created_at : ℕ
  pub updated_at : ℕ
  pub version : ℕ

-- a row of `event_consumer_receipts`
pub record EventConsumerReceipt : Type 0 where
  pub event_id : ℕ
  pub consumer_name : String
  pub processed_at : ℕ

-- ===== src/Tables/Commerce.antt =====
-- The rows of checkouts, orders, payments and reservations: `domain/models.py` of each module.
-- An amount is a number of ten-thousandths of a currency unit, the scale of its column.
use apparel_network.Prelude.{ℕ, String, Option, List}
use apparel_network.Prelude.Int.{ℤ}
use apparel_network.Tables.Enums.{CheckoutStatus, OrderStatus, PaymentStatus, ReservationStatus}

-- a row of `checkout_sessions`
pub record CheckoutSession : Type 0 where
  pub id : ℕ
  pub cart_id : ℕ
  pub user_id : ℕ
  pub store_id : ℕ
  pub status : CheckoutStatus
  pub currency : String
  pub subtotal : ℤ
  pub expires_at : ℕ
  pub completed_at : Option ℕ
  pub version : ℕ
  pub created_at : ℕ
  pub updated_at : ℕ
  pub created_by_id : Option ℕ
  pub updated_by_id : Option ℕ
  pub deleted_at : Option ℕ
  pub deleted_by_id : Option ℕ

-- a row of `orders`
pub record Order : Type 0 where
  pub id : ℕ
  pub checkout_session_id : ℕ
  pub cart_id : ℕ
  pub store_id : ℕ
  pub customer_id : ℕ
  pub order_number : String
  pub status : OrderStatus
  pub currency : String
  pub subtotal : ℤ
  pub placed_at : ℕ
  pub confirmed_at : Option ℕ
  pub cancelled_at : Option ℕ
  pub version : ℕ
  pub created_at : ℕ
  pub updated_at : ℕ
  pub created_by_id : Option ℕ
  pub updated_by_id : Option ℕ
  pub deleted_at : Option ℕ
  pub deleted_by_id : Option ℕ

-- a row of `order_items`; its quantity is positive by a check of the table
pub record OrderItem : Type 0 where
  pub id : ℕ
  pub order_id : ℕ
  pub product_id : ℕ
  pub variant_id : ℕ
  pub quantity : ℕ
  pub price_id : ℕ
  pub unit_price : ℤ
  pub currency : String
  pub inventory_id : ℕ
  pub inventory_version : ℕ
  pub snapshot_timestamp : ℕ
  pub version : ℕ
  pub created_at : ℕ
  pub updated_at : ℕ
  pub created_by_id : Option ℕ
  pub updated_by_id : Option ℕ

-- the columns of `promotion_redemptions` that an order's summary reads
pub record PromotionRedemption : Type 0 where
  pub id : ℕ
  pub promotion_id : ℕ
  pub customer_id : ℕ
  pub order_id : Option ℕ
  pub discount_amount : ℤ
  pub redeemed_at : ℕ

-- a row of `payment_intents`
pub record PaymentIntent : Type 0 where
  pub id : ℕ
  pub order_id : ℕ
  pub customer_id : ℕ
  pub store_id : ℕ
  pub provider : String
  pub provider_reference : String
  pub status : PaymentStatus
  pub currency : String
  pub amount : ℤ
  pub idempotency_key : String
  pub expires_at : ℕ
  pub authorized_at : Option ℕ
  pub captured_at : Option ℕ
  pub failed_at : Option ℕ
  pub cancelled_at : Option ℕ
  pub version : ℕ
  pub created_at : ℕ
  pub updated_at : ℕ
  pub created_by_id : Option ℕ
  pub updated_by_id : Option ℕ
  pub deleted_at : Option ℕ
  pub deleted_by_id : Option ℕ

-- a row of `payment_transactions`; `PaymentTransactionType` has the members of `PaymentStatus`
pub record PaymentTransaction : Type 0 where
  pub id : ℕ
  pub payment_intent_id : ℕ
  pub provider_transaction_id : String
  pub event_type : PaymentStatus
  pub status : PaymentStatus
  pub amount : ℤ
  pub currency : String
  pub provider_payload : List (String × String)
  pub occurred_at : ℕ
  pub created_at : ℕ

-- a row of `inventory_reservations`
pub record InventoryReservation : Type 0 where
  pub id : ℕ
  pub order_id : ℕ
  pub payment_id : ℕ
  pub customer_id : ℕ
  pub store_id : ℕ
  pub status : ReservationStatus
  pub expires_at : ℕ
  pub released_at : Option ℕ
  pub consumed_at : Option ℕ
  pub version : ℕ
  pub created_at : ℕ
  pub updated_at : ℕ
  pub created_by_id : Option ℕ
  pub updated_by_id : Option ℕ
  pub deleted_at : Option ℕ
  pub deleted_by_id : Option ℕ

-- a row of `inventory_reservation_items`
pub record ReservationItem : Type 0 where
  pub id : ℕ
  pub reservation_id : ℕ
  pub inventory_item_id : ℕ
  pub variant_id : ℕ
  pub quantity : ℕ
  pub inventory_version : ℕ
  pub created_at : ℕ

-- ===== src/Tables/Enums.antt =====
-- `StrEnum` classes of the domain modules, and the test `x is MEMBER` on them.
use apparel_network.Prelude.{
  ℕ, ◌≡◌, ◌≢◌, Bool, Bool-cases, inl, inr, true, false, arith, ◌==◌, ==_iff,
}

pub record Enum (A : Type 0) : Type 0 where
  pub ordinal : A → ℕ
  pub injective : (a b : A) → ordinal a ≡ ordinal b → a ≡ b

module _ {A : Type 0} ⦃e : Enum A⦄ where
  infix 50 ◌is◌
  unfoldable pub ◌is◌ : A → A → Bool
  a is b = e.ordinal a == e.ordinal b

  pub is→eq : (a b : A) → (a is b) ≡ true → a ≡ b
  unfolding ◌is◌
  is→eq a b h = e.injective a b ((==_iff _ _).0 h)

  pub is_false : (a b : A) → a ≢ b → (a is b) ≡ false
  is_false a b ne = elim (Bool-cases (a is b)) [ inl t ↦ absurd (ne (is→eq a b t)) | inr f ↦ f ]

  pub is_refl : (a : A) → (a is a) ≡ true
  unfolding ◌is◌
  is_refl a = ground arith

-- modules/inventory/domain/models.py
pub data InventoryStatus : Type 0 where
  active out_of_stock discontinued : InventoryStatus

unfoldable pub inventory_status_ordinal : InventoryStatus → ℕ
inventory_status_ordinal InventoryStatus.active = 0
inventory_status_ordinal InventoryStatus.out_of_stock = 1
inventory_status_ordinal InventoryStatus.discontinued = 2

pub inventory_status_injective :
    (a b : InventoryStatus) → inventory_status_ordinal a ≡ inventory_status_ordinal b → a ≡ b
unfolding inventory_status_ordinal
inventory_status_injective a b h = ground arith

instance abbrev pub inventory_status_enum : Enum InventoryStatus
inventory_status_enum = record {
  ordinal = inventory_status_ordinal;
  injective = inventory_status_injective;
}

-- modules/inventory/domain/models.py
pub data TrackingPolicy : Type 0 where
  track do_not_track preorder : TrackingPolicy

unfoldable pub tracking_policy_ordinal : TrackingPolicy → ℕ
tracking_policy_ordinal TrackingPolicy.track = 0
tracking_policy_ordinal TrackingPolicy.do_not_track = 1
tracking_policy_ordinal TrackingPolicy.preorder = 2

pub tracking_policy_injective :
    (a b : TrackingPolicy) → tracking_policy_ordinal a ≡ tracking_policy_ordinal b → a ≡ b
unfolding tracking_policy_ordinal
tracking_policy_injective a b h = ground arith

instance abbrev pub tracking_policy_enum : Enum TrackingPolicy
tracking_policy_enum = record {
  ordinal = tracking_policy_ordinal;
  injective = tracking_policy_injective;
}

-- modules/inventory/domain/models.py
pub data InventoryMovementType : Type 0 where
  initial_stock manual_increase manual_decrease damage loss found correction reconciliation
        reservation_consumption legacy_update :
      InventoryMovementType

unfoldable pub inventory_movement_type_ordinal : InventoryMovementType → ℕ
inventory_movement_type_ordinal InventoryMovementType.initial_stock = 0
inventory_movement_type_ordinal InventoryMovementType.manual_increase = 1
inventory_movement_type_ordinal InventoryMovementType.manual_decrease = 2
inventory_movement_type_ordinal InventoryMovementType.damage = 3
inventory_movement_type_ordinal InventoryMovementType.loss = 4
inventory_movement_type_ordinal InventoryMovementType.found = 5
inventory_movement_type_ordinal InventoryMovementType.correction = 6
inventory_movement_type_ordinal InventoryMovementType.reconciliation = 7
inventory_movement_type_ordinal InventoryMovementType.reservation_consumption = 8
inventory_movement_type_ordinal InventoryMovementType.legacy_update = 9

pub inventory_movement_type_injective :
    (a b : InventoryMovementType)
    → inventory_movement_type_ordinal a ≡ inventory_movement_type_ordinal b
    → a ≡ b
unfolding inventory_movement_type_ordinal
inventory_movement_type_injective a b h = ground arith

instance abbrev pub inventory_movement_type_enum : Enum InventoryMovementType
inventory_movement_type_enum = record {
  ordinal = inventory_movement_type_ordinal;
  injective = inventory_movement_type_injective;
}

-- modules/checkout/domain/models.py
pub data CheckoutStatus : Type 0 where
  active confirmed expired cancelled : CheckoutStatus

unfoldable pub checkout_status_ordinal : CheckoutStatus → ℕ
checkout_status_ordinal CheckoutStatus.active = 0
checkout_status_ordinal CheckoutStatus.confirmed = 1
checkout_status_ordinal CheckoutStatus.expired = 2
checkout_status_ordinal CheckoutStatus.cancelled = 3

pub checkout_status_injective :
    (a b : CheckoutStatus) → checkout_status_ordinal a ≡ checkout_status_ordinal b → a ≡ b
unfolding checkout_status_ordinal
checkout_status_injective a b h = ground arith

instance abbrev pub checkout_status_enum : Enum CheckoutStatus
checkout_status_enum = record {
  ordinal = checkout_status_ordinal;
  injective = checkout_status_injective;
}

-- modules/orders/domain/models.py
pub data OrderStatus : Type 0 where
  pending confirmed cancelled : OrderStatus

unfoldable pub order_status_ordinal : OrderStatus → ℕ
order_status_ordinal OrderStatus.pending = 0
order_status_ordinal OrderStatus.confirmed = 1
order_status_ordinal OrderStatus.cancelled = 2

pub order_status_injective :
    (a b : OrderStatus) → order_status_ordinal a ≡ order_status_ordinal b → a ≡ b
unfolding order_status_ordinal
order_status_injective a b h = ground arith

instance abbrev pub order_status_enum : Enum OrderStatus
order_status_enum = record { ordinal = order_status_ordinal; injective = order_status_injective }

-- modules/payments/domain/models.py
pub data PaymentStatus : Type 0 where
  created authorized captured failed cancelled : PaymentStatus

unfoldable pub payment_status_ordinal : PaymentStatus → ℕ
payment_status_ordinal PaymentStatus.created = 0
payment_status_ordinal PaymentStatus.authorized = 1
payment_status_ordinal PaymentStatus.captured = 2
payment_status_ordinal PaymentStatus.failed = 3
payment_status_ordinal PaymentStatus.cancelled = 4

pub payment_status_injective :
    (a b : PaymentStatus) → payment_status_ordinal a ≡ payment_status_ordinal b → a ≡ b
unfolding payment_status_ordinal
payment_status_injective a b h = ground arith

instance abbrev pub payment_status_enum : Enum PaymentStatus
payment_status_enum = record {
  ordinal = payment_status_ordinal;
  injective = payment_status_injective;
}

-- modules/reservations/domain/models.py
pub data ReservationStatus : Type 0 where
  created active consumed released expired : ReservationStatus

unfoldable pub reservation_status_ordinal : ReservationStatus → ℕ
reservation_status_ordinal ReservationStatus.created = 0
reservation_status_ordinal ReservationStatus.active = 1
reservation_status_ordinal ReservationStatus.consumed = 2
reservation_status_ordinal ReservationStatus.released = 3
reservation_status_ordinal ReservationStatus.expired = 4

pub reservation_status_injective :
    (a b : ReservationStatus) → reservation_status_ordinal a ≡ reservation_status_ordinal b → a ≡ b
unfolding reservation_status_ordinal
reservation_status_injective a b h = ground arith

instance abbrev pub reservation_status_enum : Enum ReservationStatus
reservation_status_enum = record {
  ordinal = reservation_status_ordinal;
  injective = reservation_status_injective;
}

-- modules/shipments/domain/models.py
pub data ShipmentStatus : Type 0 where
  created ready_for_fulfillment packed shipped out_for_delivery delivered cancelled return_requested
        returned :
      ShipmentStatus

unfoldable pub shipment_status_ordinal : ShipmentStatus → ℕ
shipment_status_ordinal ShipmentStatus.created = 0
shipment_status_ordinal ShipmentStatus.ready_for_fulfillment = 1
shipment_status_ordinal ShipmentStatus.packed = 2
shipment_status_ordinal ShipmentStatus.shipped = 3
shipment_status_ordinal ShipmentStatus.out_for_delivery = 4
shipment_status_ordinal ShipmentStatus.delivered = 5
shipment_status_ordinal ShipmentStatus.cancelled = 6
shipment_status_ordinal ShipmentStatus.return_requested = 7
shipment_status_ordinal ShipmentStatus.returned = 8

pub shipment_status_injective :
    (a b : ShipmentStatus) → shipment_status_ordinal a ≡ shipment_status_ordinal b → a ≡ b
unfolding shipment_status_ordinal
shipment_status_injective a b h = ground arith

instance abbrev pub shipment_status_enum : Enum ShipmentStatus
shipment_status_enum = record {
  ordinal = shipment_status_ordinal;
  injective = shipment_status_injective;
}

-- modules/products/domain/attributes.py
pub data OutboxStatus : Type 0 where
  pending processing dispatched published failed : OutboxStatus

unfoldable pub outbox_status_ordinal : OutboxStatus → ℕ
outbox_status_ordinal OutboxStatus.pending = 0
outbox_status_ordinal OutboxStatus.processing = 1
outbox_status_ordinal OutboxStatus.dispatched = 2
outbox_status_ordinal OutboxStatus.published = 3
outbox_status_ordinal OutboxStatus.failed = 4

pub outbox_status_injective :
    (a b : OutboxStatus) → outbox_status_ordinal a ≡ outbox_status_ordinal b → a ≡ b
unfolding outbox_status_ordinal
outbox_status_injective a b h = ground arith

instance abbrev pub outbox_status_enum : Enum OutboxStatus
outbox_status_enum = record { ordinal = outbox_status_ordinal; injective = outbox_status_injective }

-- modules/stores/domain/membership.py
pub data StoreMembershipStatus : Type 0 where
  pending active declined suspended removed expired : StoreMembershipStatus

unfoldable pub store_membership_status_ordinal : StoreMembershipStatus → ℕ
store_membership_status_ordinal StoreMembershipStatus.pending = 0
store_membership_status_ordinal StoreMembershipStatus.active = 1
store_membership_status_ordinal StoreMembershipStatus.declined = 2
store_membership_status_ordinal StoreMembershipStatus.suspended = 3
store_membership_status_ordinal StoreMembershipStatus.removed = 4
store_membership_status_ordinal StoreMembershipStatus.expired = 5

pub store_membership_status_injective :
    (a b : StoreMembershipStatus)
    → store_membership_status_ordinal a ≡ store_membership_status_ordinal b
    → a ≡ b
unfolding store_membership_status_ordinal
store_membership_status_injective a b h = ground arith

instance abbrev pub store_membership_status_enum : Enum StoreMembershipStatus
store_membership_status_enum = record {
  ordinal = store_membership_status_ordinal;
  injective = store_membership_status_injective;
}

-- modules/pricing/domain/models.py
pub data PriceStatus : Type 0 where
  draft active archived : PriceStatus

unfoldable pub price_status_ordinal : PriceStatus → ℕ
price_status_ordinal PriceStatus.draft = 0
price_status_ordinal PriceStatus.active = 1
price_status_ordinal PriceStatus.archived = 2

pub price_status_injective :
    (a b : PriceStatus) → price_status_ordinal a ≡ price_status_ordinal b → a ≡ b
unfolding price_status_ordinal
price_status_injective a b h = ground arith

instance abbrev pub price_status_enum : Enum PriceStatus
price_status_enum = record { ordinal = price_status_ordinal; injective = price_status_injective }

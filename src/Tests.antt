-- ===== src/Tests.antt =====
-- Concrete tables, and the theorems at concrete inputs.
mod Data
mod Stock
mod Delivery
mod Commerce
mod Holds
mod Parcels
mod Prices
mod Discounts
mod Opening

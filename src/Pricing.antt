-- ===== src/Pricing.antt =====
-- The pricing module: amounts of money, the validation and the service of product prices.
pub mod Money
pub mod Amounts
pub mod Validation
pub mod Repository
pub mod Service
pub mod Invariant
pub mod Rows
pub mod Requests
pub mod Refusals
pub mod Lookup

-- ===== src/Tables.antt =====
-- The rows of the database, one record for each domain class, and the tests on their enumerations.
pub mod Enums
pub mod Inventory
pub mod Commerce
pub mod Shipping
pub mod Hours
pub mod Pricing

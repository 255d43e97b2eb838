-- ===== src/Inventory.antt =====
-- The inventory module: access, repository, validation, service and what they keep.
pub mod Access
pub mod Repository
pub mod Validation
pub mod Service
pub mod Invariant
pub mod Steps
pub mod Keeps
pub mod Edits
pub mod Consume
pub mod Requests
pub mod Recount

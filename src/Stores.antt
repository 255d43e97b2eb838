-- ===== src/Stores.antt =====
-- The opening hours of the stores (modules/stores): the rules that a store keeps, which of them is in
-- force at an instant, and the service that changes them.
pub mod Schedule
pub mod Validation
pub mod Service
pub mod Transitions
pub mod Overlap
pub mod Status
pub mod Openness
pub mod Governing
pub mod Range
pub mod Invariant
pub mod Keeps
pub mod Requests

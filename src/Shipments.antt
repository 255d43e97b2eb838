-- ===== src/Shipments.antt =====
-- The shipments of paid orders, from their creation to their delivery, cancellation or return, and
-- the dispatch of the reserved stock.
pub mod Gateway
pub mod Repository
pub mod Service
pub mod Lifecycle
mod Frame
mod Tracking
mod Steps
mod Handlers
mod Creation
pub mod Requests
pub mod Dispatch

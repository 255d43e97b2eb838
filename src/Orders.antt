-- ===== src/Orders.antt =====
-- The orders module (modules/orders): its repository, the service's lifecycle operations, and the
-- life of an order.
pub mod Repository
pub mod Service
pub mod Lifecycle
pub mod Requests

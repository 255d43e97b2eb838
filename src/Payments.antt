-- ===== src/Payments.antt =====
-- The payments module (modules/payments): its gateway, repository and service, the life of a
-- payment, and the capture that confirms an order.
pub mod Gateway
pub mod Repository
pub mod Service
pub mod Lifecycle
pub mod Transactions
pub mod Steps
pub mod Capture
pub mod Requests

-- ===== src/Checkout.antt =====
-- Checkout sessions (modules/checkout): what the other services ask of them, which expires a session
-- that is due.
pub mod Sessions

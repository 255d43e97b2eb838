-- ===== src/Reservations.antt =====
-- The reservations module (modules/reservations): its repository and service, and the life of a
-- reservation.
pub mod Repository
pub mod Service
pub mod Lifecycle
pub mod Frame
pub mod Steps
pub mod Requests

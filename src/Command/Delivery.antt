-- ===== src/Command/Delivery.antt =====
-- The vehicle commands arrive: what is in flight, and what every step keeps.
pub mod Flight
pub mod Conserved
pub mod Complete

-- ===== src/DeliverySafety.antt =====
-- src/delivery_safety.rs: the guard that holds back storms of duplicate deliveries.
pub mod State
pub mod Hashes
pub mod Guard

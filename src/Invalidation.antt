-- ===== src/Invalidation.antt =====
-- src/invalidation.rs.
pub mod Hex
pub mod Message
pub mod Stats
pub mod Publisher
pub mod Subscriber
pub mod Reliable

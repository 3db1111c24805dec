-- ===== src/Backends.antt =====
-- src/backends/: the backends that ship with the crate, and `matches_pattern` of
-- src/backends/mod.rs.
pub mod Pattern
pub mod DashMap
pub mod Redis
pub mod Moka
pub mod Memcached
pub mod QuickCache

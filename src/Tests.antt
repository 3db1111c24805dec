-- ===== src/Tests.antt =====
-- The theorems applied to small concrete caches.
mod AssocMap
mod Setup
mod Manager
mod Messages
mod Backends
mod Instances
mod Builder
mod Streams
mod Tasks
mod Redis
mod Typed
mod QuickCache
mod Moka
mod Memcached
mod RedisStreams
mod System
mod Invariant
mod Default
mod Patterns
mod Fresh

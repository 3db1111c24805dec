-- ===== src/Manager.antt =====
-- src/cache_manager.rs: the state of `CacheManager` and its constructors.
pub mod Tier
pub mod Proxy
pub mod Fetch
pub mod Construct
pub mod Get
pub mod Set
pub mod Compute
pub mod Invalidate
pub mod Receive
pub mod Report
pub mod Settings
pub mod Freshness
pub mod Invariant
pub mod Abstract
use multi_tier_cache.Base.{ℕ, Option, List, Bytes}
use multi_tier_cache.Serialization.{CacheSerializer}
use multi_tier_cache.Invalidation.Publisher.{InvalidationPublisher}
use multi_tier_cache.Invalidation.Stats.{InvalidationStats}
use Tier.{CacheTier}

-- The counters of the manager, each an atomic number of 64 bits.
pub record Counters : Type 0 where
  pub total_requests : ℕ
  pub l1_hits : ℕ
  pub l2_hits : ℕ
  pub misses : ℕ
  pub promotions : ℕ

-- `F` are the floating-point numbers, `S` the states of a tier's backend, `T` those of a streaming
-- backend and `C` a connection to Redis. `in_flight_requests` has the keys that a task computes;
-- what a waiter hears on the channel behind one is an argument of the operation that waits.
pub record CacheManager (F S T C : Type 0) : Type 0 where
  pub tiers : List (CacheTier F S)
  pub streaming_backend : Option T
  pub counters : Counters
  pub open counters use *
  pub in_flight_requests : List Bytes
  pub serializer : CacheSerializer
  pub invalidation_publisher : Option (InvalidationPublisher C)
  pub invalidation_stats : InvalidationStats

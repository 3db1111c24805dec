-- ===== src/Traits.antt =====
-- src/traits.rs: the interfaces of cache and stream backends. A method takes the backend's state
-- and returns its result beside the new state; a state holds all that the answers depend on, the
-- clock and the network included.
pub mod Laws
pub mod Dyn
use multi_tier_cache.Base.{ℕ, String, Bool, Option, List, Bytes, CacheResult, ok}
use multi_tier_cache.Time.{Duration, from_mins}

pub record CacheBackend (S : Type 0) : Type 0 where
  pub get : S → Bytes → Option Bytes × S
  pub set_with_ttl : S → Bytes → Bytes → Duration → CacheResult (Unit {0}) × S
  pub set : S → Bytes → Bytes → CacheResult (Unit {0}) × S
  pub remove : S → Bytes → CacheResult (Unit {0}) × S
  pub health_check : S → Bool × S
  pub remove_pattern : S → Bytes → CacheResult (Unit {0}) × S
  pub name : S → String

-- The bodies that the trait gives for `set` and `remove_pattern`.
abbrev pub default_set :
    {S : Type 0}
    → (S → Bytes → Bytes → Duration → CacheResult (Unit {0}) × S)
    → S
    → Bytes
    → Bytes
    → CacheResult (Unit {0}) × S
default_set set_with_ttl s key value = set_with_ttl s key value (from_mins 5)

abbrev pub default_remove_pattern : {S : Type 0} → S → Bytes → CacheResult (Unit {0}) × S
default_remove_pattern s pattern = (ok tt, s)

pub record L2CacheBackend (S : Type 0) : Type 0 where
  pub backend : CacheBackend S
  pub open backend use *
  pub get_with_ttl : S → Bytes → Option (Bytes × Option Duration) × S

-- An entry of a stream: its id and its fields.
abbrev pub StreamEntry : Type 0
StreamEntry = Bytes × List (Bytes × Bytes)

pub record StreamingBackend (T : Type 0) : Type 0 where
  pub stream_add : T → Bytes → List (Bytes × Bytes) → Option ℕ → CacheResult Bytes × T
  pub stream_read_latest : T → Bytes → ℕ → CacheResult (List StreamEntry) × T
  pub stream_read : T → Bytes → Bytes → ℕ → Option ℕ → CacheResult (List StreamEntry) × T
  pub stream_create_group : T → Bytes → Bytes → Bytes → CacheResult (Unit {0}) × T
  pub stream_read_group :
      T → Bytes → Bytes → Bytes → ℕ → Option ℕ → CacheResult (List StreamEntry) × T
  pub stream_ack : T → Bytes → Bytes → List Bytes → CacheResult (Unit {0}) × T

-- ===== src/Manager/Construct.antt =====
-- src/cache_manager.rs: the constructors of `CacheManager`.
pub mod Sorted
use multi_tier_cache.Base.{
  ℕ, true, false, Option, none, some, List, [], ◌∷◌, Message, lit, num, CacheResult, ok, err,
  CacheError, config_error, from_redis, Outcome, or_err, leb, if◌then◌else◌, ◌>>=◌, ◌>>◌,
}
use multi_tier_cache.Time.{Float}
use multi_tier_cache.Traits.{CacheBackend, L2CacheBackend}
use multi_tier_cache.Traits.Dyn.{Dyn, first, second, either}
use multi_tier_cache.Manager.Proxy.{proxy}
use multi_tier_cache.Serialization.{json}
use multi_tier_cache.Invalidation.Publisher.{InvalidationPublisher, InvalidationConfig}
use multi_tier_cache.Invalidation.Stats.{zero_stats}
use multi_tier_cache.Manager.Tier.{CacheTier, new_tier}
use multi_tier_cache.Manager.{Counters, CacheManager}

abbrev pub zero_counters : Counters
zero_counters = record { total_requests = 0; l1_hits = 0; l2_hits = 0; misses = 0; promotions = 0 }

-- The fields that every constructor fills alike.
abbrev pub fresh :
    {F S T C : Type 0}
    → List (CacheTier F S)
    → Option T
    → Option (InvalidationPublisher C)
    → CacheManager F S T C
fresh tiers streaming publisher = record {
  tiers = tiers;
  streaming_backend = streaming;
  counters = zero_counters;
  in_flight_requests = [];
  serializer = json;
  invalidation_publisher = publisher;
  invalidation_stats = zero_stats;
}

-- An L1 tier that takes no promotion setting, and an L2 tier that promotes one hit in ten.
abbrev pub two_tiers :
    {F S : Type 0} ⦃f : Float F⦄ ⦃b : L2CacheBackend S⦄ → S → S → List (CacheTier F S)
two_tiers ⦃f⦄ l1_cache l2_cache =
    new_tier l1_cache 1 false 1 (f.of_u64 1) ∷ new_tier l2_cache 2 true 10 (f.of_u64 1) ∷ []

abbrev pub unsorted : ℕ → ℕ → Message
unsorted level before =
    lit "Tiers must be sorted by tier_level ascending (found L"
    ∷ num level
    ∷ lit " after L"
    ∷ num before
    ∷ lit ")"
    ∷ []

-- The check of `new_with_tiers`: the first tier whose level is not above the one before it.
unfoldable pub check_sorted : {F S : Type 0} → List (CacheTier F S) → CacheResult (Unit {0})
check_sorted [] = ok tt
check_sorted (t ∷ []) = ok tt
check_sorted (t ∷ u ∷ tiers) =
    let rest = check_sorted (u ∷ tiers) in
    if leb u.tier_level t.tier_level
    then err (config_error (unsorted u.tier_level t.tier_level))
    else rest

unfoldable pub new_with_tiers :
    {F S T C : Type 0} → List (CacheTier F S) → Option T → CacheResult (CacheManager F S T C)
unfolding check_sorted
new_with_tiers tiers streaming = do check_sorted tiers; ok (fresh tiers streaming none)

-- The L1 backend goes behind the proxy.
unfoldable pub new_with_backends :
    {F A B T C : Type 0} ⦃f : Float F⦄
    → CacheBackend A
    → L2CacheBackend B
    → A
    → B
    → Option T
    → CacheResult (CacheManager F (Dyn A B) T C)
new_with_backends a b l1_cache l2_cache streaming =
    let instance both = either (proxy a) b in
    ok (fresh (two_tiers (first l1_cache) (second l2_cache)) streaming none)

-- `streams` is what `RedisStreams::new` on the configured address returns.
unfoldable pub new :
    {F A B T C : Type 0} ⦃f : Float F⦄
    → L2CacheBackend A
    → L2CacheBackend B
    → A
    → B
    → CacheResult T
    → CacheResult (CacheManager F (Dyn A B) T C)
new a b l1_cache l2_cache streams = do
  redis_streams ← streams
  let instance both = either a b
  ok (fresh (two_tiers (first l1_cache) (second l2_cache)) (some redis_streams) none)

abbrev subscriber_failed : Message → CacheError
subscriber_failed e = config_error (lit "Failed to create Redis client for subscriber: " ∷ e)

-- `streams`, `client`, `connection` and `subscriber` are what the four calls of the `redis` crate
-- return; the subscriber that starts here is the subject of Manager.Receive.
unfoldable pub new_with_invalidation :
    {F A B T C : Type 0} ⦃f : Float F⦄
    → L2CacheBackend A
    → L2CacheBackend B
    → A
    → B
    → CacheResult T
    → Outcome (Unit {0})
    → Outcome C
    → Outcome (Unit {0})
    → InvalidationConfig
    → CacheResult (CacheManager F (Dyn A B) T C)
new_with_invalidation {C} a b l1_cache l2_cache streams client connection subscriber config = do
  redis_streams ← streams
  or_err from_redis client
  conn_manager ← or_err from_redis connection
  or_err subscriber_failed subscriber
  let publisher : InvalidationPublisher C = record { connection = conn_manager; config = config }
  let instance both = either a b
  ok (fresh (two_tiers (first l1_cache) (second l2_cache)) (some redis_streams) (some publisher))

-- ===== src/Manager/Report.antt =====
-- src/cache_manager.rs: statistics, the choice of a serializer and the stream methods.
use multi_tier_cache.Base.{
  ℕ, Option, none, some, List, map, [], ◌∷◌, Bytes, lit, CacheError, CacheResult, err, config_error,
  ltb, if◌then◌else◌, u64_add, length,
}
use multi_tier_cache.Time.{Float}
use multi_tier_cache.Traits.{StreamingBackend, StreamEntry}
use multi_tier_cache.Serialization.{CacheSerializer}
use multi_tier_cache.Manager.Tier.{TierStats}
use multi_tier_cache.Manager.{CacheManager}

pub record CacheManagerStats (F : Type 0) : Type 0 where
  pub total_requests : ℕ
  pub l1_hits : ℕ
  pub l2_hits : ℕ
  pub total_hits : ℕ
  pub misses : ℕ
  pub hit_rate : F
  pub l1_hit_rate : F
  pub promotions : ℕ
  pub in_flight_requests : ℕ

abbrev not_configured : CacheError
not_configured = config_error (lit "Streaming backend not configured" ∷ [])

module _ {F S T C : Type 0} where
  unfoldable pub set_serializer : CacheManager F S T C → CacheSerializer → CacheManager F S T C
  set_serializer m serializer = record m { serializer = serializer }

  unfoldable pub get_stats : ⦃f : Float F⦄ → CacheManager F S T C → CacheManagerStats F
  get_stats ⦃f⦄ m =
      let rate = λ (hits : ℕ).
        if ltb 0 m.total_requests
        then f.mul (f.div (f.of_u64 hits) (f.of_u64 m.total_requests)) (f.of_u64 100)
        else f.of_u64 0 in
      record {
        total_requests = m.total_requests;
        l1_hits = m.l1_hits;
        l2_hits = m.l2_hits;
        total_hits = u64_add m.l1_hits m.l2_hits;
        misses = m.misses;
        hit_rate = rate (u64_add m.l1_hits m.l2_hits);
        l1_hit_rate = rate m.l1_hits;
        promotions = m.promotions;
        in_flight_requests = length m.in_flight_requests;
      }

  unfoldable pub get_tier_stats : CacheManager F S T C → List TierStats
  get_tier_stats m = map (λ t. t.stats) m.tiers

  -- A call of the streaming backend, if there is one.
  abbrev with_streams :
      {R : Type 0}
      → CacheManager F S T C
      → (T → CacheResult R × T)
      → CacheResult R × CacheManager F S T C
  with_streams m call = elim m.streaming_backend [
    | none ↦ (err not_configured, m)
    | some t ↦ let r = call t in (r.0, record m { streaming_backend = some r.1 })
  ]

  module _ ⦃s : StreamingBackend T⦄ where
    unfoldable pub publish_to_stream :
        CacheManager F S T C
        → Bytes
        → List (Bytes × Bytes)
        → Option ℕ
        → CacheResult Bytes × CacheManager F S T C
    publish_to_stream m stream_key fields maxlen =
        with_streams m (λ t. s.stream_add t stream_key fields maxlen)

    unfoldable pub read_stream_latest :
        CacheManager F S T C → Bytes → ℕ → CacheResult (List StreamEntry) × CacheManager F S T C
    read_stream_latest m stream_key count =
        with_streams m (λ t. s.stream_read_latest t stream_key count)

    unfoldable pub read_stream :
        CacheManager F S T C
        → Bytes
        → Bytes
        → ℕ
        → Option ℕ
        → CacheResult (List StreamEntry) × CacheManager F S T C
    read_stream m stream_key last_id count block_ms =
        with_streams m (λ t. s.stream_read t stream_key last_id count block_ms)

-- ===== src/Manager/Invalidate.antt =====
-- src/cache_manager.rs: invalidation and updates that are broadcast to the other instances. The
-- wall clock of the audit trail, in seconds, is the argument `now`.
pub mod Pattern
use multi_tier_cache.Base.{ℕ, Option, none, some, List, [], ◌∷◌, Bytes, CacheResult, ok, err}
use mathlib.Core.Option.{get_or}
use multi_tier_cache.Time.{Duration, Float}
use multi_tier_cache.Traits.{L2CacheBackend}
use multi_tier_cache.Invalidation.Message.{
  InvalidationMessage, new_update, remove_pattern, SerdeJson,
}
use multi_tier_cache.Invalidation.Message
use multi_tier_cache.Invalidation.Publisher.{RedisConn, publish}
use multi_tier_cache.Invalidation.Stats.{InvalidationStats, count_sent, snapshot}
use multi_tier_cache.Manager.Tier.{
  CacheTier, CacheStrategy, to_duration, default, remove, set_with_ttl,
}
use multi_tier_cache.Manager.{CacheManager}
use multi_tier_cache.Manager.Set.{set_with_strategy}

-- The loops over all tiers that log a failure and go on.
module _ {F S : Type 0} ⦃b : L2CacheBackend S⦄ where
  unfoldable pub remove_tiers : Bytes → List (CacheTier F S) → List (CacheTier F S)
  remove_tiers key [] = []
  remove_tiers key (t ∷ tiers) = (remove t key).1 ∷ remove_tiers key tiers

  -- This loop stops at the first failure, with `?`.
  unfoldable pub remove_pattern_tiers :
      Bytes → List (CacheTier F S) → CacheResult (Unit {0}) × List (CacheTier F S)
  remove_pattern_tiers pattern [] = (ok tt, [])
  remove_pattern_tiers pattern (t ∷ tiers) =
      let r = b.remove_pattern t.backend pattern in
      let rest = remove_pattern_tiers pattern tiers in
      let t' = record t { backend = r.1 } in
      elim r.0 [ ok _ ↦ (rest.0, t' ∷ rest.1) | err e ↦ (err e, t' ∷ tiers) ]

unfoldable pub update_tiers :
    {F S : Type 0} ⦃f : Float F⦄ ⦃b : L2CacheBackend S⦄
    → Bytes
    → Bytes
    → Duration
    → List (CacheTier F S)
    → List (CacheTier F S)
update_tiers key value ttl [] = []
update_tiers key value ttl (t ∷ tiers) =
    (set_with_ttl t key value ttl).1 ∷ update_tiers key value ttl tiers

-- `messages_sent` after a broadcast that went well.
abbrev pub counted : CacheResult (Unit {0}) → InvalidationStats → InvalidationStats
counted (ok _) s = count_sent s
counted (err e) s = s

module _ {F S T C : Type 0} ⦃redis : RedisConn C⦄ ⦃json : SerdeJson⦄ (now : ℕ) where
  -- Publish, if there is a publisher.
  unfoldable pub send :
      CacheManager F S T C → InvalidationMessage → CacheResult (Unit {0}) × CacheManager F S T C
  send m msg = elim m.invalidation_publisher [
    | none ↦ (ok tt, m)
    | some p ↦ let r = publish now p msg in (r.0, record m { invalidation_publisher = some r.1 })
  ]

  -- Publish, if there is a publisher, and count the message as sent.
  unfoldable pub broadcast :
      CacheManager F S T C → InvalidationMessage → CacheResult (Unit {0}) × CacheManager F S T C
  broadcast m msg = elim m.invalidation_publisher [
    | none ↦ (ok tt, m)
    | some p ↦
        let r = publish now p msg in
        (
          r.0,
          record m {
            invalidation_publisher = some r.1;
            invalidation_stats = counted r.0 m.invalidation_stats;
          },
        )
  ]

  module _ ⦃b : L2CacheBackend S⦄ where
    unfoldable pub invalidate :
        CacheManager F S T C → Bytes → CacheResult (Unit {0}) × CacheManager F S T C
    unfolding remove_tiers broadcast
    invalidate m key =
        broadcast (record m { tiers = remove_tiers key m.tiers }) (Message.remove key)

    unfoldable pub invalidate_pattern :
        CacheManager F S T C → Bytes → CacheResult (Unit {0}) × CacheManager F S T C
    unfolding remove_pattern_tiers send
    invalidate_pattern m pattern =
        let r = remove_pattern_tiers pattern m.tiers in
        let m' = record m { tiers = r.1 } in
        let sent = send m' (remove_pattern pattern) in
        elim r.0 [ ok _ ↦ sent | err e ↦ (err e, m') ]

    module _ ⦃f : Float F⦄ where
      unfoldable pub update_cache :
          CacheManager F S T C
          → Bytes
          → Bytes
          → Option Duration
          → CacheResult (Unit {0}) × CacheManager F S T C
      unfolding update_tiers broadcast
      update_cache m key value ttl =
          let ttl' = get_or ttl (to_duration default) in
          broadcast (record m { tiers = update_tiers key value ttl' m.tiers })
            (new_update key value (some ttl'))

      unfoldable pub set_with_broadcast :
          CacheManager F S T C
          → Bytes
          → Bytes
          → CacheStrategy
          → CacheResult (Unit {0}) × CacheManager F S T C
      unfolding broadcast
      set_with_broadcast m key value strategy =
          let r = set_with_strategy m key value strategy in
          let sent = broadcast r.1 (new_update key value (some (to_duration strategy))) in
          elim r.0 [ ok _ ↦ sent | err e ↦ (err e, r.1) ]

unfoldable pub invalidation_stats :
    {F S T C : Type 0} → CacheManager F S T C → Option InvalidationStats
invalidation_stats m = some (snapshot m.invalidation_stats)

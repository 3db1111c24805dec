-- ===== src/Manager/Invariant/Step.antt =====
-- src/cache_manager.rs: what one call keeps of a manager, whatever its backends, the network and the
-- closures of its callers do.
use multi_tier_cache.Base.{◌≡◌, refl, ap, List, [], ◌∷◌, map}
use multi_tier_cache.Time.{Float}
use multi_tier_cache.Traits.{L2CacheBackend}
use multi_tier_cache.Invalidation.Message.{InvalidationMessage, SerdeJson}
use multi_tier_cache.Invalidation.Publisher.{RedisConn}
use multi_tier_cache.Manager.Tier.{CacheTier}
use multi_tier_cache.Manager.Fetch.Hit.{settings}
use multi_tier_cache.Manager.Compute.{Session}
use multi_tier_cache.Manager.Receive.{apply_to_tiers}
use multi_tier_cache.Manager.Report.{set_serializer}
use multi_tier_cache.Manager.Abstract.Run.{
  Call, gets, sets, computes, invalidates, updates, broadcasts, clears, receives, serializes, step,
}
use multi_tier_cache.Manager.Settings.{Keeps, get-Keeps}
use multi_tier_cache.Manager.Settings.Writes.{
  set_with_strategy-Keeps, get_or_compute_with-Keeps, invalidate-Keeps, invalidate_pattern-Keeps,
  update_cache-Keeps, set_with_broadcast-Keeps,
}
use multi_tier_cache.Manager.Invariant.{Calm}
use multi_tier_cache.Manager.Invariant.Reads.{get-Calm}
use multi_tier_cache.Manager.Invariant.Writes.{
  set_with_strategy-Calm, get_or_compute_with-Calm, invalidate-Calm, invalidate_pattern-Calm,
  update_cache-Calm, set_with_broadcast-Calm,
}

module _ {F S : Type 0} ⦃b : L2CacheBackend S⦄ where
  settings-apply_to_tiers :
      (msg : InvalidationMessage) (tiers : List (CacheTier F S))
      → map settings (apply_to_tiers msg tiers) ≡ map settings tiers
  unfolding apply_to_tiers
  settings-apply_to_tiers msg [] = refl
  settings-apply_to_tiers msg (t ∷ tiers) =
      ap (λ l. settings t ∷ l) (settings-apply_to_tiers msg tiers)

module _ {F S T C W : Type 0} ⦃f : Float F⦄ ⦃b : L2CacheBackend S⦄ ⦃redis : RedisConn C⦄
    ⦃json : SerdeJson⦄ where
  pub step-Keeps :
      (s : Session F S T C W) (c : Call W)
      → Keeps s.manager (step s c).1.manager × Calm s.manager (step s c).1.manager
  unfolding step set_serializer
  step-Keeps s (gets key draw heard) =
      (get-Keeps s.manager key draw heard, get-Calm s.manager key draw heard)
  step-Keeps s (sets key value strategy) = (
    set_with_strategy-Keeps s.manager key value strategy,
    set_with_strategy-Calm s.manager key value strategy,
  )
  step-Keeps s (computes key strategy compute draw heard) = (
    get_or_compute_with-Keeps compute key strategy s draw heard,
    get_or_compute_with-Calm compute key strategy s draw heard,
  )
  step-Keeps s (invalidates now key) =
      (invalidate-Keeps now s.manager key, invalidate-Calm now s.manager key)
  step-Keeps s (updates now key value ttl) = (
    update_cache-Keeps now s.manager key value ttl,
    update_cache-Calm now s.manager key value ttl,
  )
  step-Keeps s (clears now pattern) = (
    invalidate_pattern-Keeps now s.manager pattern,
    invalidate_pattern-Calm now s.manager pattern,
  )
  step-Keeps s (broadcasts now key value strategy) = (
    set_with_broadcast-Keeps now s.manager key value strategy,
    set_with_broadcast-Calm now s.manager key value strategy,
  )
  step-Keeps s (receives msg) = (settings-apply_to_tiers msg s.manager.tiers, (refl, λ h. h))
  step-Keeps s (serializes serializer) = (refl, (refl, λ h. h))

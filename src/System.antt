-- ===== src/System.antt =====
-- src/lib.rs, `CacheSystem`: its constructors and its health check. What the constructors of the
-- Moka and Redis backends and of the Redis streams return are arguments.
pub mod Health
pub mod Default
use multi_tier_cache.Base.{
  ℕ, Bool, true, false, ◌&&◌, List, [], ◌∷◌, Bytes, CacheResult, ok, err, if◌then◌else◌, ◌>>=◌,
}
use multi_tier_cache.Time.{Float}
use multi_tier_cache.Traits.{L2CacheBackend}
use multi_tier_cache.Traits.Dyn.{Dyn, first, second, either}
use multi_tier_cache.Manager.Tier.{CacheTier}
use multi_tier_cache.Manager.{CacheManager}
use multi_tier_cache.Manager.Construct.{new}
use multi_tier_cache.Builder.{CacheSystem, multi_tier, default_2_tier, custom_2_tier}

-- The answer of `health_check`: that of L1, whatever L2 says.
abbrev pub verdict : Bool → Bool → Bool
verdict l1_ok l2_ok = if l1_ok && l2_ok then true else l1_ok

module _ {F S : Type 0} ⦃b : L2CacheBackend S⦄ where
  abbrev tier_health : CacheTier F S → Bool × CacheTier F S
  tier_health t = let r = b.health_check t.backend in (r.0, record t { backend = r.1 })

  -- `l1_cache` and `l2_cache` are the backends of the first tier and the second.
  unfoldable pub both_health : List (CacheTier F S) → (Bool × Bool) × List (CacheTier F S)
  both_health [] = ((true, true), [])
  both_health (t ∷ []) = let r = tier_health t in ((r.0, true), r.1 ∷ [])
  both_health (t ∷ u ∷ tiers) =
      let r = tier_health t in let q = tier_health u in ((r.0, q.0), r.1 ∷ q.1 ∷ tiers)

module _ {F A S T C K : Type 0} ⦃f : Float F⦄ ⦃b : L2CacheBackend S⦄ where
  module _ (default_config : K) (moka : K → CacheResult S) where
    unfoldable pub new_system : CacheResult S → CacheResult T → CacheResult (CacheSystem F A S T C)
    new_system redis streams = do
      l1_cache ← moka default_config
      l2_cache ← redis
      m ← new b b l1_cache l2_cache streams
      ok (default_2_tier m)

    -- The streams are those of `CacheManager::new`, which does not see the address.
    unfoldable pub with_redis_url :
        (Bytes → CacheResult S) → CacheResult T → Bytes → CacheResult (CacheSystem F A S T C)
    with_redis_url with_url streams redis_url = do
      l1_cache ← moka default_config
      l2_cache ← with_url redis_url
      m ← new b b l1_cache l2_cache streams
      ok (default_2_tier m)

module _ {F A S T C : Type 0} ⦃b : L2CacheBackend S⦄ where
  -- A system of other backends has neither of the two at hand, and asks none.
  unfoldable pub health_check : CacheSystem F A S T C → Bool × CacheSystem F A S T C
  unfolding both_health
  health_check (multi_tier m) = (true, multi_tier m)
  health_check (custom_2_tier m) = (true, custom_2_tier m)
  health_check (default_2_tier m) =
      let instance pair = either b b in
      let r = both_health m.tiers in
      (verdict r.0.0 r.0.1, default_2_tier (record m { tiers = r.1 }))

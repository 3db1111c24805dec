-- ===== src/System/Health.antt =====
-- src/lib.rs: what the health of a default system is.
use multi_tier_cache.Base.{
  ◌≡◌, refl, map, none, some, Bool, true, false, List, [], ◌∷◌, CacheResult, ok, Bytes,
}
use multi_tier_cache.Time.{Float}
use multi_tier_cache.Traits.{L2CacheBackend, CacheBackend}
use multi_tier_cache.Traits.Dyn.{Dyn, first, second, either}
use multi_tier_cache.Manager.Construct.{new, fresh, two_tiers}
use multi_tier_cache.Builder.{
  CacheSystem, default_2_tier, multi_tier, custom_2_tier, new_builder, build, build_default_2_tier,
}
use multi_tier_cache.System.{verdict, health_check, new_system, with_redis_url, both_health}

verdict_l1 : (l1 l2 : Bool) → verdict l1 l2 ≡ l1
verdict_l1 true true = refl
verdict_l1 true false = refl
verdict_l1 false l2 = refl

-- The two backends of a default system.
abbrev pub backends_of : {F A S T C : Type 0} → CacheSystem F A S T C → List (Dyn S S)
backends_of (default_2_tier m) = map (λ t. t.backend) m.tiers
backends_of (multi_tier m) = []
backends_of (custom_2_tier m) = []

module _ {F A S T C : Type 0} ⦃f : Float F⦄ ⦃b : L2CacheBackend S⦄ where
  -- The system of the given backends and streams.
  abbrev pub system_of : S → S → T → CacheSystem F A S T C
  system_of l1 l2 streams =
      let instance pair = either b b in
      default_2_tier (fresh (two_tiers (first l1) (second l2)) (some streams) none)

module _ {F A S T C K : Type 0} ⦃f : Float F⦄ ⦃b : L2CacheBackend S⦄ (default_config : K)
    (moka : K → CacheResult S) where
  -- If the constructors of the Moka cache, of the Redis cache and of the streams succeed, so does
  -- `CacheSystem::new`, and as well `CacheSystem::with_redis_url` if the Redis cache at the given
  -- address is that one. The health check of the system asks both backends, in this order, and
  -- its answer is that of the Moka cache, whatever Redis answers.
  pub health_check-new_system :
      (l1 l2 : S) (streams : T) (with_url : Bytes → CacheResult S) (redis_url : Bytes)
      → moka default_config ≡ ok l1
      → with_url redis_url ≡ ok l2
      → let system : CacheSystem F A S T C = system_of l1 l2 streams in
        (new_system default_config moka (ok l2) (ok streams) ≡ ok system)
        × (with_redis_url default_config moka with_url (ok streams) redis_url ≡ ok system)
        × ((health_check system).0 ≡ (b.health_check l1).0)
        × (backends_of (health_check system).1
            ≡ first (b.health_check l1).1 ∷ second (b.health_check l2).1 ∷ [])
  unfolding new_system with_redis_url health_check both_health either new
  health_check-new_system l1 l2 streams with_url redis_url built reached = (
    rw built refl,
    rw (built, reached) refl,
    verdict_l1 (b.health_check l1).0 (b.health_check l2).0,
    refl,
  )

  -- A builder to which nothing was given builds the system of `CacheSystem::new`, and fails as it
  -- does.
  pub build-new_system :
      ⦃a : CacheBackend A⦄ (moka_l1 : K → CacheResult A) (redis : CacheResult S)
      (streams : CacheResult T)
      → build {F = F} {A = A} {S = S} {T = T} {C = C} default_config moka moka_l1 redis streams
          new_builder
        ≡ new_system default_config moka redis streams
  unfolding build build_default_2_tier new_system
  build-new_system moka_l1 redis streams = refl

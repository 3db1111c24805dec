-- ===== src/Tests/System.antt =====
-- The theorems on the system as a whole, applied to a Moka cache and a Redis that is down.
use multi_tier_cache.Base.{
  ℕ, false, ◌≡◌, refl, none, [], ◌∷◌, ok, err, not_found, codes, CacheResult, Bytes,
}
use multi_tier_cache.Traits.{L2CacheBackend, CacheBackend}
use multi_tier_cache.Traits.Dyn.{Dyn, first, second, either}
use multi_tier_cache.Builder.{CacheSystem}
use multi_tier_cache.Backends.Moka.{MokaCacheConfig, default_config, backend_at}
use multi_tier_cache.System.{new_system, with_redis_url, health_check}
use multi_tier_cache.System.Health.{system_of, backends_of, health_check-new_system}
use multi_tier_cache.Tests.Setup.{whole, Log}
use multi_tier_cache.Tests.Moka.{Small, small, raw, typed}

-- A backend that answers nothing.
abbrev dead : L2CacheBackend ℕ
dead = record {
  backend = record {
    get = λ s k. (none, s);
    set_with_ttl = λ s k v ttl. (err not_found, s);
    set = λ s k v. (err not_found, s);
    remove = λ s k. (err not_found, s);
    health_check = λ s. (false, s);
    remove_pattern = λ s p. (err not_found, s);
    name = λ s. "Redis";
  };
  get_with_ttl = λ s k. (none, s);
}

instance abbrev two : L2CacheBackend (Dyn Small ℕ)
two = either (backend_at 70) dead

instance abbrev two_l1 : CacheBackend (Dyn Small ℕ)
two_l1 = two.backend

abbrev moka : MokaCacheConfig → CacheResult (Dyn Small ℕ)
moka config = ok (first small)

abbrev with_url : Bytes → CacheResult (Dyn Small ℕ)
with_url url = ok (second 3)

abbrev Plain : Type 0
Plain = CacheSystem ℕ (Dyn Small ℕ) (Dyn Small ℕ) Unit Log

abbrev plain : Plain
plain = system_of (first small) (second 3) tt

health_check-new_system_example :
    (new_system default_config moka (ok (second 3)) (ok tt) ≡ ok plain)
    × (with_redis_url default_config moka with_url (ok tt) (codes "redis://h") ≡ ok plain)
    × ((health_check plain).0 ≡ (two.health_check (first small)).0)
    × (backends_of (health_check plain).1
        ≡ first (two.health_check (first small)).1 ∷ second (two.health_check (second 3)).1 ∷ [])
health_check-new_system_example =
    health_check-new_system default_config moka (first small) (second 3) tt with_url
      (codes "redis://h") refl refl

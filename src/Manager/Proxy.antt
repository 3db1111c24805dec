-- ===== src/Manager/Proxy.antt =====
-- src/cache_manager.rs, `ProxyL1ToL2`: an L1 backend where an L2 backend is wanted. It forwards
-- every method but `set`, for which the trait's own body stays in force.
use multi_tier_cache.Base.{none}
use mathlib.Core.Option
use multi_tier_cache.Traits.{CacheBackend, L2CacheBackend, default_set}

unfoldable pub proxy : {S : Type 0} → CacheBackend S → L2CacheBackend S
proxy inner = record {
  backend = record {
    get = inner.get;
    set_with_ttl = inner.set_with_ttl;
    set = default_set inner.set_with_ttl;
    remove = inner.remove;
    health_check = inner.health_check;
    remove_pattern = inner.remove_pattern;
    name = inner.name;
  };
  get_with_ttl = λ s key. let r = inner.get s key in (Option.map (λ v. (v, none)) r.0, r.1);
}

-- ===== src/Tests/Patterns.antt =====
-- The theorems on the removal by a pattern, applied to small managers.
use multi_tier_cache.Base.{
  ℕ, ◌≡◌, refl, Bool, true, false, none, some, [], ◌∷◌, ok, err, not_found, codes, Bytes,
  if◌then◌else◌,
}
use multi_tier_cache.Traits.{L2CacheBackend}
use multi_tier_cache.Backends.Pattern.{matches_pattern}
use multi_tier_cache.Backends.DashMap.{set_with_ttl, new_entry}
use multi_tier_cache.Invalidation.Message.{remove_pattern}
use multi_tier_cache.Manager.Tier.{CacheTier, new_tier}
use multi_tier_cache.Manager.{CacheManager}
use multi_tier_cache.Manager.Construct.{fresh}
use multi_tier_cache.Manager.Invalidate.{invalidate_pattern}
use multi_tier_cache.Manager.Invalidate.Pattern.{
  asked, sent_result, invalidate_pattern-clears, invalidate_pattern-stops,
}
use multi_tier_cache.Manager.Abstract.{visible}
use multi_tier_cache.Tests.AssocMap.{assoc_map}
use multi_tier_cache.Tests.Setup.{
  whole, log_conn, number_json, dash, dash_holds, dash-ClearsPatterns, manager, publisher, Log,
}

invalidate_pattern-clears_example :
    let r = invalidate_pattern 9 manager (codes "a*") in
    (r.0 ≡ sent_result 9 (some publisher) (remove_pattern (codes "a*")))
    × ((j : Bytes)
        → visible dash_holds r.1.tiers j
          ≡ (if matches_pattern j (codes "a*") then none else visible dash_holds manager.tiers j))
unfolding multi_tier_cache.Backends.DashMap.remove_pattern
invalidate_pattern-clears_example =
    invalidate_pattern-clears 9 manager (codes "a*") dash_holds dash-ClearsPatterns
      (refl, (refl, tt))

-- A backend that holds nothing, and whose pattern removal works or not.
instance abbrev fragile : L2CacheBackend Bool
fragile = record {
  backend = record {
    get = λ s k. (none, s);
    set_with_ttl = λ s k v ttl. (ok tt, s);
    set = λ s k v. (ok tt, s);
    remove = λ s k. (ok tt, s);
    health_check = λ s. (true, s);
    remove_pattern = λ s p. if s then (ok tt, s) else (err not_found, s);
    name = λ s. "fragile";
  };
  get_with_ttl = λ s k. (none, s);
}

abbrev tier : Bool → ℕ → CacheTier ℕ Bool
tier works level = new_tier works level true 10 1

abbrev broken : CacheManager ℕ Bool Unit Log
broken = fresh (tier true 1 ∷ tier false 2 ∷ tier true 3 ∷ []) none (some publisher)

invalidate_pattern-stops_example : invalidate_pattern 9 broken (codes "a*") ≡ (
  err not_found,
  record broken {
    tiers = asked (codes "a*") (tier true 1) ∷ asked (codes "a*") (tier false 2) ∷ tier true 3 ∷ [];
  },
)
invalidate_pattern-stops_example =
    invalidate_pattern-stops 9 broken (codes "a*") (tier true 1 ∷ []) (tier false 2)
      (tier true 3 ∷ []) not_found refl (refl, tt) refl

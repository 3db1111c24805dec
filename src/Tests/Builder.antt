-- ===== src/Tests/Builder.antt =====
-- The theorems on the builder, applied to small builders.
use multi_tier_cache.Base.{ℕ, ◌≡◌, none, map, ok, ◌↔◌, ◌⊎◌, CacheError, err}
use multi_tier_cache.Traits.{CacheBackend}
use multi_tier_cache.Manager.Tier.{as_l1, as_l2}
use multi_tier_cache.Manager.Construct.{fresh}
use multi_tier_cache.Builder.{
  CacheSystemBuilder, new_builder, with_tier, with_l3, sort_by_level, tier_of, multi_tier,
  build_multi_tier,
}
use multi_tier_cache.Builder.Levels.{at_level, Ordered, Distinct}
use multi_tier_cache.Builder.Build.{Clash, build_multi_tier_lem}
use multi_tier_cache.Tests.Setup.{whole, Log, dash, Dash, l1, l2}

instance abbrev dash_cache : CacheBackend Dash
dash_cache = dash.backend

abbrev Plain : Type 0
Plain = CacheSystemBuilder ℕ Dash Dash Unit Unit

-- Given from the third tier to the first.
abbrev three : Plain
three = with_tier (with_tier (with_l3 new_builder l2.backend) l2.backend as_l2) l1.backend as_l1

build_multi_tier_lem_example :
    ((build_multi_tier {C = Log} three
        ≡ ok (multi_tier (fresh (map tier_of (sort_by_level three.tiers)) none none)))
      ↔ Distinct three.tiers)
    × (Distinct three.tiers
        ⊎ ((e : CacheError) × (build_multi_tier {C = Log} three ≡ err e) × Clash three.tiers e))
    × Ordered (sort_by_level three.tiers)
    × ((n : ℕ) → at_level n (sort_by_level three.tiers) ≡ at_level n three.tiers)
build_multi_tier_lem_example = build_multi_tier_lem three

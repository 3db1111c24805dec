-- ===== src/Tests/Typed.antt =====
-- The theorem on `get_or_compute_typed`, applied to numbers.
use multi_tier_cache.Base.{ℕ, suc, ◌≡◌, refl, none, some, [], ◌∷◌, CacheResult, ok, codes, bytes_eq}
use multi_tier_cache.Serialization.{serialize}
use multi_tier_cache.Manager.Tier.{short_term}
use multi_tier_cache.Manager.Get.{contains_key}
use multi_tier_cache.Manager.Compute.{get_or_compute_typed}
use multi_tier_cache.Manager.Abstract.{visible}
use multi_tier_cache.Manager.Abstract.Typed.{get_or_compute_typed-serialize}
use multi_tier_cache.Tests.AssocMap.{lookup, assoc_map}
use multi_tier_cache.Tests.Setup.{
  whole, number_serde, number_serde-ReadsBack, dash, dash_holds, dash-IsLawful, dash-IsReliable,
  manager, session, draw,
}

abbrev nine : ℕ → CacheResult ℕ × ℕ
nine n = (ok 9, suc n)

absent : visible dash_holds manager.tiers (codes "n") ≡ none
unfolding lookup assoc_map bytes_eq
absent = refl

get_or_compute_typed-serialize_example :
    let r = get_or_compute_typed nine session (codes "n") short_term draw draw none none in
    (r.0 ≡ ok 9)
    × (r.1.world ≡ 1)
    × (visible dash_holds r.1.manager.tiers (codes "n") ≡ some (9 ∷ []))
unfolding contains_key serialize
get_or_compute_typed-serialize_example =
    get_or_compute_typed-serialize dash_holds dash-IsLawful dash-IsReliable nine session (codes "n")
      short_term draw draw none none 9 (9 ∷ []) number_serde-ReadsBack refl refl absent refl refl

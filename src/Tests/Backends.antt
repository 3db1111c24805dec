-- ===== src/Tests/Backends.antt =====
-- The theorems on the backends, applied to small concrete ones.
use multi_tier_cache.Base.{
  bytes_eq, if◌then◌else◌, none, ◌↔◌, true, ℕ, ◌↔◌, ◌+◌, ◌≤◌, ◌≡◌, some, [], ◌∷◌, Bytes, codes,
  arith,
}
use multi_tier_cache.Traits.Laws.{IsLawful}
use multi_tier_cache.Manager.Abstract.{IsReliable}
use multi_tier_cache.Backends.Pattern.{matches_pattern}
use multi_tier_cache.Backends.Pattern.Glob.{Glob, matches_pattern_lem}
use multi_tier_cache.Backends.DashMap.{
  DashMapCache, backend_at, get_with_ttl, set_with_ttl, cleanup_expired, len, is_expired,
}
use multi_tier_cache.Backends.DashMap.Laws.{
  holds_at, backend_at-IsLawful, get_with_ttl-set_with_ttl, cleanup_expired_lem,
}
use multi_tier_cache.Tests.AssocMap.{Entries, assoc_map, assoc_map-IsMap}
use multi_tier_cache.Tests.Setup.{l1}

abbrev cache : DashMapCache Entries
cache = l1.backend

backend_at-IsLawful_example :
    IsLawful (backend_at {M = Entries} 7) (holds_at 7) × IsReliable (backend_at {M = Entries} 7)
backend_at-IsLawful_example = backend_at-IsLawful assoc_map-IsMap 7

get_with_ttl-set_with_ttl_example :
    (get_with_ttl 12 12 (set_with_ttl 10 cache (codes "k") (3 ∷ []) 5).1 (codes "k")).0
    ≡ some (3 ∷ [], some 3)
get_with_ttl-set_with_ttl_example =
    get_with_ttl-set_with_ttl assoc_map-IsMap cache (codes "k") (3 ∷ []) 5 10 12 (omega arith)

-- The clock shows 100 at every key but "b".
abbrev clock : Bytes → ℕ
clock key = if bytes_eq key (codes "b") then 101 else 100

cleanup_expired_lem_example :
    (len (cleanup_expired clock cache).1 + (cleanup_expired clock cache).0 ≡ len cache)
    × ((j : Bytes)
        → assoc_map.get (cleanup_expired clock cache).1.map j ≡ elim (assoc_map.get cache.map j) [
          | none ↦ none
          | some e ↦ if is_expired (clock j) e then none else some e
        ])
    × ((later : ℕ) (j : Bytes)
        → clock j ≤ later
        → holds_at later (cleanup_expired clock cache).1 j ≡ holds_at later cache j)
cleanup_expired_lem_example = cleanup_expired_lem assoc_map-IsMap clock cache

matches_pattern_lem_example :
    (matches_pattern (codes "user:7:x") (codes "user:*:x") ≡ true)
    ↔ Glob (codes "user:*:x") (codes "user:7:x")
matches_pattern_lem_example = matches_pattern_lem (codes "user:7:x") (codes "user:*:x")

-- ===== src/Tests/Default.antt =====
-- A Moka cache over a Redis cache, through a history of calls.
use multi_tier_cache.Base.{ℕ, ◌≡◌, ◌≢◌, refl, none, List, [], ◌∷◌, Bytes, ok, codes, Option, arith}
use multi_tier_cache.Traits.{L2CacheBackend}
use multi_tier_cache.Traits.Laws.{IsLawful}
use multi_tier_cache.Traits.Dyn.{either}
use multi_tier_cache.Traits.Dyn.Laws.{either_holds}
use multi_tier_cache.Manager.Tier.{short_term, real_time}
use multi_tier_cache.Manager.Construct.{new}
use multi_tier_cache.Manager.Get.{contains_key}
use multi_tier_cache.Manager.Abstract.{IsReliable, visible}
use multi_tier_cache.Manager.Abstract.Run.{Call, gets, sets, computes, invalidates, run, ideal_run}
use multi_tier_cache.Backends.Moka.{TypedCacheEntry, backend_at}
use multi_tier_cache.Backends.Moka.Laws.{holds_at, backend_at-Implements}
use multi_tier_cache.Backends.Redis.{
  RedisCache, negsuc, remove_pattern, redis_backend, scan_keys, scan_loop, remove_bulk,
}
use multi_tier_cache.Backends.Redis.Laws.{Answers, redis_backend-IsLawful}
use multi_tier_cache.System.Default.{manager_of, layered, new-run}
use multi_tier_cache.Tests.AssocMap.{lookup}
use multi_tier_cache.Tests.Moka.{Entries, Small, small, raw, typed, list_store-HasRoom}
use multi_tier_cache.Tests.Redis.{Keys, server, view, full}
use multi_tier_cache.Tests.Setup.{whole, log_conn, Log, number_json, compute, draw}

abbrev steps : RedisCache Keys → Bytes → ℕ
steps s pattern = 2

ends : (s : RedisCache Keys) (pattern : Bytes) → (remove_pattern 2 s pattern).0 ≢ none
unfolding remove_pattern scan_keys scan_loop remove_bulk
ends s pattern e = absurd (ground arith)

server-Answers : Answers server view
unfolding contains_key
server-Answers = record {
  reads = λ c k. (negsuc 0, refl);
  read_keeps = λ c k j. refl;
  writes = λ c k v ms. refl;
  stores = λ c k v ms j. refl;
  deletes = λ c k. (1, refl);
  clears = λ c k j. ground arith;
}

abbrev moka : L2CacheBackend Small
moka = backend_at 70

abbrev redis : L2CacheBackend (RedisCache Keys)
redis = redis_backend steps ends

abbrev moka_holds : Small → Bytes → Option Bytes
moka_holds = holds_at lookup (λ (m : Entries (TypedCacheEntry Bytes)). lookup m) 70

abbrev redis_holds : RedisCache Keys → Bytes → Option Bytes
redis_holds s = view s.conn_manager

abbrev history : List (Call ℕ)
history =
    gets (codes "page") draw none
    ∷ gets (codes "other") draw none
    ∷ computes (codes "user:1") real_time compute draw none
    ∷ invalidates 100 (codes "page")
    ∷ sets (codes "page") (4 ∷ []) short_term
    ∷ []

moka-IsLawful : IsLawful moka moka_holds × IsReliable moka
moka-IsLawful = let m = backend_at-Implements lookup lookup list_store-HasRoom 70 in (m.0, m.2)

new-run_example :
    let instance both = either moka redis in
    let ran =
      run {F = ℕ}
        (record { manager = manager_of {C = Log} moka redis small full tt; world = 0 })
        history in
    let ideal = ideal_run (layered moka_holds redis_holds small full 0) history in
    (new {F = ℕ} moka redis small full (ok tt) ≡ ok (manager_of {C = Log} moka redis small full tt))
    × (ran.0 ≡ ideal.0)
    × ((j : Bytes)
        → visible (either_holds moka_holds redis_holds) ran.1.manager.tiers j ≡ ideal.1.content j)
    × (ran.1.world ≡ ideal.1.world)
new-run_example =
    new-run moka redis moka_holds redis_holds moka-IsLawful.0 moka-IsLawful.1
      (redis_backend-IsLawful steps ends view server-Answers).0
      (redis_backend-IsLawful steps ends view server-Answers).1 small full tt 0 history
      (tt, (tt, (tt, (tt, (tt, tt)))))

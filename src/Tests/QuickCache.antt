-- ===== src/Tests/QuickCache.antt =====
-- The theorems on the QuickCache backend, applied to a cache of functions.
use multi_tier_cache.Base.{
  ◌≡◌, refl, true, false, Option, none, some, [], ◌∷◌, Bytes, bytes_eq, if◌then◌else◌, arith,
}
use multi_tier_cache.Backends.QuickCache.{
  CacheEntry, EntryCache, QuickCacheBackend, health_check, test_key,
}
use multi_tier_cache.Backends.QuickCache.Laws.{HasRoom, health_check_lem}

abbrev Entries : Type 0
Entries = Bytes → Option CacheEntry

instance abbrev unbounded : EntryCache Entries
unbounded = record {
  create = λ capacity k. none;
  get = λ m k. (m k, m);
  insert = λ m k e j. if bytes_eq k j then some e else m j;
  remove = λ m k j. if bytes_eq k j then none else m j;
}

abbrev entry : Entries → Bytes → Option CacheEntry
entry m k = m k

unbounded-HasRoom : HasRoom unbounded entry
unbounded-HasRoom = record {
  reads = λ m k. refl;
  get_keeps = λ m k j. refl;
  inserts = λ m k j e. refl;
  removes = λ m k j. refl;
}

abbrev cache : QuickCacheBackend Entries
cache = record {
  cache = λ k. some (record { value = 3 ∷ []; expires_at = 40 });
  hits = 0;
  misses = 0;
  sets = 0;
}

health_check_lem_example :
    ((health_check 100 200 cache).0 ≡ true)
    × ((j : Bytes)
        → bytes_eq test_key j ≡ false
        → (health_check 100 200 cache).1.cache j ≡ cache.cache j)
health_check_lem_example = health_check_lem entry 100 200 cache unbounded-HasRoom (omega arith)

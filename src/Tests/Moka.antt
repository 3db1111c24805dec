-- ===== src/Tests/Moka.antt =====
-- The theorems on the Moka backend, applied to two association lists.
use multi_tier_cache.Base.{
  ◌≡◌, refl, false, none, some, List, [], ◌∷◌, Bytes, bytes_eq, codes, arith,
}
use multi_tier_cache.Traits.Laws.{IsLawful, ClearsPatterns}
use multi_tier_cache.Manager.Abstract.{IsReliable}
use multi_tier_cache.Backends.Pattern.{matches_pattern}
use multi_tier_cache.Backends.Moka.{
  CacheEntry, TypedCacheEntry, Store, MokaCache, get, set_with_ttl, remove, remove_pattern,
  set_typed, get_typed, backend_at,
}
use multi_tier_cache.Backends.Moka.Laws.{listed, HasRoom, holds_at, backend_at-Implements}
use multi_tier_cache.Backends.Moka.Typed.{remove_pattern-reads, get_typed-set_typed}
use multi_tier_cache.Tests.AssocMap.{lookup, delete, lookup-delete}

abbrev pub Entries : Type 0 → Type 0
Entries E = List (Bytes × E)

abbrev list_store : {E : Type 0} → Store (Entries E) E
list_store = record {
  build = λ config. [];
  get = λ m k. (lookup m k, m);
  insert = λ m k e. (k, e) ∷ m;
  invalidate = λ m k. delete k m;
  entries = λ m. m;
  run_pending_tasks = λ m. m;
}

unlisted : {E : Type 0} (m : Entries E) (j : Bytes) → listed j m ≡ false → lookup m j ≡ none
unfolding lookup
unlisted [] j e = refl
unlisted ((k, x) ∷ m) j e = ground (arith, unlisted m j)

pub list_store-HasRoom : {E : Type 0} → HasRoom (list_store {E = E}) lookup
unfolding lookup
list_store-HasRoom = record {
  reads = λ m k. refl;
  get_keeps = λ m k j. refl;
  inserts = λ m k j e. refl;
  invalidates = λ m k j. lookup-delete k j m;
  lists = unlisted;
  pending_keeps = λ m j. refl;
}

instance abbrev pub raw : Store (Entries CacheEntry) CacheEntry
raw = list_store

instance abbrev pub typed : Store (Entries (TypedCacheEntry Bytes)) (TypedCacheEntry Bytes)
typed = list_store

abbrev pub Small : Type 0
Small = MokaCache (Entries CacheEntry) (Entries (TypedCacheEntry Bytes)) Bytes

abbrev pub small : Small
small = record {
  cache =
      (codes "user:1", record { value = 5 ∷ []; expires_at = 90 })
      ∷ (codes "page", record { value = 6 ∷ []; expires_at = 200 })
      ∷ [];
  typed_cache = (codes "user:1", record { value = codes "Ada"; expires_at = 90 }) ∷ [];
  hits = 0;
  misses = 0;
  sets = 0;
  coalesced_requests = 0;
}

backend_at-Implements_example :
    IsLawful
      (backend_at {M = Entries CacheEntry} {N = Entries (TypedCacheEntry Bytes)} {V = Bytes} 70)
      (holds_at lookup (λ (m : Entries (TypedCacheEntry Bytes)). lookup m) 70)
    × ClearsPatterns
        (backend_at {M = Entries CacheEntry} {N = Entries (TypedCacheEntry Bytes)} {V = Bytes} 70)
        (holds_at lookup (λ (m : Entries (TypedCacheEntry Bytes)). lookup m) 70)
    × IsReliable
        (backend_at {M = Entries CacheEntry} {N = Entries (TypedCacheEntry Bytes)} {V = Bytes} 70)
backend_at-Implements_example = backend_at-Implements lookup lookup list_store-HasRoom 70

remove_pattern-reads_example :
    ((get 70 (remove_pattern small (codes "user:*")).1 (codes "user:1")).0 ≡ none)
    × ((get_typed 70 (remove_pattern small (codes "user:*")).1 (codes "user:1")).0 ≡ none)
    × ((get 70 (remove small (codes "page")).1 (codes "user:1")).0 ≡ some (5 ∷ []))
    × ((get_typed 70 (remove small (codes "page")).1 (codes "user:1")).0 ≡ some (codes "Ada"))
unfolding matches_pattern bytes_eq get get_typed lookup
remove_pattern-reads_example =
    remove_pattern-reads list_store-HasRoom list_store-HasRoom 70 small (codes "user:*")
      (codes "page") (codes "user:1")

get_typed-set_typed_example :
    ((get_typed 95 (set_typed 80 small (codes "user:1") (codes "Bo") 20).1 (codes "user:1")).0
      ≡ some (codes "Bo"))
    × ((get_typed 95 (set_with_ttl 80 small (codes "user:1") (9 ∷ []) 20).1 (codes "user:1")).0
        ≡ (get_typed 95 small (codes "user:1")).0)
    × ((get 95 (set_typed 80 small (codes "user:1") (codes "Bo") 20).1 (codes "user:1")).0
        ≡ (get 95 small (codes "user:1")).0)
unfolding bytes_eq
get_typed-set_typed_example =
    get_typed-set_typed list_store-HasRoom list_store-HasRoom 95 80 small (codes "user:1")
      (codes "user:1") (9 ∷ []) (codes "Bo") 20

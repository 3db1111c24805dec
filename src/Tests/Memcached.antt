-- ===== src/Tests/Memcached.antt =====
-- The theorem on the writes of the Memcached backend, applied to a server that keeps what was sent.
use multi_tier_cache.Base.{
  ℕ, ◌-◌, ◌^◌, ◌<◌, ◌≤◌, min, ◌≡◌, true, List, none, [], ◌∷◌, Bytes, done, err, or_err, is_ok,
  u64_add, if◌then◌else◌, codes, ◌↔◌,
}
use multi_tier_cache.Time.{from_secs, from_mins, as_secs}
use multi_tier_cache.Backends.Memcached.{
  Client, MemcachedCache, set_with_ttl, operation_failed, spawn_failed,
}
use multi_tier_cache.Backends.Memcached.Laws.{set_with_ttl_lem}

-- The keys, values and expiration times of the writes.
abbrev Sent : Type 0
Sent = List (Bytes × Bytes × ℕ)

instance abbrev server : Client Sent
server = record {
  version = λ c. (done (codes "1.6" ∷ []), c);
  stats = λ c. (done [], c);
  get = λ c key. (done none, c);
  set = λ c key value exp. (done tt, (key, value, exp) ∷ c);
  delete = λ c key. (done true, c);
  spawn = λ c. (true, c);
}

abbrev cache : MemcachedCache Sent
cache = record { client = []; hits = 0; misses = 0; sets = 0 }

set_with_ttl_lem_example :
    let n = min (as_secs (from_mins 5)) (2 ^ 32 - 1) in
    let task = server.spawn cache.client in
    let sent = server.set task.1 (codes "k") (7 ∷ []) n in
    let r = set_with_ttl cache (codes "k") (7 ∷ []) (from_mins 5) in
    (r.0 ≡ (if task.0 then or_err operation_failed sent.0 else err spawn_failed))
    × (r.1.client ≡ (if task.0 then sent.1 else task.1))
    × (r.1.sets ≡ (if is_ok r.0 then u64_add cache.sets 1 else cache.sets))
    × (n < 2 ^ 32)
    × ((n ≡ 0) ↔ (from_mins 5 < from_secs 1))
    × ((2_592_000 < n) ↔ (from_secs 2_592_001 ≤ from_mins 5))
set_with_ttl_lem_example = set_with_ttl_lem cache (codes "k") (7 ∷ []) (from_mins 5)

-- ===== src/Tests/Redis.antt =====
-- The theorem on the Redis backend, applied to a server that scans two keys in two steps.
use multi_tier_cache.Base.{
  ◌≡◌, refl, Option, none, some, [], ◌∷◌, Bytes, bytes_eq, ok, done, ◌==◌, if◌then◌else◌, codes,
  arith,
}
use multi_tier_cache.Manager.Get.{contains_key}
use multi_tier_cache.Backends.Redis.{RedisCommands, RedisCache, negsuc, remove_pattern}
use multi_tier_cache.Backends.Redis.Scan.{Walk, last_step, one_step, IsServer, remove_pattern-Walk}

abbrev pub Keys : Type 0
Keys = Bytes → Option Bytes

instance abbrev pub server : RedisCommands Keys
server = record {
  get = λ c key. (done (c key), c);
  pset_ex = λ c key value ms. (done tt, λ j. if bytes_eq key j then some value else c j);
  del = λ c keys. (done 1, λ j. if contains_key keys j then none else c j);
  scan = λ c cursor pattern.
      (if cursor == 0 then done (7, codes "a1" ∷ []) else done (0, codes "a2" ∷ []), c);
  ping = λ c. (done tt, c);
  get_and_ttl = λ c key. (done (c key, negsuc 0), c);
}

abbrev pub view : Keys → Bytes → Option Bytes
view c = c

server-IsServer : IsServer server view
server-IsServer = record { scan_keeps = λ c n p j. refl; del_clears = λ c keys n j e. refl }

abbrev pub full : RedisCache Keys
full = record { conn_manager = λ j. some (9 ∷ []); hits = 0; misses = 0; sets = 0 }

two_steps :
    Walk server (codes "a*") full.conn_manager 0 (codes "a1" ∷ codes "a2" ∷ []) 2 full.conn_manager
two_steps =
    one_step full.conn_manager 0 7 (codes "a1" ∷ []) (codes "a2" ∷ []) 1 full.conn_manager
      full.conn_manager refl refl
      (last_step full.conn_manager 7 (codes "a2" ∷ []) full.conn_manager refl)

remove_pattern-Walk_example :
    let r = remove_pattern 5 full (codes "a*") in
    (r.0 ≡ some (ok tt))
    × ((j : Bytes)
        → r.1.conn_manager j
          ≡ (if contains_key (codes "a1" ∷ codes "a2" ∷ []) j then none else some (9 ∷ [])))
remove_pattern-Walk_example =
    remove_pattern-Walk view full (codes "a*") (codes "a1" ∷ codes "a2" ∷ []) 2 5 full.conn_manager
      server-IsServer (λ c keys. (1, refl)) two_steps (omega arith)

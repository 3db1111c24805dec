-- ===== src/Backends/Redis/Laws.antt =====
-- src/backends/redis_cache.rs: what the cache holds while its server answers.
use multi_tier_cache.Base.{
  ℕ, ◌/◌, ◌≡◌, ◌≢◌, refl, Option, none, some, [], ◌∷◌, Bytes, done, bytes_eq, if◌then◌else◌, arith,
  ok,
}
use multi_tier_cache.Time.{Duration}
use multi_tier_cache.Traits.Laws.{found, IsLawful}
use multi_tier_cache.Manager.Abstract.{IsReliable}
use multi_tier_cache.Backends.Redis.{
  RedisCommands, RedisCache, ℤ, to_u64, set_with_ttl, remove, remove_pattern, get_with_ttl,
  redis_backend,
}

-- What a server promises while no command fails (so none asks for a time to live of zero, which
-- Redis refuses), while it has room, and while no entry's time has passed.
pub record Answers {C : Type 0} (redis : RedisCommands C) (stored : C → Bytes → Option Bytes)
    : Type 0 where
  pub reads : (c : C) (k : Bytes) → (ttl : ℤ) × ((redis.get_and_ttl c k).0 ≡ done (stored c k, ttl))
  pub read_keeps : (c : C) (k j : Bytes) → stored (redis.get_and_ttl c k).1 j ≡ stored c j
  pub writes : (c : C) (k v : Bytes) (ms : ℕ) → (redis.pset_ex c k v ms).0 ≡ done tt
  pub stores :
      (c : C) (k v : Bytes) (ms : ℕ) (j : Bytes)
      → stored (redis.pset_ex c k v ms).1 j ≡ (if bytes_eq k j then some v else stored c j)
  pub deletes : (c : C) (k : Bytes) → (n : ℕ) × ((redis.del c (k ∷ [])).0 ≡ done n)
  pub clears :
      (c : C) (k j : Bytes)
      → stored (redis.del c (k ∷ [])).1 j ≡ (if bytes_eq k j then none else stored c j)

module _ {C : Type 0} ⦃redis : RedisCommands C⦄ (steps : RedisCache C → Bytes → ℕ)
    (ends : (s : RedisCache C) (pattern : Bytes)
      → (remove_pattern (steps s pattern) s pattern).0 ≢ none)
    (stored : C → Bytes → Option Bytes) (answers : Answers redis stored) where
  abbrev pub holds : RedisCache C → Bytes → Option Bytes
  holds s = stored s.conn_manager

  read_found : (s : RedisCache C) (k : Bytes) → found (get_with_ttl s k).0 ≡ holds s k
  unfolding get_with_ttl
  read_found s k = ground (arith, (answers.reads s.conn_manager k).1)

  read_keeps : (s : RedisCache C) (k j : Bytes) → holds (get_with_ttl s k).1 j ≡ holds s j
  unfolding get_with_ttl
  read_keeps s k j =
      ground (arith, (answers.reads s.conn_manager k).1, answers.read_keeps s.conn_manager k j)

  write_done :
      (s : RedisCache C) (k v : Bytes) (ttl : Duration) → (set_with_ttl s k v ttl).0 ≡ ok tt
  unfolding set_with_ttl
  write_done s k v ttl =
      rw (answers.writes s.conn_manager k v (to_u64 (ttl / 1_000_000)), set_with_ttl) refl

  write_holds :
      (s : RedisCache C) (k v : Bytes) (ttl : Duration) (j : Bytes)
      → holds (set_with_ttl s k v ttl).1 j ≡ (if bytes_eq k j then some v else holds s j)
  unfolding set_with_ttl
  write_holds s k v ttl j =
      let ms = to_u64 (ttl / 1_000_000) in
      rw (answers.writes s.conn_manager k v ms, set_with_ttl)
        (answers.stores s.conn_manager k v ms j)

  remove_done : (s : RedisCache C) (k : Bytes) → (remove s k).0 ≡ ok tt
  unfolding remove
  remove_done s k = rw ((answers.deletes s.conn_manager k).1, remove) refl

  -- While the server answers every command and has room, and no entry's time has passed: the cache
  -- is a map from keys to values, and no write and no removal fails.
  pub redis_backend-IsLawful :
      IsLawful (redis_backend steps ends) holds × IsReliable (redis_backend steps ends)
  unfolding redis_backend remove
  redis_backend-IsLawful = (
    record {
      read = read_found;
      read_keeps = read_keeps;
      write = λ s k v ttl j _. write_holds s k v ttl j;
      clear = λ s k j _. answers.clears s.conn_manager k j;
    },
    record { writes = write_done; removes = remove_done },
  )

-- ===== src/Backends/Memcached.antt =====
-- src/backends/memcached_cache.rs. The client of the crate `memcache`, the servers behind it
-- included, is a parameter, and so is the pool of threads that runs its blocking calls.
pub mod Laws
use multi_tier_cache.Base.{
  ℕ, ◌^◌, ◌-◌, Bool, true, false, Option, none, some, List, [], ◌∷◌, Bytes, Message, lit,
  CacheResult, ok, err, CacheError, backend_error, config_error, internal_error, Outcome, done,
  failed, or_err, ltb, bytes_eq, codes, if◌then◌else◌, u64_add, ◌>>=◌, ◌>>◌,
}
use mathlib.Core.Option.{get_or}
use multi_tier_cache.Time.{Duration, from_secs, as_secs}
use multi_tier_cache.Traits.{CacheBackend, L2CacheBackend, default_set, default_remove_pattern}

-- The commands that the program sends, and `spawn`, which tells whether the next blocking call runs.
pub record Client (C : Type 0) : Type 0 where
  pub version : C → Outcome (List Bytes) × C
  pub stats : C → Outcome (List (Bytes × List (Bytes × Bytes))) × C
  pub get : C → Bytes → Outcome (Option Bytes) × C
  pub set : C → Bytes → Bytes → ℕ → Outcome (Unit {0}) × C
  pub delete : C → Bytes → Outcome Bool × C
  pub spawn : C → Bool × C

pub record MemcachedCache (C : Type 0) : Type 0 where
  pub client : C
  pub hits : ℕ
  pub misses : ℕ
  pub sets : ℕ

-- `u32::try_from(ttl.as_secs()).unwrap_or(u32::MAX)`
unfoldable pub expiration : Duration → ℕ
expiration ttl = if ltb (as_secs ttl) (2 ^ 32) then as_secs ttl else 2 ^ 32 - 1

abbrev pub operation_failed : Message → CacheError
operation_failed e = backend_error (lit "Memcached operation failed: " ∷ e)

abbrev pub spawn_failed : CacheError
spawn_failed = internal_error (lit "Spawn blocking task failed" ∷ [])

abbrev pub test_key : Bytes
test_key = codes "health_check_memcached"

abbrev pub test_value : Bytes
test_value = codes "health_check"

abbrev default_url : Bytes
default_url = codes "memcache://127.0.0.1:11211"

-- `map(|v| (v, None))`
abbrev pub without_ttl : Option Bytes → Option (Bytes × Option Duration)
without_ttl none = none
without_ttl (some v) = some (v, none)

module _ {C : Type 0} ⦃memcache : Client C⦄ where
  -- `url` is the variable `MEMCACHED_URL`, if it is set, and `connect` that of the crate.
  unfoldable pub new : Option Bytes → (Bytes → Outcome C) → CacheResult (MemcachedCache C)
  new url connect = do
    client ←
        or_err (λ e. config_error (lit "Failed to connect to Memcached: " ∷ e))
          (connect (get_or url default_url))
    let r = memcache.version client
    versions ← or_err (λ e. config_error (lit "Memcached connection test failed: " ∷ e)) r.0
    ok record { client = r.1; hits = 0; misses = 0; sets = 0 }

  unfoldable pub get_server_stats :
      MemcachedCache C → CacheResult (List (Bytes × List (Bytes × Bytes))) × MemcachedCache C
  get_server_stats c =
      let r = memcache.stats c.client in
      (
        or_err (λ e. backend_error (lit "Failed to get Memcached stats: " ∷ e)) r.0,
        record c { client = r.1 },
      )

  -- A command that fails is counted as a miss; a call that does not run is not counted.
  unfoldable pub get : MemcachedCache C → Bytes → Option Bytes × MemcachedCache C
  get c key =
      let task = memcache.spawn c.client in
      let r = memcache.get task.1 key in
      let miss = record c { client = r.1; misses = u64_add c.misses 1 } in
      let hit = record c { client = r.1; hits = u64_add c.hits 1 } in
      if task.0
      then elim r.0 [
        | failed e ↦ (none, miss)
        | done found ↦ elim found [ none ↦ (none, miss) | some bytes ↦ (some bytes, hit) ]
      ]
      else (none, record c { client = task.1 })

  unfoldable pub set_with_ttl :
      MemcachedCache C → Bytes → Bytes → Duration → CacheResult (Unit {0}) × MemcachedCache C
  unfolding expiration
  set_with_ttl c key value ttl =
      let task = memcache.spawn c.client in
      let r = memcache.set task.1 key value (expiration ttl) in
      let left = record c { client = r.1 } in
      if task.0
      then elim r.0 [
        | failed e ↦ (err (operation_failed e), left)
        | done _ ↦ (ok tt, record left { sets = u64_add c.sets 1 })
      ]
      else (err spawn_failed, record c { client = task.1 })

  -- Whether there was such a key does not matter.
  unfoldable pub remove : MemcachedCache C → Bytes → CacheResult (Unit {0}) × MemcachedCache C
  remove c key =
      let task = memcache.spawn c.client in
      let r = memcache.delete task.1 key in
      if task.0
      then (or_err operation_failed r.0 >>= λ existed. ok tt, record c { client = r.1 })
      else (err spawn_failed, record c { client = task.1 })

  -- A write and a read of a key of its own, which is removed again if the read finds it.
  unfoldable pub health_check : MemcachedCache C → Bool × MemcachedCache C
  unfolding get set_with_ttl remove
  health_check c =
      let written = set_with_ttl c test_key test_value (from_secs 10) in
      let read = get written.1 test_key in
      elim written.0 [
        | err e ↦ (false, written.1)
        | ok _ ↦ elim read.0 [
          | none ↦ (false, read.1)
          | some retrieved ↦ (bytes_eq retrieved test_value, (remove read.1 test_key).1)
        ]
      ]

  unfoldable pub get_with_ttl :
      MemcachedCache C → Bytes → Option (Bytes × Option Duration) × MemcachedCache C
  unfolding get
  get_with_ttl c key = let r = get c key in (without_ttl r.0, r.1)

  -- `set` and `remove_pattern` are those of the trait.
  instance abbrev pub memcached : L2CacheBackend (MemcachedCache C)
  memcached = record {
    backend = record {
      get = get;
      set_with_ttl = set_with_ttl;
      set = default_set set_with_ttl;
      remove = remove;
      health_check = health_check;
      remove_pattern = default_remove_pattern;
      name = λ c. "Memcached";
    };
    get_with_ttl = get_with_ttl;
  }

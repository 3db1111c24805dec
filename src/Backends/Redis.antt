-- ===== src/Backends/Redis.antt =====
-- src/backends/redis_cache.rs. The commands of the crate `redis` over one connection, the server
-- behind it included, are a parameter.
pub mod Scan
pub mod Laws
use multi_tier_cache.Base.{
  ℕ, suc, zero, ◌^◌, ◌-◌, ◌/◌, String, Bool, true, false, Option, none, some, List, [], ◌∷◌, ◌++◌,
  Bytes, Message, lit, CacheResult, CacheError, ok, err, backend_error, from_redis, config_error,
  codes, ◌>>=◌, ◌>>◌, Outcome, done, failed, or_err, ltb, if◌then◌else◌, u64_add, ◌==◌, ◌≢◌, refl,
}
use mathlib.Core.Option.{get_or}
use multi_tier_cache.Time.{Duration, from_secs}
use multi_tier_cache.Traits.{CacheBackend, L2CacheBackend, default_set}

-- A number of type `i64`: `pos n` is n, and `negsuc n` is -(n + 1).
pub data ℤ : Type 0 where
  pos : ℕ → ℤ
  negsuc : ℕ → ℤ

-- GET, PSETEX, DEL, one step of SCAN with MATCH and COUNT 100, PING, and GET with TTL in a pipe.
pub record RedisCommands (C : Type 0) : Type 0 where
  pub get : C → Bytes → Outcome (Option Bytes) × C
  pub pset_ex : C → Bytes → Bytes → ℕ → Outcome (Unit {0}) × C
  pub del : C → List Bytes → Outcome ℕ × C
  pub scan : C → ℕ → Bytes → Outcome (ℕ × List Bytes) × C
  pub ping : C → Outcome (Unit {0}) × C
  pub get_and_ttl : C → Bytes → Outcome (Option Bytes × ℤ) × C

pub record RedisCache (C : Type 0) : Type 0 where
  pub conn_manager : C
  pub hits : ℕ
  pub misses : ℕ
  pub sets : ℕ

abbrev pub to_u64 : ℕ → ℕ
to_u64 n = if ltb n (2 ^ 64) then n else 2 ^ 64 - 1

-- `From<RedisError>` turns an error into its text.
abbrev pub del_result : Outcome ℕ → CacheResult ℕ
del_result = or_err from_redis

abbrev pub forget : CacheResult ℕ → CacheResult (Unit {0})
forget (ok n) = ok tt
forget (err e) = err e

abbrev is_done : Outcome (Unit {0}) → Bool
is_done (done _) = true
is_done (failed e) = false

abbrev pub ttl_of : ℤ → Option Duration
ttl_of (pos n) = if ltb 0 n then some (from_secs n) else none
ttl_of (negsuc n) = none

abbrev default_url : Bytes
default_url = codes "redis://127.0.0.1:6379"

abbrev no_client : Message → CacheError
no_client e = config_error (lit "Failed to create Redis client: " ∷ e)

abbrev no_connection : Message → CacheError
no_connection e = backend_error (lit "Failed to establish Redis connection manager: " ∷ e)

abbrev no_ping : Message → CacheError
no_ping e = backend_error (lit "Redis PING health check failed: " ∷ e)

module _ {C : Type 0} ⦃redis : RedisCommands C⦄ where
  -- `Client::open` and `ConnectionManager::new` of the crate, by the address, are arguments.
  module _ (open_client : Bytes → Outcome (Unit {0})) (connect : Bytes → Outcome C) where
    unfoldable pub with_url : Bytes → CacheResult (RedisCache C)
    with_url redis_url = do
      or_err no_client (open_client redis_url)
      conn_manager ← or_err no_connection (connect redis_url)
      let r = redis.ping conn_manager
      or_err no_ping r.0
      ok record { conn_manager = r.1; hits = 0; misses = 0; sets = 0 }

    -- `url` is the variable `REDIS_URL`, if it is set.
    unfoldable pub new : Option Bytes → CacheResult (RedisCache C)
    unfolding with_url
    new url = with_url (get_or url default_url)

  -- The loop of `scan_keys` from a cursor on, with the keys that it has: nothing, if `fuel` steps
  -- have not brought it to an end.
  unfoldable pub scan_loop : ℕ → Bytes → ℕ → List Bytes → C → Option (CacheResult (List Bytes)) × C
  scan_loop zero pattern cursor keys c = (none, c)
  scan_loop (suc fuel) pattern cursor keys c =
      let answer = redis.scan c cursor pattern in
      elim answer.0 [
        | failed e ↦ (some (err (from_redis e)), answer.1)
        | done result ↦
            let all = keys ++ result.1 in
            let later = scan_loop fuel pattern result.0 all answer.1 in
            if result.0 == 0 then (some (ok all), answer.1) else later
      ]

  unfoldable pub scan_keys :
      ℕ → RedisCache C → Bytes → Option (CacheResult (List Bytes)) × RedisCache C
  unfolding scan_loop
  scan_keys fuel s pattern =
      let r = scan_loop fuel pattern 0 [] s.conn_manager in (r.0, record s { conn_manager = r.1 })

  unfoldable pub remove_bulk : RedisCache C → List Bytes → CacheResult ℕ × RedisCache C
  remove_bulk s [] = (ok 0, s)
  remove_bulk s (key ∷ keys) =
      let r = redis.del s.conn_manager (key ∷ keys) in
      (del_result r.0, record s { conn_manager = r.1 })

  unfoldable pub get : RedisCache C → Bytes → Option Bytes × RedisCache C
  get s key =
      let r = redis.get s.conn_manager key in
      let hit = record s { conn_manager = r.1; hits = u64_add s.hits 1 } in
      let miss = record s { conn_manager = r.1; misses = u64_add s.misses 1 } in
      elim r.0 [
        | failed e ↦ (none, miss)
        | done found ↦ elim found [ none ↦ (none, miss) | some bytes ↦ (some bytes, hit) ]
      ]

  -- The time to live goes out in whole milliseconds.
  unfoldable pub set_with_ttl :
      RedisCache C → Bytes → Bytes → Duration → CacheResult (Unit {0}) × RedisCache C
  set_with_ttl s key value ttl =
      let r = redis.pset_ex s.conn_manager key value (to_u64 (ttl / 1_000_000)) in
      let left = record s { conn_manager = r.1 } in
      elim r.0 [
        | done _ ↦ (ok tt, record left { sets = u64_add s.sets 1 })
        | failed e ↦ (err (backend_error (lit "Redis set failed: " ∷ e)), left)
      ]

  unfoldable pub remove : RedisCache C → Bytes → CacheResult (Unit {0}) × RedisCache C
  remove s key =
      let r = redis.del s.conn_manager (key ∷ []) in
      (forget (del_result r.0), record s { conn_manager = r.1 })

  unfoldable pub health_check : RedisCache C → Bool × RedisCache C
  health_check s =
      let r = redis.ping s.conn_manager in (is_done r.0, record s { conn_manager = r.1 })

  unfoldable pub remove_pattern :
      ℕ → RedisCache C → Bytes → Option (CacheResult (Unit {0})) × RedisCache C
  unfolding scan_keys remove_bulk
  remove_pattern fuel s pattern =
      let scanned = scan_keys fuel s pattern in
      elim scanned.0 [
        | none ↦ (none, scanned.1)
        | some result ↦ elim result [
          | err e ↦ (some (err e), scanned.1)
          | ok keys ↦ let r = remove_bulk scanned.1 keys in (some (forget r.0), r.1)
        ]
      ]

  -- A failed command is not counted as a miss.
  unfoldable pub get_with_ttl :
      RedisCache C → Bytes → Option (Bytes × Option Duration) × RedisCache C
  get_with_ttl s key =
      let r = redis.get_and_ttl s.conn_manager key in
      let left = record s { conn_manager = r.1 } in
      elim r.0 [
        | failed e ↦ (none, left)
        | done answer ↦ elim answer.0 [
          | some b ↦ (some (b, ttl_of answer.1), record left { hits = u64_add s.hits 1 })
          | none ↦ (none, record left { misses = u64_add s.misses 1 })
        ]
      ]

-- A result that is there.
abbrev ended : {A B : Type 0} (r : Option A × B) → r.0 ≢ none → A × B
ended (none, b) h = absurd (h refl)
ended (some a, b) h = (a, b)

-- The backend, over a server whose scans end: `steps` is a fuel that is enough for each. `set` is
-- that of the trait.
unfoldable pub redis_backend :
    {C : Type 0} ⦃redis : RedisCommands C⦄ (steps : RedisCache C → Bytes → ℕ)
    → ((s : RedisCache C) (pattern : Bytes) → (remove_pattern (steps s pattern) s pattern).0 ≢ none)
    → L2CacheBackend (RedisCache C)
redis_backend steps ends = record {
  backend = record {
    get = get;
    set_with_ttl = set_with_ttl;
    set = default_set set_with_ttl;
    remove = remove;
    health_check = health_check;
    remove_pattern =
        λ s pattern. ended (remove_pattern (steps s pattern) s pattern) (ends s pattern);
    name = λ s. "Redis";
  };
  get_with_ttl = get_with_ttl;
}

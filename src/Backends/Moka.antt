-- ===== src/Backends/Moka.antt =====
-- src/backends/moka_cache.rs. The crate `moka` is a parameter, a typed value stands for an
-- `Arc<dyn Any>`, and each reading of the clock is an argument, in nanoseconds.
pub mod Laws
pub mod Typed
use multi_tier_cache.Base.{
  ℕ, ◌+◌, ◌-◌, Bool, true, false, Option, none, some, List, [], ◌∷◌, Bytes, CacheResult, ok, err,
  bytes_eq, ltb, codes, if◌then◌else◌, u64_add,
}
use multi_tier_cache.Time.{Duration, from_mins, from_hours}
use multi_tier_cache.Traits.{CacheBackend, L2CacheBackend, default_set}
use multi_tier_cache.Backends.Pattern.{matches_pattern}

-- An entry of either store: of bytes, or of typed values.
pub record Entry (V : Type 0) : Type 0 where
  pub value : V
  pub expires_at : ℕ

abbrev pub CacheEntry : Type 0
CacheEntry = Entry Bytes

abbrev pub TypedCacheEntry : Type 0 → Type 0
TypedCacheEntry V = Entry V

abbrev pub new_entry : {V : Type 0} → ℕ → V → Duration → Entry V
new_entry now value ttl = record { value = value; expires_at = now + ttl }

abbrev pub is_expired : {V : Type 0} → ℕ → Entry V → Bool
is_expired now entry = ltb entry.expires_at now

pub record MokaCacheConfig : Type 0 where
  pub max_capacity : ℕ
  pub time_to_live : Duration
  pub time_to_idle : Duration

abbrev pub default_config : MokaCacheConfig
default_config = record {
  max_capacity = 5000;
  time_to_live = from_hours 1;
  time_to_idle = from_mins 2;
}

-- What the program uses of `Cache<String, …>`; `entries` is an iteration over it, and `remove`
-- and `invalidate` differ in what they return only.
pub record Store (M E : Type 0) : Type 0 where
  pub build : MokaCacheConfig → M
  pub get : M → Bytes → Option E × M
  pub insert : M → Bytes → E → M
  pub invalidate : M → Bytes → M
  pub entries : M → List (Bytes × E)
  pub run_pending_tasks : M → M

pub record MokaCache (M N V : Type 0) : Type 0 where
  pub cache : M
  pub typed_cache : N
  pub hits : ℕ
  pub misses : ℕ
  pub sets : ℕ
  pub coalesced_requests : ℕ

abbrev pub test_key : Bytes
test_key = codes "health_check_moka"

abbrev pub test_value : Bytes
test_value = codes "health_check"

-- The two loops of `remove_pattern` over one store: over its entries, for the keys that match,
-- and over these keys.
unfoldable pub matching_keys : {E : Type 0} → Bytes → List (Bytes × E) → List Bytes
matching_keys pattern [] = []
matching_keys pattern ((key, entry) ∷ entries) =
    let rest = matching_keys pattern entries in
    if matches_pattern key pattern then key ∷ rest else rest

unfoldable pub invalidate_keys : {M E : Type 0} → Store M E → List Bytes → M → M
invalidate_keys store [] m = m
invalidate_keys store (key ∷ keys) m = invalidate_keys store keys (store.invalidate m key)

unfoldable pub invalidate_matching : {M E : Type 0} → Store M E → Bytes → M → M
unfolding matching_keys invalidate_keys
invalidate_matching store pattern m =
    invalidate_keys store (matching_keys pattern (store.entries m)) m

module _ {M N V : Type 0} ⦃raw : Store M CacheEntry⦄ ⦃typed : Store N (TypedCacheEntry V)⦄ where
  abbrev pub new : MokaCacheConfig → CacheResult (MokaCache M N V)
  new config = ok record {
    cache = raw.build config;
    typed_cache = typed.build config;
    hits = 0;
    misses = 0;
    sets = 0;
    coalesced_requests = 0;
  }

  unfoldable pub set_typed :
      ℕ → MokaCache M N V → Bytes → V → Duration → CacheResult (Unit {0}) × MokaCache M N V
  set_typed now c key value ttl = (
    ok tt,
    record c {
      typed_cache = typed.insert c.typed_cache key (new_entry now value ttl);
      sets = u64_add c.sets 1;
    },
  )

  -- A key that is not there is not counted as a miss.
  unfoldable pub get_typed : ℕ → MokaCache M N V → Bytes → Option V × MokaCache M N V
  get_typed now c key =
      let r = typed.get c.typed_cache key in
      elim r.0 [
        | none ↦ (none, record c { typed_cache = r.1 })
        | some entry ↦
            if is_expired now entry
            then (
              none,
              record c { typed_cache = typed.invalidate r.1 key; misses = u64_add c.misses 1 },
            )
            else (some entry.value, record c { typed_cache = r.1; hits = u64_add c.hits 1 })
      ]

  unfoldable pub get : ℕ → MokaCache M N V → Bytes → Option Bytes × MokaCache M N V
  get now c key =
      let r = raw.get c.cache key in
      elim r.0 [
        | none ↦ (none, record c { cache = r.1; misses = u64_add c.misses 1 })
        | some entry ↦
            if is_expired now entry
            then (none, record c { cache = raw.invalidate r.1 key; misses = u64_add c.misses 1 })
            else (some entry.value, record c { cache = r.1; hits = u64_add c.hits 1 })
      ]

  unfoldable pub set_with_ttl :
      ℕ → MokaCache M N V → Bytes → Bytes → Duration → CacheResult (Unit {0}) × MokaCache M N V
  set_with_ttl now c key value ttl = (
    ok tt,
    record c { cache = raw.insert c.cache key (new_entry now value ttl); sets = u64_add c.sets 1 },
  )

  unfoldable pub remove : MokaCache M N V → Bytes → CacheResult (Unit {0}) × MokaCache M N V
  remove c key = (
    ok tt,
    record c {
      cache = raw.invalidate c.cache key;
      typed_cache = typed.invalidate c.typed_cache key;
    },
  )

  -- A write and a read of a key of its own, which is removed again if the read finds it.
  unfoldable pub health_check : ℕ → ℕ → MokaCache M N V → Bool × MokaCache M N V
  unfolding get set_with_ttl remove
  health_check now now' c =
      let written = set_with_ttl now c test_key test_value (from_mins 1) in
      let read = get now' written.1 test_key in
      elim written.0 [
        | err e ↦ (false, written.1)
        | ok _ ↦ elim read.0 [
          | none ↦ (false, read.1)
          | some retrieved ↦ (bytes_eq retrieved test_value, (remove read.1 test_key).1)
        ]
      ]

  unfoldable pub remove_pattern : MokaCache M N V → Bytes → CacheResult (Unit {0}) × MokaCache M N V
  unfolding invalidate_matching
  remove_pattern c pattern = (
    ok tt,
    record c {
      cache = raw.run_pending_tasks (invalidate_matching raw pattern c.cache);
      typed_cache = typed.run_pending_tasks (invalidate_matching typed pattern c.typed_cache);
    },
  )

  -- The time that is left at a second reading of the clock, `now'`.
  unfoldable pub get_with_ttl :
      ℕ → ℕ → MokaCache M N V → Bytes → Option (Bytes × Option Duration) × MokaCache M N V
  get_with_ttl now now' c key =
      let r = raw.get c.cache key in
      elim r.0 [
        | none ↦ (none, record c { cache = r.1; misses = u64_add c.misses 1 })
        | some entry ↦
            if is_expired now entry
            then (none, record c { cache = raw.invalidate r.1 key; misses = u64_add c.misses 1 })
            else (
              some (
                entry.value,
                if ltb now' entry.expires_at then some (entry.expires_at - now') else none,
              ),
              record c { cache = r.1; hits = u64_add c.hits 1 },
            )
      ]

  -- The backend while the clock stands still. `set` is that of the trait.
  abbrev pub backend_at : ℕ → L2CacheBackend (MokaCache M N V)
  backend_at now = record {
    backend = record {
      get = get now;
      set_with_ttl = set_with_ttl now;
      set = default_set (set_with_ttl now);
      remove = remove;
      health_check = health_check now now;
      remove_pattern = remove_pattern;
      name = λ c. "Moka";
    };
    get_with_ttl = get_with_ttl now now;
  }

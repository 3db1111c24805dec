-- ===== src/Backends/QuickCache.antt =====
-- src/backends/quickcache_cache.rs. The crate `quick_cache` is a parameter, and each reading of the
-- clock is an argument, in nanoseconds. The lock around an entry is held within one call only.
pub mod Laws
use multi_tier_cache.Base.{
  ℕ, ◌+◌, ◌-◌, Bool, true, false, Option, none, some, Bytes, CacheResult, ok, err, bytes_eq, ltb,
  leb, lit, [], ◌∷◌, from_try_from_int, ◌>>=◌, codes, if◌then◌else◌, u64_add,
}
use multi_tier_cache.Time.{Duration, from_mins}
use multi_tier_cache.Traits.{CacheBackend, L2CacheBackend, default_set, default_remove_pattern}

pub record CacheEntry : Type 0 where
  pub value : Bytes
  pub expires_at : ℕ

abbrev pub new_entry : ℕ → Bytes → Duration → CacheEntry
new_entry now value ttl = record { value = value; expires_at = now + ttl }

abbrev pub is_expired : ℕ → CacheEntry → Bool
is_expired now entry = ltb entry.expires_at now

-- What the program uses of `Cache<String, …>`.
pub record EntryCache (M : Type 0) : Type 0 where
  pub create : ℕ → M
  pub get : M → Bytes → Option CacheEntry × M
  pub insert : M → Bytes → CacheEntry → M
  pub remove : M → Bytes → M

pub record QuickCacheBackend (M : Type 0) : Type 0 where
  pub cache : M
  pub hits : ℕ
  pub misses : ℕ
  pub sets : ℕ

abbrev pub test_key : Bytes
test_key = codes "health_check_quickcache"

abbrev pub test_value : Bytes
test_value = codes "health_check"

abbrev pub miss : {M : Type 0} → QuickCacheBackend M → QuickCacheBackend M
miss c = record c { misses = u64_add c.misses 1 }

abbrev pub hit : {M : Type 0} → QuickCacheBackend M → QuickCacheBackend M
hit c = record c { hits = u64_add c.hits 1 }

-- `max_capacity` is an `u64`, and `usize_max` the largest `usize` of the machine.
abbrev pub to_usize : ℕ → ℕ → CacheResult ℕ
to_usize usize_max n =
    if leb n usize_max
    then ok n
    else err (from_try_from_int (lit "out of range integral type conversion attempted" ∷ []))

abbrev pub size : {M : Type 0} → QuickCacheBackend M → ℕ
size c = 0

module _ {M : Type 0} ⦃quick : EntryCache M⦄ where
  unfoldable pub new : ℕ → ℕ → CacheResult (QuickCacheBackend M)
  new usize_max max_capacity = do
    capacity ← to_usize usize_max max_capacity
    ok record { cache = quick.create capacity; hits = 0; misses = 0; sets = 0 }

  -- The entry that a read finds, if it has not expired; one that has is removed.
  unfoldable pub find : ℕ → QuickCacheBackend M → Bytes → Option CacheEntry × QuickCacheBackend M
  find now c key =
      let r = quick.get c.cache key in
      let left = record c { cache = r.1 } in
      elim r.0 [
        | none ↦ (none, miss left)
        | some entry ↦
            if is_expired now entry
            then (none, miss (record c { cache = quick.remove r.1 key }))
            else (some entry, hit left)
      ]

  unfoldable pub get : ℕ → QuickCacheBackend M → Bytes → Option Bytes × QuickCacheBackend M
  unfolding find
  get now c key =
      let r = find now c key in (elim r.0 [ none ↦ none | some entry ↦ some entry.value ], r.1)

  unfoldable pub set_with_ttl :
      ℕ
      → QuickCacheBackend M
      → Bytes
      → Bytes
      → Duration
      → CacheResult (Unit {0}) × QuickCacheBackend M
  set_with_ttl now c key value ttl = (
    ok tt,
    record c {
      cache = quick.insert c.cache key (new_entry now value ttl);
      sets = u64_add c.sets 1;
    },
  )

  abbrev pub remove : QuickCacheBackend M → Bytes → CacheResult (Unit {0}) × QuickCacheBackend M
  remove c key = (ok tt, record c { cache = quick.remove c.cache key })

  -- The time that is left at a second reading of the clock, `now'`.
  unfoldable pub get_with_ttl :
      ℕ → ℕ → QuickCacheBackend M → Bytes → Option (Bytes × Option Duration) × QuickCacheBackend M
  unfolding find
  get_with_ttl now now' c key =
      let r = find now c key in
      (
        elim r.0 [
          | none ↦ none
          | some entry ↦ some (
            entry.value,
            if ltb now' entry.expires_at then some (entry.expires_at - now') else none,
          )
        ],
        r.1,
      )

  -- A write and a read of a key of its own, which is removed again if the read finds it.
  unfoldable pub health_check : ℕ → ℕ → QuickCacheBackend M → Bool × QuickCacheBackend M
  unfolding get set_with_ttl
  health_check now now' c =
      let written = (set_with_ttl now c test_key test_value (from_mins 1)).1 in
      let read = get now' written test_key in
      elim read.0 [
        | none ↦ (false, read.1)
        | some retrieved ↦ (bytes_eq retrieved test_value, (remove read.1 test_key).1)
      ]

  -- The backend while the clock stands still. `set` and `remove_pattern` are those of the trait.
  abbrev pub backend_at : ℕ → L2CacheBackend (QuickCacheBackend M)
  backend_at now = record {
    backend = record {
      get = get now;
      set_with_ttl = set_with_ttl now;
      set = default_set (set_with_ttl now);
      remove = remove;
      health_check = health_check now now;
      remove_pattern = default_remove_pattern;
      name = λ c. "QuickCache";
    };
    get_with_ttl = get_with_ttl now now;
  }

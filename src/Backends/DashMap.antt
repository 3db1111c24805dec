-- ===== src/Backends/DashMap.antt =====
-- src/backends/dashmap_cache.rs. The crate `dashmap` is a parameter. Each reading of the clock,
-- `Instant::now()`, is an argument, in nanoseconds.
pub mod Laws
pub mod Timed
use multi_tier_cache.Base.{
  ℕ, ◌+◌, ◌-◌, ◌≡◌, String, Bool, true, false, not, Option, none, some, List, [], ◌∷◌, Bytes,
  bytes_eq, CacheResult, ok, ltb, if◌then◌else◌, u64_add, length,
}
use multi_tier_cache.Time.{Duration}
use multi_tier_cache.Traits.{CacheBackend, L2CacheBackend, default_set}
use multi_tier_cache.Backends.Pattern.{matches_pattern}

pub record CacheEntry : Type 0 where
  pub value : Bytes
  pub expires_at : Option ℕ

abbrev pub new_entry : ℕ → Bytes → Duration → CacheEntry
new_entry now value ttl = record { value = value; expires_at = some (now + ttl) }

abbrev pub is_expired : ℕ → CacheEntry → Bool
is_expired now entry = elim entry.expires_at [ none ↦ false | some expires_at ↦ ltb expires_at now ]

-- What the program uses of `DashMap<String, CacheEntry>`; `entries` is an iteration over it.
pub record EntryMap (M : Type 0) : Type 0 where
  pub empty : M
  pub get : M → Bytes → Option CacheEntry
  pub insert : M → Bytes → CacheEntry → M
  pub remove : M → Bytes → M
  pub retain : M → (Bytes → CacheEntry → Bool) → M
  pub entries : M → List (Bytes × CacheEntry)
  pub len : M → ℕ

unfoldable pub count_removed : (Bytes → CacheEntry → Bool) → List (Bytes × CacheEntry) → ℕ
count_removed keep [] = 0
count_removed keep ((key, entry) ∷ entries) =
    let rest = count_removed keep entries in if keep key entry then rest else rest + 1

pub record DashMapCache (M : Type 0) : Type 0 where
  pub map : M
  pub hits : ℕ
  pub misses : ℕ
  pub sets : ℕ

module _ {M : Type 0} ⦃maps : EntryMap M⦄ where
  abbrev pub new : DashMapCache M
  new = record { map = maps.empty; hits = 0; misses = 0; sets = 0 }

  -- The closure of `retain` runs once on every entry, and counts those that it drops. It reads the
  -- clock each time: `clock` is what it reads at each key.
  unfoldable pub cleanup_expired : (Bytes → ℕ) → DashMapCache M → ℕ × DashMapCache M
  unfolding count_removed
  cleanup_expired clock c =
      let keep : Bytes → CacheEntry → Bool = λ key entry. not (is_expired (clock key) entry) in
      (count_removed keep (maps.entries c.map), record c { map = maps.retain c.map keep })

  abbrev pub len : DashMapCache M → ℕ
  len c = maps.len c.map

  unfoldable pub get : ℕ → DashMapCache M → Bytes → Option Bytes × DashMapCache M
  get now c key = elim (maps.get c.map key) [
    | none ↦ (none, c)
    | some entry ↦
        if is_expired now entry
        then (none, record c { map = maps.remove c.map key })
        else (some entry.value, c)
  ]

  unfoldable pub set_with_ttl :
      ℕ → DashMapCache M → Bytes → Bytes → Duration → CacheResult (Unit {0}) × DashMapCache M
  set_with_ttl now c key value ttl = (
    ok tt,
    record c { map = maps.insert c.map key (new_entry now value ttl); sets = u64_add c.sets 1 },
  )

  abbrev pub remove : DashMapCache M → Bytes → CacheResult (Unit {0}) × DashMapCache M
  remove c key = (ok tt, record c { map = maps.remove c.map key })

  unfoldable pub remove_pattern : DashMapCache M → Bytes → CacheResult (Unit {0}) × DashMapCache M
  remove_pattern c pattern =
      (ok tt, record c { map = maps.retain c.map (λ key entry. not (matches_pattern key pattern)) })

  abbrev drop_entry : DashMapCache M → Bytes → DashMapCache M
  drop_entry c key = record c { map = maps.remove c.map key; misses = u64_add c.misses 1 }

  abbrev hit : DashMapCache M → DashMapCache M
  hit c = record c { hits = u64_add c.hits 1 }

  -- The clock is read a second time, at `now'`, for the time that is left.
  unfoldable pub get_with_ttl :
      ℕ → ℕ → DashMapCache M → Bytes → Option (Bytes × Option Duration) × DashMapCache M
  get_with_ttl now now' c key = elim (maps.get c.map key) [
    | none ↦ (none, record c { misses = u64_add c.misses 1 })
    | some entry ↦
        if is_expired now entry then (none, drop_entry c key) else elim entry.expires_at [
          | none ↦ (some (entry.value, none), hit c)
          | some expires_at ↦
              if ltb expires_at now'
              then (none, drop_entry c key)
              else (some (entry.value, some (expires_at - now')), hit c)
        ]
  ]

  -- The backend while the clock stands still.
  abbrev pub backend_at : ℕ → L2CacheBackend (DashMapCache M)
  backend_at now = record {
    backend = record {
      get = get now;
      set_with_ttl = set_with_ttl now;
      set = default_set (set_with_ttl now);
      remove = remove;
      health_check = λ c. (true, c);
      remove_pattern = remove_pattern;
      name = λ c. "DashMap";
    };
    get_with_ttl = get_with_ttl now now;
  }

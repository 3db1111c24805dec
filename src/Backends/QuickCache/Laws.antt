-- ===== src/Backends/QuickCache/Laws.antt =====
-- src/backends/quickcache_cache.rs, while the crate evicts nothing.
use multi_tier_cache.Base.{
  ℕ, ◌+◌, ◌≤◌, ◌≡◌, ◌∙◌, refl, ap, true, false, Option, none, some, Bytes, bytes_eq, bytes_eq_refl,
  if◌then◌else◌, arith,
}
use multi_tier_cache.Time.{from_mins}
use multi_tier_cache.Traits.Laws.{found}
use multi_tier_cache.Backends.QuickCache.{
  CacheEntry, is_expired, new_entry, EntryCache, QuickCacheBackend, find, get, set_with_ttl,
  get_with_ttl, health_check, test_key, test_value,
}

-- What `quick_cache` promises while it has room for every entry.
pub record HasRoom {M : Type 0} (quick : EntryCache M) (entry : M → Bytes → Option CacheEntry)
    : Type 0 where
  pub reads : (m : M) (k : Bytes) → (quick.get m k).0 ≡ entry m k
  pub get_keeps : (m : M) (k j : Bytes) → entry (quick.get m k).1 j ≡ entry m j
  pub inserts :
      (m : M) (k j : Bytes) (e : CacheEntry)
      → entry (quick.insert m k e) j ≡ (if bytes_eq k j then some e else entry m j)
  pub removes :
      (m : M) (k j : Bytes)
      → entry (quick.remove m k) j ≡ (if bytes_eq k j then none else entry m j)

module _ {M : Type 0} ⦃quick : EntryCache M⦄ where
  -- The two ways to read agree: at the same instant, `get` returns the value that `get_with_ttl`
  -- returns, and both leave the same cache and the same counters.
  pub get-found :
      (now now' : ℕ) (c : QuickCacheBackend M) (key : Bytes)
      → ((get now c key).0 ≡ found (get_with_ttl now now' c key).0)
        × ((get now c key).1 ≡ (get_with_ttl now now' c key).1)
  unfolding get get_with_ttl find
  get-found now now' c key = ground arith

  find-hit :
      (now : ℕ) (c : QuickCacheBackend M) (key : Bytes) (e : CacheEntry)
      → (quick.get c.cache key).0 ≡ some e
      → is_expired now e ≡ false
      → ((get now c key).0 ≡ some e.value) × ((get now c key).1.cache ≡ (quick.get c.cache key).1)
  unfolding get find
  find-hit now c key e there live = rw (there, get, find) (rw live (refl, refl))

  -- While the cache has room for every entry, `health_check` succeeds if its read comes no more
  -- than a minute after its write, and it leaves the entry of every other key as it was.
  pub health_check_lem :
      (entry : M → Bytes → Option CacheEntry) (now now' : ℕ) (c : QuickCacheBackend M)
      → HasRoom quick entry
      → now' ≤ now + from_mins 1
      → ((health_check now now' c).0 ≡ true)
        × ((j : Bytes)
            → bytes_eq test_key j ≡ false
            → entry (health_check now now' c).1.cache j ≡ entry c.cache j)
  unfolding health_check set_with_ttl
  health_check_lem entry now now' c q h =
      let e = new_entry now test_value (from_mins 1) in
      let m = quick.insert c.cache test_key e in
      let written = (set_with_ttl now c test_key test_value (from_mins 1)).1 in
      let there : (quick.get m test_key).0 ≡ some e =
        q.reads m test_key
        ∙ q.inserts c.cache test_key test_key e
        ∙ rw (bytes_eq_refl test_key) refl in
      let read = find-hit now' written test_key e there (ground arith) in
      rw (read.0, health_check)
        (
          bytes_eq_refl test_value,
          λ j apart.
              q.removes (get now' written test_key).1.cache test_key j
              ∙ rw apart (
                  ap (λ m. entry m j) read.1
                  ∙ q.get_keeps m test_key j
                  ∙ q.inserts c.cache test_key j e
                  ∙ rw apart refl),
        )

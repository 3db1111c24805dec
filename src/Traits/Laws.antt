-- ===== src/Traits/Laws.antt =====
-- What a client may expect of a backend, stated over a view of its contents.
use multi_tier_cache.Base.{◌≡◌, Option, none, some, Bytes, ok, bytes_eq, if◌then◌else◌}
use multi_tier_cache.Time.{Duration, from_mins}
use multi_tier_cache.Backends.Pattern.{matches_pattern}
use multi_tier_cache.Traits.{L2CacheBackend}

-- What a key holds, as a read would find it.
abbrev pub found : Option (Bytes × Option Duration) → Option Bytes
found none = none
found (some (v, ttl)) = some v

-- A read returns what the key holds and changes no contents; a write that succeeds stores the
-- value under its key alone, and a removal that succeeds clears its key alone. Nothing expires or
-- is evicted between the calls; a call that fails is left open.
pub record IsLawful {S : Type 0} (b : L2CacheBackend S) (holds : S → Bytes → Option Bytes)
    : Type 0 where
  pub read : (s : S) (k : Bytes) → found (b.get_with_ttl s k).0 ≡ holds s k
  pub read_keeps : (s : S) (k j : Bytes) → holds (b.get_with_ttl s k).1 j ≡ holds s j
  pub write :
      (s : S) (k v : Bytes) (ttl : Duration) (j : Bytes)
      → (b.set_with_ttl s k v ttl).0 ≡ ok tt
      → holds (b.set_with_ttl s k v ttl).1 j ≡ (if bytes_eq k j then some v else holds s j)
  pub clear :
      (s : S) (k j : Bytes)
      → (b.remove s k).0 ≡ ok tt
      → holds (b.remove s k).1 j ≡ (if bytes_eq k j then none else holds s j)

-- For a backend that holds keys as text: its `set` is a write for the default time to live, and
-- `remove_pattern` clears the keys that match, and no other.
pub record ClearsPatterns {S : Type 0} (b : L2CacheBackend S) (holds : S → Bytes → Option Bytes)
    : Type 0 where
  pub sets : (s : S) (k v : Bytes) → b.set s k v ≡ b.set_with_ttl s k v (from_mins 5)
  pub clears :
      (s : S) (pattern j : Bytes)
      → holds (b.remove_pattern s pattern).1 j
        ≡ (if matches_pattern j pattern then none else holds s j)

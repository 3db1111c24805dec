-- ===== src/Backends/Moka/Typed.antt =====
-- src/backends/moka_cache.rs: the store of typed values beside the store of bytes.
use multi_tier_cache.Base.{
  ℕ, ◌+◌, ◌≤◌, ◌≡◌, ◌∙◌, refl, true, false, Option, none, some, Bytes, bytes_eq, bytes_eq_refl,
  if◌then◌else◌, arith, leb,
}
use multi_tier_cache.Time.{Duration, from_mins}
use multi_tier_cache.Backends.Pattern.{matches_pattern}
use multi_tier_cache.Backends.Moka.{
  CacheEntry, TypedCacheEntry, new_entry, is_expired, Store, MokaCache, set_typed, get_typed, get,
  set_with_ttl, remove, remove_pattern, health_check, test_key, test_value,
}
use multi_tier_cache.Backends.Moka.Laws.{HasRoom, alive, entry-invalidate_matching}

module _ {M N V : Type 0} ⦃raw : Store M CacheEntry⦄ ⦃typed : Store N (TypedCacheEntry V)⦄
    {entry : M → Bytes → Option CacheEntry} {typed_entry : N → Bytes → Option (TypedCacheEntry V)}
    (room : HasRoom raw entry) (typed_room : HasRoom typed typed_entry) where
  get-alive :
      (now : ℕ) (c : MokaCache M N V) (key : Bytes)
      → (get now c key).0 ≡ alive now (entry c.cache key)
  unfolding get
  get-alive now c key = ground (arith, room.reads c.cache key)

  get_typed-alive :
      (now : ℕ) (c : MokaCache M N V) (key : Bytes)
      → (get_typed now c key).0 ≡ alive now (typed_entry c.typed_cache key)
  unfolding get_typed
  get_typed-alive now c key = ground (arith, typed_room.reads c.typed_cache key)

  -- While the crate `moka` has room for every entry and drops none by itself: after
  -- `remove_pattern`, neither a read of bytes nor one of a typed value finds a key that matches,
  -- and under any other key both find what they found before; `remove` does the same for one key.
  pub remove_pattern-reads :
      (now : ℕ) (c : MokaCache M N V) (pattern key j : Bytes)
      → ((get now (remove_pattern c pattern).1 j).0
          ≡ (if matches_pattern j pattern then none else (get now c j).0))
        × ((get_typed now (remove_pattern c pattern).1 j).0
            ≡ (if matches_pattern j pattern then none else (get_typed now c j).0))
        × ((get now (remove c key).1 j).0 ≡ (if bytes_eq key j then none else (get now c j).0))
        × ((get_typed now (remove c key).1 j).0
            ≡ (if bytes_eq key j then none else (get_typed now c j).0))
  unfolding remove_pattern remove
  remove_pattern-reads now c pattern key j =
      let left = (remove_pattern c pattern).1 in
      let cleared = (remove c key).1 in
      rw
        (
          get-alive now left j,
          get_typed-alive now left j,
          get-alive now cleared j,
          get_typed-alive now cleared j,
          get-alive now c j,
          get_typed-alive now c j,
        )
        (
          ground (arith, entry-invalidate_matching room pattern c.cache j),
          ground (arith, entry-invalidate_matching typed_room pattern c.typed_cache j),
          ground (arith, room.invalidates c.cache key j),
          ground (arith, typed_room.invalidates c.typed_cache key j),
        )

  -- While the crate `moka` has room for every entry and drops none by itself: a typed value is
  -- found under its key, and under no other, exactly until its time to live has passed; and a write
  -- of bytes, under the same key too, changes no typed value that a read finds, nor the other way
  -- round.
  pub get_typed-set_typed :
      (now then' : ℕ) (c : MokaCache M N V) (key j v : Bytes) (value : V) (ttl : Duration)
      → ((get_typed now (set_typed then' c key value ttl).1 j).0 ≡ (
          if bytes_eq key j
          then (if leb now (then' + ttl) then some value else none)
          else (get_typed now c j).0))
        × ((get_typed now (set_with_ttl then' c key v ttl).1 j).0 ≡ (get_typed now c j).0)
        × ((get now (set_typed then' c key value ttl).1 j).0 ≡ (get now c j).0)
  unfolding set_typed set_with_ttl
  get_typed-set_typed now then' c key j v value ttl =
      let typed_left = (set_typed then' c key value ttl).1 in
      let left = (set_with_ttl then' c key v ttl).1 in
      rw
        (
          get_typed-alive now typed_left j,
          get_typed-alive now left j,
          get-alive now typed_left j,
          get_typed-alive now c j,
          get-alive now c j,
        )
        (
          ground (arith, typed_room.inserts c.typed_cache key j (new_entry then' value ttl)),
          refl,
          refl,
        )

module _ {M N V : Type 0} ⦃raw : Store M CacheEntry⦄ ⦃typed : Store N (TypedCacheEntry V)⦄ where
  find-hit :
      (now : ℕ) (c : MokaCache M N V) (key : Bytes) (e : CacheEntry)
      → (raw.get c.cache key).0 ≡ some e
      → is_expired now e ≡ false
      → (get now c key).0 ≡ some e.value
  unfolding get
  find-hit now c key e there live = rw (there, get) (rw live refl)

  -- `health_check` succeeds if its read comes no more than a minute after its write.
  pub health_check-true :
      {entry : M → Bytes → Option CacheEntry}
      → HasRoom raw entry
      → (now now' : ℕ) (c : MokaCache M N V) → now' ≤ now + from_mins 1
      → (health_check now now' c).0 ≡ true
  unfolding health_check set_with_ttl
  health_check-true room now now' c h =
      let e = new_entry now test_value (from_mins 1) in
      let written = (set_with_ttl now c test_key test_value (from_mins 1)).1 in
      let there : (raw.get written.cache test_key).0 ≡ some e =
        room.reads written.cache test_key
        ∙ room.inserts c.cache test_key test_key e
        ∙ rw (bytes_eq_refl test_key) refl in
      rw (find-hit now' written test_key e there (ground arith), health_check)
        (bytes_eq_refl test_value)

-- ===== src/Backends/Moka/Laws.antt =====
-- src/backends/moka_cache.rs, while the crate evicts nothing: what the two stores hold, and what
-- clearing them leaves.
use multi_tier_cache.Base.{
  ℕ, ◌≡◌, ◌∙◌, refl, ap, sym, Bool, false, ◌||◌, Option, none, some, List, [], ◌∷◌, Bytes, bytes_eq,
  bytes_eq_iff, Bool-cases, inl, inr, if◌then◌else◌, arith,
}
use multi_tier_cache.Time.{Duration}
use multi_tier_cache.Traits.Laws.{found, IsLawful, ClearsPatterns}
use multi_tier_cache.Manager.Abstract.{IsReliable}
use multi_tier_cache.Backends.Pattern.{matches_pattern}
use multi_tier_cache.Backends.Moka.{
  Entry, CacheEntry, TypedCacheEntry, is_expired, new_entry, Store, MokaCache, matching_keys,
  invalidate_keys, invalidate_matching, set_with_ttl, remove, remove_pattern, get_with_ttl,
  backend_at,
}

-- The keys of an iteration.
abbrev pub listed : {E : Type 0} → Bytes → List (Bytes × E) → Bool
listed j [] = false
listed j ((key, entry) ∷ entries) = bytes_eq key j || listed j entries

abbrev member : Bytes → List Bytes → Bool
member j [] = false
member j (key ∷ keys) = bytes_eq key j || member j keys

-- What `moka` promises while it has room for every entry, and no entry has reached the age or the
-- idle time at which the crate drops it by itself.
pub record HasRoom {M E : Type 0} (store : Store M E) (entry : M → Bytes → Option E) : Type 0 where
  pub reads : (m : M) (k : Bytes) → (store.get m k).0 ≡ entry m k
  pub get_keeps : (m : M) (k j : Bytes) → entry (store.get m k).1 j ≡ entry m j
  pub inserts :
      (m : M) (k j : Bytes) (e : E)
      → entry (store.insert m k e) j ≡ (if bytes_eq k j then some e else entry m j)
  pub invalidates :
      (m : M) (k j : Bytes)
      → entry (store.invalidate m k) j ≡ (if bytes_eq k j then none else entry m j)
  pub lists : (m : M) (j : Bytes) → listed j (store.entries m) ≡ false → entry m j ≡ none
  pub pending_keeps : (m : M) (j : Bytes) → entry (store.run_pending_tasks m) j ≡ entry m j

member-matching_keys :
    {E : Type 0} (pattern j : Bytes) (entries : List (Bytes × E))
    → member j (matching_keys pattern entries)
      ≡ (if matches_pattern j pattern then listed j entries else false)
unfolding matching_keys
member-matching_keys pattern j [] = ground arith
member-matching_keys pattern j ((key, entry) ∷ entries) =
    let rest = member-matching_keys pattern j entries in
    elim (Bool-cases (bytes_eq key j)) [
      | inl same ↦
          let alike = ap (λ k. matches_pattern k pattern) ((bytes_eq_iff key j).0 same) in
          ground (arith, rest, same, alike)
      | inr apart ↦ ground (arith, rest, apart)
    ]

module _ {M E : Type 0} {store : Store M E} {entry : M → Bytes → Option E}
    (laws : HasRoom store entry) where
  entry-invalidate_keys :
      (keys : List Bytes) (m : M) (j : Bytes)
      → entry (invalidate_keys store keys m) j ≡ (if member j keys then none else entry m j)
  unfolding invalidate_keys
  entry-invalidate_keys [] m j = refl
  entry-invalidate_keys (key ∷ keys) m j =
      ground
        (arith, entry-invalidate_keys keys (store.invalidate m key) j, laws.invalidates m key j)

  -- After the two loops and the pending tasks, the keys that match are gone, and no other.
  pub entry-invalidate_matching :
      (pattern : Bytes) (m : M) (j : Bytes)
      → entry (store.run_pending_tasks (invalidate_matching store pattern m)) j
        ≡ (if matches_pattern j pattern then none else entry m j)
  unfolding invalidate_matching
  entry-invalidate_matching pattern m j =
      let entries = store.entries m in
      let keys = matching_keys pattern entries in
      ground (
        arith,
        laws.pending_keeps (invalidate_keys store keys m) j,
        entry-invalidate_keys keys m j,
        member-matching_keys pattern j entries,
        laws.lists m j,
      )

abbrev pub alive : {V : Type 0} → ℕ → Option (Entry V) → Option V
alive now none = none
alive now (some e) = if is_expired now e then none else some e.value

alive-clear :
    {V : Type 0} (now : ℕ) (entry : Bytes → Option (Entry V)) (k j : Bytes)
    → alive now (entry k) ≡ none
    → alive now (if bytes_eq k j then none else entry j) ≡ alive now (entry j)
alive-clear now entry k j h = elim (Bool-cases (bytes_eq k j)) [
  | inl same ↦ rw same (sym (ap (λ k. alive now (entry k)) (sym ((bytes_eq_iff k j).0 same)) ∙ h))
  | inr apart ↦ rw apart refl
]

module _ {M N V : Type 0} ⦃raw : Store M CacheEntry⦄ ⦃typed : Store N (TypedCacheEntry V)⦄
    (entry : M → Bytes → Option CacheEntry)
    (typed_entry : N → Bytes → Option (TypedCacheEntry V)) where
  -- The bytes and the typed value under a key, if they have not expired.
  abbrev pub holds_at : ℕ → MokaCache M N V → Bytes → Option Bytes
  holds_at now c key = alive now (entry c.cache key)

  abbrev pub typed_at : ℕ → MokaCache M N V → Bytes → Option V
  typed_at now c key = alive now (typed_entry c.typed_cache key)

  module _ (laws : HasRoom raw entry) (now : ℕ) where
    read_found :
        (c : MokaCache M N V) (k : Bytes) → found (get_with_ttl now now c k).0 ≡ holds_at now c k
    unfolding get_with_ttl
    read_found c k = ground (arith, laws.reads c.cache k)

    read_keeps :
        (c : MokaCache M N V) (k j : Bytes)
        → holds_at now (get_with_ttl now now c k).1 j ≡ holds_at now c j
    unfolding get_with_ttl
    read_keeps c k j = ground (
      arith,
      laws.reads c.cache k,
      laws.get_keeps c.cache k j,
      laws.invalidates (raw.get c.cache k).1 k j,
      alive-clear now (entry c.cache) k j,
    )

    write_holds :
        (c : MokaCache M N V) (k v : Bytes) (ttl : Duration) (j : Bytes)
        → holds_at now (set_with_ttl now c k v ttl).1 j
          ≡ (if bytes_eq k j then some v else holds_at now c j)
    unfolding set_with_ttl
    write_holds c k v ttl j = ground (arith, laws.inserts c.cache k j (new_entry now v ttl))

    clear_holds :
        (c : MokaCache M N V) (k j : Bytes)
        → holds_at now (remove c k).1 j ≡ (if bytes_eq k j then none else holds_at now c j)
    unfolding remove
    clear_holds c k j = ground (arith, laws.invalidates c.cache k j)

    pattern_holds :
        (c : MokaCache M N V) (pattern j : Bytes)
        → holds_at now (remove_pattern c pattern).1 j
          ≡ (if matches_pattern j pattern then none else holds_at now c j)
    unfolding remove_pattern
    pattern_holds c pattern j = ground (arith, entry-invalidate_matching laws pattern c.cache j)

    -- While the crate `moka` has room for every entry and drops none by itself, and while the clock
    -- stands still: the cache is a map from keys to the values that have not expired. A read finds
    -- what is held and changes nothing held, a write and a removal change their own key alone,
    -- `remove_pattern` clears exactly the keys that match, `set` is a write for five minutes, and a
    -- write or a removal never fails.
    pub backend_at-Implements :
        IsLawful (backend_at {M = M} {N = N} {V = V} now) (holds_at now)
        × ClearsPatterns (backend_at {M = M} {N = N} {V = V} now) (holds_at now)
        × IsReliable (backend_at {M = M} {N = N} {V = V} now)
    unfolding set_with_ttl remove
    backend_at-Implements = (
      record {
        read = read_found;
        read_keeps = read_keeps;
        write = λ c k v ttl j _. write_holds c k v ttl j;
        clear = λ c k j _. clear_holds c k j;
      },
      record { sets = λ c k v. refl; clears = pattern_holds },
      record { writes = λ c k v ttl. refl; removes = λ c k. refl },
    )

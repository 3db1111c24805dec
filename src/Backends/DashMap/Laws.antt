-- ===== src/Backends/DashMap/Laws.antt =====
-- src/backends/dashmap_cache.rs: what the cache keeps, for how long, and what clearing it leaves.
use multi_tier_cache.Base.{
  List, [], ◌∷◌, length, length-Perm, ℕ, ◌+◌, ◌-◌, ◌≤◌, ◌≡◌, ◌∙◌, refl, ap, Bool, not, Option, none,
  some, Bytes, bytes_eq, bytes_eq_refl, bytes_eq_iff, Bool-cases, sym, leb, if◌then◌else◌, arith,
  inl, inr,
}
use mathlib.Core.List.{Permᴰ}
use multi_tier_cache.Time.{Duration}
use multi_tier_cache.Traits.Laws.{IsLawful, found, ClearsPatterns}
use multi_tier_cache.Manager.Abstract.{IsReliable}
use multi_tier_cache.Backends.Pattern.{matches_pattern}
use multi_tier_cache.Backends.DashMap.{
  CacheEntry, is_expired, EntryMap, count_removed, DashMapCache, cleanup_expired, get, set_with_ttl,
  remove_pattern, get_with_ttl, backend_at, new_entry, len,
}

abbrev pub kept :
    (Bytes → CacheEntry → Bool) → List (Bytes × CacheEntry) → List (Bytes × CacheEntry)
kept keep [] = []
kept keep ((key, entry) ∷ entries) =
    let rest = kept keep entries in if keep key entry then (key, entry) ∷ rest else rest

length-kept :
    (keep : Bytes → CacheEntry → Bool) (entries : List (Bytes × CacheEntry))
    → length (kept keep entries) + count_removed keep entries ≡ length entries
unfolding count_removed
length-kept keep [] = refl
length-kept keep ((key, entry) ∷ entries) = ground (arith, length-kept keep entries)

-- What the crate `dashmap` promises of its map, with no other thread at work on it.
pub record IsMap {M : Type 0} (maps : EntryMap M) : Type 0 where
  pub get_insert :
      (m : M) (k j : Bytes) (e : CacheEntry)
      → maps.get (maps.insert m k e) j ≡ (if bytes_eq k j then some e else maps.get m j)
  pub get_remove :
      (m : M) (k j : Bytes)
      → maps.get (maps.remove m k) j ≡ (if bytes_eq k j then none else maps.get m j)
  pub get_retain :
      (m : M) (keep : Bytes → CacheEntry → Bool) (j : Bytes)
      → maps.get (maps.retain m keep) j
        ≡ elim (maps.get m j) [ none ↦ none | some e ↦ if keep j e then some e else none ]
  -- The entries that are left are those that the closure kept, in some order.
  pub entries_retain :
      (m : M) (keep : Bytes → CacheEntry → Bool)
      → Permᴰ (maps.entries (maps.retain m keep)) (kept keep (maps.entries m))
  pub counts : (m : M) → maps.len m ≡ length (maps.entries m)

abbrev pub alive : ℕ → Option CacheEntry → Option Bytes
alive now none = none
alive now (some e) = if is_expired now e then none else some e.value

module _ {M : Type 0} ⦃maps : EntryMap M⦄ where
  -- The value under a key, if it has not expired.
  abbrev pub holds_at : ℕ → DashMapCache M → Bytes → Option Bytes
  holds_at now c key = alive now (maps.get c.map key)

-- What a removal of an expired entry leaves is what was there.
alive-clear :
    (now : ℕ) (get : Bytes → Option CacheEntry) (k j : Bytes)
    → alive now (get k) ≡ none
    → alive now (if bytes_eq k j then none else get j) ≡ alive now (get j)
alive-clear now get k j h = elim (Bool-cases (bytes_eq k j)) [
  | inl same ↦ rw same (sym (ap (λ k. alive now (get k)) (sym ((bytes_eq_iff k j).0 same)) ∙ h))
  | inr apart ↦ rw apart refl
]

module _ {M : Type 0} ⦃maps : EntryMap M⦄ (laws : IsMap maps) (now : ℕ) where
  read_found :
      (c : DashMapCache M) (k : Bytes) → found (get_with_ttl now now c k).0 ≡ holds_at now c k
  unfolding get_with_ttl
  read_found c k = ground arith

  read_keeps :
      (c : DashMapCache M) (k j : Bytes)
      → holds_at now (get_with_ttl now now c k).1 j ≡ holds_at now c j
  unfolding get_with_ttl
  read_keeps c k j = ground (arith, laws.get_remove c.map k j, alive-clear now (maps.get c.map) k j)

  write_holds :
      (c : DashMapCache M) (k v : Bytes) (ttl : Duration) (j : Bytes)
      → holds_at now (set_with_ttl now c k v ttl).1 j
        ≡ (if bytes_eq k j then some v else holds_at now c j)
  unfolding set_with_ttl
  write_holds c k v ttl j = ground (arith, laws.get_insert c.map k j (new_entry now v ttl))

  clear_holds :
      (c : DashMapCache M) (k j : Bytes)
      → holds_at now (record c { map = maps.remove c.map k }) j
        ≡ (if bytes_eq k j then none else holds_at now c j)
  clear_holds c k j = ground (arith, laws.get_remove c.map k j)

  -- If the crate's map behaves as documented: while the clock stands still, the cache is a map from
  -- keys to the values that have not expired. A read finds what is held and changes nothing held, a
  -- write and a removal change their own key alone, and neither ever fails.
  pub backend_at-IsLawful :
      IsLawful (backend_at {M = M} now) (holds_at now) × IsReliable (backend_at {M = M} now)
  unfolding set_with_ttl
  backend_at-IsLawful = (
    record {
      read = read_found;
      read_keeps = read_keeps;
      write = λ c k v ttl j _. write_holds c k v ttl j;
      clear = λ c k j _. clear_holds c k j;
    },
    record { writes = λ c k v ttl. refl; removes = λ c k. refl },
  )

module _ {M : Type 0} ⦃maps : EntryMap M⦄ where
  -- The two ways to read agree: `get` returns the value that `get_with_ttl` returns, at the same
  -- instant, and both leave the same map.
  pub get-get_with_ttl :
      (now : ℕ) (c : DashMapCache M) (key : Bytes)
      → ((get now c key).0 ≡ found (get_with_ttl now now c key).0)
        × ((get now c key).1.map ≡ (get_with_ttl now now c key).1.map)
  unfolding get get_with_ttl
  get-get_with_ttl now c key = ground arith

module _ {M : Type 0} ⦃maps : EntryMap M⦄ (laws : IsMap maps) where
  -- If the crate's map behaves as documented: a value written at one instant for a time to live is
  -- found, at any later instant, exactly if no more than that time has passed, and then with the
  -- time that is left.
  pub get_with_ttl-set_with_ttl :
      (c : DashMapCache M) (key value : Bytes) (ttl : Duration) (then' now : ℕ)
      → then' ≤ now
      → (get_with_ttl now now (set_with_ttl then' c key value ttl).1 key).0
        ≡ (if leb now (then' + ttl) then some (value, some (then' + ttl - now)) else none)
  unfolding get_with_ttl set_with_ttl
  get_with_ttl-set_with_ttl c key value ttl then' now h =
      ground (arith, laws.get_insert c.map key key (new_entry then' value ttl), bytes_eq_refl key)

  -- If the crate's map behaves as documented, whatever the clock shows when `cleanup_expired` comes
  -- to each key: every entry that has expired at that instant is gone, and every other is as it
  -- was; the result is the number of entries by which the map has shrunk; and no value is lost, as
  -- at that instant and at every later one the cache holds under the key what it held.
  pub cleanup_expired_lem :
      (clock : Bytes → ℕ) (c : DashMapCache M)
      → (len (cleanup_expired clock c).1 + (cleanup_expired clock c).0 ≡ len c)
        × ((j : Bytes)
            → maps.get (cleanup_expired clock c).1.map j ≡ elim (maps.get c.map j) [
              | none ↦ none
              | some e ↦ if is_expired (clock j) e then none else some e
            ])
        × ((later : ℕ) (j : Bytes)
            → clock j ≤ later
            → holds_at later (cleanup_expired clock c).1 j ≡ holds_at later c j)
  unfolding cleanup_expired
  cleanup_expired_lem clock c =
      let keep : Bytes → CacheEntry → Bool = λ key entry. not (is_expired (clock key) entry) in
      let entries = maps.entries c.map in
      (
        omega (
          arith,
          laws.counts (maps.retain c.map keep),
          laws.counts c.map,
          length-Perm (laws.entries_retain c.map keep),
          length-kept keep entries,
        ),
        λ j. ground (arith, laws.get_retain c.map keep j),
        λ later j h. ground (arith, laws.get_retain c.map keep j),
      )

  -- If the crate's map behaves as documented: `remove_pattern` clears the keys that match the
  -- pattern, and no other, among the values that have not expired.
  pub remove_pattern_lem :
      (now : ℕ) (c : DashMapCache M) (pattern j : Bytes)
      → holds_at now (remove_pattern c pattern).1 j
        ≡ (if matches_pattern j pattern then none else holds_at now c j)
  unfolding remove_pattern
  remove_pattern_lem now c pattern j =
      ground (arith, laws.get_retain c.map (λ key entry. not (matches_pattern key pattern)) j)

  pub backend_at-ClearsPatterns : (now : ℕ) → ClearsPatterns (backend_at {M = M} now) (holds_at now)
  unfolding set_with_ttl
  backend_at-ClearsPatterns now = record { sets = λ c k v. refl; clears = remove_pattern_lem now }

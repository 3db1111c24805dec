-- ===== src/Backends/DashMap/Timed.antt =====
-- src/backends/dashmap_cache.rs: the cache keeps no value beyond its time.
use multi_tier_cache.Base.{
  not, ℕ, ◌+◌, ◌≤◌, ◌≡◌, Option, some, Bytes, bytes_eq, bytes_eq_iff, Bool-cases, inl, inr, arith,
  ◌⊎◌,
}
use mathlib.Core.Option.{get_or}
use multi_tier_cache.Time.{Duration}
use multi_tier_cache.Manager.Tier.{to_duration, default}
use multi_tier_cache.Manager.Freshness.Age.{IsTimed}
use multi_tier_cache.Backends.Pattern.{matches_pattern}
use multi_tier_cache.Backends.DashMap.{
  EntryMap, DashMapCache, set_with_ttl, get_with_ttl, remove_pattern, backend_at, new_entry,
}
use multi_tier_cache.Backends.DashMap.Laws.{IsMap, alive, holds_at}

module _ {M : Type 0} ⦃maps : EntryMap M⦄ (laws : IsMap maps) where
  removed :
      (later : ℕ) (c : DashMapCache M) (k j v : Bytes)
      → alive later (maps.get (maps.remove c.map k) j) ≡ some v
      → holds_at later c j ≡ some v
  removed later c k j v e = ground (arith, laws.get_remove c.map k j)

  reads :
      (now later : ℕ) (c : DashMapCache M) (k j v : Bytes)
      → holds_at later (get_with_ttl now now c k).1 j ≡ some v
      → holds_at later c j ≡ some v
  unfolding get_with_ttl
  reads now later c k j v e = ground (arith, removed later c k j v)

  reports :
      (now : ℕ) (c : DashMapCache M) (k v : Bytes) (ttl : Option Duration)
      → (get_with_ttl now now c k).0 ≡ some (v, ttl)
      → holds_at (now + get_or ttl (to_duration default)) c k ≡ some v
  unfolding get_with_ttl
  reports now c k v ttl e = ground arith

  writes :
      (now later : ℕ) (c : DashMapCache M) (k j v w : Bytes) (ttl : Duration)
      → holds_at later (set_with_ttl now c k v ttl).1 j ≡ some w
      → (holds_at later c j ≡ some w) ⊎ ((k ≡ j) × (v ≡ w) × (later ≤ now + ttl))
  unfolding set_with_ttl
  writes now later c k j v w ttl e = elim (Bool-cases (bytes_eq k j)) [
    | inl same ↦ inr (
      (bytes_eq_iff k j).0 same,
      ground (arith, laws.get_insert c.map k j (new_entry now v ttl)),
      ground (arith, laws.get_insert c.map k j (new_entry now v ttl)),
    )
    | inr apart ↦ inl (ground (arith, laws.get_insert c.map k j (new_entry now v ttl)))
  ]

  clears :
      (later : ℕ) (c : DashMapCache M) (pattern j v : Bytes)
      → holds_at later (remove_pattern c pattern).1 j ≡ some v
      → holds_at later c j ≡ some v
  unfolding remove_pattern
  clears later c pattern j v e =
      ground (arith, laws.get_retain c.map (λ key entry. not (matches_pattern key pattern)) j)

  -- If the crate's map behaves as documented, the cache keeps no value beyond its time to live, and
  -- a read reports the time that is left.
  pub backend_at-IsTimed : IsTimed (backend_at {M = M}) holds_at
  backend_at-IsTimed = record {
    reads = λ now later c k j v after e. reads now later c k j v e;
    reports = reports;
    writes = λ now later c k j v w ttl after e. writes now later c k j v w ttl e;
    removes = λ now later c k j v after e. removed later c k j v e;
    clears = λ now later c pattern j v after e. clears later c pattern j v e;
  }

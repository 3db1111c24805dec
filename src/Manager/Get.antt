-- ===== src/Manager/Get.antt =====
-- src/cache_manager.rs, `get`: the fast path, the two sides of the stampede protection, and the
-- fallback. What a waiter reads from its channel in the end is the argument `heard`: nothing, if
-- the creator went away without sending. What the creator sends is part of its result.
pub mod Counting
use multi_tier_cache.Base.{
  ℕ, Bool, true, false, ◌||◌, not, Option, none, some, List, [], ◌∷◌, Bytes, CacheResult, ok, err,
  bytes_eq, leb, if◌then◌else◌, u64_add, length,
}
use multi_tier_cache.Time.{Float}
use multi_tier_cache.Traits.{L2CacheBackend}
use multi_tier_cache.Serialization.{Serde, deserialize}
use multi_tier_cache.Manager.Tier.{CacheTier, get_with_ttl, record_hit}
use multi_tier_cache.Manager.{Counters, CacheManager}
use multi_tier_cache.Manager.Fetch.{get_multi_tier_from}

-- Whether the map of requests in flight has an entry for the key.
unfoldable pub contains_key : List Bytes → Bytes → Bool
contains_key [] key = false
contains_key (k ∷ keys) key = bytes_eq k key || contains_key keys key

unfoldable pub remove_key : List Bytes → Bytes → List Bytes
remove_key [] key = []
remove_key (k ∷ keys) key = if bytes_eq k key then remove_key keys key else k ∷ remove_key keys key

module _ {F S T C : Type 0} where
  abbrev pub count_request : CacheManager F S T C → CacheManager F S T C
  count_request m = record m {
    counters = record (m.counters) { total_requests = u64_add m.total_requests 1 };
  }

  -- `entry.insert(tx)`
  abbrev pub insert_in_flight : CacheManager F S T C → Bytes → CacheManager F S T C
  insert_in_flight m key = record m { in_flight_requests = key ∷ m.in_flight_requests }

  -- `RemoveInFlightGuard::drop`
  abbrev pub drop_guard : CacheManager F S T C → Bytes → CacheManager F S T C
  drop_guard m key = record m { in_flight_requests = remove_key m.in_flight_requests key }

  abbrev count_l1 : CacheManager F S T C → CacheManager F S T C
  count_l1 m = record m { counters = record (m.counters) { l1_hits = u64_add m.l1_hits 1 } }

  -- The legacy statistics after `get_multi_tier_from(key, 1)`.
  unfoldable pub count_outcome :
      CacheResult (Option Bytes) → CacheManager F S T C → CacheManager F S T C
  count_outcome (ok (some v)) m =
      if leb 2 (length m.tiers)
      then record m { counters = record (m.counters) { l2_hits = u64_add m.l2_hits 1 } }
      else m
  count_outcome (ok none) m = record m {
    counters = record (m.counters) { misses = u64_add m.misses 1 };
  }
  count_outcome (err e) m = m

-- What a creator leaves: its own result, what it sent on the channel, and the manager.
pub record Created (R M : Type 0) : Type 0 where
  pub result : R
  pub sent : Option (CacheResult (Option Bytes))
  pub manager : M

module _ {F S T C : Type 0} ⦃f : Float F⦄ ⦃b : L2CacheBackend S⦄ where
  unfoldable pub first_tier :
      CacheManager F S T C → Bytes → List (CacheTier F S) → Option Bytes × CacheManager F S T C
  first_tier m key [] = (none, m)
  first_tier m key (t ∷ tiers) =
      let r = get_with_ttl t key in
      elim r.0 [
        | none ↦ (none, record m { tiers = r.1 ∷ tiers })
        | some (value, ttl) ↦ (some value, count_l1 (record m { tiers = record_hit r.1 ∷ tiers }))
      ]

  -- The read of the first tier alone: the fast path, and later the double check.
  unfoldable pub fast_path : CacheManager F S T C → Bytes → Option Bytes × CacheManager F S T C
  unfolding first_tier
  fast_path m key = first_tier m key m.tiers

  -- The query of the tiers from the second on, as the creator and the fallback make it.
  unfoldable pub lower_tiers :
      CacheManager F S T C → Bytes → (ℕ → Bool) → CacheResult (Option Bytes) × CacheManager F S T C
  unfolding count_outcome
  lower_tiers m key draw = let r = get_multi_tier_from m key draw 1 in (r.0, count_outcome r.0 r.1)

  unfoldable pub get_creator :
      CacheManager F S T C
      → Bytes
      → (ℕ → Bool)
      → Created (CacheResult (Option Bytes)) (CacheManager F S T C)
  get_creator m key draw =
      let again = fast_path m key in
      let lower = lower_tiers again.1 key draw in
      elim again.0 [
        | some value ↦ record {
          result = ok (some value);
          sent = some (ok (some value));
          manager = again.1;
        }
        | none ↦ record { result = lower.0; sent = some lower.0; manager = lower.1 }
      ]

  unfoldable pub get_waiter :
      CacheManager F S T C
      → Bytes
      → (ℕ → Bool)
      → Option (CacheResult (Option Bytes))
      → CacheResult (Option Bytes) × CacheManager F S T C
  get_waiter m key draw (some result) = (result, m)
  get_waiter m key draw none = lower_tiers m key draw

  -- The slow path: a task that finds an entry waits, one that finds none creates it, and drops
  -- its guard when it is done.
  unfoldable pub get_coalesced :
      CacheManager F S T C
      → Bytes
      → (ℕ → Bool)
      → Option (CacheResult (Option Bytes))
      → CacheResult (Option Bytes) × CacheManager F S T C
  unfolding get_creator get_waiter
  get_coalesced m key draw heard =
      let created = get_creator (insert_in_flight m key) key draw in
      if contains_key m.in_flight_requests key
      then get_waiter m key draw heard
      else (created.result, drop_guard created.manager key)

  unfoldable pub get :
      CacheManager F S T C
      → Bytes
      → (ℕ → Bool)
      → Option (CacheResult (Option Bytes))
      → CacheResult (Option Bytes) × CacheManager F S T C
  unfolding get_coalesced
  get m key draw heard =
      let fast = fast_path (count_request m) key in
      elim fast.0 [
        | some value ↦ (ok (some value), fast.1)
        | none ↦ get_coalesced fast.1 key draw heard
      ]

  -- A value that was read, deserialized.
  abbrev pub typed :
      {A : Type 0} ⦃s : Serde A⦄
      → CacheManager F S T C
      → CacheResult (Option Bytes)
      → CacheResult (Option A)
  typed m (ok (some bytes)) = elim (deserialize m.serializer bytes) [
    | ok value ↦ ok (some value)
    | err e ↦ err e
  ]
  typed m (ok none) = ok none
  typed m (err e) = err e

  unfoldable pub get_typed :
      {A : Type 0} ⦃s : Serde A⦄
      → CacheManager F S T C
      → Bytes
      → (ℕ → Bool)
      → Option (CacheResult (Option Bytes))
      → CacheResult (Option A) × CacheManager F S T C
  get_typed m key draw heard = let r = get m key draw heard in (typed m r.0, r.1)

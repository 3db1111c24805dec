-- ===== src/Manager/Settings.antt =====
-- No operation adds, drops or reorders tiers, or changes the settings of one.
pub mod Writes
use multi_tier_cache.Base.{
  ℕ, ◌≡◌, refl, sym, ap, ◌∙◌, Bool, true, false, Option, none, some, List, [], ◌∷◌, map, arith,
  Bytes, CacheResult, CacheError, ok, err, if◌then◌else◌, Option-cases, CacheResult-cases,
  Bool-cases, inl, inr,
}
use multi_tier_cache.Time.{Duration, Float}
use multi_tier_cache.Traits.{L2CacheBackend}
use multi_tier_cache.Invalidation.Message.{InvalidationMessage, SerdeJson}
use multi_tier_cache.Invalidation.Publisher.{RedisConn}
use multi_tier_cache.Manager.Tier.{
  CacheTier, CacheStrategy, to_duration, get_with_ttl, set_with_ttl,
}
use multi_tier_cache.Manager.{CacheManager}
use multi_tier_cache.Manager.Fetch.{get_multi_tier_from, get_multi_tier}
use multi_tier_cache.Manager.Fetch.Hit.{settings, get_multi_tier_from_lem}
use multi_tier_cache.Manager.Get.{
  contains_key, count_request, insert_in_flight, count_outcome, first_tier, fast_path, lower_tiers,
  get_creator, get_waiter, get_coalesced, get,
}
use multi_tier_cache.Manager.Set.{set_tiers, set_with_strategy}
use multi_tier_cache.Manager.Compute.{
  Session, store, compute_and_store, compute_creator, compute_waiter, compute_coalesced,
  get_or_compute_with,
}
use multi_tier_cache.Manager.Invalidate.{
  remove_tiers, remove_pattern_tiers, update_tiers, send, broadcast, invalidate, invalidate_pattern,
  update_cache, set_with_broadcast,
}

-- Two managers have the same tiers but for what the backends hold and the hits counted.
abbrev pub Keeps : {F S T C : Type 0} → CacheManager F S T C → CacheManager F S T C → Type 0
Keeps m m' = map settings m'.tiers ≡ map settings m.tiers

module _ {F S T C : Type 0} ⦃f : Float F⦄ ⦃b : L2CacheBackend S⦄ where
  count_outcome-Keeps :
      (r : CacheResult (Option Bytes)) (m : CacheManager F S T C) → Keeps m (count_outcome r m)
  unfolding count_outcome
  count_outcome-Keeps (ok none) m = refl
  count_outcome-Keeps (ok (some v)) m = ground arith
  count_outcome-Keeps (err e) m = refl

  first_tier-Keeps :
      (m : CacheManager F S T C) (key : Bytes) (tiers : List (CacheTier F S))
      → m.tiers ≡ tiers
      → Keeps m (first_tier m key tiers).1
  unfolding first_tier
  first_tier-Keeps m key [] e = refl
  first_tier-Keeps m key (t ∷ tiers) e = elim (Option-cases (get_with_ttl t key).0) [
    | inl miss ↦ rw (miss, first_tier, e) refl
    | inr (v, hit) ↦ rw (hit, first_tier, e) refl
  ]

  fast_path-Keeps : (m : CacheManager F S T C) (key : Bytes) → Keeps m (fast_path m key).1
  unfolding fast_path
  fast_path-Keeps m key = first_tier-Keeps m key m.tiers refl

  lower_tiers-Keeps :
      (m : CacheManager F S T C) (key : Bytes) (draw : ℕ → Bool)
      → Keeps m (lower_tiers m key draw).1
  unfolding lower_tiers
  lower_tiers-Keeps m key draw = count_outcome-Keeps _ _ ∙ (get_multi_tier_from_lem m key draw 1).1

  get_creator-Keeps :
      (m : CacheManager F S T C) (key : Bytes) (draw : ℕ → Bool)
      → Keeps m (get_creator m key draw).manager
  unfolding get_creator
  get_creator-Keeps m key draw = elim (Option-cases (fast_path m key).0) [
    | inl miss ↦
        rw (miss, get_creator)
          (lower_tiers-Keeps (fast_path m key).1 key draw ∙ fast_path-Keeps m key)
    | inr (v, hit) ↦ rw (hit, get_creator) (fast_path-Keeps m key)
  ]

  get_waiter-Keeps :
      (m : CacheManager F S T C) (key : Bytes) (draw : ℕ → Bool)
      (heard : Option (CacheResult (Option Bytes)))
      → Keeps m (get_waiter m key draw heard).1
  unfolding get_waiter
  get_waiter-Keeps m key draw none = lower_tiers-Keeps m key draw
  get_waiter-Keeps m key draw (some r) = refl

  get_coalesced-Keeps :
      (m : CacheManager F S T C) (key : Bytes) (draw : ℕ → Bool)
      (heard : Option (CacheResult (Option Bytes)))
      → Keeps m (get_coalesced m key draw heard).1
  unfolding get_coalesced
  get_coalesced-Keeps m key draw heard = elim (Bool-cases (contains_key m.in_flight_requests key)) [
    | inl busy ↦ rw (busy, get_coalesced) (get_waiter-Keeps m key draw heard)
    | inr alone ↦ rw (alone, get_coalesced) (get_creator-Keeps (insert_in_flight m key) key draw)
  ]

  pub get-Keeps :
      (m : CacheManager F S T C) (key : Bytes) (draw : ℕ → Bool)
      (heard : Option (CacheResult (Option Bytes)))
      → Keeps m (get m key draw heard).1
  unfolding get
  get-Keeps m key draw heard = elim (Option-cases (fast_path (count_request m) key).0) [
    | inl miss ↦
        rw (miss, get)
          (get_coalesced-Keeps (fast_path (count_request m) key).1 key draw heard
            ∙ fast_path-Keeps (count_request m) key)
    | inr (v, hit) ↦ rw (hit, get) (fast_path-Keeps (count_request m) key)
  ]

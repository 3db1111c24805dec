-- ===== src/Manager/Settings/Writes.antt =====
-- Writes, computations, removals and broadcasts keep the tiers and their settings.
use multi_tier_cache.Base.{
  ℕ, ◌+◌, ◌≡◌, refl, ap, ◌∙◌, Bool, Option, none, some, List, [], ◌∷◌, map, arith, Bytes,
  CacheResult, CacheError, ok, err, CacheResult-cases, Bool-cases, inl, inr,
}
use mathlib.Core.Option.{get_or}
use multi_tier_cache.Time.{Duration, Float}
use multi_tier_cache.Traits.{L2CacheBackend}
use multi_tier_cache.Invalidation.Message.{
  InvalidationMessage, SerdeJson, new_update, remove_pattern,
}
use multi_tier_cache.Invalidation.Message
use multi_tier_cache.Invalidation.Publisher.{RedisConn}
use multi_tier_cache.Manager.Tier.{CacheTier, CacheStrategy, to_duration, default, set_with_ttl}
use multi_tier_cache.Manager.{CacheManager}
use multi_tier_cache.Manager.Fetch.{get_multi_tier}
use multi_tier_cache.Manager.Fetch.Hit.{settings, get_multi_tier_from_lem}
use multi_tier_cache.Manager.Get.{contains_key, count_request, insert_in_flight}
use multi_tier_cache.Manager.Set.{set_tiers, set_with_strategy}
use multi_tier_cache.Manager.Compute.{
  Session, store, compute_and_store, compute_creator, compute_waiter, compute_coalesced,
  get_or_compute_with,
}
use multi_tier_cache.Manager.Invalidate.{
  remove_tiers, remove_pattern_tiers, update_tiers, send, broadcast, invalidate, invalidate_pattern,
  update_cache, set_with_broadcast,
}
use multi_tier_cache.Manager.Settings.{Keeps}

module _ {F S : Type 0} ⦃f : Float F⦄ ⦃b : L2CacheBackend S⦄ where
  settings-set_tiers :
      (key value : Bytes) (ttl : Duration) (n : ℕ) (last : Option CacheError)
      (tiers : List (CacheTier F S))
      → map settings (set_tiers key value ttl n last tiers).tiers ≡ map settings tiers
  unfolding set_tiers
  settings-set_tiers key value ttl n last [] = refl
  settings-set_tiers key value ttl n last (t ∷ tiers) =
      elim (CacheResult-cases (set_with_ttl t key value ttl).0) [
        | inl (u, good) ↦
            rw (good, set_tiers)
              (ap (◌∷◌ (settings t)) (settings-set_tiers key value ttl (n + 1) last tiers))
        | inr (e, bad) ↦
            rw (bad, set_tiers)
              (ap (◌∷◌ (settings t)) (settings-set_tiers key value ttl n (some e) tiers))
      ]

  settings-update_tiers :
      (key value : Bytes) (ttl : Duration) (tiers : List (CacheTier F S))
      → map settings (update_tiers key value ttl tiers) ≡ map settings tiers
  unfolding update_tiers
  settings-update_tiers key value ttl [] = refl
  settings-update_tiers key value ttl (t ∷ tiers) =
      ap (◌∷◌ (settings t)) (settings-update_tiers key value ttl tiers)

module _ {F S : Type 0} ⦃b : L2CacheBackend S⦄ where
  settings-remove_tiers :
      (key : Bytes) (tiers : List (CacheTier F S))
      → map settings (remove_tiers key tiers) ≡ map settings tiers
  unfolding remove_tiers
  settings-remove_tiers key [] = refl
  settings-remove_tiers key (t ∷ tiers) = ap (◌∷◌ (settings t)) (settings-remove_tiers key tiers)

  settings-remove_pattern_tiers :
      (pattern : Bytes) (tiers : List (CacheTier F S))
      → map settings (remove_pattern_tiers pattern tiers).1 ≡ map settings tiers
  unfolding remove_pattern_tiers
  settings-remove_pattern_tiers pattern [] = refl
  settings-remove_pattern_tiers pattern (t ∷ tiers) =
      elim (CacheResult-cases (b.remove_pattern t.backend pattern).0) [
        | inl (u, good) ↦
            rw (good, remove_pattern_tiers)
              (ap (◌∷◌ (settings t)) (settings-remove_pattern_tiers pattern tiers))
        | inr (e, bad) ↦ rw (bad, remove_pattern_tiers) refl
      ]

module _ {F S T C : Type 0} ⦃redis : RedisConn C⦄ ⦃json : SerdeJson⦄ (now : ℕ) where
  -- A broadcast touches the publisher and the statistics alone.
  pub broadcast-keeps :
      (m : CacheManager F S T C) (msg : InvalidationMessage)
      → ((broadcast now m msg).1.tiers ≡ m.tiers)
        × ((broadcast now m msg).1.in_flight_requests ≡ m.in_flight_requests)
  unfolding broadcast
  broadcast-keeps m msg = ground arith

  pub send-keeps :
      (m : CacheManager F S T C) (msg : InvalidationMessage) → (send now m msg).1.tiers ≡ m.tiers
  unfolding send
  send-keeps m msg = ground arith

  module _ ⦃b : L2CacheBackend S⦄ where
    pub invalidate-Keeps :
        (m : CacheManager F S T C) (key : Bytes) → Keeps m (invalidate now m key).1
    unfolding invalidate
    invalidate-Keeps m key =
        ap (map settings)
          (broadcast-keeps (record m { tiers = remove_tiers key m.tiers }) (Message.remove key)).0
        ∙ settings-remove_tiers key m.tiers

    pub invalidate_pattern-Keeps :
        (m : CacheManager F S T C) (pattern : Bytes) → Keeps m (invalidate_pattern now m pattern).1
    unfolding invalidate_pattern
    invalidate_pattern-Keeps m pattern =
        elim (CacheResult-cases (remove_pattern_tiers pattern m.tiers).0) [
          | inl (u, good) ↦
              rw (good, invalidate_pattern)
                (ap (map settings) (
                    send-keeps (record m { tiers = (remove_pattern_tiers pattern m.tiers).1 })
                      (remove_pattern pattern))
                  ∙ settings-remove_pattern_tiers pattern m.tiers)
          | inr (e, bad) ↦
              rw (bad, invalidate_pattern) (settings-remove_pattern_tiers pattern m.tiers)
        ]

  module _ ⦃f : Float F⦄ ⦃b : L2CacheBackend S⦄ where
    pub update_cache-Keeps :
        (m : CacheManager F S T C) (key value : Bytes) (ttl : Option Duration)
        → Keeps m (update_cache now m key value ttl).1
    unfolding update_cache
    update_cache-Keeps m key value ttl =
        let ttl' = get_or ttl (to_duration default) in
        ap (map settings)
          (broadcast-keeps (record m { tiers = update_tiers key value ttl' m.tiers })
            (new_update key value (some ttl'))).0
        ∙ settings-update_tiers key value ttl' m.tiers

module _ {F S T C : Type 0} ⦃f : Float F⦄ ⦃b : L2CacheBackend S⦄ where
  pub set_with_strategy-Keeps :
      (m : CacheManager F S T C) (key value : Bytes) (strategy : CacheStrategy)
      → Keeps m (set_with_strategy m key value strategy).1
  unfolding set_with_strategy
  set_with_strategy-Keeps m key value strategy =
      settings-set_tiers key value (to_duration strategy) 0 none m.tiers

  pub set_with_broadcast-Keeps :
      ⦃redis : RedisConn C⦄ ⦃json : SerdeJson⦄ (now : ℕ) (m : CacheManager F S T C)
      (key value : Bytes) (strategy : CacheStrategy)
      → Keeps m (set_with_broadcast now m key value strategy).1
  unfolding set_with_broadcast
  set_with_broadcast-Keeps now m key value strategy =
      let r = set_with_strategy m key value strategy in
      let kept = set_with_strategy-Keeps m key value strategy in
      elim (CacheResult-cases r.0) [
        | inl (u, good) ↦
            rw (good, set_with_broadcast)
              (ap (map settings)
                  (broadcast-keeps now r.1 (new_update key value (some (to_duration strategy)))).0
                ∙ kept)
        | inr (e, bad) ↦ rw (bad, set_with_broadcast) kept
      ]

  store-Keeps :
      (m : CacheManager F S T C) (key : Bytes) (strategy : CacheStrategy) (r : CacheResult Bytes)
      → Keeps m (store m key strategy r)
  store-Keeps m key strategy (ok value) = set_with_strategy-Keeps m key value strategy
  store-Keeps m key strategy (err e) = refl

module _ {F S T C W : Type 0} ⦃f : Float F⦄ ⦃b : L2CacheBackend S⦄
    (compute : W → CacheResult Bytes × W) (key : Bytes) (strategy : CacheStrategy) where
  compute_and_store-Keeps :
      (s : Session F S T C W) → Keeps s.manager (compute_and_store compute s key strategy).1.manager
  unfolding compute_and_store
  compute_and_store-Keeps s = store-Keeps s.manager key strategy (compute s.world).0

  compute_creator-Keeps :
      (s : Session F S T C W) (draw : ℕ → Bool)
      → Keeps s.manager (compute_creator compute s key strategy draw).manager.manager
  unfolding compute_creator
  compute_creator-Keeps s draw = ground (
    arith,
    compute_and_store-Keeps (record s { manager = (get_multi_tier s.manager key draw).1 }),
    get_multi_tier_from_lem s.manager key draw 0,
  )

  compute_waiter-Keeps :
      (s : Session F S T C W) (heard : Option (CacheResult (Option Bytes)))
      → Keeps s.manager (compute_waiter compute s key strategy heard).1.manager
  unfolding compute_waiter
  compute_waiter-Keeps s none = compute_and_store-Keeps s
  compute_waiter-Keeps s (some (ok none)) = compute_and_store-Keeps s
  compute_waiter-Keeps s (some (ok (some value))) = refl
  compute_waiter-Keeps s (some (err e)) = refl

  compute_coalesced-Keeps :
      (s : Session F S T C W) (draw : ℕ → Bool) (heard : Option (CacheResult (Option Bytes)))
      → Keeps s.manager (compute_coalesced compute s key strategy draw heard).1.manager
  unfolding compute_coalesced
  compute_coalesced-Keeps s draw heard =
      elim (Bool-cases (contains_key s.manager.in_flight_requests key)) [
        | inl busy ↦ rw (busy, compute_coalesced) (compute_waiter-Keeps s heard)
        | inr alone ↦
            rw (alone, compute_coalesced)
              (compute_creator-Keeps (record s { manager = insert_in_flight s.manager key }) draw)
      ]

  pub get_or_compute_with-Keeps :
      (s : Session F S T C W) (draw : ℕ → Bool) (heard : Option (CacheResult (Option Bytes)))
      → Keeps s.manager (get_or_compute_with compute s key strategy draw heard).1.manager
  unfolding get_or_compute_with
  get_or_compute_with-Keeps s draw heard = ground (
    arith,
    compute_coalesced-Keeps
        (record s { manager = (get_multi_tier (count_request s.manager) key draw).1 }) draw heard,
    get_multi_tier_from_lem (count_request s.manager) key draw 0,
  )

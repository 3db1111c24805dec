-- ===== src/Manager/Invariant/Writes.antt =====
-- The counters and the keys in flight after a write, a computation or a broadcast.
use multi_tier_cache.Base.{
  ℕ, refl, Bool, Option, none, some, Bytes, CacheResult, ok, err, Option-cases, Bool-cases,
  CacheResult-cases, inl, inr,
}
use mathlib.Core.Option.{get_or}
use multi_tier_cache.Time.{Duration, Float}
use multi_tier_cache.Traits.{L2CacheBackend}
use multi_tier_cache.Invalidation.Message.{InvalidationMessage, SerdeJson, new_update}
use multi_tier_cache.Invalidation.Publisher.{RedisConn}
use multi_tier_cache.Manager.Tier.{CacheStrategy, to_duration, default}
use multi_tier_cache.Manager.{CacheManager}
use multi_tier_cache.Manager.Fetch.{get_multi_tier}
use multi_tier_cache.Manager.Get.{contains_key, count_request, insert_in_flight}
use multi_tier_cache.Manager.Set.{set_with_strategy}
use multi_tier_cache.Manager.Compute.{
  Session, store, compute_and_store, compute_creator, compute_waiter, compute_coalesced,
  get_or_compute_with,
}
use multi_tier_cache.Manager.Invalidate.{
  remove_tiers, remove_pattern_tiers, update_tiers, send, broadcast, invalidate, invalidate_pattern,
  update_cache, set_with_broadcast,
}
use multi_tier_cache.Manager.Invariant.{Calm, Calm-trans}
use multi_tier_cache.Manager.Invariant.Reads.{
  get_multi_tier_from-Calm, drop_guard-Calm, count_request-Calm,
}

module _ {F S T C : Type 0} ⦃f : Float F⦄ ⦃b : L2CacheBackend S⦄ where
  pub set_with_strategy-Calm :
      (m : CacheManager F S T C) (key value : Bytes) (strategy : CacheStrategy)
      → Calm m (set_with_strategy m key value strategy).1
  unfolding set_with_strategy
  set_with_strategy-Calm m key value strategy = (refl, λ h. h)

  store-Calm :
      (m : CacheManager F S T C) (key : Bytes) (strategy : CacheStrategy) (r : CacheResult Bytes)
      → Calm m (store m key strategy r)
  store-Calm m key strategy (ok value) = set_with_strategy-Calm m key value strategy
  store-Calm m key strategy (err e) = (refl, λ h. h)

module _ {F S T C W : Type 0} ⦃f : Float F⦄ ⦃b : L2CacheBackend S⦄
    (compute : W → CacheResult Bytes × W) (key : Bytes) (strategy : CacheStrategy) where
  compute_and_store-Calm :
      (s : Session F S T C W) → Calm s.manager (compute_and_store compute s key strategy).1.manager
  unfolding compute_and_store
  compute_and_store-Calm s = store-Calm s.manager key strategy (compute s.world).0

  compute_creator-Calm :
      (s : Session F S T C W) (draw : ℕ → Bool)
      → Calm s.manager (compute_creator compute s key strategy draw).manager.manager
  unfolding compute_creator
  compute_creator-Calm s draw =
      let again = get_multi_tier s.manager key draw in
      let missed = record s { manager = again.1 } in
      let first = get_multi_tier_from-Calm s.manager key draw 0 in
      elim (CacheResult-cases again.0) [
        | inr (e, failed) ↦ rw (failed, compute_creator) first
        | inl (found, good) ↦ elim (Option-cases found) [
          | inr (value, hit) ↦ rw (good, compute_creator) (rw hit first)
          | inl miss ↦
              rw (good, compute_creator)
                (rw miss (
                  Calm-trans s.manager again.1
                    (compute_and_store compute missed key strategy).1.manager first
                    (compute_and_store-Calm missed)))
        ]
      ]

  compute_waiter-Calm :
      (s : Session F S T C W) (heard : Option (CacheResult (Option Bytes)))
      → Calm s.manager (compute_waiter compute s key strategy heard).1.manager
  unfolding compute_waiter
  compute_waiter-Calm s none = compute_and_store-Calm s
  compute_waiter-Calm s (some (ok none)) = compute_and_store-Calm s
  compute_waiter-Calm s (some (ok (some value))) = (refl, λ h. h)
  compute_waiter-Calm s (some (err e)) = (refl, λ h. h)

  compute_coalesced-Calm :
      (s : Session F S T C W) (draw : ℕ → Bool) (heard : Option (CacheResult (Option Bytes)))
      → Calm s.manager (compute_coalesced compute s key strategy draw heard).1.manager
  unfolding compute_coalesced
  compute_coalesced-Calm s draw heard =
      let mine = record s { manager = insert_in_flight s.manager key } in
      elim (Bool-cases (contains_key s.manager.in_flight_requests key)) [
        | inl busy ↦ rw (busy, compute_coalesced) (compute_waiter-Calm s heard)
        | inr alone ↦
            rw (alone, compute_coalesced)
              (drop_guard-Calm s.manager
                (compute_creator compute mine key strategy draw).manager.manager key alone
                (compute_creator-Calm mine draw))
      ]

  pub get_or_compute_with-Calm :
      (s : Session F S T C W) (draw : ℕ → Bool) (heard : Option (CacheResult (Option Bytes)))
      → Calm s.manager (get_or_compute_with compute s key strategy draw heard).1.manager
  unfolding get_or_compute_with
  get_or_compute_with-Calm s draw heard =
      let m = count_request s.manager in
      let read = get_multi_tier m key draw in
      let s' = record s { manager = read.1 } in
      let first =
        Calm-trans s.manager m read.1 (count_request-Calm s.manager)
          (get_multi_tier_from-Calm m key draw 0) in
      elim (CacheResult-cases read.0) [
        | inr (e, failed) ↦ rw (failed, get_or_compute_with) first
        | inl (found, good) ↦ elim (Option-cases found) [
          | inr (value, hit) ↦ rw (good, get_or_compute_with) (rw hit first)
          | inl miss ↦
              rw (good, get_or_compute_with)
                (rw miss (
                  Calm-trans s.manager read.1
                    (compute_coalesced compute s' key strategy draw heard).1.manager first
                    (compute_coalesced-Calm s' draw heard)))
        ]
      ]

module _ {F S T C : Type 0} ⦃redis : RedisConn C⦄ ⦃json : SerdeJson⦄ (now : ℕ) where
  send-Calm : (m : CacheManager F S T C) (msg : InvalidationMessage) → Calm m (send now m msg).1
  unfolding send
  send-Calm m msg = elim (Option-cases m.invalidation_publisher) [
    | inl alone ↦ rw (alone, send) (refl, λ h. h)
    | inr (p, there) ↦ rw (there, send) (refl, λ h. h)
  ]

  broadcast-Calm :
      (m : CacheManager F S T C) (msg : InvalidationMessage) → Calm m (broadcast now m msg).1
  unfolding broadcast
  broadcast-Calm m msg = elim (Option-cases m.invalidation_publisher) [
    | inl alone ↦ rw (alone, broadcast) (refl, λ h. h)
    | inr (p, there) ↦ rw (there, broadcast) (refl, λ h. h)
  ]

  module _ ⦃b : L2CacheBackend S⦄ where
    pub invalidate-Calm : (m : CacheManager F S T C) (key : Bytes) → Calm m (invalidate now m key).1
    unfolding invalidate
    invalidate-Calm m key = broadcast-Calm (record m { tiers = remove_tiers key m.tiers }) _

    pub invalidate_pattern-Calm :
        (m : CacheManager F S T C) (pattern : Bytes) → Calm m (invalidate_pattern now m pattern).1
    unfolding invalidate_pattern
    invalidate_pattern-Calm m pattern =
        let r = remove_pattern_tiers pattern m.tiers in
        elim (CacheResult-cases r.0) [
          | inl (u, good) ↦ rw (good, invalidate_pattern) (send-Calm (record m { tiers = r.1 }) _)
          | inr (e, bad) ↦ rw (bad, invalidate_pattern) (refl, λ h. h)
        ]

    module _ ⦃f : Float F⦄ where
      pub update_cache-Calm :
          (m : CacheManager F S T C) (key value : Bytes) (ttl : Option Duration)
          → Calm m (update_cache now m key value ttl).1
      unfolding update_cache
      update_cache-Calm m key value ttl =
          broadcast-Calm
            (record m { tiers = update_tiers key value (get_or ttl (to_duration default)) m.tiers })
            _

      pub set_with_broadcast-Calm :
          (m : CacheManager F S T C) (key value : Bytes) (strategy : CacheStrategy)
          → Calm m (set_with_broadcast now m key value strategy).1
      unfolding set_with_broadcast
      set_with_broadcast-Calm m key value strategy =
          let r = set_with_strategy m key value strategy in
          let msg = new_update key value (some (to_duration strategy)) in
          let first = set_with_strategy-Calm m key value strategy in
          elim (CacheResult-cases r.0) [
            | inl (u, good) ↦
                rw (good, set_with_broadcast)
                  (Calm-trans m r.1 (broadcast now r.1 msg).1 first (broadcast-Calm r.1 msg))
            | inr (e, bad) ↦ rw (bad, set_with_broadcast) first
          ]

-- ===== src/Manager/Freshness/Writes.antt =====
-- src/cache_manager.rs: computations, updates and removals keep a property as in Manager.Freshness.
use multi_tier_cache.Base.{
  ℕ, ◌≡◌, refl, sym, ap, ◌∙◌, subst, Bool, Option, some, Option-cases, List, [], ◌∷◌, All, Bytes,
  CacheResult, CacheResult-cases, ok, err, inl, inr, arith,
}
use mathlib.Core.Option.{get_or}
use multi_tier_cache.Time.{Duration, Float}
use multi_tier_cache.Traits.{L2CacheBackend}
use multi_tier_cache.Invalidation.Message.{SerdeJson, new_update, remove_pattern}
use multi_tier_cache.Invalidation.Message
use multi_tier_cache.Invalidation.Publisher.{RedisConn}
use multi_tier_cache.Manager.Tier.{CacheTier, CacheStrategy, to_duration, default}
use multi_tier_cache.Manager.{CacheManager}
use multi_tier_cache.Manager.Fetch.{get_multi_tier}
use multi_tier_cache.Manager.Get.{count_request, insert_in_flight}
use multi_tier_cache.Manager.Compute.{
  Session, store, sent_of, compute_and_store, compute_creator, compute_coalesced,
  get_or_compute_with,
}
use multi_tier_cache.Manager.Invalidate.{
  remove_tiers, update_tiers, remove_pattern_tiers, invalidate, update_cache, invalidate_pattern,
  set_with_broadcast,
}
use multi_tier_cache.Manager.Set.{set_with_strategy}
use multi_tier_cache.Manager.Settings.Writes.{broadcast-keeps, send-keeps}
use multi_tier_cache.Manager.Invariant.Reads.{get_multi_tier_from-Calm}
use multi_tier_cache.Manager.Abstract.Agreement.{alone}
use multi_tier_cache.Manager.Freshness.{Ages, Holds, FoundOk, write-Holds, set_with_strategy-Holds}
use multi_tier_cache.Manager.Freshness.Reads.{get_multi_tier_from-Kept}

-- What the closure gives may be written for the time of the strategy.
abbrev pub Permitted :
    {W : Type 0}
    → (Bytes → Bytes → Duration → Type 0)
    → (W → CacheResult Bytes × W)
    → Bytes
    → CacheStrategy
    → W
    → Type 0
Permitted Q compute key strategy w =
    (value : Bytes) → (compute w).0 ≡ ok value → Q key value (to_duration strategy)

sent_ok : (r : CacheResult Bytes) (value : Bytes) → sent_of r ≡ ok (some value) → r ≡ ok value
sent_ok r value e = ground arith

module _ {F S : Type 0} ⦃f : Float F⦄ ⦃b : L2CacheBackend S⦄ {P : S → Type 0}
    {Q : Bytes → Bytes → Duration → Type 0} (ages : Ages b P Q) where
  remove_tiers-Holds :
      (key : Bytes) (tiers : List (CacheTier F S))
      → All (Holds P) tiers
      → All (Holds P) (remove_tiers key tiers)
  unfolding remove_tiers
  remove_tiers-Holds key [] h = tt
  remove_tiers-Holds key (t ∷ tiers) h =
      ((ages.removes t.backend key h.0.0, h.0.1), remove_tiers-Holds key tiers h.1)

  remove_pattern_tiers-Holds :
      (pattern : Bytes) (tiers : List (CacheTier F S))
      → All (Holds P) tiers
      → All (Holds P) (remove_pattern_tiers pattern tiers).1
  unfolding remove_pattern_tiers
  remove_pattern_tiers-Holds pattern [] h = tt
  remove_pattern_tiers-Holds pattern (t ∷ tiers) h =
      elim (CacheResult-cases (b.remove_pattern t.backend pattern).0) [
        | inl (u, good) ↦
            rw (good, remove_pattern_tiers)
              (
                (ages.clears t.backend pattern h.0.0, h.0.1),
                remove_pattern_tiers-Holds pattern tiers h.1,
              )
        | inr (e, bad) ↦
            rw (bad, remove_pattern_tiers) ((ages.clears t.backend pattern h.0.0, h.0.1), h.1)
      ]

  update_tiers-Holds :
      (key value : Bytes) (ttl : Duration) (tiers : List (CacheTier F S))
      → Q key value ttl
      → All (Holds P) tiers
      → All (Holds P) (update_tiers key value ttl tiers)
  unfolding update_tiers
  update_tiers-Holds key value ttl [] q h = tt
  update_tiers-Holds key value ttl (t ∷ tiers) q h =
      (write-Holds ages t key value ttl q h.0, update_tiers-Holds key value ttl tiers q h.1)

  module _ {T C : Type 0} ⦃redis : RedisConn C⦄ ⦃json : SerdeJson⦄ (now : ℕ)
      (m : CacheManager F S T C) (h : All (Holds P) m.tiers) where
    pub invalidate-Holds : (key : Bytes) → All (Holds P) (invalidate now m key).1.tiers
    unfolding invalidate
    invalidate-Holds key =
        let sent =
          broadcast-keeps now (record m { tiers = remove_tiers key m.tiers })
            (Message.remove key) in
        subst (All (Holds P)) (sym sent.0) (remove_tiers-Holds key m.tiers h)

    pub invalidate_pattern-Holds :
        (pattern : Bytes) → All (Holds P) (invalidate_pattern now m pattern).1.tiers
    unfolding invalidate_pattern
    invalidate_pattern-Holds pattern =
        let r = remove_pattern_tiers pattern m.tiers in
        let kept = remove_pattern_tiers-Holds pattern m.tiers h in
        elim (CacheResult-cases r.0) [
          | inl (u, good) ↦
              rw (good, invalidate_pattern)
                (subst (All (Holds P))
                  (sym (send-keeps now (record m { tiers = r.1 }) (remove_pattern pattern))) kept)
          | inr (e, bad) ↦ rw (bad, invalidate_pattern) kept
        ]

    pub set_with_broadcast-Holds :
        (key value : Bytes) (strategy : CacheStrategy)
        → Q key value (to_duration strategy)
        → All (Holds P) (set_with_broadcast now m key value strategy).1.tiers
    unfolding set_with_broadcast
    set_with_broadcast-Holds key value strategy q =
        let r = set_with_strategy m key value strategy in
        let kept = set_with_strategy-Holds ages m key value strategy q h in
        let msg = new_update key value (some (to_duration strategy)) in
        elim (CacheResult-cases r.0) [
          | inl (u, good) ↦
              rw (good, set_with_broadcast)
                (subst (All (Holds P)) (sym (broadcast-keeps now r.1 msg).0) kept)
          | inr (e, bad) ↦ rw (bad, set_with_broadcast) kept
        ]

    pub update_cache-Holds :
        (key value : Bytes) (ttl : Option Duration)
        → Q key value (get_or ttl (to_duration default))
        → All (Holds P) (update_cache now m key value ttl).1.tiers
    unfolding update_cache
    update_cache-Holds key value ttl q =
        let ttl' = get_or ttl (to_duration default) in
        let sent =
          broadcast-keeps now (record m { tiers = update_tiers key value ttl' m.tiers })
            (new_update key value (some ttl')) in
        subst (All (Holds P)) (sym sent.0) (update_tiers-Holds key value ttl' m.tiers q h)

  module _ {T C W : Type 0} (compute : W → CacheResult Bytes × W) (key : Bytes)
      (strategy : CacheStrategy) where
    abbrev Computed : CacheResult Bytes × Session F S T C W → Type 0
    Computed r = FoundOk Q key (sent_of r.0) × All (Holds P) r.1.manager.tiers

    store-Holds :
        (m : CacheManager F S T C) (r : CacheResult Bytes)
        → ((value : Bytes) → r ≡ ok value → Q key value (to_duration strategy))
        → All (Holds P) m.tiers
        → All (Holds P) (store m key strategy r).tiers
    store-Holds m (ok value) q h =
        set_with_strategy-Holds ages m key value strategy (q value refl) h
    store-Holds m (err e) q h = h

    compute_and_store-Computed :
        (s : Session F S T C W)
        → Permitted Q compute key strategy s.world
        → All (Holds P) s.manager.tiers
        → Computed (compute_and_store compute s key strategy)
    unfolding compute_and_store
    compute_and_store-Computed s q h = (
      λ value e. (to_duration strategy, q value (sent_ok (compute s.world).0 value e)),
      store-Holds s.manager (compute s.world).0 q h,
    )

    compute_creator-Computed :
        (s : Session F S T C W) (draw : ℕ → Bool)
        → Permitted Q compute key strategy s.world
        → All (Holds P) s.manager.tiers
        → let c = compute_creator compute s key strategy draw in Computed (c.result, c.manager)
    unfolding compute_creator
    compute_creator-Computed s draw q h =
        let again = get_multi_tier s.manager key draw in
        let kept = get_multi_tier_from-Kept ages s.manager key draw 0 h in
        elim (CacheResult-cases again.0) [
          | inr (e, failed) ↦ rw (failed, compute_creator) (λ v d. absurd (ground arith), kept.1)
          | inl (found, good) ↦ elim (Option-cases found) [
            | inr (value, hit) ↦
                rw (good, compute_creator) (rw hit (λ v e. kept.0 v (good ∙ ap ok hit ∙ e), kept.1))
            | inl miss ↦
                rw (good, compute_creator)
                  (rw miss (compute_and_store-Computed (record s { manager = again.1 }) q kept.1))
          ]
        ]

    compute_coalesced-Computed :
        (s : Session F S T C W) (draw : ℕ → Bool) (heard : Option (CacheResult (Option Bytes)))
        → s.manager.in_flight_requests ≡ []
        → Permitted Q compute key strategy s.world
        → All (Holds P) s.manager.tiers
        → Computed (compute_coalesced compute s key strategy draw heard)
    unfolding compute_coalesced
    compute_coalesced-Computed s draw heard quiet q h =
        rw (alone key quiet, compute_coalesced)
          (compute_creator-Computed (record s { manager = insert_in_flight s.manager key }) draw q
            h)

    pub get_or_compute_with-Computed :
        (s : Session F S T C W) (draw : ℕ → Bool) (heard : Option (CacheResult (Option Bytes)))
        → s.manager.in_flight_requests ≡ []
        → Permitted Q compute key strategy s.world
        → All (Holds P) s.manager.tiers
        → Computed (get_or_compute_with compute s key strategy draw heard)
    unfolding get_or_compute_with
    get_or_compute_with-Computed s draw heard quiet q h =
        let m = count_request s.manager in
        let first = get_multi_tier m key draw in
        let kept = get_multi_tier_from-Kept ages m key draw 0 h in
        let s' = record s { manager = first.1 } in
        elim (CacheResult-cases first.0) [
          | inr (e, failed) ↦
              rw (failed, get_or_compute_with) (λ v d. absurd (ground arith), kept.1)
          | inl (found, good) ↦ elim (Option-cases found) [
            | inr (value, hit) ↦
                rw (good, get_or_compute_with)
                  (rw hit (λ v e. kept.0 v (good ∙ ap ok hit ∙ e), kept.1))
            | inl miss ↦
                rw (good, get_or_compute_with)
                  (rw miss (
                    compute_coalesced-Computed s' draw heard
                      ((get_multi_tier_from-Calm m key draw 0).0 ∙ quiet) q kept.1))
          ]
        ]

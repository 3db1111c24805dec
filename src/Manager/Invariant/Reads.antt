-- ===== src/Manager/Invariant/Reads.antt =====
-- The counters and the keys in flight after a read.
use multi_tier_cache.Base.{
  ℕ, ◌<◌, ◌≡◌, refl, ap, ◌∙◌, Bool, false, Option, none, some, List, [], ◌∷◌, ◌++◌, arith, Bytes,
  CacheResult, ok, err, u64_add, Option-cases, Bool-cases, inl, inr, take, drop,
}
use mathlib.Core.Option.{get_or}
use multi_tier_cache.Time.{Duration, Float}
use multi_tier_cache.Traits.{L2CacheBackend}
use multi_tier_cache.Manager.Tier.{CacheTier, get_with_ttl, to_duration, default}
use multi_tier_cache.Manager.{Counters, CacheManager}
use multi_tier_cache.Manager.Fetch.{count_hit, promote, promotes, on_hit, scan, get_multi_tier_from}
use multi_tier_cache.Manager.Get.{
  contains_key, count_request, insert_in_flight, drop_guard, count_outcome, first_tier, fast_path,
  lower_tiers, get_creator, get_waiter, get_coalesced, get, remove_key,
}
use multi_tier_cache.Manager.Abstract.Get.{remove_key-cons}
use multi_tier_cache.Manager.Invariant.{width, IsBounded, Calm, Calm-trans}

u64_add-lt : (a b : ℕ) → u64_add a b < width
u64_add-lt a b = omega arith

count_hit-IsBounded : (level : ℕ) (c : Counters) → IsBounded c → IsBounded (count_hit level c)
unfolding count_hit
count_hit-IsBounded level c b = ground arith

module _ {F S : Type 0} ⦃f : Float F⦄ ⦃b : L2CacheBackend S⦄ where
  promote-lt :
      (key value : Bytes) (ttl : Duration) (n : ℕ) (upper : List (CacheTier F S))
      → n < width
      → (promote key value ttl n upper).0 < width
  unfolding promote
  promote-lt key value ttl n [] h = h
  promote-lt key value ttl n (t ∷ upper) h =
      ground
        (arith, promote-lt key value ttl n upper h, u64_add-lt (promote key value ttl n upper).0 1)

  on_hit-IsBounded :
      (key : Bytes) (draw : ℕ → Bool) (c : Counters) (upper : List (CacheTier F S))
      (t : CacheTier F S) (lower : List (CacheTier F S)) (value : Bytes) (ttl : Option Duration)
      → IsBounded c
      → IsBounded (on_hit key draw c upper t lower value ttl).0
  unfolding on_hit
  on_hit-IsBounded key draw c upper t lower value ttl h =
      let counted = count_hit t.tier_level c in
      let bounded = count_hit-IsBounded t.tier_level c h in
      let more =
        promote-lt key value (get_or ttl (to_duration default)) counted.promotions upper
          bounded.4 in
      elim (Bool-cases (promotes draw upper t)) [
        | inl taken ↦ rw (taken, on_hit) (bounded.0, bounded.1, bounded.2, bounded.3, more)
        | inr skipped ↦ rw (skipped, on_hit) bounded
      ]

  scan-IsBounded :
      (key : Bytes) (draw : ℕ → Bool) (c : Counters) (upper lower : List (CacheTier F S))
      → IsBounded c
      → IsBounded (scan key draw c upper lower).1
  unfolding scan
  scan-IsBounded key draw c upper [] h = h
  scan-IsBounded key draw c upper (t ∷ lower) h = elim (Option-cases (get_with_ttl t key).0) [
    | inl miss ↦
        rw (miss, scan) (scan-IsBounded key draw c (upper ++ (get_with_ttl t key).1 ∷ []) lower h)
    | inr ((value, ttl), hit) ↦
        rw (hit, scan) (on_hit-IsBounded key draw c upper (get_with_ttl t key).1 lower value ttl h)
  ]

  module _ {T C : Type 0} where
    pub get_multi_tier_from-Calm :
        (m : CacheManager F S T C) (key : Bytes) (draw : ℕ → Bool) (start : ℕ)
        → Calm m (get_multi_tier_from m key draw start).1
    unfolding get_multi_tier_from
    get_multi_tier_from-Calm m key draw start =
        (refl, λ h. scan-IsBounded key draw m.counters (take start m.tiers) (drop start m.tiers) h)

    count_outcome-Calm :
        (r : CacheResult (Option Bytes)) (m : CacheManager F S T C) → Calm m (count_outcome r m)
    unfolding count_outcome
    count_outcome-Calm (ok none) m = (refl, λ h. ground arith)
    count_outcome-Calm (ok (some v)) m = (ground arith, λ h. ground arith)
    count_outcome-Calm (err e) m = (refl, λ h. h)

    first_tier-Calm :
        (m : CacheManager F S T C) (key : Bytes) (tiers : List (CacheTier F S))
        → Calm m (first_tier m key tiers).1
    unfolding first_tier
    first_tier-Calm m key [] = (refl, λ h. h)
    first_tier-Calm m key (t ∷ tiers) = elim (Option-cases (get_with_ttl t key).0) [
      | inl miss ↦ rw (miss, first_tier) (refl, λ h. h)
      | inr (v, hit) ↦ rw (hit, first_tier) (refl, λ h. ground arith)
    ]

    pub fast_path-Calm : (m : CacheManager F S T C) (key : Bytes) → Calm m (fast_path m key).1
    unfolding fast_path
    fast_path-Calm m key = first_tier-Calm m key m.tiers

    lower_tiers-Calm :
        (m : CacheManager F S T C) (key : Bytes) (draw : ℕ → Bool)
        → Calm m (lower_tiers m key draw).1
    unfolding lower_tiers
    lower_tiers-Calm m key draw =
        let r = get_multi_tier_from m key draw 1 in
        Calm-trans m r.1 (count_outcome r.0 r.1) (get_multi_tier_from-Calm m key draw 1)
          (count_outcome-Calm r.0 r.1)

    get_creator-Calm :
        (m : CacheManager F S T C) (key : Bytes) (draw : ℕ → Bool)
        → Calm m (get_creator m key draw).manager
    unfolding get_creator
    get_creator-Calm m key draw =
        let again = fast_path m key in
        elim (Option-cases again.0) [
          | inl miss ↦
              rw (miss, get_creator)
                (Calm-trans m again.1 (lower_tiers again.1 key draw).1 (fast_path-Calm m key)
                  (lower_tiers-Calm again.1 key draw))
          | inr (v, hit) ↦ rw (hit, get_creator) (fast_path-Calm m key)
        ]

    get_waiter-Calm :
        (m : CacheManager F S T C) (key : Bytes) (draw : ℕ → Bool)
        (heard : Option (CacheResult (Option Bytes)))
        → Calm m (get_waiter m key draw heard).1
    unfolding get_waiter
    get_waiter-Calm m key draw none = lower_tiers-Calm m key draw
    get_waiter-Calm m key draw (some r) = (refl, λ h. h)

    -- The guard that is dropped at the end takes out the entry that was put in.
    pub drop_guard-Calm :
        (m m' : CacheManager F S T C) (key : Bytes)
        → contains_key m.in_flight_requests key ≡ false
        → Calm (insert_in_flight m key) m'
        → Calm m (drop_guard m' key)
    drop_guard-Calm m m' key alone p =
        (ap (λ keys. remove_key keys key) p.0 ∙ remove_key-cons m.in_flight_requests key alone, p.1)

    get_coalesced-Calm :
        (m : CacheManager F S T C) (key : Bytes) (draw : ℕ → Bool)
        (heard : Option (CacheResult (Option Bytes)))
        → Calm m (get_coalesced m key draw heard).1
    unfolding get_coalesced
    get_coalesced-Calm m key draw heard =
        elim (Bool-cases (contains_key m.in_flight_requests key)) [
          | inl busy ↦ rw (busy, get_coalesced) (get_waiter-Calm m key draw heard)
          | inr alone ↦
              rw (alone, get_coalesced)
                (drop_guard-Calm m (get_creator (insert_in_flight m key) key draw).manager key alone
                  (get_creator-Calm (insert_in_flight m key) key draw))
        ]

    pub count_request-Calm : (m : CacheManager F S T C) → Calm m (count_request m)
    count_request-Calm m = (refl, λ h. ground arith)

    pub get-Calm :
        (m : CacheManager F S T C) (key : Bytes) (draw : ℕ → Bool)
        (heard : Option (CacheResult (Option Bytes)))
        → Calm m (get m key draw heard).1
    unfolding get
    get-Calm m key draw heard =
        let m' = count_request m in
        let fast = fast_path m' key in
        let first = Calm-trans m m' fast.1 (count_request-Calm m) (fast_path-Calm m' key) in
        elim (Option-cases fast.0) [
          | inl miss ↦
              rw (miss, get)
                (Calm-trans m fast.1 (get_coalesced fast.1 key draw heard).1 first
                  (get_coalesced-Calm fast.1 key draw heard))
          | inr (v, hit) ↦ rw (hit, get) first
        ]

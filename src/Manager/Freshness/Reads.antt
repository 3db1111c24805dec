-- ===== src/Manager/Freshness/Reads.antt =====
-- src/cache_manager.rs, `get`: a lookup keeps a property as in Manager.Freshness, and returns what some
-- tier held.
use multi_tier_cache.Base.{
  All-take, All-drop, ℕ, ◌≡◌, refl, sym, ap, ◌∙◌, Bool, Option, none, some, Option-cases, List, [],
  ◌∷◌, take, drop, All, Bytes, CacheResult, ok, err, inl, inr, arith, false, subst,
}
use mathlib.Core.Option.{get_or}
use multi_tier_cache.Time.{Duration, Float}
use multi_tier_cache.Traits.{L2CacheBackend}
use multi_tier_cache.Manager.Tier.{CacheTier, to_duration, default, get_with_ttl}
use multi_tier_cache.Manager.{CacheManager}
use multi_tier_cache.Manager.Fetch.{get_multi_tier_from}
use multi_tier_cache.Manager.Get.{
  contains_key, count_request, insert_in_flight, count_outcome, first_tier, fast_path, lower_tiers,
  get_creator, get_coalesced, get,
}
use multi_tier_cache.Manager.Invariant.Reads.{fast_path-Calm}
use multi_tier_cache.Manager.Abstract.Agreement.{alone}
use multi_tier_cache.Manager.Freshness.{Ages, Holds, Found, FoundOk, read-Holds, scan-Holds}

-- The value of a result, if there is one.
abbrev or_none : CacheResult (Option Bytes) → Option Bytes
or_none (ok o) = o
or_none (err e) = none

module _ {F S : Type 0} ⦃f : Float F⦄ ⦃b : L2CacheBackend S⦄ {P : S → Type 0}
    {Q : Bytes → Bytes → Duration → Type 0} (ages : Ages b P Q) where
  module _ {T C : Type 0} where
    -- What a lookup of a key leaves: a result that was found, and tiers that have the property.
    abbrev Kept : Bytes → CacheResult (Option Bytes) × CacheManager F S T C → Type 0
    Kept key r = FoundOk Q key r.0 × All (Holds P) r.1.tiers

    pub get_multi_tier_from-Kept :
        (m : CacheManager F S T C) (key : Bytes) (draw : ℕ → Bool) (start : ℕ)
        → All (Holds P) m.tiers
        → Kept key (get_multi_tier_from m key draw start)
    unfolding get_multi_tier_from
    get_multi_tier_from-Kept m key draw start h =
        let r =
          scan-Holds ages key draw m.counters (take start m.tiers) (drop start m.tiers)
            (All-take (Holds P) start m.tiers h) (All-drop (Holds P) start m.tiers h) in
        (λ v e. r.0 v (ap (λ o. or_none o) e), r.1)

    first_tier-Kept :
        (m : CacheManager F S T C) (key : Bytes) (tiers : List (CacheTier F S))
        → All (Holds P) m.tiers
        → All (Holds P) tiers
        → Found Q key (first_tier m key tiers).0 × All (Holds P) (first_tier m key tiers).1.tiers
    unfolding first_tier
    first_tier-Kept m key [] hm h = (λ v e. absurd (ground arith), hm)
    first_tier-Kept m key (t ∷ tiers) hm h = elim (Option-cases (get_with_ttl t key).0) [
      | inl miss ↦
          rw (miss, first_tier) (λ v e. absurd (ground arith), (read-Holds ages t key h.0, h.1))
      | inr ((value, ttl), hit) ↦
          let q = ages.permits t.backend key value ttl h.0.0 hit in
          rw (hit, first_tier)
            (
              λ v e. (
                get_or ttl (to_duration default),
                subst (λ x. Q key x (get_or ttl (to_duration default))) (ap (λ o. get_or o value) e)
                    q,
              ),
              (read-Holds ages t key h.0, h.1),
            )
    ]

    fast_path-Kept :
        (m : CacheManager F S T C) (key : Bytes)
        → All (Holds P) m.tiers
        → Found Q key (fast_path m key).0 × All (Holds P) (fast_path m key).1.tiers
    unfolding fast_path
    fast_path-Kept m key h = first_tier-Kept m key m.tiers h h

    count_outcome-tiers :
        (r : CacheResult (Option Bytes)) (m : CacheManager F S T C)
        → (count_outcome r m).tiers ≡ m.tiers
    unfolding count_outcome
    count_outcome-tiers (ok none) m = refl
    count_outcome-tiers (ok (some v)) m = ground arith
    count_outcome-tiers (err e) m = refl

    lower_tiers-Kept :
        (m : CacheManager F S T C) (key : Bytes) (draw : ℕ → Bool)
        → All (Holds P) m.tiers
        → Kept key (lower_tiers m key draw)
    unfolding lower_tiers
    lower_tiers-Kept m key draw h =
        let r = get_multi_tier_from m key draw 1 in
        let k = get_multi_tier_from-Kept m key draw 1 h in
        (k.0, subst (λ l. All (Holds P) l) (sym (count_outcome-tiers r.0 r.1)) k.1)

    get_creator-Kept :
        (m : CacheManager F S T C) (key : Bytes) (draw : ℕ → Bool)
        → All (Holds P) m.tiers
        → let c = get_creator m key draw in Kept key (c.result, c.manager)
    unfolding get_creator
    get_creator-Kept m key draw h =
        let again = fast_path m key in
        let k = fast_path-Kept m key h in
        elim (Option-cases again.0) [
          | inl miss ↦ rw (miss, get_creator) (lower_tiers-Kept again.1 key draw k.1)
          | inr (v, hit) ↦ rw (hit, get_creator) (λ w e. k.0 w (hit ∙ ap or_none e), k.1)
        ]

    get_coalesced-Kept :
        (m : CacheManager F S T C) (key : Bytes) (draw : ℕ → Bool)
        (heard : Option (CacheResult (Option Bytes)))
        → contains_key m.in_flight_requests key ≡ false
        → All (Holds P) m.tiers
        → Kept key (get_coalesced m key draw heard)
    unfolding get_coalesced
    get_coalesced-Kept m key draw heard alone h =
        rw (alone, get_coalesced) (get_creator-Kept (insert_in_flight m key) key draw h)

    pub get-Kept :
        (m : CacheManager F S T C) (key : Bytes) (draw : ℕ → Bool)
        (heard : Option (CacheResult (Option Bytes)))
        → m.in_flight_requests ≡ []
        → All (Holds P) m.tiers
        → Kept key (get m key draw heard)
    unfolding get
    get-Kept m key draw heard quiet h =
        let m' = count_request m in
        let fast = fast_path m' key in
        let k = fast_path-Kept m' key h in
        elim (Option-cases fast.0) [
          | inl miss ↦
              rw (miss, get)
                (get_coalesced-Kept fast.1 key draw heard
                  (alone key ((fast_path-Calm m' key).0 ∙ quiet)) k.1)
          | inr (v, hit) ↦ rw (hit, get) (λ w e. k.0 w (hit ∙ ap or_none e), k.1)
        ]

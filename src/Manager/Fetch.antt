-- ===== src/Manager/Fetch.antt =====
-- src/cache_manager.rs: `get_multi_tier_from`, the walk down the tiers with promotion. The draw of
-- `gen_ratio(1, n)` is an argument, `draw n`; a walk draws once at most.
pub mod Hit
pub mod Expiry
use multi_tier_cache.Base.{
  ℕ, suc, ◌-◌, ◌^◌, Bool, true, false, ◌&&◌, not, Option, none, some, List, [], ◌∷◌, ◌++◌, Bytes,
  CacheResult, ok, err, ltb, leb, ◌==◌, if◌then◌else◌, u64_add, take, drop, is_ok, min,
}
use mathlib.Core.Option.{get_or}
use multi_tier_cache.Time.{Duration, Float}
use multi_tier_cache.Traits.{L2CacheBackend}
use multi_tier_cache.Manager.Tier.{
  CacheTier, get_with_ttl, set_with_ttl, record_hit, to_duration, default,
}
use multi_tier_cache.Manager.{Counters, CacheManager}

-- `u32::try_from(n).unwrap_or(u32::MAX)`
abbrev pub to_u32 : ℕ → ℕ
to_u32 n = if ltb n (2 ^ 32) then n else 2 ^ 32 - 1

abbrev pub should_promote : (ℕ → Bool) → ℕ → Bool
should_promote draw frequency = if leb frequency 1 then true else draw (to_u32 frequency)

unfoldable pub count_hit : ℕ → Counters → Counters
count_hit level c =
    if level == 1
    then record c { l1_hits = u64_add c.l1_hits 1 }
    else if level == 2
    then record c { l2_hits = u64_add c.l2_hits 1 }
    else c

abbrev pub is_empty {ℓ} : {A : Type ℓ} → List A → Bool
is_empty [] = true
is_empty (x ∷ xs) = false

module _ {F S : Type 0} ⦃f : Float F⦄ ⦃b : L2CacheBackend S⦄ where
  -- The loop over `tiers.iter().take(tier_index).rev()`: the tier nearest to the hit comes first.
  -- It counts the writes that succeed.
  unfoldable pub promote :
      Bytes → Bytes → Duration → ℕ → List (CacheTier F S) → ℕ × List (CacheTier F S)
  promote key value ttl n [] = (n, [])
  promote key value ttl n (t ∷ upper) =
      let below = promote key value ttl n upper in
      let r = set_with_ttl t key value ttl in
      (if is_ok r.0 then u64_add below.0 1 else below.0, r.1 ∷ below.1)

  -- Whether a hit in tier `t` is promoted.
  unfoldable pub promotes : (ℕ → Bool) → List (CacheTier F S) → CacheTier F S → Bool
  promotes draw upper t =
      t.promotion_enabled && not (is_empty upper) && should_promote draw t.promotion_frequency

  -- A hit in tier `t`, with the tiers above it in `upper` and those below it in `lower`.
  unfoldable pub on_hit :
      Bytes
      → (ℕ → Bool)
      → Counters
      → List (CacheTier F S)
      → CacheTier F S
      → List (CacheTier F S)
      → Bytes
      → Option Duration
      → Counters × List (CacheTier F S)
  unfolding promote promotes count_hit
  on_hit key draw c upper t lower value ttl =
      let counted = count_hit t.tier_level c in
      let promoted =
        promote key value (get_or ttl (to_duration default)) counted.promotions upper in
      if promotes draw upper t
      then (record counted { promotions = promoted.0 }, promoted.1 ++ record_hit t ∷ lower)
      else (counted, upper ++ record_hit t ∷ lower)

  -- The loop over the tiers that are left, with those already passed in `upper`.
  unfoldable pub scan :
      Bytes
      → (ℕ → Bool)
      → Counters
      → List (CacheTier F S)
      → List (CacheTier F S)
      → Option Bytes × Counters × List (CacheTier F S)
  unfolding on_hit
  scan key draw c upper [] = (none, c, upper)
  scan key draw c upper (t ∷ lower) =
      let r = get_with_ttl t key in
      let rest = scan key draw c (upper ++ r.1 ∷ []) lower in
      elim r.0 [
        | none ↦ rest
        | some (value, ttl) ↦
            let (c', tiers) = on_hit key draw c upper r.1 lower value ttl in (some value, c', tiers)
      ]

  module _ {T C : Type 0} where
    unfoldable pub get_multi_tier_from :
        CacheManager F S T C
        → Bytes
        → (ℕ → Bool)
        → ℕ
        → CacheResult (Option Bytes) × CacheManager F S T C
    unfolding scan
    get_multi_tier_from m key draw start =
        let r = scan key draw m.counters (take start m.tiers) (drop start m.tiers) in
        (ok r.0, record m { counters = r.1; tiers = r.2 })

    abbrev pub get_multi_tier :
        CacheManager F S T C
        → Bytes
        → (ℕ → Bool)
        → CacheResult (Option Bytes) × CacheManager F S T C
    get_multi_tier m key draw = get_multi_tier_from m key draw 0

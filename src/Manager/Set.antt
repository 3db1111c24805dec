-- ===== src/Manager/Set.antt =====
-- src/cache_manager.rs, `set_with_strategy`: a write to every tier. `success_count` is an `i32`,
-- which no number of tiers overflows.
pub mod Outcome
use multi_tier_cache.Base.{
  ℕ, ◌+◌, Option, none, some, List, [], ◌∷◌, Bytes, lit, CacheError, CacheResult, ok, err,
  internal_error, ltb, if◌then◌else◌,
}
use mathlib.Core.Option.{get_or}
use multi_tier_cache.Time.{Duration, Float}
use multi_tier_cache.Traits.{L2CacheBackend}
use multi_tier_cache.Manager.Tier.{CacheTier, CacheStrategy, to_duration, set_with_ttl}
use multi_tier_cache.Manager.{CacheManager}

-- The variables of the loop, and the tiers that it has written.
pub record Written (F S : Type 0) : Type 0 where
  pub success_count : ℕ
  pub last_error : Option CacheError
  pub tiers : List (CacheTier F S)

abbrev pub all_failed : CacheError
all_failed = internal_error (lit "All tiers failed" ∷ [])

module _ {F S : Type 0} ⦃f : Float F⦄ ⦃b : L2CacheBackend S⦄ where
  unfoldable pub set_tiers :
      Bytes → Bytes → Duration → ℕ → Option CacheError → List (CacheTier F S) → Written F S
  set_tiers key value ttl successes last [] = record {
    success_count = successes;
    last_error = last;
    tiers = [];
  }
  set_tiers key value ttl successes last (t ∷ tiers) =
      let r = set_with_ttl t key value ttl in
      let good = set_tiers key value ttl (successes + 1) last tiers in
      elim r.0 [
        | ok _ ↦ record good { tiers = r.1 ∷ good.tiers }
        | err e ↦
            let bad = set_tiers key value ttl successes (some e) tiers in
            record bad { tiers = r.1 ∷ bad.tiers }
      ]

  module _ {T C : Type 0} where
    unfoldable pub set_with_strategy :
        CacheManager F S T C
        → Bytes
        → Bytes
        → CacheStrategy
        → CacheResult (Unit {0}) × CacheManager F S T C
    unfolding set_tiers
    set_with_strategy m key value strategy =
        let w = set_tiers key value (to_duration strategy) 0 none m.tiers in
        (
          if ltb 0 w.success_count then ok tt else err (get_or w.last_error all_failed),
          record m { tiers = w.tiers },
        )

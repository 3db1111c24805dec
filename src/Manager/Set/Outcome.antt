-- ===== src/Manager/Set/Outcome.antt =====
-- src/cache_manager.rs, `set_with_strategy`, when some tiers refuse the write.
use multi_tier_cache.Base.{
  ℕ, ◌+◌, ◌≡◌, refl, Bool, true, false, Option, none, some, List, [], ◌∷◌, map, arith, Bytes,
  CacheError, CacheResult, ok, err, if◌then◌else◌, ltb, CacheResult-cases, inl, inr,
}
use mathlib.Core.Option.{get_or}
use multi_tier_cache.Time.{Duration, Float}
use multi_tier_cache.Traits.{L2CacheBackend}
use multi_tier_cache.Manager.Tier.{CacheTier, CacheStrategy, to_duration, set_with_ttl}
use multi_tier_cache.Manager.{CacheManager}
use multi_tier_cache.Manager.Set.{all_failed, set_tiers, set_with_strategy}

abbrev pub any_ok : List (CacheResult (Unit {0})) → Bool
any_ok [] = false
any_ok (ok _ ∷ rs) = true
any_ok (err e ∷ rs) = any_ok rs

abbrev pub last_error : Option CacheError → List (CacheResult (Unit {0})) → Option CacheError
last_error last [] = last
last_error last (ok _ ∷ rs) = last_error last rs
last_error last (err e ∷ rs) = last_error (some e) rs

-- What the answers of the tiers come to.
abbrev pub verdict : List (CacheResult (Unit {0})) → CacheResult (Unit {0})
verdict rs = if any_ok rs then ok tt else err (get_or (last_error none rs) all_failed)

module _ {F S : Type 0} ⦃f : Float F⦄ ⦃b : L2CacheBackend S⦄ where
  -- What each tier answers to the write, and what the write leaves of it.
  abbrev pub answers :
      Bytes → Bytes → Duration → List (CacheTier F S) → List (CacheResult (Unit {0}))
  answers key value ttl tiers = map (λ t. (set_with_ttl t key value ttl).0) tiers

  abbrev pub all_written : Bytes → Bytes → Duration → List (CacheTier F S) → List (CacheTier F S)
  all_written key value ttl tiers = map (λ t. (set_with_ttl t key value ttl).1) tiers

  set_tiers-tiers :
      (key value : Bytes) (ttl : Duration) (n : ℕ) (last : Option CacheError)
      (tiers : List (CacheTier F S))
      → (set_tiers key value ttl n last tiers).tiers ≡ all_written key value ttl tiers
  unfolding set_tiers
  set_tiers-tiers key value ttl n last [] = refl
  set_tiers-tiers key value ttl n last (t ∷ tiers) =
      elim (CacheResult-cases (set_with_ttl t key value ttl).0) [
        | inl (_, e) ↦
            rw (e, set_tiers) (rw (set_tiers-tiers key value ttl (n + 1) last tiers) refl)
        | inr (e', e) ↦
            rw (e, set_tiers) (rw (set_tiers-tiers key value ttl n (some e') tiers) refl)
      ]

  set_tiers-last :
      (key value : Bytes) (ttl : Duration) (n : ℕ) (last : Option CacheError)
      (tiers : List (CacheTier F S))
      → (set_tiers key value ttl n last tiers).last_error
        ≡ last_error last (answers key value ttl tiers)
  unfolding set_tiers
  set_tiers-last key value ttl n last [] = refl
  set_tiers-last key value ttl n last (t ∷ tiers) =
      elim (CacheResult-cases (set_with_ttl t key value ttl).0) [
        | inl (_, e) ↦
            rw (e, set_tiers, last_error) (set_tiers-last key value ttl (n + 1) last tiers)
        | inr (e', e) ↦
            rw (e, set_tiers, last_error) (set_tiers-last key value ttl n (some e') tiers)
      ]

  set_tiers-count :
      (key value : Bytes) (ttl : Duration) (n : ℕ) (last : Option CacheError)
      (tiers : List (CacheTier F S))
      → ltb 0 (set_tiers key value ttl n last tiers).success_count
        ≡ (if ltb 0 n then true else any_ok (answers key value ttl tiers))
  unfolding set_tiers
  set_tiers-count key value ttl n last [] = ground arith
  set_tiers-count key value ttl n last (t ∷ tiers) =
      elim (CacheResult-cases (set_with_ttl t key value ttl).0) [
        | inl (_, e) ↦
            rw (e, set_tiers, any_ok)
              (ground (arith, set_tiers-count key value ttl (n + 1) last tiers))
        | inr (e', e) ↦ rw (e, set_tiers, any_ok) (set_tiers-count key value ttl n (some e') tiers)
      ]

  -- A write asks every tier, whatever the tiers before it answered. It succeeds if one tier at
  -- least took it; otherwise it returns the error of the last tier, or an error of its own if the
  -- manager has no tier.
  pub set_with_strategy-verdict :
      {T C : Type 0} (m : CacheManager F S T C) (key value : Bytes) (strategy : CacheStrategy)
      → let r = set_with_strategy m key value strategy in
        (r.0 ≡ verdict (answers key value (to_duration strategy) m.tiers))
        × (r.1.tiers ≡ all_written key value (to_duration strategy) m.tiers)
  unfolding set_with_strategy
  set_with_strategy-verdict m key value strategy = (
    rw
        (
          set_tiers-count key value (to_duration strategy) 0 none m.tiers,
          set_tiers-last key value (to_duration strategy) 0 none m.tiers,
        )
        refl,
    set_tiers-tiers key value (to_duration strategy) 0 none m.tiers,
  )

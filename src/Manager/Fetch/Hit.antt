-- ===== src/Manager/Fetch/Hit.antt =====
-- Which value a walk down the tiers returns, and what it leaves as it was.
use multi_tier_cache.Base.{
  ℕ, ◌≡◌, refl, ap, ◌∙◌, Bool, Option, none, some, List, [], ◌∷◌, ◌++◌, map, arith, Bytes, ok, take,
  drop, take-append-drop, append_assoc, append-nil, Option-cases, Bool-cases, inl, inr,
}
use mathlib.Core.List.{map-append}
use multi_tier_cache.Time.{Duration, Float}
use multi_tier_cache.Traits.{L2CacheBackend}
use multi_tier_cache.Manager.Tier.{CacheTier, get_with_ttl}
use multi_tier_cache.Manager.{Counters, CacheManager}
use multi_tier_cache.Manager.Fetch.{promote, promotes, on_hit, scan, get_multi_tier_from}

-- The settings of a tier, which no operation changes.
abbrev pub settings : {F S : Type 0} → CacheTier F S → ℕ × Bool × ℕ × F
settings t = (t.tier_level, t.promotion_enabled, t.promotion_frequency, t.ttl_scale)

module _ {F S : Type 0} ⦃b : L2CacheBackend S⦄ where
  -- The value of the first tier that has the key, by its own answer to a read.
  abbrev pub first_hit : Bytes → List (CacheTier F S) → Option Bytes
  first_hit key [] = none
  first_hit key (t ∷ tiers) =
      let rest = first_hit key tiers in
      elim (get_with_ttl t key).0 [ none ↦ rest | some (value, ttl) ↦ some value ]

module _ {F S : Type 0} ⦃f : Float F⦄ ⦃b : L2CacheBackend S⦄ where
  pub scan-first_hit :
      (key : Bytes) (draw : ℕ → Bool) (c : Counters) (upper lower : List (CacheTier F S))
      → (scan key draw c upper lower).0 ≡ first_hit key lower
  unfolding scan
  scan-first_hit key draw c upper [] = refl
  scan-first_hit key draw c upper (t ∷ lower) =
      ground (arith, scan-first_hit key draw c (upper ++ (get_with_ttl t key).1 ∷ []) lower)

  settings-promote :
      (key value : Bytes) (ttl : Duration) (n : ℕ) (tiers : List (CacheTier F S))
      → map settings (promote key value ttl n tiers).1 ≡ map settings tiers
  unfolding promote
  settings-promote key value ttl n [] = refl
  settings-promote key value ttl n (t ∷ tiers) = rw (settings-promote key value ttl n tiers)

  settings-on_hit :
      (key : Bytes) (draw : ℕ → Bool) (c : Counters) (upper : List (CacheTier F S))
      (t : CacheTier F S) (lower : List (CacheTier F S)) (value : Bytes) (ttl : Option Duration)
      → map settings (on_hit key draw c upper t lower value ttl).1
        ≡ map settings (upper ++ t ∷ lower)
  unfolding on_hit
  settings-on_hit key draw c upper t lower value ttl = elim (Bool-cases (promotes draw upper t)) [
    | inl taken ↦ rw (taken, on_hit) (simp (map-append, settings-promote))
    | inr skipped ↦ rw (skipped, on_hit) (simp map-append)
  ]

  pub settings-scan :
      (key : Bytes) (draw : ℕ → Bool) (c : Counters) (upper lower : List (CacheTier F S))
      → map settings (scan key draw c upper lower).2 ≡ map settings (upper ++ lower)
  unfolding scan
  settings-scan key draw c upper [] = rw append-nil
  settings-scan key draw c upper (t ∷ lower) = elim (Option-cases (get_with_ttl t key).0) [
    | inl miss ↦
        rw (miss, scan)
          (simp (
            settings-scan key draw c (upper ++ (get_with_ttl t key).1 ∷ []) lower,
            append_assoc,
            map-append,
          ))
    | inr ((value, ttl), hit) ↦
        rw (hit, scan)
          (settings-on_hit key draw c upper (get_with_ttl t key).1 lower value ttl
            ∙ simp map-append)
  ]

  -- A query from the tier `start` on never fails. It returns the value of the first tier, from
  -- there on, that answers a read of the key with one, and nothing if none does; and it leaves the
  -- number of the tiers and the settings of each as they were.
  pub get_multi_tier_from_lem :
      {T C : Type 0} (m : CacheManager F S T C) (key : Bytes) (draw : ℕ → Bool) (start : ℕ)
      → let r = get_multi_tier_from m key draw start in
        (r.0 ≡ ok (first_hit key (drop start m.tiers)))
        × (map settings r.1.tiers ≡ map settings m.tiers)
  unfolding get_multi_tier_from
  get_multi_tier_from_lem m key draw start = (
    ap ok (scan-first_hit key draw m.counters (take start m.tiers) (drop start m.tiers)),
    settings-scan key draw m.counters (take start m.tiers) (drop start m.tiers)
        ∙ ap (map settings) (take-append-drop start m.tiers),
  )

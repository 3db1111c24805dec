-- ===== src/Manager/Freshness.antt =====
-- src/cache_manager.rs: a property of what backends hold that every operation keeps, if each read of
-- a backend permits the write of what it found, for the time that it has left.
pub mod Reads
pub mod Writes
pub mod Age
pub mod Timely
pub mod Served
use multi_tier_cache.Base.{
  All-append, ℕ, zero, suc, ◌+◌, ◌≤◌, ◌≡◌, refl, sym, ap, ◌∙◌, Bool, Bool-cases, Option, none, some,
  Option-cases, List, [], ◌∷◌, ◌++◌, take, drop, All, Bytes, CacheResult, CacheError,
  CacheResult-cases, ok, err, inl, inr, arith, false, subst,
}
use mathlib.Core.Option.{get_or}
use multi_tier_cache.Time.{Duration, Float}
use multi_tier_cache.Traits.{L2CacheBackend}
use multi_tier_cache.Manager.Tier.{
  CacheTier, CacheStrategy, to_duration, default, get_with_ttl, set_with_ttl, record_hit,
}
use multi_tier_cache.Manager.{Counters, CacheManager}
use multi_tier_cache.Manager.Fetch.{promote, promotes, on_hit, scan, get_multi_tier_from}
use multi_tier_cache.Manager.Fetch.Expiry.{Shortens}
use multi_tier_cache.Manager.Get.{
  contains_key, count_request, insert_in_flight, count_outcome, first_tier, fast_path, lower_tiers,
  get_creator, get_coalesced, get,
}
use multi_tier_cache.Manager.Invariant.Reads.{fast_path-Calm}
use multi_tier_cache.Manager.Abstract.Agreement.{alone}
use multi_tier_cache.Manager.Set.{set_tiers, set_with_strategy}

-- `P` holds of a backend; `Q` permits a write for up to a given time.
pub record Ages {S : Type 0} (b : L2CacheBackend S) (P : S → Type 0)
    (Q : Bytes → Bytes → Duration → Type 0) : Type 0 where
  pub reads : (s : S) (k : Bytes) → P s → P (b.get_with_ttl s k).1
  pub permits :
      (s : S) (k v : Bytes) (ttl : Option Duration)
      → P s
      → (b.get_with_ttl s k).0 ≡ some (v, ttl)
      → Q k v (get_or ttl (to_duration default))
  pub writes :
      (s : S) (k v : Bytes) (ttl ttl' : Duration)
      → Q k v ttl
      → ttl' ≤ ttl
      → P s
      → P (b.set_with_ttl s k v ttl').1
  pub removes : (s : S) (k : Bytes) → P s → P (b.remove s k).1
  pub clears : (s : S) (pattern : Bytes) → P s → P (b.remove_pattern s pattern).1

-- A tier whose backend has the property, and whose scale does not make a time longer.
abbrev pub Holds : {F S : Type 0} ⦃f : Float F⦄ → (S → Type 0) → CacheTier F S → Type 0
Holds P t = P t.backend × Shortens t

-- A value that a read found may be written for some time.
abbrev pub Found : (Bytes → Bytes → Duration → Type 0) → Bytes → Option Bytes → Type 0
Found Q key r = (value : Bytes) → r ≡ some value → (ttl : Duration) × Q key value ttl

abbrev pub FoundOk :
    (Bytes → Bytes → Duration → Type 0) → Bytes → CacheResult (Option Bytes) → Type 0
FoundOk Q key r = (value : Bytes) → r ≡ ok (some value) → (ttl : Duration) × Q key value ttl

module _ {F S : Type 0} ⦃f : Float F⦄ ⦃b : L2CacheBackend S⦄ {P : S → Type 0}
    {Q : Bytes → Bytes → Duration → Type 0} (ages : Ages b P Q) where
  pub read-Holds : (t : CacheTier F S) (key : Bytes) → Holds P t → Holds P (get_with_ttl t key).1
  read-Holds t key h = (ages.reads t.backend key h.0, h.1)

  pub write-Holds :
      (t : CacheTier F S) (key value : Bytes) (ttl : Duration)
      → Q key value ttl
      → Holds P t
      → Holds P (set_with_ttl t key value ttl).1
  write-Holds t key value ttl q h = (ages.writes t.backend key value ttl _ q (h.1 ttl) h.0, h.1)

  promote-Holds :
      (key value : Bytes) (ttl : Duration) (n : ℕ) (upper : List (CacheTier F S))
      → Q key value ttl
      → All (Holds P) upper
      → All (Holds P) (promote key value ttl n upper).1
  unfolding promote
  promote-Holds key value ttl n [] q h = tt
  promote-Holds key value ttl n (t ∷ upper) q h =
      (write-Holds t key value ttl q h.0, promote-Holds key value ttl n upper q h.1)

  on_hit-Holds :
      (key : Bytes) (draw : ℕ → Bool) (c : Counters) (upper : List (CacheTier F S))
      (t : CacheTier F S) (lower : List (CacheTier F S)) (value : Bytes) (ttl : Option Duration)
      → Q key value (get_or ttl (to_duration default))
      → All (Holds P) upper
      → Holds P t
      → All (Holds P) lower
      → All (Holds P) (on_hit key draw c upper t lower value ttl).1
  unfolding on_hit
  on_hit-Holds key draw c upper t lower value ttl q hu ht hl =
      elim (Bool-cases (promotes draw upper t)) [
        | inl taken ↦
            rw (taken, on_hit)
              (All-append (Holds P) _ (record_hit t ∷ lower)
                (promote-Holds key value _ _ upper q hu) (ht, hl))
        | inr skipped ↦
            rw (skipped, on_hit) (All-append (Holds P) upper (record_hit t ∷ lower) hu (ht, hl))
      ]

  pub scan-Holds :
      (key : Bytes) (draw : ℕ → Bool) (c : Counters) (upper lower : List (CacheTier F S))
      → All (Holds P) upper
      → All (Holds P) lower
      → Found Q key (scan key draw c upper lower).0 × All (Holds P) (scan key draw c upper lower).2
  unfolding scan
  scan-Holds key draw c upper [] hu hl = (λ v e. absurd (ground arith), hu)
  scan-Holds key draw c upper (t ∷ lower) hu hl = elim (Option-cases (get_with_ttl t key).0) [
    | inl miss ↦
        rw (miss, scan)
          (scan-Holds key draw c (upper ++ (get_with_ttl t key).1 ∷ []) lower
            (All-append (Holds P) upper ((get_with_ttl t key).1 ∷ []) hu
              (read-Holds t key hl.0, tt))
            hl.1)
    | inr ((value, ttl), hit) ↦
        let q = ages.permits t.backend key value ttl hl.0.0 hit in
        rw (hit, scan)
          (
            λ v e. (
              get_or ttl (to_duration default),
              subst (λ x. Q key x (get_or ttl (to_duration default))) (ap (λ o. get_or o value) e)
                  q,
            ),
            on_hit-Holds key draw c upper (get_with_ttl t key).1 lower value ttl q hu
                (read-Holds t key hl.0) hl.1,
          )
  ]

  set_tiers-Holds :
      (key value : Bytes) (ttl : Duration) (n : ℕ) (last : Option CacheError)
      (tiers : List (CacheTier F S))
      → Q key value ttl
      → All (Holds P) tiers
      → All (Holds P) (set_tiers key value ttl n last tiers).tiers
  unfolding set_tiers
  set_tiers-Holds key value ttl n last [] q h = tt
  set_tiers-Holds key value ttl n last (t ∷ tiers) q h =
      let now' = write-Holds t key value ttl q h.0 in
      elim (CacheResult-cases (set_with_ttl t key value ttl).0) [
        | inl (u, good) ↦
            rw (good, set_tiers) (now', set_tiers-Holds key value ttl (n + 1) last tiers q h.1)
        | inr (e, bad) ↦
            rw (bad, set_tiers) (now', set_tiers-Holds key value ttl n (some e) tiers q h.1)
      ]

  pub set_with_strategy-Holds :
      {T C : Type 0} (m : CacheManager F S T C) (key value : Bytes) (strategy : CacheStrategy)
      → Q key value (to_duration strategy)
      → All (Holds P) m.tiers
      → All (Holds P) (set_with_strategy m key value strategy).1.tiers
  unfolding set_with_strategy
  set_with_strategy-Holds m key value strategy q h =
      set_tiers-Holds key value (to_duration strategy) 0 none m.tiers q h

-- ===== src/Manager/Fetch/Expiry.antt =====
-- src/cache_manager.rs, `get_multi_tier_from`: how long a promoted value stays.
use multi_tier_cache.Base.{
  take-length, drop-length, ℕ, ◌+◌, ◌<◌, ◌≤◌, ◌≡◌, refl, sym, ap, ◌∙◌, Bool, true, Option, none,
  some, List, [], ◌∷◌, ◌++◌, arith, Bytes, ok, All, length, take, drop, suc, map, ap₂, append-nil,
  append_assoc,
}
use multi_tier_cache.Time.{Duration, Float}
use multi_tier_cache.Traits.{L2CacheBackend}
use multi_tier_cache.Manager.Tier.{CacheTier, get_with_ttl, record_hit}
use multi_tier_cache.Manager.{Counters, CacheManager}
use multi_tier_cache.Manager.Fetch.{promote, promotes, on_hit, scan, count_hit, get_multi_tier_from}

-- What a backend holds at any instant, and that a value written at the instant `now` is gone once
-- its time to live has passed.
pub record Expires {S : Type 0} (b : L2CacheBackend S) (holds_at : ℕ → S → Bytes → Option Bytes)
    (now : ℕ) : Type 0 where
  pub gone :
      (s : S) (k v : Bytes) (ttl : Duration) (later : ℕ)
      → now + ttl < later
      → holds_at later (b.set_with_ttl s k v ttl).1 k ≡ none

-- The scale of a tier does not make a time to live longer.
abbrev pub Shortens : {F S : Type 0} ⦃f : Float F⦄ → CacheTier F S → Type 0
Shortens ⦃f⦄ t = (d : Duration) → f.from_secs_f64 (f.mul (f.as_secs_f64 d) t.ttl_scale) ≤ d

module _ {F S : Type 0} ⦃f : Float F⦄ ⦃b : L2CacheBackend S⦄ where
  module _ (holds_at : ℕ → S → Bytes → Option Bytes) (now : ℕ) (law : Expires b holds_at now) where
    promote-Expires :
        (key value : Bytes) (ttl : Duration) (n : ℕ) (upper : List (CacheTier F S)) (later : ℕ)
        → All Shortens upper
        → now + ttl < later
        → All (λ u. holds_at later u.backend key ≡ none) (promote key value ttl n upper).1
    unfolding promote
    promote-Expires key value ttl n [] later short h = tt
    promote-Expires key value ttl n (u ∷ upper) later short h =
        let scaled = f.from_secs_f64 (f.mul (f.as_secs_f64 ttl) u.ttl_scale) in
        let shorter : scaled ≤ ttl = short.0 ttl in
        (
          law.gone u.backend key value scaled later (omega arith),
          promote-Expires key value ttl n upper later short.1 h,
        )

  length-promote :
      (key value : Bytes) (ttl : Duration) (n : ℕ) (upper : List (CacheTier F S))
      → length (promote key value ttl n upper).1 ≡ length upper
  unfolding promote
  length-promote key value ttl n [] = refl
  length-promote key value ttl n (u ∷ upper) = ap suc (length-promote key value ttl n upper)

module _ {F S : Type 0} ⦃b : L2CacheBackend S⦄ (key : Bytes) where
  -- A tier after a read of the key, and one whose read finds nothing.
  abbrev pub read : CacheTier F S → CacheTier F S
  read t = (get_with_ttl t key).1

  abbrev pub Misses : CacheTier F S → Type 0
  Misses t = (get_with_ttl t key).0 ≡ none

module _ {F S : Type 0} ⦃f : Float F⦄ ⦃b : L2CacheBackend S⦄ where
  Shortens-read :
      (key : Bytes) (before mid : List (CacheTier F S))
      → All Shortens (before ++ mid)
      → All Shortens (before ++ map (read key) mid)
  Shortens-read key [] [] h = tt
  Shortens-read key [] (t ∷ mid) h = (h.0, Shortens-read key [] mid h.1)
  Shortens-read key (u ∷ before) mid h = (h.0, Shortens-read key before mid h.1)

  scan-Misses :
      (key : Bytes) (draw : ℕ → Bool) (c : Counters) (before mid rest : List (CacheTier F S))
      → All (Misses key) mid
      → scan key draw c before (mid ++ rest) ≡ scan key draw c (before ++ map (read key) mid) rest
  unfolding scan
  scan-Misses key draw c before [] rest h =
      ap (λ l. scan key draw c l rest) (sym (append-nil before))
  scan-Misses key draw c before (t ∷ mid) rest h =
      rw (h.0, scan)
        (scan-Misses key draw c (before ++ read key t ∷ []) mid rest h.1
          ∙ ap (λ l. scan key draw c l rest)
              (append_assoc before (read key t ∷ []) (map (read key) mid)))

  scan-promoted :
      (key value : Bytes) (ttl : Duration) (draw : ℕ → Bool) (c : Counters)
      (upper : List (CacheTier F S)) (t : CacheTier F S) (lower : List (CacheTier F S))
      → (get_with_ttl t key).0 ≡ some (value, some ttl)
      → promotes draw upper (read key t) ≡ true
      → let promoted = promote key value ttl (count_hit t.tier_level c).promotions upper in
        let r = scan key draw c upper (t ∷ lower) in
        (r.0 ≡ some value) × (r.2 ≡ promoted.1 ++ record_hit (read key t) ∷ lower)
  unfolding scan on_hit
  scan-promoted key value ttl draw c upper t lower hit taken =
      rw (hit, scan) (rw (taken, on_hit) (refl, refl))

module _ {F S T C : Type 0} ⦃f : Float F⦄ ⦃b : L2CacheBackend S⦄
    (holds_at : ℕ → S → Bytes → Option Bytes) (now : ℕ) (law : Expires b holds_at now) where
  -- Take backends that drop a value once its time to live has passed, and tiers whose scales do not
  -- make a time to live longer. Let a query at the instant `now`, from any tier on, pass over some
  -- tiers and find in the next one a value that has the time `ttl` left, and let the hit be
  -- promoted. Then the query returns the value, and at any instant after `now + ttl`, when its time
  -- in the tier of the hit has passed, every tier above has lost it as well: a promotion does not
  -- keep a value beyond its time. The tiers below are as they were.
  pub get_multi_tier_from-Expires :
      (m : CacheManager F S T C) (key value : Bytes) (ttl : Duration) (draw : ℕ → Bool)
      (before mid : List (CacheTier F S)) (t : CacheTier F S) (lower : List (CacheTier F S))
      (later : ℕ)
      → m.tiers ≡ before ++ (mid ++ t ∷ lower)
      → All Shortens (before ++ mid)
      → All (Misses key) mid
      → (get_with_ttl t key).0 ≡ some (value, some ttl)
      → promotes draw (before ++ map (read key) mid) (read key t) ≡ true
      → now + ttl < later
      → let r = get_multi_tier_from m key draw (length before) in
        (r.0 ≡ ok (some value))
        × (promoted : List (CacheTier F S)) × (length promoted
            ≡ length (before ++ map (read key) mid))
        × (r.1.tiers ≡ promoted ++ record_hit (read key t) ∷ lower)
        × All (λ u. holds_at later u.backend key ≡ none) promoted
  unfolding get_multi_tier_from
  get_multi_tier_from-Expires m key value ttl draw before mid t lower later split short missed hit
        taken h =
      let c = m.counters in
      let upper = before ++ map (read key) mid in
      let rest = mid ++ t ∷ lower in
      let walk =
        ap₂ (scan key draw c) (ap (take (length before)) split ∙ take-length before rest)
          (ap (drop (length before)) split ∙ drop-length before rest)
        ∙ scan-Misses key draw c before mid (t ∷ lower) missed in
      let found = scan-promoted key value ttl draw c upper t lower hit taken in
      let n = (count_hit t.tier_level c).promotions in
      (
        ap ok (ap (λ r. r.0) walk ∙ found.0),
        (promote key value ttl n upper).1,
        length-promote key value ttl n upper,
        ap (λ r. r.2) walk ∙ found.1,
        promote-Expires holds_at now law key value ttl n upper later
            (Shortens-read key before mid short) h,
      )

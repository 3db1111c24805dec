-- ===== src/Manager/Abstract/Read.antt =====
-- Reads return what is visible, and never change it.
use multi_tier_cache.Base.{
  ℕ, ◌≡◌, refl, sym, ap, ◌∙◌, Bool, true, false, not, ◌&&◌, Option, none, some, List, [], ◌∷◌, ◌++◌,
  arith, Bytes, bytes_eq, bytes_eq_iff, if◌then◌else◌, Option-cases, Bool-cases, inl, inr,
  append_assoc, append-nil,
}
use multi_tier_cache.Time.{Duration, Float}
use multi_tier_cache.Traits.{L2CacheBackend}
use multi_tier_cache.Traits.Laws.{IsLawful, found}
use multi_tier_cache.Manager.Tier.{CacheTier, get_with_ttl, set_with_ttl}
use multi_tier_cache.Manager.{Counters}
use multi_tier_cache.Manager.Fetch.{is_empty, promote, promotes, on_hit, scan}
use multi_tier_cache.Manager.Abstract.{IsReliable, or_else, visible, visible-append}

-- A value that is put above the tier that it comes from, under its own key, hides nothing.
overlay :
    (wanted same : Bool) (above here below : Option Bytes) (value : Bytes)
    → (same ≡ true → above ≡ none)
    → (same ≡ true → here ≡ some value)
    → or_else (if wanted && same then some value else above) (or_else here below)
      ≡ or_else above (or_else here below)
overlay false same above here below value a h = refl
overlay true false above here below value a h = refl
overlay true true above here below value a h = rw (a refl, h refl)

-- The duration that a tier hands to its backend.
abbrev pub scaled : {F S : Type 0} ⦃f : Float F⦄ → CacheTier F S → Duration → Duration
scaled ⦃f⦄ t ttl = f.from_secs_f64 (f.mul (f.as_secs_f64 ttl) t.ttl_scale)

module _ {F S : Type 0} ⦃b : L2CacheBackend S⦄ (holds : S → Bytes → Option Bytes)
    (lawful : IsLawful b holds) where
  pub get-holds :
      (t : CacheTier F S) (key j : Bytes)
      → holds (get_with_ttl t key).1.backend j ≡ holds t.backend j
  get-holds t key j = lawful.read_keeps t.backend key j

  -- A read of one tier in the middle changes nothing that is visible.
  pub visible-replace :
      (key : Bytes) (upper : List (CacheTier F S)) (t : CacheTier F S)
      (lower : List (CacheTier F S)) (j : Bytes)
      → visible holds (upper ++ (get_with_ttl t key).1 ∷ lower) j
        ≡ visible holds (upper ++ t ∷ lower) j
  visible-replace key upper t lower j = simp visible-append (rw (get-holds t key j))

  pub miss-holds :
      (t : CacheTier F S) (key : Bytes) → (get_with_ttl t key).0 ≡ none → holds t.backend key ≡ none
  miss-holds t key e = sym (lawful.read t.backend key) ∙ ap found e

  pub hit-holds :
      (t : CacheTier F S) (key : Bytes) {v : Bytes} {ttl : Option Duration}
      → (get_with_ttl t key).0 ≡ some (v, ttl)
      → holds t.backend key ≡ some v
  hit-holds t key e = sym (lawful.read t.backend key) ∙ ap found e

module _ {F S : Type 0} ⦃f : Float F⦄ ⦃b : L2CacheBackend S⦄ (holds : S → Bytes → Option Bytes)
    (lawful : IsLawful b holds) (reliable : IsReliable b) where
  pub set-holds :
      (t : CacheTier F S) (key value : Bytes) (ttl : Duration) (j : Bytes)
      → holds (set_with_ttl t key value ttl).1.backend j
        ≡ (if bytes_eq key j then some value else holds t.backend j)
  set-holds t key value ttl j =
      lawful.write t.backend key value (scaled t ttl) j
        (reliable.writes t.backend key value (scaled t ttl))

  -- A promotion shows the value in the tiers that it writes, and nothing else changes there.
  visible-promote :
      (key value : Bytes) (ttl : Duration) (n : ℕ) (tiers : List (CacheTier F S)) (j : Bytes)
      → visible holds (promote key value ttl n tiers).1 j
        ≡ (if not (is_empty tiers) && bytes_eq key j then some value else visible holds tiers j)
  unfolding promote
  visible-promote key value ttl n [] j = refl
  visible-promote key value ttl n (t ∷ tiers) j =
      rw (set-holds t key value ttl j, visible-promote key value ttl n tiers j) (ground arith)

  visible-on_hit :
      (key : Bytes) (draw : ℕ → Bool) (c : Counters) (upper : List (CacheTier F S))
      (t : CacheTier F S) (lower : List (CacheTier F S)) (value : Bytes) (ttl : Option Duration)
      (j : Bytes)
      → visible holds upper key ≡ none
      → holds t.backend key ≡ some value
      → visible holds (on_hit key draw c upper t lower value ttl).1 j
        ≡ visible holds (upper ++ t ∷ lower) j
  unfolding on_hit
  visible-on_hit key draw c upper t lower value ttl j above here =
      elim (Bool-cases (promotes draw upper t)) [
        | inl taken ↦
            rw (taken, on_hit)
              (simp (visible-append, visible-promote)
                (overlay (not (is_empty upper)) (bytes_eq key j) (visible holds upper j)
                  (holds t.backend j) (visible holds lower j) value
                  (λ e. rw (← (bytes_eq_iff key j).0 e) above)
                  (λ e. rw (← (bytes_eq_iff key j).0 e) here)))
        | inr skipped ↦ rw (skipped, on_hit) (simp visible-append)
      ]

  -- A walk shows the value of the first tier that has the key, and hides nothing that was
  -- visible, under the key or another, if no tier that was passed before has the key.
  pub visible-scan :
      (key : Bytes) (draw : ℕ → Bool) (c : Counters) (upper lower : List (CacheTier F S))
      → visible holds upper key ≡ none
      → ((scan key draw c upper lower).0 ≡ visible holds lower key)
        × ((j : Bytes)
            → visible holds (scan key draw c upper lower).2 j ≡ visible holds (upper ++ lower) j)
  unfolding scan
  visible-scan key draw c upper [] above = (refl, λ j. rw append-nil)
  visible-scan key draw c upper (t ∷ lower) above = elim (Option-cases (get_with_ttl t key).0) [
    | inl miss ↦
        let t' = (get_with_ttl t key).1 in
        let absent = miss-holds holds lawful t key miss in
        let passed : visible holds (upper ++ t' ∷ []) key ≡ none = rw (
          visible-replace holds lawful key upper t [] key,
          visible-append holds upper (t ∷ []) key,
          above,
          absent,
        ) in
        let ih = visible-scan key draw c (upper ++ t' ∷ []) lower passed in
        (
          rw (miss, scan, absent) ih.0,
          λ j.
              rw (miss, scan, ih.1 j, append_assoc)
                (visible-replace holds lawful key upper t lower j),
        )
    | inr ((value, ttl), hit) ↦
        let t' = (get_with_ttl t key).1 in
        let here = hit-holds holds lawful t key hit in
        (
          rw (hit, scan, here),
          λ j.
              rw (hit, scan)
                (visible-on_hit key draw c upper t' lower value ttl j above
                    (get-holds holds lawful t key key ∙ here)
                  ∙ visible-replace holds lawful key upper t lower j),
        )
  ]

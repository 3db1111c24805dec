-- ===== src/Manager/Get/Counting.antt =====
-- What a `get` adds to the statistics.
use multi_tier_cache.Base.{
  ℕ, suc, map, ◌≡◌, refl, sym, ap, ◌∙◌, Bool, true, false, Option, none, some, List, [], ◌∷◌, ◌++◌,
  arith, Bytes, CacheResult, ok, Option-cases, Bool-cases, inl, inr, u64_add, length, leb,
}
use multi_tier_cache.Time.{Duration, Float}
use multi_tier_cache.Traits.{L2CacheBackend}
use multi_tier_cache.Traits.Laws.{IsLawful}
use multi_tier_cache.Manager.Tier.{CacheTier, get_with_ttl}
use multi_tier_cache.Manager.Fetch.Hit.{first_hit, settings, scan-first_hit, settings-scan}
use multi_tier_cache.Manager.{Counters, CacheManager}
use multi_tier_cache.Manager.Fetch.{count_hit, promotes, on_hit, scan, get_multi_tier_from}
use multi_tier_cache.Manager.Get.{
  contains_key, count_outcome, first_tier, fast_path, lower_tiers, get_creator, get_coalesced, get,
  count_request, insert_in_flight, drop_guard,
}

-- The counters but for the promotions.
abbrev pub but_promotions : ℕ → Counters → Counters
but_promotions n c = record c { promotions = n }

module _ {F S : Type 0} ⦃b : L2CacheBackend S⦄ where
  -- The level of the first tier that answers a read of the key with a value.
  abbrev pub hit_level : Bytes → List (CacheTier F S) → Option ℕ
  hit_level key [] = none
  hit_level key (t ∷ tiers) =
      let rest = hit_level key tiers in
      elim (get_with_ttl t key).0 [ none ↦ rest | some hit ↦ some t.tier_level ]

abbrev pub counted : Option ℕ → Counters → Counters
counted none c = c
counted (some level) c = count_hit level c

module _ {F S : Type 0} ⦃f : Float F⦄ ⦃b : L2CacheBackend S⦄ where
  on_hit-counted :
      (key : Bytes) (draw : ℕ → Bool) (c : Counters) (upper : List (CacheTier F S))
      (t : CacheTier F S) (lower : List (CacheTier F S)) (value : Bytes) (ttl : Option Duration)
      (n : ℕ)
      → but_promotions n (on_hit key draw c upper t lower value ttl).0
        ≡ but_promotions n (count_hit t.tier_level c)
  unfolding on_hit
  on_hit-counted key draw c upper t lower value ttl n = elim (Bool-cases (promotes draw upper t)) [
    | inl taken ↦ rw (taken, on_hit) refl
    | inr skipped ↦ rw (skipped, on_hit) refl
  ]

  scan-counted :
      (key : Bytes) (draw : ℕ → Bool) (c : Counters) (upper lower : List (CacheTier F S)) (n : ℕ)
      → but_promotions n (scan key draw c upper lower).1
        ≡ but_promotions n (counted (hit_level key lower) c)
  unfolding scan
  scan-counted key draw c upper [] n = refl
  scan-counted key draw c upper (t ∷ lower) n = elim (Option-cases (get_with_ttl t key).0) [
    | inl miss ↦
        rw (miss, scan, hit_level)
          (scan-counted key draw c (upper ++ (get_with_ttl t key).1 ∷ []) lower n)
    | inr ((value, ttl), hit) ↦
        rw (hit, scan, hit_level)
          (on_hit-counted key draw c upper (get_with_ttl t key).1 lower value ttl n)
  ]

is_some {ℓ} : {A : Type ℓ} → Option A → Bool
is_some none = false
is_some (some x) = true

module _ {F S : Type 0} ⦃b : L2CacheBackend S⦄ where
  answered :
      (key : Bytes) (tiers : List (CacheTier F S))
      → is_some (first_hit key tiers) ≡ is_some (hit_level key tiers)
  unfolding is_some
  answered key [] = refl
  answered key (t ∷ tiers) = ground (arith, answered key tiers)

-- The counters after a query of the second tier and those below, by the level of the tier that
-- answers.
abbrev pub after_lower : Option ℕ → Counters → Counters
after_lower none c = record c { misses = u64_add c.misses 1 }
after_lower (some level) c =
    let c' = count_hit level c in record c' { l2_hits = u64_add c'.l2_hits 1 }

-- The counters after a `get` that misses the first tier: one request more, and one miss more if no
-- tier below has the key. If one has, the hit is counted by that tier's level, and then once more
-- as a hit of the second level.
abbrev pub after_miss : Option ℕ → Counters → Counters
after_miss level c = after_lower level (record c { total_requests = u64_add c.total_requests 1 })

module _ {F S T C : Type 0} where
  outcome-counted :
      (m : CacheManager F S T C) (o : Option Bytes) (level : Option ℕ) (c : Counters) (n : ℕ)
      → is_some o ≡ is_some level
      → (is_some level ≡ true → leb 2 (length m.tiers) ≡ true)
      → but_promotions n m.counters ≡ but_promotions n (counted level c)
      → but_promotions n (count_outcome (ok o) m).counters ≡ but_promotions n (after_lower level c)
  unfolding count_outcome is_some count_hit
  outcome-counted m none none c n same two e = ap (after_lower none) e
  outcome-counted m none (some level) c n same two e = absurd (ground arith)
  outcome-counted m (some v) none c n same two e = absurd (ground arith)
  outcome-counted m (some v) (some level) c n same two e =
      rw (two refl, count_outcome)
        (ap {A = Counters} (λ x. record x { l2_hits = u64_add x.l2_hits 1 }) e)

length-map : {A B : Type 0} (f : A → B) (xs : List A) → length (map f xs) ≡ length xs
length-map f [] = refl
length-map f (x ∷ xs) = ap suc (length-map f xs)

module _ {F S : Type 0} ⦃b : L2CacheBackend S⦄ where
  nonempty :
      (key : Bytes) (t : CacheTier F S) (lower : List (CacheTier F S))
      → is_some (hit_level key lower) ≡ true
      → leb 2 (length (t ∷ lower)) ≡ true
  unfolding is_some
  nonempty key t [] e = absurd (ground arith)
  nonempty key t (t' ∷ lower) e = ground arith

  missed :
      (t : CacheTier F S) (key : Bytes) (holds : S → Bytes → Option Bytes)
      → IsLawful b holds
      → holds t.backend key ≡ none
      → (get_with_ttl t key).0 ≡ none
  missed t key holds lawful h = go (b.get_with_ttl t.backend key).0 refl
    where
      go : (o : Option (Bytes × Option Duration)) → (b.get_with_ttl t.backend key).0 ≡ o → o ≡ none
      go none e = refl
      go (some (v, ttl)) e = absurd (ground (arith, lawful.read t.backend key))

module _ {F S : Type 0} ⦃f : Float F⦄ ⦃b : L2CacheBackend S⦄ where
  scanned-length :
      (t : CacheTier F S) (lower : List (CacheTier F S)) (key : Bytes) (draw : ℕ → Bool)
      (c : Counters)
      → length (scan key draw c (t ∷ []) lower).2 ≡ length (t ∷ lower)
  scanned-length t lower key draw c =
      sym (length-map settings (scan key draw c (t ∷ []) lower).2)
      ∙ ap length (settings-scan key draw c (t ∷ []) lower)
      ∙ length-map settings (t ∷ lower)

module _ {F S T C : Type 0} ⦃f : Float F⦄ ⦃b : L2CacheBackend S⦄ where
  lower_tiers-counted :
      (m : CacheManager F S T C) (t : CacheTier F S) (lower : List (CacheTier F S)) (key : Bytes)
      (draw : ℕ → Bool) (n : ℕ)
      → but_promotions n (lower_tiers (record m { tiers = t ∷ lower }) key draw).1.counters
        ≡ but_promotions n (after_lower (hit_level key lower) m.counters)
  unfolding lower_tiers get_multi_tier_from
  lower_tiers-counted m t lower key draw n =
      let r = scan key draw m.counters (t ∷ []) lower in
      outcome-counted (record m { counters = r.1; tiers = r.2 }) r.0 (hit_level key lower)
        m.counters n
        (ap is_some (scan-first_hit key draw m.counters (t ∷ []) lower) ∙ answered key lower)
        (λ hit. ap (leb 2) (scanned-length t lower key draw m.counters) ∙ nonempty key t lower hit)
        (scan-counted key draw m.counters (t ∷ []) lower n)

  fast_path-miss :
      (m : CacheManager F S T C) (t : CacheTier F S) (lower : List (CacheTier F S)) (key : Bytes)
      → (get_with_ttl t key).0 ≡ none
      → fast_path (record m { tiers = t ∷ lower }) key
        ≡ (none, record m { tiers = (get_with_ttl t key).1 ∷ lower })
  unfolding fast_path first_tier
  fast_path-miss m t lower key miss = rw (miss, fast_path, first_tier) refl

  get-miss :
      (m m' : CacheManager F S T C) (key : Bytes) (draw : ℕ → Bool)
      (heard : Option (CacheResult (Option Bytes)))
      → fast_path (count_request m) key ≡ (none, m')
      → get m key draw heard ≡ get_coalesced m' key draw heard
  unfolding get
  get-miss m m' key draw heard e =
      rw (ap (λ r. r.0) e, get) (ap (λ r. get_coalesced r.1 key draw heard) e)

  get_coalesced-alone :
      (m : CacheManager F S T C) (key : Bytes) (draw : ℕ → Bool)
      (heard : Option (CacheResult (Option Bytes)))
      → contains_key m.in_flight_requests key ≡ false
      → (get_coalesced m key draw heard).1
        ≡ drop_guard (get_creator (insert_in_flight m key) key draw).manager key
  unfolding get_coalesced
  get_coalesced-alone m key draw heard e = rw (e, get_coalesced) refl

  get_creator-miss :
      (m m' : CacheManager F S T C) (key : Bytes) (draw : ℕ → Bool)
      → fast_path m key ≡ (none, m')
      → (get_creator m key draw).manager ≡ (lower_tiers m' key draw).1
  unfolding get_creator
  get_creator-miss m m' key draw e =
      rw (ap (λ r. r.0) e, get_creator) (ap (λ r. (lower_tiers r.1 key draw).1) e)

  -- If the backends are lawful, the first tier does not hold the key and no computation of it is in
  -- flight, then a `get` changes the counters, those of promotions left aside, as follows: one
  -- request more; one miss more if no tier below answers; and if one does, one hit more of its
  -- level (of the first two), and besides this, in any case, one hit more of the second level. All
  -- counters are modulo 2^64.
  pub get-after_miss :
      (m : CacheManager F S T C) (t : CacheTier F S) (lower : List (CacheTier F S)) (key : Bytes)
      (draw : ℕ → Bool) (heard : Option (CacheResult (Option Bytes)))
      (holds : S → Bytes → Option Bytes)
      → IsLawful b holds
      → contains_key m.in_flight_requests key ≡ false
      → holds t.backend key ≡ none
      → let r = get (record m { tiers = t ∷ lower }) key draw heard in
        but_promotions m.promotions r.1.counters
        ≡ but_promotions m.promotions (after_miss (hit_level key lower) m.counters)
  get-after_miss m t lower key draw heard holds lawful alone miss =
      let n = m.promotions in
      let once = missed t key holds lawful miss in
      let t' = (get_with_ttl t key).1 in
      let twice = missed t' key holds lawful (lawful.read_keeps t.backend key key ∙ miss) in
      let m1 = count_request m in
      let m2 = record m1 { in_flight_requests = key ∷ m.in_flight_requests } in
      ap (λ x. but_promotions n x.1.counters)
        (get-miss (record m { tiers = t ∷ lower }) (record m1 { tiers = t' ∷ lower }) key draw heard
          (fast_path-miss m1 t lower key once))
      ∙ ap (λ x. but_promotions n x.counters)
          (get_coalesced-alone (record m1 { tiers = t' ∷ lower }) key draw heard alone)
      ∙ ap (λ x. but_promotions n x.counters)
          (get_creator-miss (record m2 { tiers = t' ∷ lower })
            (record m2 { tiers = (get_with_ttl t' key).1 ∷ lower }) key draw
            (fast_path-miss m2 t' lower key twice))
      ∙ lower_tiers-counted m2 (get_with_ttl t' key).1 lower key draw n

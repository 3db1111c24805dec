-- ===== src/Builder/Build.antt =====
-- src/builder.rs, `build_multi_tier`: when the build succeeds, and with which manager.
use multi_tier_cache.Base.{
  CacheError, config_error, CacheResult-cases, Bool-cases, inl, inr, ◌⊎◌, leb, length, subst, ℕ,
  ◌<◌, ◌≤◌, ◌≡◌, refl, ap, false, none, List, [], ◌∷◌, map, arith, CacheResult, ok, err, not_found,
  ◌==◌, ◌↔◌, All, ◌>>=◌,
}
use multi_tier_cache.Time.{Float}
use multi_tier_cache.Traits.{L2CacheBackend, CacheBackend}
use multi_tier_cache.Manager.Tier.{TierConfig}
use multi_tier_cache.Manager.{CacheManager}
use multi_tier_cache.Manager.Construct.{fresh, check_sorted, unsorted, new_with_tiers}
use multi_tier_cache.Manager.Construct.Sorted.{Ascending, Ascending-of_sorted, new_with_tiers_lem}
use multi_tier_cache.Builder.{
  CacheSystemBuilder, sort_by_level, tier_of, CacheSystem, multi_tier, default_2_tier,
  custom_2_tier, build_multi_tier, build_default_2_tier, build, with_streams,
}
use multi_tier_cache.Builder.Levels.{
  level_of, at_level, Ordered, Distinct, sort-at_level, sort-Ordered, All-insert, insert-All,
  All-imp, insert-Distinct, Distinct-insert,
}

module _ {F S : Type 0} where
  All-sort :
      (P : S × TierConfig F → Type 0) (tiers : List (S × TierConfig F))
      → All P tiers
      → All P (sort_by_level tiers)
  unfolding sort_by_level
  All-sort P [] ps = tt
  All-sort P (t ∷ tiers) ps = All-insert P t (sort_by_level tiers) ps.0 (All-sort P tiers ps.1)

  sort-All :
      (P : S × TierConfig F → Type 0) (tiers : List (S × TierConfig F))
      → All P (sort_by_level tiers)
      → All P tiers
  unfolding sort_by_level
  sort-All P [] ps = tt
  sort-All P (t ∷ tiers) ps =
      let parts = insert-All P t (sort_by_level tiers) ps in (parts.0, sort-All P tiers parts.1)

  sort-Distinct :
      (tiers : List (S × TierConfig F)) → Distinct tiers → Distinct (sort_by_level tiers)
  unfolding sort_by_level
  sort-Distinct [] d = tt
  sort-Distinct (t ∷ tiers) d =
      insert-Distinct t (sort_by_level tiers)
        (All-sort (λ u. (level_of t == level_of u) ≡ false) tiers d.0, sort-Distinct tiers d.1)

  Distinct-sort :
      (tiers : List (S × TierConfig F)) → Distinct (sort_by_level tiers) → Distinct tiers
  unfolding sort_by_level
  Distinct-sort [] d = tt
  Distinct-sort (t ∷ tiers) d =
      let e = Distinct-insert t (sort_by_level tiers) d in
      (sort-All (λ u. (level_of t == level_of u) ≡ false) tiers e.0, Distinct-sort tiers e.1)

  -- Two of the tiers have one level, and the error is about it.
  abbrev pub Clash : List (S × TierConfig F) → CacheError → Type 0
  Clash tiers e = (n : ℕ) × (2 ≤ length (at_level n tiers)) × (e ≡ config_error (unsorted n n))

  module _ ⦃b : L2CacheBackend S⦄ where
    Ascending-Distinct :
        (tiers : List (S × TierConfig F))
        → Ordered tiers
        → Ascending (map tier_of tiers)
        → Distinct tiers
    Ascending-Distinct [] o h = tt
    Ascending-Distinct (t ∷ []) o h = (tt, tt)
    Ascending-Distinct (t ∷ u ∷ tiers) o h =
        let below : level_of t < level_of u = h.0 in
        (
          (
            ground arith,
            All-imp (λ v. level_of u ≤ level_of v) (λ v. (level_of t == level_of v) ≡ false) tiers
                (λ v le. ground arith) o.1.0,
          ),
          Ascending-Distinct (u ∷ tiers) o.1 h.1,
        )

    Distinct-Ascending :
        (tiers : List (S × TierConfig F))
        → Ordered tiers
        → Distinct tiers
        → Ascending (map tier_of tiers)
    Distinct-Ascending [] o d = tt
    Distinct-Ascending (t ∷ []) o d = tt
    Distinct-Ascending (t ∷ u ∷ tiers) o d =
        let le : level_of t ≤ level_of u = o.0.0 in
        let apart : (level_of t == level_of u) ≡ false = d.0.0 in
        let below : level_of t < level_of u = ground arith in
        (below, Distinct-Ascending (u ∷ tiers) o.1 d.1)

    sorted-Clash :
        (tiers : List (S × TierConfig F)) (e : CacheError)
        → Ordered tiers
        → check_sorted (map tier_of tiers) ≡ err e
        → Clash tiers e
    unfolding check_sorted
    sorted-Clash [] e o h = absurd (ground arith)
    sorted-Clash (t ∷ []) e o h = absurd (ground arith)
    sorted-Clash (t ∷ u ∷ tiers) e o h =
        let le : level_of t ≤ level_of u = o.0.0 in
        elim (Bool-cases (leb (level_of u) (level_of t))) [
          | inl above ↦ (level_of t, ground arith, ground arith)
          | inr below ↦
              let (n, twice, about) = sorted-Clash (u ∷ tiers) e o.1 (ground arith) in
              (n, ground arith, about)
        ]

module _ {F A S T C K : Type 0} ⦃f : Float F⦄ ⦃a : CacheBackend A⦄ ⦃b : L2CacheBackend S⦄ where
  -- `build_multi_tier` succeeds exactly if no two of the configured tiers have the same level,
  -- and then with a manager of these tiers sorted by level. Otherwise it fails with a configuration
  -- error that names a level which at least two of the configured tiers have. The sorting is
  -- stable: the tiers of any one level stay as they are and in their order, none is lost and none
  -- is made up.
  pub build_multi_tier_lem :
      (builder : CacheSystemBuilder F A S T K)
      → ((build_multi_tier {C = C} builder
            ≡ ok (
                multi_tier (
                  fresh
                    (map tier_of (sort_by_level builder.tiers))
                    builder.streaming_backend
                    none)))
          ↔ Distinct builder.tiers)
        × (Distinct builder.tiers
            ⊎ ((e : CacheError) × (build_multi_tier {C = C} builder ≡ err e)
                × Clash builder.tiers e))
        × Ordered (sort_by_level builder.tiers)
        × ((n : ℕ) → at_level n (sort_by_level builder.tiers) ≡ at_level n builder.tiers)
  unfolding build_multi_tier new_with_tiers
  build_multi_tier_lem builder =
      let sorted = sort_by_level builder.tiers in
      let lem =
        (new_with_tiers_lem {T = T} {C = C} (map tier_of sorted) builder.streaming_backend).0 in
      (
        (
          λ e.
              Distinct-sort builder.tiers
                (Ascending-Distinct sorted (sort-Ordered builder.tiers) (lem.0 (built _ e))),
          λ d.
              ap (λ r. r >>= λ m. ok (multi_tier m))
                (lem.1 (
                  Distinct-Ascending sorted (sort-Ordered builder.tiers)
                    (sort-Distinct builder.tiers d))),
        ),
        elim (CacheResult-cases (check_sorted (map tier_of sorted))) [
          | inl (u, good) ↦ inl (
              Distinct-sort builder.tiers (
                Ascending-Distinct sorted (sort-Ordered builder.tiers)
                  (Ascending-of_sorted (map tier_of sorted) good)))
          | inr (e, bad) ↦
              let (n, twice, about) = sorted-Clash sorted e (sort-Ordered builder.tiers) bad in
              inr (
                e,
                rw bad refl,
                (n, subst (λ l. 2 ≤ length l) (sort-at_level n builder.tiers) twice, about),
              )
        ],
        sort-Ordered builder.tiers,
        λ n. sort-at_level n builder.tiers,
      )
    where
      manager_in : CacheResult (CacheSystem F A S T C) → CacheResult (CacheManager F S T C)
      manager_in (ok (multi_tier m)) = ok m
      manager_in (ok (default_2_tier m)) = err not_found
      manager_in (ok (custom_2_tier m)) = err not_found
      manager_in (err e) = err e

      wrap : CacheManager F S T C → CacheResult (CacheSystem F A S T C)
      wrap m = ok (multi_tier m)

      built :
          (r : CacheResult (CacheManager F S T C)) {m : CacheManager F S T C}
          → (r >>= wrap) ≡ wrap m
          → r ≡ ok m
      built (ok m') e = ap manager_in e
      built (err e') e = ap manager_in e

module _ {F A S T C K : Type 0} ⦃f : Float F⦄ ⦃a : CacheBackend A⦄ ⦃b : L2CacheBackend S⦄
    (default_config : K) (moka : K → CacheResult S) (moka_l1 : K → CacheResult A)
    (redis : CacheResult S) (streams : CacheResult T) where
  -- A builder to which neither a tier nor a first or second backend was given builds the same
  -- system, or fails in the same way, whichever streaming backend it was given.
  pub build-with_streams :
      (builder : CacheSystemBuilder F A S T K) (backend : T)
      → builder.tiers ≡ []
      → builder.l1_backend ≡ none
      → builder.l2_backend ≡ none
      → build {C = C} default_config moka moka_l1 redis streams (with_streams builder backend)
        ≡ build default_config moka moka_l1 redis streams builder
  unfolding build build_default_2_tier
  build-with_streams builder backend no_tier no_l1 no_l2 = rw (no_tier, no_l1, no_l2, build) refl

-- ===== src/Builder.antt =====
-- src/builder.rs and the `CacheSystem` of src/lib.rs. The constructors of the Moka and Redis
-- backends are arguments, as what they return; all features are on.
pub mod Levels
pub mod Build
use multi_tier_cache.Base.{
  ℕ, Bool, true, false, ◌&&◌, Option, none, some, List, [], ◌∷◌, ◌++◌, map, CacheResult, ok, err,
  leb, if◌then◌else◌, ◌>>=◌,
}
use mathlib.Core.Option.{get_or}
use multi_tier_cache.Time.{Float}
use multi_tier_cache.Traits.{CacheBackend, L2CacheBackend}
use multi_tier_cache.Traits.Dyn.{Dyn, first, second}
use multi_tier_cache.Manager.Tier.{CacheTier, TierConfig, new_tier, as_l3, as_l4}
use multi_tier_cache.Manager.{CacheManager}
use multi_tier_cache.Manager.Fetch.{is_empty}
use multi_tier_cache.Manager.Construct.{new, new_with_tiers, new_with_backends}

-- `A` are the states of a `dyn CacheBackend`, `S` those of a `dyn L2CacheBackend`, and `K` is the
-- configuration of Moka.
pub record CacheSystemBuilder (F A S T K : Type 0) : Type 0 where
  pub l1_backend : Option A
  pub l2_backend : Option S
  pub streaming_backend : Option T
  pub moka_config : Option K
  pub tiers : List (S × TierConfig F)

module _ {F A S T K : Type 0} where
  abbrev pub new_builder : CacheSystemBuilder F A S T K
  new_builder = record {
    l1_backend = none;
    l2_backend = none;
    streaming_backend = none;
    moka_config = none;
    tiers = [];
  }

  abbrev pub with_l1 : CacheSystemBuilder F A S T K → A → CacheSystemBuilder F A S T K
  with_l1 b backend = record b { l1_backend = some backend }

  abbrev pub with_moka_config : CacheSystemBuilder F A S T K → K → CacheSystemBuilder F A S T K
  with_moka_config b config = record b { moka_config = some config }

  abbrev pub with_l2 : CacheSystemBuilder F A S T K → S → CacheSystemBuilder F A S T K
  with_l2 b backend = record b { l2_backend = some backend }

  abbrev pub with_streams : CacheSystemBuilder F A S T K → T → CacheSystemBuilder F A S T K
  with_streams b backend = record b { streaming_backend = some backend }

  abbrev pub with_tier :
      CacheSystemBuilder F A S T K → S → TierConfig F → CacheSystemBuilder F A S T K
  with_tier b backend config = record b { tiers = b.tiers ++ (backend, config) ∷ [] }

  abbrev pub with_l3 :
      ⦃f : Float F⦄ → CacheSystemBuilder F A S T K → S → CacheSystemBuilder F A S T K
  with_l3 b backend = with_tier b backend as_l3

  abbrev pub with_l4 :
      ⦃f : Float F⦄ → CacheSystemBuilder F A S T K → S → CacheSystemBuilder F A S T K
  with_l4 b backend = with_tier b backend as_l4

-- `sort_by_key`, which is stable: an entry goes in front of the later ones of the same level.
module _ {F S : Type 0} where
  unfoldable pub insert_by_level :
      S × TierConfig F → List (S × TierConfig F) → List (S × TierConfig F)
  insert_by_level x [] = x ∷ []
  insert_by_level x (y ∷ tiers) =
      let later = insert_by_level x tiers in
      if leb x.1.tier_level y.1.tier_level then x ∷ y ∷ tiers else y ∷ later

  unfoldable pub sort_by_level : List (S × TierConfig F) → List (S × TierConfig F)
  unfolding insert_by_level
  sort_by_level [] = []
  sort_by_level (x ∷ tiers) = insert_by_level x (sort_by_level tiers)

  abbrev pub tier_of : ⦃b : L2CacheBackend S⦄ → S × TierConfig F → CacheTier F S
  tier_of (backend, c) =
      new_tier backend c.tier_level c.promotion_enabled c.promotion_frequency c.ttl_scale

-- The three kinds of system that a builder builds. The default one also keeps its two backends,
-- which are those of its two tiers.
pub data CacheSystem (F A S T C : Type 0) : Type 0 where
  multi_tier : CacheManager F S T C → CacheSystem F A S T C
  default_2_tier : CacheManager F (Dyn S S) T C → CacheSystem F A S T C
  custom_2_tier : CacheManager F (Dyn A S) T C → CacheSystem F A S T C

module _ {F A S T C K : Type 0} ⦃f : Float F⦄ ⦃a : CacheBackend A⦄ ⦃b : L2CacheBackend S⦄ where
  unfoldable pub build_multi_tier :
      CacheSystemBuilder F A S T K → CacheResult (CacheSystem F A S T C)
  unfolding sort_by_level
  build_multi_tier builder = do
    m ← new_with_tiers (map tier_of (sort_by_level builder.tiers)) builder.streaming_backend
    ok (multi_tier m)

  -- What the build may ask of the rest of the program: a Moka cache, as either kind of object, a
  -- Redis cache, and the Redis streams that `CacheManager::new` opens.
  module _ (default_config : K) (moka : K → CacheResult S) (moka_l1 : K → CacheResult A)
      (redis : CacheResult S) (streams : CacheResult T) where
    unfoldable pub build_default_2_tier :
        CacheSystemBuilder F A S T K → CacheResult (CacheSystem F A S T C)
    build_default_2_tier builder = do
      l1_cache ← moka (get_or builder.moka_config default_config)
      l2_cache ← redis
      m ← new b b l1_cache l2_cache streams
      ok (default_2_tier m)

    unfoldable pub build_custom_2_tier :
        CacheSystemBuilder F A S T K → CacheResult (CacheSystem F A S T C)
    build_custom_2_tier builder = do
      l1_backend ← elim builder.l1_backend [
        | some backend ↦ ok backend
        | none ↦ moka_l1 (get_or builder.moka_config default_config)
      ]
      l2_backend ← elim builder.l2_backend [ some backend ↦ ok backend | none ↦ redis ]
      m ← new_with_backends a b l1_backend l2_backend builder.streaming_backend
      ok (custom_2_tier m)

    unfoldable pub build : CacheSystemBuilder F A S T K → CacheResult (CacheSystem F A S T C)
    unfolding build_multi_tier build_default_2_tier build_custom_2_tier
    build builder =
        if is_empty builder.tiers
        then elim builder.l1_backend [
          | some l1 ↦ build_custom_2_tier builder
          | none ↦ elim builder.l2_backend [
            | some l2 ↦ build_custom_2_tier builder
            | none ↦ build_default_2_tier builder
          ]
        ]
        else build_multi_tier builder

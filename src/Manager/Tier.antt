-- ===== src/Manager/Tier.antt =====
-- src/cache_manager.rs: cache strategies, tiers and their configuration.
use multi_tier_cache.Base.{ℕ, String, Bool, true, false, Option, Bytes, CacheResult, u64_add}
use multi_tier_cache.Time.{Duration, from_secs, from_mins, from_hours, Float}
use multi_tier_cache.Traits.{L2CacheBackend}

pub data CacheStrategy : Type 0 where
  real_time short_term medium_term long_term : CacheStrategy
  custom : Duration → CacheStrategy
  default : CacheStrategy

abbrev pub to_duration : CacheStrategy → Duration
to_duration real_time = from_secs 10
to_duration short_term = from_mins 5
to_duration default = from_mins 5
to_duration medium_term = from_hours 1
to_duration long_term = from_hours 3
to_duration (custom duration) = duration

pub record TierStats : Type 0 where
  pub tier_level : ℕ
  pub hits : ℕ
  pub backend_name : String

abbrev pub new_stats : ℕ → String → TierStats
new_stats level name = record { tier_level = level; hits = 0; backend_name = name }

-- A tier owns its backend: no two tiers of a manager share one.
pub record CacheTier (F S : Type 0) : Type 0 where
  pub backend : S
  pub tier_level : ℕ
  pub promotion_enabled : Bool
  pub promotion_frequency : ℕ
  pub ttl_scale : F
  pub stats : TierStats

pub record TierConfig (F : Type 0) : Type 0 where
  pub tier_level : ℕ
  pub promotion_enabled : Bool
  pub promotion_frequency : ℕ
  pub ttl_scale : F

module _ {F S : Type 0} ⦃b : L2CacheBackend S⦄ where
  abbrev pub new_tier : S → ℕ → Bool → ℕ → F → CacheTier F S
  new_tier s level promotion frequency scale = record {
    backend = s;
    tier_level = level;
    promotion_enabled = promotion;
    promotion_frequency = frequency;
    ttl_scale = scale;
    stats = new_stats level (b.name s);
  }

  abbrev pub get_with_ttl : CacheTier F S → Bytes → Option (Bytes × Option Duration) × CacheTier F S
  get_with_ttl t key = let r = b.get_with_ttl t.backend key in (r.0, record t { backend = r.1 })

  abbrev pub remove : CacheTier F S → Bytes → CacheResult (Unit {0}) × CacheTier F S
  remove t key = let r = b.remove t.backend key in (r.0, record t { backend = r.1 })

abbrev pub set_with_ttl :
    {F S : Type 0} ⦃f : Float F⦄ ⦃b : L2CacheBackend S⦄
    → CacheTier F S
    → Bytes
    → Bytes
    → Duration
    → CacheResult (Unit {0}) × CacheTier F S
set_with_ttl ⦃f⦄ ⦃b⦄ t key value ttl =
    let scaled_ttl = f.from_secs_f64 (f.mul (f.as_secs_f64 ttl) t.ttl_scale) in
    let r = b.set_with_ttl t.backend key value scaled_ttl in (r.0, record t { backend = r.1 })

abbrev pub record_hit : {F S : Type 0} → CacheTier F S → CacheTier F S
record_hit t = record t { stats = record (t.stats) { hits = u64_add t.stats.hits 1 } }

module _ {F : Type 0} ⦃f : Float F⦄ where
  abbrev pub new_config : ℕ → TierConfig F
  new_config level = record {
    tier_level = level;
    promotion_enabled = true;
    promotion_frequency = 10;
    ttl_scale = f.of_u64 1;
  }

  abbrev pub as_l1 : TierConfig F
  as_l1 = record {
    tier_level = 1;
    promotion_enabled = false;
    promotion_frequency = 1;
    ttl_scale = f.of_u64 1;
  }

  abbrev pub as_l2 : TierConfig F
  as_l2 = record {
    tier_level = 2;
    promotion_enabled = true;
    promotion_frequency = 10;
    ttl_scale = f.of_u64 1;
  }

  abbrev pub as_l3 : TierConfig F
  as_l3 = record {
    tier_level = 3;
    promotion_enabled = true;
    promotion_frequency = 10;
    ttl_scale = f.of_u64 2;
  }

  abbrev pub as_l4 : TierConfig F
  as_l4 = record {
    tier_level = 4;
    promotion_enabled = true;
    promotion_frequency = 10;
    ttl_scale = f.of_u64 8;
  }

module _ {F : Type 0} where
  abbrev pub with_promotion : TierConfig F → Bool → TierConfig F
  with_promotion c enabled = record c { promotion_enabled = enabled }

  abbrev pub with_promotion_frequency : TierConfig F → ℕ → TierConfig F
  with_promotion_frequency c n = record c { promotion_frequency = n }

  abbrev pub with_ttl_scale : TierConfig F → F → TierConfig F
  with_ttl_scale c scale = record c { ttl_scale = scale }

  abbrev pub with_level : TierConfig F → ℕ → TierConfig F
  with_level c level = record c { tier_level = level }

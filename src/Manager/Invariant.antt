-- ===== src/Manager/Invariant.antt =====
-- src/cache_manager.rs: the counters of a manager stay below 2^64, and no key stays in flight.
pub mod Reads
pub mod Writes
pub mod Step
pub mod Run
use multi_tier_cache.Base.{ℕ, ◌^◌, ◌<◌, ◌≡◌, refl, ◌∙◌, arith}
use multi_tier_cache.Invalidation.Stats.{InvalidationStats}
use multi_tier_cache.Manager.{Counters, CacheManager}

-- The width of an atomic counter.
abbrev pub width : ℕ
width = 2 ^ 64

abbrev pub IsBounded : Counters → Type 0
IsBounded c =
    (c.total_requests < width)
    × (c.l1_hits < width)
    × (c.l2_hits < width)
    × (c.misses < width)
    × (c.promotions < width)

-- What an operation does to the counters and to the keys in flight.
abbrev pub Calm : {F S T C : Type 0} → CacheManager F S T C → CacheManager F S T C → Type 0
Calm m m' =
    (m'.in_flight_requests ≡ m.in_flight_requests) × (IsBounded m.counters → IsBounded m'.counters)

pub Calm-trans : {F S T C : Type 0} (m n k : CacheManager F S T C) → Calm m n → Calm n k → Calm m k
Calm-trans m n k p q = (q.0 ∙ p.0, λ b. q.1 (p.1 b))

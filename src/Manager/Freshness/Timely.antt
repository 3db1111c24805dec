-- ===== src/Manager/Freshness/Timely.antt =====
-- src/cache_manager.rs: what the tiers hold is due, and every call of a backend keeps it so.
use multi_tier_cache.Base.{
  ℕ, ◌+◌, ◌≤◌, ◌≡◌, refl, ap, subst, Option, some, List, [], ◌∷◌, All, Bytes, CacheResult, ok, err,
  inl, inr, arith,
}
use mathlib.Core.Option.{get_or}
use multi_tier_cache.Time.{Duration, Float}
use multi_tier_cache.Traits.{L2CacheBackend}
use multi_tier_cache.Manager.Tier.{CacheTier, CacheStrategy, to_duration, default}
use multi_tier_cache.Manager.Freshness.{Ages, Holds}
use multi_tier_cache.Manager.Freshness.Age.{Offer, Due, Due-earlier, IsTimed, offered, Clocked}

module _ {S : Type 0} (holds_at : ℕ → S → Bytes → Option Bytes) (now : ℕ) (log : List Offer) where
  -- What a backend holds, now or later, is due at that time.
  abbrev pub Timely : S → Type 0
  Timely s =
      (later : ℕ) (j w : Bytes) → now ≤ later → holds_at later s j ≡ some w → Due later j w log

-- The writes that the log allows.
abbrev pub Allowed : ℕ → List Offer → Bytes → Bytes → Duration → Type 0
Allowed now log key value ttl = Due (now + ttl) key value log

module _ {S : Type 0} (clock : ℕ → L2CacheBackend S) (holds_at : ℕ → S → Bytes → Option Bytes)
    (timed : IsTimed clock holds_at) (now : ℕ) (log : List Offer) where
  write-Timely :
      (s : S) (k v : Bytes) (ttl ttl' : Duration)
      → Allowed now log k v ttl
      → ttl' ≤ ttl
      → Timely holds_at now log s
      → Timely holds_at now log ((clock now).set_with_ttl s k v ttl').1
  write-Timely s k v ttl ttl' q less h later j w after e =
      elim (timed.writes now later s k j v w ttl' after e) [
        | inl old ↦ h later j w after old
        | inr (same, equal, soon) ↦
            subst (λ i. Due later i w log) same
              (subst (λ u. Due later k u log) equal
                (Due-earlier later (now + ttl) k v log (omega (arith, soon, less)) q))
      ]

  pub Timely-Ages : Ages (clock now) (Timely holds_at now log) (Allowed now log)
  Timely-Ages = record {
    reads = λ s k h later j w after e. h later j w after (timed.reads now later s k j w after e);
    permits = λ s k v ttl h e.
        h (now + get_or ttl (to_duration default)) k v (omega arith)
          (timed.reports now s k v ttl e);
    writes = write-Timely;
    removes =
        λ s k h later j w after e. h later j w after (timed.removes now later s k j w after e);
    clears = λ s pattern h later j w after e.
        h later j w after (timed.clears now later s pattern j w after e);
  }

module _ (now : ℕ) (key : Bytes) (strategy : CacheStrategy) (log : List Offer) where
  pub offered-Due :
      (answer : CacheResult Bytes) (at : ℕ) (j w : Bytes)
      → Due at j w log
      → Due at j w (offered now key answer strategy log)
  offered-Due (ok value) at j w d = inr d
  offered-Due (err e) at j w d = d

  pub offered-Allowed :
      (answer : CacheResult Bytes) (value : Bytes)
      → answer ≡ ok value
      → Allowed now (offered now key answer strategy log) key value (to_duration strategy)
  offered-Allowed (ok v) value e = inl (refl, ap (λ r. value_or r) e, omega arith)
    where
      value_or : CacheResult Bytes → Bytes
      value_or (ok x) = x
      value_or (err d) = value
  offered-Allowed (err d) value e = absurd (ground arith)

module _ {F S : Type 0} ⦃f : Float F⦄ (holds_at : ℕ → S → Bytes → Option Bytes) (now later : ℕ)
    (log log' : List Offer) where
  pub Holds-later :
      (tiers : List (CacheTier F S))
      → now ≤ later
      → ((at : ℕ) (j w : Bytes) → Due at j w log → Due at j w log')
      → All (Holds (Timely holds_at now log)) tiers
      → All (Holds (Timely holds_at later log')) tiers
  Holds-later [] after more h = tt
  Holds-later (t ∷ tiers) after more h = (
    (λ at j w b e. more at j w (h.0.0 at j w (omega arith) e), h.0.1),
    Holds-later tiers after more h.1,
  )

-- No request is in flight, no tier makes a time longer, and what the tiers hold is due.
abbrev pub IsTimely :
    {F S T C : Type 0} ⦃f : Float F⦄ → (ℕ → S → Bytes → Option Bytes) → Clocked F S T C → Type 0
IsTimely holds_at c =
    (c.manager.in_flight_requests ≡ []) × All (Holds (Timely holds_at c.now c.log)) c.manager.tiers

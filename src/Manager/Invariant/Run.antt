-- ===== src/Manager/Invariant/Run.antt =====
-- src/cache_manager.rs: what holds of a manager after any operations, whatever its backends, the
-- network and the closures of its callers do.
use multi_tier_cache.Base.{
  ℕ, ◌<◌, ◌≡◌, refl, sym, ◌∙◌, subst, Bool, Option, List, [], ◌∷◌, map, arith,
}
use multi_tier_cache.Time.{Float}
use multi_tier_cache.Traits.{L2CacheBackend}
use multi_tier_cache.Invalidation.Message.{SerdeJson}
use multi_tier_cache.Invalidation.Publisher.{RedisConn, InvalidationPublisher}
use multi_tier_cache.Manager.Tier.{CacheTier}
use multi_tier_cache.Manager.{CacheManager}
use multi_tier_cache.Manager.Fetch.Hit.{settings}
use multi_tier_cache.Manager.Construct.{fresh}
use multi_tier_cache.Manager.Construct.Sorted.{Ascending}
use multi_tier_cache.Manager.Compute.{Session}
use multi_tier_cache.Manager.Abstract.Run.{Call, step, run}
use multi_tier_cache.Manager.Invariant.Step.{step-Keeps}
use multi_tier_cache.Manager.Invariant.{IsBounded}

-- The levels of tiers rise if those of tiers with the same settings do.
abbrev Rises : List ℕ → Type 0
Rises [] = Unit
Rises (n ∷ []) = Unit
Rises (n ∷ k ∷ levels) = (n < k) × Rises (k ∷ levels)

abbrev level_in : {F : Type 0} → ℕ × Bool × ℕ × F → ℕ
level_in s = s.0

module _ {F S : Type 0} where
  Rises-of_Ascending :
      (tiers : List (CacheTier F S)) → Ascending tiers → Rises (map level_in (map settings tiers))
  Rises-of_Ascending [] h = tt
  Rises-of_Ascending (t ∷ []) h = tt
  Rises-of_Ascending (t ∷ u ∷ tiers) h = (h.0, Rises-of_Ascending (u ∷ tiers) h.1)

  Ascending-of_Rises :
      (tiers : List (CacheTier F S)) → Rises (map level_in (map settings tiers)) → Ascending tiers
  Ascending-of_Rises [] h = tt
  Ascending-of_Rises (t ∷ []) h = tt
  Ascending-of_Rises (t ∷ u ∷ tiers) h = (h.0, Ascending-of_Rises (u ∷ tiers) h.1)

-- The tiers are the given ones, but for what they hold and the hits counted, with rising levels; no
-- key is in flight; and every counter fits its 64 bits.
pub record IsSound {F S T C : Type 0} (tiers : List (CacheTier F S)) (m : CacheManager F S T C)
    : Type 0 where
  pub kept : map settings m.tiers ≡ map settings tiers
  pub rising : Ascending m.tiers
  pub idle : m.in_flight_requests ≡ []
  pub bounded : IsBounded m.counters

module _ {F S T C W : Type 0} ⦃f : Float F⦄ ⦃b : L2CacheBackend S⦄ ⦃redis : RedisConn C⦄
    ⦃json : SerdeJson⦄ where
  step-IsSound :
      (tiers : List (CacheTier F S)) (s : Session F S T C W) (c : Call W)
      → IsSound tiers s.manager
      → IsSound tiers (step s c).1.manager
  step-IsSound tiers s c h =
      let k = step-Keeps s c in
      record {
        kept = k.0 ∙ h.kept;
        rising = Ascending-of_Rises (step s c).1.manager.tiers (
            subst (λ l. Rises (map level_in l)) (sym k.0)
              (Rises-of_Ascending s.manager.tiers h.rising));
        idle = k.1.0 ∙ h.idle;
        bounded = k.1.1 h.bounded;
      }

  run-IsSound :
      (tiers : List (CacheTier F S)) (calls : List (Call W)) (s : Session F S T C W)
      → IsSound tiers s.manager
      → IsSound tiers (run s calls).1.manager
  unfolding run
  run-IsSound tiers [] s h = h
  run-IsSound tiers (c ∷ calls) s h =
      run-IsSound tiers calls (step s c).1 (step-IsSound tiers s c h)

  -- A manager that was built on tiers of rising levels is sound after any sequence of reads,
  -- writes, computations, invalidations by key or by pattern, updates, broadcast writes, received
  -- messages and changes of the serializer, each run to its end, whatever its backends, the
  -- connection, the closures and the other tasks answer, errors included: it has the tiers it was
  -- built on, in their order and with their settings, no key is left in flight, and each of its
  -- five counters is below 2^64.
  pub fresh-IsSound :
      (tiers : List (CacheTier F S)) (streaming : Option T)
      (publisher : Option (InvalidationPublisher C)) (world : W) (calls : List (Call W))
      → Ascending tiers
      → IsSound tiers
          (run
            (record { manager = fresh tiers streaming publisher; world = world })
            calls).1.manager
  fresh-IsSound tiers streaming publisher world calls rising =
      run-IsSound tiers calls (record { manager = fresh tiers streaming publisher; world = world })
        (record {
          kept = refl;
          rising = rising;
          idle = refl;
          bounded = (omega arith, omega arith, omega arith, omega arith, omega arith);
        })

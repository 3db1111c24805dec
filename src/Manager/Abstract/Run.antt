-- ===== src/Manager/Abstract/Run.antt =====
-- A history of calls and of received messages, on the manager and on one ideal map that never
-- forgets.
use multi_tier_cache.Base.{
  ℕ, Bool, Option, none, some, List, [], ◌∷◌, Bytes, CacheResult, ok, bytes_eq, if◌then◌else◌,
}
use multi_tier_cache.Time.{Duration, Float}
use multi_tier_cache.Traits.{L2CacheBackend}
use multi_tier_cache.Serialization.{CacheSerializer}
use multi_tier_cache.Invalidation.Message.{SerdeJson, InvalidationMessage, remove_pattern}
use multi_tier_cache.Invalidation.Publisher.{RedisConn}
use multi_tier_cache.Manager.Tier.{CacheStrategy}
use multi_tier_cache.Manager.Get.{get}
use multi_tier_cache.Manager.Set.{set_with_strategy}
use multi_tier_cache.Manager.Compute.{Session, get_or_compute_with}
use multi_tier_cache.Manager.Invalidate.{
  invalidate, update_cache, invalidate_pattern, set_with_broadcast,
}
use multi_tier_cache.Manager.Receive.{apply_to_tiers}
use multi_tier_cache.Manager.Receive.Effect.{effect}
use multi_tier_cache.Manager.Report.{set_serializer}
use multi_tier_cache.Manager.Abstract.Compute.{learned}

pub data Call (W : Type 0) : Type 0 where
  gets : (key : Bytes) (draw : ℕ → Bool) (heard : Option (CacheResult (Option Bytes))) → Call W
  sets : (key value : Bytes) (strategy : CacheStrategy) → Call W
  computes :
      (key : Bytes) (strategy : CacheStrategy) (compute : W → CacheResult Bytes × W)
      (draw : ℕ → Bool) (heard : Option (CacheResult (Option Bytes)))
      → Call W
  invalidates : (now : ℕ) (key : Bytes) → Call W
  updates : (now : ℕ) (key value : Bytes) (ttl : Option Duration) → Call W
  broadcasts : (now : ℕ) (key value : Bytes) (strategy : CacheStrategy) → Call W
  clears : (now : ℕ) (pattern : Bytes) → Call W
  receives : InvalidationMessage → Call W
  serializes : CacheSerializer → Call W

-- What a caller is told. The answer of the calls that broadcast depends on the network, and is left
-- out.
pub data Reply : Type 0 where
  found_value : CacheResult (Option Bytes) → Reply
  stored : CacheResult (Unit {0}) → Reply
  computed : CacheResult Bytes → Reply
  silent : Reply

module _ {F S T C W : Type 0} ⦃f : Float F⦄ ⦃b : L2CacheBackend S⦄ ⦃redis : RedisConn C⦄
    ⦃json : SerdeJson⦄ where
  unfoldable pub step : Session F S T C W → Call W → Reply × Session F S T C W
  step s (gets key draw heard) =
      let r = get s.manager key draw heard in (found_value r.0, record s { manager = r.1 })
  step s (sets key value strategy) =
      let r = set_with_strategy s.manager key value strategy in
      (stored r.0, record s { manager = r.1 })
  step s (computes key strategy compute draw heard) =
      let r = get_or_compute_with compute s key strategy draw heard in (computed r.0, r.1)
  step s (invalidates now key) = (silent, record s { manager = (invalidate now s.manager key).1 })
  step s (updates now key value ttl) =
      (silent, record s { manager = (update_cache now s.manager key value ttl).1 })
  step s (broadcasts now key value strategy) =
      (silent, record s { manager = (set_with_broadcast now s.manager key value strategy).1 })
  step s (clears now pattern) =
      (silent, record s { manager = (invalidate_pattern now s.manager pattern).1 })
  step s (receives msg) = (
    silent,
    record s { manager = record (s.manager) { tiers = apply_to_tiers msg s.manager.tiers } },
  )
  step s (serializes serializer) =
      (silent, record s { manager = set_serializer s.manager serializer })

  unfoldable pub run : Session F S T C W → List (Call W) → List Reply × Session F S T C W
  unfolding step
  run s [] = ([], s)
  run s (c ∷ calls) = let r = step s c in let rest = run r.1 calls in (r.0 ∷ rest.0, rest.1)

-- The ideal: a map, and the world that the closures run in.
pub record Ideal (W : Type 0) : Type 0 where
  pub content : Bytes → Option Bytes
  pub world : W

abbrev pub insert : Bytes → Bytes → (Bytes → Option Bytes) → Bytes → Option Bytes
insert key value content j = if bytes_eq key j then some value else content j

abbrev pub delete : Bytes → (Bytes → Option Bytes) → Bytes → Option Bytes
delete key content j = if bytes_eq key j then none else content j

module _ {W : Type 0} where
  unfoldable pub ideal_step : Ideal W → Call W → Reply × Ideal W
  ideal_step a (gets key draw heard) = (found_value (ok (a.content key)), a)
  ideal_step a (sets key value strategy) =
      (stored (ok tt), record a { content = insert key value a.content })
  ideal_step a (computes key strategy compute draw heard) = elim (a.content key) [
    | some value ↦ (computed (ok value), a)
    | none ↦
        let r = compute a.world in
        (computed r.0, record { content = learned key r.0 a.content; world = r.1 })
  ]
  ideal_step a (invalidates now key) = (silent, record a { content = delete key a.content })
  ideal_step a (updates now key value ttl) =
      (silent, record a { content = insert key value a.content })
  ideal_step a (broadcasts now key value strategy) =
      (silent, record a { content = insert key value a.content })
  ideal_step a (clears now pattern) =
      (silent, record a { content = effect (remove_pattern pattern) a.content })
  ideal_step a (receives msg) = (silent, record a { content = effect msg a.content })
  ideal_step a (serializes serializer) = (silent, a)

  unfoldable pub ideal_run : Ideal W → List (Call W) → List Reply × Ideal W
  unfolding ideal_step
  ideal_run a [] = ([], a)
  ideal_run a (c ∷ calls) =
      let r = ideal_step a c in let rest = ideal_run r.1 calls in (r.0 ∷ rest.0, rest.1)

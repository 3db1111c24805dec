-- ===== src/Manager/Abstract/Refinement.antt =====
-- src/cache_manager.rs: the manager refines the ideal map, call by call.
use multi_tier_cache.Base.{All, ◌≡◌, refl, Option, List, [], ◌∷◌, Bytes}
use multi_tier_cache.Time.{Float}
use multi_tier_cache.Traits.{L2CacheBackend}
use multi_tier_cache.Traits.Laws.{IsLawful, ClearsPatterns}
use multi_tier_cache.Invalidation.Message.{SerdeJson}
use multi_tier_cache.Invalidation.Publisher.{RedisConn}
use multi_tier_cache.Manager.Compute.{Session}
use multi_tier_cache.Manager.Invalidate.Pattern.{AcceptsPatterns}
use multi_tier_cache.Manager.Abstract.{IsReliable}
use multi_tier_cache.Manager.Abstract.Agreement.{
  Matches, Agrees, gets-Agrees, sets-Agrees, computes-Agrees,
}
use multi_tier_cache.Manager.Abstract.Changes.{
  invalidates-Agrees, updates-Agrees, broadcasts-Agrees, clears-Agrees, receives-Agrees,
  serializes-Agrees,
}
use multi_tier_cache.Manager.Abstract.Run.{
  broadcasts, clears, receives, serializes, Call, gets, sets, computes, invalidates, updates, step,
  run, Ideal, ideal_step, ideal_run,
}

-- What a call asks of the backends beyond reads, writes and removals: that they clear what a
-- pattern matches, where the call can come to that.
abbrev pub Supports :
    {S W : Type 0} → L2CacheBackend S → (S → Bytes → Option Bytes) → Call W → Type 0
Supports b holds (clears now pattern) = ClearsPatterns b holds × AcceptsPatterns b
Supports b holds (receives msg) = ClearsPatterns b holds
Supports b holds c = Unit

module _ {F S T C W : Type 0} ⦃f : Float F⦄ ⦃b : L2CacheBackend S⦄ ⦃redis : RedisConn C⦄
    ⦃json : SerdeJson⦄ (holds : S → Bytes → Option Bytes) (lawful : IsLawful b holds)
    (reliable : IsReliable b) where
  step-Agrees :
      {s : Session F S T C W} {a : Ideal W}
      → Matches holds lawful reliable s a
      → (c : Call W) → Supports b holds c
      → Agrees holds lawful reliable (step s c) (ideal_step a c)
  step-Agrees h (gets key draw heard) u = gets-Agrees holds lawful reliable h key draw heard
  step-Agrees h (sets key value strategy) u = sets-Agrees holds lawful reliable h key value strategy
  step-Agrees h (computes key strategy compute draw heard) u =
      computes-Agrees holds lawful reliable h key strategy compute draw heard
  step-Agrees h (invalidates now key) u = invalidates-Agrees holds lawful reliable h now key
  step-Agrees h (updates now key value ttl) u =
      updates-Agrees holds lawful reliable h now key value ttl
  step-Agrees h (broadcasts now key value strategy) u =
      broadcasts-Agrees holds lawful reliable h now key value strategy
  step-Agrees h (clears now pattern) u = clears-Agrees holds lawful reliable h u.0 u.1 now pattern
  step-Agrees h (receives msg) u = receives-Agrees holds lawful reliable h u msg
  step-Agrees h (serializes serializer) u = serializes-Agrees holds lawful reliable h serializer

  -- Take backends that are lawful and never refuse a write or a removal, and a manager with at
  -- least one tier and no request in flight that shows what an ideal map holds. Then over any
  -- history of calls of `get`, `set_with_strategy`, `get_or_compute_with`, `invalidate`,
  -- `update_cache`, `set_with_broadcast` and `invalidate_pattern`, of messages that the handler of
  -- its subscriber applies, and of changes of the serializer, one after another, the manager
  -- answers as the ideal map does: the same results of the first three in the same order (those of
  -- the others are left aside), the caller's computations run exactly where the map runs them, and
  -- at the end the same values visible under every key, with no request in flight. A history that
  -- has a call of `invalidate_pattern` or a message asks that `set` is a write for the default
  -- time and that `remove_pattern` clears the matching keys and no other; the call also asks that
  -- no `remove_pattern` fails.
  pub run-Matches :
      (calls : List (Call W)) (s : Session F S T C W) (a : Ideal W)
      → All (Supports b holds) calls
      → Matches holds lawful reliable s a
      → ((run s calls).0 ≡ (ideal_run a calls).0)
        × Matches holds lawful reliable (run s calls).1 (ideal_run a calls).1
  unfolding run ideal_run
  run-Matches [] s a u h = (refl, h)
  run-Matches (c ∷ calls) s a u h =
      let now = step-Agrees h c u.0 in
      let later = run-Matches calls (step s c).1 (ideal_step a c).1 u.1 now.1 in
      (rw (now.0, later.0), later.1)

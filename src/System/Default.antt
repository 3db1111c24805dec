-- ===== src/System/Default.antt =====
-- src/lib.rs and src/cache_manager.rs: the default system as a whole, a manager over a first cache
-- and a second, such as Moka and Redis.
use multi_tier_cache.Base.{All, ◌≡◌, refl, ap, Option, none, some, List, Bytes, ok}
use multi_tier_cache.Time.{Float}
use multi_tier_cache.Traits.{L2CacheBackend}
use multi_tier_cache.Traits.Laws.{IsLawful}
use multi_tier_cache.Traits.Dyn.{Dyn, first, second, either}
use multi_tier_cache.Traits.Dyn.Laws.{either_holds, either-IsLawful, either-IsReliable}
use multi_tier_cache.Invalidation.Message.{SerdeJson}
use multi_tier_cache.Invalidation.Publisher.{RedisConn}
use multi_tier_cache.Manager.{CacheManager}
use multi_tier_cache.Manager.Construct.{fresh, two_tiers, new}
use multi_tier_cache.Manager.Compute.{Session}
use multi_tier_cache.Manager.Abstract.{IsReliable, or_else, visible}
use multi_tier_cache.Manager.Abstract.Run.{Call, run, Ideal, ideal_run}
use multi_tier_cache.Manager.Abstract.Refinement.{Supports, run-Matches}

or_else-none : (o : Option Bytes) → or_else o none ≡ o
or_else-none none = refl
or_else-none (some v) = refl

module _ {F A B T C : Type 0} ⦃f : Float F⦄ (a : L2CacheBackend A) (b : L2CacheBackend B) where
  -- The manager that `CacheManager::new` builds of the two caches.
  abbrev pub manager_of : A → B → T → CacheManager F (Dyn A B) T C
  manager_of l1 l2 streams =
      let instance both = either a b in fresh (two_tiers (first l1) (second l2)) (some streams) none

-- What the first cache holds, and under the other keys what the second holds.
abbrev pub layered :
    {A B W : Type 0} → (A → Bytes → Option Bytes) → (B → Bytes → Option Bytes) → A → B → W → Ideal W
layered ha hb l1 l2 world = record { content = λ j. or_else (ha l1 j) (hb l2 j); world = world }

module _ {F A B T C W : Type 0} ⦃f : Float F⦄ ⦃conn : RedisConn C⦄ ⦃json : SerdeJson⦄
    (a : L2CacheBackend A) (b : L2CacheBackend B) (ha : A → Bytes → Option Bytes)
    (hb : B → Bytes → Option Bytes) where
  -- Take two caches that are lawful and never refuse a write or a removal, whatever they hold. If
  -- its streams open, `CacheManager::new` builds a manager of them, and over any history of calls
  -- of `get`, `set_with_strategy`, `get_or_compute_with`, `invalidate`, `update_cache`,
  -- `set_with_broadcast` and `invalidate_pattern`, of messages received and of changes of the
  -- serializer, that manager answers as one map does that starts with what the first cache holds
  -- and, under every other key, with what the second holds: the same results of the first three,
  -- the computations run exactly where the map runs them, and the same values visible at the end.
  -- If the history has a call of `invalidate_pattern` or a message, the `set` of both caches is a
  -- write for the default time and their `remove_pattern` clears the matching keys and no other;
  -- for the call it also never fails.
  pub new-run :
      IsLawful a ha
      → IsReliable a
      → IsLawful b hb
      → IsReliable b
      → (l1 : A) (l2 : B) (streams : T) (world : W) (calls : List (Call W))
      → All (Supports (either a b) (either_holds ha hb)) calls
      → let m : CacheManager F (Dyn A B) T C = manager_of a b l1 l2 streams in
        let instance both = either a b in
        let ran = run (record { manager = m; world = world }) calls in
        let ideal = ideal_run (layered ha hb l1 l2 world) calls in
        (new a b l1 l2 (ok streams) ≡ ok m)
        × (ran.0 ≡ ideal.0)
        × ((j : Bytes) → visible (either_holds ha hb) ran.1.manager.tiers j ≡ ideal.1.content j)
        × (ran.1.world ≡ ideal.1.world)
  unfolding new either
  new-run la ra lb rb l1 l2 streams world calls supported =
      let instance both = either a b in
      let s : Session F (Dyn A B) T C W = record {
        manager = manager_of a b l1 l2 streams;
        world = world;
      } in
      let start = layered ha hb l1 l2 world in
      let r =
        run-Matches (either_holds ha hb) (either-IsLawful a b ha hb la lb)
          (either-IsReliable a b ra rb) calls s start supported
          (record {
            shown = λ j. ap (or_else (ha l1 j)) (or_else-none (hb l2 j));
            world = refl;
            quiet = refl;
            tiered = refl;
          }) in
      (refl, r.0, r.1.shown, r.1.world)

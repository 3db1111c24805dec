-- ===== src/Manager/Abstract/Changes.antt =====
-- src/cache_manager.rs: the calls that broadcast, and a message that has been received, do on a manager
-- what they do on a map.
use multi_tier_cache.Base.{ℕ, refl, ap, ◌∙◌, Option, none, some, Bytes, bytes_eq, if◌then◌else◌}
use mathlib.Core.Option.{get_or}
use multi_tier_cache.Serialization.{CacheSerializer}
use multi_tier_cache.Time.{Duration, Float}
use multi_tier_cache.Traits.{L2CacheBackend}
use multi_tier_cache.Traits.Laws.{IsLawful, ClearsPatterns}
use multi_tier_cache.Invalidation.Message.{
  InvalidationMessage, remove_pattern, SerdeJson, new_update,
}
use multi_tier_cache.Invalidation.Message
use multi_tier_cache.Invalidation.Publisher.{RedisConn}
use multi_tier_cache.Manager.Tier.{CacheStrategy, to_duration, default}
use multi_tier_cache.Manager.Compute.{Session}
use multi_tier_cache.Manager.Invalidate.{remove_tiers, update_tiers, invalidate, update_cache}
use multi_tier_cache.Manager.Invalidate.Pattern.{
  AcceptsPatterns, All-Accepts, invalidate_pattern-clears,
}
use multi_tier_cache.Manager.Receive.Effect.{effect-cong, apply_to_tiers-effect}
use multi_tier_cache.Manager.Report.{set_serializer}
use multi_tier_cache.Manager.Settings.Writes.{broadcast-keeps}
use multi_tier_cache.Manager.Abstract.{IsReliable, visible}
use multi_tier_cache.Manager.Abstract.Write.{
  visible-set_with_broadcast, visible-remove_tiers, visible-update_tiers,
}
use multi_tier_cache.Manager.Abstract.Agreement.{Matches, Agrees, step-Matches}
use multi_tier_cache.Manager.Abstract.Run.{
  broadcasts, clears, receives, serializes, Call, invalidates, updates, step, Ideal, ideal_step,
}

module _ {F S T C W : Type 0} ⦃f : Float F⦄ ⦃b : L2CacheBackend S⦄ ⦃redis : RedisConn C⦄
    ⦃json : SerdeJson⦄ (holds : S → Bytes → Option Bytes) (lawful : IsLawful b holds)
    (reliable : IsReliable b) where
  module _ {s : Session F S T C W} {a : Ideal W} (h : Matches holds lawful reliable s a) where
    abbrev Follows : Call W → Type 0
    Follows c = Agrees holds lawful reliable (step s c) (ideal_step a c)

    pub invalidates-Agrees : (now : ℕ) (key : Bytes) → Follows (invalidates now key)
    unfolding step ideal_step invalidate
    invalidates-Agrees now key =
        let c = invalidates now key in
        let sent =
          broadcast-keeps now (record (s.manager) { tiers = remove_tiers key s.manager.tiers })
            (Message.remove key) in
        (
          refl,
          step-Matches holds lawful reliable h c (ideal_step a c).1
              (λ j.
                ap (λ l. visible holds l j) sent.0
                ∙ visible-remove_tiers holds lawful reliable key s.manager.tiers j
                ∙ ap (λ o. if bytes_eq key j then none else o) (h.shown j))
              h.world,
        )

    pub updates-Agrees :
        (now : ℕ) (key value : Bytes) (ttl : Option Duration) → Follows (updates now key value ttl)
    unfolding step ideal_step update_cache
    updates-Agrees now key value ttl =
        let c = updates now key value ttl in
        let ttl' = get_or ttl (to_duration default) in
        let sent =
          broadcast-keeps now
            (record (s.manager) { tiers = update_tiers key value ttl' s.manager.tiers })
            (new_update key value (some ttl')) in
        (
          refl,
          step-Matches holds lawful reliable h c (ideal_step a c).1
              (λ j.
                ap (λ l. visible holds l j) sent.0
                ∙ visible-update_tiers holds lawful reliable key value ttl' s.manager.tiers j
                ∙ rw h.tiered (ap (λ o. if bytes_eq key j then some value else o) (h.shown j)))
              h.world,
        )

    pub broadcasts-Agrees :
        (now : ℕ) (key value : Bytes) (strategy : CacheStrategy)
        → Follows (broadcasts now key value strategy)
    unfolding step ideal_step
    broadcasts-Agrees now key value strategy =
        let c = broadcasts now key value strategy in
        (
          refl,
          step-Matches holds lawful reliable h c (ideal_step a c).1
              (λ j.
                visible-set_with_broadcast holds lawful reliable now s.manager key value strategy j
                  h.tiered
                ∙ ap (λ o. if bytes_eq key j then some value else o) (h.shown j))
              h.world,
        )

    pub clears-Agrees :
        ClearsPatterns b holds
        → AcceptsPatterns b
        → (now : ℕ) (pattern : Bytes) → Follows (clears now pattern)
    unfolding step ideal_step
    clears-Agrees laws accepts now pattern =
        let c = clears now pattern in
        let msg = remove_pattern pattern in
        let cleared =
          invalidate_pattern-clears now s.manager pattern holds laws
            (All-Accepts accepts pattern s.manager.tiers) in
        (
          refl,
          step-Matches holds lawful reliable h c (ideal_step a c).1
              (λ j.
                cleared.1 j
                ∙ effect-cong msg (visible holds s.manager.tiers) a.content j (h.shown j))
              h.world,
        )

    pub receives-Agrees :
        ClearsPatterns b holds → (msg : InvalidationMessage) → Follows (receives msg)
    unfolding step ideal_step
    receives-Agrees laws msg =
        let c = receives msg in
        (
          refl,
          step-Matches holds lawful reliable h c (ideal_step a c).1
              (λ j.
                apply_to_tiers-effect holds lawful reliable laws msg s.manager.tiers j h.tiered
                ∙ effect-cong msg (visible holds s.manager.tiers) a.content j (h.shown j))
              h.world,
        )

    pub serializes-Agrees : (serializer : CacheSerializer) → Follows (serializes serializer)
    unfolding step ideal_step set_serializer
    serializes-Agrees serializer =
        (refl, step-Matches holds lawful reliable h (serializes serializer) a h.shown h.world)

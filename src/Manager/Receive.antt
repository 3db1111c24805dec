-- ===== src/Manager/Receive.antt =====
-- src/cache_manager.rs, `start_invalidation_subscriber`: what an instance does, in every tier, with
-- a message that another instance (or it itself) has published.
pub mod Effect
pub mod Sent
pub mod Convergence
use multi_tier_cache.Base.{Bool, none, some, List, [], ◌∷◌, Bytes, CacheResult, ok}
use multi_tier_cache.Time.{from_secs}
use multi_tier_cache.Traits.{L2CacheBackend}
use multi_tier_cache.Invalidation.Message.{
  InvalidationMessage, remove, update, remove_pattern, remove_bulk, SerdeJson,
}
use multi_tier_cache.Invalidation.Subscriber.{Round, Task, start}
use multi_tier_cache.Manager.Tier.{CacheTier}

module _ {S : Type 0} ⦃b : L2CacheBackend S⦄ where
  unfoldable pub remove_keys : List Bytes → S → S
  remove_keys [] s = s
  remove_keys (key ∷ keys) s = remove_keys keys (b.remove s key).1

  -- One message in one backend. The backend is called directly, so the tier's scale is not used.
  unfoldable pub apply_message : InvalidationMessage → S → S
  unfolding remove_keys
  apply_message (remove key) s = (b.remove s key).1
  apply_message (update key value (some secs)) s = (b.set_with_ttl s key value (from_secs secs)).1
  apply_message (update key value none) s = (b.set s key value).1
  apply_message (remove_pattern pattern) s = (b.remove_pattern s pattern).1
  apply_message (remove_bulk keys) s = remove_keys keys s

  module _ {F : Type 0} where
    unfoldable pub apply_to_tiers :
        InvalidationMessage → List (CacheTier F S) → List (CacheTier F S)
    unfolding apply_message
    apply_to_tiers msg [] = []
    apply_to_tiers msg (t ∷ tiers) =
        record t { backend = apply_message msg t.backend } ∷ apply_to_tiers msg tiers

    -- The handler of the subscriber: failures of the tiers are only logged.
    unfoldable pub tier_handler :
        List (CacheTier F S) → InvalidationMessage → CacheResult (Unit {0}) × List (CacheTier F S)
    unfolding apply_to_tiers
    tier_handler tiers msg = (ok tt, apply_to_tiers msg tiers)

    -- The task that a manager starts, over the tiers that it shares with the manager.
    unfoldable pub start_invalidation_subscriber :
        ⦃j : SerdeJson⦄
        → List Round
        → Task (List (CacheTier F S))
        → Bool × Task (List (CacheTier F S))
    unfolding tier_handler start
    start_invalidation_subscriber = start tier_handler

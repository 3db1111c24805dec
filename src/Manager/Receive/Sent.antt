-- ===== src/Manager/Receive/Sent.antt =====
-- src/cache_manager.rs: what the calls that change keys publish to the other instances.
use multi_tier_cache.Base.{
  CacheResult, CacheResult-cases, inl, inr, arith, ℕ, ◌≡◌, refl, sym, ◌∙◌, false, Option, some,
  List, [], ◌∷◌, Bytes, ok,
}
use mathlib.Core.Option.{get_or}
use multi_tier_cache.Time.{Duration, Float}
use multi_tier_cache.Traits.{L2CacheBackend}
use multi_tier_cache.Invalidation.Message.{
  InvalidationMessage, remove, remove_pattern, new_update, SerdeJson, IsWellFormed,
}
use multi_tier_cache.Invalidation.Publisher.{RedisConn, InvalidationPublisher, publish}
use multi_tier_cache.Invalidation.Publisher.Carried.{Carries, Puts, publish-Puts}
use multi_tier_cache.Invalidation.Hex.RoundTrip.{AreBytes}
use multi_tier_cache.Manager.Set.{set_with_strategy}
use multi_tier_cache.Manager.Tier.{CacheStrategy, to_duration, default}
use multi_tier_cache.Manager.{CacheManager}
use multi_tier_cache.Manager.Fetch.{is_empty}
use multi_tier_cache.Manager.Invalidate.{
  remove_tiers, update_tiers, remove_pattern_tiers, send, broadcast, invalidate, update_cache,
  set_with_broadcast, invalidate_pattern,
}
use multi_tier_cache.Manager.Settings.Writes.{
  invalidate-Keeps, update_cache-Keeps, set_with_broadcast-Keeps, invalidate_pattern-Keeps,
}
use multi_tier_cache.Manager.Abstract.Compute.{is_empty-settings}

-- A call of `invalidate`, `update_cache`, `set_with_broadcast` or `invalidate_pattern`.
pub data Change : Type 0 where
  invalidated : (key : Bytes) → Change
  updated : (key value : Bytes) (ttl : Option Duration) → Change
  written : (key value : Bytes) (strategy : CacheStrategy) → Change
  cleared : (pattern : Bytes) → Change

-- The message that is expected of each, and that `change-Publishes` shows it to publish.
abbrev pub message_of : Change → InvalidationMessage
message_of (invalidated key) = remove key
message_of (updated key value ttl) = new_update key value (some (get_or ttl (to_duration default)))
message_of (written key value strategy) = new_update key value (some (to_duration strategy))
message_of (cleared pattern) = remove_pattern pattern

-- A value that is written consists of bytes.
abbrev pub HasBytes : Change → Type 0
HasBytes (invalidated key) = Unit
HasBytes (updated key value ttl) = AreBytes value
HasBytes (written key value strategy) = AreBytes value
HasBytes (cleared pattern) = Unit

pub IsWellFormed-message_of : (c : Change) → HasBytes c → IsWellFormed (message_of c)
unfolding new_update
IsWellFormed-message_of (invalidated key) h = tt
IsWellFormed-message_of (updated key value ttl) h = h
IsWellFormed-message_of (written key value strategy) h = h
IsWellFormed-message_of (cleared pattern) h = tt

module _ {F S T C : Type 0} ⦃f : Float F⦄ ⦃b : L2CacheBackend S⦄ ⦃redis : RedisConn C⦄
    ⦃json : SerdeJson⦄ where
  unfoldable pub change :
      ℕ → CacheManager F S T C → Change → CacheResult (Unit {0}) × CacheManager F S T C
  change now m (invalidated key) = invalidate now m key
  change now m (updated key value ttl) = update_cache now m key value ttl
  change now m (written key value strategy) = set_with_broadcast now m key value strategy
  change now m (cleared pattern) = invalidate_pattern now m pattern

  unfoldable pub changes : ℕ → CacheManager F S T C → List Change → CacheManager F S T C
  unfolding change
  changes now m [] = m
  changes now m (c ∷ cs) = changes now (change now m c).1 cs

  -- Each of the calls returns `Ok`.
  abbrev pub Succeed : ℕ → CacheManager F S T C → List Change → Type 0
  Succeed now m [] = Unit
  Succeed now m (c ∷ cs) = ((change now m c).0 ≡ ok tt) × Succeed now (change now m c).1 cs

  pub change-is_empty :
      (now : ℕ) (m : CacheManager F S T C) (c : Change)
      → is_empty m.tiers ≡ false
      → is_empty (change now m c).1.tiers ≡ false
  unfolding change
  change-is_empty now m (invalidated key) h =
      is_empty-settings m.tiers _ (invalidate-Keeps now m key) h
  change-is_empty now m (updated key value ttl) h =
      is_empty-settings m.tiers _ (update_cache-Keeps now m key value ttl) h
  change-is_empty now m (written key value strategy) h =
      is_empty-settings m.tiers _ (set_with_broadcast-Keeps now m key value strategy) h
  change-is_empty now m (cleared pattern) h =
      is_empty-settings m.tiers _ (invalidate_pattern-Keeps now m pattern) h

module _ {F S T C : Type 0} ⦃redis : RedisConn C⦄ ⦃json : SerdeJson⦄
    (carried : C → List (Bytes × Bytes)) where
  -- The publisher of `m'` has put the message on the channel of `p`, after what was there.
  abbrev pub Publishes :
      InvalidationMessage → InvalidationPublisher C → CacheManager F S T C → Type 0
  Publishes msg p m' =
      (p' : InvalidationPublisher C) × (m'.invalidation_publisher ≡ some p') × Puts carried msg p p'

  module _ (laws : Carries redis carried) (now : ℕ) (m : CacheManager F S T C)
      (p : InvalidationPublisher C) (msg : InvalidationMessage)
      (there : m.invalidation_publisher ≡ some p) where
    broadcast-Publishes : (broadcast now m msg).0 ≡ ok tt → Publishes msg p (broadcast now m msg).1
    unfolding broadcast
    broadcast-Publishes good =
        let same : (broadcast now m msg).0 ≡ (publish now p msg).0 = rw (there, broadcast) refl in
        let put = publish-Puts carried laws now p msg (sym same ∙ good) in
        rw (there, broadcast) ((publish now p msg).1, refl, put)

    send-Publishes : (send now m msg).0 ≡ ok tt → Publishes msg p (send now m msg).1
    unfolding send
    send-Publishes good =
        let same : (send now m msg).0 ≡ (publish now p msg).0 = rw (there, send) refl in
        let put = publish-Puts carried laws now p msg (sym same ∙ good) in
        rw (there, send) ((publish now p msg).1, refl, put)

  module _ ⦃f : Float F⦄ ⦃b : L2CacheBackend S⦄ (laws : Carries redis carried) where
    -- A call that succeeds publishes the message that is expected of it.
    pub change-Publishes :
        (now : ℕ) (m : CacheManager F S T C) (p : InvalidationPublisher C) (c : Change)
        → m.invalidation_publisher ≡ some p
        → (change now m c).0 ≡ ok tt
        → Publishes (message_of c) p (change now m c).1
    unfolding change invalidate update_cache set_with_broadcast invalidate_pattern set_with_strategy
    change-Publishes now m p (invalidated key) there good =
        broadcast-Publishes laws now (record m { tiers = remove_tiers key m.tiers }) p (remove key)
          there good
    change-Publishes now m p (updated key value ttl) there good =
        let ttl' = get_or ttl (to_duration default) in
        broadcast-Publishes laws now (record m { tiers = update_tiers key value ttl' m.tiers }) p
          (new_update key value (some ttl')) there good
    change-Publishes now m p (written key value strategy) there good =
        let r = set_with_strategy m key value strategy in
        let msg = new_update key value (some (to_duration strategy)) in
        elim (CacheResult-cases r.0) [
          | inl (u, stored) ↦
              let same : (set_with_broadcast now m key value strategy).0
                  ≡ (broadcast now r.1 msg).0 =
                rw (stored, set_with_broadcast) refl in
              rw (stored, set_with_broadcast)
                (broadcast-Publishes laws now r.1 p msg there (sym same ∙ good))
          | inr (e, failed) ↦ absurd (ground arith)
        ]
    change-Publishes now m p (cleared pattern) there good =
        let r = remove_pattern_tiers pattern m.tiers in
        let m' = record m { tiers = r.1 } in
        let msg = remove_pattern pattern in
        elim (CacheResult-cases r.0) [
          | inl (u, done') ↦
              let same : (invalidate_pattern now m pattern).0 ≡ (send now m' msg).0 =
                rw (done', invalidate_pattern) refl in
              rw (done', invalidate_pattern)
                (send-Publishes laws now m' p msg there (sym same ∙ good))
          | inr (e, failed) ↦ absurd (ground arith)
        ]

-- ===== src/Manager/Receive/Effect.antt =====
-- src/cache_manager.rs, the handler of `start_invalidation_subscriber`: what a message changes of
-- what an instance shows.
use multi_tier_cache.Base.{
  ◌≡◌, refl, ap, ap₂, ◌∙◌, false, Option, none, some, List, [], ◌∷◌, arith, Bytes, bytes_eq,
  if◌then◌else◌,
}
use multi_tier_cache.Time.{from_secs, from_mins}
use multi_tier_cache.Traits.{L2CacheBackend}
use multi_tier_cache.Traits.Laws.{IsLawful, ClearsPatterns}
use multi_tier_cache.Backends.Pattern.{matches_pattern}
use multi_tier_cache.Invalidation.Message.{
  InvalidationMessage, remove, update, remove_pattern, remove_bulk,
}
use multi_tier_cache.Manager.Tier.{CacheTier}
use multi_tier_cache.Manager.Fetch.{is_empty}
use multi_tier_cache.Manager.Get.{contains_key}
use multi_tier_cache.Manager.Receive.{remove_keys, apply_message, apply_to_tiers}
use multi_tier_cache.Manager.Abstract.{IsReliable, or_else, visible}

-- A map after a message.
abbrev pub effect : InvalidationMessage → (Bytes → Option Bytes) → Bytes → Option Bytes
effect (remove key) before j = if bytes_eq key j then none else before j
effect (update key value ttl_secs) before j = if bytes_eq key j then some value else before j
effect (remove_pattern pattern) before j = if matches_pattern j pattern then none else before j
effect (remove_bulk keys) before j = if contains_key keys j then none else before j

pub effect-cong :
    (msg : InvalidationMessage) (before before' : Bytes → Option Bytes) (j : Bytes)
    → before j ≡ before' j
    → effect msg before j ≡ effect msg before' j
effect-cong (remove key) before before' j e = rw e refl
effect-cong (update key value ttl_secs) before before' j e = rw e refl
effect-cong (remove_pattern pattern) before before' j e = rw e refl
effect-cong (remove_bulk keys) before before' j e = rw e refl

effect-or_else :
    (msg : InvalidationMessage) (o p : Bytes → Option Bytes) (j : Bytes)
    → or_else (effect msg o j) (effect msg p j) ≡ effect msg (λ k. or_else (o k) (p k)) j
effect-or_else (remove key) o p j = ground arith
effect-or_else (update key value ttl_secs) o p j = ground arith
effect-or_else (remove_pattern pattern) o p j = ground arith
effect-or_else (remove_bulk keys) o p j = ground arith

effect-or_none :
    (msg : InvalidationMessage) (o : Bytes → Option Bytes) (j : Bytes)
    → or_else (effect msg o j) none ≡ effect msg (λ k. or_else (o k) none) j
effect-or_none (remove key) o j = ground arith
effect-or_none (update key value ttl_secs) o j = ground arith
effect-or_none (remove_pattern pattern) o j = ground arith
effect-or_none (remove_bulk keys) o j = ground arith

module _ {S : Type 0} ⦃b : L2CacheBackend S⦄ (holds : S → Bytes → Option Bytes)
    (lawful : IsLawful b holds) (reliable : IsReliable b) (clears : ClearsPatterns b holds) where
  remove_keys-holds :
      (keys : List Bytes) (s : S) (j : Bytes)
      → holds (remove_keys keys s) j ≡ (if contains_key keys j then none else holds s j)
  unfolding remove_keys contains_key
  remove_keys-holds [] s j = refl
  remove_keys-holds (key ∷ keys) s j =
      rw
        (remove_keys-holds keys (b.remove s key).1 j, lawful.clear s key j (reliable.removes s key))
        (ground arith)

  apply_message-holds :
      (msg : InvalidationMessage) (s : S) (j : Bytes)
      → holds (apply_message msg s) j ≡ effect msg (holds s) j
  unfolding apply_message
  apply_message-holds (remove key) s j = lawful.clear s key j (reliable.removes s key)
  apply_message-holds (update key value (some secs)) s j =
      lawful.write s key value (from_secs secs) j (reliable.writes s key value (from_secs secs))
  apply_message-holds (update key value none) s j =
      rw (clears.sets s key value, apply_message)
        (lawful.write s key value (from_mins 5) j (reliable.writes s key value (from_mins 5)))
  apply_message-holds (remove_pattern pattern) s j = clears.clears s pattern j
  apply_message-holds (remove_bulk keys) s j = remove_keys-holds keys s j

  module _ {F : Type 0} where
    -- With backends that are lawful, refuse nothing and clear exactly the keys that match a
    -- pattern: a message that an instance with at least one tier applies to its tiers changes what
    -- it shows as the message says. A removed key, the keys of a list and those that match a
    -- pattern are gone, an updated key has the value of the message, and all else is as it was.
    pub apply_to_tiers-effect :
        (msg : InvalidationMessage) (tiers : List (CacheTier F S)) (j : Bytes)
        → is_empty tiers ≡ false
        → visible holds (apply_to_tiers msg tiers) j ≡ effect msg (visible holds tiers) j
    unfolding apply_to_tiers
    apply_to_tiers-effect msg [] j h = absurd (ground arith)
    apply_to_tiers-effect msg (t ∷ []) j h =
        ap (λ o. or_else o none) (apply_message-holds msg t.backend j)
        ∙ effect-or_none msg (holds t.backend) j
    apply_to_tiers-effect msg (t ∷ u ∷ tiers) j h =
        ap₂ or_else (apply_message-holds msg t.backend j)
          (apply_to_tiers-effect msg (u ∷ tiers) j refl)
        ∙ effect-or_else msg (holds t.backend) (visible holds (u ∷ tiers)) j

-- ===== src/Manager/Receive/Convergence.antt =====
-- src/cache_manager.rs and src/invalidation.rs: an instance that changes keys and publishes what it
-- does, and one that receives it.
use multi_tier_cache.Base.{
  ◌++◌, append-nil, append_assoc, ℕ, ◌≡◌, refl, sym, ap, ◌∙◌, false, Option, some, List, [], ◌∷◌,
  map, Bytes, ok, done, All,
}
use mathlib.Core.Option.{get_or}
use multi_tier_cache.Time.{Float}
use multi_tier_cache.Traits.{L2CacheBackend}
use multi_tier_cache.Traits.Laws.{IsLawful, ClearsPatterns}
use multi_tier_cache.Invalidation.Message.{
  InvalidationMessage, remove, new_update, SerdeJson, ReadsBack, from_json, from_json-to_json,
}
use multi_tier_cache.Invalidation.Publisher.{RedisConn, InvalidationPublisher, InvalidationConfig}
use multi_tier_cache.Invalidation.Publisher.Carried.{Carries}
use multi_tier_cache.Invalidation.Subscriber.{
  Event, message, Task, handled, receive, on_payload, event_loop,
}
use multi_tier_cache.Manager.Tier.{CacheTier, to_duration, default}
use multi_tier_cache.Manager.{CacheManager}
use multi_tier_cache.Manager.Fetch.{is_empty}
use multi_tier_cache.Manager.Invalidate.{remove_tiers, update_tiers, invalidate, update_cache}
use multi_tier_cache.Manager.Invalidate.Pattern.{
  AcceptsPatterns, All-Accepts, invalidate_pattern-clears,
}
use multi_tier_cache.Manager.Receive.{apply_to_tiers, tier_handler}
use multi_tier_cache.Manager.Receive.Sent.{
  Change, invalidated, updated, written, cleared, message_of, change, changes, Succeed, HasBytes,
  IsWellFormed-message_of, change-is_empty, change-Publishes,
}
use multi_tier_cache.Manager.Receive.Effect.{effect, effect-cong, apply_to_tiers-effect}
use multi_tier_cache.Manager.Settings.Writes.{broadcast-keeps}
use multi_tier_cache.Manager.Abstract.{IsReliable, visible}
use multi_tier_cache.Manager.Abstract.Write.{
  visible-set_with_broadcast, visible-remove_tiers, visible-update_tiers,
}

-- A text arrives.
abbrev pub arrives : Bytes → Event
arrives text = message (done text)

module _ {F S : Type 0} ⦃b : L2CacheBackend S⦄ ⦃json : SerdeJson⦄ where
  apply-is_empty :
      (msg : InvalidationMessage) (tiers : List (CacheTier F S))
      → is_empty (apply_to_tiers msg tiers) ≡ is_empty tiers
  unfolding apply_to_tiers
  apply-is_empty msg [] = refl
  apply-is_empty msg (t ∷ tiers) = refl

  on_payload-state :
      (text : Bytes) (msg : InvalidationMessage) (t : Task (List (CacheTier F S)))
      → from_json text ≡ ok msg
      → (on_payload tier_handler (done text) t).state ≡ apply_to_tiers msg t.state
  unfolding on_payload receive handled tier_handler
  on_payload-state text msg t e = rw (e, on_payload) refl

module _ {F S T C : Type 0} ⦃f : Float F⦄ ⦃b : L2CacheBackend S⦄ ⦃redis : RedisConn C⦄
    ⦃json : SerdeJson⦄ (holds : S → Bytes → Option Bytes) (lawful : IsLawful b holds)
    (reliable : IsReliable b) (clears : ClearsPatterns b holds) (accepts : AcceptsPatterns b) where
  change-effect :
      (now : ℕ) (m : CacheManager F S T C) (c : Change) (j : Bytes)
      → is_empty m.tiers ≡ false
      → visible holds (change now m c).1.tiers j ≡ effect (message_of c) (visible holds m.tiers) j
  unfolding change invalidate update_cache new_update
  change-effect now m (invalidated key) j h =
      ap (λ l. visible holds l j)
        (broadcast-keeps now (record m { tiers = remove_tiers key m.tiers }) (remove key)).0
      ∙ visible-remove_tiers holds lawful reliable key m.tiers j
  change-effect now m (updated key value ttl) j h =
      let ttl' = get_or ttl (to_duration default) in
      ap (λ l. visible holds l j)
        (broadcast-keeps now (record m { tiers = update_tiers key value ttl' m.tiers })
          (new_update key value (some ttl'))).0
      ∙ visible-update_tiers holds lawful reliable key value ttl' m.tiers j
      ∙ rw h refl
  change-effect now m (written key value strategy) j h =
      visible-set_with_broadcast holds lawful reliable now m key value strategy j h
  change-effect now m (cleared pattern) j h =
      (invalidate_pattern-clears now m pattern holds clears (All-Accepts accepts pattern m.tiers)).1
        j

  -- Let the backends be lawful, refuse nothing and clear exactly the keys that match a pattern; let
  -- `serde_json` read back what it writes, and the connection carry exactly what PUBLISH sends with
  -- success. Let an instance with a publisher make any calls of `invalidate`, `update_cache`,
  -- `set_with_broadcast` and `invalidate_pattern` that all return `Ok`, with values that consist of
  -- bytes. Then its connection has carried, after what it had carried before, a list of texts, all
  -- of them on the publisher's channel; and an instance that showed the same values as the first,
  -- and whose subscriber receives these texts in their order, in the end shows the same value as
  -- the first under every key. Each has at least one tier; the tiers may differ in number and in
  -- settings.
  pub event_loop-changes :
      ReadsBack json
      → (carried : C → List (Bytes × Bytes)) → Carries redis carried
      → (cs : List Change) (now : ℕ) (m : CacheManager F S T C) (p : InvalidationPublisher C)
        (t : Task (List (CacheTier F S)))
      → m.invalidation_publisher ≡ some p
      → Succeed now m cs
      → All HasBytes cs
      → is_empty m.tiers ≡ false
      → is_empty t.state ≡ false
      → ((j : Bytes) → visible holds t.state j ≡ visible holds m.tiers j)
      → let m' = changes now m cs in
        (p' : InvalidationPublisher C) × (m'.invalidation_publisher ≡ some p')
        × (texts : List Bytes) × (carried p'.connection
            ≡ carried p.connection ++ map (λ text. (p.config.channel, text)) texts)
        × ((j : Bytes)
            → visible holds (event_loop tier_handler (map arrives texts) t).1.state j
              ≡ visible holds m'.tiers j)
  unfolding event_loop changes
  event_loop-changes reads carried laws [] now m p t there good bytes hm ht same =
      (p, there, [], sym (append-nil (carried p.connection)), same)
  event_loop-changes reads carried laws (c ∷ cs) now m p t there good bytes hm ht same =
      let msg = message_of c in
      let (p1, there1, (text, json_text, config, put)) =
        change-Publishes carried laws now m p c there good.0 in
      let wf = IsWellFormed-message_of c bytes.0 in
      let e = on_payload-state text msg t (from_json-to_json msg text reads wf json_text) in
      let (p', there', texts, put', shown) =
        event_loop-changes reads carried laws cs now (change now m c).1 p1
          (on_payload tier_handler (done text) t) there1 good.1 bytes.1 (change-is_empty now m c hm)
          (ap is_empty e ∙ apply-is_empty msg t.state ∙ ht)
          (λ k.
            ap (λ l. visible holds l k) e
            ∙ apply_to_tiers-effect holds lawful reliable clears msg t.state k ht
            ∙ effect-cong msg (visible holds t.state) (visible holds m.tiers) k (same k)
            ∙ sym (change-effect now m c k hm)) in
      let later = map (λ x. (p.config.channel, x)) texts in
      (
        p',
        there',
        text ∷ texts,
        put'
            ∙ ap
                (λ (k : InvalidationConfig).
                  carried p1.connection ++ map (λ x. (k.channel, x)) texts)
                config
            ∙ ap (λ l. l ++ later) put
            ∙ append_assoc (carried p.connection) ((p.config.channel, text) ∷ []) later,
        shown,
      )

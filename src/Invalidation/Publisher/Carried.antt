-- ===== src/Invalidation/Publisher/Carried.antt =====
-- src/invalidation.rs, `InvalidationPublisher::publish`: what a publication that succeeds puts on the
-- channel.
use multi_tier_cache.Base.{
  ◌≡◌, ◌∙◌, ℕ, Bool-cases, List, [], ◌∷◌, ◌++◌, Bytes, Outcome-cases, done, ok, CacheResult-cases,
  inl, inr, arith,
}
use multi_tier_cache.Invalidation.Message.{InvalidationMessage, SerdeJson, to_json}
use multi_tier_cache.Invalidation.Publisher.{
  RedisConn, InvalidationPublisher, publish, publish_to_audit_stream,
}

-- What the connection has carried, as pairs of a channel and a text: PUBLISH that succeeds adds its
-- own, and no other command adds any.
pub record Carries {C : Type 0} (redis : RedisConn C) (carried : C → List (Bytes × Bytes))
    : Type 0 where
  pub publishes :
      (c : C) (channel text : Bytes)
      → (redis.publish c channel text).0 ≡ done tt
      → carried (redis.publish c channel text).1 ≡ carried c ++ (channel, text) ∷ []
  pub queries : (c : C) (words : List Bytes) → carried (redis.query c words).1 ≡ carried c

module _ {C : Type 0} ⦃redis : RedisConn C⦄ ⦃json : SerdeJson⦄
    (carried : C → List (Bytes × Bytes)) where
  -- The publisher `p'` has put the message on the channel of `p` after what was there.
  abbrev pub Puts : InvalidationMessage → InvalidationPublisher C → InvalidationPublisher C → Type 0
  Puts msg p p' =
      (text : Bytes) × (to_json msg ≡ ok text)
      × (p'.config ≡ p.config)
      × (carried p'.connection ≡ carried p.connection ++ (p.config.channel, text) ∷ [])

  pub publish-Puts :
      Carries redis carried
      → (now : ℕ) (p : InvalidationPublisher C) (msg : InvalidationMessage)
      → (publish now p msg).0 ≡ ok tt
      → Puts msg p (publish now p msg).1
  unfolding publish publish_to_audit_stream
  publish-Puts laws now p msg good = elim (CacheResult-cases (to_json msg)) [
    | inr (e, bad) ↦ absurd (ground arith)
    | inl (text, written) ↦
        elim (Outcome-cases (redis.publish p.connection p.config.channel text).0) [
          | inr (e, bad) ↦ absurd (ground arith)
          | inl (u, sent) ↦
              let there = laws.publishes p.connection p.config.channel text sent in
              (
                text,
                written,
                ground arith,
                rw (written, publish)
                    (rw (sent, publish)
                      (elim (Bool-cases p.config.enable_audit_stream) [
                        | inl on ↦ rw (on, publish) (laws.queries _ _ ∙ there)
                        | inr off ↦ rw (off, publish) there
                      ])),
              )
        ]
  ]

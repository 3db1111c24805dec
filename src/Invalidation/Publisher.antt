-- ===== src/Invalidation/Publisher.antt =====
-- src/invalidation.rs: `InvalidationConfig` and `InvalidationPublisher`.
pub mod Carried
use multi_tier_cache.Base.{
  ℕ, ◌≡◌, Bool, true, false, Option, none, some, List, [], ◌∷◌, ◌++◌, arith, Bytes, lit,
  CacheResult, ok, err, backend_error, invalidation_error, Outcome, or_err, codes, decimal,
  if◌then◌else◌, length, ◌>>=◌,
}
use multi_tier_cache.Invalidation.Message.{
  InvalidationMessage, remove, update, remove_pattern, remove_bulk, SerdeJson, to_json,
}

pub record InvalidationConfig : Type 0 where
  pub channel : Bytes
  pub auto_broadcast_on_write : Bool
  pub enable_audit_stream : Bool
  pub audit_stream : Bytes
  pub audit_stream_maxlen : Option ℕ

abbrev pub default_config : InvalidationConfig
default_config = record {
  channel = codes "cache:invalidate";
  auto_broadcast_on_write = false;
  enable_audit_stream = false;
  audit_stream = codes "cache:invalidations";
  audit_stream_maxlen = some 10000;
}

-- The commands of the `redis` crate that go over one connection `C`: PUBLISH, and any command
-- that is written out as its words.
pub record RedisConn (C : Type 0) : Type 0 where
  pub publish : C → Bytes → Bytes → Outcome (Unit {0}) × C
  pub query : C → List Bytes → Outcome Bytes × C

pub record InvalidationPublisher (C : Type 0) : Type 0 where
  pub connection : C
  pub config : InvalidationConfig

-- `type_str`, `key_str` and `extra_str`.
abbrev pub audit_texts : InvalidationMessage → Bytes × Bytes × Bytes
audit_texts (remove key) = (codes "remove", key, [])
audit_texts (update key value ttl_secs) = (codes "update", key, [])
audit_texts (remove_pattern pattern) = (codes "remove_pattern", pattern, [])
audit_texts (remove_bulk keys) = (codes "remove_bulk", [], decimal (length keys))

abbrev pub is_empty : Bytes → Bool
is_empty [] = true
is_empty (c ∷ cs) = false

unfoldable pub audit_fields : Bytes → InvalidationMessage → List (Bytes × Bytes)
audit_fields timestamp m =
    let t = audit_texts m in
    (codes "type", t.0)
      ∷ (codes "timestamp", timestamp)
      ∷ (if is_empty t.1 then [] else (codes "key", t.1) ∷ [])
    ++ (if is_empty t.2 then [] else (codes "count", t.2) ∷ [])

-- The arguments `key value key value …` of XADD.
unfoldable pub field_args : List (Bytes × Bytes) → List Bytes
field_args [] = []
field_args ((key, value) ∷ fields) = key ∷ value ∷ field_args fields

abbrev pub maxlen_args : Option ℕ → List Bytes
maxlen_args (some maxlen) = codes "MAXLEN" ∷ codes "~" ∷ decimal maxlen ∷ []
maxlen_args none = []

-- XADD, on a stream of at most about `maxlen` entries, of an entry with the given fields.
unfoldable pub xadd_command : Bytes → Option ℕ → List (Bytes × Bytes) → List Bytes
unfolding field_args
xadd_command stream maxlen fields =
    codes "XADD" ∷ stream ∷ maxlen_args maxlen ++ (codes "*" ∷ field_args fields)

abbrev pub discard : Outcome Bytes → CacheResult (Unit {0})
discard (Outcome.done id) = ok tt
discard (Outcome.failed e) = err (backend_error (lit "Failed to add to audit stream: " ∷ e))

abbrev pub published : Outcome (Unit {0}) → CacheResult (Unit {0})
published = or_err λ e. invalidation_error (lit "Failed to publish invalidation message: " ∷ e)

module _ {C : Type 0} ⦃redis : RedisConn C⦄ where
  -- `timestamp` is the wall clock in seconds.
  unfoldable pub publish_to_audit_stream :
      ℕ
      → InvalidationPublisher C
      → InvalidationMessage
      → CacheResult (Unit {0}) × InvalidationPublisher C
  publish_to_audit_stream timestamp p m =
      let config = p.config in
      let fields = audit_fields (decimal timestamp) m in
      let r =
        redis.query p.connection
          (xadd_command config.audit_stream config.audit_stream_maxlen fields) in
      (discard r.0, record p { connection = r.1 })

  -- After PUBLISH: the entry for the audit trail, whose failure is only logged.
  abbrev audit :
      ℕ
      → InvalidationMessage
      → CacheResult (Unit {0})
      → InvalidationPublisher C
      → CacheResult (Unit {0}) × InvalidationPublisher C
  audit timestamp m (err e) p = (err e, p)
  audit timestamp m (ok _) p =
      if p.config.enable_audit_stream
      then (ok tt, (publish_to_audit_stream timestamp p m).1)
      else (ok tt, p)

  abbrev send :
      ℕ
      → InvalidationMessage
      → CacheResult Bytes
      → InvalidationPublisher C
      → CacheResult (Unit {0}) × InvalidationPublisher C
  send timestamp m (err e) p = (err e, p)
  send timestamp m (ok json) p =
      let r = redis.publish p.connection p.config.channel json in
      audit timestamp m (published r.0) (record p { connection = r.1 })

  unfoldable pub publish :
      ⦃j : SerdeJson⦄
      → ℕ
      → InvalidationPublisher C
      → InvalidationMessage
      → CacheResult (Unit {0}) × InvalidationPublisher C
  unfolding publish_to_audit_stream
  publish timestamp p m = send timestamp m (to_json m) p

  -- `publish` succeeds exactly if the message can be written as JSON and PUBLISH on the configured
  -- channel succeeds, and otherwise it returns the error of the step that failed. The audit trail
  -- never changes this: whether it is on, and whether its entry could be written, does not matter.
  -- The configuration stays as it was.
  pub publish_lem :
      ⦃j : SerdeJson⦄ (timestamp : ℕ) (p : InvalidationPublisher C) (m : InvalidationMessage)
      → ((publish timestamp p m).0
          ≡ (to_json m >>= λ json. published (redis.publish p.connection p.config.channel json).0))
        × ((publish timestamp p m).1.config ≡ p.config)
  unfolding publish
  publish_lem ⦃j⦄ timestamp p m = ground arith

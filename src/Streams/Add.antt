-- ===== src/Streams/Add.antt =====
-- src/redis_streams.rs and the audit trail of src/invalidation.rs, which write to a stream alike.
use multi_tier_cache.Base.{
  ℕ, ◌≡◌, ◌∙◌, refl, Option, none, some, List, [], ◌∷◌, ◌++◌, append-nil, append_assoc, Bytes, sym,
  ap, decimal, Outcome, done, failed, or_err, is_ok,
}
use multi_tier_cache.Invalidation.Publisher.{
  field_args, xadd_command, audit_fields, RedisConn, InvalidationPublisher, discard,
  publish_to_audit_stream,
}
use multi_tier_cache.Invalidation.Message.{InvalidationMessage}
use multi_tier_cache.Streams.{
  add_fields, add_command, StreamCommands, stream_add, failed_to, add_text,
}

add_fields_lem :
    (cmd : List Bytes) (fields : List (Bytes × Bytes))
    → add_fields cmd fields ≡ cmd ++ field_args fields
unfolding add_fields field_args
add_fields_lem cmd [] = sym (append-nil cmd)
add_fields_lem cmd ((field, value) ∷ fields) =
    add_fields_lem (cmd ++ (field ∷ value ∷ [])) fields
    ∙ append_assoc cmd (field ∷ value ∷ []) (field_args fields)

add_command-xadd_command :
    (stream : Bytes) (fields : List (Bytes × Bytes)) (maxlen : Option ℕ)
    → add_command stream fields maxlen ≡ xadd_command stream maxlen fields
unfolding add_command xadd_command
add_command-xadd_command stream fields none = add_fields_lem _ fields
add_command-xadd_command stream fields (some max) = add_fields_lem _ fields

is_ok-discard : (r : Outcome Bytes) → is_ok (discard r) ≡ is_ok (or_err (failed_to add_text) r)
is_ok-discard (done id) = refl
is_ok-discard (failed e) = refl

-- If both go over one connection, on which a command that is written out gets the same answer from
-- either: an entry of the audit trail is written as `stream_add` writes one with the same fields to
-- the configured stream of the configured length. The connection is left alike, and the one call
-- succeeds exactly if the other does.
pub publish_to_audit_stream-stream_add :
    {C : Type 0} ⦃conn : RedisConn C⦄ ⦃redis : StreamCommands C⦄
    → ((c : C) (cmd : List Bytes) → conn.query c cmd ≡ redis.query_text c cmd)
    → (timestamp : ℕ) (p : InvalidationPublisher C) (m : InvalidationMessage)
    → let written = publish_to_audit_stream timestamp p m in
      let added =
        stream_add
          (record { conn_manager = p.connection })
          p.config.audit_stream
          (audit_fields (decimal timestamp) m)
          p.config.audit_stream_maxlen in
      (is_ok written.0 ≡ is_ok added.0) × (written.1.connection ≡ added.1.conn_manager)
unfolding publish_to_audit_stream stream_add
publish_to_audit_stream-stream_add {C} ⦃conn⦄ ⦃redis⦄ same timestamp p m =
    let fields = audit_fields (decimal timestamp) m in
    let sent =
      same p.connection (xadd_command p.config.audit_stream p.config.audit_stream_maxlen fields)
      ∙ ap (redis.query_text p.connection) (
          sym
            (add_command-xadd_command p.config.audit_stream fields p.config.audit_stream_maxlen)) in
    (ap (λ r. is_ok (discard r.0)) sent ∙ is_ok-discard _, ap (λ r. r.1) sent)

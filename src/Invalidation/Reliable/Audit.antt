-- ===== src/Invalidation/Reliable/Audit.antt =====
-- src/invalidation.rs: the entries that the publisher writes to its audit trail, as the reliable
-- subscriber reads the entries of a stream.
use multi_tier_cache.Base.{
  ◌≡◌, refl, none, some, List, [], ◌∷◌, Bytes, CacheResult, codes, Message, failed, bytes_eq,
  if◌then◌else◌, ◌++◌,
}
use multi_tier_cache.Traits.{StreamEntry}
use multi_tier_cache.Invalidation.Message.{InvalidationMessage, SerdeJson, from_json}
use multi_tier_cache.Invalidation.Publisher.{audit_texts, audit_fields, is_empty}
use multi_tier_cache.Invalidation.Subscriber.{Task}
use multi_tier_cache.Invalidation.Reliable.{find_payload, payload_of, message_in, process_entries}

-- The fields after the first two: neither is called "payload".
no_payload :
    (key extra : Bytes)
    → find_payload (
        (if is_empty key then [] else (codes "key", key) ∷ [])
        ++ (if is_empty extra then [] else (codes "count", extra) ∷ []))
      ≡ none
unfolding bytes_eq
no_payload [] [] = refl
no_payload [] (d ∷ extra) = refl
no_payload (c ∷ key) [] = refl
no_payload (c ∷ key) (d ∷ extra) = refl

-- The subscriber takes the kind of the message for its text.
payload_of-audit_fields :
    (timestamp : Bytes) (m : InvalidationMessage)
    → payload_of (audit_fields timestamp m) ≡ some (audit_texts m).0
unfolding payload_of audit_fields bytes_eq
payload_of-audit_fields timestamp m =
    rw (no_payload (audit_texts m).1 (audit_texts m).2, payload_of) refl

-- The entries that the publisher writes for messages, each with its id and its time.
abbrev pub trail : List (Bytes × Bytes × InvalidationMessage) → List StreamEntry
trail [] = []
trail ((id, timestamp, m) ∷ ms) = (id, audit_fields timestamp m) ∷ trail ms

module _ {H : Type 0} (handler : H → InvalidationMessage → CacheResult (Unit {0}) × H)
    ⦃j : SerdeJson⦄
    (refuses : (m : InvalidationMessage)
      → (e : Message) × (j.from_str (audit_texts m).0 ≡ failed e)) where
  unread :
      (timestamp : Bytes) (m : InvalidationMessage) → message_in (audit_fields timestamp m) ≡ none
  unfolding message_in from_json
  unread timestamp m = rw (payload_of-audit_fields timestamp m, message_in) (rw (refuses m).1 refl)

  -- If a bare word such as "remove", without quotes, is not the JSON text of a message: of the
  -- entries that the publisher writes to its audit trail, whatever the messages, the reliable
  -- subscriber hands none to its handler, counts none, and acknowledges none.
  pub process_entries-trail :
      (ms : List (Bytes × Bytes × InvalidationMessage)) (t : Task H)
      → process_entries handler (trail ms) t ≡ ([], t)
  unfolding process_entries
  process_entries-trail [] t = refl
  process_entries-trail ((id, timestamp, m) ∷ ms) t =
      rw (unread timestamp m, process_entries) (process_entries-trail ms t)

-- ===== src/Tests/Streams.antt =====
-- The theorem on the reliable stream subscriber, applied to two entries.
use multi_tier_cache.Base.{
  ◌+◌, ◌%◌, ◌^◌, ◌≡◌, List, [], ◌∷◌, CacheResult, err, not_found, codes, length, Message, failed,
  lit, refl,
}
use multi_tier_cache.Traits.{StreamEntry}
use multi_tier_cache.Invalidation.Message.{
  InvalidationMessage, remove, update, remove_pattern, remove_bulk,
}
use multi_tier_cache.Invalidation.Publisher.{audit_texts}
use multi_tier_cache.Invalidation.Reliable.Audit.{trail, process_entries-trail}
use multi_tier_cache.Invalidation.Stats.{zero_stats}
use multi_tier_cache.Invalidation.Subscriber.{Task}
use multi_tier_cache.Invalidation.Reliable.{process_entries}
use multi_tier_cache.Invalidation.Reliable.Laws.{
  readable, answers, accepted, refused, process_entries_lem,
}
use multi_tier_cache.Tests.Setup.{number_json, read_wire}

-- A handler that refuses every message, and keeps it.
abbrev refuse :
    List InvalidationMessage
    → InvalidationMessage
    → CacheResult (Unit {0}) × List InvalidationMessage
refuse seen m = (err not_found, m ∷ seen)

abbrev entries : List StreamEntry
entries =
    (codes "1-0", (codes "payload", 0 ∷ codes "k") ∷ [])
    ∷ (codes "2-0", (codes "other", 9 ∷ []) ∷ [])
    ∷ []

abbrev reader : Task (List InvalidationMessage)
reader = record { stats = zero_stats; state = [] }

process_entries_lem_example :
    let ran = answers refuse [] (readable entries) in
    let r = process_entries refuse entries reader in
    (r.0 ≡ accepted ran.0)
    × (r.1.state ≡ ran.1)
    × (r.1.stats.messages_received % 2 ^ 64 ≡ (0 + length (readable entries)) % 2 ^ 64)
    × (r.1.stats.processing_errors % 2 ^ 64 ≡ (0 + refused ran.0) % 2 ^ 64)
process_entries_lem_example = process_entries_lem refuse entries reader

-- None of the words by which the audit trail names the kinds is a text of a message.
refuses_words :
    (m : InvalidationMessage) → (e : Message) × (number_json.from_str (audit_texts m).0 ≡ failed e)
unfolding read_wire
refuses_words (remove key) = (lit "malformed" ∷ [], refl)
refuses_words (update key value ttl_secs) = (lit "malformed" ∷ [], refl)
refuses_words (remove_pattern pattern) = (lit "malformed" ∷ [], refl)
refuses_words (remove_bulk keys) = (lit "malformed" ∷ [], refl)

process_entries-trail_example :
    process_entries refuse (trail ((codes "1-0", codes "1700", remove (codes "k")) ∷ [])) reader
    ≡ ([], reader)
process_entries-trail_example =
    process_entries-trail refuse refuses_words
      ((codes "1-0", codes "1700", remove (codes "k")) ∷ []) reader

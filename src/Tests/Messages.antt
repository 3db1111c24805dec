-- ===== src/Tests/Messages.antt =====
-- The theorems on serializers, invalidation messages and their publisher and subscriber, applied
-- to small concrete ones.
use mathlib.Core.List.{foldl}
use multi_tier_cache.Base.{
  ◌+◌, ◌%◌, ◌^◌, ◌≡◌, refl, false, some, List, [], ◌∷◌, ◌++◌, arith, Bytes, CacheResult, ok, err,
  codes, done, failed, lit, length, not_found,
}
use multi_tier_cache.Invalidation.Hex
use multi_tier_cache.Invalidation.Hex.RoundTrip.{deserialize-serialize_hex}
use multi_tier_cache.Invalidation.Message.{
  InvalidationMessage, update, to_json, from_json, to_wire, from_json-to_json,
}
use multi_tier_cache.Invalidation.Stats.{Balanced, zero_stats}
use multi_tier_cache.Invalidation.Subscriber.{
  Event, message, stream_end, Task, event_loop, Round, start,
}
use multi_tier_cache.Invalidation.Subscriber.Laws.{act, arrived, event_loop-arrived, start-Balanced}
use multi_tier_cache.Tests.Setup.{
  log_conn, number_json, number_json-ReadsBack, number_serde, write_wire,
}

deserialize-serialize_hex_example :
    Hex.deserialize (Hex.serialize (0 ∷ 255 ∷ [])) ≡ Hex.bytes (0 ∷ 255 ∷ [])
deserialize-serialize_hex_example =
    deserialize-serialize_hex (0 ∷ 255 ∷ []) (omega arith, (omega arith, tt))

abbrev note : InvalidationMessage
note = update (codes "k") (10 ∷ []) (some 60)

abbrev note_text : Bytes
note_text = 2 ∷ 60 ∷ 1 ∷ codes "k" ++ codes "0a"

note_written : to_json note ≡ ok note_text
unfolding to_json to_wire write_wire Hex.serialize
note_written = refl

from_json-to_json_example : from_json note_text ≡ ok note
from_json-to_json_example =
    from_json-to_json note note_text number_json-ReadsBack (omega arith, tt) note_written

-- A handler that keeps the messages, and fails on every one.
abbrev keep :
    List InvalidationMessage
    → InvalidationMessage
    → CacheResult (Unit {0}) × List InvalidationMessage
keep seen m = (err not_found, m ∷ seen)

abbrev events : List Event
events =
    message (done note_text)
    ∷ message (failed (lit "nil" ∷ []))
    ∷ message (done (0 ∷ codes "k"))
    ∷ stream_end
    ∷ []

abbrev task : Task (List InvalidationMessage)
task = record { stats = zero_stats; state = [] }

event_loop-arrived_example :
    let t = (event_loop keep events task).1 in
    (t.state ≡ foldl (act keep) [] (arrived events))
    × (t.stats.messages_received % 2 ^ 64 ≡ (0 + length (arrived events)) % 2 ^ 64)
event_loop-arrived_example = event_loop-arrived keep events task

abbrev round : Round
round = record {
  stopped = false;
  connect = done tt;
  subscribe = done tt;
  events = events;
  stopped_in_wait = false;
}

start-Balanced_example : Balanced (start keep (round ∷ round ∷ []) task).1.stats
start-Balanced_example = start-Balanced keep (round ∷ round ∷ []) task refl

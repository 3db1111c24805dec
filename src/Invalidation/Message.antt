-- ===== src/Invalidation/Message.antt =====
-- src/invalidation.rs, `InvalidationMessage`: its constructors, and its trip through JSON.
use multi_tier_cache.Base.{
  ℕ, ◌≡◌, refl, Option, none, List, [], ◌∷◌, Bytes, Message, lit, CacheResult, ok,
  serialization_error, Outcome, done, failed, or_err, arith,
}
use mathlib.Core.Option
use multi_tier_cache.Time.{Duration, from_secs, as_secs}
use multi_tier_cache.Invalidation.Hex.{serialize, deserialize, Decoded, bytes, bad, HexError}
use multi_tier_cache.Invalidation.Hex
use multi_tier_cache.Invalidation.Hex.RoundTrip.{AreBytes, deserialize-serialize_hex}

pub data InvalidationMessage : Type 0 where
  remove : (key : Bytes) → InvalidationMessage
  update : (key value : Bytes) (ttl_secs : Option ℕ) → InvalidationMessage
  remove_pattern : (pattern : Bytes) → InvalidationMessage
  remove_bulk : (keys : List Bytes) → InvalidationMessage

-- The function `update`; the other three constructor functions are the constructors.
unfoldable pub new_update : Bytes → Bytes → Option Duration → InvalidationMessage
new_update key value ttl = update key value (Option.map as_secs ttl)

unfoldable pub message_ttl : InvalidationMessage → Option Duration
message_ttl (update key value ttl_secs) = Option.map from_secs ttl_secs
message_ttl (remove key) = none
message_ttl (remove_pattern pattern) = none
message_ttl (remove_bulk keys) = none

-- What the derived serializer hands to `serde_json`: the message with its value as hex digits.
pub data WireMessage : Type 0 where
  wire_remove : (key : Bytes) → WireMessage
  wire_update : (key hex : Bytes) (ttl_secs : Option ℕ) → WireMessage
  wire_remove_pattern : (pattern : Bytes) → WireMessage
  wire_remove_bulk : (keys : List Bytes) → WireMessage

-- `serde_json` on such a message.
pub record SerdeJson : Type 0 where
  pub to_string : WireMessage → Outcome Bytes
  pub from_str : Bytes → Outcome WireMessage

-- What `serde_json` promises: a text that it wrote is read as the message that was written.
abbrev pub ReadsBack : SerdeJson → Type 0
ReadsBack j =
    (w : WireMessage) (text : Bytes) → j.to_string w ≡ done text → j.from_str text ≡ done w

unfoldable pub to_wire : InvalidationMessage → WireMessage
to_wire (remove key) = wire_remove key
to_wire (update key value ttl_secs) = wire_update key (serialize value) ttl_secs
to_wire (remove_pattern pattern) = wire_remove_pattern pattern
to_wire (remove_bulk keys) = wire_remove_bulk keys

abbrev hex_message : HexError → Message
hex_message Hex.HexError.odd_length = lit "Odd-length hex string" ∷ []
hex_message Hex.HexError.invalid_character = lit "Invalid hex character" ∷ []

abbrev with_value : Bytes → Option ℕ → Decoded → Outcome InvalidationMessage
with_value key ttl_secs (bytes value) = done (update key value ttl_secs)
with_value key ttl_secs (bad e) = failed (hex_message e)

unfoldable pub of_wire : WireMessage → Outcome InvalidationMessage
of_wire (wire_remove key) = done (remove key)
of_wire (wire_update key hex ttl_secs) = with_value key ttl_secs (deserialize hex)
of_wire (wire_remove_pattern pattern) = done (remove_pattern pattern)
of_wire (wire_remove_bulk keys) = done (remove_bulk keys)

abbrev serialize_failed : Message → Message
serialize_failed e = lit "Failed to serialize invalidation message: " ∷ e

abbrev deserialize_failed : Message → Message
deserialize_failed e = lit "Failed to deserialize invalidation message: " ∷ e

abbrev read_wire : Outcome WireMessage → Outcome InvalidationMessage
read_wire (done w) = of_wire w
read_wire (failed e) = failed e

module _ ⦃j : SerdeJson⦄ where
  unfoldable pub to_json : InvalidationMessage → CacheResult Bytes
  to_json m = or_err (λ e. serialization_error (serialize_failed e)) (j.to_string (to_wire m))

  unfoldable pub from_json : Bytes → CacheResult InvalidationMessage
  from_json text =
      or_err (λ e. serialization_error (deserialize_failed e)) (read_wire (j.from_str text))

-- A message whose value consists of bytes.
abbrev pub IsWellFormed : InvalidationMessage → Type 0
IsWellFormed (update key value ttl_secs) = AreBytes value
IsWellFormed _ = Unit

of_wire-to_wire : (m : InvalidationMessage) → IsWellFormed m → of_wire (to_wire m) ≡ done m
unfolding of_wire to_wire
of_wire-to_wire (remove key) h = refl
of_wire-to_wire (update key value ttl_secs) h = rw (deserialize-serialize_hex value h)
of_wire-to_wire (remove_pattern pattern) h = refl
of_wire-to_wire (remove_bulk keys) h = refl

-- If `serde_json` reads back what it writes, every message of every kind that `to_json` turns into
-- a text, and whose value consists of bytes, is what `from_json` makes of that text, its value and
-- its time to live included.
pub from_json-to_json :
    ⦃j : SerdeJson⦄ (m : InvalidationMessage) (text : Bytes)
    → ReadsBack j
    → IsWellFormed m
    → to_json m ≡ ok text
    → from_json text ≡ ok m
unfolding to_json from_json
from_json-to_json ⦃j⦄ m text reads wf e =
    ground (arith, reads (to_wire m) text, of_wire-to_wire m wf)

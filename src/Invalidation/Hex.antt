-- ===== src/Invalidation/Hex.antt =====
-- src/invalidation.rs, `serde_bytes_wrapper`: the bytes of a value as a string of hex digits.
pub mod RoundTrip
use Prim.Native.Nat.{bit_or}
use multi_tier_cache.Base.{
  ℕ, ◌+◌, ◌-◌, ◌*◌, ◌/◌, ◌%◌, ◌≡◌, refl, Bool, ◌&&◌, Option, none, some, List, [], ◌∷◌, Bytes, leb,
  ◌==◌, if◌then◌else◌, length,
}

unfoldable pub parse_hex_digit : ℕ → Option ℕ
parse_hex_digit b =
    if leb b'0' b && leb b b'9'
    then some (b - b'0')
    else if leb b'a' b && leb b b'f'
    then some (b - b'a' + 10)
    else if leb b'A' b && leb b b'F'
    then some (b - b'A' + 10)
    else none

-- A half byte as a digit; the last case, `_ => '0'`, is for no half byte.
unfoldable pub hex_digit : ℕ → ℕ
hex_digit v = if leb v 9 then b'0' + v else if leb 10 v && leb v 15 then b'a' + v - 10 else b'0'

unfoldable pub serialize : Bytes → Bytes
unfolding hex_digit
serialize [] = []
serialize (b ∷ bytes) = hex_digit (b / 16) ∷ hex_digit (b % 16) ∷ serialize bytes

pub data HexError : Type 0 where
  odd_length invalid_character : HexError

pub data Decoded : Type 0 where
  bytes : Bytes → Decoded
  bad : HexError → Decoded

-- `(high << 4) | low` on `u8`.
unfoldable pub join_digits : ℕ → ℕ → ℕ
join_digits high low = bit_or (high * 16 % 256) low

-- One chunk: the decoded byte in front of what the later chunks give.
unfoldable pub push_chunk : Option ℕ → Option ℕ → Decoded → Decoded
unfolding join_digits
push_chunk (some high) (some low) (bytes v) = bytes (join_digits high low ∷ v)
push_chunk (some high) (some low) (bad e) = bad e
push_chunk (some high) none rest = bad invalid_character
push_chunk none low rest = bad invalid_character

-- `chunks_exact(2)`; a digit left over is ignored, as there.
unfoldable pub decode_chunks : Bytes → Decoded
unfolding push_chunk parse_hex_digit
decode_chunks [] = bytes []
decode_chunks (h ∷ []) = bytes []
decode_chunks (h ∷ l ∷ rest) =
    push_chunk (parse_hex_digit h) (parse_hex_digit l) (decode_chunks rest)

unfoldable pub deserialize : Bytes → Decoded
unfolding decode_chunks
deserialize hex_str = if length hex_str % 2 == 0 then decode_chunks hex_str else bad odd_length

-- ===== src/Invalidation/Hex/RoundTrip.antt =====
-- Hex digits decode to the bytes that they encode.
use multi_tier_cache.Base.{
  ℕ, zero, suc, ◌/◌, ◌%◌, ◌<◌, ◌≡◌, refl, Bool, true, ◌&&◌, some, [], ◌∷◌, arith, Bytes, ◌==◌,
  length, All,
}
use multi_tier_cache.Invalidation.Hex.{
  parse_hex_digit, hex_digit, serialize, bytes, join_digits, decode_chunks, deserialize,
}

-- Every byte of a value is below 256.
abbrev pub AreBytes : Bytes → Type 0
AreBytes = All (λ b. b < 256)

parse-hex_digit : (v : ℕ) → v < 16 → parse_hex_digit (hex_digit v) ≡ some v
unfolding parse_hex_digit hex_digit
parse-hex_digit v h = ground arith

check_below : ℕ → (ℕ → Bool) → Bool
check_below zero p = true
check_below (suc n) p = p n && check_below n p

check_below_sound : (n : ℕ) (p : ℕ → Bool) (x : ℕ) → check_below n p ≡ true → x < n → p x ≡ true
unfolding check_below
check_below_sound zero p x h lt = absurd (omega arith)
check_below_sound (suc n) p x h lt = ground (arith, check_below_sound n p x)

join_table : check_below 256 (λ b. join_digits (b / 16) (b % 16) == b) ≡ true
unfolding check_below join_digits
join_table = refl

join-split : (b : ℕ) → b < 256 → join_digits (b / 16) (b % 16) ≡ b
join-split b h =
    ground (arith, check_below_sound 256 (λ b. join_digits (b / 16) (b % 16) == b) b join_table h)

decode-serialize : (v : Bytes) → AreBytes v → decode_chunks (serialize v) ≡ bytes v
unfolding decode_chunks serialize
decode-serialize [] h = refl
decode-serialize (b ∷ v) h = rw (
  parse-hex_digit (b / 16) (omega arith),
  parse-hex_digit (b % 16) (omega arith),
  decode-serialize v h.1,
  join-split b h.0,
)

serialize-even : (v : Bytes) → length (serialize v) % 2 ≡ 0
unfolding serialize
serialize-even [] = refl
serialize-even (b ∷ v) = omega (arith, serialize-even v)

-- Every byte string survives the trip through its hex digits.
pub deserialize-serialize_hex : (v : Bytes) → AreBytes v → deserialize (serialize v) ≡ bytes v
unfolding deserialize
deserialize-serialize_hex v h = rw (serialize-even v, decode-serialize v h)

-- ===== src/Serialization.antt =====
-- src/serialization.rs: the choice of a serializer.
use multi_tier_cache.Base.{
  ◌≡◌, String, Bytes, CacheResult, ok, serialization_error, Outcome, done, or_err, arith,
}

pub data CacheSerializer : Type 0 where
  json bincode msg_pack : CacheSerializer

abbrev pub default_serializer : CacheSerializer
default_serializer = json

-- `serde_json`, `bincode` and `rmp_serde` on the values of one type `A`.
pub record Serde (A : Type 0) : Type 0 where
  pub json_to_vec : A → Outcome Bytes
  pub json_from_slice : Bytes → Outcome A
  pub bincode_serialize : A → Outcome Bytes
  pub bincode_deserialize : Bytes → Outcome A
  pub rmp_to_vec : A → Outcome Bytes
  pub rmp_from_slice : Bytes → Outcome A

-- What each of the three libraries promises: it reads back what it wrote.
pub record ReadsBack {A : Type 0} (s : Serde A) : Type 0 where
  pub json_back : (a : A) (v : Bytes) → s.json_to_vec a ≡ done v → s.json_from_slice v ≡ done a
  pub bincode_back :
      (a : A) (v : Bytes) → s.bincode_serialize a ≡ done v → s.bincode_deserialize v ≡ done a
  pub rmp_back : (a : A) (v : Bytes) → s.rmp_to_vec a ≡ done v → s.rmp_from_slice v ≡ done a

module _ {A : Type 0} ⦃s : Serde A⦄ where
  unfoldable pub serialize : CacheSerializer → A → CacheResult Bytes
  serialize json value = or_err serialization_error (s.json_to_vec value)
  serialize bincode value = or_err serialization_error (s.bincode_serialize value)
  serialize msg_pack value = or_err serialization_error (s.rmp_to_vec value)

  unfoldable pub deserialize : CacheSerializer → Bytes → CacheResult A
  deserialize json bytes = or_err serialization_error (s.json_from_slice bytes)
  deserialize bincode bytes = or_err serialization_error (s.bincode_deserialize bytes)
  deserialize msg_pack bytes = or_err serialization_error (s.rmp_from_slice bytes)

abbrev pub serializer_name : CacheSerializer → String
serializer_name json = "Json"
serializer_name bincode = "Bincode"
serializer_name msg_pack = "MsgPack"

-- If the three libraries read back what they write, then whichever serializer is chosen, a value
-- that it writes is the value that it reads back.
pub deserialize-serialize :
    {A : Type 0} ⦃s : Serde A⦄ (c : CacheSerializer) (value : A) (bytes : Bytes)
    → ReadsBack s
    → serialize c value ≡ ok bytes
    → deserialize c bytes ≡ ok value
unfolding serialize deserialize
deserialize-serialize json value bytes r h = ground (arith, r.json_back value bytes)
deserialize-serialize bincode value bytes r h = ground (arith, r.bincode_back value bytes)
deserialize-serialize msg_pack value bytes r h = ground (arith, r.rmp_back value bytes)

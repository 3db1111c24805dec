-- ===== src/Manager/Abstract/Typed.antt =====
-- `get_or_compute_typed`: a typed value on its way through the serializer and the tiers.
use multi_tier_cache.Base.{
  ℕ, ◌≡◌, refl, ap, ◌∙◌, Bool, false, Option, none, some, Bytes, CacheResult, ok, bytes_eq_refl,
  ◌>>=◌,
}
use multi_tier_cache.Time.{Float}
use multi_tier_cache.Traits.{L2CacheBackend}
use multi_tier_cache.Traits.Laws.{IsLawful}
use multi_tier_cache.Serialization.{Serde, ReadsBack, serialize, deserialize, deserialize-serialize}
use multi_tier_cache.Manager.Tier.{CacheStrategy}
use multi_tier_cache.Manager.Fetch.{is_empty}
use multi_tier_cache.Manager.Get.{contains_key, get, get_typed}
use multi_tier_cache.Manager.Compute.{Session, serialized, get_or_compute_typed}
use multi_tier_cache.Manager.Settings.{get-Keeps}
use multi_tier_cache.Manager.Abstract.{IsReliable, visible}
use multi_tier_cache.Manager.Abstract.Get.{get_lem}
use multi_tier_cache.Manager.Abstract.Compute.{
  learned, is_empty-settings, get_or_compute_with-Computes,
}

module _ {F S T C W A : Type 0} ⦃f : Float F⦄ ⦃b : L2CacheBackend S⦄ ⦃ser : Serde A⦄
    (holds : S → Bytes → Option Bytes) (lawful : IsLawful b holds) (reliable : IsReliable b) where
  -- With backends that are lawful and never refuse a write or a removal, and libraries that read
  -- back what they write: if no value is visible under the key and none is being computed, in a
  -- manager that has a tier, and the computation returns a value that the serializer can write, then
  -- `get_or_compute_typed` runs it once and returns this value, and its bytes are visible afterwards.
  pub get_or_compute_typed-serialize :
      (compute : W → CacheResult A × W) (s : Session F S T C W) (key : Bytes)
      (strategy : CacheStrategy) (draw draw' : ℕ → Bool)
      (heard heard' : Option (CacheResult (Option Bytes))) (a : A) (bytes : Bytes)
      → ReadsBack ser
      → contains_key s.manager.in_flight_requests key ≡ false
      → is_empty s.manager.tiers ≡ false
      → visible holds s.manager.tiers key ≡ none
      → (compute s.world).0 ≡ ok a
      → serialize s.manager.serializer a ≡ ok bytes
      → let r = get_or_compute_typed compute s key strategy draw draw' heard heard' in
        (r.0 ≡ ok a)
        × (r.1.world ≡ (compute s.world).1)
        × (visible holds r.1.manager.tiers key ≡ some bytes)
  unfolding get_or_compute_typed get_typed
  get_or_compute_typed-serialize compute s key strategy draw draw' heard heard' a bytes back alone h
        absent gives writes =
      let read = get_lem holds lawful reliable s.manager key draw heard alone in
      let m = (get s.manager key draw heard).1 in
      let s' = record s { manager = m } in
      let ran =
        get_or_compute_with-Computes holds lawful reliable (serialized s.manager compute) s' key
          strategy draw' heard' (ap (λ keys. contains_key keys key) read.2 ∙ alone)
          (is_empty-settings s.manager.tiers m.tiers (get-Keeps s.manager key draw heard) h)
          (read.1 key ∙ absent) in
      let made : (serialized s.manager compute s.world).0 ≡ ok bytes =
        ap (λ r. r >>= serialize s.manager.serializer) gives ∙ writes in
      rw (read.0 ∙ ap ok absent, get_or_compute_typed)
        (
          ap (λ r. r >>= deserialize s.manager.serializer) (ran.0 ∙ made)
              ∙ deserialize-serialize s.manager.serializer a bytes back writes,
          ran.1,
          ran.2 key
              ∙ ap (λ r. learned key r (visible holds m.tiers) key) made
              ∙ rw (bytes_eq_refl key) refl,
        )

-- ===== src/Manager/Abstract.antt =====
-- The manager seen as one map from keys to values: what its tiers, read from the top, say of a key.
-- The operations are studied with backends that are lawful, and that never refuse a write or a
-- removal.
pub mod Read
pub mod Get
pub mod Write
pub mod Compute
pub mod Typed
pub mod Run
pub mod Agreement
pub mod Changes
pub mod Refinement
use multi_tier_cache.Base.{
  ◌≡◌, refl, ap, ◌∙◌, Option, none, some, List, [], ◌∷◌, ◌++◌, arith, Bytes, CacheResult, ok,
  bytes_eq, bytes_eq_refl, if◌then◌else◌, Option-cases, inl, inr,
}
use multi_tier_cache.Time.{Duration}
use multi_tier_cache.Traits.{L2CacheBackend}
use multi_tier_cache.Traits.Laws.{IsLawful, found}
use multi_tier_cache.Manager.Tier.{CacheTier, get_with_ttl}

-- No write and no removal fails.
pub record IsReliable {S : Type 0} (b : L2CacheBackend S) : Type 0 where
  pub writes : (s : S) (k v : Bytes) (ttl : Duration) → (b.set_with_ttl s k v ttl).0 ≡ ok tt
  pub removes : (s : S) (k : Bytes) → (b.remove s k).0 ≡ ok tt

abbrev pub or_else : Option Bytes → Option Bytes → Option Bytes
or_else none o = o
or_else (some v) o = some v

-- The value that a reader of the tiers, from the first on, finds under a key.
abbrev pub visible :
    {F S : Type 0} → (S → Bytes → Option Bytes) → List (CacheTier F S) → Bytes → Option Bytes
visible holds [] k = none
visible holds (t ∷ tiers) k = or_else (holds t.backend k) (visible holds tiers k)

or_else_assoc : (x y z : Option Bytes) → or_else (or_else x y) z ≡ or_else x (or_else y z)
or_else_assoc none y z = refl
or_else_assoc (some v) y z = refl

module _ {F S : Type 0} (holds : S → Bytes → Option Bytes) where
  pub visible-append :
      (xs ys : List (CacheTier F S)) (k : Bytes)
      → visible holds (xs ++ ys) k ≡ or_else (visible holds xs k) (visible holds ys k)
  visible-append [] ys k = refl
  visible-append (t ∷ xs) ys k =
      ap (or_else (holds t.backend k)) (visible-append xs ys k)
      ∙ sym' (or_else_assoc (holds t.backend k) (visible holds xs k) (visible holds ys k))
    where
      sym' : {x y : Option Bytes} → x ≡ y → y ≡ x
      sym' e = cc

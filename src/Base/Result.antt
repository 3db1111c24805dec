-- ===== src/Base/Result.antt =====
-- src/error.rs: `CacheError` and `CacheResult`. A message is the list of its pieces, as `format!`
-- joins them; a number in it is kept as a number.
use Prim.Native.Nat.{ℕ}
use Prim.Native.String.{String}
use mathlib.Core.Path.{◌≡◌, refl}
use mathlib.Core.List.{List, [], ◌∷◌}
use mathlib.Core.Bool.{Bool, true, false}
use mathlib.Core.Logic.{◌⊎◌, inl, inr}

pub data Piece : Type 0 where
  lit : String → Piece
  num : ℕ → Piece

abbrev pub Message : Type 0
Message = List Piece

pub data CacheError : Type 0 where
  backend_error : Message → CacheError
  serialization_error : Message → CacheError
  invalidation_error : Message → CacheError
  config_error : Message → CacheError
  not_found : CacheError
  internal_error : Message → CacheError

pub data CacheResult {ℓ} (A : Type ℓ) : Type ℓ where
  ok : A → CacheResult A
  err : CacheError → CacheResult A

-- The `From` impls of foreign errors, by the text that the error displays: those of the crates
-- redis, serde_json, rmp_serde (in decoding) and memcache, and of `TryFromIntError`.
abbrev pub from_redis : Message → CacheError
from_redis e = backend_error e

abbrev pub from_serde_json : Message → CacheError
from_serde_json e = serialization_error e

abbrev pub from_rmp_decode : Message → CacheError
from_rmp_decode e = serialization_error e

abbrev pub from_try_from_int : Message → CacheError
from_try_from_int e = config_error e

abbrev pub from_memcache : Message → CacheError
from_memcache e = backend_error e

-- The text that an error displays.
abbrev pub display : CacheError → Message
display (backend_error e) = lit "Backend error: " ∷ e
display (serialization_error e) = lit "Serialization error: " ∷ e
display (invalidation_error e) = lit "Invalidation error: " ∷ e
display (config_error e) = lit "Configuration error: " ∷ e
display not_found = lit "Key not found" ∷ []
display (internal_error e) = lit "Internal error: " ∷ e

-- The operator `?`.
infixl 5 ◌>>=◌ ◌>>◌
abbrev pub ◌>>=◌ {ℓ κ} :
    {A : Type ℓ} {B : Type κ} → CacheResult A → (A → CacheResult B) → CacheResult B
ok a >>= f = f a
err e >>= f = err e

abbrev pub ◌>>◌ {ℓ} : {B : Type ℓ} → CacheResult (Unit {0}) → CacheResult B → CacheResult B
m >> k = m >>= λ _. k

abbrev pub is_ok {ℓ} : {A : Type ℓ} → CacheResult A → Bool
is_ok (ok a) = true
is_ok (err e) = false

-- `map_err`: another error in place of the first.
abbrev pub map_err {ℓ} : {A : Type ℓ} → (CacheError → CacheError) → CacheResult A → CacheResult A
map_err f (ok a) = ok a
map_err f (err e) = err (f e)

pub CacheResult-cases {ℓ} :
    {A : Type ℓ} (r : CacheResult A) → ((a : A) × (r ≡ ok a)) ⊎ ((e : CacheError) × (r ≡ err e))
CacheResult-cases (ok a) = inl (a, refl)
CacheResult-cases (err e) = inr (e, refl)

-- What a call of a foreign library returns: a value, or its own error as the text it displays.
pub data Outcome {ℓ} (A : Type ℓ) : Type ℓ where
  done : A → Outcome A
  failed : Message → Outcome A

-- `map_err` on a foreign result.
abbrev pub or_err {ℓ} : {A : Type ℓ} → (Message → CacheError) → Outcome A → CacheResult A
or_err f (done a) = ok a
or_err f (failed e) = err (f e)

pub Outcome-cases {ℓ} :
    {A : Type ℓ} (r : Outcome A) → ((a : A) × (r ≡ done a)) ⊎ ((e : Message) × (r ≡ failed e))
Outcome-cases (done a) = inl (a, refl)
Outcome-cases (failed e) = inr (e, refl)

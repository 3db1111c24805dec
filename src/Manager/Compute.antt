-- ===== src/Manager/Compute.antt =====
-- src/cache_manager.rs, `get_or_compute_with` and `get_or_compute_typed`. The caller's closure is
-- `compute`, on a state `W` of the world outside the cache.
use multi_tier_cache.Base.{
  ℕ, Bool, Option, none, some, Bytes, CacheResult, ok, err, if◌then◌else◌, ◌>>=◌,
}
use multi_tier_cache.Time.{Float}
use multi_tier_cache.Traits.{L2CacheBackend}
use multi_tier_cache.Serialization.{Serde, serialize, deserialize}
use multi_tier_cache.Manager.Tier.{CacheStrategy}
use multi_tier_cache.Manager.{CacheManager}
use multi_tier_cache.Manager.Fetch.{get_multi_tier}
use multi_tier_cache.Manager.Get.{
  contains_key, count_request, insert_in_flight, drop_guard, Created, get_typed,
}
use multi_tier_cache.Manager.Set.{set_with_strategy}

-- A manager beside the world that closures run in.
pub record Session (F S T C W : Type 0) : Type 0 where
  pub manager : CacheManager F S T C
  pub world : W

-- `set_with_strategy` after a computation, its answer ignored.
abbrev pub store :
    {F S T C : Type 0} ⦃f : Float F⦄ ⦃b : L2CacheBackend S⦄
    → CacheManager F S T C
    → Bytes
    → CacheStrategy
    → CacheResult Bytes
    → CacheManager F S T C
store m key strategy (ok value) = (set_with_strategy m key value strategy).1
store m key strategy (err e) = m

abbrev pub sent_of : CacheResult Bytes → CacheResult (Option Bytes)
sent_of (ok value) = ok (some value)
sent_of (err e) = err e

module _ {F S T C W : Type 0} ⦃f : Float F⦄ ⦃b : L2CacheBackend S⦄ where
  module _ (compute : W → CacheResult Bytes × W) where
    -- The computation and the write after it, as the creator and the fallback make them.
    unfoldable pub compute_and_store :
        Session F S T C W → Bytes → CacheStrategy → CacheResult Bytes × Session F S T C W
    compute_and_store s key strategy =
        let r = compute s.world in
        (r.0, record { manager = store s.manager key strategy r.0; world = r.1 })

    unfoldable pub compute_creator :
        Session F S T C W
        → Bytes
        → CacheStrategy
        → (ℕ → Bool)
        → Created (CacheResult Bytes) (Session F S T C W)
    unfolding compute_and_store
    compute_creator s key strategy draw =
        let again = get_multi_tier s.manager key draw in
        let missed = record s { manager = again.1 } in
        let fresh = compute_and_store missed key strategy in
        elim again.0 [
          | err e ↦ record { result = err e; sent = none; manager = missed }
          | ok found ↦ elim found [
            | some value ↦ record {
              result = ok value;
              sent = some (ok (some value));
              manager = missed;
            }
            | none ↦ record { result = fresh.0; sent = some (sent_of fresh.0); manager = fresh.1 }
          ]
        ]

    unfoldable pub compute_waiter :
        Session F S T C W
        → Bytes
        → CacheStrategy
        → Option (CacheResult (Option Bytes))
        → CacheResult Bytes × Session F S T C W
    unfolding compute_and_store
    compute_waiter s key strategy (some (ok (some value))) = (ok value, s)
    compute_waiter s key strategy (some (ok none)) = compute_and_store s key strategy
    compute_waiter s key strategy (some (err e)) = (err e, s)
    compute_waiter s key strategy none = compute_and_store s key strategy

    unfoldable pub compute_coalesced :
        Session F S T C W
        → Bytes
        → CacheStrategy
        → (ℕ → Bool)
        → Option (CacheResult (Option Bytes))
        → CacheResult Bytes × Session F S T C W
    unfolding compute_creator compute_waiter
    compute_coalesced s key strategy draw heard =
        let mine = record s { manager = insert_in_flight s.manager key } in
        let created = compute_creator mine key strategy draw in
        let left = created.manager in
        if contains_key s.manager.in_flight_requests key
        then compute_waiter s key strategy heard
        else (created.result, record left { manager = drop_guard left.manager key })

    unfoldable pub get_or_compute_with :
        Session F S T C W
        → Bytes
        → CacheStrategy
        → (ℕ → Bool)
        → Option (CacheResult (Option Bytes))
        → CacheResult Bytes × Session F S T C W
    unfolding compute_coalesced
    get_or_compute_with s key strategy draw heard =
        let first = get_multi_tier (count_request s.manager) key draw in
        let s' = record s { manager = first.1 } in
        elim first.0 [
          | err e ↦ (err e, s')
          | ok found ↦ elim found [
            | some value ↦ (ok value, s')
            | none ↦ compute_coalesced s' key strategy draw heard
          ]
        ]

  -- The closure that `get_or_compute_typed` passes on: compute a value and serialize it.
  abbrev pub serialized :
      {A : Type 0} ⦃s : Serde A⦄
      → CacheManager F S T C
      → (W → CacheResult A × W)
      → W
      → CacheResult Bytes × W
  serialized m compute w = let r = compute w in (r.0 >>= serialize m.serializer, r.1)

  -- The call borrows the manager, so `self.serializer` is the same from its start to its end. `heard`
  -- and `heard'` are what the two reads hear if they have to wait.
  unfoldable pub get_or_compute_typed :
      {A : Type 0} ⦃s : Serde A⦄
      → (W → CacheResult A × W)
      → Session F S T C W
      → Bytes
      → CacheStrategy
      → (draw draw' : ℕ → Bool) → (heard heard' : Option (CacheResult (Option Bytes)))
      → CacheResult A × Session F S T C W
  unfolding get_or_compute_with
  get_or_compute_typed compute s key strategy draw draw' heard heard' =
      let read = get_typed s.manager key draw heard in
      let s' = record s { manager = read.1 } in
      let r = get_or_compute_with (serialized s.manager compute) s' key strategy draw' heard' in
      elim read.0 [
        | err e ↦ (err e, s')
        | ok found ↦ elim found [
          | some value ↦ (ok value, s')
          | none ↦ (r.0 >>= deserialize s.manager.serializer, r.1)
        ]
      ]

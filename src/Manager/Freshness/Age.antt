-- ===== src/Manager/Freshness/Age.antt =====
-- src/cache_manager.rs: a history of calls while time passes, and how old the values are that it
-- serves.
use multi_tier_cache.Base.{
  ℕ, ◌+◌, ◌≤◌, ◌≡◌, Bool, Option, none, some, List, [], ◌∷◌, Bytes, CacheResult, ok, err, inl, inr,
  ◌⊎◌, arith,
}
use mathlib.Core.Option.{get_or}
use multi_tier_cache.Time.{Duration, Float}
use multi_tier_cache.Traits.{L2CacheBackend}
use multi_tier_cache.Invalidation.Message.{SerdeJson}
use multi_tier_cache.Invalidation.Publisher.{RedisConn}
use multi_tier_cache.Manager.Tier.{CacheStrategy, to_duration, default}
use multi_tier_cache.Manager.{CacheManager}
use multi_tier_cache.Manager.Get.{get}
use multi_tier_cache.Manager.Set.{set_with_strategy}
use multi_tier_cache.Manager.Compute.{get_or_compute_with, sent_of}
use multi_tier_cache.Manager.Invalidate.{
  invalidate, update_cache, invalidate_pattern, set_with_broadcast,
}

-- A value that a call has offered for a key, and when its time is over.
pub record Offer : Type 0 where
  pub key : Bytes
  pub value : Bytes
  pub deadline : ℕ

-- The value was offered for the key with a deadline that is not before `at`.
abbrev pub Due : ℕ → Bytes → Bytes → List Offer → Type 0
Due at key value [] = ⊥
Due at key value (o ∷ log) =
    ((o.key ≡ key) × (o.value ≡ value) × (at ≤ o.deadline)) ⊎ Due at key value log

pub Due-earlier :
    (at later : ℕ) (key value : Bytes) (log : List Offer)
    → at ≤ later
    → Due later key value log
    → Due at key value log
Due-earlier at later key value [] h d = elim d [ ]
Due-earlier at later key value (o ∷ log) h (inl (k, v, t)) = inl (k, v, omega arith)
Due-earlier at later key value (o ∷ log) h (inr d) = inr (Due-earlier at later key value log h d)

-- What a backend is at each instant, and what it then holds at any instant: a read, a removal, by a
-- key or a pattern, and the passing of time add nothing, a write adds its value for no more than its
-- time, and a read reports no more time than the value has left, and no time at all only for a value
-- that stays at least for the default time. A call may fail.
pub record IsTimed {S : Type 0} (clock : ℕ → L2CacheBackend S)
    (holds_at : ℕ → S → Bytes → Option Bytes) : Type 0 where
  pub reads :
      (now later : ℕ) (s : S) (k j v : Bytes)
      → now ≤ later
      → holds_at later ((clock now).get_with_ttl s k).1 j ≡ some v
      → holds_at later s j ≡ some v
  pub reports :
      (now : ℕ) (s : S) (k v : Bytes) (ttl : Option Duration)
      → ((clock now).get_with_ttl s k).0 ≡ some (v, ttl)
      → holds_at (now + get_or ttl (to_duration default)) s k ≡ some v
  pub writes :
      (now later : ℕ) (s : S) (k j v w : Bytes) (ttl : Duration)
      → now ≤ later
      → holds_at later ((clock now).set_with_ttl s k v ttl).1 j ≡ some w
      → (holds_at later s j ≡ some w) ⊎ ((k ≡ j) × (v ≡ w) × (later ≤ now + ttl))
  pub removes :
      (now later : ℕ) (s : S) (k j v : Bytes)
      → now ≤ later
      → holds_at later ((clock now).remove s k).1 j ≡ some v
      → holds_at later s j ≡ some v
  pub clears :
      (now later : ℕ) (s : S) (pattern j v : Bytes)
      → now ≤ later
      → holds_at later ((clock now).remove_pattern s pattern).1 j ≡ some v
      → holds_at later s j ≡ some v

-- A call, some time after the call before it. The closure of a computation gives `answer`.
pub data Timed : Type 0 where
  gets :
      (wait : ℕ) (key : Bytes) (draw : ℕ → Bool) (heard : Option (CacheResult (Option Bytes)))
      → Timed
  computes :
      (wait : ℕ) (key : Bytes) (answer : CacheResult Bytes) (strategy : CacheStrategy)
      (draw : ℕ → Bool) (heard : Option (CacheResult (Option Bytes)))
      → Timed
  sets : (wait : ℕ) (key value : Bytes) (strategy : CacheStrategy) → Timed
  updates : (wait stamp : ℕ) (key value : Bytes) (ttl : Option Duration) → Timed
  invalidates : (wait stamp : ℕ) (key : Bytes) → Timed
  clears : (wait stamp : ℕ) (pattern : Bytes) → Timed
  broadcasts : (wait stamp : ℕ) (key value : Bytes) (strategy : CacheStrategy) → Timed

-- A result that a caller got, and what had been offered by then.
pub record Served : Type 0 where
  pub at : ℕ
  pub key : Bytes
  pub result : CacheResult (Option Bytes)
  pub log : List Offer

-- No value is served later than some call for its key allowed it.
abbrev pub IsFresh : Served → Type 0
IsFresh s = (value : Bytes) → s.result ≡ ok (some value) → Due s.at s.key value s.log

abbrev pub offered : ℕ → Bytes → CacheResult Bytes → CacheStrategy → List Offer → List Offer
offered now key (ok value) strategy log =
    record { key = key; value = value; deadline = now + to_duration strategy } ∷ log
offered now key (err e) strategy log = log

pub record Clocked (F S T C : Type 0) : Type 0 where
  pub now : ℕ
  pub manager : CacheManager F S T C
  pub log : List Offer

abbrev pub add : Option Served → List Served → List Served
add none served = served
add (some s) served = s ∷ served

module _ {F S T C : Type 0} ⦃f : Float F⦄ ⦃redis : RedisConn C⦄ ⦃json : SerdeJson⦄
    (clock : ℕ → L2CacheBackend S) where
  unfoldable pub timed_step : Clocked F S T C → Timed → Option Served × Clocked F S T C
  timed_step c (gets wait key draw heard) =
      let now = c.now + wait in
      let instance b = clock now in
      let r = get c.manager key draw heard in
      (
        some (record { at = now; key = key; result = r.0; log = c.log }),
        record { now = now; manager = r.1; log = c.log },
      )
  timed_step c (computes wait key answer strategy draw heard) =
      let now = c.now + wait in
      let instance b = clock now in
      let log = offered now key answer strategy c.log in
      let r =
        get_or_compute_with {W = Unit {0}} (λ w. (answer, w))
          (record { manager = c.manager; world = tt }) key strategy draw heard in
      (
        some (record { at = now; key = key; result = sent_of r.0; log = log }),
        record { now = now; manager = r.1.manager; log = log },
      )
  timed_step c (sets wait key value strategy) =
      let now = c.now + wait in
      let instance b = clock now in
      let r = set_with_strategy c.manager key value strategy in
      (none, record { now = now; manager = r.1; log = offered now key (ok value) strategy c.log })
  timed_step c (updates wait stamp key value ttl) =
      let now = c.now + wait in
      let instance b = clock now in
      let r = update_cache stamp c.manager key value ttl in
      let strategy = CacheStrategy.custom (get_or ttl (to_duration default)) in
      (none, record { now = now; manager = r.1; log = offered now key (ok value) strategy c.log })
  timed_step c (invalidates wait stamp key) =
      let now = c.now + wait in
      let instance b = clock now in
      (none, record { now = now; manager = (invalidate stamp c.manager key).1; log = c.log })
  timed_step c (clears wait stamp pattern) =
      let now = c.now + wait in
      let instance b = clock now in
      (
        none,
        record { now = now; manager = (invalidate_pattern stamp c.manager pattern).1; log = c.log },
      )
  timed_step c (broadcasts wait stamp key value strategy) =
      let now = c.now + wait in
      let instance b = clock now in
      let r = set_with_broadcast stamp c.manager key value strategy in
      (none, record { now = now; manager = r.1; log = offered now key (ok value) strategy c.log })

  unfoldable pub timed_run : Clocked F S T C → List Timed → List Served
  unfolding timed_step
  timed_run c [] = []
  timed_run c (call ∷ calls) =
      let r = timed_step c call in let later = timed_run r.1 calls in add r.0 later

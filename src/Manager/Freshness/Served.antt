-- ===== src/Manager/Freshness/Served.antt =====
-- src/cache_manager.rs: no value is served after its time, whatever the tiers and promotions do.
use multi_tier_cache.Base.{
  ℕ, ◌+◌, refl, ◌∙◌, Option, none, some, List, [], ◌∷◌, All, Bytes, ok, arith,
}
use mathlib.Core.Option.{get_or}
use multi_tier_cache.Time.{Float}
use multi_tier_cache.Traits.{L2CacheBackend}
use multi_tier_cache.Invalidation.Message.{SerdeJson}
use multi_tier_cache.Invalidation.Publisher.{RedisConn}
use multi_tier_cache.Manager.Tier.{CacheStrategy, to_duration, default}
use multi_tier_cache.Manager.Compute.{Session}
use multi_tier_cache.Manager.Invariant.Reads.{get-Calm}
use multi_tier_cache.Manager.Invariant.Writes.{
  set_with_strategy-Calm, get_or_compute_with-Calm, invalidate-Calm, update_cache-Calm,
  invalidate_pattern-Calm, set_with_broadcast-Calm,
}
use multi_tier_cache.Manager.Freshness.{set_with_strategy-Holds}
use multi_tier_cache.Manager.Freshness.Reads.{get-Kept}
use multi_tier_cache.Manager.Freshness.Writes.{
  invalidate-Holds, update_cache-Holds, invalidate_pattern-Holds, set_with_broadcast-Holds,
  get_or_compute_with-Computed,
}
use multi_tier_cache.Manager.Freshness.Age.{
  Due-earlier, IsTimed, Timed, gets, computes, sets, updates, invalidates, clears, broadcasts,
  Served, IsFresh, offered, Clocked, timed_step, add, timed_run,
}
use multi_tier_cache.Manager.Freshness.Timely.{
  Timely-Ages, offered-Due, offered-Allowed, Holds-later, IsTimely,
}

abbrev Each : Option Served → Type 0
Each none = Unit
Each (some s) = IsFresh s

All-add : (s : Option Served) (l : List Served) → Each s → All IsFresh l → All IsFresh (add s l)
All-add none l h k = k
All-add (some s) l h k = (h, k)

module _ {F S T C : Type 0} ⦃f : Float F⦄ ⦃redis : RedisConn C⦄ ⦃json : SerdeJson⦄
    (clock : ℕ → L2CacheBackend S) (holds_at : ℕ → S → Bytes → Option Bytes)
    (timed : IsTimed clock holds_at) where
  timed_step-IsTimely :
      (c : Clocked F S T C) (call : Timed)
      → IsTimely holds_at c
      → Each (timed_step clock c call).0 × IsTimely holds_at (timed_step clock c call).1
  unfolding timed_step
  timed_step-IsTimely c (gets wait key draw heard) (quiet, h) =
      let now = c.now + wait in
      let instance b = clock now in
      let ages = Timely-Ages clock holds_at timed now c.log in
      let kept = get-Kept ages c.manager key draw heard quiet (
        Holds-later holds_at c.now now c.log c.log c.manager.tiers (omega arith) (λ _ _ _ d. d)
          h) in
      (
        λ v e.
            let found = kept.0 v e in
            Due-earlier now (now + found.0) key v c.log (omega arith) found.1,
        ((get-Calm c.manager key draw heard).0 ∙ quiet, kept.1),
      )
  timed_step-IsTimely c (computes wait key answer strategy draw heard) (quiet, h) =
      let now = c.now + wait in
      let instance b = clock now in
      let log = offered now key answer strategy c.log in
      let ages = Timely-Ages clock holds_at timed now log in
      let s : Session F S T C (Unit {0}) = record { manager = c.manager; world = tt } in
      let kept =
        get_or_compute_with-Computed ages (λ w. (answer, w)) key strategy s draw heard quiet
          (offered-Allowed now key strategy c.log answer)
          (Holds-later holds_at c.now now c.log log c.manager.tiers (omega arith)
            (offered-Due now key strategy c.log answer) h) in
      (
        λ v e.
            let found = kept.0 v e in
            Due-earlier now (now + found.0) key v log (omega arith) found.1,
        ((get_or_compute_with-Calm (λ w. (answer, w)) key strategy s draw heard).0 ∙ quiet, kept.1),
      )
  timed_step-IsTimely c (sets wait key value strategy) (quiet, h) =
      let now = c.now + wait in
      let instance b = clock now in
      let log = offered now key (ok value) strategy c.log in
      let ages = Timely-Ages clock holds_at timed now log in
      (
        tt,
        (
          (set_with_strategy-Calm c.manager key value strategy).0 ∙ quiet,
          set_with_strategy-Holds ages c.manager key value strategy
              (offered-Allowed now key strategy c.log (ok value) value refl)
              (Holds-later holds_at c.now now c.log log c.manager.tiers (omega arith)
                (offered-Due now key strategy c.log (ok value)) h),
        ),
      )
  timed_step-IsTimely c (updates wait stamp key value ttl) (quiet, h) =
      let now = c.now + wait in
      let instance b = clock now in
      let strategy = CacheStrategy.custom (get_or ttl (to_duration default)) in
      let log = offered now key (ok value) strategy c.log in
      let ages = Timely-Ages clock holds_at timed now log in
      (
        tt,
        (
          (update_cache-Calm stamp c.manager key value ttl).0 ∙ quiet,
          update_cache-Holds ages stamp c.manager
              (Holds-later holds_at c.now now c.log log c.manager.tiers (omega arith)
                (offered-Due now key strategy c.log (ok value)) h)
              key value ttl (offered-Allowed now key strategy c.log (ok value) value refl),
        ),
      )
  timed_step-IsTimely c (invalidates wait stamp key) (quiet, h) =
      let now = c.now + wait in
      let instance b = clock now in
      let ages = Timely-Ages clock holds_at timed now c.log in
      (
        tt,
        (
          (invalidate-Calm stamp c.manager key).0 ∙ quiet,
          invalidate-Holds ages stamp c.manager
              (Holds-later holds_at c.now now c.log c.log c.manager.tiers (omega arith)
                (λ _ _ _ d. d) h)
              key,
        ),
      )
  timed_step-IsTimely c (clears wait stamp pattern) (quiet, h) =
      let now = c.now + wait in
      let instance b = clock now in
      let ages = Timely-Ages clock holds_at timed now c.log in
      (
        tt,
        (
          (invalidate_pattern-Calm stamp c.manager pattern).0 ∙ quiet,
          invalidate_pattern-Holds ages stamp c.manager
              (Holds-later holds_at c.now now c.log c.log c.manager.tiers (omega arith)
                (λ _ _ _ d. d) h)
              pattern,
        ),
      )
  timed_step-IsTimely c (broadcasts wait stamp key value strategy) (quiet, h) =
      let now = c.now + wait in
      let instance b = clock now in
      let log = offered now key (ok value) strategy c.log in
      let ages = Timely-Ages clock holds_at timed now log in
      (
        tt,
        (
          (set_with_broadcast-Calm stamp c.manager key value strategy).0 ∙ quiet,
          set_with_broadcast-Holds ages stamp c.manager
              (Holds-later holds_at c.now now c.log log c.manager.tiers (omega arith)
                (offered-Due now key strategy c.log (ok value)) h)
              key value strategy (offered-Allowed now key strategy c.log (ok value) value refl),
        ),
      )

  -- Take backends over time, whose calls may fail: a read, a removal, by a key or a pattern, and
  -- the passing of time add nothing to what they hold, a write adds its value for no more than its
  -- time to live, and a read reports no more time than the value has left, and no time at all only
  -- for a value that stays at least for the default time. Let no tier's scale make a time longer,
  -- no request be in flight, and what the tiers hold at the start have been offered for as long.
  -- Then in any history of `get`, `get_or_compute_with`, `set_with_strategy`, `update_cache`,
  -- `set_with_broadcast`, `invalidate` and `invalidate_pattern` with any time between the calls,
  -- each run to its end at one instant, every value that a `get` or a `get_or_compute_with` returns
  -- was offered for that key, as the value of a write or an update or as what the closure of a
  -- computation gives, with a time to live that has not passed since: promotions never serve a
  -- value for longer than the calls allowed.
  pub timed_run-IsFresh :
      (calls : List Timed) (c : Clocked F S T C)
      → IsTimely holds_at c
      → All IsFresh (timed_run clock c calls)
  unfolding timed_run
  timed_run-IsFresh [] c h = tt
  timed_run-IsFresh (call ∷ calls) c h =
      let k = timed_step-IsTimely c call h in
      let r = timed_step clock c call in
      All-add r.0 (timed_run clock r.1 calls) k.0 (timed_run-IsFresh calls r.1 k.1)

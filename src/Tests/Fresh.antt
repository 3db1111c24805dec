-- ===== src/Tests/Fresh.antt =====
-- The theorem on the age of what is served, applied to a history of two empty caches.
use multi_tier_cache.Base.{
  ℕ, ◌≡◌, refl, bytes_eq, Option, false, true, map, none, some, List, [], ◌∷◌, ◌++◌, Bytes, All, ok,
  err, not_found, codes, arith,
}
use multi_tier_cache.Time.{from_secs}
use multi_tier_cache.Traits.{L2CacheBackend}
use multi_tier_cache.Backends.DashMap.{backend_at, get_with_ttl, set_with_ttl}
use multi_tier_cache.Backends.DashMap.Laws.{holds_at}
use multi_tier_cache.Backends.DashMap.Timed.{backend_at-IsTimed}
use multi_tier_cache.Manager.Tier.{new_tier, short_term, real_time}
use multi_tier_cache.Manager.Construct.{fresh}
use multi_tier_cache.Manager.Fetch.{get_multi_tier_from}
use multi_tier_cache.Manager.Get.{get, fast_path, lower_tiers, contains_key, remove_key}
use multi_tier_cache.Manager.Set.{set_with_strategy}
use multi_tier_cache.Manager.Compute.{get_or_compute_with}
use multi_tier_cache.Manager.Invalidate.{update_cache, invalidate}
use multi_tier_cache.Manager.Freshness.Age.{
  Timed, gets, computes, sets, updates, invalidates, clears, broadcasts, IsFresh, Served, Clocked,
  timed_run,
}
use multi_tier_cache.Manager.Freshness.Timely.{IsTimely}
use multi_tier_cache.Manager.Freshness.Served.{timed_run-IsFresh}
use multi_tier_cache.Tests.AssocMap.{assoc_map, assoc_map-IsMap, lookup, delete}
use multi_tier_cache.Tests.Setup.{
  whole, log_conn, number_json, dash, Dash, dash_with, draw, publisher, Log,
}

abbrev clock : ℕ → L2CacheBackend Dash
clock = backend_at ⦃maps = assoc_map⦄

abbrev held_at : ℕ → Dash → Bytes → Option Bytes
held_at = holds_at ⦃maps = assoc_map⦄

abbrev empty_caches : Clocked ℕ Dash Unit Log
empty_caches = record {
  now = 100;
  manager =
      fresh
        (new_tier ⦃b = dash⦄ (dash_with []) 1 false 1 1
          ∷ new_tier ⦃b = dash⦄ (dash_with []) 2 true 1 1
          ∷ [])
        none (some publisher);
  log = [];
}

abbrev first_calls : List Timed
first_calls =
    sets 5 (codes "a") (1 ∷ []) real_time
    ∷ gets 20 (codes "a") draw none
    ∷ computes 3 (codes "b") (ok (2 ∷ [])) short_term draw none
    ∷ updates 0 7 (codes "a") (3 ∷ []) none
    ∷ gets (from_secs 400) (codes "a") draw none
    ∷ computes 1 (codes "b") (err not_found) short_term draw none
    ∷ invalidates 1 7 (codes "b")
    ∷ gets 1 (codes "b") draw none
    ∷ []

abbrev history : List Timed
history =
    first_calls
    ++ broadcasts 1 8 (codes "cat") (4 ∷ []) short_term
      ∷ clears 1 8 (codes "b*")
      ∷ gets 1 (codes "cat") draw none
      ∷ []

empty_caches-IsTimely : IsTimely held_at empty_caches
unfolding lookup assoc_map
empty_caches-IsTimely = (
  refl,
  (
    ((λ later j w after e. absurd (ground arith)), λ d. omega arith),
    (((λ later j w after e. absurd (ground arith)), λ d. omega arith), tt),
  ),
)

-- What is served: a value in time, one computed, none, one that fails, and none.
served_results :
    map (λ (s : Served). s.result) (timed_run clock empty_caches first_calls)
    ≡ ok (some (1 ∷ [])) ∷ ok (some (2 ∷ [])) ∷ ok none ∷ err not_found ∷ ok none ∷ []
unfolding timed_run lookup assoc_map delete bytes_eq get_with_ttl set_with_ttl get fast_path
    lower_tiers contains_key remove_key get_multi_tier_from set_with_strategy get_or_compute_with
    update_cache invalidate
served_results = refl

timed_run-IsFresh_example : All IsFresh (timed_run clock empty_caches history)
timed_run-IsFresh_example =
    timed_run-IsFresh clock held_at (backend_at-IsTimed ⦃maps = assoc_map⦄ assoc_map-IsMap) history
      empty_caches empty_caches-IsTimely

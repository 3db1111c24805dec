-- ===== src/Tests/Instances.antt =====
-- The theorems on constructors, refused writes and received messages, applied to small managers.
use multi_tier_cache.Base.{
  ◌⊎◌, CacheError, err, ℕ, ◌≡◌, refl, none, some, List, [], ◌∷◌, ◌++◌, map, Bytes, ok, codes, arith,
  ◌↔◌,
}
use multi_tier_cache.Time.{from_secs}
use multi_tier_cache.Invalidation.Message.{
  InvalidationMessage, remove_bulk, to_json, to_wire, new_update,
}
use multi_tier_cache.Invalidation.Hex
use multi_tier_cache.Invalidation.Stats.{zero_stats}
use multi_tier_cache.Invalidation.Subscriber.{Task, event_loop}
use multi_tier_cache.Manager.Tier.{short_term, CacheTier, to_duration, long_term}
use multi_tier_cache.Manager.Set.{set_with_strategy}
use multi_tier_cache.Manager.Set.Outcome.{answers, all_written, verdict, set_with_strategy-verdict}
use multi_tier_cache.Manager.Construct.{new_with_tiers, fresh}
use multi_tier_cache.Manager.Construct.Sorted.{Ascending, FirstFall, new_with_tiers_lem}
use multi_tier_cache.Manager.Abstract.{visible}
use multi_tier_cache.Manager.Receive.{apply_to_tiers, tier_handler}
use multi_tier_cache.Manager.Receive.Effect.{effect, apply_to_tiers-effect}
use multi_tier_cache.Manager.Receive.Convergence.{arrives, event_loop-changes}
use multi_tier_cache.Manager.Receive.Sent.{
  Change, invalidated, updated, written, cleared, change, changes, Succeed,
}
use multi_tier_cache.Manager.Invalidate.{
  broadcast, send, invalidate, update_cache, set_with_broadcast, invalidate_pattern,
}
use multi_tier_cache.Invalidation.Publisher.{InvalidationPublisher, publish}
use multi_tier_cache.Invalidation.Publisher.Carried.{Carries}
use multi_tier_cache.Tests.Setup.{
  whole, log_conn, publisher, Log, number_json, number_json-ReadsBack, write_wire, dash, Dash,
  dash_holds, dash-IsLawful, dash-IsReliable, dash-ClearsPatterns, dash-AcceptsPatterns, l1, l2,
  manager,
}

set_with_strategy-verdict_example :
    let r = set_with_strategy manager (codes "k") (4 ∷ []) long_term in
    (r.0 ≡ verdict (answers (codes "k") (4 ∷ []) (to_duration long_term) (l1 ∷ l2 ∷ [])))
    × (r.1.tiers ≡ all_written (codes "k") (4 ∷ []) (to_duration long_term) (l1 ∷ l2 ∷ []))
set_with_strategy-verdict_example = set_with_strategy-verdict manager (codes "k") (4 ∷ []) long_term

-- The levels fall here.
new_with_tiers_lem_example :
    ((new_with_tiers {T = Unit} {C = Log} (l2 ∷ l1 ∷ []) none ≡ ok (fresh (l2 ∷ l1 ∷ []) none none))
      ↔ Ascending (l2 ∷ l1 ∷ []))
    × (Ascending (l2 ∷ l1 ∷ [])
        ⊎ ((e : CacheError) × (new_with_tiers {T = Unit} {C = Log} (l2 ∷ l1 ∷ []) none ≡ err e)
            × FirstFall (l2 ∷ l1 ∷ []) e))
new_with_tiers_lem_example = new_with_tiers_lem (l2 ∷ l1 ∷ []) none

abbrev bulk : InvalidationMessage
bulk = remove_bulk (codes "a" ∷ codes "z" ∷ [])

apply_to_tiers-effect_example :
    visible dash_holds (apply_to_tiers bulk (l1 ∷ l2 ∷ [])) (codes "a")
    ≡ effect bulk (visible dash_holds (l1 ∷ l2 ∷ [])) (codes "a")
apply_to_tiers-effect_example =
    apply_to_tiers-effect dash_holds dash-IsLawful dash-IsReliable dash-ClearsPatterns bulk
      (l1 ∷ l2 ∷ []) (codes "a") refl

-- "a" is removed, "k" is set to 10 for an hour, "m" to 11 for five minutes, and all keys with a "b"
-- in front are cleared.
abbrev calls : List Change
calls =
    invalidated (codes "a")
    ∷ updated (codes "k") (10 ∷ []) (some (from_secs 3600))
    ∷ written (codes "m") (11 ∷ []) short_term
    ∷ cleared (codes "b*")
    ∷ []

abbrev receiver : Task (List (CacheTier ℕ Dash))
receiver = record { stats = zero_stats; state = l1 ∷ l2 ∷ [] }

-- The log stands with its newest entry first.
unfoldable carried : Log → List (Bytes × Bytes)
carried [] = []
carried (x ∷ log) = carried log ++ x ∷ []

log_conn-Carries : Carries log_conn carried
unfolding carried
log_conn-Carries = record { publishes = λ log channel text sent. refl; queries = λ log words. refl }

calls-Succeed : Succeed 7 manager calls
unfolding change invalidate update_cache set_with_broadcast invalidate_pattern set_with_strategy
    broadcast send publish to_json to_wire write_wire new_update Hex.serialize
    multi_tier_cache.Backends.DashMap.set_with_ttl multi_tier_cache.Backends.DashMap.remove_pattern
calls-Succeed = (refl, (refl, (refl, (refl, tt))))

event_loop-changes_example :
    let m' = changes 7 manager calls in
    (p' : InvalidationPublisher Log) × (m'.invalidation_publisher ≡ some p')
    × (texts : List Bytes) × (carried p'.connection
        ≡ carried publisher.connection ++ map (λ text. (publisher.config.channel, text)) texts)
    × ((j : Bytes)
        → visible dash_holds (event_loop tier_handler (map arrives texts) receiver).1.state j
          ≡ visible dash_holds m'.tiers j)
event_loop-changes_example =
    event_loop-changes dash_holds dash-IsLawful dash-IsReliable dash-ClearsPatterns
      dash-AcceptsPatterns number_json-ReadsBack carried log_conn-Carries calls 7 manager publisher
      receiver refl calls-Succeed (tt, ((omega arith, tt), ((omega arith, tt), (tt, tt)))) refl refl
      (λ j. refl)

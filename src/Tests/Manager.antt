-- ===== src/Tests/Manager.antt =====
-- The theorems on the manager, applied to a manager of two `DashMapCache` tiers.
use multi_tier_cache.Base.{ℕ, ◌≡◌, refl, false, none, some, List, [], ◌∷◌, Bytes, bytes_eq, codes}
use multi_tier_cache.Serialization.{msg_pack}
use multi_tier_cache.Invalidation.Message.{remove_bulk}
use multi_tier_cache.Manager.Tier.{short_term, real_time}
use multi_tier_cache.Manager.Get.{contains_key, get}
use multi_tier_cache.Manager.Get.Counting.{but_promotions, after_miss, hit_level, get-after_miss}
use multi_tier_cache.Manager.Compute.{get_or_compute_with}
use multi_tier_cache.Manager.Abstract.{visible}
use multi_tier_cache.Manager.Abstract.Get.{ReadsVisible, get_lem}
use multi_tier_cache.Manager.Abstract.Compute.{
  Computes, Recalls, get_or_compute_with-Recalls, get_or_compute_with-Computes,
}
use multi_tier_cache.Manager.Abstract.Run.{
  Call, gets, sets, computes, invalidates, updates, broadcasts, clears, receives, serializes, run,
  Ideal, ideal_run,
}
use multi_tier_cache.Manager.Abstract.Agreement.{Matches}
use multi_tier_cache.Manager.Abstract.Refinement.{run-Matches}
use multi_tier_cache.Tests.AssocMap.{lookup, assoc_map}
use multi_tier_cache.Tests.Setup.{
  whole, log_conn, number_json, dash, dash_holds, dash-IsLawful, dash-IsReliable,
  dash-ClearsPatterns, dash-AcceptsPatterns, l1, l2, manager, session, compute, draw,
}

-- No key is in flight in the manager.
quiet : (key : Bytes) → contains_key manager.in_flight_requests key ≡ false
unfolding contains_key
quiet key = refl

-- Nothing is visible under "d", and 1 under "a", in spite of the expired entry in the first tier.
absent_d : visible dash_holds manager.tiers (codes "d") ≡ none
unfolding lookup assoc_map bytes_eq
absent_d = refl

present_a : visible dash_holds manager.tiers (codes "a") ≡ some (1 ∷ [])
unfolding lookup assoc_map bytes_eq
present_a = refl

expired : dash_holds l1.backend (codes "a") ≡ none
unfolding lookup assoc_map bytes_eq
expired = refl

abbrev calls : List (Call ℕ)
calls =
    gets (codes "a") draw none
    ∷ sets (codes "c") (5 ∷ []) short_term
    ∷ computes (codes "d") real_time compute draw none
    ∷ invalidates 100 (codes "b")
    ∷ updates 100 (codes "a") (6 ∷ []) none
    ∷ gets (codes "b") draw none
    ∷ broadcasts 100 (codes "bee") (8 ∷ []) short_term
    ∷ clears 100 (codes "a*")
    ∷ receives (remove_bulk (codes "c" ∷ []))
    ∷ serializes msg_pack
    ∷ []

abbrev ideal : Ideal ℕ
ideal = record { content = visible dash_holds manager.tiers; world = 0 }

run-Matches_example :
    ((run session calls).0 ≡ (ideal_run ideal calls).0)
    × Matches dash_holds dash-IsLawful dash-IsReliable
        (run session calls).1
        (ideal_run ideal calls).1
run-Matches_example =
    run-Matches dash_holds dash-IsLawful dash-IsReliable calls session ideal
      (
        tt,
        (
          tt,
          (
            tt,
            (
              tt,
              (
                tt,
                (
                  tt,
                  (
                    tt,
                    ((dash-ClearsPatterns, dash-AcceptsPatterns), (dash-ClearsPatterns, (tt, tt))),
                  ),
                ),
              ),
            ),
          ),
        ),
      )
      (record { shown = λ j. refl; world = refl; quiet = refl; tiered = refl })

get_or_compute_with-Computes_example :
    Computes dash_holds dash-IsLawful dash-IsReliable compute
      (codes "d")
      session
      (get_or_compute_with compute session (codes "d") short_term draw none)
get_or_compute_with-Computes_example =
    get_or_compute_with-Computes dash_holds dash-IsLawful dash-IsReliable compute session
      (codes "d") short_term draw none (quiet (codes "d")) refl absent_d

get_or_compute_with-Recalls_example :
    Recalls dash_holds dash-IsLawful dash-IsReliable
      (1 ∷ [])
      (codes "a")
      session
      (get_or_compute_with compute session (codes "a") short_term draw none)
get_or_compute_with-Recalls_example =
    get_or_compute_with-Recalls dash_holds dash-IsLawful dash-IsReliable compute session (codes "a")
      short_term draw none (1 ∷ []) present_a

get_lem_example :
    ReadsVisible dash_holds dash-IsLawful dash-IsReliable manager
      (codes "a")
      (get manager (codes "a") draw none)
get_lem_example =
    get_lem dash_holds dash-IsLawful dash-IsReliable manager (codes "a") draw none
      (quiet (codes "a"))

get-after_miss_example :
    but_promotions 0 (get manager (codes "a") draw none).1.counters
    ≡ but_promotions 0 (after_miss (hit_level (codes "a") (l2 ∷ [])) manager.counters)
get-after_miss_example =
    get-after_miss manager l1 (l2 ∷ []) (codes "a") draw none dash_holds dash-IsLawful
      (quiet (codes "a")) expired

-- ===== src/Tests/Invariant.antt =====
-- The invariant of a manager, applied to a history with a failing computation.
use multi_tier_cache.Base.{
  ℕ, none, some, List, [], ◌∷◌, codes, CacheResult, err, not_found, Bytes, arith,
}
use multi_tier_cache.Serialization.{msg_pack}
use multi_tier_cache.Invalidation.Message.{remove_bulk}
use multi_tier_cache.Manager.Tier.{short_term, real_time}
use multi_tier_cache.Manager.Construct.{fresh}
use multi_tier_cache.Manager.Abstract.Run.{
  Call, gets, computes, clears, broadcasts, receives, serializes, run,
}
use multi_tier_cache.Manager.Invariant.Run.{IsSound, fresh-IsSound}
use multi_tier_cache.Tests.AssocMap.{assoc_map}
use multi_tier_cache.Tests.Setup.{whole, log_conn, number_json, dash, l1, l2, draw, publisher}

abbrev fails : ℕ → CacheResult Bytes × ℕ
fails n = (err not_found, n)

abbrev history : List (Call ℕ)
history =
    gets (codes "z") draw none
    ∷ computes (codes "d") real_time fails draw none
    ∷ clears 100 (codes "a*")
    ∷ broadcasts 100 (codes "b") (7 ∷ []) short_term
    ∷ receives (remove_bulk (codes "b" ∷ []))
    ∷ serializes msg_pack
    ∷ []

fresh-IsSound_example :
    IsSound
      (l1 ∷ l2 ∷ [])
      (run {T = Unit {0}}
        (record { manager = fresh (l1 ∷ l2 ∷ []) none (some publisher); world = 0 })
        history).1.manager
fresh-IsSound_example =
    fresh-IsSound (l1 ∷ l2 ∷ []) none (some publisher) 0 history (omega arith, tt)

-- ===== src/Manager/Abstract/Write.antt =====
-- What the writes and the removals make visible.
use multi_tier_cache.Base.{
  ap, ℕ, ◌+◌, ◌<◌, ◌≡◌, refl, ◌∙◌, false, not, ◌&&◌, Option, none, some, List, [], ◌∷◌, arith,
  Bytes, CacheError, ok, bytes_eq, if◌then◌else◌,
}
use multi_tier_cache.Time.{Duration, Float}
use multi_tier_cache.Traits.{L2CacheBackend}
use multi_tier_cache.Traits.Laws.{IsLawful}
use multi_tier_cache.Manager.Tier.{CacheTier, CacheStrategy, to_duration}
use multi_tier_cache.Manager.{CacheManager}
use multi_tier_cache.Manager.Fetch.{is_empty}
use multi_tier_cache.Manager.Set.{set_tiers, set_with_strategy}
use multi_tier_cache.Manager.Invalidate.{remove_tiers, update_tiers, set_with_broadcast}
use multi_tier_cache.Manager.Settings.Writes.{broadcast-keeps}
use multi_tier_cache.Invalidation.Message.{SerdeJson, new_update}
use multi_tier_cache.Invalidation.Publisher.{RedisConn}
use multi_tier_cache.Manager.Abstract.{IsReliable, visible}
use multi_tier_cache.Manager.Abstract.Read.{set-holds, scaled}

module _ {F S : Type 0} ⦃f : Float F⦄ ⦃b : L2CacheBackend S⦄ (holds : S → Bytes → Option Bytes)
    (lawful : IsLawful b holds) (reliable : IsReliable b) where
  -- What a write of `value` under `key` in all of the tiers makes visible under `j`.
  abbrev pub written : Bytes → Bytes → List (CacheTier F S) → Bytes → Option Bytes
  written key value tiers j =
      if not (is_empty tiers) && bytes_eq key j then some value else visible holds tiers j

  visible-set_tiers :
      (key value : Bytes) (ttl : Duration) (n : ℕ) (last : Option CacheError)
      (tiers : List (CacheTier F S)) (j : Bytes)
      → visible holds (set_tiers key value ttl n last tiers).tiers j ≡ written key value tiers j
  unfolding set_tiers
  visible-set_tiers key value ttl n last [] j = refl
  visible-set_tiers key value ttl n last (t ∷ tiers) j =
      rw (reliable.writes t.backend key value (scaled t ttl), set_tiers)
        (rw
          (
            set-holds holds lawful reliable t key value ttl j,
            visible-set_tiers key value ttl (n + 1) last tiers j,
          )
          (ground arith))

  success_count-pos :
      (key value : Bytes) (ttl : Duration) (n : ℕ) (last : Option CacheError)
      (tiers : List (CacheTier F S))
      → 0 < n
      → 0 < (set_tiers key value ttl n last tiers).success_count
  unfolding set_tiers
  success_count-pos key value ttl n last [] h = h
  success_count-pos key value ttl n last (t ∷ tiers) h =
      rw (reliable.writes t.backend key value (scaled t ttl), set_tiers)
        (success_count-pos key value ttl (n + 1) last tiers (omega arith))

  success_count-of_tier :
      (key value : Bytes) (ttl : Duration) (tiers : List (CacheTier F S))
      → is_empty tiers ≡ false
      → 0 < (set_tiers key value ttl 0 none tiers).success_count
  unfolding set_tiers
  success_count-of_tier key value ttl [] h = absurd (ground arith)
  success_count-of_tier key value ttl (t ∷ tiers) h =
      rw (reliable.writes t.backend key value (scaled t ttl), set_tiers)
        (success_count-pos key value ttl 1 none tiers (omega arith))

  -- With backends that are lawful and never refuse a write or a removal: a write to a manager that
  -- has a tier succeeds. Afterwards its value is visible under its key, and under every other key
  -- what was visible before; the requests in flight are as before.
  pub set_with_strategy_lem :
      {T C : Type 0} (m : CacheManager F S T C) (key value : Bytes) (strategy : CacheStrategy)
      → is_empty m.tiers ≡ false
      → let r = set_with_strategy m key value strategy in
        (r.0 ≡ ok tt)
        × ((j : Bytes)
            → visible holds r.1.tiers j
              ≡ (if bytes_eq key j then some value else visible holds m.tiers j))
        × (r.1.in_flight_requests ≡ m.in_flight_requests)
  unfolding set_with_strategy
  set_with_strategy_lem m key value strategy some_tier = (
    ground (arith, success_count-of_tier key value (to_duration strategy) m.tiers some_tier),
    λ j. visible-set_tiers key value (to_duration strategy) 0 none m.tiers j ∙ rw some_tier refl,
    refl,
  )

  -- A write that is broadcast makes the same visible, whatever becomes of the broadcast.
  pub visible-set_with_broadcast :
      {T C : Type 0} ⦃redis : RedisConn C⦄ ⦃json : SerdeJson⦄ (now : ℕ) (m : CacheManager F S T C)
      (key value : Bytes) (strategy : CacheStrategy) (j : Bytes)
      → is_empty m.tiers ≡ false
      → visible holds (set_with_broadcast now m key value strategy).1.tiers j
        ≡ (if bytes_eq key j then some value else visible holds m.tiers j)
  unfolding set_with_broadcast
  visible-set_with_broadcast now m key value strategy j some_tier =
      let r = set_with_strategy m key value strategy in
      let set = set_with_strategy_lem m key value strategy some_tier in
      let sent = broadcast-keeps now r.1 (new_update key value (some (to_duration strategy))) in
      rw (set.0, set_with_broadcast) (ap (λ l. visible holds l j) sent.0 ∙ set.1 j)

  pub visible-remove_tiers :
      (key : Bytes) (tiers : List (CacheTier F S)) (j : Bytes)
      → visible holds (remove_tiers key tiers) j
        ≡ (if bytes_eq key j then none else visible holds tiers j)
  unfolding remove_tiers
  visible-remove_tiers key [] j = ground arith
  visible-remove_tiers key (t ∷ tiers) j =
      rw
        (
          lawful.clear t.backend key j (reliable.removes t.backend key),
          visible-remove_tiers key tiers j,
        )
        (ground arith)

  pub visible-update_tiers :
      (key value : Bytes) (ttl : Duration) (tiers : List (CacheTier F S)) (j : Bytes)
      → visible holds (update_tiers key value ttl tiers) j ≡ written key value tiers j
  unfolding update_tiers
  visible-update_tiers key value ttl [] j = refl
  visible-update_tiers key value ttl (t ∷ tiers) j =
      rw
        (
          set-holds holds lawful reliable t key value ttl j,
          visible-update_tiers key value ttl tiers j,
        )
        (ground arith)

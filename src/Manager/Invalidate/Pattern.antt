-- ===== src/Manager/Invalidate/Pattern.antt =====
-- src/cache_manager.rs, `invalidate_pattern`: what it clears, and what it leaves when a tier fails.
use multi_tier_cache.Base.{
  ℕ, ◌≡◌, refl, ap, ◌∙◌, Option, none, some, List, [], ◌∷◌, ◌++◌, map, arith, Bytes, CacheError,
  CacheResult, ok, err, All, if◌then◌else◌, Option-cases, inl, inr,
}
use multi_tier_cache.Traits.{L2CacheBackend}
use multi_tier_cache.Traits.Laws.{ClearsPatterns}
use multi_tier_cache.Backends.Pattern.{matches_pattern}
use multi_tier_cache.Invalidation.Message.{InvalidationMessage, remove_pattern, SerdeJson}
use multi_tier_cache.Invalidation.Publisher.{RedisConn, InvalidationPublisher, publish}
use multi_tier_cache.Manager.Tier.{CacheTier}
use multi_tier_cache.Manager.{CacheManager}
use multi_tier_cache.Manager.Invalidate.{remove_pattern_tiers, send, invalidate_pattern}
use multi_tier_cache.Manager.Abstract.{visible}

module _ {F S : Type 0} ⦃b : L2CacheBackend S⦄ (pattern : Bytes) where
  -- A tier after its `remove_pattern`.
  abbrev pub asked : CacheTier F S → CacheTier F S
  asked t = record t { backend = (b.remove_pattern t.backend pattern).1 }

  abbrev pub Accepts : CacheTier F S → Type 0
  Accepts t = (b.remove_pattern t.backend pattern).0 ≡ ok tt

  pub remove_pattern_tiers-accepted :
      (tiers : List (CacheTier F S))
      → All Accepts tiers
      → remove_pattern_tiers pattern tiers ≡ (ok tt, map asked tiers)
  unfolding remove_pattern_tiers
  remove_pattern_tiers-accepted [] h = refl
  remove_pattern_tiers-accepted (t ∷ tiers) h =
      let rest = remove_pattern_tiers-accepted tiers h.1 in
      rw (h.0, remove_pattern_tiers) (ap (λ r. (r.0, asked t ∷ r.1)) rest)

  pub remove_pattern_tiers-refused :
      (front : List (CacheTier F S)) (t : CacheTier F S) (back : List (CacheTier F S))
      (e : CacheError)
      → All Accepts front
      → (b.remove_pattern t.backend pattern).0 ≡ err e
      → remove_pattern_tiers pattern (front ++ t ∷ back)
        ≡ (err e, map asked front ++ asked t ∷ back)
  unfolding remove_pattern_tiers
  remove_pattern_tiers-refused [] t back e h refused = rw (refused, remove_pattern_tiers) refl
  remove_pattern_tiers-refused (u ∷ front) t back e h refused =
      let rest = remove_pattern_tiers-refused front t back e h.1 refused in
      rw (h.0, remove_pattern_tiers) (ap (λ r. (r.0, asked u ∷ r.1)) rest)

-- No removal by a pattern fails.
abbrev pub AcceptsPatterns : {S : Type 0} → L2CacheBackend S → Type 0
AcceptsPatterns b = (s : _) (pattern : Bytes) → (b.remove_pattern s pattern).0 ≡ ok tt

module _ {F S : Type 0} ⦃b : L2CacheBackend S⦄ (accepts : AcceptsPatterns b) where
  pub All-Accepts : (pattern : Bytes) (tiers : List (CacheTier F S)) → All (Accepts pattern) tiers
  All-Accepts pattern [] = tt
  All-Accepts pattern (t ∷ tiers) = (accepts t.backend pattern, All-Accepts pattern tiers)

-- What a broadcast returns, with the publisher that there is.
abbrev pub sent_result :
    {C : Type 0} ⦃redis : RedisConn C⦄ ⦃json : SerdeJson⦄
    → ℕ
    → Option (InvalidationPublisher C)
    → InvalidationMessage
    → CacheResult (Unit {0})
sent_result now none msg = ok tt
sent_result now (some p) msg = (publish now p msg).0

module _ {F S : Type 0} ⦃b : L2CacheBackend S⦄ (holds : S → Bytes → Option Bytes)
    (clears : ClearsPatterns b holds) (pattern : Bytes) where
  visible-asked :
      (tiers : List (CacheTier F S)) (j : Bytes)
      → visible holds (map (asked pattern) tiers) j
        ≡ (if matches_pattern j pattern then none else visible holds tiers j)
  visible-asked [] j = ground arith
  visible-asked (t ∷ tiers) j =
      ground (arith, visible-asked tiers j, clears.clears t.backend pattern j)

module _ {F S T C : Type 0} ⦃b : L2CacheBackend S⦄ ⦃redis : RedisConn C⦄ ⦃json : SerdeJson⦄
    (now : ℕ) (m : CacheManager F S T C) (pattern : Bytes) where
  send_lem :
      (tiers : List (CacheTier F S)) (msg : InvalidationMessage)
      → ((send now (record m { tiers = tiers }) msg).0
          ≡ sent_result now m.invalidation_publisher msg)
        × ((send now (record m { tiers = tiers }) msg).1.tiers ≡ tiers)
  unfolding send
  send_lem tiers msg = elim (Option-cases m.invalidation_publisher) [
    | inl alone ↦ rw (alone, send) (refl, refl)
    | inr (p, there) ↦ rw (there, send) (refl, refl)
  ]

  -- If every tier's `remove_pattern` succeeds, and clears the keys that match and no other: after
  -- `invalidate_pattern`, no key that matches the pattern is visible, under every other key what
  -- was visible still is, and the result is that of the broadcast, or success without a publisher.
  pub invalidate_pattern-clears :
      (holds : S → Bytes → Option Bytes)
      → ClearsPatterns b holds
      → All (Accepts pattern) m.tiers
      → let r = invalidate_pattern now m pattern in
        (r.0 ≡ sent_result now m.invalidation_publisher (remove_pattern pattern))
        × ((j : Bytes)
            → visible holds r.1.tiers j
              ≡ (if matches_pattern j pattern then none else visible holds m.tiers j))
  unfolding invalidate_pattern
  invalidate_pattern-clears holds clears accepted =
      let walked = remove_pattern_tiers-accepted pattern m.tiers accepted in
      let r = remove_pattern_tiers pattern m.tiers in
      let sent = send_lem r.1 (remove_pattern pattern) in
      rw (ap (λ r. r.0) walked, invalidate_pattern)
        (
          sent.0,
          λ j.
              ap (λ tiers. visible holds tiers j) (sent.1 ∙ ap (λ r. r.1) walked)
              ∙ visible-asked holds clears pattern m.tiers j,
        )

  -- If the `remove_pattern` of the tiers before some tier succeeds and that of this tier fails,
  -- `invalidate_pattern` returns its error: the tiers up to it have been asked, those below it keep
  -- all that they hold, and nothing is broadcast.
  pub invalidate_pattern-stops :
      (front : List (CacheTier F S)) (t : CacheTier F S) (back : List (CacheTier F S))
      (e : CacheError)
      → m.tiers ≡ front ++ t ∷ back
      → All (Accepts pattern) front
      → (b.remove_pattern t.backend pattern).0 ≡ err e
      → invalidate_pattern now m pattern
        ≡ (err e, record m { tiers = map (asked pattern) front ++ asked pattern t ∷ back })
  unfolding invalidate_pattern
  invalidate_pattern-stops front t back e split accepted refused =
      let walked =
        ap (remove_pattern_tiers pattern) split
        ∙ remove_pattern_tiers-refused pattern front t back e accepted refused in
      rw (ap (λ r. r.0) walked, invalidate_pattern)
        (ap (λ tiers. (err e, record m { tiers = tiers })) (ap (λ r. r.1) walked))

-- ===== src/Manager/Construct/Sorted.antt =====
-- src/cache_manager.rs, `new_with_tiers`: which lists of tiers it takes.
use multi_tier_cache.Base.{
  ℕ, ◌≤◌, ◌⊎◌, ap, ◌++◌, CacheError, config_error, CacheResult-cases, ◌<◌, ◌≡◌, refl, Option, List,
  [], ◌∷◌, arith, CacheResult, ok, err, leb, ◌↔◌, ◌>>◌, none, Bool-cases, inl, inr,
}
use multi_tier_cache.Manager.Tier.{CacheTier}
use multi_tier_cache.Manager.Construct.{check_sorted, unsorted, new_with_tiers, fresh}

-- Each level is below the one after it.
abbrev pub Ascending : {F S : Type 0} → List (CacheTier F S) → Type 0
Ascending [] = Unit
Ascending (t ∷ []) = Unit
Ascending (t ∷ u ∷ tiers) = (t.tier_level < u.tier_level) × Ascending (u ∷ tiers)

module _ {F S : Type 0} where
  sorted_of_Ascending :
      (tiers : List (CacheTier F S)) → Ascending tiers → check_sorted tiers ≡ ok tt
  unfolding check_sorted
  sorted_of_Ascending [] h = refl
  sorted_of_Ascending (t ∷ []) h = refl
  sorted_of_Ascending (t ∷ u ∷ tiers) h = ground (arith, sorted_of_Ascending (u ∷ tiers) h.1)

  pub Ascending-of_sorted :
      (tiers : List (CacheTier F S)) → check_sorted tiers ≡ ok tt → Ascending tiers
  unfolding check_sorted
  Ascending-of_sorted [] h = tt
  Ascending-of_sorted (t ∷ []) h = tt
  Ascending-of_sorted (t ∷ u ∷ tiers) h = elim (Bool-cases (leb u.tier_level t.tier_level)) [
    | inl above ↦ absurd (ground arith)
    | inr below ↦ (ground arith, Ascending-of_sorted (u ∷ tiers) (ground arith))
  ]

  -- The first tier whose level is not above that of the tier before it, and the error about it.
  abbrev pub FirstFall : List (CacheTier F S) → CacheError → Type 0
  FirstFall tiers e =
      (front : List (CacheTier F S)) × (t : CacheTier F S) × (u : CacheTier F S) × (back : List
        (CacheTier F S))
      × (tiers ≡ front ++ t ∷ u ∷ back)
      × Ascending (front ++ t ∷ [])
      × (u.tier_level ≤ t.tier_level)
      × (e ≡ config_error (unsorted u.tier_level t.tier_level))

  abbrev head_level : List (CacheTier F S) → ℕ
  head_level [] = 0
  head_level (t ∷ tiers) = t.tier_level

  Ascending-cons :
      (t u v w : CacheTier F S) (tiers front back : List (CacheTier F S))
      → u ∷ tiers ≡ front ++ v ∷ w ∷ back
      → t.tier_level < u.tier_level
      → Ascending (front ++ v ∷ [])
      → Ascending (t ∷ front ++ v ∷ [])
  Ascending-cons t u v w tiers [] back e below h =
      let same : u.tier_level ≡ v.tier_level = ap head_level e in (omega (arith, same), tt)
  Ascending-cons t u v w tiers (x ∷ front) back e below h =
      let same : u.tier_level ≡ x.tier_level = ap head_level e in (omega (arith, same), h)

  FirstFall-of_error :
      (tiers : List (CacheTier F S)) (e : CacheError)
      → check_sorted tiers ≡ err e
      → FirstFall tiers e
  unfolding check_sorted
  FirstFall-of_error [] e h = absurd (ground arith)
  FirstFall-of_error (t ∷ []) e h = absurd (ground arith)
  FirstFall-of_error (t ∷ u ∷ tiers) e h = elim (Bool-cases (leb u.tier_level t.tier_level)) [
    | inl above ↦ ([], t, u, tiers, refl, tt, ground arith, ground arith)
    | inr below ↦
        let (front, v, w, back, split, rising, fall, about) =
          FirstFall-of_error (u ∷ tiers) e (ground arith) in
        (
          t ∷ front,
          v,
          w,
          back,
          ap (λ l. t ∷ l) split,
          Ascending-cons t u v w tiers front back split (ground arith) rising,
          fall,
          about,
        )
  ]

  -- `new_with_tiers` succeeds exactly if the levels of the tiers rise strictly, from each tier to
  -- the next, and then with a manager of these tiers whose counters are all zero; an empty list is
  -- accepted. Otherwise it fails with a configuration error, which names the levels of the first
  -- tier that is not above the one before it and of that one before it.
  pub new_with_tiers_lem :
      {T C : Type 0} (tiers : List (CacheTier F S)) (streaming : Option T)
      → ((new_with_tiers {C = C} tiers streaming ≡ ok (fresh tiers streaming none))
          ↔ Ascending tiers)
        × (Ascending tiers
            ⊎ ((e : CacheError) × (new_with_tiers {C = C} tiers streaming ≡ err e)
                × FirstFall tiers e))
  unfolding new_with_tiers
  new_with_tiers_lem {T} {C} tiers streaming = (
    (
      λ e. Ascending-of_sorted tiers (built-sorted (check_sorted tiers) e),
      λ h. rw (sorted_of_Ascending tiers h) refl,
    ),
    elim (CacheResult-cases (check_sorted tiers)) [
      | inl (u, good) ↦ inl (Ascending-of_sorted tiers good)
      | inr (e, bad) ↦ inr (
        e,
        ap (λ r. r >> ok (fresh {C = C} tiers streaming none)) bad,
        FirstFall-of_error tiers e bad,
      )
    ],
  )
    where
      built-sorted :
          (r : CacheResult (Unit {0}))
          → (r >> ok (fresh {C = C} tiers streaming none)) ≡ ok (fresh tiers streaming none)
          → r ≡ ok tt
      built-sorted (ok _) e = refl
      built-sorted (err e') e = absurd (ground arith)

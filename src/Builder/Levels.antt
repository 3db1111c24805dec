-- ===== src/Builder/Levels.antt =====
-- src/builder.rs, `build_multi_tier`: what sorting the tiers by their level does.
use multi_tier_cache.Base.{
  ℕ, ◌≤◌, ◌≡◌, refl, subst, sym, ◌∙◌, true, false, List, [], ◌∷◌, arith, leb, ◌==◌, if◌then◌else◌,
  All, Bool-cases, inl, inr,
}
use multi_tier_cache.Manager.Tier.{TierConfig}
use multi_tier_cache.Builder.{insert_by_level, sort_by_level}

module _ {F S : Type 0} where
  abbrev pub level_of : S × TierConfig F → ℕ
  level_of t = t.1.tier_level

  -- The tiers of one level, in their order.
  abbrev pub at_level : ℕ → List (S × TierConfig F) → List (S × TierConfig F)
  at_level n [] = []
  at_level n (t ∷ tiers) = let rest = at_level n tiers in if level_of t == n then t ∷ rest else rest

  abbrev pub Ordered : List (S × TierConfig F) → Type 0
  Ordered [] = Unit
  Ordered (t ∷ tiers) = All (λ u. level_of t ≤ level_of u) tiers × Ordered tiers

  abbrev pub Distinct : List (S × TierConfig F) → Type 0
  Distinct [] = Unit
  Distinct (t ∷ tiers) = All (λ u. (level_of t == level_of u) ≡ false) tiers × Distinct tiers

  insert-at_level :
      (n : ℕ) (t : S × TierConfig F) (tiers : List (S × TierConfig F))
      → at_level n (insert_by_level t tiers) ≡ at_level n (t ∷ tiers)
  unfolding insert_by_level
  insert-at_level n t [] = refl
  insert-at_level n t (u ∷ tiers) = ground (arith, insert-at_level n t tiers)

  pub sort-at_level :
      (n : ℕ) (tiers : List (S × TierConfig F))
      → at_level n (sort_by_level tiers) ≡ at_level n tiers
  unfolding sort_by_level
  sort-at_level n [] = refl
  sort-at_level n (t ∷ tiers) =
      insert-at_level n t (sort_by_level tiers) ∙ ground (arith, sort-at_level n tiers)

  insert-low :
      (t u : S × TierConfig F) (tiers : List (S × TierConfig F))
      → leb (level_of t) (level_of u) ≡ true
      → insert_by_level t (u ∷ tiers) ≡ t ∷ u ∷ tiers
  unfolding insert_by_level
  insert-low t u tiers low = rw (low, insert_by_level) refl

  insert-high :
      (t u : S × TierConfig F) (tiers : List (S × TierConfig F))
      → leb (level_of t) (level_of u) ≡ false
      → insert_by_level t (u ∷ tiers) ≡ u ∷ insert_by_level t tiers
  unfolding insert_by_level
  insert-high t u tiers high = rw (high, insert_by_level) refl

  module _ (P : S × TierConfig F → Type 0) where
    pub All-insert :
        (t : S × TierConfig F) (tiers : List (S × TierConfig F))
        → P t
        → All P tiers
        → All P (insert_by_level t tiers)
    unfolding insert_by_level
    All-insert t [] p ps = (p, tt)
    All-insert t (u ∷ tiers) p ps = elim (Bool-cases (leb (level_of t) (level_of u))) [
      | inl low ↦ subst (All P) (sym (insert-low t u tiers low)) (p, ps)
      | inr high ↦
          subst (All P) (sym (insert-high t u tiers high)) (ps.0, All-insert t tiers p ps.1)
    ]

    pub insert-All :
        (t : S × TierConfig F) (tiers : List (S × TierConfig F))
        → All P (insert_by_level t tiers)
        → P t × All P tiers
    unfolding insert_by_level
    insert-All t [] ps = ps
    insert-All t (u ∷ tiers) ps = elim (Bool-cases (leb (level_of t) (level_of u))) [
      | inl low ↦ subst (All P) (insert-low t u tiers low) ps
      | inr high ↦
          let qs = subst (All P) (insert-high t u tiers high) ps in
          let rest = insert-All t tiers qs.1 in (rest.0, (qs.0, rest.1))
    ]

  -- A property of every element that follows from another.
  pub All-imp :
      (P Q : S × TierConfig F → Type 0) (tiers : List (S × TierConfig F))
      → ((u : S × TierConfig F) → P u → Q u)
      → All P tiers
      → All Q tiers
  All-imp P Q [] f ps = tt
  All-imp P Q (t ∷ tiers) f ps = (f t ps.0, All-imp P Q tiers f ps.1)

  insert-Ordered :
      (t : S × TierConfig F) (tiers : List (S × TierConfig F))
      → Ordered tiers
      → Ordered (insert_by_level t tiers)
  unfolding insert_by_level
  insert-Ordered t [] o = (tt, tt)
  insert-Ordered t (u ∷ tiers) o = elim (Bool-cases (leb (level_of t) (level_of u))) [
    | inl low ↦
        let below : level_of t ≤ level_of u = ground arith in
        subst Ordered (sym (insert-low t u tiers low)) (
          (
            below,
            All-imp (λ v. level_of u ≤ level_of v) (λ v. level_of t ≤ level_of v) tiers
                (λ v h. omega arith) o.0,
          ),
          o,
        )
    | inr high ↦ subst Ordered (sym (insert-high t u tiers high)) (
      All-insert (λ v. level_of u ≤ level_of v) t tiers (ground arith) o.0,
      insert-Ordered t tiers o.1,
    )
  ]

  pub sort-Ordered : (tiers : List (S × TierConfig F)) → Ordered (sort_by_level tiers)
  unfolding sort_by_level
  sort-Ordered [] = tt
  sort-Ordered (t ∷ tiers) = insert-Ordered t (sort_by_level tiers) (sort-Ordered tiers)

  pub insert-Distinct :
      (t : S × TierConfig F) (tiers : List (S × TierConfig F))
      → Distinct (t ∷ tiers)
      → Distinct (insert_by_level t tiers)
  unfolding insert_by_level
  insert-Distinct t [] d = d
  insert-Distinct t (u ∷ tiers) d = elim (Bool-cases (leb (level_of t) (level_of u))) [
    | inl low ↦ subst Distinct (sym (insert-low t u tiers low)) d
    | inr high ↦ subst Distinct (sym (insert-high t u tiers high)) (
      All-insert (λ v. (level_of u == level_of v) ≡ false) t tiers (ground arith) d.1.0,
      insert-Distinct t tiers (d.0.1, d.1.1),
    )
  ]

  pub Distinct-insert :
      (t : S × TierConfig F) (tiers : List (S × TierConfig F))
      → Distinct (insert_by_level t tiers)
      → Distinct (t ∷ tiers)
  unfolding insert_by_level
  Distinct-insert t [] d = d
  Distinct-insert t (u ∷ tiers) d = elim (Bool-cases (leb (level_of t) (level_of u))) [
    | inl low ↦ subst Distinct (insert-low t u tiers low) d
    | inr high ↦
        let e = subst Distinct (insert-high t u tiers high) d in
        let rest = Distinct-insert t tiers e.1 in
        let parts = insert-All (λ v. (level_of u == level_of v) ≡ false) t tiers e.0 in
        let apart : (level_of t == level_of u) ≡ false = ground arith in
        ((apart, rest.0), (parts.1, rest.1))
  ]

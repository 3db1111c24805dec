-- ===== src/Flight/Safety.antt =====
-- What the protection against stampedes ensures, over every order of the steps.
use multi_tier_cache.Base.{ℕ, ◌≡◌, some, arith, Bool-cases, Option-cases, ◌⊎◌, inl, inr}
use multi_tier_cache.Flight.{
  waiting, falling_back, answered, Flight, unsubscribe, Step, hears, finds_closed, Reachable,
}
use multi_tier_cache.Flight.Invariant.{held, Reachable-IsGuarded}
use multi_tier_cache.Flight.Channels.{Reachable-IsOpened}
use multi_tier_cache.Flight.Results.{Reachable-IsTruthful}

module _ {R : Type 0} {s : Flight R} where
  -- In every state that the tasks for one key can reach, at most one task is the creator, and the
  -- entry in the map is its own: the guard that it drops in the end removes no entry of another.
  pub Reachable-held :
      Reachable s
      → (i j g h : ℕ) → held (s.task i) ≡ some g
      → held (s.task j) ≡ some h
      → (i ≡ j) × (g ≡ h) × (s.entry ≡ some g)
  Reachable-held r i j g h mine yours =
      let q = Reachable-IsGuarded r in
      (
        q.alone i j g h mine yours,
        ground (arith, q.has_entry i g mine, q.has_entry j h yours),
        q.has_entry i g mine,
      )

  -- In every state that the tasks for one key can reach, all the tasks that have returned from one
  -- generation, its creator and those that waited for it, have returned the same result.
  pub Reachable-answered :
      Reachable s
      → (i j g : ℕ) (r r' : R) → s.task i ≡ answered g r
      → s.task j ≡ answered g r'
      → r ≡ r'
  Reachable-answered reach i j g r r' e e' =
      let q = Reachable-IsTruthful reach in
      ground (arith, q.returns_it i g r e, q.returns_it j g r' e')

  -- In every state that the tasks for one key can reach, a task that waits on a channel does not
  -- wait in vain: either the creator of the channel still holds its guard, or the waiting task can
  -- go on at once, with the result that was sent or, if none was, with a computation of its own.
  pub Reachable-waiting :
      Reachable s
      → (i g : ℕ) → s.task i ≡ waiting g
      → ((j : ℕ) × (held (s.task j) ≡ some g))
        ⊎ ((s' : Flight R) × Step s s'
            × ((s'.task i ≡ falling_back) ⊎ ((r : R) × (s'.task i ≡ answered g r))))
  Reachable-waiting reach i g at = elim (Option-cases (s.value g)) [
    | inr (r, there) ↦
        inr (unsubscribe i g (answered g r) s, hears s i g r at there, inr (r, ground arith))
    | inl empty ↦ elim (Bool-cases (s.closed g)) [
      | inl shut ↦
          inr (unsubscribe i g falling_back s, finds_closed s i g at empty shut, inl (ground arith))
      | inr open' ↦ let q = Reachable-IsOpened reach in inl (q.has_creator g (q.made i g at) open')
    ]
  ]

-- ===== src/Flight/Work.antt =====
-- src/cache_manager.rs, the protection against stampedes: how many moves the tasks for one key have
-- left.
use multi_tier_cache.Base.{
  ℕ, zero, suc, ◌+◌, ◌*◌, ◌<◌, ◌≤◌, ◌≡◌, refl, ap, ap₂, arith, Bool-cases, inl, inr, ◌==◌,
}
use multi_tier_cache.Flight.{
  returns_early, stops_arriving, stops_computing, Phase, arriving, creating, sent, waiting,
  falling_back, answered, computed, gone, put, Flight, start, Step, creates, subscribes, sends,
  returns, abandons, hears, passes_over, finds_closed, computes, stops_waiting,
}

module _ {R : Type 0} where
  -- How many moves a task has left, at most.
  abbrev pub rank : Phase R → ℕ
  rank arriving = 3
  rank (creating g) = 2
  rank (waiting g) = 2
  rank (sent g r) = 1
  rank falling_back = 1
  rank (answered g r) = 0
  rank (computed r) = 0
  rank gone = 0

  abbrev pub work : ℕ → (ℕ → Phase R) → ℕ
  work zero task = 0
  work (suc n) task = rank (task n) + work n task

  work-cong : (n : ℕ) (f g : ℕ → Phase R) → ((j : ℕ) → f j ≡ g j) → work n f ≡ work n g
  work-cong zero f g h = refl
  work-cong (suc n) f g h = ap₂ ◌+◌ (ap rank (h n)) (work-cong n f g h)

  work-out :
      (n i : ℕ) (phase : Phase R) (f : ℕ → Phase R) → n ≤ i → work n (put i phase f) ≡ work n f
  work-out zero i phase f h = refl
  work-out (suc n) i phase f h = ground (arith, work-out n i phase f (omega arith))

  pub work-put :
      (n i : ℕ) (phase : Phase R) (f : ℕ → Phase R)
      → i < n
      → work n (put i phase f) + rank (f i) ≡ work n f + rank phase
  work-put zero i phase f h = absurd (omega arith)
  work-put (suc n) i phase f h = elim (Bool-cases (i == n)) [
    | inl same ↦ ground (arith, work-out n i phase f (ground arith))
    | inr apart ↦ ground (arith, work-put n i phase f (ground arith))
  ]

  -- A step moves one task, towards its end.
  abbrev pub Moves : Flight R → Flight R → Type 0
  Moves s s' =
      (i : ℕ) × (phase : Phase R) × (rank phase < rank (s.task i))
      × ((j : ℕ) → s'.task j ≡ put i phase s.task j)

  pub Step-Moves : {s s' : Flight R} → Step s s' → Moves s s'
  Step-Moves (creates s i at free) = (i, creating s.next, ground arith, λ j. refl)
  Step-Moves (subscribes s i g at there) = (i, waiting g, ground arith, λ j. refl)
  Step-Moves (sends s i g r at) = (i, sent g r, ground arith, λ j. refl)
  Step-Moves (returns s i g r at) = (i, answered g r, ground arith, λ j. refl)
  Step-Moves (abandons s i g at) = (i, gone, ground arith, λ j. refl)
  Step-Moves (hears s i g r at there) = (i, answered g r, ground arith, λ j. refl)
  Step-Moves (passes_over s i g r at there) = (i, falling_back, ground arith, λ j. refl)
  Step-Moves (finds_closed s i g at empty shut) = (i, falling_back, ground arith, λ j. refl)
  Step-Moves (computes s i r at) = (i, computed r, ground arith, λ j. refl)
  Step-Moves (stops_waiting s i g at) = (i, gone, ground arith, λ j. refl)
  Step-Moves (returns_early s i r at) = (i, computed r, ground arith, λ j. refl)
  Step-Moves (stops_arriving s i at) = (i, gone, ground arith, λ j. refl)
  Step-Moves (stops_computing s i at) = (i, gone, ground arith, λ j. refl)

  rank-bound : (p : Phase R) → rank p ≤ 3
  rank-bound p = ground arith

  -- Only the tasks below `n` take part.
  abbrev pub Within : ℕ → Flight R → Type 0
  Within n s = (i : ℕ) → n ≤ i → s.task i ≡ arriving

  Moves-mover : (n : ℕ) (s s' : Flight R) (m : Moves s s') → Within n s' → m.0 < n
  Moves-mover n s s' (i, phase, less, same) w = ground (arith, w i, same i, rank-bound (s.task i))

  pub Moves-Within : (n : ℕ) (s s' : Flight R) → Moves s s' → Within n s' → Within n s
  Moves-Within n s s' (i, phase, less, same) w j h =
      ground (arith, w j h, same j, Moves-mover n s s' (i, phase, less, same) w)

  pub Moves-work :
      (n : ℕ) (s s' : Flight R) → Moves s s' → Within n s' → work n s'.task < work n s.task
  Moves-work n s s' (i, phase, less, same) w = omega (
    arith,
    less,
    work-cong n s'.task (put i phase s.task) same,
    work-put n i phase s.task (Moves-mover n s s' (i, phase, less, same) w),
  )

pub work-start : (R : Type 0) (n : ℕ) → work n (start {R = R}).task ≡ 3 * n
work-start R zero = refl
work-start R (suc n) = omega (arith, work-start R n)

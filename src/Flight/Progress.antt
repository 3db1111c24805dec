-- ===== src/Flight/Progress.antt =====
-- src/cache_manager.rs, the protection against stampedes: that the tasks for one key come to an end.
use multi_tier_cache.Base.{
  Bool, true, false, ℕ, zero, suc, ◌+◌, ◌*◌, ◌<◌, ◌≤◌, ◌≡◌, refl, arith, some, Bool-cases,
  Option-cases, ◌⊎◌, inl, inr, ◌==◌,
}
use multi_tier_cache.Flight.{
  abandons, passes_over, stops_waiting, returns_early, stops_arriving, stops_computing, Phase,
  arriving, creating, sent, waiting, falling_back, answered, computed, gone, put, Flight, start,
  create, subscribe, send, leave, unsubscribe, move, Step, creates, subscribes, sends, returns,
  hears, finds_closed, computes, Reachable, at_start, after,
}
use multi_tier_cache.Flight.Invariant.{held}
use multi_tier_cache.Flight.Channels.{Reachable-IsOpened}
use multi_tier_cache.Flight.Work.{
  rank, work, work-start, Step-Moves, Within, Moves-Within, Moves-work,
}

Nat-cases : (k : ℕ) → (k ≡ 0) ⊎ (0 < k)
Nat-cases zero = inl refl
Nat-cases (suc k) = inr (omega arith)

module _ {R : Type 0} where
  -- A task that has returned or is gone has no move left.
  abbrev pub IsEnded : Phase R → Type 0
  IsEnded p = rank p ≡ 0

  -- Whether a step ends a task without a result: by cancellation, or by an error of a creator that
  -- it does not send.
  abbrev pub breaks_off : {s s' : Flight R} → Step s s' → Bool
  breaks_off (abandons s i g at) = true
  breaks_off (stops_waiting s i g at) = true
  breaks_off (stops_arriving s i at) = true
  breaks_off (stops_computing s i at) = true
  breaks_off (creates s i at free) = false
  breaks_off (subscribes s i g at there) = false
  breaks_off (sends s i g r at) = false
  breaks_off (returns s i g r at) = false
  breaks_off (hears s i g r at there) = false
  breaks_off (passes_over s i g r at there) = false
  breaks_off (finds_closed s i g at empty' shut) = false
  breaks_off (computes s i r at) = false
  breaks_off (returns_early s i r at) = false

  -- A run from the start, with the number of its steps.
  pub data Run : ℕ → Flight R → Type 0 where
    empty : Run 0 start
    extend : {n : ℕ} {s s' : Flight R} → Run n s → Step s s' → Run (suc n) s'

  Reachable-of_run : {n : ℕ} {s : Flight R} → Run n s → Reachable s
  Reachable-of_run empty = at_start
  Reachable-of_run (extend r step) = after (Reachable-of_run r) step

  Run-work : (n : ℕ) {k : ℕ} {s : Flight R} → Run k s → Within n s → k + work n s.task ≤ 3 * n
  Run-work n empty w = omega (arith, work-start R n)
  Run-work n (extend {s} {s'} r step) w =
      let m = Step-Moves step in
      omega (arith, Moves-work n s s' m w, Run-work n r (Moves-Within n s s' m w))

  -- Some task is not at its end, or all are.
  unfinished :
      (n : ℕ) (task : ℕ → Phase R)
      → ((i : ℕ) × (i < n) × (0 < rank (task i))) ⊎ ((i : ℕ) → i < n → IsEnded (task i))
  unfinished zero task = inr (λ i h. absurd (omega arith))
  unfinished (suc n) task = elim (unfinished n task) [
    | inl (i, h, b) ↦ inl (i, omega (arith, h), b)
    | inr ended ↦ elim (Nat-cases (rank (task n))) [
      | inl stuck ↦ inr (λ i h. elim (Bool-cases (i == n)) [
        | inl same ↦ ground (arith, stuck)
        | inr apart ↦ ended i (ground arith)
      ])
      | inr b ↦ inl (n, omega arith, b)
    ]
  ]

  put-Within :
      (n i : ℕ) (phase : Phase R) (s : Flight R)
      → i < n
      → Within n s
      → (j : ℕ) → n ≤ j
      → put i phase s.task j ≡ arriving
  put-Within n i phase s h w j b = ground (arith, w j b)

  module _ (n : ℕ) (s : Flight R) (w : Within n s) where
    abbrev Goes : Type 0
    Goes = (s' : Flight R) × (step : Step s s') × (breaks_off step ≡ false) × Within n s'

    holder-Goes :
        (r : R) (j g : ℕ) (phase : Phase R) → s.task j ≡ phase → held phase ≡ some g → j < n → Goes
    holder-Goes r j g (creating k) at e h =
        (send j k r s, sends s j k r at, refl, put-Within n j (sent k r) s h w)
    holder-Goes r j g (sent k r') at e h = (
      leave j k (answered k r') s,
      returns s j k r' at,
      refl,
      put-Within n j (answered k r') s h w,
    )
    holder-Goes r j g arriving at e h = absurd (ground arith)
    holder-Goes r j g (waiting k) at e h = absurd (ground arith)
    holder-Goes r j g falling_back at e h = absurd (ground arith)
    holder-Goes r j g (answered k r') at e h = absurd (ground arith)
    holder-Goes r j g (computed r') at e h = absurd (ground arith)
    holder-Goes r j g gone at e h = absurd (ground arith)

    waiter-Goes : (r : R) (i g : ℕ) → Reachable s → s.task i ≡ waiting g → i < n → Goes
    waiter-Goes r i g reach at h = elim (Option-cases (s.value g)) [
      | inr (r', there) ↦ (
        unsubscribe i g (answered g r') s,
        hears s i g r' at there,
        refl,
        put-Within n i (answered g r') s h w,
      )
      | inl none' ↦ elim (Bool-cases (s.closed g)) [
        | inl shut ↦ (
          unsubscribe i g falling_back s,
          finds_closed s i g at none' shut,
          refl,
          put-Within n i falling_back s h w,
        )
        | inr open' ↦
            let q = Reachable-IsOpened reach in
            let (j, holds) = q.has_creator g (q.made i g at) open' in
            holder-Goes r j g (s.task j) refl holds (ground (arith, w j))
      ]
    ]

    -- A task that has not come to its end can move, or the creator that it waits for can.
    task-Goes :
        (r : R) (i : ℕ) (phase : Phase R)
        → Reachable s
        → s.task i ≡ phase
        → i < n
        → 0 < rank phase
        → Goes
    task-Goes r i arriving reach at h b = elim (Option-cases s.entry) [
      | inl free ↦ (create i s, creates s i at free, refl, put-Within n i (creating s.next) s h w)
      | inr (g, there) ↦
          (subscribe i g s, subscribes s i g at there, refl, put-Within n i (waiting g) s h w)
    ]
    task-Goes r i (creating g) reach at h b = holder-Goes r i g (creating g) at refl h
    task-Goes r i (sent g r') reach at h b = holder-Goes r i g (sent g r') at refl h
    task-Goes r i (waiting g) reach at h b = waiter-Goes r i g reach at h
    task-Goes r i falling_back reach at h b =
        (move i (computed r) s, computes s i r at, refl, put-Within n i (computed r) s h w)
    task-Goes r i (answered g r') reach at h b = absurd (omega arith)
    task-Goes r i (computed r') reach at h b = absurd (omega arith)
    task-Goes r i gone reach at h b = absurd (omega arith)

  -- Let `n` tasks ask for one key, and let there be a result that a computation can have. In any
  -- order of their moves, where each of them may be cancelled before its look at the map, as a
  -- creator at work, while it waits and while it computes for itself, a run has at most `3 * n`
  -- steps; and after any run, either every one of the tasks has returned a result or is gone, or
  -- one of them can move on, by a step that is no cancellation and no error that is not sent. So
  -- no task, cancelled or not, leaves the others blocked.
  pub Run-ends :
      (n k : ℕ) (s : Flight R)
      → R
      → Run k s
      → Within n s
      → (k ≤ 3 * n)
        × (((i : ℕ) → i < n → IsEnded (s.task i))
            ⊎ ((s' : Flight R) × (step : Step s s') × (breaks_off step ≡ false) × Within n s'))
  Run-ends n k s r run w = (
    omega (arith, Run-work n run w),
    elim (unfinished n s.task) [
      | inl (i, h, b) ↦ inr (task-Goes n s w r i (s.task i) (Reachable-of_run run) refl h b)
      | inr ended ↦ inl ended
    ],
  )

-- ===== src/Tests/Tasks.antt =====
-- The theorems on the tasks that ask for one key, applied to two tasks.
use multi_tier_cache.Base.{false, arith, ◌<◌, ◌≤◌, ℕ, ◌≡◌, refl, some, ◌⊎◌}
use multi_tier_cache.Flight.{
  Flight, answered, falling_back, start, create, subscribe, send, leave, unsubscribe, Step, creates,
  subscribes, sends, returns, hears, finds_closed, Reachable, at_start, after,
}
use multi_tier_cache.Flight.Invariant.{held}
use multi_tier_cache.Flight.Work.{Within}
use multi_tier_cache.Flight.Progress.{breaks_off, Run, empty, extend, IsEnded, Run-ends}
use multi_tier_cache.Flight.Safety.{Reachable-held, Reachable-answered, Reachable-waiting}

-- Task 0 creates the entry, and task 1 waits for its result.
abbrev one_waits : Flight ℕ
one_waits = subscribe 1 0 (create 0 start)

one_waits-Reachable : Reachable one_waits
one_waits-Reachable =
    after (after at_start (creates start 0 refl refl)) (subscribes (create 0 start) 1 0 refl refl)

-- Task 0 sends 5; task 1 returns it, and then task 0.
abbrev both_done : Flight ℕ
both_done = leave 0 0 (answered 0 5) (unsubscribe 1 0 (answered 0 5) (send 0 0 5 one_waits))

both_done-Reachable : Reachable both_done
both_done-Reachable =
    after
      (after (after one_waits-Reachable (sends one_waits 0 0 5 refl))
        (hears (send 0 0 5 one_waits) 1 0 5 refl refl))
      (returns (unsubscribe 1 0 (answered 0 5) (send 0 0 5 one_waits)) 0 0 5 refl)

Reachable-held_example : (◌≡◌ {A = ℕ} 0 0) × (◌≡◌ {A = ℕ} 0 0) × (one_waits.entry ≡ some 0)
Reachable-held_example = Reachable-held one_waits-Reachable 0 0 0 0 refl refl

Reachable-answered_example : ◌≡◌ {A = ℕ} 5 5
Reachable-answered_example = Reachable-answered both_done-Reachable 0 1 0 5 5 refl refl

Reachable-waiting_example :
    ((j : ℕ) × (held (one_waits.task j) ≡ some 0))
    ⊎ ((s' : Flight ℕ) × Step one_waits s'
        × ((s'.task 1 ≡ falling_back) ⊎ ((r : ℕ) × (s'.task 1 ≡ answered 0 r))))
Reachable-waiting_example = Reachable-waiting one_waits-Reachable 1 0 refl

-- A task that subscribes after the creator has sent, with no receiver there at that time, hears
-- nothing: it falls back to a computation of its own, though the result was there.
abbrev late : Flight ℕ
late = leave 0 0 (answered 0 5) (subscribe 1 0 (send 0 0 5 (create 0 start)))

late-Reachable : Reachable late
late-Reachable =
    after
      (after
        (after (after at_start (creates start 0 refl refl)) (sends (create 0 start) 0 0 5 refl))
        (subscribes (send 0 0 5 (create 0 start)) 1 0 refl refl))
      (returns (subscribe 1 0 (send 0 0 5 (create 0 start))) 0 0 5 refl)

late_falls_back : Reachable (unsubscribe 1 0 falling_back late)
late_falls_back = after late-Reachable (finds_closed late 1 0 refl refl refl)

-- After five steps two of three tasks have returned, and four of their nine steps are left at most:
-- the third task can take one of them.
both_done-Run : Run 5 both_done
both_done-Run =
    extend
      (extend
        (extend
          (extend (extend empty (creates start 0 refl refl))
            (subscribes (create 0 start) 1 0 refl refl))
          (sends one_waits 0 0 5 refl))
        (hears (send 0 0 5 one_waits) 1 0 5 refl refl))
      (returns (unsubscribe 1 0 (answered 0 5) (send 0 0 5 one_waits)) 0 0 5 refl)

Run-ends_example :
    (5 ≤ 9)
    × (((i : ℕ) → i < 3 → IsEnded (both_done.task i))
        ⊎ ((s' : Flight ℕ) × (step : Step both_done s') × (breaks_off step ≡ false) × Within 3 s'))
Run-ends_example = Run-ends 3 5 both_done 0 both_done-Run (λ i h. ground arith)

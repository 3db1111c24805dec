-- ===== src/Flight/Channels.antt =====
-- Which channels are open.
use multi_tier_cache.Base.{
  ℕ, ◌+◌, ◌<◌, ◌≡◌, ap, Bool, true, false, none, some, ◌==◌, arith, Bool-cases, inl, inr,
}
use multi_tier_cache.Flight.{
  Phase, creating, sent, waiting, falling_back, answered, computed, gone, put, Flight, Step,
  creates, subscribes, sends, returns, abandons, hears, passes_over, finds_closed, computes,
  stops_waiting, returns_early, stops_arriving, stops_computing, Reachable, at_start, after,
}
use multi_tier_cache.Flight.Invariant.{held, IsGuarded, Reachable-IsGuarded}

-- A channel that is open has a creator, and a task only waits on a channel that was made.
pub record Opened {R : Type 0} (next : ℕ) (closed : ℕ → Bool) (task : ℕ → Phase R) : Type 0 where
  pub has_creator : (g : ℕ) → g < next → closed g ≡ false → (j : ℕ) × (held (task j) ≡ some g)
  pub made : (i g : ℕ) → task i ≡ waiting g → g < next

module _ {R : Type 0} where
  abbrev pub IsOpened : Flight R → Type 0
  IsOpened s = Opened s.next s.closed s.task

  Opened-move :
      (next : ℕ) (closed : ℕ → Bool) (task : ℕ → Phase R) (i : ℕ) (p : Phase R)
      → held (task i) ≡ held p
      → ((g : ℕ) → p ≡ waiting g → g < next)
      → Opened next closed task
      → Opened next closed (put i p task)
  Opened-move next closed task i p same wait h = record {
    has_creator = λ g b e. let (j, d) = h.has_creator g b e in (j, ground arith);
    made = λ j g e. ground (arith, h.made j g, wait g);
  }

  Opened-leave :
      (next : ℕ) (closed : ℕ → Bool) (task : ℕ → Phase R) (i g : ℕ) (p : Phase R)
      → held (task i) ≡ some g
      → ((k : ℕ) → p ≡ waiting k → k < next)
      → Opened next closed task
      → Opened next (put g true closed) (put i p task)
  Opened-leave next closed task i g p mine wait h = record {
    has_creator = λ k b e. let (j, d) = h.has_creator k b (ground arith) in (j, ground arith);
    made = λ j k e. ground (arith, h.made j k, wait k);
  }

  Opened-create :
      (next : ℕ) (closed : ℕ → Bool) (task : ℕ → Phase R) (i : ℕ)
      → held (task i) ≡ none
      → Opened next closed task
      → Opened (next + 1) closed (put i (creating next) task)
  Opened-create next closed task i free h = record {
    has_creator = λ g b e. elim (Bool-cases (g == next)) [
      | inl new ↦ (i, ground arith)
      | inr old ↦ let (j, d) = h.has_creator g (ground arith) e in (j, ground arith)
    ];
    made = λ j g e. ground (arith, h.made j g);
  }

  Step-IsOpened : {s s' : Flight R} → Step s s' → IsGuarded s → IsOpened s → IsOpened s'
  Step-IsOpened (creates s i at free) q h = Opened-create s.next s.closed s.task i (ap held at) h
  Step-IsOpened (subscribes s i g at there) q h =
      Opened-move s.next s.closed s.task i (waiting g) (ap held at)
        (λ k e. ground (arith, q.known g)) h
  Step-IsOpened (sends s i g r at) q h =
      Opened-move s.next s.closed s.task i (sent g r) (ap held at) (λ k e. absurd (ground arith)) h
  Step-IsOpened (returns s i g r at) q h =
      Opened-leave s.next s.closed s.task i g (answered g r) (ap held at)
        (λ k e. absurd (ground arith)) h
  Step-IsOpened (abandons s i g at) q h =
      Opened-leave s.next s.closed s.task i g gone (ap held at) (λ k e. absurd (ground arith)) h
  Step-IsOpened (hears s i g r at there) q h =
      Opened-move s.next s.closed s.task i (answered g r) (ap held at)
        (λ k e. absurd (ground arith)) h
  Step-IsOpened (passes_over s i g r at there) q h =
      Opened-move s.next s.closed s.task i falling_back (ap held at) (λ k e. absurd (ground arith))
        h
  Step-IsOpened (finds_closed s i g at empty shut) q h =
      Opened-move s.next s.closed s.task i falling_back (ap held at) (λ k e. absurd (ground arith))
        h
  Step-IsOpened (computes s i r at) q h =
      Opened-move s.next s.closed s.task i (computed r) (ap held at) (λ k e. absurd (ground arith))
        h
  Step-IsOpened (stops_waiting s i g at) q h =
      Opened-move s.next s.closed s.task i gone (ap held at) (λ k e. absurd (ground arith)) h
  Step-IsOpened (returns_early s i r at) q h =
      Opened-move s.next s.closed s.task i (computed r) (ap held at) (λ k e. absurd (ground arith))
        h
  Step-IsOpened (stops_arriving s i at) q h =
      Opened-move s.next s.closed s.task i gone (ap held at) (λ k e. absurd (ground arith)) h
  Step-IsOpened (stops_computing s i at) q h =
      Opened-move s.next s.closed s.task i gone (ap held at) (λ k e. absurd (ground arith)) h

  pub Reachable-IsOpened : {s : Flight R} → Reachable s → IsOpened s
  Reachable-IsOpened at_start = record {
    has_creator = λ g b e. absurd (omega arith);
    made = λ i g e. absurd (ground arith);
  }
  Reachable-IsOpened (after r step) =
      Step-IsOpened step (Reachable-IsGuarded r) (Reachable-IsOpened r)

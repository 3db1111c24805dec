-- ===== src/Flight/Results.antt =====
-- What the channels hold and what the tasks return.
use multi_tier_cache.Base.{
  ℕ, ◌+◌, ◌<◌, ◌≤◌, ◌≡◌, refl, ap, Bool, true, false, Option, none, some, arith,
}
use multi_tier_cache.Flight.{
  Phase, creating, sent, waiting, falling_back, answered, computed, gone, put, Flight, stored, Step,
  creates, subscribes, sends, returns, abandons, hears, passes_over, finds_closed, computes,
  stops_waiting, returns_early, stops_arriving, stops_computing, Reachable, at_start, after,
}
use multi_tier_cache.Flight.Invariant.{held, IsGuarded, Reachable-IsGuarded}

-- What a channel holds, and what a task returns from it, is what its creator has sent.
pub record Truthful {R : Type 0} (next : ℕ) (value outcome : ℕ → Option R) (task : ℕ → Phase R)
    : Type 0 where
  pub holds_it : (g : ℕ) (r : R) → value g ≡ some r → outcome g ≡ some r
  pub sends_it : (i g : ℕ) (r : R) → task i ≡ sent g r → outcome g ≡ some r
  pub returns_it : (i g : ℕ) (r : R) → task i ≡ answered g r → outcome g ≡ some r
  pub at_work : (i g : ℕ) → task i ≡ creating g → outcome g ≡ none
  pub unborn : (g : ℕ) → next ≤ g → outcome g ≡ none

module _ {R : Type 0} where
  abbrev pub IsTruthful : Flight R → Type 0
  IsTruthful s = Truthful s.next s.value s.outcome s.task

  -- A task moves to a phase that says nothing untrue.
  Truthful-move :
      (next : ℕ) (value outcome : ℕ → Option R) (task : ℕ → Phase R) (i : ℕ) (p : Phase R)
      → ((g : ℕ) (r : R) → p ≡ sent g r → outcome g ≡ some r)
      → ((g : ℕ) (r : R) → p ≡ answered g r → outcome g ≡ some r)
      → ((g : ℕ) → p ≡ creating g → outcome g ≡ none)
      → Truthful next value outcome task
      → Truthful next value outcome (put i p task)
  Truthful-move next value outcome task i p a b c h = record {
    holds_it = h.holds_it;
    sends_it = λ j g r e. ground (arith, h.sends_it j g r, a g r);
    returns_it = λ j g r e. ground (arith, h.returns_it j g r, b g r);
    at_work = λ j g e. ground (arith, h.at_work j g, c g);
    unborn = h.unborn;
  }

  Truthful-create :
      (next : ℕ) (value outcome : ℕ → Option R) (task : ℕ → Phase R) (i : ℕ)
      → Truthful next value outcome task
      → Truthful (next + 1) value outcome (put i (creating next) task)
  Truthful-create next value outcome task i h = record {
    holds_it = h.holds_it;
    sends_it = λ j g r e. ground (arith, h.sends_it j g r);
    returns_it = λ j g r e. ground (arith, h.returns_it j g r);
    at_work = λ j g e. ground (arith, h.at_work j g, h.unborn g);
    unborn = λ g b. h.unborn g (omega arith);
  }

  -- The creator is alone at its generation, and nothing was sent before.
  Truthful-send :
      (next : ℕ) (value outcome : ℕ → Option R) (task : ℕ → Phase R) (i g n : ℕ) (r : R)
      → task i ≡ creating g
      → ((j : ℕ) → held (task j) ≡ some g → j ≡ i)
      → g < next
      → Truthful next value outcome task
      → Truthful next
          (put g (stored n r (value g)) value)
          (put g (some r) outcome)
          (put i (sent g r) task)
  Truthful-send next value outcome task i g n r at only made h = record {
    holds_it = λ k v e. ground (arith, h.holds_it k v, h.at_work i g at);
    sends_it = λ j k v e. ground (arith, h.sends_it j k v, h.at_work i g at);
    returns_it = λ j k v e. ground (arith, h.returns_it j k v, h.at_work i g at);
    at_work = λ j k e. ground (arith, h.at_work j k, only j);
    unborn = λ k b. ground (arith, h.unborn k b);
  }

  -- Whether a phase claims nothing of a result.
  abbrev is_quiet : Phase R → Bool
  is_quiet (sent g r) = false
  is_quiet (answered g r) = false
  is_quiet (creating g) = false
  is_quiet _ = true

  Truthful-quiet :
      (s : Flight R) (i : ℕ) (p : Phase R)
      → is_quiet p ≡ true
      → IsTruthful s
      → Truthful s.next s.value s.outcome (put i p s.task)
  Truthful-quiet s i p q h =
      Truthful-move s.next s.value s.outcome s.task i p (λ g r e. absurd (ground arith))
        (λ g r e. absurd (ground arith)) (λ g e. absurd (ground arith)) h

  Step-IsTruthful : {s s' : Flight R} → Step s s' → IsGuarded s → IsTruthful s → IsTruthful s'
  Step-IsTruthful (creates s i at free) q h = Truthful-create s.next s.value s.outcome s.task i h
  Step-IsTruthful (subscribes s i g at there) q h = Truthful-quiet s i (waiting g) refl h
  Step-IsTruthful (sends s i g r at) q h =
      Truthful-send s.next s.value s.outcome s.task i g (s.receivers g) r at
        (λ j e. q.alone j i g g e (ap held at)) (q.known g (q.has_entry i g (ap held at))) h
  Step-IsTruthful (returns s i g r at) q h =
      Truthful-move s.next s.value s.outcome s.task i (answered g r)
        (λ k v e. absurd (ground arith)) (λ k v e. ground (arith, h.sends_it i g r at))
        (λ k e. absurd (ground arith)) h
  Step-IsTruthful (abandons s i g at) q h = Truthful-quiet s i gone refl h
  Step-IsTruthful (hears s i g r at there) q h =
      Truthful-move s.next s.value s.outcome s.task i (answered g r)
        (λ k v e. absurd (ground arith)) (λ k v e. ground (arith, h.holds_it g r there))
        (λ k e. absurd (ground arith)) h
  Step-IsTruthful (passes_over s i g r at there) q h = Truthful-quiet s i falling_back refl h
  Step-IsTruthful (finds_closed s i g at empty shut) q h = Truthful-quiet s i falling_back refl h
  Step-IsTruthful (computes s i r at) q h = Truthful-quiet s i (computed r) refl h
  Step-IsTruthful (stops_waiting s i g at) q h = Truthful-quiet s i gone refl h
  Step-IsTruthful (returns_early s i r at) q h = Truthful-quiet s i (computed r) refl h
  Step-IsTruthful (stops_arriving s i at) q h = Truthful-quiet s i gone refl h
  Step-IsTruthful (stops_computing s i at) q h = Truthful-quiet s i gone refl h

  pub Reachable-IsTruthful : {s : Flight R} → Reachable s → IsTruthful s
  Reachable-IsTruthful at_start = record {
    holds_it = λ g r e. absurd (ground arith);
    sends_it = λ i g r e. absurd (ground arith);
    returns_it = λ i g r e. absurd (ground arith);
    at_work = λ i g e. absurd (ground arith);
    unborn = λ g b. refl;
  }
  Reachable-IsTruthful (after r step) =
      Step-IsTruthful step (Reachable-IsGuarded r) (Reachable-IsTruthful r)

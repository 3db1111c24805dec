-- ===== src/Flight/Invariant.antt =====
-- The invariant of the tasks that ask for one key.
use multi_tier_cache.Base.{ℕ, ◌+◌, ◌<◌, ◌≡◌, refl, subst, ap, Option, none, some, arith}
use multi_tier_cache.Flight.{
  Phase, creating, sent, waiting, falling_back, answered, computed, gone, put, Flight, Step,
  creates, subscribes, sends, returns, abandons, hears, passes_over, finds_closed, computes,
  stops_waiting, returns_early, stops_arriving, stops_computing, Reachable, at_start, after,
}

-- The generation whose guard a task holds.
abbrev pub held : {R : Type 0} → Phase R → Option ℕ
held (creating g) = some g
held (sent g r) = some g
held _ = none

-- Every guard stands for the entry in the map, there is at most one guard, and an entry has one.
pub record Guarded {R : Type 0} (entry : Option ℕ) (next : ℕ) (task : ℕ → Phase R) : Type 0 where
  pub has_entry : (i g : ℕ) → held (task i) ≡ some g → entry ≡ some g
  pub alone : (i j g h : ℕ) → held (task i) ≡ some g → held (task j) ≡ some h → i ≡ j
  pub has_holder : (g : ℕ) → entry ≡ some g → (i : ℕ) × (held (task i) ≡ some g)
  pub known : (g : ℕ) → entry ≡ some g → g < next

module _ {R : Type 0} where
  Guarded-create :
      (next : ℕ) (task : ℕ → Phase R) (i : ℕ)
      → held (task i) ≡ none
      → Guarded none next task
      → Guarded (some next) (next + 1) (put i (creating next) task)
  Guarded-create next task i free h = record {
    has_entry = λ j g e. ground (arith, h.has_entry j g);
    alone = λ j k g l e d. ground (arith, h.has_entry j g, h.has_entry k l);
    has_holder = λ g e. (i, ground arith);
    known = λ g e. ground arith;
  }

  -- A task that holds no guard moves, and takes none.
  Guarded-free :
      (entry : Option ℕ) (next : ℕ) (task : ℕ → Phase R) (i : ℕ) (p : Phase R)
      → held (task i) ≡ none
      → held p ≡ none
      → Guarded entry next task
      → Guarded entry next (put i p task)
  Guarded-free entry next task i p free none' h = record {
    has_entry = λ j g e. ground (arith, h.has_entry j g);
    alone = λ j k g l e d. ground (arith, h.alone j k g l);
    has_holder = λ g e. let (j, d) = h.has_holder g e in (j, ground arith);
    known = h.known;
  }

  Guarded-keep :
      (entry : Option ℕ) (next : ℕ) (task : ℕ → Phase R) (i g : ℕ) (p : Phase R)
      → held (task i) ≡ some g
      → held p ≡ some g
      → Guarded entry next task
      → Guarded entry next (put i p task)
  Guarded-keep entry next task i g p mine still h = record {
    has_entry = λ j k e. ground (arith, h.has_entry j k, h.has_entry i g);
    alone = λ j k l m e d. ground (arith, h.alone j k l m, h.alone j i l g, h.alone i k g m);
    has_holder = λ k e. let (j, d) = h.has_holder k e in (j, ground (arith, h.has_entry i g));
    known = h.known;
  }

  Guarded-leave :
      (entry : Option ℕ) (next : ℕ) (task : ℕ → Phase R) (i g : ℕ) (p : Phase R)
      → held (task i) ≡ some g
      → held p ≡ none
      → Guarded entry next task
      → Guarded none next (put i p task)
  Guarded-leave entry next task i g p mine none' h = record {
    has_entry = λ j k e. ground (arith, h.alone j i k g);
    alone = λ j k l m e d. ground (arith, h.alone j k l m);
    has_holder = λ k e. absurd (ground arith);
    known = λ k e. absurd (ground arith);
  }

  abbrev pub IsGuarded : Flight R → Type 0
  IsGuarded s = Guarded s.entry s.next s.task

  Step-IsGuarded : {s s' : Flight R} → Step s s' → IsGuarded s → IsGuarded s'
  Step-IsGuarded (creates s i at free) h =
      Guarded-create s.next s.task i (ap held at) (subst (λ e. Guarded e s.next s.task) free h)
  Step-IsGuarded (subscribes s i g at there) h =
      Guarded-free s.entry s.next s.task i (waiting g) (ap held at) refl h
  Step-IsGuarded (sends s i g r at) h =
      Guarded-keep s.entry s.next s.task i g (sent g r) (ap held at) refl h
  Step-IsGuarded (returns s i g r at) h =
      Guarded-leave s.entry s.next s.task i g (answered g r) (ap held at) refl h
  Step-IsGuarded (abandons s i g at) h =
      Guarded-leave s.entry s.next s.task i g gone (ap held at) refl h
  Step-IsGuarded (hears s i g r at there) h =
      Guarded-free s.entry s.next s.task i (answered g r) (ap held at) refl h
  Step-IsGuarded (passes_over s i g r at there) h =
      Guarded-free s.entry s.next s.task i falling_back (ap held at) refl h
  Step-IsGuarded (finds_closed s i g at empty shut) h =
      Guarded-free s.entry s.next s.task i falling_back (ap held at) refl h
  Step-IsGuarded (computes s i r at) h =
      Guarded-free s.entry s.next s.task i (computed r) (ap held at) refl h
  Step-IsGuarded (stops_waiting s i g at) h =
      Guarded-free s.entry s.next s.task i gone (ap held at) refl h
  Step-IsGuarded (returns_early s i r at) h =
      Guarded-free s.entry s.next s.task i (computed r) (ap held at) refl h
  Step-IsGuarded (stops_arriving s i at) h =
      Guarded-free s.entry s.next s.task i gone (ap held at) refl h
  Step-IsGuarded (stops_computing s i at) h =
      Guarded-free s.entry s.next s.task i gone (ap held at) refl h

  pub Reachable-IsGuarded : {s : Flight R} → Reachable s → IsGuarded s
  Reachable-IsGuarded at_start = record {
    has_entry = λ i g e. absurd (ground arith);
    alone = λ i j g h e d. absurd (ground arith);
    has_holder = λ g e. absurd (ground arith);
    known = λ g e. absurd (ground arith);
  }
  Reachable-IsGuarded (after r step) = Step-IsGuarded step (Reachable-IsGuarded r)

-- ===== src/Flight.antt =====
-- src/cache_manager.rs, the protection against stampedes in `get` and `get_or_compute_with`, for the
-- tasks that ask for one key. Each channel of `watch` is a generation, counted from zero. One step
-- is one move of one task; steps of different tasks come in any order.
pub mod Invariant
pub mod Channels
pub mod Results
pub mod Work
pub mod Progress
pub mod Safety
use multi_tier_cache.Base.{
  ℕ, suc, ◌+◌, ◌-◌, ◌≡◌, Bool, true, false, Option, none, some, ◌==◌, if◌then◌else◌,
}

-- Where a task is: before its look at the map; creator of a generation, at work or after it has
-- sent its result; waiting on a channel; back from a channel that closed with no result, so that
-- it computes for itself; returned, from a generation or on its own; or dropped without a result,
-- by cancellation or by an early error.
pub data Phase (R : Type 0) : Type 0 where
  arriving : Phase R
  creating : (generation : ℕ) → Phase R
  sent : (generation : ℕ) (result : R) → Phase R
  waiting : (generation : ℕ) → Phase R
  falling_back : Phase R
  answered : (generation : ℕ) (result : R) → Phase R
  computed : (result : R) → Phase R
  gone : Phase R

abbrev pub put : {A : Type 0} → ℕ → A → (ℕ → A) → ℕ → A
put i a f j = if i == j then a else f j

-- The entry of the key in the map, the channels, and the tasks. A channel holds a value, has
-- receivers, and is closed once all its senders are gone. `outcome` only records what the creator
-- of each generation has sent; no step reads it.
pub record Flight (R : Type 0) : Type 0 where
  pub entry : Option ℕ
  pub next : ℕ
  pub value : ℕ → Option R
  pub closed : ℕ → Bool
  pub receivers : ℕ → ℕ
  pub outcome : ℕ → Option R
  pub task : ℕ → Phase R

abbrev pub start : {R : Type 0} → Flight R
start = record {
  entry = none;
  next = 0;
  value = λ g. none;
  closed = λ g. false;
  receivers = λ g. 0;
  outcome = λ g. none;
  task = λ i. arriving;
}

-- `send` stores nothing if there is no receiver.
abbrev pub stored : {R : Type 0} → ℕ → R → Option R → Option R
stored receivers r old = if receivers == 0 then old else some r

module _ {R : Type 0} where
  abbrev pub create : ℕ → Flight R → Flight R
  create i s = record s {
    entry = some s.next;
    next = s.next + 1;
    task = put i (creating s.next) s.task;
  }

  abbrev pub subscribe : ℕ → ℕ → Flight R → Flight R
  subscribe i g s = record s {
    receivers = put g (s.receivers g + 1) s.receivers;
    task = put i (waiting g) s.task;
  }

  abbrev pub send : ℕ → ℕ → R → Flight R → Flight R
  send i g r s = record s {
    value = put g (stored (s.receivers g) r (s.value g)) s.value;
    outcome = put g (some r) s.outcome;
    task = put i (sent g r) s.task;
  }

  -- The guard removes the entry, and then the last sender is dropped. The two are one step: between
  -- them no task can find the channel any more, and one that waits on it could only go on later.
  abbrev pub leave : ℕ → ℕ → Phase R → Flight R → Flight R
  leave i g phase s = record s {
    entry = none;
    closed = put g true s.closed;
    task = put i phase s.task;
  }

  -- A receiver goes away.
  abbrev pub unsubscribe : ℕ → ℕ → Phase R → Flight R → Flight R
  unsubscribe i g phase s = record s {
    receivers = put g (s.receivers g - 1) s.receivers;
    task = put i phase s.task;
  }

  abbrev pub move : ℕ → Phase R → Flight R → Flight R
  move i phase s = record s { task = put i phase s.task }

pub data Step {R : Type 0} : Flight R → Flight R → Type 0 where
  creates : (s : Flight R) (i : ℕ) → s.task i ≡ arriving → s.entry ≡ none → Step s (create i s)
  subscribes :
      (s : Flight R) (i g : ℕ) → s.task i ≡ arriving → s.entry ≡ some g → Step s (subscribe i g s)
  sends : (s : Flight R) (i g : ℕ) (r : R) → s.task i ≡ creating g → Step s (send i g r s)
  returns :
      (s : Flight R) (i g : ℕ) (r : R) → s.task i ≡ sent g r → Step s (leave i g (answered g r) s)
  abandons : (s : Flight R) (i g : ℕ) → s.task i ≡ creating g → Step s (leave i g gone s)
  hears :
      (s : Flight R) (i g : ℕ) (r : R)
      → s.task i ≡ waiting g
      → s.value g ≡ some r
      → Step s (unsubscribe i g (answered g r) s)
  -- `get_or_compute_with` does so with a result that is a miss.
  passes_over :
      (s : Flight R) (i g : ℕ) (r : R)
      → s.task i ≡ waiting g
      → s.value g ≡ some r
      → Step s (unsubscribe i g falling_back s)
  finds_closed :
      (s : Flight R) (i g : ℕ)
      → s.task i ≡ waiting g
      → s.value g ≡ none
      → s.closed g ≡ true
      → Step s (unsubscribe i g falling_back s)
  computes :
      (s : Flight R) (i : ℕ) (r : R) → s.task i ≡ falling_back → Step s (move i (computed r) s)
  stops_waiting : (s : Flight R) (i g : ℕ) → s.task i ≡ waiting g → Step s (unsubscribe i g gone s)
  -- The tiers answer before the look at the map, with a value or an error.
  returns_early :
      (s : Flight R) (i : ℕ) (r : R) → s.task i ≡ arriving → Step s (move i (computed r) s)
  stops_arriving : (s : Flight R) (i : ℕ) → s.task i ≡ arriving → Step s (move i gone s)
  stops_computing : (s : Flight R) (i : ℕ) → s.task i ≡ falling_back → Step s (move i gone s)

pub data Reachable {R : Type 0} : Flight R → Type 0 where
  at_start : Reachable start
  after : {s s' : Flight R} → Reachable s → Step s s' → Reachable s'

-- ===== src/Invalidation/Subscriber.antt =====
-- src/invalidation.rs, `InvalidationSubscriber`: the loop over Pub/Sub messages and the task that
-- keeps reconnecting. What the connection delivers is a list of events, in the order in which
-- `select!` takes them up.
pub mod Laws
use multi_tier_cache.Base.{
  ℕ, Bool, true, false, List, [], ◌∷◌, Bytes, Message, lit, CacheError, CacheResult, ok, err,
  backend_error, invalidation_error, config_error, or_err, ◌>>=◌, ◌>>◌, Outcome, done, failed,
  if◌then◌else◌,
}
use multi_tier_cache.Invalidation.Message.{InvalidationMessage, SerdeJson, from_json}
use multi_tier_cache.Invalidation.Stats.{
  InvalidationStats, zero_stats, snapshot, count_error, count_message, count_kind,
}
use multi_tier_cache.Invalidation.Publisher.{InvalidationConfig}

-- `msg.get_payload()` of a message that arrives, the end of the stream, the shutdown signal.
pub data Event : Type 0 where
  message : (payload : Outcome Bytes) → Event
  stream_end : Event
  shutdown : Event

-- How the loop stands when the listed events are used up: it still waits, or it has returned.
pub data LoopEnd : Type 0 where
  waiting : LoopEnd
  returned : CacheResult (Unit {0}) → LoopEnd

-- The statistics of the subscriber and the state `H` that its handler works on.
pub record Task (H : Type 0) : Type 0 where
  pub stats : InvalidationStats
  pub state : H

-- One round of the loop in `start`: whether the shutdown signal is there at its head, what the
-- connection does, and whether the signal comes during the five seconds before the next round.
pub record Round : Type 0 where
  pub stopped : Bool
  pub connect : Outcome (Unit {0})
  pub subscribe : Outcome (Unit {0})
  pub events : List Event
  pub stopped_in_wait : Bool

module _ {H : Type 0} (handler : H → InvalidationMessage → CacheResult (Unit {0}) × H) where
  -- After the call of the handler.
  unfoldable pub handled : InvalidationStats → CacheResult (Unit {0}) × H → Task H
  handled stats (ok _, h) = record { stats = stats; state = h }
  handled stats (err e, h) = record { stats = count_error stats; state = h }

  -- A payload that was read, or not.
  unfoldable pub receive : CacheResult InvalidationMessage → Task H → Task H
  unfolding handled
  receive (err e) t = record t { stats = count_error t.stats }
  receive (ok m) t = handled (count_kind m (count_message t.stats)) (handler t.state m)

  module _ ⦃j : SerdeJson⦄ where
    unfoldable pub on_payload : Outcome Bytes → Task H → Task H
    unfolding receive
    on_payload (failed e) t = record t { stats = count_error t.stats }
    on_payload (done payload) t = receive (from_json payload) t

    -- The inner `loop` of `run_subscriber_loop`.
    unfoldable pub event_loop : List Event → Task H → LoopEnd × Task H
    event_loop [] t = (waiting, t)
    event_loop (message payload ∷ events) t = event_loop events (on_payload payload t)
    event_loop (stream_end ∷ events) t =
        (returned (err (invalidation_error (lit "Pub/Sub message stream ended" ∷ []))), t)
    event_loop (shutdown ∷ events) t = (returned (ok tt), t)

    -- `connect` and `subscribe` are what the two calls on the client return.
    unfoldable pub run_subscriber_loop :
        Outcome (Unit {0}) → Outcome (Unit {0}) → List Event → Task H → LoopEnd × Task H
    unfolding event_loop
    run_subscriber_loop (failed e) subscribe events t =
        (returned (err (backend_error (lit "Failed to get pubsub connection: " ∷ e))), t)
    run_subscriber_loop (done _) (failed e) events t =
        (returned (err (invalidation_error (lit "Failed to subscribe to channel: " ∷ e))), t)
    run_subscriber_loop (done _) (done _) events t = event_loop events t

    -- The loop of the task: whether it has ended when the listed rounds are used up.
    unfoldable pub start : List Round → Task H → Bool × Task H
    unfolding run_subscriber_loop
    start [] t = (false, t)
    start (r ∷ rounds) t =
        let ended = run_subscriber_loop r.connect r.subscribe r.events t in
        if r.stopped then (true, t) else elim ended.0 [
          | waiting ↦ (false, ended.1)
          | returned result ↦ elim result [
            | ok _ ↦ (true, ended.1)
            | err e ↦
                let failing = record (ended.1) { stats = count_error ended.1.stats } in
                let later = start rounds failing in
                if r.stopped_in_wait then (true, failing) else later
          ]
        ]

-- The subscriber itself. Its client and the channel of the shutdown signal are seen only by what
-- the rounds of the task say.
pub record InvalidationSubscriber : Type 0 where
  pub config : InvalidationConfig
  pub stats : InvalidationStats

-- `client` is what opening the client returns.
unfoldable pub new : Outcome (Unit {0}) → InvalidationConfig → CacheResult InvalidationSubscriber
new client config = do
  or_err (λ e. config_error (lit "Failed to create Redis client for subscriber: " ∷ e)) client
  ok record { config = config; stats = zero_stats }

abbrev pub stats_of : InvalidationSubscriber → InvalidationStats
stats_of s = snapshot s.stats

-- The task that a subscriber starts counts in the subscriber's own statistics.
unfoldable pub start_task :
    {H : Type 0} ⦃j : SerdeJson⦄
    → (H → InvalidationMessage → CacheResult (Unit {0}) × H)
    → InvalidationSubscriber
    → List Round
    → H
    → Bool × InvalidationSubscriber × H
unfolding start
start_task handler s rounds h =
    let r = start handler rounds (record { stats = s.stats; state = h }) in
    (r.0, record s { stats = r.1.stats }, r.1.state)

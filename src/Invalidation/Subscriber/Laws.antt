-- ===== src/Invalidation/Subscriber/Laws.antt =====
-- What the Pub/Sub subscriber does with the messages that arrive.
use mathlib.Core.List.{foldl}
use multi_tier_cache.Base.{
  ◌+◌, ◌%◌, ◌^◌, ◌≡◌, refl, List, [], ◌∷◌, arith, Bytes, CacheResult, ok, err, Outcome, done,
  failed, length,
}
use multi_tier_cache.Invalidation.Message.{InvalidationMessage, SerdeJson, from_json}
use multi_tier_cache.Invalidation.Stats.{
  count_error, count_message, count_kind, Balanced, count-Balanced,
}
use multi_tier_cache.Invalidation.Subscriber.{
  Event, message, stream_end, shutdown, Task, handled, receive, on_payload, event_loop,
  run_subscriber_loop, Round, start,
}

abbrev parse_payload : ⦃j : SerdeJson⦄ → Outcome Bytes → List InvalidationMessage
parse_payload (failed e) = []
parse_payload (done payload) = elim (from_json payload) [ ok m ↦ m ∷ [] | err e ↦ [] ]

-- The messages that arrive before the stream ends or the shutdown signal comes, in order: the
-- payloads that can be read as a message.
abbrev pub arrived : ⦃j : SerdeJson⦄ → List Event → List InvalidationMessage
arrived [] = []
arrived (message (failed e) ∷ events) = arrived events
arrived (message (done payload) ∷ events) =
    let rest = arrived events in elim (from_json payload) [ ok m ↦ m ∷ rest | err e ↦ rest ]
arrived (stream_end ∷ events) = []
arrived (shutdown ∷ events) = []

module _ {H : Type 0} (handler : H → InvalidationMessage → CacheResult (Unit {0}) × H) where
  abbrev pub act : H → InvalidationMessage → H
  act h m = (handler h m).1

  module _ ⦃j : SerdeJson⦄ where
    -- The handler is called on exactly the readable messages, once each and in their order, and
    -- each of them is counted as received (modulo 2^64), whether or not its handler fails.
    pub event_loop-arrived :
        (events : List Event) (t : Task H)
        → let t' = (event_loop handler events t).1 in
          (t'.state ≡ foldl act t.state (arrived events))
          × (t'.stats.messages_received % 2 ^ 64
              ≡ (t.stats.messages_received + length (arrived events)) % 2 ^ 64)
    unfolding event_loop on_payload receive handled
    event_loop-arrived [] t = (refl, omega arith)
    event_loop-arrived (message (failed e) ∷ events) t = event_loop-arrived events _
    event_loop-arrived (message (done payload) ∷ events) t =
        ground (arith, event_loop-arrived events (on_payload handler (done payload) t))
    event_loop-arrived (stream_end ∷ events) t = (refl, omega arith)
    event_loop-arrived (shutdown ∷ events) t = (refl, omega arith)

    on_payload-Balanced :
        (p : Outcome Bytes) (t : Task H)
        → Balanced t.stats
        → Balanced (on_payload handler p t).stats
    unfolding on_payload receive handled
    on_payload-Balanced (failed e) t h = h
    on_payload-Balanced (done payload) t h =
        elim (from_json payload) as (λ r. Balanced (receive handler r t).stats) [
          | err e ↦ h
          | ok m ↦
              elim (handler t.state m).0
                as (λ r.
                  Balanced
                    (handled handler (count_kind m (count_message t.stats))
                      (r, (handler t.state m).1)).stats) [
                        | ok _ ↦ count-Balanced m t.stats h
                        | err e ↦ count-Balanced m t.stats h
                      ]
        ]

    event_loop-Balanced :
        (events : List Event) (t : Task H)
        → Balanced t.stats
        → Balanced (event_loop handler events t).1.stats
    unfolding event_loop
    event_loop-Balanced [] t h = h
    event_loop-Balanced (message p ∷ events) t h =
        event_loop-Balanced events _ (on_payload-Balanced p t h)
    event_loop-Balanced (stream_end ∷ events) t h = h
    event_loop-Balanced (shutdown ∷ events) t h = h

    run_loop-Balanced :
        (c s : Outcome (Unit {0})) (events : List Event) (t : Task H)
        → Balanced t.stats
        → Balanced (run_subscriber_loop handler c s events t).1.stats
    unfolding run_subscriber_loop
    run_loop-Balanced (failed e) s events t h = h
    run_loop-Balanced (done _) (failed e) events t h = h
    run_loop-Balanced (done _) (done _) events t h = event_loop-Balanced events t h

    -- If the counters of the four kinds of message add up to the counter of all messages received,
    -- modulo 2^64, they still do after any number of rounds of the subscriber, with lost
    -- connections, unreadable payloads and failing handlers.
    pub start-Balanced :
        (rounds : List Round) (t : Task H)
        → Balanced t.stats
        → Balanced (start handler rounds t).1.stats
    unfolding start
    start-Balanced [] t h = h
    start-Balanced (r ∷ rounds) t h = ground (
      arith,
      run_loop-Balanced r.connect r.subscribe r.events t h,
      start-Balanced rounds
          (record (run_subscriber_loop handler r.connect r.subscribe r.events t).1 {
            stats =
                count_error (run_subscriber_loop handler r.connect r.subscribe r.events t).1.stats;
          }),
    )

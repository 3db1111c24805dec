-- ===== src/Invalidation/Reliable.antt =====
-- src/invalidation.rs, `ReliableStreamSubscriber`: the loop over the entries of a stream that a
-- consumer group reads and acknowledges. The backend is any `StreamingBackend`; what `select!`
-- takes up, turn by turn, is a list.
pub mod Laws
pub mod Delivery
pub mod Audit
use multi_tier_cache.Base.{
  ℕ, Bool, true, false, Option, none, some, List, [], ◌∷◌, Bytes, CacheResult, ok, err, codes,
  bytes_eq, if◌then◌else◌, Outcome, or_err, lit, config_error, ◌++◌, ◌>>=◌, ◌>>◌,
}
use multi_tier_cache.Traits.{StreamEntry, StreamingBackend}
use multi_tier_cache.Invalidation.Message.{InvalidationMessage, SerdeJson, from_json}
use multi_tier_cache.Invalidation.Stats.{InvalidationStats, zero_stats, count_error, count_message}
use multi_tier_cache.Invalidation.Publisher.{InvalidationConfig}
use multi_tier_cache.Invalidation.Subscriber.{LoopEnd, waiting, returned, Task}

-- The value of the field "payload", or else of the first field.
abbrev pub find_payload : List (Bytes × Bytes) → Option Bytes
find_payload [] = none
find_payload ((key, value) ∷ fields) =
    let later = find_payload fields in if bytes_eq key (codes "payload") then some value else later

abbrev pub first_value : List (Bytes × Bytes) → Option Bytes
first_value [] = none
first_value ((key, value) ∷ fields) = some value

unfoldable pub payload_of : List (Bytes × Bytes) → Option Bytes
payload_of fields = elim (find_payload fields) [
  | some value ↦ some value
  | none ↦ first_value fields
]

-- `payload.and_then(|json| InvalidationMessage::from_json(json).ok())`
unfoldable pub message_in : ⦃j : SerdeJson⦄ → List (Bytes × Bytes) → Option InvalidationMessage
unfolding payload_of
message_in fields = elim (payload_of fields) [
  | none ↦ none
  | some json ↦ elim (from_json json) [ ok m ↦ some m | err e ↦ none ]
]

-- What `select!` takes up: the answer of the read, or the shutdown signal.
pub data Turn : Type 0 where
  read_entries shutdown : Turn

-- The task beside its backend.
pub record Reader (T H : Type 0) : Type 0 where
  pub backend : T
  pub task : Task H

-- One round of the loop in `start`: whether the shutdown signal is there at its head, what is
-- taken up in it, and whether the signal comes in the five seconds after it.
pub record Round : Type 0 where
  pub stopped : Bool
  pub turns : List Turn
  pub stopped_in_wait : Bool

module _ {H : Type 0} (handler : H → InvalidationMessage → CacheResult (Unit {0}) × H) where
  abbrev after : CacheResult (Unit {0}) → InvalidationStats → InvalidationStats
  after (ok _) stats = stats
  after (err e) stats = count_error stats

  -- The handler on one message.
  unfoldable pub handle : InvalidationMessage → Task H → CacheResult (Unit {0}) × Task H
  handle m t =
      let r = handler t.state m in
      (r.0, record { stats = after r.0 (count_message t.stats); state = r.1 })

  abbrev push_if_ok : CacheResult (Unit {0}) → Bytes → List Bytes → List Bytes
  push_if_ok (ok _) id ids = id ∷ ids
  push_if_ok (err e) id ids = ids

  -- The `for` loop over the entries of one read, and the ids that it collects.
  unfoldable pub process_entries : ⦃j : SerdeJson⦄ → List StreamEntry → Task H → List Bytes × Task H
  unfolding message_in handle
  process_entries [] t = ([], t)
  process_entries ((id, fields) ∷ entries) t = elim (message_in fields) [
    | none ↦ process_entries entries t
    | some m ↦
        let r = handle m t in
        let rest = process_entries entries r.1 in (push_if_ok r.0 id rest.0, rest.1)
  ]

  module _ {T : Type 0} ⦃s : StreamingBackend T⦄ ⦃j : SerdeJson⦄
      (stream group consumer : Bytes) where
    abbrev pub ack : List Bytes → T → CacheResult (Unit {0}) × T
    ack [] backend = (ok tt, backend)
    ack (id ∷ ids) backend = s.stream_ack backend stream group (id ∷ ids)

    -- One turn whose read has come back, with the error if there is one.
    unfoldable pub on_entries : Reader T H → CacheResult (Unit {0}) × Reader T H
    unfolding process_entries
    on_entries r =
        let answer = s.stream_read_group r.backend stream group consumer 10 (some 5000) in
        elim answer.0 [
          | err e ↦ (err e, record r { backend = answer.1 })
          | ok entries ↦
              let processed = process_entries entries r.task in
              let acked = ack processed.0 answer.1 in
              (acked.0, record { backend = acked.1; task = processed.1 })
        ]

    unfoldable pub run_reliable_loop : List Turn → Reader T H → LoopEnd × Reader T H
    unfolding on_entries
    run_reliable_loop [] r = (waiting, r)
    run_reliable_loop (shutdown ∷ turns) r = (returned (ok tt), r)
    run_reliable_loop (read_entries ∷ turns) r =
        let next = on_entries r in
        let later = run_reliable_loop turns next.1 in
        elim next.0 [ ok _ ↦ later | err e ↦ (returned (err e), next.1) ]

    -- The loop of the task once the group exists: whether it has ended when the rounds are used up.
    unfoldable pub rounds_of : List Round → Reader T H → Bool × Reader T H
    unfolding run_reliable_loop
    rounds_of [] r = (false, r)
    rounds_of (round ∷ rounds) r =
        let ended = run_reliable_loop round.turns r in
        let later = rounds_of rounds ended.1 in
        if round.stopped then (true, r) else elim ended.0 [
          | waiting ↦ (false, ended.1)
          | returned result ↦ elim result [
            | ok _ ↦ (true, ended.1)
            | err e ↦ if round.stopped_in_wait then (true, ended.1) else later
          ]
        ]

    -- `opened` is what `RedisStreams::new` returns. Nothing runs if it fails.
    unfoldable pub start_reliable : CacheResult T → List Round → Task H → Bool × Option T × Task H
    unfolding rounds_of
    start_reliable (err e) rounds t = (true, none, t)
    start_reliable (ok backend) rounds t =
        let created = s.stream_create_group backend stream group (codes "0") in
        let r = rounds_of rounds (record { backend = created.1; task = t }) in
        (r.0, some r.1.backend, r.1.task)

-- The subscriber itself; the channel of the shutdown signal is seen only by what the rounds say.
pub record ReliableStreamSubscriber : Type 0 where
  pub redis_url : Bytes
  pub config : InvalidationConfig
  pub stats : InvalidationStats
  pub group_name : Bytes
  pub consumer_name : Bytes

-- `client` is what opening the client returns, and `uuid` the text of a fresh random id.
unfoldable pub new :
    Outcome (Unit {0})
    → Bytes
    → Bytes
    → InvalidationConfig
    → Bytes
    → CacheResult ReliableStreamSubscriber
new client uuid redis_url config group_name = do
  or_err (λ e. config_error (lit "Failed to create Redis client for reliable subscriber: " ∷ e))
      client
  ok record {
    redis_url = redis_url;
    config = config;
    stats = zero_stats;
    group_name = group_name;
    consumer_name = codes "consumer-" ++ uuid;
  }

-- The task of a subscriber. The stream that it reads has the name of the Pub/Sub channel; `open_at`
-- is `RedisStreams::new`.
unfoldable pub start_task :
    {T H : Type 0} ⦃s : StreamingBackend T⦄ ⦃j : SerdeJson⦄
    → (H → InvalidationMessage → CacheResult (Unit {0}) × H)
    → (Bytes → CacheResult T)
    → ReliableStreamSubscriber
    → List Round
    → H
    → Bool × Option T × Task H
unfolding start_reliable
start_task handler open_at r rounds h =
    start_reliable handler r.config.channel r.group_name r.consumer_name (open_at r.redis_url)
      rounds (record { stats = r.stats; state = h })

-- ===== src/Tests/RedisStreams.antt =====
-- The theorems on Redis streams and their reader, applied to a server of two lists.
use multi_tier_cache.Base.{
  ℕ, ◌≡◌, refl, Option, none, some, List, [], ◌∷◌, ◌++◌, append-nil, Bytes, done, codes, is_ok,
  take, drop, decimal, length, err, not_found, ok, CacheResult,
}
use multi_tier_cache.Traits.{StreamEntry}
use multi_tier_cache.Invalidation.Message.{InvalidationMessage, remove}
use multi_tier_cache.Invalidation.Publisher.{
  RedisConn, publish_to_audit_stream, audit_fields, default_config, InvalidationPublisher,
}
use multi_tier_cache.Invalidation.Stats.{zero_stats}
use multi_tier_cache.Invalidation.Subscriber.{waiting}
use multi_tier_cache.Invalidation.Reliable.{Reader, run_reliable_loop}
use multi_tier_cache.Invalidation.Reliable.Laws.{readable, answers, accepted}
use multi_tier_cache.Invalidation.Reliable.Delivery.{Delivers, reads_of, run_reliable_loop-Delivers}
use multi_tier_cache.Streams.{StreamCommands, RedisStreams, redis_streams, stream_add}
use multi_tier_cache.Streams.Add.{publish_to_audit_stream-stream_add}
use multi_tier_cache.Streams.Read.{Feeds, redis_streams-Delivers}
use multi_tier_cache.Tests.Setup.{number_json}

-- What the group has not been given, and what it has acknowledged.
abbrev Stream : Type 0
Stream = List StreamEntry × List Bytes

abbrev count_of : Option ℕ → ℕ
count_of none = 0
count_of (some n) = n

instance abbrev server : StreamCommands Stream
server = record {
  query_text = λ c words. (done (codes "1-1"), c);
  query_entries = λ c words. (done [], c);
  query_unit = λ c words. (done tt, c);
  xread_options = λ c keys ids options.
      let n = count_of options.count in
      (done ((codes "events", take n c.0) ∷ []), (drop n c.0, c.1));
  xack = λ c stream group ids. (done (length ids), (c.0, c.1 ++ ids));
}

abbrev undelivered : Stream → List StreamEntry
undelivered c = c.0

abbrev acked : Stream → List Bytes
acked c = c.1

server-Feeds : Feeds server (codes "events") (codes "g") (codes "c1") undelivered acked
server-Feeds = record {
  answers = λ c n block. ((codes "events", take n c.0) ∷ [], refl, append-nil (take n c.0));
  moves = λ c n block. refl;
  read_keeps = λ c n block. refl;
  acks = λ c ids. (length ids, refl);
  ack_keeps = λ c ids. refl;
  acked_more = λ c ids. refl;
}

redis_streams-Delivers_example :
    Delivers
      (redis_streams {C = Stream})
      (codes "events")
      (codes "g")
      (codes "c1")
      (λ s. undelivered s.conn_manager)
      (λ s. acked s.conn_manager)
redis_streams-Delivers_example =
    redis_streams-Delivers (codes "events") (codes "g") (codes "c1") undelivered acked server-Feeds

-- A handler that refuses the first message that it sees, and keeps them all.
abbrev Seen : Type 0
Seen = List InvalidationMessage

abbrev handler : Seen → InvalidationMessage → CacheResult (Unit {0}) × Seen
handler [] m = (err not_found, m ∷ [])
handler (n ∷ seen) m = (ok tt, m ∷ n ∷ seen)

abbrev reader : Reader (RedisStreams Stream) Seen
reader = record {
  backend = record {
    conn_manager = (
      (codes "1-0", (codes "payload", 0 ∷ codes "k") ∷ [])
          ∷ (codes "2-0", (codes "payload", 0 ∷ codes "j") ∷ [])
          ∷ [],
      [],
    );
  };
  task = record { stats = zero_stats; state = [] };
}

run_reliable_loop-Delivers_example :
    let delivered = readable (take 30 reader.backend.conn_manager.0) in
    let ran = answers handler [] delivered in
    let e =
      run_reliable_loop handler (codes "events") (codes "g") (codes "c1") (reads_of 3) reader in
    (e.0 ≡ waiting)
    × (e.1.task.state ≡ ran.1)
    × (e.1.backend.conn_manager.0 ≡ drop 30 reader.backend.conn_manager.0)
    × (e.1.backend.conn_manager.1 ≡ [] ++ accepted ran.0)
run_reliable_loop-Delivers_example =
    run_reliable_loop-Delivers handler (codes "events") (codes "g") (codes "c1")
      (λ s. undelivered s.conn_manager) (λ s. acked s.conn_manager)
      (redis_streams-Delivers (codes "events") (codes "g") (codes "c1") undelivered acked
        server-Feeds)
      3 reader

instance abbrev plain_conn : RedisConn Stream
plain_conn = record {
  publish = λ c channel text. (done tt, c);
  query = λ c words. (done (codes "1-1"), c);
}

abbrev publisher : InvalidationPublisher Stream
publisher = record { connection = ([], []); config = default_config }

publish_to_audit_stream-stream_add_example :
    let written = publish_to_audit_stream 9 publisher (remove (codes "k")) in
    let added =
      stream_add {C = Stream}
        (record { conn_manager = ([], []) })
        default_config.audit_stream
        (audit_fields (decimal 9) (remove (codes "k")))
        default_config.audit_stream_maxlen in
    (is_ok written.0 ≡ is_ok added.0) × (written.1.connection ≡ added.1.conn_manager)
publish_to_audit_stream-stream_add_example =
    publish_to_audit_stream-stream_add (λ c cmd. refl) 9 publisher (remove (codes "k"))

-- ===== src/Streams.antt =====
-- src/redis_streams.rs: the streaming backend over Redis. The commands of the crate `redis` over
-- one connection, the server behind it included, are a parameter.
pub mod Read
pub mod Add
use multi_tier_cache.Base.{
  ℕ, String, Option, none, some, List, [], ◌∷◌, ◌++◌, Bytes, Message, lit, CacheError, CacheResult,
  ok, err, backend_error, from_redis, config_error, Outcome, or_err, codes, decimal, ◌>>=◌, ◌>>◌,
}
use multi_tier_cache.Traits.{StreamEntry, StreamingBackend}

-- The answer to XREAD: streams by their names, each with its entries.
abbrev pub XreadResult : Type 0
XreadResult = List (Bytes × List StreamEntry)

-- `StreamReadOptions`: COUNT, BLOCK in milliseconds, and GROUP with a group and a consumer.
pub record ReadOptions : Type 0 where
  pub group : Option (Bytes × Bytes)
  pub count : Option ℕ
  pub block : Option ℕ

-- A command that is written out as its words, by the type of its answer, and the two commands for
-- which the crate has a method.
pub record StreamCommands (C : Type 0) : Type 0 where
  pub query_text : C → List Bytes → Outcome Bytes × C
  pub query_entries : C → List Bytes → Outcome (List StreamEntry) × C
  pub query_unit : C → List Bytes → Outcome (Unit {0}) × C
  pub xread_options : C → List Bytes → List Bytes → ReadOptions → Outcome XreadResult × C
  pub xack : C → Bytes → Bytes → List Bytes → Outcome ℕ × C

pub record RedisStreams (C : Type 0) : Type 0 where
  pub conn_manager : C

abbrev pub failed_to : String → Message → CacheError
failed_to what e = backend_error (lit what ∷ e)

abbrev pub add_text : String
add_text = "Failed to add to Redis stream: "

-- `client` and `connection` are what opening the client and its connection return.
unfoldable pub new : {C : Type 0} → Outcome (Unit {0}) → Outcome C → CacheResult (RedisStreams C)
new client connection = do
  or_err (λ e. config_error (lit "Failed to create Redis client for streams: " ∷ e)) client
  conn_manager ← or_err from_redis connection
  ok record { conn_manager = conn_manager }

-- The loop that adds the fields to a command.
unfoldable pub add_fields : List Bytes → List (Bytes × Bytes) → List Bytes
add_fields cmd [] = cmd
add_fields cmd ((field, value) ∷ fields) = add_fields (cmd ++ (field ∷ value ∷ [])) fields

unfoldable pub add_command : Bytes → List (Bytes × Bytes) → Option ℕ → List Bytes
unfolding add_fields
add_command stream_key fields maxlen =
    let cmd = codes "XADD" ∷ stream_key ∷ [] in
    let cut : List Bytes = elim maxlen [
      | none ↦ cmd
      | some max ↦ cmd ++ (codes "MAXLEN" ∷ codes "~" ∷ decimal max ∷ [])
    ] in
    add_fields (cut ++ (codes "*" ∷ [])) fields

-- The two loops that put the entries of an answer on the end of `all_entries`.
unfoldable pub push_entries : List StreamEntry → List StreamEntry → List StreamEntry
push_entries all_entries [] = all_entries
push_entries all_entries ((id, fields) ∷ entries) =
    push_entries (all_entries ++ ((id, fields) ∷ [])) entries

unfoldable pub push_streams : List StreamEntry → XreadResult → List StreamEntry
unfolding push_entries
push_streams all_entries [] = all_entries
push_streams all_entries ((stream, entries) ∷ result) =
    push_streams (push_entries all_entries entries) result

abbrev all_of : XreadResult → CacheResult (List StreamEntry)
all_of result = ok (push_streams [] result)

module _ {C : Type 0} ⦃redis : StreamCommands C⦄ where
  unfoldable pub stream_add :
      RedisStreams C → Bytes → List (Bytes × Bytes) → Option ℕ → CacheResult Bytes × RedisStreams C
  unfolding add_command
  stream_add s stream_key fields maxlen =
      let r = redis.query_text s.conn_manager (add_command stream_key fields maxlen) in
      (or_err (failed_to add_text) r.0, record { conn_manager = r.1 })

  unfoldable pub stream_read_latest :
      RedisStreams C → Bytes → ℕ → CacheResult (List StreamEntry) × RedisStreams C
  stream_read_latest s stream_key count =
      let r = redis.query_entries s.conn_manager (
        codes "XREVRANGE"
        ∷ stream_key
        ∷ codes "+"
        ∷ codes "-"
        ∷ codes "COUNT"
        ∷ decimal count
        ∷ []) in
      (
        or_err (failed_to "Failed to read latest from Redis stream using XREVRANGE: ") r.0,
        record { conn_manager = r.1 },
      )

  unfoldable pub stream_read :
      RedisStreams C
      → Bytes
      → Bytes
      → ℕ
      → Option ℕ
      → CacheResult (List StreamEntry) × RedisStreams C
  unfolding push_streams
  stream_read s stream_key last_id count block_ms =
      let options : ReadOptions = record { group = none; count = some count; block = block_ms } in
      let r = redis.xread_options s.conn_manager (stream_key ∷ []) (last_id ∷ []) options in
      (
        or_err (failed_to "Failed to read from Redis stream using XREAD: ") r.0 >>= all_of,
        record { conn_manager = r.1 },
      )

  unfoldable pub stream_create_group :
      RedisStreams C → Bytes → Bytes → Bytes → CacheResult (Unit {0}) × RedisStreams C
  stream_create_group s stream_key group_name id =
      let r =
        redis.query_unit s.conn_manager (
          codes "XGROUP" ∷ codes "CREATE" ∷ stream_key ∷ group_name ∷ id ∷ codes "MKSTREAM" ∷ []) in
      (
        or_err (failed_to "Failed to create Redis stream consumer group: ") r.0,
        record { conn_manager = r.1 },
      )

  -- The id ">" asks for entries that the group has given to no consumer yet.
  unfoldable pub stream_read_group :
      RedisStreams C
      → Bytes
      → Bytes
      → Bytes
      → ℕ
      → Option ℕ
      → CacheResult (List StreamEntry) × RedisStreams C
  unfolding push_streams
  stream_read_group s stream_key group_name consumer_name count block_ms =
      let options : ReadOptions = record {
        group = some (group_name, consumer_name);
        count = some count;
        block = block_ms;
      } in
      let r = redis.xread_options s.conn_manager (stream_key ∷ []) (codes ">" ∷ []) options in
      (
        or_err (failed_to "Failed to read from Redis stream group: ") r.0 >>= all_of,
        record { conn_manager = r.1 },
      )

  unfoldable pub stream_ack :
      RedisStreams C → Bytes → Bytes → List Bytes → CacheResult (Unit {0}) × RedisStreams C
  stream_ack s stream_key group_name ids =
      let r = redis.xack s.conn_manager stream_key group_name ids in
      (
        or_err (failed_to "Failed to ACK stream entries: ") r.0 >>= λ n. ok tt,
        record { conn_manager = r.1 },
      )

  instance abbrev pub redis_streams : StreamingBackend (RedisStreams C)
  redis_streams = record {
    stream_add = stream_add;
    stream_read_latest = stream_read_latest;
    stream_read = stream_read;
    stream_create_group = stream_create_group;
    stream_read_group = stream_read_group;
    stream_ack = stream_ack;
  }

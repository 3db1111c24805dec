-- ===== src/Streams/Read.antt =====
-- src/redis_streams.rs: what the reads return, and how a group is fed through the backend.
use multi_tier_cache.Base.{
  ℕ, ◌≡◌, ◌∙◌, refl, sym, ap, Option, some, List, [], ◌∷◌, ◌++◌, append-nil, append_assoc, Bytes,
  codes, done, ok, take, drop,
}
use multi_tier_cache.Traits.{StreamEntry}
use multi_tier_cache.Invalidation.Reliable.Delivery.{Delivers}
use multi_tier_cache.Streams.{
  XreadResult, ReadOptions, StreamCommands, push_entries, push_streams, stream_read_group,
  stream_ack, redis_streams,
}

-- All entries of an answer, stream after stream.
abbrev pub entries_of : XreadResult → List StreamEntry
entries_of [] = []
entries_of ((stream, entries) ∷ result) = entries ++ entries_of result

push_entries_lem : (all entries : List StreamEntry) → push_entries all entries ≡ all ++ entries
unfolding push_entries
push_entries_lem all [] = sym (append-nil all)
push_entries_lem all ((id, fields) ∷ entries) =
    push_entries_lem (all ++ ((id, fields) ∷ [])) entries
    ∙ append_assoc all ((id, fields) ∷ []) entries

pub push_streams_lem :
    (all : List StreamEntry) (result : XreadResult)
    → push_streams all result ≡ all ++ entries_of result
unfolding push_streams
push_streams_lem all [] = sym (append-nil all)
push_streams_lem all ((stream, entries) ∷ result) =
    push_streams_lem (push_entries all entries) result
    ∙ ap (λ l. l ++ entries_of result) (push_entries_lem all entries)
    ∙ append_assoc all entries (entries_of result)

-- The options of a read for a consumer of a group.
abbrev pub options_for : Bytes → Bytes → ℕ → Option ℕ → ReadOptions
options_for group consumer count block = record {
  group = some (group, consumer);
  count = some count;
  block = block;
}

-- What a Redis server promises to a consumer of a group, while the group exists and no call fails.
-- The id ">" stands for the entries that no consumer of the group has been given: XREADGROUP hands
-- out the first of them, up to COUNT, and a stream without any is left out of the answer.
pub record Feeds {C : Type 0} (redis : StreamCommands C) (stream group consumer : Bytes)
    (undelivered : C → List StreamEntry) (acked : C → List Bytes) : Type 0 where
  pub answers :
      (c : C) (n : ℕ) (block : Option ℕ)
      → (result : XreadResult) × ((redis.xread_options c
            (stream ∷ [])
            (codes ">" ∷ [])
            (options_for group consumer n block)).0
          ≡ done result)
        × (entries_of result ≡ take n (undelivered c))
  pub moves :
      (c : C) (n : ℕ) (block : Option ℕ)
      → undelivered
          (redis.xread_options c
            (stream ∷ [])
            (codes ">" ∷ [])
            (options_for group consumer n block)).1
        ≡ drop n (undelivered c)
  pub read_keeps :
      (c : C) (n : ℕ) (block : Option ℕ)
      → acked
          (redis.xread_options c
            (stream ∷ [])
            (codes ">" ∷ [])
            (options_for group consumer n block)).1
        ≡ acked c
  pub acks : (c : C) (ids : List Bytes) → (n : ℕ) × ((redis.xack c stream group ids).0 ≡ done n)
  pub ack_keeps :
      (c : C) (ids : List Bytes) → undelivered (redis.xack c stream group ids).1 ≡ undelivered c
  pub acked_more :
      (c : C) (ids : List Bytes) → acked (redis.xack c stream group ids).1 ≡ acked c ++ ids

-- While the server answers as documented to the commands of a group: read through this backend, the
-- stream gives the group's consumer its entries in order, as many as asked for and each only once,
-- whatever the streams into which the answer sorts them, and an acknowledgement adds its ids.
pub redis_streams-Delivers :
    {C : Type 0} ⦃redis : StreamCommands C⦄ (stream group consumer : Bytes)
    (undelivered : C → List StreamEntry) (acked : C → List Bytes)
    → Feeds redis stream group consumer undelivered acked
    → Delivers
        (redis_streams {C = C})
        stream
        group
        consumer
        (λ s. undelivered s.conn_manager)
        (λ s. acked s.conn_manager)
unfolding stream_read_group stream_ack
redis_streams-Delivers ⦃redis⦄ stream group consumer undelivered acked feeds = record {
  reads = λ s n block.
      let answer = feeds.answers s.conn_manager n block in
      rw answer.1 (ap ok (push_streams_lem [] answer.0 ∙ answer.2));
  moves = λ s n block. feeds.moves s.conn_manager n block;
  read_keeps = λ s n block. feeds.read_keeps s.conn_manager n block;
  acks = λ s ids. rw (feeds.acks s.conn_manager ids).1 refl;
  ack_keeps = λ s ids. feeds.ack_keeps s.conn_manager ids;
  acked_more = λ s ids. feeds.acked_more s.conn_manager ids;
}

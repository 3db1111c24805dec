-- ===== src/Lib.antt =====
-- A model of the Rust crate multi-tier-cache: a cache manager over an ordered list of tiers, with
-- promotion of hits, protection against stampedes, and invalidation across instances over Redis.
--
-- The parts of the program, and the files that model them:
--   * src/error.rs: Base/Result (CacheError, CacheResult and the operator `?`). Base also holds the
--     numbers, tests and list lemmas that all parts share; Time is `Duration` and the numbers `f64`.
--   * src/traits.rs: Traits, the traits CacheBackend, L2CacheBackend and StreamingBackend as records
--     of operations on a backend's state. Traits/Laws says what a client expects of a backend;
--     Traits/Dyn is a choice between two backends, as a `dyn` object makes it.
--   * src/serialization.rs: Serialization.
--   * src/invalidation.rs: Invalidation, with Hex (the values of messages as hex digits), Message,
--     Stats, Publisher, Subscriber, the loop of the task that listens on Pub/Sub, and Reliable, that of
--     the task that reads a stream as one of a group. Reliable/Delivery follows that loop over many
--     reads, Reliable/Audit gives it what the publisher writes to a stream.
--   * src/cache_manager.rs: Manager. Tier has tiers and strategies, Construct the constructors,
--     Fetch the walk down the tiers with promotion, Get and Compute the two kinds of lookup with
--     their creator, waiter and fallback, Set the write to all tiers, Invalidate the operations that
--     broadcast, Receive the handler of what others broadcast, Report statistics and streams.
--     Manager/Settings and Manager/Invariant say what no operation disturbs; Fetch/Expiry follows a
--     promoted value through time, Freshness a whole history of calls, each at its own instant, and
--     Invalidate/Pattern a removal by a pattern down the tiers. Receive/Sent is what the calls that
--     change keys publish, with Publisher/Carried for what then goes over the connection, and
--     Receive/Convergence joins it to the instance that hears it.
--     What tasks do that ask for one key at the same time is in Flight: a step relation over the
--     entry in the map, the watch channels and the tasks, with every order of their moves; a task
--     may be dropped wherever it awaits, and its guard then removes its entry.
--   * src/backends/: Backends, with `matches_pattern` in Pattern and a module for each cache: DashMap,
--     Redis, Moka (its two stores, of bytes and of typed values), Memcached and QuickCache.
--   * src/redis_streams.rs: Streams, with Read (what the reads return, and how they feed a group) and
--     Add (the command that writes an entry, beside that of the publisher's audit trail).
--   * src/builder.rs: Builder.
--   * src/lib.rs: System, the constructors of CacheSystem and its health check. System/Default is the
--     default system as a whole: a manager over a first and a second cache, compared with one map.
--
-- The state of a manager is the record CacheManager: its tiers, each with the state of its
-- backend, its counters, its serializer, its publisher and the keys in flight. An operation
-- takes the state and returns its result beside the new one; atomic counters of 64 bits wrap.
-- The loops run over lists, but for the scan of the Redis backend, which ends when the server
-- says so: it takes fuel, and the fuel is enough if it is no less than the number of steps that
-- the server takes for a full iteration. Manager/Abstract views a manager as one map from keys
-- to values, and compares it with an ideal map, call by call.
--
-- What is outside the repository is a parameter: the crates redis, serde_json, serde, bincode,
-- rmp-serde, dashmap, moka, memcache and quick_cache, floating-point numbers, the draws of the
-- random generator and the clock. In Manager, what a waiter hears on its channel is one, too.
-- Text is a list of bytes; an error's message is a list of pieces. Tests has concrete
-- parameters, with which the theorems are applied.
--
-- Not modelled: the interleavings of operations of a manager other than those of Flight, for
-- elsewhere an operation runs to its end; eviction, and the passing of time in the theorems of
-- Manager/Abstract and System; the tasks that run the subscribers, but for the turns that their
-- loops take; log output; the examples, the benches and the tests, which are not part of the
-- library. A connection's pool and its retries belong to the crate redis, and the age and the
-- idle time at which moka drops an entry by itself to that crate: the laws of a backend hold
-- while it drops none.
pub mod Base
pub mod Time
pub mod Traits
pub mod Invalidation
pub mod Serialization
pub mod Manager
pub mod Backends
pub mod Builder
pub mod Flight
pub mod Streams
pub mod System
pub mod Tests

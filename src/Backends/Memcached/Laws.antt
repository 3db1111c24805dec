-- ===== src/Backends/Memcached/Laws.antt =====
-- src/backends/memcached_cache.rs: the times to live that go out, and what the cache holds while
-- its servers answer.
use multi_tier_cache.Base.{
  ◌≤◌, err, or_err, is_ok, u64_add, ℕ, ◌^◌, ◌-◌, ◌<◌, min, ◌≡◌, true, Bool, Option, none, some,
  Bytes, done, bytes_eq, if◌then◌else◌, arith, ◌↔◌, ok, inl, inr, Outcome-cases,
}
use multi_tier_cache.Time.{Duration, from_secs, as_secs}
use multi_tier_cache.Traits.Laws.{found, IsLawful}
use multi_tier_cache.Backends.Memcached.{
  Client, MemcachedCache, expiration, get, set_with_ttl, remove, get_with_ttl, memcached,
  operation_failed, spawn_failed,
}

expiration_lem : (ttl : Duration) → expiration ttl ≡ min (as_secs ttl) (2 ^ 32 - 1)
unfolding expiration
expiration_lem ttl = ground arith

module _ {C : Type 0} ⦃memcache : Client C⦄ where
  -- If the pool runs its call, `set_with_ttl` sends one command SET with the key, the value and an
  -- expiration time, leaves the client as that command does and answers with its outcome; if not,
  -- it sends nothing and reports that. A write is counted exactly if it succeeds. The time that it
  -- sends is the time to live in whole seconds, cut to the largest number of 32 bits: it is below
  -- 2^32, it is zero exactly for a time to live of less than one second, and above the 2,592,000
  -- seconds of 30 days exactly for one of a second more than that or longer.
  pub set_with_ttl_lem :
      (c : MemcachedCache C) (key value : Bytes) (ttl : Duration)
      → let n = min (as_secs ttl) (2 ^ 32 - 1) in
        let task = memcache.spawn c.client in
        let sent = memcache.set task.1 key value n in
        let r = set_with_ttl c key value ttl in
        (r.0 ≡ (if task.0 then or_err operation_failed sent.0 else err spawn_failed))
        × (r.1.client ≡ (if task.0 then sent.1 else task.1))
        × (r.1.sets ≡ (if is_ok r.0 then u64_add c.sets 1 else c.sets))
        × (n < 2 ^ 32)
        × ((n ≡ 0) ↔ (ttl < from_secs 1))
        × ((2_592_000 < n) ↔ (from_secs 2_592_001 ≤ ttl))
  unfolding set_with_ttl
  set_with_ttl_lem c key value ttl =
      rw (expiration_lem ttl, set_with_ttl)
        (
          ground arith,
          ground arith,
          ground arith,
          omega arith,
          (λ e. omega arith, λ h. omega arith),
          (λ e. omega arith, λ h. omega arith),
        )

-- What the servers promise while every call runs, none of them drops an entry, and no entry's time
-- has passed. A write may still be refused, and so may a removal.
pub record Serves {C : Type 0} (memcache : Client C) (stored : C → Bytes → Option Bytes)
    : Type 0 where
  pub runs : (c : C) → (memcache.spawn c).0 ≡ true
  pub run_keeps : (c : C) (j : Bytes) → stored (memcache.spawn c).1 j ≡ stored c j
  pub reads : (c : C) (k : Bytes) → (memcache.get c k).0 ≡ done (stored c k)
  pub read_keeps : (c : C) (k j : Bytes) → stored (memcache.get c k).1 j ≡ stored c j
  pub sets :
      (c : C) (k v : Bytes) (exp : ℕ) (j : Bytes)
      → (memcache.set c k v exp).0 ≡ done tt
      → stored (memcache.set c k v exp).1 j ≡ (if bytes_eq k j then some v else stored c j)
  pub deletes :
      (c : C) (k j : Bytes) (existed : Bool)
      → (memcache.delete c k).0 ≡ done existed
      → stored (memcache.delete c k).1 j ≡ (if bytes_eq k j then none else stored c j)

module _ {C : Type 0} ⦃memcache : Client C⦄ (stored : C → Bytes → Option Bytes)
    (serves : Serves memcache stored) where
  abbrev pub holds : MemcachedCache C → Bytes → Option Bytes
  holds c = stored c.client

  read_found : (c : MemcachedCache C) (k : Bytes) → found (get_with_ttl c k).0 ≡ holds c k
  unfolding get_with_ttl get
  read_found c k =
      let task = memcache.spawn c.client in
      ground (arith, serves.runs c.client, serves.reads task.1 k, serves.run_keeps c.client k)

  read_keeps : (c : MemcachedCache C) (k j : Bytes) → holds (get_with_ttl c k).1 j ≡ holds c j
  unfolding get_with_ttl get
  read_keeps c k j =
      let task = memcache.spawn c.client in
      ground (
        arith,
        serves.runs c.client,
        serves.reads task.1 k,
        serves.run_keeps c.client j,
        serves.read_keeps task.1 k j,
      )

  write_holds :
      (c : MemcachedCache C) (k v : Bytes) (ttl : Duration) (j : Bytes)
      → (set_with_ttl c k v ttl).0 ≡ ok tt
      → holds (set_with_ttl c k v ttl).1 j ≡ (if bytes_eq k j then some v else holds c j)
  unfolding set_with_ttl
  write_holds c k v ttl j success =
      let task = memcache.spawn c.client in
      ground (
        arith,
        serves.runs c.client,
        serves.run_keeps c.client j,
        serves.sets task.1 k v (expiration ttl) j,
      )

  clear_holds :
      (c : MemcachedCache C) (k j : Bytes)
      → (remove c k).0 ≡ ok tt
      → holds (remove c k).1 j ≡ (if bytes_eq k j then none else holds c j)
  unfolding remove
  clear_holds c k j success =
      let task = memcache.spawn c.client in
      elim (Outcome-cases (memcache.delete task.1 k).0) [
        | inl (existed, e) ↦ ground (
          arith,
          serves.runs c.client,
          serves.run_keeps c.client j,
          serves.deletes task.1 k j existed e,
        )
        | inr (m, e) ↦ ground (arith, serves.runs c.client, e)
      ]

  -- While the servers answer every read and drop no entry, and no entry's time has passed: the
  -- cache is a map from keys to values. A read finds what is held and changes nothing held, and a
  -- write or a removal that reports success changes its own key alone.
  pub memcached-IsLawful : IsLawful memcached holds
  unfolding set_with_ttl remove
  memcached-IsLawful = record {
    read = read_found;
    read_keeps = read_keeps;
    write = write_holds;
    clear = clear_holds;
  }

-- ===== src/Invalidation/Stats.antt =====
-- src/invalidation.rs: the statistics of invalidation. `AtomicInvalidationStats` and its snapshot
-- `InvalidationStats` hold the same numbers, so one record stands for both.
use multi_tier_cache.Base.{ℕ, ◌+◌, ◌%◌, ◌^◌, ◌≡◌, u64_add, arith}
use multi_tier_cache.Invalidation.Message.{
  InvalidationMessage, remove, update, remove_pattern, remove_bulk,
}

pub record InvalidationStats : Type 0 where
  pub messages_sent : ℕ
  pub messages_received : ℕ
  pub removes_received : ℕ
  pub updates_received : ℕ
  pub patterns_received : ℕ
  pub bulk_removes_received : ℕ
  pub processing_errors : ℕ

abbrev pub zero_stats : InvalidationStats
zero_stats = record {
  messages_sent = 0;
  messages_received = 0;
  removes_received = 0;
  updates_received = 0;
  patterns_received = 0;
  bulk_removes_received = 0;
  processing_errors = 0;
}

abbrev pub snapshot : InvalidationStats → InvalidationStats
snapshot s = record {
  messages_sent = s.messages_sent;
  messages_received = s.messages_received;
  removes_received = s.removes_received;
  updates_received = s.updates_received;
  patterns_received = s.patterns_received;
  bulk_removes_received = s.bulk_removes_received;
  processing_errors = s.processing_errors;
}

abbrev pub count_sent : InvalidationStats → InvalidationStats
count_sent s = record s { messages_sent = u64_add s.messages_sent 1 }

abbrev pub count_error : InvalidationStats → InvalidationStats
count_error s = record s { processing_errors = u64_add s.processing_errors 1 }

abbrev pub count_message : InvalidationStats → InvalidationStats
count_message s = record s { messages_received = u64_add s.messages_received 1 }

abbrev pub count_kind : InvalidationMessage → InvalidationStats → InvalidationStats
count_kind (remove key) s = record s { removes_received = u64_add s.removes_received 1 }
count_kind (update key value ttl) s = record s { updates_received = u64_add s.updates_received 1 }
count_kind (remove_pattern p) s = record s { patterns_received = u64_add s.patterns_received 1 }
count_kind (remove_bulk keys) s = record s {
  bulk_removes_received = u64_add s.bulk_removes_received 1;
}

-- The counters of the four kinds add up to the counter of all messages, modulo 2^64.
abbrev pub Balanced : InvalidationStats → Type 0
Balanced s =
    (s.removes_received + s.updates_received + s.patterns_received + s.bulk_removes_received)
      % 2 ^ 64
    ≡ s.messages_received % 2 ^ 64

pub count-Balanced :
    (m : InvalidationMessage) (s : InvalidationStats)
    → Balanced s
    → Balanced (count_kind m (count_message s))
count-Balanced (remove key) s h = omega arith
count-Balanced (update key value ttl) s h = omega arith
count-Balanced (remove_pattern p) s h = omega arith
count-Balanced (remove_bulk keys) s h = omega arith

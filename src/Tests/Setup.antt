-- ===== src/Tests/Setup.antt =====
-- Concrete stand-ins for the crates that the program calls, and small caches over them.
use multi_tier_cache.Base.{
  take-length, drop-length, ℕ, zero, suc, ◌*◌, ◌/◌, ◌≡◌, refl, sym, ap, Bool, true, false, Option,
  none, some, List, [], ◌∷◌, ◌++◌, Bytes, CacheResult, ok, Outcome, done, failed, length, lit, take,
  drop, arith, codes,
}
use multi_tier_cache.Time.{Float}
use multi_tier_cache.Serialization.{Serde}
use multi_tier_cache.Serialization
use multi_tier_cache.Invalidation.Message.{
  SerdeJson, WireMessage, wire_remove, wire_update, wire_remove_pattern, wire_remove_bulk,
  ReadsBack,
}
use multi_tier_cache.Invalidation.Publisher.{RedisConn, InvalidationPublisher, default_config}
use multi_tier_cache.Backends.DashMap.{DashMapCache, CacheEntry, backend_at, remove_pattern}
use multi_tier_cache.Backends.DashMap.Laws.{
  holds_at, backend_at-IsLawful, backend_at-ClearsPatterns,
}
use multi_tier_cache.Traits.{L2CacheBackend}
use multi_tier_cache.Traits.Laws.{IsLawful, ClearsPatterns}
use multi_tier_cache.Manager.Tier.{CacheTier, new_tier}
use multi_tier_cache.Manager.{CacheManager}
use multi_tier_cache.Manager.Construct.{fresh}
use multi_tier_cache.Manager.Compute.{Session}
use multi_tier_cache.Manager.Invalidate.Pattern.{AcceptsPatterns}
use multi_tier_cache.Manager.Abstract.{IsReliable}
use multi_tier_cache.Tests.AssocMap.{Entries, assoc_map, assoc_map-IsMap}

-- Whole numbers, counted in nanoseconds, as the numbers that scale a time to live.
instance abbrev pub whole : Float ℕ
whole = record {
  of_u64 = λ n. n;
  mul = λ a b. a * b;
  div = λ a b. a / b;
  as_secs_f64 = λ d. d;
  from_secs_f64 = λ f. f;
}

-- A connection that keeps what was published on it, and refuses every other command.
abbrev pub Log : Type 0
Log = List (Bytes × Bytes)

instance abbrev pub log_conn : RedisConn Log
log_conn = record {
  publish = λ c channel text. (done tt, (channel, text) ∷ c);
  query = λ c words. (failed (lit "READONLY" ∷ []), c);
}

-- A text of numbers that begins with the kind of the message. Lists of keys are refused.
unfoldable pub write_wire : WireMessage → Outcome Bytes
write_wire (wire_remove key) = done (0 ∷ key)
write_wire (wire_update key hex none) = done (1 ∷ length key ∷ key ++ hex)
write_wire (wire_update key hex (some ttl)) = done (2 ∷ ttl ∷ length key ∷ key ++ hex)
write_wire (wire_remove_pattern pattern) = done (3 ∷ pattern)
write_wire (wire_remove_bulk keys) = failed (lit "unsupported" ∷ [])

unfoldable pub read_wire : Bytes → Outcome WireMessage
read_wire (zero ∷ key) = done (wire_remove key)
read_wire (suc zero ∷ n ∷ rest) = done (wire_update (take n rest) (drop n rest) none)
read_wire (suc (suc zero) ∷ ttl ∷ n ∷ rest) =
    done (wire_update (take n rest) (drop n rest) (some ttl))
read_wire (suc (suc (suc zero)) ∷ pattern) = done (wire_remove_pattern pattern)
read_wire text = failed (lit "malformed" ∷ [])

instance abbrev pub number_json : SerdeJson
number_json = record { to_string = write_wire; from_str = read_wire }

written : Outcome Bytes → Bytes
written (done text) = text
written (failed e) = []

reads : (w : WireMessage) (text : Bytes) → write_wire w ≡ done text → read_wire text ≡ done w
unfolding write_wire read_wire written
reads (wire_remove key) text e = rw (ap written (sym e)) refl
reads (wire_update key hex none) text e =
    rw (ap written (sym e)) (rw (take-length key hex, drop-length key hex) refl)
reads (wire_update key hex (some ttl)) text e =
    rw (ap written (sym e)) (rw (take-length key hex, drop-length key hex) refl)
reads (wire_remove_pattern pattern) text e = rw (ap written (sym e)) refl
reads (wire_remove_bulk keys) text e = absurd (ground arith)

pub number_json-ReadsBack : ReadsBack number_json
number_json-ReadsBack = reads

-- Numbers, each written as the text that has nothing else.
unfoldable pub only : Bytes → Outcome ℕ
only (n ∷ []) = done n
only text = failed (lit "malformed" ∷ [])

instance abbrev pub number_serde : Serde ℕ
number_serde = record {
  json_to_vec = λ n. done (n ∷ []);
  json_from_slice = only;
  bincode_serialize = λ n. done (n ∷ []);
  bincode_deserialize = only;
  rmp_to_vec = λ n. done (n ∷ []);
  rmp_from_slice = only;
}

only-back : (n : ℕ) (v : Bytes) → done (n ∷ []) ≡ done v → only v ≡ done n
unfolding only written
only-back n v e = rw (ap written (sym e)) refl

pub number_serde-ReadsBack : Serialization.ReadsBack number_serde
number_serde-ReadsBack = record {
  json_back = only-back;
  bincode_back = only-back;
  rmp_back = only-back;
}

-- Two tiers, each a `DashMapCache` at the instant 100.
abbrev pub Dash : Type 0
Dash = DashMapCache Entries

instance abbrev pub dash : L2CacheBackend Dash
dash = backend_at ⦃maps = assoc_map⦄ 100

abbrev pub dash_holds : Dash → Bytes → Option Bytes
dash_holds = holds_at ⦃maps = assoc_map⦄ 100

pub dash-IsLawful : IsLawful dash dash_holds
dash-IsLawful = (backend_at-IsLawful ⦃maps = assoc_map⦄ assoc_map-IsMap 100).0

pub dash-IsReliable : IsReliable dash
dash-IsReliable = (backend_at-IsLawful ⦃maps = assoc_map⦄ assoc_map-IsMap 100).1

pub dash-ClearsPatterns : ClearsPatterns dash dash_holds
dash-ClearsPatterns = backend_at-ClearsPatterns ⦃maps = assoc_map⦄ assoc_map-IsMap 100

pub dash-AcceptsPatterns : AcceptsPatterns dash
unfolding remove_pattern
dash-AcceptsPatterns s pattern = refl

abbrev pub dash_with : Entries → Dash
dash_with entries = record { map = entries; hits = 0; misses = 0; sets = 0 }

abbrev pub entry : Bytes → ℕ → CacheEntry
entry value expires_at = record { value = value; expires_at = some expires_at }

-- The first tier has an entry for "a" that has expired; the second has "a" and "b".
abbrev pub l1 : CacheTier ℕ Dash
l1 = new_tier ⦃b = dash⦄ (dash_with ((codes "a", entry (7 ∷ []) 50) ∷ [])) 1 false 1 1

abbrev pub l2 : CacheTier ℕ Dash
l2 =
    new_tier ⦃b = dash⦄
      (dash_with ((codes "a", entry (1 ∷ []) 200) ∷ (codes "b", entry (2 ∷ []) 300) ∷ [])) 2 true 10
      1

abbrev pub publisher : InvalidationPublisher Log
publisher = record { connection = []; config = default_config }

abbrev pub manager : CacheManager ℕ Dash Unit Log
manager = fresh (l1 ∷ l2 ∷ []) none (some publisher)

abbrev pub session : Session ℕ Dash Unit Log ℕ
session = record { manager = manager; world = 0 }

-- A computation that counts how often it runs.
abbrev pub compute : ℕ → CacheResult Bytes × ℕ
compute n = (ok (n ∷ []), suc n)

abbrev pub draw : ℕ → Bool
draw n = true

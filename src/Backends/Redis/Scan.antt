-- ===== src/Backends/Redis/Scan.antt =====
-- src/backends/redis_cache.rs: the scan ends when the server says so, and what a pattern removes.
use multi_tier_cache.Base.{
  ℕ, suc, zero, ◌≤◌, ◌≡◌, refl, sym, ap, ◌∙◌, false, Option, none, some, List, [], ◌∷◌, ◌++◌,
  append_assoc, arith, Bytes, ok, done, ◌==◌, if◌then◌else◌,
}
use multi_tier_cache.Manager.Get.{contains_key}
use multi_tier_cache.Backends.Redis.{
  RedisCommands, RedisCache, scan_loop, scan_keys, remove_bulk, remove_pattern, del_result, forget,
}

-- A full iteration of the server: `n` steps of SCAN from a cursor on until the cursor is zero
-- again, and the keys they report.
pub data Walk {C : Type 0} (redis : RedisCommands C) (pattern : Bytes)
    : C → ℕ → List Bytes → ℕ → C → Type 0 where
  last_step :
      (c : C) (cursor : ℕ) (keys : List Bytes) (c' : C)
      → redis.scan c cursor pattern ≡ (done (0, keys), c')
      → Walk redis pattern c cursor keys 1 c'
  one_step :
      (c : C) (cursor next : ℕ) (keys rest : List Bytes) (n : ℕ) (c1 c' : C)
      → redis.scan c cursor pattern ≡ (done (next, keys), c1)
      → (next == 0) ≡ false
      → Walk redis pattern c1 next rest n c'
      → Walk redis pattern c cursor (keys ++ rest) (suc n) c'

-- What Redis promises of SCAN and DEL, over a view of its keys.
pub record IsServer {C : Type 0} (redis : RedisCommands C) (holds : C → Bytes → Option Bytes)
    : Type 0 where
  pub scan_keeps :
      (c : C) (cursor : ℕ) (pattern j : Bytes) → holds (redis.scan c cursor pattern).1 j ≡ holds c j
  pub del_clears :
      (c : C) (keys : List Bytes) (n : ℕ) (j : Bytes)
      → (redis.del c keys).0 ≡ done n
      → holds (redis.del c keys).1 j ≡ (if contains_key keys j then none else holds c j)

module _ {C : Type 0} ⦃redis : RedisCommands C⦄ where
  -- If the server's iteration ends after `n` steps, fuel for `n` steps is enough.
  scan_loop-Walk :
      {pattern : Bytes} {c c' : C} {cursor n : ℕ} {keys : List Bytes}
      → Walk redis pattern c cursor keys n c'
      → (fuel : ℕ) (before : List Bytes) → n ≤ fuel
      → scan_loop fuel pattern cursor before c ≡ (some (ok (before ++ keys)), c')
  unfolding scan_loop
  scan_loop-Walk (last_step c cursor keys c' e) zero before h = absurd (omega arith)
  scan_loop-Walk (last_step c cursor keys c' e) (suc fuel) before h =
      rw (ap (λ r. r.0) e, scan_loop) (rw (ap (λ r. r.1) e) refl)
  scan_loop-Walk (one_step c cursor next keys rest n c1 c' e more w) zero before h =
      absurd (omega arith)
  scan_loop-Walk (one_step c cursor next keys rest n c1 c' e more w) (suc fuel) before h =
      rw (ap (λ r. r.0) e, scan_loop)
        (rw more (
          rw (ap (λ r. r.1) e) (
            scan_loop-Walk w fuel (before ++ keys) (omega arith)
            ∙ ap (λ l. (some (ok l), c')) (append_assoc before keys rest))))

  Walk-holds :
      (holds : C → Bytes → Option Bytes) {pattern : Bytes} {c c' : C} {cursor n : ℕ}
      {keys : List Bytes}
      → IsServer redis holds
      → Walk redis pattern c cursor keys n c'
      → (j : Bytes) → holds c' j ≡ holds c j
  Walk-holds holds {pattern} q (last_step c cursor keys c' e) j =
      ap (λ r. holds r.1 j) (sym e) ∙ q.scan_keeps c cursor pattern j
  Walk-holds holds {pattern} q (one_step c cursor next keys rest n c1 c' e more w) j =
      Walk-holds holds q w j ∙ ap (λ r. holds r.1 j) (sym e) ∙ q.scan_keeps c cursor pattern j

  remove_bulk-holds :
      (holds : C → Bytes → Option Bytes) (s : RedisCache C) (keys : List Bytes) (j : Bytes)
      → IsServer redis holds
      → ((c : C) (keys : List Bytes) → (n : ℕ) × ((redis.del c keys).0 ≡ done n))
      → (forget (remove_bulk s keys).0 ≡ ok tt)
        × (holds (remove_bulk s keys).1.conn_manager j
            ≡ (if contains_key keys j then none else holds s.conn_manager j))
  unfolding remove_bulk contains_key
  remove_bulk-holds holds s [] j q up = (refl, refl)
  remove_bulk-holds holds s (key ∷ keys) j q up =
      let (n, e) = up s.conn_manager (key ∷ keys) in
      (ap (λ r. forget (del_result r)) e, q.del_clears s.conn_manager (key ∷ keys) n j e)

  -- Let the server keep its promises on SCAN and DEL, let its iteration for the pattern end after
  -- `n` steps, and let no DEL fail. Then `remove_pattern` comes to an end, with fuel for `n` steps or
  -- more; it succeeds, and it clears exactly the keys that the iteration has reported.
  pub remove_pattern-Walk :
      (holds : C → Bytes → Option Bytes) (s : RedisCache C) (pattern : Bytes) (keys : List Bytes)
      (n fuel : ℕ) (c' : C)
      → IsServer redis holds
      → ((c : C) (keys : List Bytes) → (n : ℕ) × ((redis.del c keys).0 ≡ done n))
      → Walk redis pattern s.conn_manager 0 keys n c'
      → n ≤ fuel
      → let r = remove_pattern fuel s pattern in
        (r.0 ≡ some (ok tt))
        × ((j : Bytes)
            → holds r.1.conn_manager j
              ≡ (if contains_key keys j then none else holds s.conn_manager j))
  unfolding remove_pattern scan_keys
  remove_pattern-Walk holds s pattern keys n fuel c' q up w h =
      let e = scan_loop-Walk w fuel [] h in
      let left = record s { conn_manager = c' } in
      rw (ap (λ r. r.0) e, remove_pattern)
        (rw (ap (λ r. r.1) e) (
          ap some (remove_bulk-holds holds left keys [] q up).0,
          λ j.
              (remove_bulk-holds holds left keys j q up).1
              ∙ ap (λ o. if contains_key keys j then none else o) (Walk-holds holds q w j),
        ))

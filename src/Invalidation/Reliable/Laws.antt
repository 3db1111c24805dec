-- ===== src/Invalidation/Reliable/Laws.antt =====
-- Which entries the reliable subscriber acknowledges.
use multi_tier_cache.Base.{
  ℕ, suc, ◌+◌, ◌%◌, ◌^◌, ◌≡◌, refl, ap, none, some, List, [], ◌∷◌, arith, Bytes, CacheResult, ok,
  err, length, Option-cases, CacheResult-cases, inl, inr,
}
use multi_tier_cache.Traits.{StreamEntry}
use multi_tier_cache.Invalidation.Message.{InvalidationMessage, SerdeJson}
use multi_tier_cache.Invalidation.Stats.{count_error, count_message}
use multi_tier_cache.Invalidation.Subscriber.{Task}
use multi_tier_cache.Invalidation.Reliable.{message_in, handle, process_entries}

-- The entries that have a message, each with its id, in their order.
abbrev pub readable : ⦃j : SerdeJson⦄ → List StreamEntry → List (Bytes × InvalidationMessage)
readable [] = []
readable ((id, fields) ∷ entries) =
    let rest = readable entries in
    elim (message_in fields) [ none ↦ rest | some m ↦ (id, m) ∷ rest ]

module _ {H : Type 0} (handler : H → InvalidationMessage → CacheResult (Unit {0}) × H) where
  -- The handler run on messages one after the other: what it answers to each, and its state.
  abbrev pub answers :
      H → List (Bytes × InvalidationMessage) → List (Bytes × CacheResult (Unit {0})) × H
  answers h [] = ([], h)
  answers h ((id, m) ∷ ms) =
      let r = handler h m in let rest = answers r.1 ms in ((id, r.0) ∷ rest.0, rest.1)

abbrev pub accepted : List (Bytes × CacheResult (Unit {0})) → List Bytes
accepted [] = []
accepted ((id, ok _) ∷ rs) = id ∷ accepted rs
accepted ((id, err e) ∷ rs) = accepted rs

abbrev pub refused : List (Bytes × CacheResult (Unit {0})) → ℕ
refused [] = 0
refused ((id, ok _) ∷ rs) = refused rs
refused ((id, err e) ∷ rs) = suc (refused rs)

module _ {H : Type 0} (handler : H → InvalidationMessage → CacheResult (Unit {0}) × H)
    ⦃j : SerdeJson⦄ where
  -- In the entries of one read, the handler runs once on every message that can be read, in their
  -- order. The ids collected for the acknowledgement are exactly those of the messages it accepted:
  -- an entry that cannot be read or whose message it refused is not acknowledged. Every readable
  -- message is counted as received and every refusal as an error, modulo 2^64; an entry that cannot
  -- be read is not counted at all.
  pub process_entries_lem :
      (entries : List StreamEntry) (t : Task H)
      → let ran = answers handler t.state (readable entries) in
        let r = process_entries handler entries t in
        (r.0 ≡ accepted ran.0)
        × (r.1.state ≡ ran.1)
        × (r.1.stats.messages_received % 2 ^ 64
            ≡ (t.stats.messages_received + length (readable entries)) % 2 ^ 64)
        × (r.1.stats.processing_errors % 2 ^ 64
            ≡ (t.stats.processing_errors + refused ran.0) % 2 ^ 64)
  unfolding process_entries handle
  process_entries_lem [] t = (refl, refl, omega arith, omega arith)
  process_entries_lem ((id, fields) ∷ entries) t = elim (Option-cases (message_in fields)) [
    | inl unread ↦ rw (unread, process_entries, readable) (process_entries_lem entries t)
    | inr (m, found) ↦ elim (CacheResult-cases (handler t.state m).0) [
      | inl (_, good) ↦
          let ih =
            process_entries_lem entries
              (record { stats = count_message t.stats; state = (handler t.state m).1 }) in
          rw (found, process_entries, readable)
            (rw (good, accepted, refused) (ap (λ l. id ∷ l) ih.0, ih.1, omega (arith, ih.2), ih.3))
      | inr (e, bad) ↦
          let ih = process_entries_lem entries (record {
            stats = count_error (count_message t.stats);
            state = (handler t.state m).1;
          }) in
          rw (found, process_entries, readable)
            (rw (bad, accepted, refused) (ih.0, ih.1, omega (arith, ih.2), omega (arith, ih.3)))
    ]
  ]

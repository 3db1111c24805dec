-- ===== src/Invalidation/Reliable/Delivery.antt =====
-- src/invalidation.rs, `ReliableStreamSubscriber`: which entries of a stream reach the handler.
use multi_tier_cache.Base.{
  ℕ, zero, suc, ◌+◌, ◌*◌, take-add, drop-add, ◌≡◌, ◌∙◌, refl, sym, ap, ap₂, some, Option, List, [],
  ◌∷◌, ◌++◌, append-nil, append_assoc, arith, Bytes, CacheResult, ok, err, take, drop, Option-cases,
  inl, inr,
}
use multi_tier_cache.Traits.{StreamEntry, StreamingBackend}
use multi_tier_cache.Invalidation.Message.{InvalidationMessage, SerdeJson}
use multi_tier_cache.Invalidation.Subscriber.{waiting}
use multi_tier_cache.Invalidation.Reliable.{
  message_in, process_entries, Turn, read_entries, Reader, ack, on_entries, run_reliable_loop,
}
use multi_tier_cache.Invalidation.Reliable.Laws.{readable, answers, accepted, process_entries_lem}

-- What a stream promises to a group while no call fails: `undelivered` are the entries that the
-- group has not been given yet, and `acked` the ids that it has acknowledged, in their order.
pub record Delivers {T : Type 0} (s : StreamingBackend T) (stream group consumer : Bytes)
    (undelivered : T → List StreamEntry) (acked : T → List Bytes) : Type 0 where
  pub reads :
      (t : T) (n : ℕ) (block : Option ℕ)
      → (s.stream_read_group t stream group consumer n block).0 ≡ ok (take n (undelivered t))
  pub moves :
      (t : T) (n : ℕ) (block : Option ℕ)
      → undelivered (s.stream_read_group t stream group consumer n block).1 ≡ drop n (undelivered t)
  pub read_keeps :
      (t : T) (n : ℕ) (block : Option ℕ)
      → acked (s.stream_read_group t stream group consumer n block).1 ≡ acked t
  pub acks : (t : T) (ids : List Bytes) → (s.stream_ack t stream group ids).0 ≡ ok tt
  pub ack_keeps :
      (t : T) (ids : List Bytes) → undelivered (s.stream_ack t stream group ids).1 ≡ undelivered t
  pub acked_more :
      (t : T) (ids : List Bytes) → acked (s.stream_ack t stream group ids).1 ≡ acked t ++ ids

-- The turns of a loop that takes up `n` reads.
abbrev pub reads_of : ℕ → List Turn
reads_of zero = []
reads_of (suc n) = read_entries ∷ reads_of n

readable-append :
    ⦃j : SerdeJson⦄ (es fs : List StreamEntry) → readable (es ++ fs) ≡ readable es ++ readable fs
readable-append [] fs = refl
readable-append ((id, fields) ∷ es) fs = elim (Option-cases (message_in fields)) [
  | inl unread ↦ rw (unread, readable) (readable-append es fs)
  | inr (m, found) ↦ rw (found, readable) (ap (λ l. (id, m) ∷ l) (readable-append es fs))
]

accepted-append :
    (rs qs : List (Bytes × CacheResult (Unit {0})))
    → accepted (rs ++ qs) ≡ accepted rs ++ accepted qs
accepted-append [] qs = refl
accepted-append ((id, ok _) ∷ rs) qs = ap (λ l. id ∷ l) (accepted-append rs qs)
accepted-append ((id, err e) ∷ rs) qs = accepted-append rs qs

module _ {H : Type 0} (handler : H → InvalidationMessage → CacheResult (Unit {0}) × H) where
  -- Messages handled in two goes.
  answers-append :
      (ms ns : List (Bytes × InvalidationMessage)) (h : H)
      → let first = answers handler h ms in
        let second = answers handler first.1 ns in
        ((answers handler h (ms ++ ns)).0 ≡ first.0 ++ second.0)
        × ((answers handler h (ms ++ ns)).1 ≡ second.1)
  answers-append [] ns h = (refl, refl)
  answers-append ((id, m) ∷ ms) ns h =
      let r = handler h m in
      let rest = answers-append ms ns r.1 in (ap (λ l. (id, r.0) ∷ l) rest.0, rest.1)

module _ {H : Type 0} (handler : H → InvalidationMessage → CacheResult (Unit {0}) × H) {T : Type 0}
    ⦃s : StreamingBackend T⦄ ⦃j : SerdeJson⦄ (stream group consumer : Bytes)
    (undelivered : T → List StreamEntry) (acked : T → List Bytes)
    (laws : Delivers s stream group consumer undelivered acked) where
  abbrev acked_with : List Bytes → T → CacheResult (Unit {0}) × T
  acked_with = ack handler stream group consumer

  ack_lem :
      (ids : List Bytes) (t : T)
      → ((acked_with ids t).0 ≡ ok tt)
        × (undelivered (acked_with ids t).1 ≡ undelivered t)
        × (acked (acked_with ids t).1 ≡ acked t ++ ids)
  ack_lem [] t = (refl, refl, sym (append-nil (acked t)))
  ack_lem (id ∷ ids) t =
      (laws.acks t (id ∷ ids), laws.ack_keeps t (id ∷ ids), laws.acked_more t (id ∷ ids))

  -- One turn: the next ten entries are handled, and those accepted are acknowledged.
  on_entries_lem :
      (r : Reader T H)
      → let p = process_entries handler (take 10 (undelivered r.backend)) r.task in
        let next = on_entries handler stream group consumer r in
        (next.0 ≡ ok tt)
        × (next.1.task ≡ p.1)
        × (undelivered next.1.backend ≡ drop 10 (undelivered r.backend))
        × (acked next.1.backend ≡ acked r.backend ++ p.0)
  unfolding on_entries
  on_entries_lem r =
      let entries = take 10 (undelivered r.backend) in
      let p = process_entries handler entries r.task in
      let read = (s.stream_read_group r.backend stream group consumer 10 (some 5000)).1 in
      let sent = ack_lem p.0 read in
      rw (laws.reads r.backend 10 (some 5000), on_entries)
        (
          sent.0,
          refl,
          sent.1 ∙ laws.moves r.backend 10 (some 5000),
          sent.2 ∙ ap (λ l. l ++ p.0) (laws.read_keeps r.backend 10 (some 5000)),
        )

  -- If no read and no acknowledgement fails, and the stream gives the group its entries in order,
  -- each only once: after any number of reads, of ten entries each, the loop waits for the next,
  -- the handler has run once on every message that could be read among the entries so delivered,
  -- in their order, and the entries acknowledged are, in their order, those whose messages it
  -- accepted. An entry whose message it refused is not delivered again.
  pub run_reliable_loop-Delivers :
      (n : ℕ) (r : Reader T H)
      → let delivered = readable (take (n * 10) (undelivered r.backend)) in
        let ran = answers handler r.task.state delivered in
        let e = run_reliable_loop handler stream group consumer (reads_of n) r in
        (e.0 ≡ waiting)
        × (e.1.task.state ≡ ran.1)
        × (undelivered e.1.backend ≡ drop (n * 10) (undelivered r.backend))
        × (acked e.1.backend ≡ acked r.backend ++ accepted ran.0)
  unfolding run_reliable_loop
  run_reliable_loop-Delivers zero r = (refl, refl, refl, sym (append-nil (acked r.backend)))
  run_reliable_loop-Delivers (suc n) r =
      let all = undelivered r.backend in
      let next = on_entries handler stream group consumer r in
      let turn = on_entries_lem r in
      let p = process_entries_lem handler (take 10 all) r.task in
      let ih = run_reliable_loop-Delivers n next.1 in
      let ms = readable (take 10 all) in
      let ns = readable (take (n * 10) (drop 10 all)) in
      let first = answers handler r.task.state ms in
      let second = answers handler first.1 ns in
      let more : suc n * 10 ≡ 10 + n * 10 = omega arith in
      let whole =
        ap (λ k. readable (take k all)) more
        ∙ ap (λ l. readable l) (take-add 10 (n * 10) all)
        ∙ readable-append (take 10 all) (take (n * 10) (drop 10 all)) in
      let split = answers-append handler ms ns r.task.state in
      let ran = ap (λ l. answers handler r.task.state l) whole in
      let same =
        ap₂ (λ h l. answers handler h (readable (take (n * 10) l))) (ap (λ t. t.state) turn.1 ∙ p.1)
          turn.2 in
      rw (turn.0, run_reliable_loop)
        (
          ih.0,
          ih.1 ∙ ap (λ a. a.1) same ∙ sym (ap (λ a. a.1) ran ∙ split.1),
          ih.2
              ∙ ap (drop (n * 10)) turn.2
              ∙ sym (ap (λ k. drop k all) more ∙ drop-add 10 (n * 10) all),
          ih.3
              ∙ ap₂ (λ xs ys. xs ++ ys) (turn.3 ∙ ap (λ ids. acked r.backend ++ ids) p.0)
                  (ap (λ a. accepted a.0) same)
              ∙ append_assoc (acked r.backend) _ _
              ∙ ap (λ ids. acked r.backend ++ ids)
                  (sym (
                    ap (λ a. accepted a.0) ran
                    ∙ ap accepted split.0
                    ∙ accepted-append first.0 second.0)),
        )

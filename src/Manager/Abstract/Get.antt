-- ===== src/Manager/Abstract/Get.antt =====
-- `get` returns what is visible, leaves it visible, and leaves no entry in flight.
use multi_tier_cache.Base.{
  ℕ, ◌≡◌, refl, sym, ap, ◌∙◌, Bool, false, Option, none, some, List, [], ◌∷◌, arith, Bytes,
  CacheResult, ok, err, bytes_eq_refl, Option-cases, inl, inr, take, drop, take-append-drop, ◌⊎◌,
}
use multi_tier_cache.Time.{Float}
use multi_tier_cache.Traits.{L2CacheBackend}
use multi_tier_cache.Traits.Laws.{IsLawful}
use multi_tier_cache.Manager.Tier.{CacheTier, get_with_ttl}
use multi_tier_cache.Manager.{CacheManager}
use multi_tier_cache.Manager.Fetch.{get_multi_tier_from}
use multi_tier_cache.Manager.Get.{
  contains_key, remove_key, count_request, insert_in_flight, count_outcome, first_tier, fast_path,
  lower_tiers, get_creator, get_coalesced, get,
}
use multi_tier_cache.Manager.Abstract.{IsReliable, or_else, visible, visible-append}
use multi_tier_cache.Manager.Abstract.Read.{
  visible-scan, visible-replace, get-holds, miss-holds, hit-holds,
}

pub remove_key-absent :
    (keys : List Bytes) (key : Bytes) → contains_key keys key ≡ false → remove_key keys key ≡ keys
unfolding contains_key remove_key
remove_key-absent [] key h = refl
remove_key-absent (k ∷ keys) key h = ground (arith, remove_key-absent keys key)

pub remove_key-cons :
    (keys : List Bytes) (key : Bytes)
    → contains_key keys key ≡ false
    → remove_key (key ∷ keys) key ≡ keys
unfolding remove_key
remove_key-cons keys key h = rw (bytes_eq_refl key) (remove_key-absent keys key h)

count_outcome-keeps :
    {F S T C : Type 0} (r : CacheResult (Option Bytes)) (m : CacheManager F S T C)
    → ((count_outcome r m).tiers ≡ m.tiers)
      × ((count_outcome r m).in_flight_requests ≡ m.in_flight_requests)
unfolding count_outcome
count_outcome-keeps (ok none) m = (refl, refl)
count_outcome-keeps (ok (some v)) m = ground arith
count_outcome-keeps (err e) m = (refl, refl)

module _ {F S T C : Type 0} ⦃f : Float F⦄ ⦃b : L2CacheBackend S⦄ (holds : S → Bytes → Option Bytes)
    (lawful : IsLawful b holds) where
  -- The two managers show the same value under every key and have the same keys in flight.
  pub record Same (m m' : CacheManager F S T C) : Type 0 where
    pub shown : (j : Bytes) → visible holds m'.tiers j ≡ visible holds m.tiers j
    pub in_flight : m'.in_flight_requests ≡ m.in_flight_requests

  -- The read of the first tier: a hit is what is visible, and a miss means that the first tier,
  -- if there is one, does not hold the key.
  pub record Fast (m : CacheManager F S T C) (key : Bytes) (r : Option Bytes × CacheManager F S T C)
      : Type 0 where
    pub same : Same m r.1
    pub outcome :
        ((v : Bytes) × (r.0 ≡ some v) × (visible holds m.tiers key ≡ some v))
        ⊎ ((r.0 ≡ none) × (visible holds (take 1 r.1.tiers) key ≡ none))

  first_tier-Fast :
      (m : CacheManager F S T C) (key : Bytes) (tiers : List (CacheTier F S))
      → m.tiers ≡ tiers
      → Fast m key (first_tier m key tiers)
  unfolding first_tier
  first_tier-Fast m key [] e = record {
    same = record { shown = λ j. refl; in_flight = refl };
    outcome = inr (refl, rw e refl);
  }
  first_tier-Fast m key (t ∷ tiers) e = elim (Option-cases (get_with_ttl t key).0) [
    | inl miss ↦
        rw (miss, first_tier)
          (record {
            same = record {
              shown = λ j. rw e (visible-replace holds lawful key [] t tiers j);
              in_flight = refl;
            };
            outcome = inr (
              refl,
              rw (get-holds holds lawful t key key, miss-holds holds lawful t key miss) refl,
            );
          })
    | inr ((value, ttl), hit) ↦
        rw (hit, first_tier)
          (record {
            same = record {
              shown = λ j. rw e (visible-replace holds lawful key [] t tiers j);
              in_flight = refl;
            };
            outcome = inl (value, refl, rw (e, hit-holds holds lawful t key hit) refl);
          })
  ]

  pub fast_path-Fast : (m : CacheManager F S T C) (key : Bytes) → Fast m key (fast_path m key)
  unfolding fast_path
  fast_path-Fast m key = first_tier-Fast m key m.tiers refl

module _ {F S T C : Type 0} ⦃f : Float F⦄ ⦃b : L2CacheBackend S⦄ (holds : S → Bytes → Option Bytes)
    (lawful : IsLawful b holds) (reliable : IsReliable b) where
  -- The query below the first tier returns what is visible, if the first tier has no such key.
  pub lower_tiers_lem :
      (m : CacheManager F S T C) (key : Bytes) (draw : ℕ → Bool)
      → visible holds (take 1 m.tiers) key ≡ none
      → ((lower_tiers m key draw).0 ≡ ok (visible holds m.tiers key))
        × Same holds lawful m (lower_tiers m key draw).1
  unfolding lower_tiers get_multi_tier_from
  lower_tiers_lem m key draw above =
      let walk =
        visible-scan holds lawful reliable key draw m.counters (take 1 m.tiers) (drop 1 m.tiers)
          above in
      let whole = take-append-drop 1 m.tiers in
      let split : visible holds (drop 1 m.tiers) key ≡ visible holds m.tiers key = sym (
        ap (λ l. visible holds l key) (sym whole)
        ∙ visible-append holds (take 1 m.tiers) (drop 1 m.tiers) key
        ∙ ap (λ o. or_else o (visible holds (drop 1 m.tiers) key)) above) in
      let left = get_multi_tier_from m key draw 1 in
      let kept = count_outcome-keeps left.0 left.1 in
      (
        ap ok (walk.0 ∙ split),
        record {
          shown = λ j.
              ap (λ l. visible holds l j) kept.0 ∙ walk.1 j ∙ ap (λ l. visible holds l j) whole;
          in_flight = kept.1;
        },
      )

  pub Same-trans :
      {m m' m'' : CacheManager F S T C}
      → Same holds lawful m m'
      → Same holds lawful m' m''
      → Same holds lawful m m''
  Same-trans s s' = record {
    shown = λ j. s'.shown j ∙ s.shown j;
    in_flight = s'.in_flight ∙ s.in_flight;
  }

  -- The creator's own result, and what it leaves.
  pub get_creator_lem :
      (m : CacheManager F S T C) (key : Bytes) (draw : ℕ → Bool)
      → ((get_creator m key draw).result ≡ ok (visible holds m.tiers key))
        × Same holds lawful m (get_creator m key draw).manager
  unfolding get_creator
  get_creator_lem m key draw = go (fast_path-Fast holds lawful m key)
    where
      again : Option Bytes × CacheManager F S T C
      again = fast_path m key

      go :
          Fast holds lawful m key again
          → ((get_creator m key draw).result ≡ ok (visible holds m.tiers key))
            × Same holds lawful m (get_creator m key draw).manager
      go fast = elim fast.outcome [
        | inl (v, hit, seen) ↦ rw (hit, get_creator) (rw seen refl, fast.same)
        | inr (miss, above) ↦
            let lower = lower_tiers_lem again.1 key draw above in
            rw (miss, get_creator)
              (lower.0 ∙ ap ok (fast.same.shown key), Same-trans fast.same lower.1)
      ]

  -- A result and a manager after a read of a key: the read has succeeded with what was visible,
  -- nothing visible has changed, and the same keys are in flight.
  abbrev pub ReadsVisible :
      CacheManager F S T C → Bytes → CacheResult (Option Bytes) × CacheManager F S T C → Type 0
  ReadsVisible m key r =
      (r.0 ≡ ok (visible holds m.tiers key))
      × ((j : Bytes) → visible holds r.1.tiers j ≡ visible holds m.tiers j)
      × (r.1.in_flight_requests ≡ m.in_flight_requests)

  get_coalesced_lem :
      (m : CacheManager F S T C) (key : Bytes) (draw : ℕ → Bool)
      (heard : Option (CacheResult (Option Bytes)))
      → contains_key m.in_flight_requests key ≡ false
      → ReadsVisible m key (get_coalesced m key draw heard)
  unfolding get_coalesced
  get_coalesced_lem m key draw heard alone =
      let created = get_creator_lem (insert_in_flight m key) key draw in
      rw (alone, get_coalesced)
        (
          created.0,
          created.1.shown,
          ap (λ keys. remove_key keys key) created.1.in_flight
              ∙ remove_key-cons m.in_flight_requests key alone,
        )

  get_after :
      (m : CacheManager F S T C) (key : Bytes) (draw : ℕ → Bool)
      (heard : Option (CacheResult (Option Bytes)))
      → contains_key m.in_flight_requests key ≡ false
      → Fast holds lawful (count_request m) key (fast_path (count_request m) key)
      → ReadsVisible m key (get m key draw heard)
  unfolding get
  get_after m key draw heard alone fast = elim fast.outcome [
    | inl (v, hit, seen) ↦ rw (hit, get) (rw seen refl, fast.same.shown, fast.same.in_flight)
    | inr (miss, above) ↦
        let m' = (fast_path (count_request m) key).1 in
        let slow = get_coalesced_lem m' key draw heard (rw fast.same.in_flight alone) in
        rw (miss, get)
          (
            slow.0 ∙ ap ok (fast.same.shown key),
            λ j. slow.1 j ∙ fast.same.shown j,
            slow.2 ∙ fast.same.in_flight,
          )
  ]

  -- With backends that are lawful and never refuse a write or a removal: a `get` that finds no
  -- computation of its key in flight succeeds with what is visible under the key. Whatever it
  -- promotes, it changes nothing that is visible, under this key or another, and it leaves the
  -- requests in flight as it found them.
  pub get_lem :
      (m : CacheManager F S T C) (key : Bytes) (draw : ℕ → Bool)
      (heard : Option (CacheResult (Option Bytes)))
      → contains_key m.in_flight_requests key ≡ false
      → ReadsVisible m key (get m key draw heard)
  get_lem m key draw heard alone =
      get_after m key draw heard alone (fast_path-Fast holds lawful (count_request m) key)

-- ===== src/Manager/Abstract/Compute.antt =====
-- `get_or_compute_with` returns what is visible, and computes a value only if there is none.
use multi_tier_cache.Base.{
  ℕ, ◌≡◌, refl, ap, ◌∙◌, Bool, false, Option, none, some, List, [], ◌∷◌, map, arith, Bytes,
  CacheResult, ok, err, bytes_eq, if◌then◌else◌,
}
use multi_tier_cache.Time.{Float}
use multi_tier_cache.Traits.{L2CacheBackend}
use multi_tier_cache.Traits.Laws.{IsLawful}
use multi_tier_cache.Manager.Tier.{CacheTier, CacheStrategy}
use multi_tier_cache.Manager.{CacheManager}
use multi_tier_cache.Manager.Fetch.{is_empty, get_multi_tier_from, get_multi_tier}
use multi_tier_cache.Manager.Fetch.Hit.{settings, get_multi_tier_from_lem}
use multi_tier_cache.Manager.Get.{contains_key, remove_key, count_request, insert_in_flight}
use multi_tier_cache.Manager.Compute.{
  Session, store, compute_and_store, compute_creator, compute_coalesced, get_or_compute_with,
}
use multi_tier_cache.Manager.Abstract.{IsReliable, visible}
use multi_tier_cache.Manager.Abstract.Read.{visible-scan}
use multi_tier_cache.Manager.Abstract.Get.{Same, remove_key-cons}
use multi_tier_cache.Manager.Abstract.Write.{set_with_strategy_lem}

-- The value that a computation makes visible under its key.
abbrev pub learned : Bytes → CacheResult Bytes → (Bytes → Option Bytes) → Bytes → Option Bytes
learned key (ok value) before j = if bytes_eq key j then some value else before j
learned key (err e) before j = before j

pub is_empty-settings :
    {F S : Type 0} (tiers tiers' : List (CacheTier F S))
    → map settings tiers' ≡ map settings tiers
    → is_empty tiers ≡ false
    → is_empty tiers' ≡ false
is_empty-settings [] tiers' e h = absurd (ground arith)
is_empty-settings (t ∷ tiers) [] e h = absurd (ground arith)
is_empty-settings (t ∷ tiers) (t' ∷ tiers') e h = refl

pub learned-cong :
    (key : Bytes) (r : CacheResult Bytes) (before before' : Bytes → Option Bytes) (j : Bytes)
    → before' j ≡ before j
    → learned key r before' j ≡ learned key r before j
learned-cong key (ok value) before before' j e = rw e
learned-cong key (err e') before before' j e = e

module _ {F S T C : Type 0} ⦃f : Float F⦄ ⦃b : L2CacheBackend S⦄ (holds : S → Bytes → Option Bytes)
    (lawful : IsLawful b holds) (reliable : IsReliable b) where
  get_multi_tier-Same :
      (m : CacheManager F S T C) (key : Bytes) (draw : ℕ → Bool)
      → ((get_multi_tier m key draw).0 ≡ ok (visible holds m.tiers key))
        × Same holds lawful m (get_multi_tier m key draw).1
  unfolding get_multi_tier_from
  get_multi_tier-Same m key draw =
      let walk = visible-scan holds lawful reliable key draw m.counters [] m.tiers refl in
      (ap ok walk.0, record { shown = walk.1; in_flight = refl })

  store-learned :
      (m : CacheManager F S T C) (key : Bytes) (strategy : CacheStrategy) (r : CacheResult Bytes)
      → is_empty m.tiers ≡ false
      → ((j : Bytes)
          → visible holds (store m key strategy r).tiers j
            ≡ learned key r (visible holds m.tiers) j)
        × ((store m key strategy r).in_flight_requests ≡ m.in_flight_requests)
  store-learned m key strategy (ok value) h =
      let set = set_with_strategy_lem holds lawful reliable m key value strategy h in (set.1, set.2)
  store-learned m key strategy (err e) h = (λ j. refl, refl)

  get_multi_tier-is_empty :
      (m : CacheManager F S T C) (key : Bytes) (draw : ℕ → Bool)
      → is_empty m.tiers ≡ false
      → is_empty (get_multi_tier m key draw).1.tiers ≡ false
  get_multi_tier-is_empty m key draw =
      is_empty-settings m.tiers _ (get_multi_tier_from_lem m key draw 0).1

module _ {F S T C W : Type 0} ⦃f : Float F⦄ ⦃b : L2CacheBackend S⦄
    (holds : S → Bytes → Option Bytes) (lawful : IsLawful b holds) (reliable : IsReliable b) where
  -- What `get_or_compute_with` returns and leaves, if nothing is visible under the key: the
  -- computation has run once.
  abbrev pub Computes :
      (W → CacheResult Bytes × W)
      → Bytes
      → Session F S T C W
      → CacheResult Bytes × Session F S T C W
      → Type 0
  Computes compute key s r =
      (r.0 ≡ (compute s.world).0)
      × (r.1.world ≡ (compute s.world).1)
      × ((j : Bytes)
          → visible holds r.1.manager.tiers j
            ≡ learned key (compute s.world).0 (visible holds s.manager.tiers) j)
      × (r.1.manager.in_flight_requests ≡ s.manager.in_flight_requests)

  -- The same if a value is visible: it is returned, and the computation has not run.
  abbrev pub Recalls :
      Bytes → Bytes → Session F S T C W → CacheResult Bytes × Session F S T C W → Type 0
  Recalls value key s r =
      (r.0 ≡ ok value)
      × (r.1.world ≡ s.world)
      × ((j : Bytes) → visible holds r.1.manager.tiers j ≡ visible holds s.manager.tiers j)
      × (r.1.manager.in_flight_requests ≡ s.manager.in_flight_requests)

  -- The same holds from before a read that showed nothing new.
  Computes-after :
      (compute : W → CacheResult Bytes × W) (key : Bytes) (s : Session F S T C W)
      (m : CacheManager F S T C) (r : CacheResult Bytes × Session F S T C W)
      → Same holds lawful s.manager m
      → Computes compute key (record s { manager = m }) r
      → Computes compute key s r
  Computes-after compute key s m r same c = (
    c.0,
    c.1,
    λ j.
        c.2 j
        ∙ learned-cong key (compute s.world).0 (visible holds s.manager.tiers)
            (visible holds m.tiers) j (same.shown j),
    c.3 ∙ same.in_flight,
  )

  compute_and_store-Computes :
      (compute : W → CacheResult Bytes × W) (s : Session F S T C W) (key : Bytes)
      (strategy : CacheStrategy)
      → is_empty s.manager.tiers ≡ false
      → Computes compute key s (compute_and_store compute s key strategy)
  unfolding compute_and_store
  compute_and_store-Computes compute s key strategy h =
      let stored =
        store-learned holds lawful reliable s.manager key strategy (compute s.world).0 h in
      (refl, refl, stored.0, stored.1)

  module _ (compute : W → CacheResult Bytes × W) (s : Session F S T C W) (key : Bytes)
      (strategy : CacheStrategy) where
    compute_creator-Computes :
        (draw : ℕ → Bool)
        → is_empty s.manager.tiers ≡ false
        → visible holds s.manager.tiers key ≡ none
        → let r = compute_creator compute s key strategy draw in
          Computes compute key s (r.result, r.manager)
    unfolding compute_creator
    compute_creator-Computes draw h absent =
        let again = get_multi_tier-Same holds lawful reliable s.manager key draw in
        let m = (get_multi_tier s.manager key draw).1 in
        let h' = get_multi_tier-is_empty holds lawful reliable s.manager key draw h in
        rw (again.0, absent, compute_creator)
          (Computes-after compute key s m
            (compute_and_store compute (record s { manager = m }) key strategy) again.1
            (compute_and_store-Computes compute (record s { manager = m }) key strategy h'))

  compute_coalesced-Computes :
      (compute : W → CacheResult Bytes × W) (s : Session F S T C W) (key : Bytes)
      (strategy : CacheStrategy) (draw : ℕ → Bool) (heard : Option (CacheResult (Option Bytes)))
      → contains_key s.manager.in_flight_requests key ≡ false
      → is_empty s.manager.tiers ≡ false
      → visible holds s.manager.tiers key ≡ none
      → Computes compute key s (compute_coalesced compute s key strategy draw heard)
  unfolding compute_coalesced
  compute_coalesced-Computes compute s key strategy draw heard alone h absent =
      let mine = record s { manager = insert_in_flight s.manager key } in
      let c = compute_creator-Computes compute mine key strategy draw h absent in
      rw (alone, compute_coalesced)
        (
          c.0,
          c.1,
          c.2,
          ap (λ keys. remove_key keys key) c.3
              ∙ remove_key-cons s.manager.in_flight_requests key alone,
        )

  module _ (compute : W → CacheResult Bytes × W) (s : Session F S T C W) (key : Bytes)
      (strategy : CacheStrategy) (draw : ℕ → Bool)
      (heard : Option (CacheResult (Option Bytes))) where
    -- With backends that are lawful and never refuse a write or a removal: if a value is visible
    -- under the key, `get_or_compute_with` returns it. The computation does not run, and nothing
    -- visible and nothing in flight changes.
    pub get_or_compute_with-Recalls :
        (value : Bytes)
        → visible holds s.manager.tiers key ≡ some value
        → Recalls value key s (get_or_compute_with compute s key strategy draw heard)
    unfolding get_or_compute_with
    get_or_compute_with-Recalls value seen =
        let first = get_multi_tier-Same holds lawful reliable (count_request s.manager) key draw in
        rw (first.0, seen, get_or_compute_with) (refl, refl, first.1.shown, first.1.in_flight)

    -- With backends that are lawful and never refuse a write or a removal: if no value is visible
    -- under the key and no computation of it is in flight, in a manager that has a tier, then
    -- `get_or_compute_with` runs the computation exactly once and returns its result. A value
    -- becomes visible under the key; an error leaves all that is visible as it was. The requests in
    -- flight are as before.
    pub get_or_compute_with-Computes :
        contains_key s.manager.in_flight_requests key ≡ false
        → is_empty s.manager.tiers ≡ false
        → visible holds s.manager.tiers key ≡ none
        → Computes compute key s (get_or_compute_with compute s key strategy draw heard)
    unfolding get_or_compute_with
    get_or_compute_with-Computes alone h absent =
        let first = get_multi_tier-Same holds lawful reliable (count_request s.manager) key draw in
        let m = (get_multi_tier (count_request s.manager) key draw).1 in
        let s' = record s { manager = m } in
        let h' =
          get_multi_tier-is_empty holds lawful reliable (count_request s.manager) key draw h in
        rw (first.0, absent, get_or_compute_with)
          (Computes-after compute key s m (compute_coalesced compute s' key strategy draw heard)
            (record { shown = first.1.shown; in_flight = first.1.in_flight })
            (compute_coalesced-Computes compute s' key strategy draw heard
              (rw first.1.in_flight alone) h' (first.1.shown key ∙ absent)))

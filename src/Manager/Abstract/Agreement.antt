-- ===== src/Manager/Abstract/Agreement.antt =====
-- src/cache_manager.rs: a read, a write and a computation do on a manager what they do on a map.
use multi_tier_cache.Base.{
  ℕ, ◌≡◌, refl, ap, ◌∙◌, Bool, false, Option, some, List, [], Bytes, CacheResult, ok, bytes_eq,
  if◌then◌else◌, Option-cases, inl, inr,
}
use multi_tier_cache.Time.{Float}
use multi_tier_cache.Traits.{L2CacheBackend}
use multi_tier_cache.Traits.Laws.{IsLawful}
use multi_tier_cache.Invalidation.Message.{SerdeJson}
use multi_tier_cache.Invalidation.Publisher.{RedisConn}
use multi_tier_cache.Manager.Tier.{CacheStrategy}
use multi_tier_cache.Manager.Fetch.{is_empty}
use multi_tier_cache.Manager.Get.{contains_key}
use multi_tier_cache.Manager.Compute.{Session}
use multi_tier_cache.Manager.Abstract.{IsReliable, visible}
use multi_tier_cache.Manager.Abstract.Get.{get_lem}
use multi_tier_cache.Manager.Abstract.Write.{set_with_strategy_lem}
use multi_tier_cache.Manager.Abstract.Compute.{
  learned, learned-cong, is_empty-settings, get_or_compute_with-Recalls,
  get_or_compute_with-Computes,
}
use multi_tier_cache.Manager.Invariant.Step.{step-Keeps}
use multi_tier_cache.Manager.Abstract.Run.{
  Call, gets, sets, computes, Reply, found_value, stored, computed, step, Ideal, ideal_step,
}

pub alone : {keys : List Bytes} (key : Bytes) → keys ≡ [] → contains_key keys key ≡ false
unfolding contains_key
alone key e = rw e refl

module _ {F S T C W : Type 0} ⦃f : Float F⦄ ⦃b : L2CacheBackend S⦄ ⦃redis : RedisConn C⦄
    ⦃json : SerdeJson⦄ (holds : S → Bytes → Option Bytes) (lawful : IsLawful b holds)
    (reliable : IsReliable b) where
  -- The manager shows what the map has; it has a tier, and no request is in flight.
  pub record Matches (s : Session F S T C W) (a : Ideal W) : Type 0 where
    pub shown : (j : Bytes) → visible holds s.manager.tiers j ≡ a.content j
    pub world : s.world ≡ a.world
    pub quiet : s.manager.in_flight_requests ≡ []
    pub tiered : is_empty s.manager.tiers ≡ false

  abbrev pub Agrees : Reply × Session F S T C W → Reply × Ideal W → Type 0
  Agrees r q = (r.0 ≡ q.0) × Matches r.1 q.1

  module _ {s : Session F S T C W} {a : Ideal W} (h : Matches s a) where
    -- What no call changes need not be shown of each call.
    pub step-Matches :
        (c : Call W) (a' : Ideal W)
        → ((j : Bytes) → visible holds (step s c).1.manager.tiers j ≡ a'.content j)
        → (step s c).1.world ≡ a'.world
        → Matches (step s c).1 a'
    step-Matches c a' shown world =
        let k = step-Keeps s c in
        record {
          shown = shown;
          world = world;
          quiet = k.1.0 ∙ h.quiet;
          tiered = is_empty-settings s.manager.tiers (step s c).1.manager.tiers k.0 h.tiered;
        }

    pub gets-Agrees :
        (key : Bytes) (draw : ℕ → Bool) (heard : Option (CacheResult (Option Bytes)))
        → let c = gets key draw heard in Agrees (step s c) (ideal_step a c)
    unfolding step ideal_step
    gets-Agrees key draw heard =
        let read = get_lem holds lawful reliable s.manager key draw heard (alone key h.quiet) in
        (
          ap found_value (read.0 ∙ ap ok (h.shown key)),
          step-Matches (gets key draw heard) a (λ j. read.1 j ∙ h.shown j) h.world,
        )

    pub sets-Agrees :
        (key value : Bytes) (strategy : CacheStrategy)
        → let c = sets key value strategy in Agrees (step s c) (ideal_step a c)
    unfolding step ideal_step
    sets-Agrees key value strategy =
        let c = sets key value strategy in
        let set =
          set_with_strategy_lem holds lawful reliable s.manager key value strategy h.tiered in
        (
          ap stored set.0,
          step-Matches c (ideal_step a c).1
              (λ j. set.1 j ∙ ap (λ o. if bytes_eq key j then some value else o) (h.shown j))
              h.world,
        )

    pub computes-Agrees :
        (key : Bytes) (strategy : CacheStrategy) (compute : W → CacheResult Bytes × W)
        (draw : ℕ → Bool) (heard : Option (CacheResult (Option Bytes)))
        → let c = computes key strategy compute draw heard in Agrees (step s c) (ideal_step a c)
    unfolding step ideal_step
    computes-Agrees key strategy compute draw heard =
        let c = computes key strategy compute draw heard in
        elim (Option-cases (a.content key)) [
          | inl absent ↦
              let run' =
                get_or_compute_with-Computes holds lawful reliable compute s key strategy draw heard
                  (alone key h.quiet) h.tiered (h.shown key ∙ absent) in
              let r = compute a.world in
              rw (absent, ideal_step)
                (
                  ap computed (run'.0 ∙ ap (λ w. (compute w).0) h.world),
                  step-Matches c (record { content = learned key r.0 a.content; world = r.1 })
                      (λ j.
                        run'.2 j
                        ∙ ap (λ w. learned key (compute w).0 (visible holds s.manager.tiers) j)
                            h.world
                        ∙ learned-cong key r.0 a.content (visible holds s.manager.tiers) j
                            (h.shown j))
                      (run'.1 ∙ ap (λ w. (compute w).1) h.world),
                )
          | inr (value, present) ↦
              let run' =
                get_or_compute_with-Recalls holds lawful reliable compute s key strategy draw heard
                  value (h.shown key ∙ present) in
              rw (present, ideal_step)
                (
                  ap computed run'.0,
                  step-Matches c a (λ j. run'.2 j ∙ h.shown j) (run'.1 ∙ h.world),
                )
        ]

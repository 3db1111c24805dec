-- ===== src/Traits/Dyn.antt =====
-- Two kinds of backend behind one interface, as two `Arc<dyn L2CacheBackend>` are.
pub mod Laws
use multi_tier_cache.Traits.{L2CacheBackend}

pub data Dyn (A B : Type 0) : Type 0 where
  first : A → Dyn A B
  second : B → Dyn A B

module _ {A B R : Type 0} where
  abbrev pub dispatch : (A → R × A) → (B → R × B) → Dyn A B → R × Dyn A B
  dispatch f g (first a) = let r = f a in (r.0, first r.1)
  dispatch f g (second x) = let r = g x in (r.0, second r.1)

unfoldable pub either :
    {A B : Type 0} → L2CacheBackend A → L2CacheBackend B → L2CacheBackend (Dyn A B)
either a b = record {
  backend = record {
    get = λ s k. dispatch (λ x. a.get x k) (λ x. b.get x k) s;
    set_with_ttl =
        λ s k v t. dispatch (λ x. a.set_with_ttl x k v t) (λ x. b.set_with_ttl x k v t) s;
    set = λ s k v. dispatch (λ x. a.set x k v) (λ x. b.set x k v) s;
    remove = λ s k. dispatch (λ x. a.remove x k) (λ x. b.remove x k) s;
    health_check = λ s. dispatch a.health_check b.health_check s;
    remove_pattern = λ s p. dispatch (λ x. a.remove_pattern x p) (λ x. b.remove_pattern x p) s;
    name = λ s. elim s [ first x ↦ a.name x | second x ↦ b.name x ];
  };
  get_with_ttl = λ s k. dispatch (λ x. a.get_with_ttl x k) (λ x. b.get_with_ttl x k) s;
}

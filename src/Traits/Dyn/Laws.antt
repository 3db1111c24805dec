-- ===== src/Traits/Dyn/Laws.antt =====
-- A choice between two lawful backends is lawful.
use multi_tier_cache.Base.{◌≡◌, ok, Option, none, some, Bytes, bytes_eq, if◌then◌else◌}
use multi_tier_cache.Traits.{L2CacheBackend}
use multi_tier_cache.Time.{Duration}
use multi_tier_cache.Traits.Laws.{IsLawful, found}
use multi_tier_cache.Traits.Dyn.{Dyn, first, second, either}
use multi_tier_cache.Manager.Abstract.{IsReliable}

module _ {A B : Type 0} where
  -- What either kind of backend holds.
  abbrev pub either_holds :
      (A → Bytes → Option Bytes) → (B → Bytes → Option Bytes) → Dyn A B → Bytes → Option Bytes
  either_holds ha hb (first x) = ha x
  either_holds ha hb (second y) = hb y

  module _ (a : L2CacheBackend A) (b : L2CacheBackend B) (ha : A → Bytes → Option Bytes)
      (hb : B → Bytes → Option Bytes) (la : IsLawful a ha) (lb : IsLawful b hb) where
    abbrev both : Dyn A B → Bytes → Option Bytes
    both = either_holds ha hb

    reads : (s : Dyn A B) (k : Bytes) → found ((either a b).get_with_ttl s k).0 ≡ both s k
    unfolding either
    reads (first x) k = la.read x k
    reads (second y) k = lb.read y k

    read_keeps : (s : Dyn A B) (k j : Bytes) → both ((either a b).get_with_ttl s k).1 j ≡ both s j
    unfolding either
    read_keeps (first x) k j = la.read_keeps x k j
    read_keeps (second y) k j = lb.read_keeps y k j

    writes :
        (s : Dyn A B) (k v : Bytes) (ttl : Duration) (j : Bytes)
        → ((either a b).set_with_ttl s k v ttl).0 ≡ ok tt
        → both ((either a b).set_with_ttl s k v ttl).1 j
          ≡ (if bytes_eq k j then some v else both s j)
    unfolding either
    writes (first x) k v ttl j e = la.write x k v ttl j e
    writes (second y) k v ttl j e = lb.write y k v ttl j e

    clears :
        (s : Dyn A B) (k j : Bytes)
        → ((either a b).remove s k).0 ≡ ok tt
        → both ((either a b).remove s k).1 j ≡ (if bytes_eq k j then none else both s j)
    unfolding either
    clears (first x) k j e = la.clear x k j e
    clears (second y) k j e = lb.clear y k j e

    pub either-IsLawful : IsLawful (either a b) both
    either-IsLawful = record {
      read = reads;
      read_keeps = read_keeps;
      write = writes;
      clear = clears;
    }

  module _ (a : L2CacheBackend A) (b : L2CacheBackend B) (ra : IsReliable a)
      (rb : IsReliable b) where
    never_refused :
        (s : Dyn A B) (k v : Bytes) (ttl : Duration)
        → ((either a b).set_with_ttl s k v ttl).0 ≡ ok tt
    unfolding either
    never_refused (first x) k v ttl = ra.writes x k v ttl
    never_refused (second y) k v ttl = rb.writes y k v ttl

    always_removed : (s : Dyn A B) (k : Bytes) → ((either a b).remove s k).0 ≡ ok tt
    unfolding either
    always_removed (first x) k = ra.removes x k
    always_removed (second y) k = rb.removes y k

    pub either-IsReliable : IsReliable (either a b)
    either-IsReliable = record { writes = never_refused; removes = always_removed }

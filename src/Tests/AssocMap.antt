-- ===== src/Tests/AssocMap.antt =====
-- A map of cache entries as an association list, in which the first entry of a key counts.
use multi_tier_cache.Base.{
  subst, ◌≡◌, refl, sym, ap, ◌∙◌, Bool, true, Option, none, some, List, [], ◌∷◌, Bytes, bytes_eq,
  bytes_eq_iff, if◌then◌else◌, length, arith, Bool-cases, inl, inr,
}
use mathlib.Core.List.{Permᴰ}
use mathlib.Core.List.Permᴰ
use multi_tier_cache.Backends.DashMap.{CacheEntry, EntryMap}
use multi_tier_cache.Backends.DashMap.Laws.{IsMap, kept}

abbrev pub Entries : Type 0
Entries = List (Bytes × CacheEntry)

unfoldable pub lookup : {E : Type 0} → List (Bytes × E) → Bytes → Option E
lookup [] k = none
lookup ((j, e) ∷ m) k = let rest = lookup m k in if bytes_eq j k then some e else rest

unfoldable pub delete : {E : Type 0} → Bytes → List (Bytes × E) → List (Bytes × E)
delete k [] = []
delete k ((j, e) ∷ m) = let rest = delete k m in if bytes_eq j k then rest else (j, e) ∷ rest

pub keep_only : (Bytes → CacheEntry → Bool) → Entries → Entries
keep_only keep [] = []
keep_only keep ((j, e) ∷ m) =
    let rest = keep_only keep m in if keep j e then (j, e) ∷ rest else rest

-- Each key once.
pub current : Entries → Entries
unfolding delete
current [] = []
current ((j, e) ∷ m) = (j, e) ∷ delete j (current m)

bytes_eq-sym : (x y : Bytes) → bytes_eq x y ≡ bytes_eq y x
bytes_eq-sym x y = elim (Bool-cases (bytes_eq x y)) [
  | inl same ↦ same ∙ sym ((bytes_eq_iff y x).1 (sym ((bytes_eq_iff x y).0 same)))
  | inr apart ↦ elim (Bool-cases (bytes_eq y x)) [
    | inl same ↦ (bytes_eq_iff x y).1 (sym ((bytes_eq_iff y x).0 same)) ∙ sym same
    | inr apart' ↦ apart ∙ sym apart'
  ]
]

bytes_eq-replace : (x y z : Bytes) → bytes_eq x y ≡ true → bytes_eq x z ≡ bytes_eq y z
bytes_eq-replace x y z h = ap (λ b. bytes_eq b z) ((bytes_eq_iff x y).0 h)

pub lookup-delete :
    {E : Type 0} (k j : Bytes) (m : List (Bytes × E))
    → lookup (delete k m) j ≡ (if bytes_eq k j then none else lookup m j)
unfolding lookup delete
lookup-delete k j [] = ground arith
lookup-delete k j ((i, e) ∷ m) =
    ground
      (arith, lookup-delete k j m, bytes_eq-replace i k j, bytes_eq-replace i j k, bytes_eq-sym j k)

delete-delete : (k j : Bytes) (m : Entries) → delete k (delete j m) ≡ delete j (delete k m)
unfolding delete
delete-delete k j [] = refl
delete-delete k j ((i, e) ∷ m) = ground (arith, delete-delete k j m)

delete-twice : (k : Bytes) (m : Entries) → delete k (delete k m) ≡ delete k m
unfolding delete
delete-twice k [] = refl
delete-twice k ((i, e) ∷ m) = ground (arith, delete-twice k m)

keep-delete :
    (keep : Bytes → CacheEntry → Bool) (k : Bytes) (m : Entries)
    → keep_only keep (delete k m) ≡ delete k (keep_only keep m)
unfolding delete keep_only
keep-delete keep k [] = refl
keep-delete keep k ((i, e) ∷ m) = ground (arith, keep-delete keep k m)

same_keep :
    (keep : Bytes → CacheEntry → Bool) (i j : Bytes) (e : CacheEntry)
    → bytes_eq i j ≡ true
    → keep i e ≡ keep j e
same_keep keep i j e h = ap (λ k. keep k e) ((bytes_eq_iff i j).0 h)

lookup-keep :
    (keep : Bytes → CacheEntry → Bool) (m : Entries) (j : Bytes)
    → lookup (keep_only keep (current m)) j
      ≡ elim (lookup m j) [ none ↦ none | some e ↦ if keep j e then some e else none ]
unfolding lookup keep_only current
lookup-keep keep [] j = refl
lookup-keep keep ((i, e) ∷ m) j = rw (keep-delete keep i (current m)) (
    ground (
      arith,
      lookup-delete i j (keep_only keep (current m)),
      lookup-keep keep m j,
      same_keep keep i j e,
    ))

current-delete : (k : Bytes) (m : Entries) → current (delete k m) ≡ delete k (current m)
unfolding delete current
current-delete k [] = refl
current-delete k ((i, e) ∷ m) = elim (Bool-cases (bytes_eq i k)) [
  | inl same ↦ rw same (
      current-delete k m
      ∙ sym (
          ap (λ i. delete k (delete i (current m))) ((bytes_eq_iff i k).0 same)
          ∙ delete-twice k (current m)))
  | inr apart ↦
      rw apart
        (ap (λ l. (i, e) ∷ l) (ap (delete i) (current-delete k m) ∙ delete-delete i k (current m)))
]

current-keep :
    (keep : Bytes → CacheEntry → Bool) (m : Entries)
    → current (keep_only keep (current m)) ≡ keep_only keep (current m)
unfolding current keep_only
current-keep keep [] = refl
current-keep keep ((i, e) ∷ m) =
    let below : current (delete i (keep_only keep (current m)))
        ≡ delete i (keep_only keep (current m)) =
      current-delete i (keep_only keep (current m)) ∙ ap (delete i) (current-keep keep m) in
    rw (keep-delete keep i (current m)) (elim (Bool-cases (keep i e)) [
      | inl kept ↦
          rw kept (
            ap (λ l. (i, e) ∷ l)
              (ap (delete i) below ∙ delete-twice i (keep_only keep (current m))))
      | inr dropped ↦ rw dropped below
    ])

keep_only-kept : (keep : Bytes → CacheEntry → Bool) (m : Entries) → kept keep m ≡ keep_only keep m
unfolding keep_only
keep_only-kept keep [] = refl
keep_only-kept keep ((i, e) ∷ m) = ground (arith, keep_only-kept keep m)

instance unfoldable pub assoc_map : EntryMap Entries
assoc_map = record {
  empty = [];
  get = lookup;
  insert = λ m k e. (k, e) ∷ m;
  remove = λ m k. delete k m;
  retain = λ m keep. keep_only keep (current m);
  entries = current;
  len = λ m. length (current m);
}

pub assoc_map-IsMap : IsMap assoc_map
unfolding lookup assoc_map
assoc_map-IsMap = record {
  get_insert = λ m k j e. refl;
  get_remove = λ m k j. lookup-delete k j m;
  get_retain = λ m keep j. lookup-keep keep m j;
  entries_retain = λ m keep.
      subst (λ l. Permᴰ l (kept keep (current m)))
        (keep_only-kept keep (current m) ∙ sym (current-keep keep m))
        (Permᴰ.refl (kept keep (current m)));
  counts = λ m. refl;
}

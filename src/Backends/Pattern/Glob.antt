-- ===== src/Backends/Pattern/Glob.antt =====
-- src/backends/mod.rs, `matches_pattern`, against the meaning of a pattern.
use multi_tier_cache.Base.{
  ℕ, ◌≡◌, refl, sym, ap, subst, ◌∙◌, true, false, List, [], ◌∷◌, ◌++◌, arith, Bytes, bytes_eq_iff,
  ◌==◌, Option-cases, Bool-cases, inl, inr, ◌↔◌,
}
use multi_tier_cache.Backends.Pattern.{star, split, strip_prefix, match_split, matches_pattern}
use multi_tier_cache.Backends.Pattern.Search.{
  Tail, prefix_of_strip, strip_prefix-append, Tail-append, match_parts_sound, match_parts_complete,
}

-- `Glob pattern key`: the key is the pattern with a text, which may be empty, in the place of each
-- star.
pub data Glob : Bytes → Bytes → Type 0 where
  both_end : Glob [] []
  same_char :
      {pattern key : Bytes} (c : ℕ)
      → (c == star) ≡ false
      → Glob pattern key
      → Glob (c ∷ pattern) (c ∷ key)
  star_ends : {pattern key : Bytes} → Glob pattern key → Glob (star ∷ pattern) key
  star_takes :
      {pattern key : Bytes} (c : ℕ) → Glob (star ∷ pattern) key → Glob (star ∷ pattern) (c ∷ key)

-- A key that consists of the first part and what the other parts allow.
abbrev Shape : Bytes → List Bytes → Bytes → Type 0
Shape first [] key = key ≡ first
Shape first (next ∷ parts) key = (rest : Bytes) × (key ≡ first ++ rest) × Tail next parts rest

Shape-cons :
    (c : ℕ) (first : Bytes) (parts : List Bytes) (key : Bytes)
    → Shape first parts key
    → Shape (c ∷ first) parts (c ∷ key)
Shape-cons c first [] key e = ap (λ l. c ∷ l) e
Shape-cons c first (next ∷ parts) key (rest, e, h) = (rest, ap (λ l. c ∷ l) e, h)

Shape-star :
    (first : Bytes) (parts : List Bytes) (key : Bytes)
    → Shape first parts key
    → Tail first parts key
Shape-star first [] key e = ([], e)
Shape-star first (next ∷ parts) key (rest, e, h) = ([], rest, e, h)

split-char :
    (c : ℕ) (pattern : Bytes)
    → (c == star) ≡ false
    → split (c ∷ pattern) ≡ (c ∷ (split pattern).0, (split pattern).1)
unfolding split
split-char c pattern e = rw (e, split) refl

split-star :
    (c : ℕ) (pattern : Bytes)
    → (c == star) ≡ true
    → split (c ∷ pattern) ≡ ([], (split pattern).0 ∷ (split pattern).1)
unfolding split
split-star c pattern e = rw (e, split) refl

Shape-of_Glob :
    {pattern key : Bytes} → Glob pattern key → Shape (split pattern).0 (split pattern).1 key
unfolding split
Shape-of_Glob both_end = refl
Shape-of_Glob (same_char {pattern} {key} c plain g) =
    rw (ap (λ s. s.0) (split-char c pattern plain), ap (λ s. s.1) (split-char c pattern plain))
      (Shape-cons c (split pattern).0 (split pattern).1 key (Shape-of_Glob g))
Shape-of_Glob (star_ends {pattern} {key} g) =
    (key, refl, Shape-star (split pattern).0 (split pattern).1 key (Shape-of_Glob g))
Shape-of_Glob (star_takes {pattern} {key} c g) =
    let (rest, e, h) = Shape-of_Glob g in
    (c ∷ rest, ap (λ l. c ∷ l) e, Tail-append (split pattern).0 (split pattern).1 (c ∷ []) rest h)

star_before :
    (before : Bytes) {pattern rest : Bytes}
    → Glob pattern rest
    → Glob (star ∷ pattern) (before ++ rest)
star_before [] g = star_ends g
star_before (c ∷ before) g = star_takes c (star_before before g)

Glob-of_Tail :
    (pattern first : Bytes) (parts : List Bytes)
    → ((key : Bytes) → Shape first parts key → Glob pattern key)
    → (key : Bytes) → Tail first parts key
    → Glob (star ∷ pattern) key
Glob-of_Tail pattern first [] below key (before, e) =
    subst (Glob (star ∷ pattern)) (sym e) (star_before before (below first refl))
Glob-of_Tail pattern first (next ∷ parts) below key (before, rest, e, h) =
    subst (Glob (star ∷ pattern)) (sym e)
      (star_before before (below (first ++ rest) (rest, refl, h)))

Glob-of_char :
    (c : ℕ) (pattern first : Bytes) (parts : List Bytes)
    → (c == star) ≡ false
    → ((key : Bytes) → Shape first parts key → Glob pattern key)
    → (key : Bytes) → Shape (c ∷ first) parts key
    → Glob (c ∷ pattern) key
Glob-of_char c pattern first [] plain below key e =
    subst (Glob (c ∷ pattern)) (sym e) (same_char c plain (below first refl))
Glob-of_char c pattern first (next ∷ parts) plain below key (rest, e, h) =
    subst (Glob (c ∷ pattern)) (sym e) (same_char c plain (below (first ++ rest) (rest, refl, h)))

Glob-of_Shape :
    (pattern key : Bytes) → Shape (split pattern).0 (split pattern).1 key → Glob pattern key
unfolding split
Glob-of_Shape [] key e = subst (Glob []) (sym e) both_end
Glob-of_Shape (c ∷ pattern) key h =
    let first = (split pattern).0 in
    let parts = (split pattern).1 in
    elim (Bool-cases (c == star)) [
      | inl same ↦
          let (rest, e, tail) = subst (λ s. Shape s.0 s.1 key) (split-star c pattern same) h in
          subst (λ d. Glob (d ∷ pattern) key) (sym (ground arith))
            (Glob-of_Tail pattern first parts (Glob-of_Shape pattern) key
              (subst (Tail first parts) (sym e) tail))
      | inr plain ↦
          Glob-of_char c pattern first parts plain (Glob-of_Shape pattern) key
            (subst (λ s. Shape s.0 s.1 key) (split-char c pattern plain) h)
    ]

whole_pattern : (pattern : Bytes) → (split pattern).1 ≡ [] → (split pattern).0 ≡ pattern
unfolding split
whole_pattern [] e = refl
whole_pattern (c ∷ pattern) e = ground (arith, whole_pattern pattern)

match_split_sound :
    (key pattern first : Bytes) (parts : List Bytes)
    → (parts ≡ [] → first ≡ pattern)
    → match_split key first parts pattern ≡ true
    → Shape first parts key
unfolding match_split
match_split_sound key pattern first [] whole e = (bytes_eq_iff key pattern).0 e ∙ sym (whole refl)
match_split_sound key pattern first (next ∷ parts) whole e =
    elim (Option-cases (strip_prefix key first)) [
      | inl misses ↦ absurd (ground arith)
      | inr (rest, hits) ↦ (
        rest,
        prefix_of_strip key first rest hits,
        match_parts_sound rest next parts (ground arith),
      )
    ]

match_split_complete :
    (key pattern first : Bytes) (parts : List Bytes)
    → (parts ≡ [] → first ≡ pattern)
    → Shape first parts key
    → match_split key first parts pattern ≡ true
unfolding match_split
match_split_complete key pattern first [] whole e = (bytes_eq_iff key pattern).1 (e ∙ whole refl)
match_split_complete key pattern first (next ∷ parts) whole (rest, e, h) =
    rw (ap (λ l. strip_prefix l first) e ∙ strip_prefix-append first rest, match_split)
      (match_parts_complete rest next parts h)

-- `matches_pattern` is right about every key and every pattern: it says yes exactly if the key is
-- the pattern with some text, which may be empty, in the place of each star.
pub matches_pattern_lem :
    (key pattern : Bytes) → (matches_pattern key pattern ≡ true) ↔ Glob pattern key
unfolding matches_pattern
matches_pattern_lem key pattern = (
  λ e.
      Glob-of_Shape pattern key (
        match_split_sound key pattern (split pattern).0 (split pattern).1 (whole_pattern pattern)
          e),
  λ g.
      match_split_complete key pattern (split pattern).0 (split pattern).1 (whole_pattern pattern)
        (Shape-of_Glob g),
)

-- ===== src/Backends/Pattern/Search.antt =====
-- src/backends/mod.rs, `matches_pattern`: what its searches find, and that taking the first place
-- of each middle part misses no match.
use multi_tier_cache.Base.{
  ◌≤◌, ◌≡◌, refl, sym, ap, ◌∙◌, true, some, List, [], ◌∷◌, ◌++◌, append_assoc, arith, Bytes,
  bytes_eq, bytes_eq_refl, bytes_eq_iff, length, length-append, Option-cases, Bool-cases, inl, inr,
}
use multi_tier_cache.Backends.Pattern.{strip_prefix, find_after, ends_with, match_parts}

-- A text in which the parts occur one after the other, the last one at its end.
abbrev pub Tail : Bytes → List Bytes → Bytes → Type 0
Tail part [] text = (before : Bytes) × (text ≡ before ++ part)
Tail part (next ∷ parts) text =
    (before : Bytes) × (rest : Bytes) × (text ≡ before ++ (part ++ rest)) × Tail next parts rest

pub prefix_of_strip :
    (key part rest : Bytes) → strip_prefix key part ≡ some rest → key ≡ part ++ rest
unfolding strip_prefix
prefix_of_strip key [] rest e = ground arith
prefix_of_strip [] (c ∷ part) rest e = absurd (ground arith)
prefix_of_strip (k ∷ key) (c ∷ part) rest e = ground (arith, prefix_of_strip key part rest)

pub strip_prefix-append : (part rest : Bytes) → strip_prefix (part ++ rest) part ≡ some rest
unfolding strip_prefix
strip_prefix-append [] rest = refl
strip_prefix-append (c ∷ part) rest = ground (arith, strip_prefix-append part rest)

-- Of two ways to cut a text, the one that cuts earlier leaves more.
longer_rest : (a b s t : Bytes) → a ++ s ≡ b ++ t → length a ≤ length b → (y : Bytes) × (s ≡ y ++ t)
longer_rest [] b s t e h = (b, e)
longer_rest (c ∷ a) [] s t e h = absurd (omega arith)
longer_rest (c ∷ a) (d ∷ b) s t e h = longer_rest a b s t (ground arith) (omega arith)

find_after_sound :
    (key part rest : Bytes)
    → find_after key part ≡ some rest
    → (before : Bytes) × (key ≡ before ++ (part ++ rest))
unfolding find_after
find_after_sound [] part rest e = ([], prefix_of_strip [] part rest e)
find_after_sound (k ∷ key) part rest e = elim (Option-cases (strip_prefix (k ∷ key) part)) [
  | inl misses ↦
      let (before, eq) = find_after_sound key part rest (ground arith) in
      (k ∷ before, ap (λ l. k ∷ l) eq)
  | inr (r, hits) ↦ ([], prefix_of_strip (k ∷ key) part rest (ground arith))
]

find_after-hit :
    (key part rest : Bytes) → strip_prefix key part ≡ some rest → find_after key part ≡ some rest
unfolding find_after
find_after-hit [] part rest e = e
find_after-hit (k ∷ key) part rest e = rw (e, find_after) refl

-- If the part occurs somewhere, `find` sees it no later.
find_after_complete :
    (before part rest : Bytes)
    → (y : Bytes) × (find_after (before ++ (part ++ rest)) part ≡ some (y ++ rest))
unfolding find_after
find_after_complete [] part rest =
    ([], find_after-hit (part ++ rest) part rest (strip_prefix-append part rest))
find_after_complete (k ∷ before) part rest =
    elim (Option-cases (strip_prefix (k ∷ before ++ (part ++ rest)) part)) [
      | inl misses ↦
          let (y, eq) = find_after_complete before part rest in (y, rw (misses, find_after) eq)
      | inr (r, hits) ↦
          let (y, eq) =
            longer_rest part (k ∷ before ++ part) r rest
              (sym (prefix_of_strip (k ∷ before ++ (part ++ rest)) part r hits)
                ∙ ap (λ l. k ∷ l) (sym (append_assoc before part rest)))
              (omega (arith, length-append before part)) in
          (y, rw (hits, find_after) (ap some eq))
    ]

ends_with_sound :
    (key part : Bytes) → ends_with key part ≡ true → (before : Bytes) × (key ≡ before ++ part)
unfolding ends_with
ends_with_sound [] part e = ([], (bytes_eq_iff [] part).0 e)
ends_with_sound (k ∷ key) part e = elim (Bool-cases (bytes_eq (k ∷ key) part)) [
  | inl same ↦ ([], (bytes_eq_iff (k ∷ key) part).0 same)
  | inr apart ↦
      let (before, eq) = ends_with_sound key part (ground arith) in (k ∷ before, ap (λ l. k ∷ l) eq)
]

ends_with_complete : (before part : Bytes) → ends_with (before ++ part) part ≡ true
unfolding ends_with bytes_eq
ends_with_complete [] [] = refl
ends_with_complete [] (c ∷ part) = rw (bytes_eq_refl (c ∷ part), ends_with) refl
ends_with_complete (k ∷ before) part = ground (arith, ends_with_complete before part)

-- More text in front does no harm.
pub Tail-append :
    (part : Bytes) (parts : List Bytes) (front text : Bytes)
    → Tail part parts text
    → Tail part parts (front ++ text)
Tail-append part [] front text (before, e) =
    (front ++ before, ap (λ l. front ++ l) e ∙ sym (append_assoc front before part))
Tail-append part (next ∷ parts) front text (before, rest, e, h) = (
  front ++ before,
  rest,
  ap (λ l. front ++ l) e ∙ sym (append_assoc front before (part ++ rest)),
  h,
)

pub match_parts_sound :
    (text part : Bytes) (parts : List Bytes)
    → match_parts text part parts ≡ true
    → Tail part parts text
unfolding match_parts
match_parts_sound text part [] e = ends_with_sound text part e
match_parts_sound text part (next ∷ parts) e = elim (Option-cases (find_after text part)) [
  | inl misses ↦ absurd (ground arith)
  | inr (rest, hits) ↦
      let (before, eq) = find_after_sound text part rest hits in
      (before, rest, eq, match_parts_sound rest next parts (ground arith))
]

pub match_parts_complete :
    (text part : Bytes) (parts : List Bytes)
    → Tail part parts text
    → match_parts text part parts ≡ true
unfolding match_parts
match_parts_complete text part [] (before, e) =
    ap (λ l. ends_with l part) e ∙ ends_with_complete before part
match_parts_complete text part (next ∷ parts) (before, rest, e, h) =
    let (y, found) = find_after_complete before part rest in
    rw (ap (λ l. find_after l part) e ∙ found, match_parts)
      (match_parts_complete (y ++ rest) next parts (Tail-append next parts y rest h))

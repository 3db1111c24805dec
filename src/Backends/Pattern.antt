-- ===== src/Backends/Pattern.antt =====
-- src/backends/mod.rs, `matches_pattern`. A string is the list of its bytes: the slices that the
-- source takes start and end where a whole part of the pattern was found.
pub mod Search
pub mod Glob
use multi_tier_cache.Base.{
  ℕ, Bool, true, false, Option, none, some, List, [], ◌∷◌, Bytes, bytes_eq, ◌==◌, if◌then◌else◌,
}

-- The code of `*`.
abbrev pub star : ℕ
star = 42

-- The first part of `pattern.split('*')`, and the parts after it.
unfoldable pub split : Bytes → Bytes × List Bytes
split [] = ([], [])
split (c ∷ pattern) =
    let rest = split pattern in if c == star then ([], rest.0 ∷ rest.1) else (c ∷ rest.0, rest.1)

-- What `starts_with` leaves of the key.
unfoldable pub strip_prefix : Bytes → Bytes → Option Bytes
strip_prefix key [] = some key
strip_prefix [] (c ∷ part) = none
strip_prefix (k ∷ key) (c ∷ part) =
    let rest = strip_prefix key part in if k == c then rest else none

-- What is left of the key after the first place where `find` sees the part.
unfoldable pub find_after : Bytes → Bytes → Option Bytes
unfolding strip_prefix
find_after [] part = strip_prefix [] part
find_after (k ∷ key) part =
    let later = find_after key part in
    elim (strip_prefix (k ∷ key) part) [ some rest ↦ some rest | none ↦ later ]

unfoldable pub ends_with : Bytes → Bytes → Bool
ends_with [] part = bytes_eq [] part
ends_with (k ∷ key) part =
    let later = ends_with key part in if bytes_eq (k ∷ key) part then true else later

-- The loop over the middle parts, and the test of the last part.
unfoldable pub match_parts : Bytes → Bytes → List Bytes → Bool
unfolding find_after ends_with
match_parts key_rem part [] = ends_with key_rem part
match_parts key_rem part (next ∷ parts) = elim (find_after key_rem part) [
  | some rest ↦ match_parts rest next parts
  | none ↦ false
]

-- `parts.len() == 1`, or the first part, the middle parts and the last part.
unfoldable pub match_split : Bytes → Bytes → List Bytes → Bytes → Bool
unfolding match_parts strip_prefix
match_split key first [] pattern = bytes_eq key pattern
match_split key first (next ∷ parts) pattern = elim (strip_prefix key first) [
  | some rest ↦ match_parts rest next parts
  | none ↦ false
]

unfoldable pub matches_pattern : Bytes → Bytes → Bool
unfolding split match_split
matches_pattern key pattern = let s = split pattern in match_split key s.0 s.1 pattern

-- ===== src/Watcher/Ignore.antt =====
-- crates/hyperindex-watcher/src/ignore.rs: the patterns of ignored paths. Patterns and paths are
-- matched byte by byte.
pub mod Fuel
pub mod Sound
pub mod Glob
pub mod Exact
use repo_hyperindex.Base.{
  ℕ, zero, suc, ◌+◌, ◌*◌, Bool, true, false, ◌&&◌, ◌||◌, Option, none, some, List, [], ◌∷◌, ◌++◌,
  map, if◌then◌else◌, ltb, ◌==◌, length, get_elem?, drop, any, all,
}
use repo_hyperindex.Base.Order.{beq}
use repo_hyperindex.Base.Text.{
  text_ord, Text, text, as_bytes, starts_with, ends_with, replace_char, split,
}

pub record IgnoreMatcher : Type 0 where
  pub patterns : List Text

abbrev pub normalize_pattern : Text → Text
normalize_pattern pattern = replace_char 0x5C 0x2F pattern

abbrev pub normalize_path : Text → Text
normalize_path path = replace_char 0x5C 0x2F path

unfoldable pub new : List Text → IgnoreMatcher
new patterns = record { patterns = map normalize_pattern patterns }

unfoldable pub is_safe_temp_name : Text → Bool
is_safe_temp_name name =
    beq name (text ".DS_Store")
    || starts_with (text ".#") name
    || (starts_with (text "#") name && ends_with (text "#") name)
    || ends_with (text "~") name
    || ends_with (text ".swp") name
    || ends_with (text ".swo") name
    || ends_with (text ".swx") name
    || ends_with (text ".tmp") name
    || ends_with (text ".temp") name

-- `pattern_index < pattern.len() && pattern[pattern_index] == byte`
abbrev pub is_at : List ℕ → ℕ → ℕ → Bool
is_at pattern index byte = elim (get_elem? pattern index) [ none ↦ false | some b ↦ b == byte ]

-- The first test of the loop's body.
abbrev pub takes : List ℕ → List ℕ → ℕ → ℕ → Bool
takes pattern text pattern_index text_index = elim (get_elem? pattern pattern_index) [
  | none ↦ false
  | some b ↦ elim (get_elem? text text_index) [ none ↦ false | some c ↦ b == b'?' || b == c ]
]

-- What a round of the loop does.
pub data Round : Type 0 where
  advance open_star refuse finish : Round
  backtrack : ℕ → Round

abbrev pub round : List ℕ → List ℕ → ℕ → ℕ → Option ℕ → Round
round pattern text pattern_index text_index star_index =
    if ltb text_index (length text)
    then if takes pattern text pattern_index text_index
      then advance
      else if is_at pattern pattern_index b'*'
      then open_star
      else elim star_index [ none ↦ refuse | some index ↦ backtrack index ]
    else finish

-- The two loops of `wildcard_matches`; `none` is out of fuel.
unfoldable pub wildcard_loop : ℕ → List ℕ → List ℕ → ℕ → ℕ → Option ℕ → ℕ → Option Bool
wildcard_loop zero pattern text pattern_index text_index star_index match_index = none
wildcard_loop (suc fuel) pattern text pattern_index text_index star_index match_index =
    elim (round pattern text pattern_index text_index star_index) [
      | advance ↦
          wildcard_loop fuel pattern text (pattern_index + 1) (text_index + 1) star_index
            match_index
      | open_star ↦
          wildcard_loop fuel pattern text (pattern_index + 1) text_index (some pattern_index)
            text_index
      | backtrack index ↦
          wildcard_loop fuel pattern text (index + 1) (match_index + 1) star_index (match_index + 1)
      | refuse ↦ some false
      | finish ↦ some (all (λ b. b == b'*') (drop pattern_index pattern))
    ]

abbrev pub rounds : List ℕ → List ℕ → ℕ
rounds pattern text = (length text + 1) * (length text + length pattern + 2)

unfoldable pub wildcard_bytes : List ℕ → List ℕ → Option Bool
unfolding wildcard_loop
wildcard_bytes pattern text = wildcard_loop (rounds pattern text) pattern text 0 0 none 0

unfoldable pub wildcard_matches : Text → Text → Bool
unfolding wildcard_bytes
wildcard_matches pattern text = elim (wildcard_bytes (as_bytes pattern) (as_bytes text)) [
  | none ↦ false
  | some m ↦ m
]

-- `rsplit('/').next()`
abbrev last_piece : List Text → Text → Text
last_piece [] whole = whole
last_piece (piece ∷ []) whole = piece
last_piece (piece ∷ more ∷ pieces) whole = last_piece (more ∷ pieces) whole

unfoldable pub is_ignored : IgnoreMatcher → Text → Bool
unfolding is_safe_temp_name
is_ignored matcher relative_path =
    let normalized_path = normalize_path relative_path in
    is_safe_temp_name (last_piece (split b'/' normalized_path) normalized_path)
    || any (λ pattern. wildcard_matches pattern normalized_path) matcher.patterns

unfoldable pub should_skip_dir : IgnoreMatcher → Text → Bool
unfolding is_ignored
should_skip_dir matcher relative_path =
    let normalized_path = normalize_path relative_path in
    is_ignored matcher normalized_path
    || any
        (λ pattern.
          wildcard_matches pattern normalized_path
          || wildcard_matches pattern (normalized_path ++ text "/"))
        matcher.patterns

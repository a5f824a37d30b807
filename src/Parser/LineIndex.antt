-- ===== src/Parser/LineIndex.antt =====
-- crates/hyperindex-parser/src/line_index.rs: byte offsets and line positions, and the edit window
-- between two versions of a file. A file is the list of its bytes.
pub mod Search
pub mod Lines
pub mod Roundtrip
pub mod Edit
use repo_hyperindex.Base.{
  ℕ, zero, suc, ◌+◌, ◌-◌, ◌%◌, ◌^◌, ◌≡◌, Bool, true, false, ◌&&◌, ◌||◌, Option, none, some, List,
  [], ◌∷◌, min, length, get_elem?, if◌then◌else◌, ltb, leb, ◌==◌,
}
use repo_hyperindex.Base.Order.{nat_ord, opt_beq}
use mathlib.Core.Option

-- `x as u32`
abbrev pub as_u32 : ℕ → ℕ
as_u32 x = x % 2 ^ 32

pub record LinePosition : Type 0 where
  pub line : ℕ
  pub column : ℕ

pub record ByteRange : Type 0 where
  pub start : ℕ
  pub end : ℕ

pub record SourceSpan : Type 0 where
  pub start : LinePosition
  pub end : LinePosition
  pub bytes : ByteRange

pub record LineIndex : Type 0 where
  pub line_starts : List ℕ
  pub len : ℕ

-- The loop of `LineIndex::new`, from the byte at `index` on.
unfoldable pub starts_from : ℕ → ℕ → List ℕ → List ℕ
starts_from total index [] = []
starts_from total index (byte ∷ bytes) =
    let rest = starts_from total (index + 1) bytes in
    if byte == b'\n' && leb (index + 1) total then (index + 1) ∷ rest else rest

unfoldable pub new : List ℕ → LineIndex
unfolding starts_from
new contents = record {
  line_starts = 0 ∷ starts_from (length contents) 0 contents;
  len = length contents;
}

unfoldable pub is_empty : LineIndex → Bool
is_empty index = index.len == 0

unfoldable pub line_count : LineIndex → ℕ
line_count index = length index.line_starts

-- `slice::binary_search` on a strictly ascending slice: the place of the value, or the place where
-- it would be inserted.
pub data Place : Type 0 where
  found : ℕ → Place
  missing : ℕ → Place

abbrev next_place : Place → Place
next_place (found i) = found (suc i)
next_place (missing i) = missing (suc i)

unfoldable pub binary_search : List ℕ → ℕ → Place
binary_search [] v = missing 0
binary_search (x ∷ xs) v =
    let rest = next_place (binary_search xs v) in
    if x == v then found 0 else if ltb v x then missing 0 else rest

-- `Ok(index) => index, Err(index) => index.saturating_sub(1)`
abbrev pub line_of : Place → ℕ
line_of (found i) = i
line_of (missing i) = i - 1

-- `xs[i]`, which would panic out of range
abbrev pub get_or : List ℕ → ℕ → ℕ → ℕ
get_or [] i d = d
get_or (x ∷ xs) zero d = x
get_or (x ∷ xs) (suc i) d = get_or xs i d

unfoldable pub byte_to_line_position : LineIndex → ℕ → LinePosition
byte_to_line_position index byte_offset =
    let clamped = min byte_offset index.len in
    let line_index = line_of (binary_search index.line_starts clamped) in
    let line_start = get_or index.line_starts line_index 0 in
    record { line = as_u32 (line_index + 1); column = as_u32 (clamped - line_start + 1) }

abbrev pub line_end : LineIndex → ℕ → ℕ
line_end index line_index = elim (get_elem? index.line_starts (line_index + 1)) [
  | none ↦ index.len
  | some s ↦ s
]

unfoldable pub line_column_to_byte : LineIndex → ℕ → ℕ → Option ℕ
line_column_to_byte index line column =
    if line == 0 || column == 0 then none else elim (get_elem? index.line_starts (line - 1)) [
      | none ↦ none
      | some line_start ↦
          let byte = line_start + column - 1 in
          if leb byte (line_end index (line - 1)) then some byte else none
    ]

unfoldable pub byte_range_to_span : LineIndex → ℕ → ℕ → SourceSpan
unfolding byte_to_line_position
byte_range_to_span index start end =
    let clamped_start = min start index.len in
    let clamped_end = min end index.len in
    record {
      start = byte_to_line_position index clamped_start;
      end = byte_to_line_position index clamped_end;
      bytes = record { start = as_u32 clamped_start; end = as_u32 clamped_end };
    }

-- `tree_sitter::Point` and `tree_sitter::InputEdit`
pub record Point : Type 0 where
  pub row : ℕ
  pub column : ℕ

pub record InputEdit : Type 0 where
  pub start_byte : ℕ
  pub old_end_byte : ℕ
  pub new_end_byte : ℕ
  pub start_position : Point
  pub old_end_position : Point
  pub new_end_position : Point

unfoldable pub point_for_byte : LineIndex → ℕ → Point
unfolding byte_to_line_position
point_for_byte index byte_offset =
    let position = byte_to_line_position index byte_offset in
    record { row = position.line - 1; column = position.column - 1 }

unfoldable pub shared_prefix_len : List ℕ → List ℕ → ℕ
shared_prefix_len [] right = 0
shared_prefix_len (a ∷ left) [] = 0
shared_prefix_len (a ∷ left) (b ∷ right) =
    let rest = suc (shared_prefix_len left right) in if a == b then rest else 0

-- The test of the loop of `shared_suffix_len`.
abbrev pub suffix_goes_on : List ℕ → List ℕ → ℕ → ℕ → Bool
suffix_goes_on left right prefix_len suffix_len =
    ltb (suffix_len + prefix_len) (length left)
    && ltb (suffix_len + prefix_len) (length right)
    && opt_beq (get_elem? left (length left - 1 - suffix_len))
        (get_elem? right (length right - 1 - suffix_len))

-- The loop of `shared_suffix_len`; each round takes one more byte of `left`.
unfoldable pub suffix_loop : ℕ → List ℕ → List ℕ → ℕ → ℕ → ℕ
suffix_loop zero left right prefix_len suffix_len = suffix_len
suffix_loop (suc fuel) left right prefix_len suffix_len =
    let rest = suffix_loop fuel left right prefix_len (suffix_len + 1) in
    if suffix_goes_on left right prefix_len suffix_len then rest else suffix_len

unfoldable pub shared_suffix_len : List ℕ → List ℕ → ℕ → ℕ
unfolding suffix_loop
shared_suffix_len left right prefix_len = suffix_loop (length left) left right prefix_len 0

unfoldable pub edit_from : LineIndex → List ℕ → List ℕ → LineIndex → InputEdit
unfolding point_for_byte shared_prefix_len shared_suffix_len
edit_from index old_bytes new_bytes new_index =
    let prefix_len = shared_prefix_len old_bytes new_bytes in
    let suffix_len = shared_suffix_len old_bytes new_bytes prefix_len in
    let old_end_byte = length old_bytes - suffix_len in
    let new_end_byte = length new_bytes - suffix_len in
    record {
      start_byte = prefix_len;
      old_end_byte = old_end_byte;
      new_end_byte = new_end_byte;
      start_position = point_for_byte index prefix_len;
      old_end_position = point_for_byte index old_end_byte;
      new_end_position = point_for_byte new_index new_end_byte;
    }

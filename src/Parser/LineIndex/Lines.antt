-- ===== src/Parser/LineIndex/Lines.antt =====
-- crates/hyperindex-parser/src/line_index.rs: a position against a plain description of lines.
use repo_hyperindex.Base.{
  ℕ, zero, suc, ◌+◌, ◌-◌, ◌≤◌, ◌<◌, ◌^◌, ◌≡◌, refl, List, [], ◌∷◌, arith, length, take, min,
  if◌then◌else◌, ◌==◌,
}
use repo_hyperindex.Base.Order.{nat_ord}
use repo_hyperindex.Base.Ascending.{IsAscending, Above}
use repo_hyperindex.Parser.LineIndex.{
  starts_from, new, binary_search, line_of, get_or, byte_to_line_position,
}
use repo_hyperindex.Parser.LineIndex.Search.{rank, rank_below, line_of-binary_search}

-- The number of line feeds of a text, and the bytes after the last one (`n` more if there is none).
abbrev pub newlines : List ℕ → ℕ
newlines [] = 0
newlines (b ∷ bs) = if b == b'\n' then suc (newlines bs) else newlines bs

abbrev pub last_line_len : ℕ → List ℕ → ℕ
last_line_len n [] = n
last_line_len n (b ∷ bs) = last_line_len (if b == b'\n' then 0 else n + 1) bs

starts_from-Above : (total x i : ℕ) (bytes : List ℕ) → x ≤ i → Above x (starts_from total i bytes)
unfolding starts_from
starts_from-Above total x i [] h = tt
starts_from-Above total x i (b ∷ bytes) h = ground (arith, starts_from-Above total x (i + 1) bytes)

starts_from-IsAscending : (total i : ℕ) (bytes : List ℕ) → IsAscending (starts_from total i bytes)
unfolding starts_from
starts_from-IsAscending total i [] = tt
starts_from-IsAscending total i (b ∷ bytes) = ground (
  arith,
  starts_from-IsAscending total (i + 1) bytes,
  starts_from-Above total (i + 1) (i + 1) bytes,
)

-- The starts of lines are in strictly ascending order.
pub new-IsAscending : (contents : List ℕ) → IsAscending (new contents).line_starts
unfolding new
new-IsAscending contents = (
  starts_from-Above (length contents) 0 0 contents (omega arith),
  starts_from-IsAscending (length contents) 0 contents,
)

rank-starts_from :
    (total i k : ℕ) (bytes : List ℕ)
    → i + length bytes ≤ total
    → k ≤ length bytes
    → rank (starts_from total i bytes) (i + k) ≡ newlines (take k bytes)
unfolding starts_from
rank-starts_from total i zero [] h p = refl
rank-starts_from total i (suc k) [] h p = absurd (omega arith)
rank-starts_from total i zero (b ∷ bytes) h p =
    rank_below (starts_from total i (b ∷ bytes)) i (i + 0)
      (starts_from-Above total i i (b ∷ bytes) (omega arith)) (omega arith)
rank-starts_from total i (suc k) (b ∷ bytes) h p =
    ground (arith, rank-starts_from total (i + 1) k bytes)

column-starts_from :
    (total start i k : ℕ) (bytes : List ℕ)
    → start ≤ i
    → i + length bytes ≤ total
    → k ≤ length bytes
    → get_or (start ∷ starts_from total i bytes) (rank (starts_from total i bytes) (i + k)) 0
        + last_line_len (i - start) (take k bytes)
      ≡ i + k
unfolding starts_from
column-starts_from total start i zero [] s h p = omega arith
column-starts_from total start i (suc k) [] s h p = absurd (omega arith)
column-starts_from total start i zero (b ∷ bytes) s h p =
    let first : rank (starts_from total i (b ∷ bytes)) (i + 0) ≡ 0 =
      rank_below (starts_from total i (b ∷ bytes)) i (i + 0)
        (starts_from-Above total i i (b ∷ bytes) (omega arith)) (omega arith) in
    rw first (omega arith)
column-starts_from total start i (suc k) (b ∷ bytes) s h p = ground (
  arith,
  column-starts_from total start (i + 1) k bytes,
  column-starts_from total (i + 1) (i + 1) k bytes,
)

newlines-le : (k : ℕ) (bytes : List ℕ) → newlines (take k bytes) ≤ length bytes
newlines-le zero bytes = omega arith
newlines-le (suc k) [] = omega arith
newlines-le (suc k) (b ∷ bytes) = ground (arith, newlines-le k bytes)

module _ (contents : List ℕ) (k : ℕ) (h : k ≤ length contents) where
  abbrev pub starts : List ℕ
  starts = starts_from (length contents) 0 contents

  pub ranked : rank starts (0 + k) ≡ newlines (take k contents)
  ranked = rank-starts_from (length contents) 0 k contents (omega arith) h

  pub line_of_byte : line_of (binary_search (0 ∷ starts) k) ≡ newlines (take k contents)
  line_of_byte =
      let asc : IsAscending (0 ∷ starts) = unfold new in new-IsAscending contents in
      ground (arith, ranked, line_of-binary_search (0 ∷ starts) k asc)

  pub start_of_byte :
      get_or (0 ∷ starts) (newlines (take k contents)) 0 + last_line_len 0 (take k contents) ≡ k
  start_of_byte =
      let e = column-starts_from (length contents) 0 0 k contents (omega arith) (omega arith) h in
      ground (arith, ranked, e)

-- A byte offset inside the file has the line that one more than the line feeds before it say, and
-- the column that one more than the bytes after the last of those say, as long as the file is
-- shorter than 2^32 - 1 bytes.
pub position_of_byte :
    (contents : List ℕ) (byte_offset : ℕ)
    → byte_offset ≤ length contents
    → length contents + 1 < 2 ^ 32
    → byte_to_line_position (new contents) byte_offset ≡ record {
      line = newlines (take byte_offset contents) + 1;
      column = last_line_len 0 (take byte_offset contents) + 1;
    }
unfolding byte_to_line_position new
position_of_byte contents k h fits =
    let whole : min k (length contents) ≡ k = omega arith in
    rw (whole, line_of_byte contents k h)
      (ground (arith, start_of_byte contents k h, newlines-le k contents))

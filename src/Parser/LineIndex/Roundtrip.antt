-- ===== src/Parser/LineIndex/Roundtrip.antt =====
-- crates/hyperindex-parser/src/line_index.rs: from a byte to its position and back.
use repo_hyperindex.Base.{
  ℕ, suc, ◌+◌, ◌-◌, ◌≤◌, ◌<◌, ◌^◌, ◌≡◌, sym, subst, Option, none, some, List, ◌∷◌, arith, length,
  take, get_elem?,
}
use repo_hyperindex.Base.Order.{nat_ord}
use repo_hyperindex.Base.Ascending.{IsAscending}
use repo_hyperindex.Parser.LineIndex.{LinePosition, new, byte_to_line_position, line_column_to_byte}
use repo_hyperindex.Parser.LineIndex.Search.{Brackets, IsPast, Brackets-rank}
use repo_hyperindex.Parser.LineIndex.Lines.{
  newlines, last_line_len, starts, new-IsAscending, start_of_byte, ranked, position_of_byte,
}

module _ (contents : List ℕ) (k : ℕ) (h : k ≤ length contents) where
  -- The line of a byte in the list of starts.
  line-Brackets : Brackets (0 ∷ starts contents k h) k (newlines (take k contents))
  line-Brackets =
      let asc : IsAscending (0 ∷ starts contents k h) = unfold new in new-IsAscending contents in
      Brackets-rank (0 ∷ starts contents k h) k (newlines (take k contents)) asc
        (ground (arith, ranked contents k h))

  past_end : (o : Option ℕ) → IsPast k o → k ≤ elim o [ none ↦ length contents | some s ↦ s ]
  past_end none p = h
  past_end (some s) p = omega arith

  position_back :
      line_column_to_byte
        (new contents)
        (newlines (take k contents) + 1)
        (last_line_len 0 (take k contents) + 1)
      ≡ some k
  unfolding line_column_to_byte new
  position_back =
      let l = newlines (take k contents) in
      let back : l + 1 - 1 ≡ l = omega arith in
      let next : l + 1 ≡ suc l = omega arith in
      let b = line-Brackets in
      rw back (
        rw b.here (
          ground (
            arith,
            start_of_byte contents k h,
            past_end (get_elem? (0 ∷ starts contents k h) (suc l)) b.above,
            next,
          )))

-- The position of a byte inside the file leads back to that byte, as long as the file is shorter
-- than 2^32 - 1 bytes.
pub byte-position_roundtrip :
    (contents : List ℕ) (byte_offset : ℕ)
    → byte_offset ≤ length contents
    → length contents + 1 < 2 ^ 32
    → line_column_to_byte
        (new contents)
        (byte_to_line_position (new contents) byte_offset).line
        (byte_to_line_position (new contents) byte_offset).column
      ≡ some byte_offset
byte-position_roundtrip contents k h fits =
    subst (λ (p : LinePosition). line_column_to_byte (new contents) p.line p.column ≡ some k)
      (sym (position_of_byte contents k h fits)) (position_back contents k h)

-- ===== src/Tests/Parser.antt =====
-- crates/hyperindex-parser/src/line_index.rs at a file of three lines.
use repo_hyperindex.Base.{ℕ, ◌-◌, ◌≡◌, ◌≤◌, refl, some, List, ◌++◌, take, drop, length, arith}
use repo_hyperindex.Base.Text.{text}
use repo_hyperindex.Parser.LineIndex.{
  LineIndex, new, byte_to_line_position, line_column_to_byte, edit_from, shared_suffix_len,
  suffix_goes_on,
}
use repo_hyperindex.Parser.LineIndex.Roundtrip.{byte-position_roundtrip}
use repo_hyperindex.Parser.LineIndex.Edit.{edit_from_applies}

abbrev three_lines : List ℕ
three_lines = text "ab\nc\n\n"

abbrev edited : List ℕ
edited = text "ab\nxyz\n\n"

fifth_byte : byte_to_line_position (new three_lines) 4 ≡ record { line = 2; column = 2 }
unfolding byte_to_line_position new repo_hyperindex.Parser.LineIndex.binary_search
fifth_byte = refl

byte-position_roundtrip_example :
    line_column_to_byte
      (new three_lines)
      (byte_to_line_position (new three_lines) 4).line
      (byte_to_line_position (new three_lines) 4).column
    ≡ some 4
byte-position_roundtrip_example = byte-position_roundtrip three_lines 4 (omega arith) (omega arith)

edit_from_applies_example :
    let e = edit_from (new three_lines) three_lines edited (new edited) in
    (e.start_byte ≤ e.old_end_byte)
    × (e.old_end_byte ≤ length three_lines)
    × (e.start_byte ≤ e.new_end_byte)
    × (e.new_end_byte ≤ length edited)
    × (take e.start_byte three_lines
          ++ (take (e.new_end_byte - e.start_byte) (drop e.start_byte edited)
              ++ drop e.old_end_byte three_lines)
        ≡ edited)
edit_from_applies_example = edit_from_applies (new three_lines) (new edited) three_lines edited

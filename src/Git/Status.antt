-- ===== src/Git/Status.antt =====
-- crates/hyperindex-git-state/src/status.rs: what the output of `git status --porcelain` says of a
-- working tree, and the digest of it. `none` stands for a panic: `&line[..2]` inside a character.
use repo_hyperindex.Base.{
  ℕ, zero, suc, ◌+◌, ◌-◌, ◌*◌, ◌/◌, ◌%◌, ◌^◌, Bool, true, false, not, ◌&&◌, ◌||◌, Option, none,
  some, List, [], ◌∷◌, ◌++◌, map, if◌then◌else◌, ltb, leb, ◌==◌, length,
}
pub mod Parsed
pub mod Roles
pub mod Told
pub mod Order
use mathlib.Core.List.{reverse}
use mathlib.Core.Option
use repo_hyperindex.Base.Dedup.{sorted_set}
use repo_hyperindex.Base.Text.{
  text_ord, Text, text, char_len_utf8, len_utf8, as_bytes, trim_start, trim, strip_prefix, has_text,
  replace_char, cons_head, join,
}
use repo_hyperindex.Git.{RepoRenamedPath, rename_ord, WorkingTreeSummary}

pub record ParsedWorkingTreeStatus : Type 0 where
  pub dirty_tracked_files : List Text
  pub untracked_files : List Text
  pub deleted_files : List Text
  pub renamed_files : List RepoRenamedPath
  pub ignored_files : List Text

-- `str::lines`: `\n` ends a line, and a `\r` before it belongs to the end.
abbrev starts_newline : Text → Bool
starts_newline [] = false
starts_newline (c ∷ cs) = c == 10

unfoldable pub lines : Text → List Text
lines [] = []
lines (c ∷ cs) =
    let rest = lines cs in
    if c == 10 then [] ∷ rest else if c == 13 && starts_newline cs then rest else cons_head c rest

-- `str::split_at_checked`: before and after a number of bytes, `none` inside a character or behind
-- the end.
unfoldable pub split_at : ℕ → Text → Option (Text × Text)
unfolding char_len_utf8
split_at n [] = if n == 0 then some ([], []) else none
split_at n (c ∷ cs) =
    let rest = split_at (n - char_len_utf8 c) cs in
    if n == 0
    then some ([], c ∷ cs)
    else if ltb n (char_len_utf8 c)
    then none
    else elim rest [ none ↦ none | some (before, after) ↦ some (c ∷ before, after) ]

-- `splitn(2, separator)`: its first two items, empty where there is none.
unfoldable pub splitn_2 : Text → Text → Text × Text
unfolding strip_prefix
splitn_2 separator [] = ([], [])
splitn_2 separator (c ∷ cs) =
    let rest = splitn_2 separator cs in
    elim (strip_prefix separator (c ∷ cs)) [
      | some after ↦ ([], after)
      | none ↦ (c ∷ rest.0, rest.1)
    ]

unfoldable trim_quotes : Text → Text
trim_quotes [] = []
trim_quotes (c ∷ cs) = let rest = trim_quotes cs in if c == 34 then rest else c ∷ cs

unfoldable pub normalize_git_path : Text → Text
unfolding trim_quotes
normalize_git_path path = replace_char 92 47 (reverse (trim_quotes (reverse (trim_quotes path))))

abbrev pub is_empty : Text → Bool
is_empty [] = true
is_empty (c ∷ cs) = false

-- What one line adds.
pub data Change : Type 0 where
  untracked : Text → Change
  ignored : Text → Change
  renamed : RepoRenamedPath → Change
  deleted : Text → Change
  dirty : Text → Change
  nothing : Change

abbrev pub byte_is : ℕ → List ℕ → ℕ → Bool
byte_is zero (b ∷ bs) k = b == k
byte_is (suc i) (b ∷ bs) k = byte_is i bs k
byte_is i [] k = false

abbrev pub code_has : Text → ℕ → Bool
code_has code k = byte_is 0 (as_bytes code) k || byte_is 1 (as_bytes code) k

abbrev pub renamed_in : Text → Change
renamed_in payload =
    let parts = splitn_2 (text " -> ") payload in
    renamed (record { from = normalize_git_path parts.0; to = normalize_git_path parts.1 })

abbrev pub coded_change : Text → Text → Change
coded_change code payload =
    if code_has code b'R' && has_text (text " -> ") payload
    then renamed_in payload
    else if code_has code b'D'
    then deleted (normalize_git_path payload)
    else if not (is_empty (trim code))
    then dirty (normalize_git_path payload)
    else nothing

abbrev pub payload_of : Text → Text
payload_of line = elim (split_at 3 line) [ none ↦ [] | some (before, after) ↦ trim_start after ]

abbrev pub tracked_change : Text → Option Change
tracked_change line = if ltb (len_utf8 line) 4 then some nothing else elim (split_at 2 line) [
  | none ↦ none
  | some (code, after) ↦ some (coded_change code (payload_of line))
]

unfoldable pub read_line : Text → Option Change
unfolding trim strip_prefix len_utf8 split_at splitn_2 as_bytes trim_start has_text
    normalize_git_path
read_line line =
    if is_empty (trim line) then some nothing else elim (strip_prefix (text "?? ") line) [
      | some path ↦ some (untracked (normalize_git_path path))
      | none ↦ elim (strip_prefix (text "!! ") line) [
        | some path ↦ some (ignored (normalize_git_path path))
        | none ↦ tracked_change line
      ]
    ]

abbrev pub push_change : ParsedWorkingTreeStatus → Change → ParsedWorkingTreeStatus
push_change status (untracked path) = record status {
  untracked_files = status.untracked_files ++ path ∷ [];
}
push_change status (ignored path) = record status {
  ignored_files = status.ignored_files ++ path ∷ [];
}
push_change status (renamed path) = record status {
  renamed_files = status.renamed_files ++ path ∷ [];
}
push_change status (deleted path) = record status {
  deleted_files = status.deleted_files ++ path ∷ [];
}
push_change status (dirty path) = record status {
  dirty_tracked_files = status.dirty_tracked_files ++ path ∷ [];
}
push_change status nothing = status

unfoldable pub push_lines : ParsedWorkingTreeStatus → List Text → Option ParsedWorkingTreeStatus
unfolding read_line
push_lines status [] = some status
push_lines status (line ∷ rest) = elim (read_line line) [
  | none ↦ none
  | some change ↦ push_lines (push_change status change) rest
]

abbrev pub no_changes : ParsedWorkingTreeStatus
no_changes = record {
  dirty_tracked_files = [];
  untracked_files = [];
  deleted_files = [];
  renamed_files = [];
  ignored_files = [];
}

abbrev pub sorted_status : ParsedWorkingTreeStatus → ParsedWorkingTreeStatus
sorted_status status = record {
  dirty_tracked_files = sorted_set status.dirty_tracked_files;
  untracked_files = sorted_set status.untracked_files;
  deleted_files = sorted_set status.deleted_files;
  renamed_files = sorted_set status.renamed_files;
  ignored_files = sorted_set status.ignored_files;
}

unfoldable pub parse_porcelain_v1 : Text → Option ParsedWorkingTreeStatus
unfolding lines push_lines sorted_set
parse_porcelain_v1 raw = Option.map sorted_status (push_lines no_changes (lines raw))

abbrev pub dirty_path_count : ParsedWorkingTreeStatus → ℕ
dirty_path_count status =
    length status.dirty_tracked_files
    + length status.untracked_files
    + length status.deleted_files
    + length status.renamed_files

abbrev pub is_dirty : ParsedWorkingTreeStatus → Bool
is_dirty status = ltb 0 (dirty_path_count status)

-- `^` on 64 bits, the least significant first
unfoldable xor_fuel : ℕ → ℕ → ℕ → ℕ
xor_fuel zero a b = 0
xor_fuel (suc f) a b = (a % 2 + b % 2) % 2 + 2 * xor_fuel f (a / 2) (b / 2)

unfoldable pub stable_hash_from : ℕ → List ℕ → ℕ
unfolding xor_fuel
stable_hash_from hash [] = hash
stable_hash_from hash (byte ∷ bytes) =
    stable_hash_from (xor_fuel 64 hash byte * 0x100000001b3 % 2 ^ 64) bytes

abbrev pub stable_hash : List ℕ → ℕ
stable_hash bytes = stable_hash_from 0xcbf29ce484222325 bytes

-- `{:016x}` of a number below 2^64
abbrev hex_digit : ℕ → ℕ
hex_digit d = if ltb d 10 then 48 + d else 87 + d

unfoldable pub hex_fuel : ℕ → ℕ → Text → Text
hex_fuel zero n acc = acc
hex_fuel (suc f) n acc = hex_fuel f (n / 16) (hex_digit (n % 16) ∷ acc)

abbrev head_or_dash : Option Text → Text
head_or_dash none = text "-"
head_or_dash (some commit) = commit

unfoldable pub working_tree_digest : Option Text → ParsedWorkingTreeStatus → Text
unfolding stable_hash_from hex_fuel as_bytes join
working_tree_digest head_commit status =
    let joined = join (10 ∷ []) (
      (text "head:" ++ head_or_dash head_commit)
      ∷ (map (λ path. text "dirty:" ++ path) status.dirty_tracked_files
          ++ (map (λ path. text "untracked:" ++ path) status.untracked_files
              ++ (map (λ path. text "deleted:" ++ path) status.deleted_files
                  ++ (map
                        (λ (rename : RepoRenamedPath).
                          text "renamed:" ++ (rename.from ++ (text "=>" ++ rename.to)))
                        status.renamed_files
                      ++ map (λ path. text "ignored:" ++ path) status.ignored_files))))) in
    text "gitwt-" ++ hex_fuel 16 (stable_hash (as_bytes joined)) []

unfoldable pub into_summary : ParsedWorkingTreeStatus → Option Text → WorkingTreeSummary
unfolding working_tree_digest
into_summary status head_commit = record {
  dirty_tracked_files = status.dirty_tracked_files;
  untracked_files = status.untracked_files;
  deleted_files = status.deleted_files;
  renamed_files = status.renamed_files;
  ignored_files = status.ignored_files;
  digest = working_tree_digest head_commit status;
}

-- ===== src/Watcher/Tree.antt =====
-- crates/hyperindex-watcher/src/watcher.rs: the walk over the file tree that takes a fingerprint of
-- each file. The tree is data: of each entry, what `std::fs` reports when it is asked. Names are
-- valid UTF-8, and paths are those of Unix.
pub mod Visible
use repo_hyperindex.Base.{
  ℕ, ◌%◌, ◌^◌, Bool, true, false, not, ◌&&◌, ◌||◌, List, [], ◌∷◌, ◌++◌, if◌then◌else◌, length,
  is_some,
}
use repo_hyperindex.Base.Order.{beq}
use repo_hyperindex.Base.Text.{text_ord, Text, text, replace_char}
use repo_hyperindex.Base.Sort.{sort_by, by_key}
use repo_hyperindex.Base.Dict.{empty, insert}
use repo_hyperindex.Errors.{Result, ok, err, message, try_fold}
use repo_hyperindex.Watcher.Ignore.{IgnoreMatcher, is_ignored, should_skip_dir}
use repo_hyperindex.Watcher.Polling.{FileFingerprint, Poll, stable_hash}

mutual
  pub data Node : Type 0 where
    directory : Listing → Node
    -- A file with its bytes, one that is gone when it is read, or the error of reading it.
    file : List ℕ → Node
    gone_file : Node
    closed_file : Text → Node
    -- Neither a directory nor a file, one whose metadata is not found, or the error of `metadata`.
    special vanished : Node
    no_metadata : Text → Node

  -- What `read_dir` yields: the entries, or its error, or the error of one of them.
  pub data Listing : Type 0 where
    listed : Entries → Listing
    read_dir_failed dir_entry_failed : Text → Listing

  pub data Entries : Type 0 where
    no_entries : Entries
    entry : Text → Node → Entries → Entries

-- `fingerprint_file`, of a file that is read
unfoldable pub fingerprint_of : List ℕ → FileFingerprint
unfolding stable_hash
fingerprint_of bytes = record { size = length bytes; content_hash = stable_hash bytes }

-- The path below the root of an entry of a directory.
abbrev pub child_path : Text → Text → Text
child_path [] name = name
child_path (c ∷ dir) name = (c ∷ dir) ++ (text "/" ++ name)

abbrev pub relative_path : Text → Text
relative_path path = replace_char 0x5C 0x2F path

abbrev display : Text → Text → Text
display root path = root ++ (text "/" ++ path)

-- The body of the loop of `visit_dir`, for one entry: it adds to the snapshot, or fails.
abbrev pub Step : Type 0
Step = Poll → Result Poll

abbrev pub run_steps : List (Text × Step) → Step
run_steps steps snapshot = try_fold (λ s (step : Text × Step). step.1 s) snapshot steps

-- `entries.sort_by_key(file_name)`
abbrev pub by_name : List (Text × Step) → List (Text × Step)
by_name steps = sort_by (by_key (λ (step : Text × Step). step.0)) steps

module _ (root : Text) (matcher : IgnoreMatcher) where
  unfoldable mutual
    pub visit_entry : Text → Node → Step
    visit_entry path (directory listing) snapshot =
        let visited = visit_dir path listing snapshot in
        if should_skip_dir matcher (relative_path path) then ok snapshot else visited
    visit_entry path (file bytes) snapshot =
        if is_ignored matcher (relative_path path)
        then ok snapshot
        else ok (insert snapshot (relative_path path) (fingerprint_of bytes))
    visit_entry path gone_file snapshot = ok snapshot
    visit_entry path (closed_file error) snapshot =
        if is_ignored matcher (relative_path path)
        then ok snapshot
        else err (message (text "failed to read " ++ (display root path ++ (text ": " ++ error))))
    visit_entry path special snapshot = ok snapshot
    visit_entry path vanished snapshot = ok snapshot
    visit_entry path (no_metadata error) snapshot =
        err (message (text "metadata failed for " ++ (display root path ++ (text ": " ++ error))))

    pub entry_steps : Text → Entries → List (Text × Step)
    entry_steps path no_entries = []
    entry_steps path (entry name node entries) =
        (name, visit_entry (child_path path name) node) ∷ entry_steps path entries

    pub visit_dir : Text → Listing → Step
    visit_dir path (listed entries) snapshot =
        run_steps (by_name (entry_steps path entries)) snapshot
    visit_dir path (read_dir_failed error) snapshot =
        err (message (text "read_dir failed: " ++ error))
    visit_dir path (dir_entry_failed error) snapshot =
        err (message (text "dir entry failed: " ++ error))

  unfoldable pub collect_snapshot : Listing → Result Poll
  unfolding visit_dir
  collect_snapshot repo_root = visit_dir [] repo_root empty

-- ===== src/Tests/Snapshot.antt =====
-- crates/hyperindex-snapshot at a repository with three files, one changed, one deleted and one new.
use repo_hyperindex.Base.{
  ℕ, ◌+◌, ◌≡◌, ◌≢◌, ◌↔◌, refl, Option, some, none, List, [], ◌∷◌, ◌++◌, ◌∙◌, map, arith, false,
  true, ◌&&◌, length, All,
}
use repo_hyperindex.Base.Text.{text_ord, Text, text, split}
use repo_hyperindex.Base.Dict.{get}
use repo_hyperindex.Base.Distinct.{contains, distinct}
use repo_hyperindex.Errors.{ok, is_ok, from_ok, ok-from_ok}
use repo_hyperindex.Git.{GitRepoState, WorkingTreeSummary}
use repo_hyperindex.Snapshot.{
  git_commit, SnapshotFile, BaseSnapshot, WorkingTreeOverlay, BufferOverlay, ComposedSnapshot,
  BufferContents,
}
use repo_hyperindex.Snapshot.Overlays.{
  IoResult, contents, io_error, FileSystem, build_working_tree_overlay, build_buffer_overlays,
}
use repo_hyperindex.Snapshot.Overlays.Contents.{
  IsFilled, IsRead, has_upsert, has_delete, upserted, deleted, overlay_exact,
}
use repo_hyperindex.Snapshot.Manifest.{
  base_paths, entry_paths, buffer_paths, compose, resolve_file, full, without_buffers, diff,
}
use repo_hyperindex.Snapshot.Manifest.Compose.{IsComposed, compose-ok, compose-IsComposed}
use repo_hyperindex.Snapshot.Manifest.Resolve.{contents_of, resolve_file-full}
use repo_hyperindex.Snapshot.Manifest.Diff.{diff_exact}
use repo_hyperindex.Snapshot.Assembly.{
  Assembled, assembled_resolve, assembled_diff, deleted_and_present_refused,
}

abbrev sha256_hex : Text → Text
sha256_hex t = t

abbrev disk : FileSystem
disk = record {
  absolute = λ root path. root ++ (text "/" ++ path);
  read_to_string = λ path. contents (text "on disk");
}

abbrev summary : List Text → List Text → List Text → WorkingTreeSummary
summary dirty untracked gone = record {
  dirty_tracked_files = dirty;
  untracked_files = untracked;
  deleted_files = gone;
  renamed_files = [];
  ignored_files = [];
  digest = text "d";
}

abbrev state_of_tree : WorkingTreeSummary → GitRepoState
state_of_tree tree = record {
  repo_root = text "/repo";
  branch = none;
  head_commit = none;
  working_tree = tree;
  warnings = [];
}

abbrev git_state : GitRepoState
git_state = state_of_tree (summary (text "a" ∷ []) (text "d" ∷ []) (text "b" ∷ []))

abbrev clean_state : GitRepoState
clean_state = state_of_tree (summary [] [] [])

-- `c` was taken out of the index and is still in the folder.
abbrev cached_state : GitRepoState
cached_state = state_of_tree (summary [] (text "c" ∷ []) (text "c" ∷ []))

abbrev file_of : Text → Text → SnapshotFile
file_of path t = record { path = path; content_sha256 = t; content_bytes = length t; contents = t }

abbrev base : BaseSnapshot
base = record {
  kind = git_commit;
  commit = text "c0";
  digest = text "b0";
  file_count = 3;
  files =
      file_of (text "a") (text "old")
      ∷ file_of (text "b") (text "old")
      ∷ file_of (text "c") (text "old")
      ∷ [];
}

abbrev no_tree : WorkingTreeOverlay
no_tree = record { digest = []; entries = [] }

abbrev tree_of : GitRepoState → WorkingTreeOverlay
tree_of g = from_ok no_tree (build_working_tree_overlay sha256_hex disk (text "/repo") g)

abbrev buffer_of : Text → Text → BufferContents
buffer_of buffer_id path = record {
  state = record {
    buffer_id = buffer_id;
    repo_id = text "r";
    path = path;
    version = 1;
    language = none;
    content_sha256 = text "s";
    content_bytes = 6;
  };
  contents = text "edited";
}

abbrev two_buffers : List BufferContents
two_buffers = buffer_of (text "b1") (text "./c") ∷ buffer_of (text "b2") (text "src/n") ∷ []

abbrev buffers : List BufferOverlay
buffers =
    record {
      buffer_id = text "b1";
      path = text "c";
      version = 1;
      content_sha256 = text "s";
      content_bytes = 6;
      contents = text "edited";
    }
    ∷ record {
      buffer_id = text "b2";
      path = text "src/n";
      version = 1;
      content_sha256 = text "s";
      content_bytes = 6;
      contents = text "edited";
    }
    ∷ []

abbrev empty_snapshot : ComposedSnapshot
empty_snapshot = record {
  version = 0;
  protocol_version = [];
  snapshot_id = [];
  repo_id = [];
  repo_root = [];
  base = base;
  working_tree = no_tree;
  buffers = [];
}

abbrev snapshot_of : GitRepoState → List BufferOverlay → ComposedSnapshot
snapshot_of g bs =
    from_ok empty_snapshot (compose sha256_hex (text "r") (text "/repo") base (tree_of g) bs)

abbrev clean : ComposedSnapshot
clean = snapshot_of clean_state []

abbrev edited : ComposedSnapshot
edited = snapshot_of git_state buffers

tree_built :
    build_working_tree_overlay sha256_hex disk (text "/repo") git_state ≡ ok (tree_of git_state)
unfolding build_working_tree_overlay repo_hyperindex.Snapshot.Overlays.collect_entries
    repo_hyperindex.Snapshot.Overlays.push_upsert get
    repo_hyperindex.Snapshot.Overlays.build_upsert_entry repo_hyperindex.Base.Dict.insert
    repo_hyperindex.Snapshot.Overlays.push_delete_ok
tree_built = refl

clean_built :
    build_working_tree_overlay sha256_hex disk (text "/repo") clean_state ≡ ok (tree_of clean_state)
unfolding build_working_tree_overlay repo_hyperindex.Snapshot.Overlays.collect_entries
clean_built = refl

buffers_built : build_buffer_overlays two_buffers ≡ ok buffers
unfolding build_buffer_overlays repo_hyperindex.Base.Sort.sort_by
    repo_hyperindex.Paths.normalize_repo_relative_path repo_hyperindex.Base.Text.trim
    repo_hyperindex.Paths.normal_parts repo_hyperindex.Paths.components split
    repo_hyperindex.Paths.body_components get repo_hyperindex.Base.Dict.insert
    repo_hyperindex.Base.Text.join
buffers_built = refl

clean_distinct :
    (distinct (base_paths base)
      && distinct (entry_paths (tree_of clean_state))
      && distinct (buffer_paths []))
    ≡ true
unfolding build_working_tree_overlay repo_hyperindex.Snapshot.Overlays.collect_entries
    repo_hyperindex.Base.Sort.sort_by
clean_distinct = refl

clean_composed :
    compose sha256_hex (text "r") (text "/repo") base (tree_of clean_state) [] ≡ ok clean
clean_composed =
    ok-from_ok empty_snapshot
      (compose sha256_hex (text "r") (text "/repo") base (tree_of clean_state) [])
      (compose-ok sha256_hex (text "r") (text "/repo") base (tree_of clean_state) []
        ∙ clean_distinct)

all_distinct :
    (distinct (base_paths base)
      && distinct (entry_paths (tree_of git_state))
      && distinct (buffer_paths buffers))
    ≡ true
unfolding build_working_tree_overlay repo_hyperindex.Snapshot.Overlays.collect_entries
    repo_hyperindex.Snapshot.Overlays.push_upsert get
    repo_hyperindex.Snapshot.Overlays.build_upsert_entry repo_hyperindex.Base.Dict.insert
    repo_hyperindex.Snapshot.Overlays.push_delete_ok repo_hyperindex.Base.Sort.sort_by
    repo_hyperindex.Snapshot.Overlays.push_delete
all_distinct = refl

edited_composed :
    compose sha256_hex (text "r") (text "/repo") base (tree_of git_state) buffers ≡ ok edited
edited_composed =
    ok-from_ok empty_snapshot
      (compose sha256_hex (text "r") (text "/repo") base (tree_of git_state) buffers)
      (compose-ok sha256_hex (text "r") (text "/repo") base (tree_of git_state) buffers
        ∙ all_distinct)

abbrev clean_assembled : Assembled sha256_hex disk clean_state clean
clean_assembled = record {
  repo_id = text "r";
  repo_root = text "/repo";
  base = base;
  tree = tree_of clean_state;
  buffers = [];
  built = clean_built;
  composed = clean_composed;
}

abbrev edited_assembled : Assembled sha256_hex disk git_state edited
edited_assembled = record {
  repo_id = text "r";
  repo_root = text "/repo";
  base = base;
  tree = tree_of git_state;
  buffers = buffers;
  built = tree_built;
  composed = edited_composed;
}

assembled_resolve_example :
    contents_of (resolve_file edited (text "b")) ≡ get (full edited) (text "b")
assembled_resolve_example =
    assembled_resolve sha256_hex disk git_state edited (text "b") edited_assembled

assembled_diff_example :
    (contains (diff clean edited).changed_paths (text "a") ≡ true)
    ↔ (contents_of (resolve_file clean (text "a")) ≢ contents_of (resolve_file edited (text "a")))
assembled_diff_example =
    assembled_diff sha256_hex disk clean_state git_state clean edited (text "a") clean_assembled
      edited_assembled

cached_built :
    build_working_tree_overlay sha256_hex disk (text "/repo") cached_state
    ≡ ok (tree_of cached_state)
unfolding build_working_tree_overlay repo_hyperindex.Snapshot.Overlays.collect_entries
    repo_hyperindex.Snapshot.Overlays.push_upsert get
    repo_hyperindex.Snapshot.Overlays.build_upsert_entry
    repo_hyperindex.Snapshot.Overlays.push_delete_ok
cached_built = refl

deleted_and_present_refused_example :
    is_ok (compose sha256_hex (text "r") (text "/repo") base (tree_of cached_state) []) ≡ false
deleted_and_present_refused_example =
    deleted_and_present_refused sha256_hex disk cached_state (text "r") (text "/repo") (text "c")
      base (tree_of cached_state) [] cached_built refl refl

overlay_exact_example :
    (has_upsert (tree_of git_state).entries (text "a")
      ≡ upserted sha256_hex disk (text "/repo") (text "a") git_state.working_tree)
    × (has_delete (tree_of git_state).entries (text "a")
        ≡ deleted sha256_hex disk (text "/repo") (text "a") git_state.working_tree)
    × All IsFilled (tree_of git_state).entries
    × All (λ e. IsRead sha256_hex disk (text "/repo") e e.kind) (tree_of git_state).entries
overlay_exact_example =
    overlay_exact sha256_hex disk (text "/repo") (text "a") git_state (tree_of git_state) tree_built

compose-ok_example :
    is_ok (compose sha256_hex (text "r") (text "/repo") base (tree_of git_state) buffers) ≡ (
      distinct (base_paths base)
      && distinct (entry_paths (tree_of git_state))
      && distinct (buffer_paths buffers))
compose-ok_example =
    compose-ok sha256_hex (text "r") (text "/repo") base (tree_of git_state) buffers

edited-IsComposed : IsComposed edited
edited-IsComposed =
    (compose-IsComposed sha256_hex (text "r") (text "/repo") base (tree_of git_state) buffers edited
      edited_composed).3

edited-IsFilled : All IsFilled edited.working_tree.entries
edited-IsFilled =
    rw
      (compose-IsComposed sha256_hex (text "r") (text "/repo") base (tree_of git_state) buffers
        edited edited_composed).1
      (overlay_exact sha256_hex disk (text "/repo") (text "a") git_state (tree_of git_state)
        tree_built).2

resolve_file-full_example :
    contents_of (resolve_file edited (text "a")) ≡ get (full edited) (text "a")
resolve_file-full_example = resolve_file-full edited (text "a") edited-IsComposed edited-IsFilled

diff_exact_example :
    ((contains (diff clean edited).changed_paths (text "c") ≡ true)
      ↔ (get (full clean) (text "c") ≢ get (full edited) (text "c")))
    × ((contains (diff clean edited).added_paths (text "c") ≡ true)
        ↔ ((get (full clean) (text "c") ≡ none) × (get (full edited) (text "c") ≢ none)))
    × ((contains (diff clean edited).deleted_paths (text "c") ≡ true)
        ↔ ((get (full clean) (text "c") ≢ none) × (get (full edited) (text "c") ≡ none)))
    × ((contains (diff clean edited).buffer_only_changed_paths (text "c") ≡ true) ↔ (
        (get (full clean) (text "c") ≢ get (full edited) (text "c"))
        × (get (without_buffers clean) (text "c") ≡ get (without_buffers edited) (text "c"))))
diff_exact_example = diff_exact clean edited (text "c")

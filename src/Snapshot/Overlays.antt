-- ===== src/Snapshot/Overlays.antt =====
-- crates/hyperindex-snapshot/src/overlays.rs and the digests of base.rs: the overlays that are laid
-- over a base commit, and the files that a stack of layers amounts to. SHA-256 and the file system
-- are arguments.
pub mod Inputs
pub mod Contents
use repo_hyperindex.Base.{
  ℕ, zero, suc, ◌≡◌, Bool, true, false, Option, none, some, List, [], ◌∷◌, ◌++◌, map, Ordering,
  if◌then◌else◌, flat_map,
}
use repo_hyperindex.Base.Order.{nat_ord}
use repo_hyperindex.Base.Text.{text_ord, Text, text, len_utf8}
use repo_hyperindex.Base.Sort.{sort_by, by_key, both}
use repo_hyperindex.Base.Dict.{Dict, empty, insert, remove, contains_key}
use repo_hyperindex.Base.Distinct.{BTreeSet}
use repo_hyperindex.Errors.{HyperindexError, Result, ok, err, message, ◌>>=◌, try_fold}
use repo_hyperindex.Paths.{normalize_repo_relative_path}
use repo_hyperindex.Git.{WorkingTreeSummary, GitRepoState, RepoRenamedPath}
use repo_hyperindex.Snapshot.{
  SnapshotFile, OverlayEntryKind, upsert, delete, WorkingTreeEntry, WorkingTreeOverlay,
  BufferOverlay, BufferState, BufferContents,
}

-- `std::fs`: the contents of a file, or the message of an I/O error.
pub data IoResult : Type 0 where
  contents : Text → IoResult
  io_error : Text → IoResult

pub record FileSystem : Type 0 where
  -- `repo_root.join(path).display()`
  pub absolute : Text → Text → Text
  pub read_to_string : Text → IoResult

abbrev pub kind_rank : OverlayEntryKind → ℕ
kind_rank upsert = 0
kind_rank delete = 1

abbrev pub entry_order : WorkingTreeEntry → WorkingTreeEntry → Ordering
entry_order = both (by_key (λ e. e.path)) (by_key (λ e. kind_rank e.kind))

abbrev pub buffer_order : BufferContents → BufferContents → Ordering
buffer_order = both (by_key (λ b. b.state.path)) (by_key (λ b. b.state.buffer_id))

abbrev dash_or : Option Text → Text
dash_or none = text "-"
dash_or (some t) = t

abbrev entry_line : WorkingTreeEntry → OverlayEntryKind → Text
entry_line e upsert = text "upsert:" ++ (e.path ++ (text ":" ++ dash_or e.content_sha256))
entry_line e delete = text "delete:" ++ e.path

-- What the three loops of `build_working_tree_overlay` change.
pub record Building : Type 0 where
  pub entries : List WorkingTreeEntry
  pub upsert_paths : BTreeSet Text
  pub delete_paths : BTreeSet Text

abbrev pub nothing_built : Building
nothing_built = record { entries = []; upsert_paths = empty; delete_paths = empty }

abbrev pub delete_entry : Text → WorkingTreeEntry
delete_entry path = record {
  path = path;
  kind = delete;
  content_sha256 = none;
  content_bytes = none;
  contents = none;
}

unfoldable pub push_delete : Building → Text → Building
push_delete b path = if contains_key b.delete_paths path then b else record b {
  entries = b.entries ++ delete_entry path ∷ [];
  delete_paths = insert b.delete_paths path tt;
}

module _ (sha256_hex : Text → Text) where
  unfoldable pub digest_snapshot_components : List Text → Text
  digest_snapshot_components components =
      text "snap-" ++ sha256_hex (flat_map (λ c. c ++ text "\n") components)

  module _ (fs : FileSystem) (repo_root : Text) where
    unfoldable pub build_upsert_entry : Text → Result WorkingTreeEntry
    unfolding len_utf8
    build_upsert_entry path =
        let absolute = fs.absolute repo_root path in
        elim (fs.read_to_string absolute) [
          | io_error error ↦
              err (message (text "failed to read " ++ (absolute ++ (text ": " ++ error))))
          | contents t ↦ ok (record {
            path = path;
            kind = upsert;
            content_sha256 = some (sha256_hex t);
            content_bytes = some (len_utf8 t);
            contents = some t;
          })
        ]

    unfoldable pub push_upsert : Building → Text → Result Building
    push_upsert b path = if contains_key b.upsert_paths path then ok b else do
      entry ← build_upsert_entry path
      ok (record b {
        entries = b.entries ++ entry ∷ [];
        upsert_paths = insert b.upsert_paths path tt;
      })

    unfoldable pub push_delete_ok : Building → Text → Result Building
    push_delete_ok b path = ok (push_delete b path)

    unfoldable pub push_rename : Building → RepoRenamedPath → Result Building
    push_rename b rename = push_upsert (push_delete b rename.from) rename.to

    unfoldable pub collect_entries : WorkingTreeSummary → Result Building
    collect_entries tree = do
      b ← try_fold push_upsert nothing_built (tree.dirty_tracked_files ++ tree.untracked_files)
      b' ← try_fold push_delete_ok b tree.deleted_files
      try_fold push_rename b' tree.renamed_files

    unfoldable pub build_working_tree_overlay : GitRepoState → Result WorkingTreeOverlay
    build_working_tree_overlay git_state = do
      b ← collect_entries git_state.working_tree
      ok (
          let entries = sort_by entry_order b.entries in
          record {
            digest = digest_snapshot_components (map (λ e. entry_line e e.kind) entries);
            entries = entries;
          })

abbrev pub duplicate_buffer : Text → HyperindexError
duplicate_buffer path = message (
    text "duplicate buffer path in snapshot inputs: "
    ++ (path ++ text "; clear one overlay or use distinct repo-relative paths"))

-- The loop of `build_buffer_overlays`, over the sorted buffers.
unfoldable pub buffer_loop : BTreeSet Text → List BufferContents → Result (List BufferOverlay)
buffer_loop seen [] = ok []
buffer_loop seen (buffer ∷ rest) = do
  path ← normalize_repo_relative_path buffer.state.path (text "buffer overlay")
  if contains_key seen path then err (duplicate_buffer path) else do
    overlays ← buffer_loop (insert seen path tt) rest
    ok (
        record {
          buffer_id = buffer.state.buffer_id;
          path = path;
          version = buffer.state.version;
          content_sha256 = buffer.state.content_sha256;
          content_bytes = buffer.state.content_bytes;
          contents = buffer.contents;
        }
        ∷ overlays)

unfoldable pub build_buffer_overlays : List BufferContents → Result (List BufferOverlay)
unfolding buffer_loop
build_buffer_overlays buffers = buffer_loop empty (sort_by buffer_order buffers)

-- The files of a stack of layers, as maps from paths to contents.
abbrev pub FileMap : Type 0
FileMap = Dict Text Text

unfoldable pub collect_files : FileMap → List SnapshotFile → FileMap
collect_files files [] = files
collect_files files (file ∷ rest) = collect_files (insert files file.path file.contents) rest

unfoldable pub base_file_map : List SnapshotFile → FileMap
unfolding collect_files
base_file_map = collect_files empty

abbrev pub apply_entry : FileMap → Text → OverlayEntryKind → Option Text → FileMap
apply_entry files path upsert none = files
apply_entry files path upsert (some t) = insert files path t
apply_entry files path delete c = remove files path

unfoldable pub apply_working_tree : FileMap → List WorkingTreeEntry → FileMap
apply_working_tree files [] = files
apply_working_tree files (e ∷ rest) =
    apply_working_tree (apply_entry files e.path e.kind e.contents) rest

unfoldable pub materialize_without_buffers : FileMap → WorkingTreeOverlay → FileMap
unfolding apply_working_tree
materialize_without_buffers base_files working_tree =
    apply_working_tree base_files working_tree.entries

unfoldable pub insert_buffers : FileMap → List BufferOverlay → FileMap
insert_buffers files [] = files
insert_buffers files (b ∷ rest) = insert_buffers (insert files b.path b.contents) rest

unfoldable pub materialize_with_buffers :
    FileMap → WorkingTreeOverlay → List BufferOverlay → FileMap
unfolding materialize_without_buffers insert_buffers
materialize_with_buffers base_files working_tree buffers =
    insert_buffers (materialize_without_buffers base_files working_tree) buffers

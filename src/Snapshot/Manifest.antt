-- ===== src/Snapshot/Manifest.antt =====
-- crates/hyperindex-snapshot/src/manifest.rs: composing a snapshot, resolving a file of it, and the
-- difference of two snapshots.
pub mod Compose
pub mod Resolve
pub mod Diff
pub mod Flip
use repo_hyperindex.Base.{
  ℕ, ◌≡◌, Bool, true, false, not, ◌&&◌, Option, none, some, List, [], ◌∷◌, ◌++◌, map, if◌then◌else◌,
  find, is_none,
}
use mathlib.Core.Option
use repo_hyperindex.Base.Order.{beq, opt_beq}
use repo_hyperindex.Base.Text.{text_ord, Text, text, decimal}
use repo_hyperindex.Base.Dict.{Dict, empty, insert, get, contains_key, keys}
use repo_hyperindex.Base.Distinct.{BTreeSet, extend}
use repo_hyperindex.Errors.{Result, ok, err, message, ◌>>=◌, ◌>>◌}
use repo_hyperindex.Snapshot.{
  SnapshotFile, BaseSnapshot, WorkingTreeEntry, WorkingTreeOverlay, BufferOverlay, ComposedSnapshot,
  SnapshotDiffResponse,
}
use repo_hyperindex.Snapshot.Overlays.{
  digest_snapshot_components, FileMap, base_file_map, materialize_without_buffers,
  materialize_with_buffers,
}

-- crates/hyperindex-protocol/src/lib.rs
abbrev pub storage_version : ℕ
storage_version = 1

abbrev pub protocol_version : Text
protocol_version = text "repo-hyperindex.local/v1"

pub data ResolvedFrom : Type 0 where
  buffer_overlay : Text → ResolvedFrom
  working_tree_overlay base_snapshot : ResolvedFrom

pub record ResolvedFile : Type 0 where
  pub path : Text
  pub resolved_from : ResolvedFrom
  pub contents : Text

-- The loop of `ensure_unique_paths`.
unfoldable pub unique_loop : Text → BTreeSet Text → List Text → Result (Unit {0})
unique_loop area seen [] = ok tt
unique_loop area seen (path ∷ rest) =
    let next = unique_loop area (insert seen path tt) rest in
    if contains_key seen path
    then err (message (text "duplicate path in " ++ (area ++ (text ": " ++ path))))
    else next

unfoldable pub ensure_unique_paths : List Text → Text → Result (Unit {0})
unfolding unique_loop
ensure_unique_paths paths area = unique_loop area empty paths

abbrev pub base_paths : BaseSnapshot → List Text
base_paths base = map (λ (f : SnapshotFile). f.path) base.files

abbrev pub entry_paths : WorkingTreeOverlay → List Text
entry_paths tree = map (λ (e : WorkingTreeEntry). e.path) tree.entries

abbrev pub buffer_paths : List BufferOverlay → List Text
buffer_paths = map (λ (b : BufferOverlay). b.path)

unfoldable pub validate_snapshot_inputs :
    BaseSnapshot → WorkingTreeOverlay → List BufferOverlay → Result (Unit {0})
validate_snapshot_inputs base working_tree buffers = do
  ensure_unique_paths (base_paths base) (text "base")
  ensure_unique_paths (entry_paths working_tree) (text "working_tree")
  ensure_unique_paths (buffer_paths buffers) (text "buffers")
  ok tt

abbrev buffer_line : BufferOverlay → Text
buffer_line b =
    text "buffer:"
    ++ (b.buffer_id
        ++ (text ":"
            ++ (b.path ++ (text ":" ++ (decimal b.version ++ (text ":" ++ b.content_sha256))))))

module _ (sha256_hex : Text → Text) where
  unfoldable pub deterministic_snapshot_id :
      Text → Text → BaseSnapshot → WorkingTreeOverlay → List BufferOverlay → Text
  deterministic_snapshot_id repo_id repo_root base working_tree buffers =
      digest_snapshot_components sha256_hex (
        (text "repo:" ++ repo_id)
        ∷ (text "root:" ++ repo_root)
        ∷ (text "base:" ++ base.digest)
        ∷ (text "working_tree:" ++ working_tree.digest)
        ∷ map buffer_line buffers)

  unfoldable pub compose :
      Text → Text → BaseSnapshot → WorkingTreeOverlay → List BufferOverlay → Result ComposedSnapshot
  unfolding deterministic_snapshot_id
  compose repo_id repo_root base working_tree buffers = do
    validate_snapshot_inputs base working_tree buffers
    ok (record {
      version = storage_version;
      protocol_version = protocol_version;
      snapshot_id = deterministic_snapshot_id repo_id repo_root base working_tree buffers;
      repo_id = repo_id;
      repo_root = repo_root;
      base = base;
      working_tree = working_tree;
      buffers = buffers;
    })

-- The three searches of `resolve_file`, in the order of precedence.
unfoldable pub resolve_base : Text → List SnapshotFile → Option ResolvedFile
resolve_base path files = elim (find (λ (f : SnapshotFile). beq f.path path) files) [
  | none ↦ none
  | some f ↦ some (record { path = path; resolved_from = base_snapshot; contents = f.contents })
]

unfoldable pub resolve_entries :
    Text → List WorkingTreeEntry → Option ResolvedFile → Option ResolvedFile
resolve_entries path entries below =
    elim (find (λ (e : WorkingTreeEntry). beq e.path path) entries) [
      | none ↦ below
      | some e ↦
          Option.map
            (λ t. record { path = path; resolved_from = working_tree_overlay; contents = t })
            e.contents
    ]

unfoldable pub resolve_buffers :
    Text → List BufferOverlay → Option ResolvedFile → Option ResolvedFile
resolve_buffers path buffers below = elim (find (λ (b : BufferOverlay). beq b.path path) buffers) [
  | none ↦ below
  | some b ↦
      some
        (record { path = path; resolved_from = buffer_overlay b.buffer_id; contents = b.contents })
]

unfoldable pub resolve_file : ComposedSnapshot → Text → Option ResolvedFile
unfolding resolve_base resolve_entries resolve_buffers
resolve_file snapshot path =
    resolve_buffers path snapshot.buffers
      (resolve_entries path snapshot.working_tree.entries (resolve_base path snapshot.base.files))

-- The three maps that `diff` reads.
abbrev pub without_buffers : ComposedSnapshot → FileMap
without_buffers s = materialize_without_buffers (base_file_map s.base.files) s.working_tree

abbrev pub full : ComposedSnapshot → FileMap
full s = materialize_with_buffers (base_file_map s.base.files) s.working_tree s.buffers

unfoldable pub all_paths : FileMap → FileMap → List Text
all_paths left right = keys (extend (extend empty (keys left)) (keys right))

-- One round of the loop of `diff`: the four lists, the path pushed where the round pushes it.
pub record Changes : Type 0 where
  pub changed_paths : List Text
  pub added_paths : List Text
  pub deleted_paths : List Text
  pub buffer_only_changed_paths : List Text

abbrev pub no_changes : Changes
no_changes = record {
  changed_paths = [];
  added_paths = [];
  deleted_paths = [];
  buffer_only_changed_paths = [];
}

abbrev push_if : Bool → Text → List Text → List Text
push_if b path paths = if b then paths ++ path ∷ [] else paths

module _ (left right : ComposedSnapshot) where
  abbrev pub is_changed : Text → Bool
  is_changed path = not (opt_beq (get (full left) path) (get (full right) path))

  abbrev pub is_added : Text → Bool
  is_added path = is_none (get (full left) path)

  abbrev pub is_deleted : Text → Bool
  is_deleted path = not (is_added path) && is_none (get (full right) path)

  abbrev pub is_buffer_only : Text → Bool
  is_buffer_only path = opt_beq (get (without_buffers left) path) (get (without_buffers right) path)

  unfoldable pub diff_step : Changes → Text → Changes
  diff_step c path =
      if is_changed path
      then record {
        changed_paths = c.changed_paths ++ path ∷ [];
        added_paths = push_if (is_added path) path c.added_paths;
        deleted_paths = push_if (is_deleted path) path c.deleted_paths;
        buffer_only_changed_paths = push_if (is_buffer_only path) path c.buffer_only_changed_paths;
      }
      else c

  unfoldable pub diff_loop : Changes → List Text → Changes
  unfolding diff_step
  diff_loop c [] = c
  diff_loop c (path ∷ rest) = diff_loop (diff_step c path) rest

  unfoldable pub diff : SnapshotDiffResponse
  unfolding diff_loop all_paths
  diff =
      let c = diff_loop no_changes (all_paths (full left) (full right)) in
      record {
        left_snapshot_id = left.snapshot_id;
        right_snapshot_id = right.snapshot_id;
        changed_paths = c.changed_paths;
        added_paths = c.added_paths;
        deleted_paths = c.deleted_paths;
        buffer_only_changed_paths = c.buffer_only_changed_paths;
      }

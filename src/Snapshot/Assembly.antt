-- ===== src/Snapshot/Assembly.antt =====
-- crates/hyperindex-snapshot: snapshots as the daemon assembles them, of the overlays that the
-- builders return.
use repo_hyperindex.Base.{
  ◌≡◌, ◌≢◌, ◌↔◌, Bool, true, false, ◌&&◌, List, [], ◌∷◌, ◌++◌, map, arith, any,
}
use repo_hyperindex.Base.Order.{beq, beq_iff}
use repo_hyperindex.Base.Text.{text_ord, Text}
use repo_hyperindex.Base.Dict.{get}
use repo_hyperindex.Base.Distinct.{contains, distinct}
use repo_hyperindex.Errors.{ok, is_ok}
use repo_hyperindex.Git.{GitRepoState}
use repo_hyperindex.Snapshot.{
  BaseSnapshot, WorkingTreeEntry, WorkingTreeOverlay, BufferOverlay, ComposedSnapshot,
}
use repo_hyperindex.Snapshot.Overlays.{FileSystem, build_working_tree_overlay}
use repo_hyperindex.Snapshot.Overlays.Contents.{
  is_upsert, is_delete, has_upsert, has_delete, overlay_exact,
}
use repo_hyperindex.Snapshot.Manifest.{compose, resolve_file, full, diff}
use repo_hyperindex.Snapshot.Manifest.Compose.{compose-ok, compose-IsComposed}
use repo_hyperindex.Snapshot.Manifest.Resolve.{contents_of, resolve_file-full}
use repo_hyperindex.Snapshot.Manifest.Diff.{diff_exact}

has-contains :
    (test : WorkingTreeEntry → Bool) (xs : List WorkingTreeEntry) (path : Text)
    → any (λ e. beq e.path path && test e) xs ≡ true
    → contains (map (λ (e : WorkingTreeEntry). e.path) xs) path ≡ true
has-contains test [] path h = cc
has-contains test (x ∷ xs) path h = ground (arith, has-contains test xs path)

not_distinct :
    (xs : List WorkingTreeEntry) (path : Text)
    → has_upsert xs path ≡ true
    → has_delete xs path ≡ true
    → distinct (map (λ (e : WorkingTreeEntry). e.path) xs) ≡ false
not_distinct [] path u d = cc
not_distinct (x ∷ xs) path u d = ground (
  arith,
  not_distinct xs path,
  has-contains (λ e. is_upsert e.kind) xs path,
  has-contains (λ e. is_delete e.kind) xs path,
  beq_iff x.path path,
)

-- The parts that `compose` is given.
module _ (sha256_hex : Text → Text) (fs : FileSystem) where
  pub record Assembled (git_state : GitRepoState) (s : ComposedSnapshot) : Type 0 where
    pub repo_id : Text
    pub repo_root : Text
    pub base : BaseSnapshot
    pub tree : WorkingTreeOverlay
    pub buffers : List BufferOverlay
    pub built : build_working_tree_overlay sha256_hex fs repo_root git_state ≡ ok tree
    pub composed : compose sha256_hex repo_id repo_root base tree buffers ≡ ok s

  -- A snapshot that is composed of a working tree as git and the file system report it resolves
  -- every path to what the path has in the materialised files.
  pub assembled_resolve :
      (git_state : GitRepoState) (s : ComposedSnapshot) (path : Text)
      → Assembled git_state s
      → contents_of (resolve_file s path) ≡ get (full s) path
  assembled_resolve git_state s path a =
      let (b, t, u, c) =
        compose-IsComposed sha256_hex a.repo_id a.repo_root a.base a.tree a.buffers s a.composed in
      resolve_file-full s path c
        (rw t (overlay_exact sha256_hex fs a.repo_root path git_state a.tree a.built).2)

  -- The changed paths of a difference of two snapshots, each composed of a working tree as git and the
  -- file system report it, are those that resolve differently.
  pub assembled_diff :
      (g h : GitRepoState) (left right : ComposedSnapshot) (path : Text)
      → Assembled g left
      → Assembled h right
      → (contains (diff left right).changed_paths path ≡ true)
        ↔ (contents_of (resolve_file left path) ≢ contents_of (resolve_file right path))
  assembled_diff g h left right path a b =
      rw (assembled_resolve g left path a, assembled_resolve h right path b)
        (diff_exact left right path).0

  -- A path that is in `deleted_files` and also in `dirty_tracked_files` or `untracked_files` makes
  -- `compose` fail for the overlay that is built of that state, whatever base and buffers it has.
  pub deleted_and_present_refused :
      (git_state : GitRepoState) (repo_id repo_root path : Text) (base : BaseSnapshot)
      (tree : WorkingTreeOverlay) (buffers : List BufferOverlay)
      → build_working_tree_overlay sha256_hex fs repo_root git_state ≡ ok tree
      → contains git_state.working_tree.deleted_files path ≡ true
      → contains
          (git_state.working_tree.dirty_tracked_files ++ git_state.working_tree.untracked_files)
          path
        ≡ true
      → is_ok (compose sha256_hex repo_id repo_root base tree buffers) ≡ false
  deleted_and_present_refused git_state repo_id repo_root path base tree buffers h d u =
      let (has_up, has_down, filled, _) =
        overlay_exact sha256_hex fs repo_root path git_state tree h in
      ground (
        arith,
        compose-ok sha256_hex repo_id repo_root base tree buffers,
        not_distinct tree.entries path,
      )

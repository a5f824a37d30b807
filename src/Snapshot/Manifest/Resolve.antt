-- ===== src/Snapshot/Manifest/Resolve.antt =====
-- crates/hyperindex-snapshot/src/manifest.rs and overlays.rs: `resolve_file`, which searches the
-- layers from the top, reads the same contents as the map that is built from the bottom.
use mathlib.Core.Option
use repo_hyperindex.Base.{
  ◌≡◌, refl, false, Option, none, some, List, [], ◌∷◌, map, arith, if◌then◌else◌, find, is_some,
  All,
}
use repo_hyperindex.Base.Order.{beq, beq_iff}
use repo_hyperindex.Base.Text.{text_ord, Text}
use repo_hyperindex.Base.Dict.{empty, insert, get, get-insert, get-remove, get-empty}
use repo_hyperindex.Base.Distinct.{contains, Distinct}
use repo_hyperindex.Snapshot.{
  SnapshotFile, OverlayEntryKind, upsert, delete, WorkingTreeEntry, BufferOverlay, ComposedSnapshot,
}
use repo_hyperindex.Snapshot.Overlays.{
  FileMap, collect_files, base_file_map, apply_entry, apply_working_tree,
  materialize_without_buffers, insert_buffers, materialize_with_buffers,
}
use repo_hyperindex.Snapshot.Overlays.Contents.{is_upsert, IsFilled}
use repo_hyperindex.Snapshot.Manifest.{ResolvedFile, resolve_base, resolve_file, full}
use repo_hyperindex.Snapshot.Manifest.Compose.{IsComposed}

abbrev pub contents_of : Option ResolvedFile → Option Text
contents_of r = Option.map (λ f. f.contents) r

module _ (path : Text) where
  find-none {ℓ} :
      {A : Type ℓ} (f : A → Text) (xs : List A)
      → contains (map f xs) path ≡ false
      → find (λ x. beq (f x) path) xs ≡ none
  find-none f [] h = refl
  find-none f (x ∷ xs) h = ground (arith, find-none f xs)

  get-collect_files :
      (files : FileMap) (xs : List SnapshotFile)
      → Distinct (map (λ (x : SnapshotFile). x.path) xs)
      → get (collect_files files xs) path ≡ elim (find (λ (x : SnapshotFile). beq x.path path) xs) [
        | none ↦ get files path
        | some x ↦ some x.contents
      ]
  unfolding collect_files
  get-collect_files files [] h = refl
  get-collect_files files (x ∷ xs) h = ground (
    arith,
    get-collect_files (insert files x.path x.contents) xs h.1,
    get-insert files x.path path x.contents,
    beq_iff x.path path,
    find-none (λ (y : SnapshotFile). y.path) xs,
  )

  get-insert_buffers :
      (files : FileMap) (xs : List BufferOverlay)
      → Distinct (map (λ (x : BufferOverlay). x.path) xs)
      → get (insert_buffers files xs) path
        ≡ elim (find (λ (x : BufferOverlay). beq x.path path) xs) [
          | none ↦ get files path
          | some x ↦ some x.contents
        ]
  unfolding insert_buffers
  get-insert_buffers files [] h = refl
  get-insert_buffers files (x ∷ xs) h = ground (
    arith,
    get-insert_buffers (insert files x.path x.contents) xs h.1,
    get-insert files x.path path x.contents,
    beq_iff x.path path,
    find-none (λ (y : BufferOverlay). y.path) xs,
  )

  -- One entry of the overlay decides its own path, and leaves the others.
  get-apply_entry :
      (files : FileMap) (e : WorkingTreeEntry)
      → IsFilled e
      → get (apply_entry files e.path e.kind e.contents) path
        ≡ (if beq e.path path then e.contents else get files path)
  get-apply_entry files e h = go e.kind e.contents h
    where
      go :
          (k : OverlayEntryKind) (c : Option Text)
          → is_some c ≡ is_upsert k
          → get (apply_entry files e.path k c) path
            ≡ (if beq e.path path then c else get files path)
      go upsert none h = cc
      go upsert (some t) h = get-insert files e.path path t
      go delete none h = get-remove files e.path path
      go delete (some t) h = cc

  get-apply_working_tree :
      (files : FileMap) (xs : List WorkingTreeEntry)
      → All IsFilled xs
      → Distinct (map (λ (x : WorkingTreeEntry). x.path) xs)
      → get (apply_working_tree files xs) path
        ≡ elim (find (λ (x : WorkingTreeEntry). beq x.path path) xs) [
          | none ↦ get files path
          | some x ↦ x.contents
        ]
  unfolding apply_working_tree
  get-apply_working_tree files [] f h = refl
  get-apply_working_tree files (x ∷ xs) f h = ground (
    arith,
    get-apply_working_tree (apply_entry files x.path x.kind x.contents) xs f.1 h.1,
    get-apply_entry files x f.0,
    beq_iff x.path path,
    find-none (λ (y : WorkingTreeEntry). y.path) xs,
  )

  contents-resolve_base :
      (xs : List SnapshotFile)
      → Distinct (map (λ (x : SnapshotFile). x.path) xs)
      → contents_of (resolve_base path xs) ≡ get (base_file_map xs) path
  unfolding resolve_base base_file_map
  contents-resolve_base xs h =
      ground (arith, get-collect_files empty xs h, get-empty {V = Text} path)

-- Resolving a path of a composed snapshot, buffers before the working tree before the base, reads
-- what the path has in the materialised files, provided that every upsert of the working tree has
-- its contents and no deletion has any; a path resolves to nothing exactly if it has no file there.
pub resolve_file-full :
    (s : ComposedSnapshot) (path : Text)
    → IsComposed s
    → All IsFilled s.working_tree.entries
    → contents_of (resolve_file s path) ≡ get (full s) path
unfolding resolve_file materialize_with_buffers
resolve_file-full s path c f = ground (
  arith,
  get-insert_buffers path (materialize_without_buffers (base_file_map s.base.files) s.working_tree)
      s.buffers c.buffers_distinct,
  get-apply_working_tree path (base_file_map s.base.files) s.working_tree.entries f
      c.entries_distinct,
  contents-resolve_base path s.base.files c.base_distinct,
)

-- ===== src/Snapshot/Manifest/Diff.antt =====
-- crates/hyperindex-snapshot/src/manifest.rs: the four lists of `diff` against the file maps.
use repo_hyperindex.Base.{
  ◌≡◌, ◌≢◌, ◌↔◌, Bool, true, ◌&&◌, ◌||◌, none, List, [], ◌∷◌, ◌++◌, arith, is_some, any-append,
}
use repo_hyperindex.Base.Order.{beq, beq_iff, opt_beq_iff}
use repo_hyperindex.Base.Text.{text_ord, Text}
use repo_hyperindex.Base.Dict.{empty, get, get-empty, keys, keys-get}
use repo_hyperindex.Base.Distinct.{contains, extend, contains-extend}
use repo_hyperindex.Snapshot.{ComposedSnapshot}
use repo_hyperindex.Snapshot.Overlays.{FileMap}
use repo_hyperindex.Snapshot.Manifest.{
  without_buffers, full, all_paths, Changes, is_changed, is_added, is_deleted, is_buffer_only,
  diff_step, diff_loop, no_changes, diff,
}

contains-snoc :
    (xs : List Text) (x path : Text)
    → contains (xs ++ x ∷ []) path ≡ (contains xs path || beq x path)
contains-snoc xs x path = ground (arith, any-append (λ y. beq y path) xs (x ∷ []))

-- `all_paths` lists the paths that have a file on either side.
pub contains-all_paths :
    (left right : FileMap) (path : Text)
    → contains (all_paths left right) path ≡ (is_some (get left path) || is_some (get right path))
unfolding all_paths
contains-all_paths left right path = ground (
  arith,
  keys-get (extend (extend empty (keys left)) (keys right)) path,
  contains-extend (extend empty (keys left)) (keys right) path,
  contains-extend empty (keys left) path,
  get-empty {V = Unit {0}} path,
  keys-get left path,
  keys-get right path,
)

module _ (left right : ComposedSnapshot) (path : Text) where
  abbrev Lists : (Changes → List Text) → (Text → Bool) → Changes → List Text → Type 0
  Lists field test c paths = contains (field (diff_loop left right c paths)) path ≡ (
      contains (field c) path || (contains paths path && (is_changed left right path && test path)))

  loop-changed :
      (c : Changes) (paths : List Text) → Lists (λ d. d.changed_paths) (λ p. true) c paths
  unfolding diff_loop
  loop-changed c [] = ground arith
  loop-changed c (p ∷ paths) = ground (
    arith,
    loop-changed (diff_step left right c p) paths,
    contains-snoc c.changed_paths p path,
    beq_iff p path,
  )

  loop-added :
      (c : Changes) (paths : List Text) → Lists (λ d. d.added_paths) (is_added left right) c paths
  unfolding diff_loop
  loop-added c [] = ground arith
  loop-added c (p ∷ paths) = ground (
    arith,
    loop-added (diff_step left right c p) paths,
    contains-snoc c.added_paths p path,
    beq_iff p path,
  )

  loop-deleted :
      (c : Changes) (paths : List Text)
      → Lists (λ d. d.deleted_paths) (is_deleted left right) c paths
  unfolding diff_loop
  loop-deleted c [] = ground arith
  loop-deleted c (p ∷ paths) = ground (
    arith,
    loop-deleted (diff_step left right c p) paths,
    contains-snoc c.deleted_paths p path,
    beq_iff p path,
  )

  loop-buffer_only :
      (c : Changes) (paths : List Text)
      → Lists (λ d. d.buffer_only_changed_paths) (is_buffer_only left right) c paths
  unfolding diff_loop
  loop-buffer_only c [] = ground arith
  loop-buffer_only c (p ∷ paths) = ground (
    arith,
    loop-buffer_only (diff_step left right c p) paths,
    contains-snoc c.buffer_only_changed_paths p path,
    beq_iff p path,
  )

  -- A path is listed as changed exactly if its contents with buffers differ on the two sides, as
  -- added or deleted exactly if it has a file on the right or left side alone, and as changed by
  -- buffers only exactly if it is changed and has the same contents on both sides without buffers.
  pub diff_exact :
      ((contains (diff left right).changed_paths path ≡ true)
        ↔ (get (full left) path ≢ get (full right) path))
      × ((contains (diff left right).added_paths path ≡ true)
          ↔ ((get (full left) path ≡ none) × (get (full right) path ≢ none)))
      × ((contains (diff left right).deleted_paths path ≡ true)
          ↔ ((get (full left) path ≢ none) × (get (full right) path ≡ none)))
      × ((contains (diff left right).buffer_only_changed_paths path ≡ true) ↔ (
          (get (full left) path ≢ get (full right) path)
          × (get (without_buffers left) path ≡ get (without_buffers right) path)))
  unfolding diff
  diff_exact =
      let paths = all_paths (full left) (full right) in
      let listed = contains-all_paths (full left) (full right) path in
      let same = opt_beq_iff (get (full left) path) (get (full right) path) in
      let below =
        opt_beq_iff (get (without_buffers left) path) (get (without_buffers right) path) in
      (
        ground (arith, loop-changed no_changes paths, listed, same),
        ground (arith, loop-added no_changes paths, listed, same),
        ground (arith, loop-deleted no_changes paths, listed, same),
        ground (arith, loop-buffer_only no_changes paths, listed, same, below),
      )

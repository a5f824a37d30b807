-- ===== src/Snapshot/Manifest/Flip.antt =====
-- crates/hyperindex-snapshot/src/manifest.rs: the order of the lists of `diff`, and the difference
-- taken the other way round.
use repo_hyperindex.Base.{
  ◌≡◌, refl, ap, sym, ◌∙◌, Bool, true, ◌&&◌, Option, List, [], ◌∷◌, ◌++◌, arith, filter, append-nil,
  append_assoc,
}
use repo_hyperindex.Base.Order.{opt_beq, opt_beq_iff}
use repo_hyperindex.Base.Text.{text_ord, Text}
use repo_hyperindex.Base.Dict.{empty, get, keys}
use repo_hyperindex.Base.Distinct.{extend}
use repo_hyperindex.Base.Ascending.{
  IsAscending, IsAscending-filter, ascending_ext, extend-IsOrdered,
}
use repo_hyperindex.Snapshot.{ComposedSnapshot}
use repo_hyperindex.Snapshot.Overlays.{FileMap}
use repo_hyperindex.Snapshot.Manifest.{
  without_buffers, full, all_paths, Changes, is_changed, is_added, is_deleted, is_buffer_only,
  diff_step, diff_loop, no_changes, diff,
}
use repo_hyperindex.Snapshot.Manifest.Diff.{contains-all_paths}

all_paths-IsAscending : (left right : FileMap) → IsAscending (all_paths left right)
unfolding all_paths
all_paths-IsAscending left right =
    extend-IsOrdered (extend empty (keys left)) (keys right) (extend-IsOrdered empty (keys left) tt)

all_paths_comm : (left right : FileMap) → all_paths left right ≡ all_paths right left
all_paths_comm left right =
    ascending_ext (all_paths left right) (all_paths right left) (all_paths-IsAscending left right)
      (all_paths-IsAscending right left)
      (λ k. ground (arith, contains-all_paths left right k, contains-all_paths right left k))

filter_congr :
    (p q : Text → Bool) (xs : List Text) → ((x : Text) → p x ≡ q x) → filter p xs ≡ filter q xs
filter_congr p q [] h = refl
filter_congr p q (x ∷ xs) h = ground (arith, filter_congr p q xs h, h x)

module _ (left right : ComposedSnapshot) where
  abbrev Selected : (Changes → List Text) → (Text → Bool) → Changes → List Text → Type 0
  Selected field test c paths =
      field (diff_loop left right c paths)
      ≡ field c ++ filter (λ p. is_changed left right p && test p) paths

  push : (xs : List Text) (p : Text) (ys : List Text) → (xs ++ p ∷ []) ++ ys ≡ xs ++ (p ∷ ys)
  push xs p ys = append_assoc xs (p ∷ []) ys

  loop-changed :
      (c : Changes) (paths : List Text) → Selected (λ d. d.changed_paths) (λ p. true) c paths
  unfolding diff_loop
  loop-changed c [] = sym (append-nil c.changed_paths)
  loop-changed c (p ∷ paths) = ground (
    arith,
    loop-changed (diff_step left right c p) paths,
    push c.changed_paths p (filter (λ q. is_changed left right q && true) paths),
  )

  loop-added :
      (c : Changes) (paths : List Text)
      → Selected (λ d. d.added_paths) (is_added left right) c paths
  unfolding diff_loop
  loop-added c [] = sym (append-nil c.added_paths)
  loop-added c (p ∷ paths) = ground (
    arith,
    loop-added (diff_step left right c p) paths,
    push c.added_paths p (filter (λ q. is_changed left right q && is_added left right q) paths),
  )

  loop-deleted :
      (c : Changes) (paths : List Text)
      → Selected (λ d. d.deleted_paths) (is_deleted left right) c paths
  unfolding diff_loop
  loop-deleted c [] = sym (append-nil c.deleted_paths)
  loop-deleted c (p ∷ paths) = ground (
    arith,
    loop-deleted (diff_step left right c p) paths,
    push c.deleted_paths p (filter (λ q. is_changed left right q && is_deleted left right q) paths),
  )

  loop-buffer_only :
      (c : Changes) (paths : List Text)
      → Selected (λ d. d.buffer_only_changed_paths) (is_buffer_only left right) c paths
  unfolding diff_loop
  loop-buffer_only c [] = sym (append-nil c.buffer_only_changed_paths)
  loop-buffer_only c (p ∷ paths) = ground (
    arith,
    loop-buffer_only (diff_step left right c p) paths,
    push c.buffer_only_changed_paths p
        (filter (λ q. is_changed left right q && is_buffer_only left right q) paths),
  )

  abbrev paths_of : List Text
  paths_of = all_paths (full left) (full right)

  -- Each list of a difference is in ascending order, with no path twice.
  pub diff-IsAscending :
      IsAscending (diff left right).changed_paths
      × IsAscending (diff left right).added_paths
      × IsAscending (diff left right).deleted_paths
      × IsAscending (diff left right).buffer_only_changed_paths
  unfolding diff
  diff-IsAscending =
      let up = all_paths-IsAscending (full left) (full right) in
      (
        rw (loop-changed no_changes paths_of) (IsAscending-filter _ paths_of up),
        rw (loop-added no_changes paths_of) (IsAscending-filter _ paths_of up),
        rw (loop-deleted no_changes paths_of) (IsAscending-filter _ paths_of up),
        rw (loop-buffer_only no_changes paths_of) (IsAscending-filter _ paths_of up),
      )

opt_beq_comm : (a b : Option Text) → opt_beq a b ≡ opt_beq b a
opt_beq_comm a b = ground (arith, opt_beq_iff a b, opt_beq_iff b a)

module _ (left right : ComposedSnapshot) where
  swapped :
      (p q : Text → Bool)
      → ((x : Text) → p x ≡ q x)
      → filter p (all_paths (full right) (full left))
        ≡ filter q (all_paths (full left) (full right))
  swapped p q h =
      filter_congr p q (all_paths (full right) (full left)) h
      ∙ ap (filter q) (all_paths_comm (full right) (full left))

  -- The difference taken the other way round lists the same changed and buffer-only paths, and its
  -- added paths are the deleted ones and the other way about.
  pub diff_flip :
      ((diff right left).changed_paths ≡ (diff left right).changed_paths)
      × ((diff right left).added_paths ≡ (diff left right).deleted_paths)
      × ((diff right left).deleted_paths ≡ (diff left right).added_paths)
      × ((diff right left).buffer_only_changed_paths ≡ (diff left right).buffer_only_changed_paths)
  unfolding diff
  diff_flip =
      let l = all_paths (full left) (full right) in
      let r = all_paths (full right) (full left) in
      (
        loop-changed right left no_changes r
            ∙ swapped _ _
                (λ x. ground (arith, opt_beq_comm (get (full left) x) (get (full right) x)))
            ∙ sym (loop-changed left right no_changes l),
        loop-added right left no_changes r
            ∙ swapped _ _
                (λ x. ground (arith, opt_beq_comm (get (full left) x) (get (full right) x)))
            ∙ sym (loop-deleted left right no_changes l),
        loop-deleted right left no_changes r
            ∙ swapped _ _
                (λ x. ground (arith, opt_beq_comm (get (full left) x) (get (full right) x)))
            ∙ sym (loop-added left right no_changes l),
        loop-buffer_only right left no_changes r
            ∙ swapped _ _ (λ x. ground (
              arith,
              opt_beq_comm (get (full left) x) (get (full right) x),
              opt_beq_comm (get (without_buffers left) x) (get (without_buffers right) x),
            ))
            ∙ sym (loop-buffer_only left right no_changes l),
      )

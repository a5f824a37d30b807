-- ===== src/Snapshot/Overlays/Inputs.antt =====
-- crates/hyperindex-snapshot/src/overlays.rs: the buffers that `build_buffer_overlays` returns.
use repo_hyperindex.Base.{
  ◌≡◌, refl, false, List, [], ◌∷◌, map, arith, All, Bool-cases, inl, inr, subst, length,
}
use repo_hyperindex.Base.Order.{beq_comm}
use repo_hyperindex.Base.Sort.{sort_by, length-sort_by}
use repo_hyperindex.Base.Text.{text_ord, Text, text, split}
use repo_hyperindex.Base.Dict.{empty, insert, get-insert, contains_key}
use repo_hyperindex.Base.Distinct.{BTreeSet, contains, Distinct}
use repo_hyperindex.Errors.{ok, ok_inj, >>=-eq-ok}
use repo_hyperindex.Paths.{normalize_repo_relative_path}
use repo_hyperindex.Paths.Normal.{IsPart, normalize-IsPart}
use repo_hyperindex.Snapshot.{BufferOverlay, BufferContents}
use repo_hyperindex.Snapshot.Overlays.{buffer_order, buffer_loop, build_buffer_overlays}

abbrev paths_of : List BufferOverlay → List Text
paths_of = map (λ (b : BufferOverlay). b.path)

-- No path is one that the loop has seen.
abbrev Fresh : BTreeSet Text → List Text → Type 0
Fresh seen paths = All (λ p. contains_key seen p ≡ false) paths

Fresh-insert :
    (seen : BTreeSet Text) (p : Text) (paths : List Text)
    → Fresh (insert seen p tt) paths
    → Fresh seen paths × (contains paths p ≡ false)
Fresh-insert seen p [] h = (tt, refl)
Fresh-insert seen p (q ∷ paths) h =
    ground (arith, Fresh-insert seen p paths, get-insert seen p q tt, beq_comm p q)

abbrev IsRelative : BufferOverlay → Type 0
IsRelative b = All IsPart (split b'/' b.path)

buffer_loop-Distinct :
    (seen : BTreeSet Text) (buffers : List BufferContents) (overlays : List BufferOverlay)
    → buffer_loop seen buffers ≡ ok overlays
    → Fresh seen (paths_of overlays)
      × Distinct (paths_of overlays)
      × All IsRelative overlays
      × (length overlays ≡ length buffers)
unfolding buffer_loop
buffer_loop-Distinct seen [] overlays h =
    subst
      (λ os.
        Fresh seen (paths_of os) × Distinct (paths_of os) × All IsRelative os × (length os ≡ 0))
      (ok_inj h) (tt, tt, tt, refl)
buffer_loop-Distinct seen (b ∷ rest) overlays h =
    let (p, hp, k) =
      >>=-eq-ok (normalize_repo_relative_path b.state.path (text "buffer overlay")) _ h in
    elim (Bool-cases (contains_key seen p)) [
      | inl old ↦ cc (rw old at k)
      | inr new ↦
          let (os, hos, e) = >>=-eq-ok (buffer_loop (insert seen p tt) rest) _ (rw new at k) in
          let (fresh, distinct, relative, count) =
            buffer_loop-Distinct (insert seen p tt) rest os hos in
          let (fresh', unseen) = Fresh-insert seen p (paths_of os) fresh in
          subst
            (λ os.
              Fresh seen (paths_of os)
              × Distinct (paths_of os)
              × All IsRelative os
              × (length os ≡ length (b ∷ rest)))
            (ok_inj e)
            (
              (new, fresh'),
              (unseen, distinct),
              (normalize-IsPart b.state.path (text "buffer overlay") p hp, relative),
              ground (arith, count),
            )
    ]

-- The overlays that `build_buffer_overlays` returns, one for each buffer, have repo-relative paths,
-- and no two the same.
pub build_buffer_overlays-Distinct :
    (buffers : List BufferContents) (overlays : List BufferOverlay)
    → build_buffer_overlays buffers ≡ ok overlays
    → Distinct (map (λ (b : BufferOverlay). b.path) overlays)
      × All (λ (b : BufferOverlay). All IsPart (split b'/' b.path)) overlays
      × (length overlays ≡ length buffers)
unfolding build_buffer_overlays
build_buffer_overlays-Distinct buffers overlays h =
    let (fresh, distinct, relative, count) =
      buffer_loop-Distinct empty (sort_by buffer_order buffers) overlays h in
    (distinct, relative, ground (arith, count, length-sort_by buffer_order buffers))

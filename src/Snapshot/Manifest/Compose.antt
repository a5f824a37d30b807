-- ===== src/Snapshot/Manifest/Compose.antt =====
-- crates/hyperindex-snapshot/src/manifest.rs: when `compose` succeeds, and what it returns.
use repo_hyperindex.Base.{◌≡◌, refl, Bool, true, not, ◌&&◌, List, [], ◌∷◌, arith, all}
use repo_hyperindex.Base.Text.{text_ord, Text, text}
use repo_hyperindex.Base.Dict.{empty, insert, get-insert, get-empty, contains_key}
use repo_hyperindex.Base.Distinct.{BTreeSet, contains, distinct, Distinct, Distinct-of}
use repo_hyperindex.Errors.{ok, is_ok}
use repo_hyperindex.Snapshot.{BaseSnapshot, WorkingTreeOverlay, BufferOverlay, ComposedSnapshot}
use repo_hyperindex.Snapshot.Manifest.{
  unique_loop, ensure_unique_paths, base_paths, entry_paths, buffer_paths, validate_snapshot_inputs,
  compose,
}

abbrev all_fresh : BTreeSet Text → List Text → Bool
all_fresh seen paths = all (λ p. not (contains_key seen p)) paths

all_fresh-insert :
    (seen : BTreeSet Text) (q : Text) (paths : List Text)
    → all_fresh (insert seen q tt) paths ≡ (all_fresh seen paths && not (contains paths q))
all_fresh-insert seen q [] = refl
all_fresh-insert seen q (p ∷ paths) = ground (
  arith,
  all_fresh-insert seen q paths,
  get-insert seen q p tt,
  text_ord.cmp_eq q p,
  text_ord.cmp_self q,
  text_ord.cmp_eq p q,
)

unique_loop-distinct :
    (area : Text) (seen : BTreeSet Text) (paths : List Text)
    → is_ok (unique_loop area seen paths) ≡ (all_fresh seen paths && distinct paths)
unfolding unique_loop
unique_loop-distinct area seen [] = refl
unique_loop-distinct area seen (p ∷ paths) =
    ground
      (arith, unique_loop-distinct area (insert seen p tt) paths, all_fresh-insert seen p paths)

all_fresh-empty : (paths : List Text) → all_fresh empty paths ≡ true
all_fresh-empty [] = refl
all_fresh-empty (p ∷ paths) = ground (arith, get-empty {V = Unit {0}} p, all_fresh-empty paths)

-- `ensure_unique_paths` accepts exactly the lists without repetition.
pub ensure_unique_paths-distinct :
    (paths : List Text) (area : Text) → is_ok (ensure_unique_paths paths area) ≡ distinct paths
unfolding ensure_unique_paths
ensure_unique_paths-distinct paths area =
    ground (arith, unique_loop-distinct area empty paths, all_fresh-empty paths)

validate-distinct :
    (base : BaseSnapshot) (tree : WorkingTreeOverlay) (buffers : List BufferOverlay)
    → is_ok (validate_snapshot_inputs base tree buffers) ≡ (
        distinct (base_paths base)
        && distinct (entry_paths tree)
        && distinct (buffer_paths buffers))
unfolding validate_snapshot_inputs
validate-distinct base tree buffers = ground (
  arith,
  ensure_unique_paths-distinct (base_paths base) (text "base"),
  ensure_unique_paths-distinct (entry_paths tree) (text "working_tree"),
  ensure_unique_paths-distinct (buffer_paths buffers) (text "buffers"),
)

-- No layer of the snapshot has two entries for one path.
pub record IsComposed (s : ComposedSnapshot) : Type 0 where
  pub base_distinct : Distinct (base_paths s.base)
  pub entries_distinct : Distinct (entry_paths s.working_tree)
  pub buffers_distinct : Distinct (buffer_paths s.buffers)

module _ (sha256_hex : Text → Text) (repo_id repo_root : Text) (base : BaseSnapshot)
    (tree : WorkingTreeOverlay) (buffers : List BufferOverlay) where
  -- `compose` succeeds exactly if no layer names a path twice.
  pub compose-ok : is_ok (compose sha256_hex repo_id repo_root base tree buffers) ≡ (
      distinct (base_paths base) && distinct (entry_paths tree) && distinct (buffer_paths buffers))
  unfolding compose
  compose-ok = ground (arith, validate-distinct base tree buffers)

  -- What `compose` returns holds its arguments as they are, and no layer of it names a path twice.
  pub compose-IsComposed :
      (s : ComposedSnapshot)
      → compose sha256_hex repo_id repo_root base tree buffers ≡ ok s
      → (s.base ≡ base) × (s.working_tree ≡ tree) × (s.buffers ≡ buffers) × IsComposed s
  unfolding compose
  compose-IsComposed s e =
      let parts : (s.base ≡ base)
          × (s.working_tree ≡ tree)
          × (s.buffers ≡ buffers)
          × (distinct (base_paths base) ≡ true)
          × (distinct (entry_paths tree) ≡ true)
          × (distinct (buffer_paths buffers) ≡ true) =
        ground (arith, validate-distinct base tree buffers) in
      (
        parts.0,
        parts.1,
        parts.2,
        record {
          base_distinct = rw parts.0 (Distinct-of (base_paths base) parts.3);
          entries_distinct = rw parts.1 (Distinct-of (entry_paths tree) parts.4);
          buffers_distinct = rw parts.2 (Distinct-of (buffer_paths buffers) parts.5);
        },
      )

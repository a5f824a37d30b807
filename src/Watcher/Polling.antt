-- ===== src/Watcher/Polling.antt =====
-- crates/hyperindex-watcher/src/watcher.rs: the fingerprints of two polls of the file tree, the raw
-- events that their comparison yields, and the service that feeds them to the stream.
pub mod Split
pub mod Renames
pub mod Events
pub mod Replay
use Prim.Native.Nat.{bit_xor}
use repo_hyperindex.Base.{
  ℕ, ◌*◌, ◌%◌, ◌^◌, compare, ◌≡◌, Bool, true, false, not, Option, none, some, List, [], ◌∷◌, ◌++◌,
  map, Ordering, arith, filter, is_some, is_none,
}
use repo_hyperindex.Base.Order.{Ord, beq, then_with, nat_ord}
use repo_hyperindex.Base.Text.{text_ord, Text}
use repo_hyperindex.Base.Sort.{sort_by, by_key, both}
use repo_hyperindex.Base.Dict.{Dict, empty, get, insert, contains_key}
use repo_hyperindex.Base.Distinct.{BTreeSet}
use repo_hyperindex.Watcher.Stream.{
  RawWatchEvent, RawWatchEventKind, raw_created, raw_modified, raw_removed, raw_renamed, cmp_option,
}

pub record FileFingerprint : Type 0 where
  pub size : ℕ
  pub content_hash : ℕ

-- The derived order: by size, then by hash.
abbrev pub cmp_fingerprint : FileFingerprint → FileFingerprint → Ordering
cmp_fingerprint a b = then_with (compare a.size b.size) (compare a.content_hash b.content_hash)

pub fingerprint_self : (a : FileFingerprint) → cmp_fingerprint a a ≡ Ordering.eq
fingerprint_self a = ground arith

pub fingerprint_eq : (a b : FileFingerprint) → cmp_fingerprint a b ≡ Ordering.eq → a ≡ b
fingerprint_eq a b h = ground arith

pub fingerprint_gt :
    (a b : FileFingerprint) → cmp_fingerprint a b ≡ Ordering.gt → cmp_fingerprint b a ≡ Ordering.lt
fingerprint_gt a b h = ground arith

pub fingerprint_lt :
    (a b : FileFingerprint) → cmp_fingerprint a b ≡ Ordering.lt → cmp_fingerprint b a ≡ Ordering.gt
fingerprint_lt a b h = ground arith

pub fingerprint_chain :
    (a b c : FileFingerprint)
    → cmp_fingerprint a b ≡ Ordering.lt
    → cmp_fingerprint b c ≡ Ordering.lt
    → cmp_fingerprint a c ≡ Ordering.lt
fingerprint_chain a b c h k = ground arith

instance abbrev pub fingerprint_ord : Ord FileFingerprint
fingerprint_ord = record {
  cmp = cmp_fingerprint;
  cmp_self = fingerprint_self;
  cmp_eq = fingerprint_eq;
  cmp_gt = fingerprint_gt;
  cmp_lt = fingerprint_lt;
  cmp_chain = fingerprint_chain;
}

-- `BTreeMap<String, FileFingerprint>`: a poll of the file tree
abbrev pub Poll : Type 0
Poll = Dict Text FileFingerprint

abbrev hash_bytes : ℕ → List ℕ → ℕ
hash_bytes hash [] = hash
hash_bytes hash (byte ∷ bytes) = hash_bytes ((bit_xor hash byte * 0x100000001B3) % 2 ^ 64) bytes

unfoldable pub stable_hash : List ℕ → ℕ
stable_hash bytes = hash_bytes 0xCBF29CE484222325 bytes

abbrev pub Found : Type 0
Found = Text × FileFingerprint

abbrev pub is_modified : Poll → Found → Bool
is_modified previous e = elim (get previous e.0) [
  | none ↦ false
  | some existing ↦ not (beq existing e.1)
]

abbrev pub created_in : Poll → Poll → List Found
created_in previous current = filter (λ e. is_none (get previous e.0)) current.entries

abbrev pub removed_in : Poll → Poll → List Found
removed_in previous current = filter (λ e. not (contains_key current e.0)) previous.entries

abbrev pub modified_in : Poll → Poll → List Text
modified_in previous current = map (λ e. e.0) (filter (is_modified previous) current.entries)

-- `entry(fingerprint).or_default().push(path)`
abbrev pub or_default : Option (List Text) → List Text
or_default none = []
or_default (some paths) = paths

unfoldable pub by_fingerprint :
    Dict FileFingerprint (List Text) → List Found → Dict FileFingerprint (List Text)
by_fingerprint groups [] = groups
by_fingerprint groups ((path, fingerprint) ∷ files) =
    by_fingerprint (insert groups fingerprint (or_default (get groups fingerprint) ++ path ∷ []))
      files

-- `renamed`, `matched_created` and `matched_removed`
pub record Matched : Type 0 where
  pub renamed : List RawWatchEvent
  pub matched_created : BTreeSet Text
  pub matched_removed : BTreeSet Text

abbrev pub nothing_matched : Matched
nothing_matched = record { renamed = []; matched_created = empty; matched_removed = empty }

-- `len() == 1`, and the path then.
abbrev pub only_path : List Text → Option Text
only_path [] = none
only_path (path ∷ []) = some path
only_path (path ∷ more ∷ paths) = none

abbrev pub only_in : Option (List Text) → Option Text
only_in none = none
only_in (some paths) = only_path paths

abbrev pub rename_event : Text → Text → RawWatchEvent
rename_event new_path old_path = record {
  kind = raw_renamed;
  path = new_path;
  previous_path = some old_path;
}

abbrev pub add_match : Matched → Option Text → Option Text → Matched
add_match m (some new_path) (some old_path) = record {
  renamed = m.renamed ++ rename_event new_path old_path ∷ [];
  matched_created = insert m.matched_created new_path tt;
  matched_removed = insert m.matched_removed old_path tt;
}
add_match m (some new_path) none = m
add_match m none old_path = m

unfoldable pub match_renames :
    Dict FileFingerprint (List Text) → Matched → List (FileFingerprint × List Text) → Matched
match_renames removed_by m [] = m
match_renames removed_by m ((fingerprint, created_paths) ∷ groups) =
    match_renames removed_by
      (add_match m (only_path created_paths) (only_in (get removed_by fingerprint))) groups

abbrev pub plain_event : RawWatchEventKind → Text → RawWatchEvent
plain_event kind path = record { kind = kind; path = path; previous_path = none }

-- `filter_map` by a set of matched paths
abbrev pub unmatched : RawWatchEventKind → BTreeSet Text → List Found → List RawWatchEvent
unmatched kind matched files =
    map (λ e. plain_event kind e.0) (filter (λ e. not (contains_key matched e.0)) files)

unfoldable pub raw_kind_rank : RawWatchEventKind → ℕ
raw_kind_rank raw_created = 0
raw_kind_rank raw_modified = 1
raw_kind_rank raw_removed = 2
raw_kind_rank raw_renamed = 3

abbrev pub raw_event_order : RawWatchEvent → RawWatchEvent → Ordering
raw_event_order =
    both (by_key (λ e. e.path)) (
      both (λ a b. cmp_option a.previous_path b.previous_path) (by_key (λ e. raw_kind_rank e.kind)))

abbrev pub sorted_files : List Found → List Found
sorted_files files = sort_by (by_key (λ e. e.0)) files

abbrev pub renames_of : List Found → List Found → Matched
renames_of created removed =
    let created_by = by_fingerprint empty created in
    match_renames (by_fingerprint empty removed) nothing_matched created_by.entries

unfoldable pub diff_snapshots : Poll → Poll → List RawWatchEvent
unfolding by_fingerprint match_renames
diff_snapshots previous current =
    let created = sorted_files (created_in previous current) in
    let removed = sorted_files (removed_in previous current) in
    let modified = sort_by (by_key (λ p. p)) (modified_in previous current) in
    let m = renames_of created removed in
    sort_by raw_event_order (
      m.renamed
      ++ (unmatched raw_created m.matched_created created
          ++ (map (plain_event raw_modified) modified
              ++ unmatched raw_removed m.matched_removed removed)))

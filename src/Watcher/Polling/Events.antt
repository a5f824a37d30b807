-- ===== src/Watcher/Polling/Events.antt =====
-- crates/hyperindex-watcher/src/watcher.rs: the events of `diff_snapshots` against the two polls.
use repo_hyperindex.Base.{
  ◌≡◌, ◌≢◌, ◌↔◌, ◌∙◌, refl, sym, subst, Bool, true, false, not, ◌&&◌, ◌||◌, List, [], ◌∷◌, ◌++◌,
  map, arith, any, any-append, any-map, any-or, any-All, filter, is_some, is_none, All, Bool-cases,
  inl, inr,
}
use repo_hyperindex.Base.Order.{beq, beq_iff, opt_beq, opt_beq_iff}
use repo_hyperindex.Base.Text.{text_ord, Text}
use repo_hyperindex.Base.Sort.{by_key, sort_by, any-sort_by}
use repo_hyperindex.Base.Dict.{get, contains_key}
use repo_hyperindex.Base.Distinct.{BTreeSet}
use repo_hyperindex.Base.Ascending.{IsOrdered}
use repo_hyperindex.Watcher.Stream.{
  RawWatchEvent, RawWatchEventKind, raw_created, raw_modified, raw_removed,
}
use repo_hyperindex.Watcher.Polling.{
  FileFingerprint, fingerprint_ord, Found, Poll, is_modified, created_in, removed_in, modified_in,
  plain_event, unmatched, rename_event, raw_event_order, sorted_files, renames_of, diff_snapshots,
}
use repo_hyperindex.Watcher.Polling.Split.{test_at, any-filter-get}
use repo_hyperindex.Watcher.Polling.Renames.{
  paths_with, IsOnly, is_path, is_previous, is_rename, IsPair, IsMatched, renames_of-IsMatched,
  renames_of-any,
}

-- An event speaks of a path as its own or as the one that it was renamed from.
abbrev pub touches : Text → RawWatchEvent → Bool
touches k e = is_path k e || is_previous k e

abbrev has : Text → Found → Bool
has k e = beq e.0 k

paths_with-has :
    (f : FileFingerprint) (files : List Found) (k : Text)
    → any (λ p. beq p k) (paths_with f files) ≡ true
    → any (has k) files ≡ true
paths_with-has f [] k h = cc
paths_with-has f (e ∷ files) k h = ground (arith, paths_with-has f files k)

IsOnly-has :
    (f : FileFingerprint) (files : List Found) (p : Text)
    → IsOnly f files p
    → any (has p) files ≡ true
IsOnly-has f files p h = paths_with-has f files p (rw h (ground (arith, beq_iff p p)))

paths_with-All :
    (P : Text → FileFingerprint → Type 0) (f : FileFingerprint) (files : List Found)
    → All (λ e. P e.0 e.1) files
    → All (λ p. P p f) (paths_with f files)
paths_with-All P f [] h = tt
paths_with-All P f ((p, g) ∷ files) h = elim (Bool-cases (beq g f)) [
  | inl e ↦ rw e (subst (P p) ((beq_iff g f).0 e) h.0, paths_with-All P f files h.1)
  | inr e ↦ rw e (paths_with-All P f files h.1)
]

pub IsOnly-All :
    (P : Text → FileFingerprint → Type 0) (f : FileFingerprint) (files : List Found) (p : Text)
    → All (λ e. P e.0 e.1) files
    → IsOnly f files p
    → P p f
IsOnly-All P f files p h only = (subst (All (λ q. P q f)) only (paths_with-All P f files h)).0

any-unmatched :
    (kind : RawWatchEventKind) (m : BTreeSet Text) (files : List Found) (k : Text)
    → any (touches k) (unmatched kind m files) ≡ (any (has k) files && not (contains_key m k))
any-unmatched kind m [] k = refl
any-unmatched kind m (e ∷ files) k = ground (arith, any-unmatched kind m files k, beq_iff e.0 k)

any-plain :
    (kind : RawWatchEventKind) (paths : List Text) (k : Text)
    → any (touches k) (map (plain_event kind) paths) ≡ any (λ p. beq p k) paths
any-plain kind [] k = refl
any-plain kind (p ∷ paths) k = ground (arith, any-plain kind paths k)

module _ (created removed : List Found) (k : Text) where
  matched : IsMatched created removed (renames_of created removed)
  matched = renames_of-IsMatched created removed

  matched_created-has :
      any (is_path k) (renames_of created removed).renamed ≡ true → any (has k) created ≡ true
  matched_created-has h =
      let (e, (old, f, _, only, _), at) =
        any-All (IsPair created removed) (is_path k) (renames_of created removed).renamed
          matched.pairs h in
      subst (λ p. any (has p) created ≡ true) ((beq_iff e.path k).0 at)
        (IsOnly-has f created e.path only)

  matched_removed-has :
      any (is_previous k) (renames_of created removed).renamed ≡ true → any (has k) removed ≡ true
  matched_removed-has h =
      let (e, (old, f, is, _, only), at) =
        any-All (IsPair created removed) (is_previous k) (renames_of created removed).renamed
          matched.pairs h in
      subst (λ p. any (has p) removed ≡ true)
        ((beq_iff old k).0 (subst (λ e'. is_previous k e' ≡ true) is at))
        (IsOnly-has f removed old only)

  -- Every created and removed file has its own event or a rename, and no other path has.
  any-events :
      (modified : List Text)
      → any (touches k) (
          (renames_of created removed).renamed
          ++ (unmatched raw_created (renames_of created removed).matched_created created
              ++ (map (plain_event raw_modified) modified
                  ++ unmatched raw_removed (renames_of created removed).matched_removed removed)))
        ≡ (any (has k) created || any (λ p. beq p k) modified || any (has k) removed)
  any-events modified =
      let m = renames_of created removed in
      let front = unmatched raw_created m.matched_created created in
      let middle = map (plain_event raw_modified) modified in
      let back = unmatched raw_removed m.matched_removed removed in
      ground (
        arith,
        any-append (touches k) m.renamed (front ++ (middle ++ back)),
        any-append (touches k) front (middle ++ back),
        any-append (touches k) middle back,
        any-or (is_path k) (is_previous k) m.renamed,
        any-unmatched raw_created m.matched_created created k,
        any-plain raw_modified modified k,
        any-unmatched raw_removed m.matched_removed removed k,
        matched.created_paths k,
        matched.removed_paths k,
        matched_created-has,
        matched_removed-has,
      )

module _ (previous current : Poll) (before : IsOrdered previous) (after : IsOrdered current) where
  created_in-has :
      (k : Text)
      → any (has k) (created_in previous current)
        ≡ (is_none (get previous k) && is_some (get current k))
  created_in-has k =
      ground (arith, any-filter-get (λ p f. is_none (get previous p)) k current after)

  removed_in-has :
      (k : Text)
      → any (has k) (removed_in previous current)
        ≡ (is_some (get previous k) && is_none (get current k))
  removed_in-has k =
      ground (arith, any-filter-get (λ p f. not (contains_key current p)) k previous before)

  modified_in-has :
      (k : Text)
      → any (λ p. beq p k) (modified_in previous current)
        ≡ test_at (λ p f. is_modified previous (p, f)) k (get current k)
  modified_in-has k = ground (
    arith,
    any-map (λ e. e.0) (λ p. beq p k) (filter (is_modified previous) current.entries),
    any-filter-get (λ p f. is_modified previous (p, f)) k current after,
  )

  pub touches-differs :
      (k : Text)
      → any (touches k) (diff_snapshots previous current)
        ≡ not (opt_beq (get previous k) (get current k))
  unfolding diff_snapshots
  touches-differs k =
      let created = sorted_files (created_in previous current) in
      let removed = sorted_files (removed_in previous current) in
      let modified = sort_by (by_key (λ (p : Text). p)) (modified_in previous current) in
      any-sort_by raw_event_order (touches k) _
      ∙ any-events created removed k modified
      ∙ ground (
        arith,
        any-sort_by (by_key (λ (e : Found). e.0)) (has k) (created_in previous current),
        any-sort_by (by_key (λ (e : Found). e.0)) (has k) (removed_in previous current),
        any-sort_by (by_key (λ (p : Text). p)) (λ p. beq p k) (modified_in previous current),
        created_in-has k,
        removed_in-has k,
        modified_in-has k,
      )

  -- For two polls whose maps are in order, a path is spoken of by some event of `diff_snapshots`, as
  -- its own path or as the one it was renamed from, exactly if the polls differ at it.
  pub diff_snapshots-touches :
      (k : Text)
      → (any (touches k) (diff_snapshots previous current) ≡ true)
        ↔ (get previous k ≢ get current k)
  diff_snapshots-touches k =
      ground (arith, touches-differs k, opt_beq_iff (get previous k) (get current k))

unmatched-rename :
    (kind : RawWatchEventKind) (m : BTreeSet Text) (files : List Found) (new old : Text)
    → any (is_rename new old) (unmatched kind m files) ≡ false
unmatched-rename kind m [] new old = refl
unmatched-rename kind m (e ∷ files) new old = ground (arith, unmatched-rename kind m files new old)

plain-rename :
    (kind : RawWatchEventKind) (paths : List Text) (new old : Text)
    → any (is_rename new old) (map (plain_event kind) paths) ≡ false
plain-rename kind [] new old = refl
plain-rename kind (p ∷ paths) new old = ground (arith, plain-rename kind paths new old)

module _ (created removed : List Found) (new old : Text) where
  any-rename :
      (modified : List Text)
      → any (is_rename new old) (
          (renames_of created removed).renamed
          ++ (unmatched raw_created (renames_of created removed).matched_created created
              ++ (map (plain_event raw_modified) modified
                  ++ unmatched raw_removed (renames_of created removed).matched_removed removed)))
        ≡ any (is_rename new old) (renames_of created removed).renamed
  any-rename modified =
      let m = renames_of created removed in
      let front = unmatched raw_created m.matched_created created in
      let middle = map (plain_event raw_modified) modified in
      let back = unmatched raw_removed m.matched_removed removed in
      ground (
        arith,
        any-append (is_rename new old) m.renamed (front ++ (middle ++ back)),
        any-append (is_rename new old) front (middle ++ back),
        any-append (is_rename new old) middle back,
        unmatched-rename raw_created m.matched_created created new old,
        plain-rename raw_modified modified new old,
        unmatched-rename raw_removed m.matched_removed removed new old,
      )

  renamed_pair :
      any (is_rename new old) (renames_of created removed).renamed ≡ true
      → (f : FileFingerprint) × IsOnly f created new × IsOnly f removed old
  renamed_pair h =
      let (e, (from, f, is, here, there), at) =
        any-All (IsPair created removed) (is_rename new old) (renames_of created removed).renamed
          (renames_of-IsMatched created removed).pairs h in
      let both : is_rename new old (rename_event e.path from) ≡ true =
        subst (λ e'. is_rename new old e' ≡ true) is at in
      (
        f,
        subst (IsOnly f created) ((beq_iff e.path new).0 (ground (arith, both))) here,
        subst (IsOnly f removed) ((beq_iff from old).0 (ground (arith, both))) there,
      )

-- A rename from one path to another is reported exactly if, for some fingerprint, the new path is
-- the only file with it among those that only the current poll has, and the old path is the only
-- file with it among those that only the previous poll has; so an ambiguous rename is not reported.
pub diff_snapshots-is_rename :
    (previous current : Poll) (new old : Text)
    → (any (is_rename new old) (diff_snapshots previous current) ≡ true) ↔ (
        (f : FileFingerprint) × (paths_with f (sorted_files (created_in previous current))
          ≡ new ∷ [])
        × (paths_with f (sorted_files (removed_in previous current)) ≡ old ∷ []))
unfolding diff_snapshots
diff_snapshots-is_rename previous current new old =
    let created = sorted_files (created_in previous current) in
    let removed = sorted_files (removed_in previous current) in
    let modified = sort_by (by_key (λ (p : Text). p)) (modified_in previous current) in
    let same =
      any-sort_by raw_event_order (is_rename new old) _
      ∙ any-rename created removed new old modified in
    (
      λ h. renamed_pair created removed new old (sym same ∙ h),
      λ (f, here, there). same ∙ renames_of-any created removed new old f here there,
    )

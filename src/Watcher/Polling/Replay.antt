-- ===== src/Watcher/Polling/Replay.antt =====
-- crates/hyperindex-watcher/src/watcher.rs: what each kind of event says, and what a client that
-- follows the events knows of the files.
use repo_hyperindex.Base.{
  ◌≡◌, ◌≢◌, refl, sym, subst, true, not, none, some, List, [], ◌∷◌, map, arith, any, filter,
  is_none, All, All-append, All-imp, All-map, All-filter, if◌then◌else◌, Option-cases, inl, inr,
}
use repo_hyperindex.Base.Order.{beq, beq_iff, opt_beq_iff}
use repo_hyperindex.Base.Text.{text_ord, Text}
use repo_hyperindex.Base.Sort.{sort_by, by_key, All-sort_by}
use repo_hyperindex.Base.Dict.{get, insert, remove, get-insert, get-remove, contains_key}
use repo_hyperindex.Base.Distinct.{BTreeSet}
use repo_hyperindex.Base.Ascending.{IsOrdered}
use repo_hyperindex.Watcher.Stream.{
  RawWatchEvent, RawWatchEventKind, raw_created, raw_modified, raw_removed, raw_renamed,
}
use repo_hyperindex.Watcher.Polling.{
  FileFingerprint, fingerprint_ord, Found, Poll, is_modified, created_in, removed_in, modified_in,
  plain_event, unmatched, raw_event_order, sorted_files, renames_of, diff_snapshots,
}
use repo_hyperindex.Watcher.Polling.Split.{entries-get}
use repo_hyperindex.Watcher.Polling.Renames.{IsPair, renames_of-IsMatched}
use repo_hyperindex.Watcher.Polling.Events.{touches, IsOnly-All, touches-differs}

module _ (current : Poll) where
  -- A client that keeps its own map of the files. It drops what is removed or renamed away, and
  -- reads the current fingerprint of what is created, modified or renamed.
  abbrev read : Poll → Text → Poll
  read seen path = elim (get current path) [ none ↦ remove seen path | some f ↦ insert seen path f ]

  abbrev follow_as : RawWatchEventKind → Poll → RawWatchEvent → Poll
  follow_as raw_created seen e = read seen e.path
  follow_as raw_modified seen e = read seen e.path
  follow_as raw_removed seen e = remove seen e.path
  follow_as raw_renamed seen e = elim e.previous_path [
    | none ↦ read seen e.path
    | some old ↦ read (remove seen old) e.path
  ]

  abbrev pub follow : Poll → List RawWatchEvent → Poll
  follow seen [] = seen
  follow seen (e ∷ events) = follow (follow_as e.kind seen e) events

  get-read :
      (seen : Poll) (path k : Text)
      → get (read seen path) k ≡ (if beq path k then get current k else get seen k)
  get-read seen path k = elim (Option-cases (get current path)) [
    | inl gone ↦ ground (arith, get-remove seen path k, beq_iff path k)
    | inr (f, at) ↦ ground (arith, get-insert seen path k f, beq_iff path k)
  ]

module _ (previous current : Poll) where
  -- What the two polls must hold for an event to be true of them.
  abbrev pub IsTrueAs : RawWatchEventKind → RawWatchEvent → Type 0
  IsTrueAs raw_created e =
      (e.previous_path ≡ none)
      × (get previous e.path ≡ none)
      × (f : FileFingerprint) × (get current e.path ≡ some f)
  IsTrueAs raw_modified e =
      (e.previous_path ≡ none)
      × (f : FileFingerprint) × (g : FileFingerprint) × (get previous e.path ≡ some f)
      × (get current e.path ≡ some g)
      × (f ≢ g)
  IsTrueAs raw_removed e =
      (e.previous_path ≡ none)
      × (get current e.path ≡ none)
      × (f : FileFingerprint) × (get previous e.path ≡ some f)
  IsTrueAs raw_renamed e =
      (old : Text) × (f : FileFingerprint) × (e.previous_path ≡ some old)
      × (get previous old ≡ some f)
      × (get current old ≡ none)
      × (get previous e.path ≡ none)
      × (get current e.path ≡ some f)

  abbrev pub IsTrue : RawWatchEvent → Type 0
  IsTrue e = IsTrueAs e.kind e

  abbrev IsNew : Text → FileFingerprint → Type 0
  IsNew p f = (get previous p ≡ none) × (get current p ≡ some f)

  abbrev IsGone : Text → FileFingerprint → Type 0
  IsGone p f = (get previous p ≡ some f) × (get current p ≡ none)

  abbrev IsChanged : Text → Type 0
  IsChanged p =
      (f : FileFingerprint) × (g : FileFingerprint) × (get previous p ≡ some f)
      × (get current p ≡ some g)
      × (f ≢ g)

  created_in-IsNew : IsOrdered current → All (λ e. IsNew e.0 e.1) (created_in previous current)
  created_in-IsNew h =
      All-imp (λ e (at, fresh). (ground arith, at)) (created_in previous current)
        (All-filter (λ e. get current e.0 ≡ some e.1) (λ e. is_none (get previous e.0))
          current.entries (entries-get current h))

  removed_in-IsGone : IsOrdered previous → All (λ e. IsGone e.0 e.1) (removed_in previous current)
  removed_in-IsGone h =
      All-imp (λ e (at, lost). (at, ground arith)) (removed_in previous current)
        (All-filter (λ e. get previous e.0 ≡ some e.1) (λ e. not (contains_key current e.0))
          previous.entries (entries-get previous h))

  IsChanged-at :
      (e : Found) → get current e.0 ≡ some e.1 → is_modified previous e ≡ true → IsChanged e.0
  IsChanged-at e at h = elim (Option-cases (get previous e.0)) [
    | inl gone ↦ ground arith
    | inr (f, was) ↦ (f, e.1, was, at, ground (arith, beq_iff f e.1))
  ]

  modified_in-IsChanged : IsOrdered current → All IsChanged (modified_in previous current)
  modified_in-IsChanged h =
      All-map (λ e. e.0) IsChanged (filter (is_modified previous) current.entries)
        (All-imp (λ e (at, differs). IsChanged-at e at differs)
          (filter (is_modified previous) current.entries)
          (All-filter (λ e. get current e.0 ≡ some e.1) (is_modified previous) current.entries
            (entries-get current h)))

  unmatched-All :
      (kind : RawWatchEventKind) (m : BTreeSet Text) (files : List Found)
      → All (λ e. IsTrue (plain_event kind e.0)) files
      → All IsTrue (unmatched kind m files)
  unmatched-All kind m files h =
      All-map (λ e. plain_event kind e.0) IsTrue (filter (λ e. not (contains_key m e.0)) files)
        (All-imp (λ e k. k.0) (filter (λ e. not (contains_key m e.0)) files)
          (All-filter (λ e. IsTrue (plain_event kind e.0)) (λ e. not (contains_key m e.0)) files h))

  pair-IsTrue :
      (created removed : List Found)
      → All (λ e. IsNew e.0 e.1) created
      → All (λ e. IsGone e.0 e.1) removed
      → (e : RawWatchEvent) → IsPair created removed e
      → IsTrue e
  pair-IsTrue created removed h k e (old, f, is, here, there) =
      let (fresh, at) = IsOnly-All IsNew f created e.path h here in
      let (was, gone) = IsOnly-All IsGone f removed old k there in
      subst IsTrue (sym is) (old, f, refl, was, gone, fresh, at)

  -- For two polls whose maps are in order, every event of `diff_snapshots` is true of them: a
  -- created file is only in the current poll, a removed one only in the previous poll, a modified
  -- one is in both with different fingerprints, and a rename leads from a file only in the previous
  -- poll to a file only in the current poll that has the same fingerprint.
  pub diff_snapshots-IsTrue :
      IsOrdered previous → IsOrdered current → All IsTrue (diff_snapshots previous current)
  unfolding diff_snapshots
  diff_snapshots-IsTrue before after =
      let created = sorted_files (created_in previous current) in
      let removed = sorted_files (removed_in previous current) in
      let modified = sort_by (by_key (λ (p : Text). p)) (modified_in previous current) in
      let m = renames_of created removed in
      let new : All (λ e. IsNew e.0 e.1) created =
        All-sort_by (by_key (λ (e : Found). e.0)) (λ e. IsNew e.0 e.1) (created_in previous current)
          (created_in-IsNew after) in
      let gone : All (λ e. IsGone e.0 e.1) removed =
        All-sort_by (by_key (λ (e : Found). e.0)) (λ e. IsGone e.0 e.1)
          (removed_in previous current) (removed_in-IsGone before) in
      let changed : All IsChanged modified =
        All-sort_by (by_key (λ (p : Text). p)) IsChanged (modified_in previous current)
          (modified_in-IsChanged after) in
      All-sort_by raw_event_order IsTrue _ (
        All-append IsTrue m.renamed _
          (All-imp (pair-IsTrue created removed new gone) m.renamed
            (renames_of-IsMatched created removed).pairs)
          (All-append IsTrue (unmatched raw_created m.matched_created created) _
            (unmatched-All raw_created m.matched_created created
              (All-imp (λ e (fresh, at). (refl, fresh, e.1, at)) created new))
            (All-append IsTrue (map (plain_event raw_modified) modified) _
              (All-map (plain_event raw_modified) IsTrue modified (
                All-imp (λ p (f, g, was, at, differs). (refl, f, g, was, at, differs)) modified
                  changed))
              (unmatched-All raw_removed m.matched_removed removed
                (All-imp (λ e (was, lost). (refl, lost, e.1, was)) removed gone)))))

  follow_as-get :
      (kind : RawWatchEventKind) (seen : Poll) (e : RawWatchEvent) (k : Text)
      → IsTrueAs kind e
      → get (follow_as current kind seen e) k ≡ (if touches k e then get current k else get seen k)
  follow_as-get raw_created seen e k h = ground (arith, get-read current seen e.path k, h.0)
  follow_as-get raw_modified seen e k h = ground (arith, get-read current seen e.path k, h.0)
  follow_as-get raw_removed seen e k h =
      ground (arith, get-remove seen e.path k, beq_iff e.path k, h.0, h.1)
  follow_as-get raw_renamed seen e k (old, f, from, was, gone, fresh, at) = ground (
    arith,
    from,
    gone,
    get-read current (remove seen old) e.path k,
    get-remove seen old k,
    beq_iff old k,
  )

  follow-get :
      (seen : Poll) (events : List RawWatchEvent) (k : Text)
      → All IsTrue events
      → get (follow current seen events) k
        ≡ (if any (touches k) events then get current k else get seen k)
  follow-get seen [] k h = refl
  follow-get seen (e ∷ events) k h = ground (
    arith,
    follow-get (follow_as current e.kind seen e) events k h.1,
    follow_as-get e.kind seen e k h.0,
  )

  -- For two polls whose maps are in order, a client that knows the previous poll's files and
  -- follows the events of `diff_snapshots`, looking at no other path, knows the current poll's files.
  pub diff_snapshots_followed :
      (seen : Poll)
      → IsOrdered previous
      → IsOrdered current
      → ((k : Text) → get seen k ≡ get previous k)
      → (k : Text) → get (follow current seen (diff_snapshots previous current)) k ≡ get current k
  diff_snapshots_followed seen before after same k = ground (
    arith,
    same k,
    follow-get seen (diff_snapshots previous current) k (diff_snapshots-IsTrue before after),
    touches-differs previous current before after k,
    opt_beq_iff (get previous k) (get current k),
  )

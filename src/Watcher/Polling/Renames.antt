-- ===== src/Watcher/Polling/Renames.antt =====
-- crates/hyperindex-watcher/src/watcher.rs: the files grouped by fingerprint, and the renames that
-- the groups yield.
use repo_hyperindex.Base.{
  ◌≡◌, refl, sym, Bool, true, false, ◌&&◌, ◌||◌, Option, none, some, List, [], ◌∷◌, ◌++◌, map,
  append_assoc, append-nil, arith, any, any-append, filter, All, All-append, Bool-cases,
  Option-cases, inl, inr,
}
use repo_hyperindex.Base.Order.{beq, beq_iff}
use repo_hyperindex.Base.Text.{text_ord, Text}
use repo_hyperindex.Base.Dict.{Dict, empty, get, insert, get-insert, get-empty, contains_key}
use repo_hyperindex.Base.Ascending.{IsOrdered, insert-IsOrdered}
use repo_hyperindex.Watcher.Stream.{RawWatchEvent}
use repo_hyperindex.Watcher.Stream.{
  RawWatchEventKind, raw_created, raw_modified, raw_removed, raw_renamed,
}
use repo_hyperindex.Watcher.Polling.{
  FileFingerprint, fingerprint_ord, Found, or_default, by_fingerprint, Matched, nothing_matched,
  only_path, only_in, rename_event, add_match, match_renames, renames_of,
}
use repo_hyperindex.Watcher.Polling.Split.{entries-get, any-get}

abbrev Groups : Type 0
Groups = Dict FileFingerprint (List Text)

-- The paths of the files with a fingerprint.
abbrev pub paths_with : FileFingerprint → List Found → List Text
paths_with f files = map (λ e. e.0) (filter (λ e. beq e.1 f) files)

by_fingerprint-get :
    (groups : Groups) (files : List Found) (f : FileFingerprint)
    → or_default (get (by_fingerprint groups files) f)
      ≡ or_default (get groups f) ++ paths_with f files
unfolding by_fingerprint
by_fingerprint-get groups [] f = sym (append-nil (or_default (get groups f)))
by_fingerprint-get groups ((path, g) ∷ files) f =
    let pushed = or_default (get groups g) ++ path ∷ [] in
    elim (Bool-cases (beq g f)) [
      | inl e ↦ ground (
        arith,
        by_fingerprint-get (insert groups g pushed) files f,
        get-insert groups g f pushed,
        beq_iff g f,
        append_assoc (or_default (get groups g)) (path ∷ []) (paths_with f files),
      )
      | inr e ↦
          ground (
            arith,
            by_fingerprint-get (insert groups g pushed) files f,
            get-insert groups g f pushed,
          )
    ]

by_fingerprint-IsOrdered :
    (groups : Groups) (files : List Found)
    → IsOrdered groups
    → IsOrdered (by_fingerprint groups files)
unfolding by_fingerprint
by_fingerprint-IsOrdered groups [] h = h
by_fingerprint-IsOrdered groups ((path, g) ∷ files) h =
    by_fingerprint-IsOrdered (insert groups g (or_default (get groups g) ++ path ∷ [])) files
      (insert-IsOrdered groups g (or_default (get groups g) ++ path ∷ []) h)

only_path-inv : (paths : List Text) (p : Text) → only_path paths ≡ some p → paths ≡ p ∷ []
only_path-inv [] p h = cc
only_path-inv (q ∷ []) p h = ground arith
only_path-inv (q ∷ r ∷ paths) p h = cc

only_in-or_default : (o : Option (List Text)) → only_in o ≡ only_path (or_default o)
only_in-or_default none = refl
only_in-or_default (some paths) = refl

-- The one file with a fingerprint.
abbrev pub IsOnly : FileFingerprint → List Found → Text → Type 0
IsOnly f files path = paths_with f files ≡ path ∷ []

by_fingerprint-only :
    (files : List Found) (f : FileFingerprint)
    → only_in (get (by_fingerprint empty files) f) ≡ only_path (paths_with f files)
by_fingerprint-only files f = ground (
  arith,
  only_in-or_default (get (by_fingerprint empty files) f),
  by_fingerprint-get empty files f,
  get-empty {V = List Text} f,
)

abbrev pub is_path : Text → RawWatchEvent → Bool
is_path k e = beq e.path k

abbrev pub is_previous : Text → RawWatchEvent → Bool
is_previous k e = elim e.previous_path [ none ↦ false | some p ↦ beq p k ]

abbrev is_renamed : RawWatchEventKind → Bool
is_renamed raw_renamed = true
is_renamed raw_created = false
is_renamed raw_modified = false
is_renamed raw_removed = false

-- An event of the kind of a rename, from one path to another.
abbrev pub is_rename : Text → Text → RawWatchEvent → Bool
is_rename new old e = is_renamed e.kind && (is_path new e && is_previous old e)

module _ (created removed : List Found) where
  -- A rename stands for the only two files with their fingerprint.
  abbrev pub IsPair : RawWatchEvent → Type 0
  IsPair e =
      (old : Text) × (f : FileFingerprint) × (e ≡ rename_event e.path old)
      × IsOnly f created e.path
      × IsOnly f removed old

  pub record IsMatched (m : Matched) : Type 0 where
    pub pairs : All IsPair m.renamed
    pub created_paths : (k : Text) → contains_key m.matched_created k ≡ any (is_path k) m.renamed
    pub removed_paths :
        (k : Text) → contains_key m.matched_removed k ≡ any (is_previous k) m.renamed

  add_match-IsMatched :
      (m : Matched) (f : FileFingerprint) (new old : Option Text)
      → ((p : Text) → new ≡ some p → IsOnly f created p)
      → ((p : Text) → old ≡ some p → IsOnly f removed p)
      → IsMatched m
      → IsMatched (add_match m new old)
  add_match-IsMatched m f none old h k w = w
  add_match-IsMatched m f (some p) none h k w = w
  add_match-IsMatched m f (some p) (some q) h k w = record {
    pairs =
        All-append IsPair m.renamed (rename_event p q ∷ []) w.pairs
          ((q, f, refl, h p refl, k q refl), tt);
    created_paths = λ j. ground (
      arith,
      w.created_paths j,
      get-insert m.matched_created p j tt,
      any-append (is_path j) m.renamed (rename_event p q ∷ []),
    );
    removed_paths = λ j. ground (
      arith,
      w.removed_paths j,
      get-insert m.matched_removed q j tt,
      any-append (is_previous j) m.renamed (rename_event p q ∷ []),
    );
  }

  abbrev created_by : Groups
  created_by = by_fingerprint empty created

  abbrev removed_by : Groups
  removed_by = by_fingerprint empty removed

  -- The pair that a group of created files yields.
  abbrev group_pair : Text → Text → FileFingerprint × List Text → Bool
  group_pair new old g =
      any (is_rename new old)
        (add_match nothing_matched (only_path g.1) (only_in (get removed_by g.0))).renamed

  match_renames-IsMatched :
      (m : Matched) (groups : List (FileFingerprint × List Text))
      → All (λ g. get created_by g.0 ≡ some g.1) groups
      → IsMatched m
      → IsMatched (match_renames removed_by m groups)
  unfolding match_renames
  match_renames-IsMatched m [] h w = w
  match_renames-IsMatched m ((f, paths) ∷ groups) h w =
      let m' = add_match m (only_path paths) (only_in (get removed_by f)) in
      match_renames-IsMatched m' groups h.1 (
        add_match-IsMatched m f (only_path paths) (only_in (get removed_by f))
          (λ p e.
            only_path-inv (paths_with f created) p
              (ground (arith, by_fingerprint-only created f, h.0)))
          (λ p e.
            only_path-inv (paths_with f removed) p (ground (arith, by_fingerprint-only removed f)))
          w)

  any-add_match :
      (q : RawWatchEvent → Bool) (m : Matched) (new old : Option Text)
      → any q (add_match m new old).renamed
        ≡ (any q m.renamed || any q (add_match nothing_matched new old).renamed)
  any-add_match q m none old = ground arith
  any-add_match q m (some n) none = ground arith
  any-add_match q m (some n) (some o) = any-append q m.renamed (rename_event n o ∷ [])

  match_renames-any :
      (new old : Text) (m : Matched) (groups : List (FileFingerprint × List Text))
      → any (is_rename new old) (match_renames removed_by m groups).renamed
        ≡ (any (is_rename new old) m.renamed || any (group_pair new old) groups)
  unfolding match_renames
  match_renames-any new old m [] = ground arith
  match_renames-any new old m ((f, paths) ∷ groups) = ground (
    arith,
    match_renames-any new old (add_match m (only_path paths) (only_in (get removed_by f))) groups,
    any-add_match (is_rename new old) m (only_path paths) (only_in (get removed_by f)),
  )

  empty-IsMatched : IsMatched nothing_matched
  empty-IsMatched = record {
    pairs = tt;
    created_paths = λ k. ground (arith, get-empty {V = Unit {0}} k);
    removed_paths = λ k. ground (arith, get-empty {V = Unit {0}} k);
  }

  pub renames_of-IsMatched : IsMatched (renames_of created removed)
  renames_of-IsMatched =
      match_renames-IsMatched nothing_matched created_by.entries
        (entries-get created_by (by_fingerprint-IsOrdered empty created tt)) empty-IsMatched

  group_found :
      (new : Text) (f : FileFingerprint) → IsOnly f created new → get created_by f ≡ some (new ∷ [])
  group_found new f h = elim (Option-cases (get created_by f)) [
    | inl e ↦ ground (arith, by_fingerprint-get empty created f, get-empty {V = List Text} f)
    | inr (paths, e) ↦
        ground (arith, by_fingerprint-get empty created f, get-empty {V = List Text} f)
  ]

  -- Two files that are the only ones with their fingerprint are matched.
  pub renames_of-any :
      (new old : Text) (f : FileFingerprint)
      → IsOnly f created new
      → IsOnly f removed old
      → any (is_rename new old) (renames_of created removed).renamed ≡ true
  renames_of-any new old f h k = ground (
    arith,
    match_renames-any new old nothing_matched created_by.entries,
    any-get (group_pair new old) f (new ∷ []) created_by (group_found new f h)
        (ground (arith, by_fingerprint-only removed f, beq_iff new new, beq_iff old old)),
  )

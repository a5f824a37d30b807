-- ===== src/Watcher/Tree/Visible.antt =====
-- crates/hyperindex-watcher/src/watcher.rs: the files that the walk over the tree finds.
use repo_hyperindex.Base.{
  ◌≡◌, refl, subst, Bool, true, false, not, ◌&&◌, ◌||◌, List, [], ◌∷◌, arith, if◌then◌else◌,
  Bool-cases, inl, inr,
}
use repo_hyperindex.Base.Order.{beq, not_gt}
use repo_hyperindex.Base.Text.{text_ord, Text}
use repo_hyperindex.Base.Sort.{sort_by, insert_by, by_key}
use repo_hyperindex.Base.Dict.{empty, insert, contains_key, get-insert, get-empty}
use repo_hyperindex.Base.Ascending.{IsOrdered, insert-IsOrdered}
use repo_hyperindex.Errors.{HyperindexError, ok, err, is_ok, Result-cases, ok_inj, >>=-eq-ok}
use repo_hyperindex.Watcher.Ignore.{IgnoreMatcher, is_ignored, should_skip_dir}
use repo_hyperindex.Watcher.Polling.{FileFingerprint, Poll}
use repo_hyperindex.Watcher.Tree.{
  Node, directory, Listing, listed, read_dir_failed, dir_entry_failed, file, gone_file, closed_file,
  special, vanished, no_metadata, Entries, no_entries, entry, fingerprint_of, child_path,
  relative_path, Step, run_steps, by_name, visit_entry, visit_dir, entry_steps, collect_snapshot,
}

-- Independent of the walk's order: which paths have a file that is not ignored, in a directory that
-- is not skipped, and whether everything that must be read can be.
module _ (matcher : IgnoreMatcher) where
  unfoldable mutual
    pub has_file : Text → Node → Text → Bool
    has_file path (directory listing) p =
        not (should_skip_dir matcher (relative_path path)) && has_listed path listing p
    has_file path (file bytes) p =
        not (is_ignored matcher (relative_path path)) && beq (relative_path path) p
    has_file path gone_file p = false
    has_file path (closed_file error) p = false
    has_file path special p = false
    has_file path vanished p = false
    has_file path (no_metadata error) p = false

    pub has_listed : Text → Listing → Text → Bool
    has_listed path (listed entries) p = has_entry path entries p
    has_listed path (read_dir_failed error) p = false
    has_listed path (dir_entry_failed error) p = false

    pub has_entry : Text → Entries → Text → Bool
    has_entry path no_entries p = false
    has_entry path (entry name node entries) p =
        has_file (child_path path name) node p || has_entry path entries p

  unfoldable mutual
    pub is_readable : Text → Node → Bool
    is_readable path (directory listing) =
        should_skip_dir matcher (relative_path path) || is_listed path listing
    is_readable path (file bytes) = true
    is_readable path gone_file = true
    is_readable path (closed_file error) = is_ignored matcher (relative_path path)
    is_readable path special = true
    is_readable path vanished = true
    is_readable path (no_metadata error) = false

    pub is_listed : Text → Listing → Bool
    is_listed path (listed entries) = all_readable path entries
    is_listed path (read_dir_failed error) = false
    is_listed path (dir_entry_failed error) = false

    pub all_readable : Text → Entries → Bool
    all_readable path no_entries = true
    all_readable path (entry name node entries) =
        is_readable (child_path path name) node && all_readable path entries

-- A step succeeds exactly if `fine`, and then adds `p` exactly if `found`.
module _ (p : Text) where
  record Adds (step : Step) (found fine : Bool) : Type 0 where
    outcome : (s : Poll) → is_ok (step s) ≡ fine
    added : (s s' : Poll) → step s ≡ ok s' → contains_key s' p ≡ (contains_key s p || found)
    kept : (s s' : Poll) → step s ≡ ok s' → IsOrdered s → IsOrdered s'

  abbrev AllAdd : List (Text × Step) → Bool → Bool → Type 0
  AllAdd [] found fine = (found ≡ false) × (fine ≡ true)
  AllAdd (x ∷ xs) found fine =
      (f : Bool) × (g : Bool) × (f' : Bool) × (g' : Bool) × Adds x.1 f g
      × AllAdd xs f' g'
      × (found ≡ (f || f'))
      × (fine ≡ (g && g'))

  insert_by-AllAdd :
      (x : Text × Step) (xs : List (Text × Step)) (f g f' g' : Bool)
      → Adds x.1 f g
      → AllAdd xs f' g'
      → AllAdd (insert_by (by_key (λ (step : Text × Step). step.0)) x xs) (f || f') (g && g')
  unfolding insert_by
  insert_by-AllAdd x [] f g f' g' a h = (f, g, f', g', a, h, refl, refl)
  insert_by-AllAdd x (y ∷ ys) f g f' g' a h =
      elim (Bool-cases (not_gt (by_key (λ (step : Text × Step). step.0) x y))) [
        | inl first ↦ rw first (f, g, f', g', a, h, refl, refl)
        | inr later ↦
            let (i, j, i', j', b, rest, e, e') = h in
            rw later (
              i,
              j,
              f || i',
              g && j',
              b,
              insert_by-AllAdd x ys f g i' j' a rest,
              ground (arith, e),
              ground (arith, e'),
            )
      ]

  by_name-AllAdd :
      (xs : List (Text × Step)) (found fine : Bool)
      → AllAdd xs found fine
      → AllAdd (by_name xs) found fine
  unfolding sort_by
  by_name-AllAdd [] found fine h = h
  by_name-AllAdd (x ∷ xs) found fine (f, g, f', g', a, rest, e, e') =
      rw (e, e') (insert_by-AllAdd x (by_name xs) f g f' g' a (by_name-AllAdd xs f' g' rest))

  run_steps-Adds :
      (xs : List (Text × Step)) (found fine : Bool)
      → AllAdd xs found fine
      → Adds (run_steps xs) found fine
  run_steps-Adds [] found fine h = record {
    outcome = λ s. ground arith;
    added = λ s s' e. ground (arith, ok_inj e);
    kept = λ s s' e o. subst IsOrdered (ok_inj e) o;
  }
  run_steps-Adds (x ∷ xs) found fine (f, g, f', g', a, rest, e, e') =
      let later = run_steps-Adds xs f' g' rest in
      record {
        outcome = λ s. elim (Result-cases (x.1 s)) [
          | inl (error, fails) ↦ ground (arith, e', fails, a.outcome s)
          | inr (s', passes) ↦ ground (arith, e', passes, a.outcome s, later.outcome s')
        ];
        added = λ s s'' h.
            let (s', first, next) = >>=-eq-ok (x.1 s) (run_steps xs) h in
            ground (arith, e, a.added s s' first, later.added s' s'' next);
        kept = λ s s'' h o.
            let (s', first, next) = >>=-eq-ok (x.1 s) (run_steps xs) h in
            later.kept s' s'' next (a.kept s s' first o);
      }

  stays-Adds : Adds (λ s. ok s) false true
  stays-Adds = record {
    outcome = λ s. refl;
    added = λ s s' e. ground (arith, ok_inj e);
    kept = λ s s' e o. subst IsOrdered (ok_inj e) o;
  }

  fails-Adds : (error : HyperindexError) → Adds (λ s. err error) false false
  fails-Adds error = record { outcome = λ s. refl; added = λ s s' e. cc; kept = λ s s' e o. cc }

  inserts-Adds :
      (path : Text) (f : FileFingerprint) → Adds (λ s. ok (insert s path f)) (beq path p) true
  inserts-Adds path f = record {
    outcome = λ s. refl;
    added = λ s s' e.
        subst (λ s'. contains_key s' p ≡ (contains_key s p || beq path p)) (ok_inj e)
          (ground (arith, get-insert s path p f));
    kept = λ s s' e o. subst IsOrdered (ok_inj e) (insert-IsOrdered s path f o);
  }

  unless-Adds :
      (skip : Bool) (step : Step) (found fine : Bool)
      → Adds step found fine
      → Adds (λ s. if skip then ok s else step s) (not skip && found) (skip || fine)
  unless-Adds true step found fine a = stays-Adds
  unless-Adds false step found fine a = a

  unless_fails-Adds :
      (skip : Bool) (error : HyperindexError)
      → Adds (λ s. if skip then ok s else err error) false skip
  unless_fails-Adds true error = stays-Adds
  unless_fails-Adds false error = fails-Adds error

  unless_inserts-Adds :
      (skip : Bool) (path : Text) (f : FileFingerprint)
      → Adds (λ s. if skip then ok s else ok (insert s path f)) (not skip && beq path p) true
  unless_inserts-Adds true path f = stays-Adds
  unless_inserts-Adds false path f = inserts-Adds path f

  module _ (root : Text) (matcher : IgnoreMatcher) where
    mutual
      unfolding visit_entry entry_steps visit_dir has_file has_listed has_entry is_readable
          is_listed all_readable

      visit_entry-Adds :
          (path : Text) (node : Node)
          → Adds
              (visit_entry root matcher path node)
              (has_file matcher path node p)
              (is_readable matcher path node)
      visit_entry-Adds path (directory listing) =
          unless-Adds (should_skip_dir matcher (relative_path path))
            (visit_dir root matcher path listing) (has_listed matcher path listing p)
            (is_listed matcher path listing) (visit_dir-Adds path listing)
      visit_entry-Adds path (file bytes) =
          unless_inserts-Adds (is_ignored matcher (relative_path path)) (relative_path path)
            (fingerprint_of bytes)
      visit_entry-Adds path gone_file = stays-Adds
      visit_entry-Adds path (closed_file error) =
          unless_fails-Adds (is_ignored matcher (relative_path path)) _
      visit_entry-Adds path special = stays-Adds
      visit_entry-Adds path vanished = stays-Adds
      visit_entry-Adds path (no_metadata error) = fails-Adds _

      visit_dir-Adds :
          (path : Text) (listing : Listing)
          → Adds
              (visit_dir root matcher path listing)
              (has_listed matcher path listing p)
              (is_listed matcher path listing)
      visit_dir-Adds path (listed entries) =
          run_steps-Adds (by_name (entry_steps root matcher path entries))
            (has_entry matcher path entries p) (all_readable matcher path entries)
            (by_name-AllAdd (entry_steps root matcher path entries)
              (has_entry matcher path entries p) (all_readable matcher path entries)
              (entry_steps-AllAdd path entries))
      visit_dir-Adds path (read_dir_failed error) = fails-Adds _
      visit_dir-Adds path (dir_entry_failed error) = fails-Adds _

      entry_steps-AllAdd :
          (path : Text) (entries : Entries)
          → AllAdd
              (entry_steps root matcher path entries)
              (has_entry matcher path entries p)
              (all_readable matcher path entries)
      entry_steps-AllAdd path no_entries = (refl, refl)
      entry_steps-AllAdd path (entry name node entries) = (
        has_file matcher (child_path path name) node p,
        is_readable matcher (child_path path name) node,
        has_entry matcher path entries p,
        all_readable matcher path entries,
        visit_entry-Adds (child_path path name) node,
        entry_steps-AllAdd path entries,
        refl,
        refl,
      )

module _ (root : Text) (matcher : IgnoreMatcher) (repo_root : Listing) where
  -- The walk over a file tree succeeds exactly if the root and each directory in it that is not
  -- skipped can be listed, each file that is not ignored can be read or is gone, and the metadata of
  -- every entry on the way, ignored or not, can be read or the entry is gone. Then a path has a
  -- fingerprint exactly if the tree has a file there that is not ignored, with no skipped directory
  -- above it; in whatever order the entries are listed.
  pub collect_snapshot_exact :
      (is_ok (collect_snapshot root matcher repo_root) ≡ is_listed matcher [] repo_root)
      × ((s : Poll) (p : Text)
          → collect_snapshot root matcher repo_root ≡ ok s
          → contains_key s p ≡ has_listed matcher [] repo_root p)
  unfolding collect_snapshot
  collect_snapshot_exact = (
    (visit_dir-Adds [] root matcher [] repo_root).outcome empty,
    λ s p e. ground (
      arith,
      (visit_dir-Adds p root matcher [] repo_root).added empty s e,
      get-empty {V = FileFingerprint} p,
    ),
  )

  pub collect_snapshot-IsOrdered :
      (s : Poll) → collect_snapshot root matcher repo_root ≡ ok s → IsOrdered s
  unfolding collect_snapshot
  collect_snapshot-IsOrdered s e = (visit_dir-Adds [] root matcher [] repo_root).kept empty s e tt

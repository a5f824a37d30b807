-- ===== src/Snapshot/Overlays/Contents.antt =====
-- crates/hyperindex-snapshot/src/overlays.rs: which entries `build_working_tree_overlay` makes of
-- the lists that git reports.
use repo_hyperindex.Base.{
  ◌≡◌, ap, sym, refl, Bool, true, false, ◌&&◌, ◌||◌, List, [], ◌∷◌, ◌++◌, map, arith, is_some, some,
  none, any, any-append, All, All-append, Bool-cases, inl, inr, ◌⊎◌, subst,
}
use repo_hyperindex.Base.Order.{beq, beq_iff}
use repo_hyperindex.Base.Sort.{sort_by, any-sort_by, All-sort_by}
use repo_hyperindex.Base.Text.{text_ord, Text, len_utf8}
use repo_hyperindex.Base.Dict.{insert, get-insert, get-empty, contains_key}
use repo_hyperindex.Base.Distinct.{contains}
use repo_hyperindex.Errors.{ok, ok_inj, >>=-eq-ok, try_fold}
use repo_hyperindex.Git.{RepoRenamedPath, WorkingTreeSummary, GitRepoState}
use repo_hyperindex.Snapshot.{
  OverlayEntryKind, upsert, delete, WorkingTreeEntry, WorkingTreeOverlay,
}
use repo_hyperindex.Snapshot.Overlays.{
  IoResult, contents, io_error, nothing_built, FileSystem, Building, entry_order, delete_entry,
  push_delete, build_upsert_entry, push_upsert, push_delete_ok, push_rename, collect_entries,
  build_working_tree_overlay,
}

abbrev pub is_upsert : OverlayEntryKind → Bool
is_upsert upsert = true
is_upsert delete = false

abbrev pub is_delete : OverlayEntryKind → Bool
is_delete upsert = false
is_delete delete = true

-- The overlay has an entry of that kind for the path.
abbrev pub has_upsert : List WorkingTreeEntry → Text → Bool
has_upsert entries path = any (λ e. beq e.path path && is_upsert e.kind) entries

abbrev pub has_delete : List WorkingTreeEntry → Text → Bool
has_delete entries path = any (λ e. beq e.path path && is_delete e.kind) entries

-- An upsert carries its contents, and a deletion none.
abbrev pub IsFilled : WorkingTreeEntry → Type 0
IsFilled e = is_some e.contents ≡ is_upsert e.kind

IoResult-cases : (r : IoResult) → ((m : Text) × (r ≡ io_error m)) ⊎ ((t : Text) × (r ≡ contents t))
IoResult-cases (io_error m) = inl (m, refl)
IoResult-cases (contents t) = inr (t, refl)

module _ (sha256_hex : Text → Text) (fs : FileSystem) (repo_root : Text) where
  -- An upsert holds what the file system has at its path, with its digest and its length in bytes,
  -- and a deletion holds nothing.
  abbrev pub IsRead : WorkingTreeEntry → OverlayEntryKind → Type 0
  IsRead e upsert =
      (t : Text) × (fs.read_to_string (fs.absolute repo_root e.path) ≡ contents t)
      × (e.contents ≡ some t)
      × (e.content_sha256 ≡ some (sha256_hex t))
      × (e.content_bytes ≡ some (len_utf8 t))
  IsRead e delete = (e.contents ≡ none) × (e.content_sha256 ≡ none) × (e.content_bytes ≡ none)

module _ (sha256_hex : Text → Text) (fs : FileSystem) (repo_root path : Text) where
  -- The sets of the loops are the paths of the entries so far; each entry holds what was read.
  record Tracks (b : Building) : Type 0 where
    upserts : contains_key b.upsert_paths path ≡ has_upsert b.entries path
    deletes : contains_key b.delete_paths path ≡ has_delete b.entries path
    filled : All IsFilled b.entries
    read : All (λ e. IsRead sha256_hex fs repo_root e e.kind) b.entries

  record Adds (b b' : Building) (up down : Bool) : Type 0 where
    upserts : contains_key b'.upsert_paths path ≡ (contains_key b.upsert_paths path || up)
    deletes : contains_key b'.delete_paths path ≡ (contains_key b.delete_paths path || down)
    tracks : Tracks b'

  build_upsert_entry-eq :
      (p : Text) (e : WorkingTreeEntry)
      → build_upsert_entry sha256_hex fs repo_root p ≡ ok e
      → (e.path ≡ p)
        × (e.kind ≡ upsert)
        × (is_some e.contents ≡ true)
        × IsRead sha256_hex fs repo_root e upsert
  unfolding build_upsert_entry
  build_upsert_entry-eq p e h =
      elim (IoResult-cases (fs.read_to_string (fs.absolute repo_root p))) [
        | inl (error, fails) ↦ absurd (ground (arith, fails, h))
        | inr (t, read) ↦
            subst
              (λ (e : WorkingTreeEntry).
                (e.path ≡ p)
                × (e.kind ≡ upsert)
                × (is_some e.contents ≡ true)
                × IsRead sha256_hex fs repo_root e upsert)
              (ok_inj (rw (read, build_upsert_entry) at h))
              (refl, refl, refl, (t, read, refl, refl, refl))
      ]

  Adds-same :
      (b : Building) (up down : Bool)
      → Tracks b
      → (up ≡ true → contains_key b.upsert_paths path ≡ true)
      → (down ≡ true → contains_key b.delete_paths path ≡ true)
      → Adds b b up down
  Adds-same b up down t h k = record { upserts = ground arith; deletes = ground arith; tracks = t }

  -- An upsert that is pushed.
  abbrev with_upsert : Building → WorkingTreeEntry → Text → Building
  with_upsert b e p = record b {
    entries = b.entries ++ e ∷ [];
    upsert_paths = insert b.upsert_paths p tt;
  }

  with_upsert-Adds :
      (b : Building) (e : WorkingTreeEntry) (p : Text)
      → Tracks b
      → e.path ≡ p
      → e.kind ≡ upsert
      → is_some e.contents ≡ true
      → IsRead sha256_hex fs repo_root e upsert
      → Adds b (with_upsert b e p) (beq p path) false
  with_upsert-Adds b e p t ep ek ec er = record {
    upserts = ground (arith, get-insert b.upsert_paths p path tt);
    deletes = ground arith;
    tracks = record {
      upserts = ground (
        arith,
        t.upserts,
        ek,
        ep,
        get-insert b.upsert_paths p path tt,
        any-append (λ x. beq x.path path && is_upsert x.kind) b.entries (e ∷ []),
      );
      deletes = ground (
        arith,
        t.deletes,
        ek,
        any-append (λ x. beq x.path path && is_delete x.kind) b.entries (e ∷ []),
      );
      filled = All-append IsFilled b.entries (e ∷ []) t.filled (ground arith, tt);
      read =
          All-append (λ e. IsRead sha256_hex fs repo_root e e.kind) b.entries (e ∷ []) t.read
            (subst (IsRead sha256_hex fs repo_root e) (sym ek) er, tt);
    };
  }

  push_upsert-Adds :
      (b b' : Building) (p : Text)
      → Tracks b
      → push_upsert sha256_hex fs repo_root b p ≡ ok b'
      → Adds b b' (beq p path) false
  unfolding push_upsert
  push_upsert-Adds b b' p t h = elim (Bool-cases (contains_key b.upsert_paths p)) [
    | inl old ↦
        subst (λ c. Adds b c (beq p path) false) (ok_inj (rw old at h))
          (Adds-same b (beq p path) false t (λ e. rw (← (beq_iff p path).0 e) old) (λ e. cc))
    | inr new ↦
        let (e, he, k) = >>=-eq-ok (build_upsert_entry sha256_hex fs repo_root p) _ (rw new at h) in
        let (ep, ek, ec, er) = build_upsert_entry-eq p e he in
        subst (λ c. Adds b c (beq p path) false) (ok_inj k) (with_upsert-Adds b e p t ep ek ec er)
  ]

  push_delete-Adds :
      (b : Building) (p : Text) → Tracks b → Adds b (push_delete b p) false (beq p path)
  unfolding push_delete
  push_delete-Adds b p t = elim (Bool-cases (contains_key b.delete_paths p)) [
    | inl old ↦
        rw old (Adds-same b false (beq p path) t (λ e. cc) (λ e. rw (← (beq_iff p path).0 e) old))
    | inr new ↦ rw new (record {
      upserts = ground arith;
      deletes = ground (arith, get-insert b.delete_paths p path tt);
      tracks = record {
        upserts = ground (
          arith,
          t.upserts,
          any-append (λ x. beq x.path path && is_upsert x.kind) b.entries (delete_entry p ∷ []),
        );
        deletes = ground (
          arith,
          t.deletes,
          get-insert b.delete_paths p path tt,
          any-append (λ x. beq x.path path && is_delete x.kind) b.entries (delete_entry p ∷ []),
        );
        filled = All-append IsFilled b.entries (delete_entry p ∷ []) t.filled (refl, tt);
        read =
            All-append (λ e. IsRead sha256_hex fs repo_root e e.kind) b.entries
              (delete_entry p ∷ []) t.read ((refl, refl, refl), tt);
      };
    })
  ]

  Adds-trans :
      (a b c : Building) (u d u' d' : Bool)
      → Adds a b u d
      → Adds b c u' d'
      → Adds a c (u || u') (d || d')
  Adds-trans a b c u d u' d' h k = record {
    upserts = ground (arith, h.upserts, k.upserts);
    deletes = ground (arith, h.deletes, k.deletes);
    tracks = k.tracks;
  }

  upserts-Adds :
      (b b' : Building) (xs : List Text)
      → Tracks b
      → try_fold (push_upsert sha256_hex fs repo_root) b xs ≡ ok b'
      → Adds b b' (contains xs path) false
  upserts-Adds b b' [] t h =
      subst (λ c. Adds b c false false) (ok_inj h) (Adds-same b false false t (λ e. cc) (λ e. cc))
  upserts-Adds b b' (x ∷ xs) t h =
      let (c, hc, k) = >>=-eq-ok (push_upsert sha256_hex fs repo_root b x) _ h in
      let step = push_upsert-Adds b c x t hc in
      Adds-trans b c b' (beq x path) false (contains xs path) false step
        (upserts-Adds c b' xs step.tracks k)

  deletes-Adds :
      (b b' : Building) (xs : List Text)
      → Tracks b
      → try_fold (push_delete_ok sha256_hex fs repo_root) b xs ≡ ok b'
      → Adds b b' false (contains xs path)
  unfolding push_delete_ok
  deletes-Adds b b' [] t h =
      subst (λ c. Adds b c false false) (ok_inj h) (Adds-same b false false t (λ e. cc) (λ e. cc))
  deletes-Adds b b' (x ∷ xs) t h =
      let step = push_delete-Adds b x t in
      Adds-trans b (push_delete b x) b' false (beq x path) false (contains xs path) step
        (deletes-Adds (push_delete b x) b' xs step.tracks h)

  renames-Adds :
      (b b' : Building) (xs : List RepoRenamedPath)
      → Tracks b
      → try_fold (push_rename sha256_hex fs repo_root) b xs ≡ ok b'
      → Adds b b'
          (contains (map (λ (r : RepoRenamedPath). r.to) xs) path)
          (contains (map (λ (r : RepoRenamedPath). r.from) xs) path)
  unfolding push_rename
  renames-Adds b b' [] t h =
      subst (λ c. Adds b c false false) (ok_inj h) (Adds-same b false false t (λ e. cc) (λ e. cc))
  renames-Adds b b' (x ∷ xs) t h =
      let (c, hc, k) =
        >>=-eq-ok (push_upsert sha256_hex fs repo_root (push_delete b x.from) x.to) _ h in
      let down = push_delete-Adds b x.from t in
      let up = push_upsert-Adds (push_delete b x.from) c x.to down.tracks hc in
      let both =
        Adds-trans b (push_delete b x.from) c false (beq x.from path) (beq x.to path) false down
          up in
      let rest = renames-Adds c b' xs up.tracks k in
      record {
        upserts = ground (arith, both.upserts, rest.upserts);
        deletes = ground (arith, both.deletes, rest.deletes);
        tracks = rest.tracks;
      }

  abbrev pub upserted : WorkingTreeSummary → Bool
  upserted tree =
      contains (tree.dirty_tracked_files ++ tree.untracked_files) path
      || contains (map (λ (r : RepoRenamedPath). r.to) tree.renamed_files) path

  abbrev pub deleted : WorkingTreeSummary → Bool
  deleted tree =
      contains tree.deleted_files path
      || contains (map (λ (r : RepoRenamedPath). r.from) tree.renamed_files) path

  nothing_built-Tracks : Tracks nothing_built
  nothing_built-Tracks = record {
    upserts = ground (arith, get-empty {V = Unit {0}} path);
    deletes = ground (arith, get-empty {V = Unit {0}} path);
    filled = tt;
    read = tt;
  }

  collect_entries-Adds :
      (tree : WorkingTreeSummary) (b : Building)
      → collect_entries sha256_hex fs repo_root tree ≡ ok b
      → Adds nothing_built b (upserted tree) (deleted tree)
  unfolding collect_entries
  collect_entries-Adds tree b h =
      let files = tree.dirty_tracked_files ++ tree.untracked_files in
      let (b₁, h₁, k₁) =
        >>=-eq-ok (try_fold (push_upsert sha256_hex fs repo_root) nothing_built files) _ h in
      let (b₂, h₂, k₂) =
        >>=-eq-ok (try_fold (push_delete_ok sha256_hex fs repo_root) b₁ tree.deleted_files) _ k₁ in
      let first = upserts-Adds nothing_built b₁ files nothing_built-Tracks h₁ in
      let second = deletes-Adds b₁ b₂ tree.deleted_files first.tracks h₂ in
      let third = renames-Adds b₂ b tree.renamed_files second.tracks k₂ in
      record {
        upserts = ground (arith, first.upserts, second.upserts, third.upserts);
        deletes = ground (arith, first.deletes, second.deletes, third.deletes);
        tracks = third.tracks;
      }

  -- The overlay has an upsert for exactly the changed and untracked files and the targets of
  -- renames, and a deletion for exactly the deleted files and the sources of renames. Each upsert
  -- holds what the file system has at its path, with the digest and the length of that, and a
  -- deletion holds neither contents nor digest nor length.
  pub overlay_exact :
      (git_state : GitRepoState) (overlay : WorkingTreeOverlay)
      → build_working_tree_overlay sha256_hex fs repo_root git_state ≡ ok overlay
      → (has_upsert overlay.entries path ≡ upserted git_state.working_tree)
        × (has_delete overlay.entries path ≡ deleted git_state.working_tree)
        × All IsFilled overlay.entries
        × All (λ e. IsRead sha256_hex fs repo_root e e.kind) overlay.entries
  unfolding build_working_tree_overlay
  overlay_exact git_state overlay h =
      let (b, hb, k) =
        >>=-eq-ok (collect_entries sha256_hex fs repo_root git_state.working_tree) _ h in
      let adds = collect_entries-Adds git_state.working_tree b hb in
      let sorted : overlay.entries ≡ sort_by entry_order b.entries =
        ap (λ (o : WorkingTreeOverlay). o.entries) (sym (ok_inj k)) in
      rw sorted (
        ground (
          arith,
          adds.upserts,
          adds.tracks.upserts,
          get-empty {V = Unit {0}} path,
          any-sort_by entry_order (λ x. beq x.path path && is_upsert x.kind) b.entries,
        ),
        ground (
          arith,
          adds.deletes,
          adds.tracks.deletes,
          get-empty {V = Unit {0}} path,
          any-sort_by entry_order (λ x. beq x.path path && is_delete x.kind) b.entries,
        ),
        All-sort_by entry_order IsFilled b.entries adds.tracks.filled,
        All-sort_by entry_order (λ e. IsRead sha256_hex fs repo_root e e.kind) b.entries
            adds.tracks.read,
      )

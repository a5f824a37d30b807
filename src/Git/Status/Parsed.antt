-- ===== src/Git/Status/Parsed.antt =====
-- crates/hyperindex-git-state/src/status.rs: what is parsed of git's output, whatever the order of
-- its lines.
use mathlib.Core.Option
use repo_hyperindex.Base.{
  ◌≡◌, refl, ap, subst, Bool, false, not, ◌||◌, Option, none, some, List, [], ◌∷◌, arith, any,
  is_some, Option-cases, inl, inr,
}
use repo_hyperindex.Base.Order.{Ord, beq}
use repo_hyperindex.Base.Distinct.{contains, contains-snoc}
use repo_hyperindex.Base.Ascending.{IsAscending}
use repo_hyperindex.Base.Dedup.{sorted_set, any-sorted_set, sorted_set-IsAscending}
use repo_hyperindex.Base.Text.{text_ord, Text}
use repo_hyperindex.Git.{RepoRenamedPath, rename_ord}
use repo_hyperindex.Git.Status.{
  ParsedWorkingTreeStatus, lines, Change, untracked, ignored, renamed, deleted, dirty, read_line,
  push_change, push_lines, no_changes, sorted_status, parse_porcelain_v1,
}

-- Which change names a path in which role.
abbrev pub is_dirty_path : Text → Change → Bool
is_dirty_path path (dirty p) = beq p path
is_dirty_path path _ = false

abbrev pub is_untracked : Text → Change → Bool
is_untracked path (untracked p) = beq p path
is_untracked path _ = false

abbrev pub is_deleted : Text → Change → Bool
is_deleted path (deleted p) = beq p path
is_deleted path _ = false

abbrev pub is_renamed : RepoRenamedPath → Change → Bool
is_renamed rename (renamed r) = beq r rename
is_renamed rename _ = false

abbrev pub is_ignored : Text → Change → Bool
is_ignored path (ignored p) = beq p path
is_ignored path _ = false

abbrev pub says : (Change → Bool) → Text → Bool
says p line = elim (read_line line) [ none ↦ false | some change ↦ p change ]

abbrev pub panics : Text → Bool
panics line = not (is_some (read_line line))

pub push_lines-is_some :
    (s : ParsedWorkingTreeStatus) (ls : List Text) → is_some (push_lines s ls) ≡ not (any panics ls)
unfolding push_lines
push_lines-is_some s [] = refl
push_lines-is_some s (l ∷ ls) = elim (Option-cases (read_line l)) [
  | inl bad ↦ ground (arith, bad)
  | inr (change, read) ↦ ground (arith, read, push_lines-is_some (push_change s change) ls)
]

abbrev or_else : ParsedWorkingTreeStatus → Option ParsedWorkingTreeStatus → ParsedWorkingTreeStatus
or_else d none = d
or_else d (some s) = s

-- A list of the status holds, in ascending order and without repetition, exactly what lines say.
module _ {ℓ} {K : Type ℓ} ⦃o : Ord K⦄ where
  abbrev pub IsRead : List K → (K → Change → Bool) → Text → Type ℓ
  IsRead xs is_it raw =
      IsAscending xs × ((k : K) → contains xs k ≡ any (says (is_it k)) (lines raw))

module _ {ℓ} {K : Type ℓ} ⦃o : Ord K⦄ (field : ParsedWorkingTreeStatus → List K)
    (is_it : K → Change → Bool)
    (step : (s : ParsedWorkingTreeStatus) (change : Change) (k : K)
      → contains (field (push_change s change)) k ≡ (contains (field s) k || is_it k change)) where
  push_lines-contains :
      (s t : ParsedWorkingTreeStatus) (ls : List Text) (k : K)
      → push_lines s ls ≡ some t
      → contains (field t) k ≡ (contains (field s) k || any (says (is_it k)) ls)
  unfolding push_lines
  push_lines-contains s t [] k h = ground (arith, ap field (ap (λ o. or_else t o) h))
  push_lines-contains s t (l ∷ ls) k h = elim (Option-cases (read_line l)) [
    | inl bad ↦ absurd (ground (arith, bad, h))
    | inr (change, read) ↦
        let onwards : push_lines (push_change s change) ls ≡ some t = ground (arith, read, h) in
        ground
          (arith, read, step s change k, push_lines-contains (push_change s change) t ls k onwards)
  ]

  pushed-IsRead :
      (raw : Text) (pushed : ParsedWorkingTreeStatus)
      → ((k : K) → contains (field no_changes) k ≡ false)
      → push_lines no_changes (lines raw) ≡ some pushed
      → IsRead (sorted_set (field pushed)) is_it raw
  pushed-IsRead raw pushed start h = (
    sorted_set-IsAscending (field pushed),
    λ k. ground (
      arith,
      any-sorted_set (λ x. beq x k) (field pushed),
      start k,
      push_lines-contains no_changes pushed (lines raw) k h,
    ),
  )

-- The five lists of a status against the text.
abbrev pub AreRead : ParsedWorkingTreeStatus → Text → Type 0
AreRead status raw =
    IsRead status.dirty_tracked_files is_dirty_path raw
    × IsRead status.untracked_files is_untracked raw
    × IsRead status.deleted_files is_deleted raw
    × IsRead status.renamed_files is_renamed raw
    × IsRead status.ignored_files is_ignored raw

-- What the order of the lines does not change.
abbrev pub SameLines : Text → Text → Type 0
SameLines a b = (line : Text) → contains (lines a) line ≡ contains (lines b) line

sorted-by :
    (found : Option ParsedWorkingTreeStatus) (status : ParsedWorkingTreeStatus)
    → Option.map sorted_status found ≡ some status
    → (pushed : ParsedWorkingTreeStatus) × (found ≡ some pushed) × (sorted_status pushed ≡ status)
sorted-by none status h = absurd (ground arith)
sorted-by (some pushed) status h = (pushed, refl, ap (λ o. or_else status o) h)

dirty_step :
    (s : ParsedWorkingTreeStatus) (change : Change) (k : Text)
    → contains (push_change s change).dirty_tracked_files k
      ≡ (contains s.dirty_tracked_files k || is_dirty_path k change)
dirty_step s (dirty p) k = contains-snoc s.dirty_tracked_files p k
dirty_step s _ k = ground arith

untracked_step :
    (s : ParsedWorkingTreeStatus) (change : Change) (k : Text)
    → contains (push_change s change).untracked_files k
      ≡ (contains s.untracked_files k || is_untracked k change)
untracked_step s (untracked p) k = contains-snoc s.untracked_files p k
untracked_step s _ k = ground arith

deleted_step :
    (s : ParsedWorkingTreeStatus) (change : Change) (k : Text)
    → contains (push_change s change).deleted_files k
      ≡ (contains s.deleted_files k || is_deleted k change)
deleted_step s (deleted p) k = contains-snoc s.deleted_files p k
deleted_step s _ k = ground arith

renamed_step :
    (s : ParsedWorkingTreeStatus) (change : Change) (k : RepoRenamedPath)
    → contains (push_change s change).renamed_files k
      ≡ (contains s.renamed_files k || is_renamed k change)
renamed_step s (renamed p) k = contains-snoc s.renamed_files p k
renamed_step s _ k = ground arith

ignored_step :
    (s : ParsedWorkingTreeStatus) (change : Change) (k : Text)
    → contains (push_change s change).ignored_files k
      ≡ (contains s.ignored_files k || is_ignored k change)
ignored_step s (ignored p) k = contains-snoc s.ignored_files p k
ignored_step s _ k = ground arith

pushed-AreRead :
    (raw : Text) (pushed : ParsedWorkingTreeStatus)
    → push_lines no_changes (lines raw) ≡ some pushed
    → AreRead (sorted_status pushed) raw
pushed-AreRead raw p h = (
  pushed-IsRead (λ s. s.dirty_tracked_files) is_dirty_path dirty_step raw p (λ k. refl) h,
  pushed-IsRead (λ s. s.untracked_files) is_untracked untracked_step raw p (λ k. refl) h,
  pushed-IsRead (λ s. s.deleted_files) is_deleted deleted_step raw p (λ k. refl) h,
  pushed-IsRead (λ s. s.renamed_files) is_renamed renamed_step raw p (λ k. refl) h,
  pushed-IsRead (λ s. s.ignored_files) is_ignored ignored_step raw p (λ k. refl) h,
)

-- If git's output can be read at all, each of the five lists of the status holds exactly the paths
-- that some line names in that role, in strictly ascending order and so without repetition.
pub parse_porcelain_exact :
    (raw : Text) (status : ParsedWorkingTreeStatus)
    → parse_porcelain_v1 raw ≡ some status
    → AreRead status raw
unfolding parse_porcelain_v1
parse_porcelain_exact raw status h =
    let (pushed, done, same) = sorted-by (push_lines no_changes (lines raw)) status h in
    subst (λ t. AreRead t raw) same (pushed-AreRead raw pushed done)

-- ===== src/Git/Status/Order.antt =====
-- crates/hyperindex-git-state/src/status.rs: the order of git's lines does not matter, and what can
-- be read.
use mathlib.Core.Option
use repo_hyperindex.Base.{
  ◌≡◌, ◌∙◌, sym, refl, ap, Bool, true, false, not, Option, none, some, List, [], ◌∷◌, arith, any,
  All, is_some, Option-cases, inl, inr,
}
use repo_hyperindex.Base.Order.{Ord}
use repo_hyperindex.Base.Ascending.{ascending_ext}
use repo_hyperindex.Base.Dedup.{any-same}
use repo_hyperindex.Base.Text.{text_ord, Text}
use repo_hyperindex.Git.{rename_ord}
use repo_hyperindex.Git.Status.{
  ParsedWorkingTreeStatus, lines, Change, push_lines, no_changes, parse_porcelain_v1,
}
use repo_hyperindex.Git.Status.Roles.{
  is_plain, AreNamed, names_untracked, names_ignored, names_renamed, names_deleted, names_dirty,
}
use repo_hyperindex.Git.Status.Told.{
  read_line-plain, IsRead-AreNamed, says-names_untracked, says-names_ignored, says-names_renamed,
  says-names_deleted, says-names_dirty,
}
use repo_hyperindex.Git.Status.Parsed.{
  says, panics, push_lines-is_some, IsRead, AreRead, SameLines, parse_porcelain_exact,
}

abbrev map_is_some :
    (f : ParsedWorkingTreeStatus → ParsedWorkingTreeStatus) (o : Option ParsedWorkingTreeStatus)
    → is_some (Option.map f o) ≡ is_some o
map_is_some f none = refl
map_is_some f (some s) = refl

-- `parse_porcelain_v1` panics exactly if some line does.
parse-is_some : (raw : Text) → is_some (parse_porcelain_v1 raw) ≡ not (any panics (lines raw))
unfolding parse_porcelain_v1
parse-is_some raw =
    map_is_some _ (push_lines no_changes (lines raw)) ∙ push_lines-is_some no_changes (lines raw)

option_ext {ℓ} :
    {A : Type ℓ} (x y : Option A)
    → is_some x ≡ is_some y
    → ((s t : A) → x ≡ some s → y ≡ some t → s ≡ t)
    → x ≡ y
option_ext none none h e = refl
option_ext none (some t) h e = absurd (ground arith)
option_ext (some s) none h e = absurd (ground arith)
option_ext (some s) (some t) h e = ap some (e s t refl refl)

module _ {ℓ} {K : Type ℓ} ⦃o : Ord K⦄ where
  IsRead-same :
      (xs ys : List K) (is_it : K → Change → Bool) (a b : Text)
      → SameLines a b
      → IsRead xs is_it a
      → IsRead ys is_it b
      → xs ≡ ys
  IsRead-same xs ys is_it a b same (up, holds) (up', holds') =
      ascending_ext xs ys up up'
        (λ k. holds k ∙ any-same (says (is_it k)) (lines a) (lines b) same ∙ sym (holds' k))

AreRead-same :
    (s t : ParsedWorkingTreeStatus) (a b : Text) → SameLines a b → AreRead s a → AreRead t b → s ≡ t
AreRead-same s t a b same (d, u, x, r, i) (d', u', x', r', i') =
    let dirty = IsRead-same _ _ _ a b same d d' in
    let untracked = IsRead-same _ _ _ a b same u u' in
    let deleted = IsRead-same _ _ _ a b same x x' in
    let renamed = IsRead-same _ _ _ a b same r r' in
    let ignored = IsRead-same _ _ _ a b same i i' in
    ground (arith, dirty, untracked, deleted, renamed, ignored)

-- Two outputs of git that consist of the same lines, in whatever order and however often, are
-- parsed to the same status, or both not at all; so they have one summary and one digest.
pub parse_porcelain-same :
    (a b : Text) → SameLines a b → parse_porcelain_v1 a ≡ parse_porcelain_v1 b
parse_porcelain-same a b same =
    option_ext (parse_porcelain_v1 a) (parse_porcelain_v1 b)
      (ground (arith, parse-is_some a, parse-is_some b, any-same panics (lines a) (lines b) same))
      (λ s t h k.
        AreRead-same s t a b same (parse_porcelain_exact a s h) (parse_porcelain_exact b t k))

plain-any : (ls : List Text) → All (λ l. is_plain l ≡ true) ls → any panics ls ≡ false
plain-any [] h = refl
plain-any (l ∷ ls) h = ground (arith, read_line-plain l h.0, plain-any ls h.1)

-- If every line begins with three ASCII characters, as git's do, the output is parsed, and each of
-- the five lists of the status holds, in strictly ascending order and so without repetition, exactly
-- the paths that some line names in that role: behind `??`, behind `!!`, on both sides of the arrow
-- behind a code with `R`, else behind a code with `D`, and else behind any code but two blanks. A
-- path is taken without its outer quotes and with slashes for backslashes; git's escapes in it are
-- not undone.
pub parse_porcelain_read :
    (raw : Text)
    → All (λ line. is_plain line ≡ true) (lines raw)
    → (status : ParsedWorkingTreeStatus) × (parse_porcelain_v1 raw ≡ some status)
      × AreNamed status.untracked_files names_untracked raw
      × AreNamed status.ignored_files names_ignored raw
      × AreNamed status.renamed_files names_renamed raw
      × AreNamed status.deleted_files names_deleted raw
      × AreNamed status.dirty_tracked_files names_dirty raw
parse_porcelain_read raw plain = elim (Option-cases (parse_porcelain_v1 raw)) [
  | inl bad ↦ absurd (ground (arith, bad, parse-is_some raw, plain-any (lines raw) plain))
  | inr (status, parsed) ↦
      let (d, u, x, r, i) = parse_porcelain_exact raw status parsed in
      (
        status,
        parsed,
        IsRead-AreNamed _ _ _ raw says-names_untracked plain u,
        IsRead-AreNamed _ _ _ raw says-names_ignored plain i,
        IsRead-AreNamed _ _ _ raw says-names_renamed plain r,
        IsRead-AreNamed _ _ _ raw says-names_deleted plain x,
        IsRead-AreNamed _ _ _ raw says-names_dirty plain d,
      )
]

-- ===== src/Git.antt =====
-- crates/hyperindex-protocol/src/repo.rs and crates/hyperindex-git-state: what the git inspector
-- reports of a working tree.
pub mod Status
use repo_hyperindex.Base.{Option, List, ◌≡◌, ap₂}
use repo_hyperindex.Base.Order.{Ord}
use repo_hyperindex.Base.Fields.{fields_ord}
use repo_hyperindex.Base.Text.{text_ord, Text}

pub record RepoRenamedPath : Type 0 where
  pub from : Text
  pub to : Text

pub rename_ext : (a b : RepoRenamedPath) → a.from ≡ b.from → a.to ≡ b.to → a ≡ b
rename_ext a b e f = ap₂ (λ x y. record { from = x; to = y }) e f

instance abbrev pub rename_ord : Ord RepoRenamedPath
rename_ord = fields_ord (λ r. r.from) (λ r. r.to) rename_ext

pub record WorkingTreeSummary : Type 0 where
  pub dirty_tracked_files : List Text
  pub untracked_files : List Text
  pub deleted_files : List Text
  pub renamed_files : List RepoRenamedPath
  pub ignored_files : List Text
  pub digest : Text

pub record GitRepoState : Type 0 where
  pub repo_root : Text
  pub branch : Option Text
  pub head_commit : Option Text
  pub working_tree : WorkingTreeSummary
  pub warnings : List Text

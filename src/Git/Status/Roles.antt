-- ===== src/Git/Status/Roles.antt =====
-- crates/hyperindex-git-state/src/status.rs: which line names which path in which role, told by the
-- marks of the line.
use repo_hyperindex.Base.{ℕ, ◌≡◌, Bool, true, not, ◌&&◌, List, [], ◌∷◌, ltb, leb, ◌==◌, any}
use repo_hyperindex.Base.Order.{Ord, beq}
use repo_hyperindex.Base.Distinct.{contains}
use repo_hyperindex.Base.Ascending.{IsAscending}
use repo_hyperindex.Base.Text.{
  text_ord, Text, text, len_utf8, trim_start, trim, starts_with, has_text,
}
use repo_hyperindex.Git.{RepoRenamedPath, rename_ord}
use repo_hyperindex.Git.Status.{lines, splitn_2, normalize_git_path, is_empty}

-- The first three characters of a line are ASCII, as git's are.
abbrev pub is_plain : Text → Bool
is_plain [] = true
is_plain (c ∷ []) = ltb c 0x80
is_plain (c ∷ d ∷ []) = ltb c 0x80 && ltb d 0x80
is_plain (c ∷ d ∷ e ∷ rest) = ltb c 0x80 && ltb d 0x80 && ltb e 0x80

abbrev pub is_blank : Text → Bool
is_blank t = is_empty (trim t)

-- The two letters before a path, and the text behind them and a separator.
abbrev pub code_of : Text → Text
code_of [] = []
code_of (c ∷ []) = c ∷ []
code_of (c ∷ d ∷ rest) = c ∷ d ∷ []

abbrev pub behind : Text → Text
behind [] = []
behind (c ∷ []) = []
behind (c ∷ d ∷ []) = []
behind (c ∷ d ∷ e ∷ rest) = rest

-- A line for a file that git tracks.
abbrev pub is_tracked : Text → Bool
is_tracked line =
    not (is_blank line)
    && not (starts_with (text "?? ") line)
    && not (starts_with (text "!! ") line)
    && leb 4 (len_utf8 line)

abbrev pub has_letter : ℕ → Text → Bool
has_letter letter line = any (λ c. c == letter) (code_of line)

abbrev pub is_move : Text → Bool
is_move line = has_letter b'R' line && has_text (text " -> ") (trim_start (behind line))

abbrev pub move_of : Text → RepoRenamedPath
move_of line =
    let parts = splitn_2 (text " -> ") (trim_start (behind line)) in
    record { from = normalize_git_path parts.0; to = normalize_git_path parts.1 }

abbrev pub path_of : Text → Text
path_of line = normalize_git_path (trim_start (behind line))

abbrev pub names_untracked : Text → Text → Bool
names_untracked path line =
    not (is_blank line)
    && starts_with (text "?? ") line
    && beq (normalize_git_path (behind line)) path

abbrev pub names_ignored : Text → Text → Bool
names_ignored path line =
    not (is_blank line)
    && starts_with (text "!! ") line
    && beq (normalize_git_path (behind line)) path

abbrev pub names_renamed : RepoRenamedPath → Text → Bool
names_renamed move line = is_tracked line && is_move line && beq (move_of line) move

abbrev pub names_deleted : Text → Text → Bool
names_deleted path line =
    is_tracked line && not (is_move line) && has_letter b'D' line && beq (path_of line) path

abbrev pub names_dirty : Text → Text → Bool
names_dirty path line =
    is_tracked line
    && not (is_move line)
    && not (has_letter b'D' line)
    && not (is_blank (code_of line))
    && beq (path_of line) path

-- A list of the status holds, in ascending order and without repetition, exactly what lines name.
module _ {ℓ} {K : Type ℓ} ⦃o : Ord K⦄ where
  abbrev pub AreNamed : List K → (K → Text → Bool) → Text → Type ℓ
  AreNamed xs names raw = IsAscending xs × ((k : K) → contains xs k ≡ any (names k) (lines raw))

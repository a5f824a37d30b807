-- ===== src/Paths.antt =====
-- crates/hyperindex-core/src/paths.rs: `normalize_repo_relative_path`, with the part of
-- `std::path::Path::components` (on Unix) that it consults.
pub mod Normal
use repo_hyperindex.Base.{
  ℕ, Bool, true, false, ◌||◌, ◌&&◌, Option, none, some, List, [], ◌∷◌, ◌++◌, ◌==◌, if◌then◌else◌,
}
use repo_hyperindex.Base.Order.{beq}
use repo_hyperindex.Base.Text.{text_ord, Text, text, trim, split, join}
use repo_hyperindex.Errors.{Result, ok, err, message, ◌>>=◌}

-- `std::path::Component`; a Unix path has no `Prefix`.
pub data Component : Type 0 where
  root_dir cur_dir parent_dir : Component
  normal : Text → Component

-- What a piece between separators stands for. Empty pieces and inner dots are skipped.
unfoldable pub component_of : Text → List Component → List Component
component_of w rest =
    if beq w (text "") || beq w (text ".")
    then rest
    else if beq w (text "..")
    then parent_dir ∷ rest
    else normal w ∷ rest

unfoldable pub body_components : List Text → List Component
unfolding component_of
body_components [] = []
body_components (w ∷ ws) = component_of w (body_components ws)

abbrev pub leading_components : List Text → List Component
leading_components [] = []
leading_components (w ∷ ws) =
    if beq w (text ".") then cur_dir ∷ body_components ws else body_components (w ∷ ws)

abbrev pub is_absolute : Text → Bool
is_absolute [] = false
is_absolute (c ∷ cs) = c == b'/'

-- `Path::components`
unfoldable pub components : Text → List Component
components t =
    if is_absolute t
    then root_dir ∷ body_components (split b'/' t)
    else leading_components (split b'/' t)

module _ (subject trimmed : Text) where
  abbrev pub empty_path : Result (List Text)
  empty_path =
      err (message (subject ++ text " path is empty; use a repo-relative path such as src/app.ts"))

  abbrev pub not_relative : Result (List Text)
  not_relative = err (
      message (
        subject
        ++ (text " path must be repo-relative: "
            ++ (trimmed ++ text "; use a path like src/app.ts"))))

  abbrev pub escapes_root : Result (List Text)
  escapes_root = err (
      message (
        subject
        ++ (text " path cannot escape the repo root: "
            ++ (trimmed ++ text "; clear or replace the overlay with a repo-relative path"))))

  -- The loop over the components.
  unfoldable pub normal_parts : List Component → Result (List Text)
  normal_parts [] = ok []
  normal_parts (normal part ∷ rest) = do parts ← normal_parts rest; ok (part ∷ parts)
  normal_parts (cur_dir ∷ rest) = normal_parts rest
  normal_parts (parent_dir ∷ rest) = escapes_root
  normal_parts (root_dir ∷ rest) = not_relative

abbrev pub is_empty : Text → Bool
is_empty [] = true
is_empty (c ∷ cs) = false

abbrev pub joined : Text → List Text → Result Text
joined subject [] =
    err (message (subject ++ text " path is empty; use a repo-relative path such as src/app.ts"))
joined subject (part ∷ parts) = ok (join (text "/") (part ∷ parts))

unfoldable pub normalize_repo_relative_path : Text → Text → Result Text
normalize_repo_relative_path path subject =
    let trimmed = trim path in
    if is_empty trimmed
    then (do parts ← empty_path subject trimmed; joined subject parts)
    else if is_absolute trimmed
    then (do parts ← not_relative subject trimmed; joined subject parts)
    else (do parts ← normal_parts subject trimmed (components trimmed); joined subject parts)

-- ===== src/Tests/Paths.antt =====
-- crates/hyperindex-core/src/paths.rs at concrete paths.
use repo_hyperindex.Base.{◌≡◌, ◌↔◌, refl, false}
use repo_hyperindex.Base.Text.{Text, text, trim, join, split}
use repo_hyperindex.Errors.{ok}
use repo_hyperindex.Paths.{normalize_repo_relative_path}
use repo_hyperindex.Paths.Normal.{is_refused, kept_pieces, normalize-ok}

abbrev dotted : Text
dotted = text " ./src//app.ts "

abbrev plain : Text
plain = text "src/app.ts"

abbrev subject : Text
subject = text "buffer overlay"

normalized : normalize_repo_relative_path dotted subject ≡ ok plain
unfolding normalize_repo_relative_path trim repo_hyperindex.Paths.normal_parts
    repo_hyperindex.Paths.components split repo_hyperindex.Paths.body_components join
normalized = refl

normalize-ok_example :
    (normalize_repo_relative_path dotted subject ≡ ok plain)
    ↔ ((is_refused (trim dotted) ≡ false) × (plain ≡ join (text "/") (kept_pieces (trim dotted))))
normalize-ok_example = normalize-ok dotted subject plain

-- ===== src/Tests/Ignore.antt =====
-- crates/hyperindex-watcher/src/ignore.rs at concrete patterns.
use repo_hyperindex.Base.{◌≡◌, refl, true, false, some, List, [], ◌∷◌, is_some}
use repo_hyperindex.Base.Text.{Text, text, as_bytes}
use repo_hyperindex.Watcher.Ignore.{new, is_ignored, wildcard_matches, wildcard_bytes}
use repo_hyperindex.Watcher.Ignore.Glob.{glob}
use repo_hyperindex.Watcher.Ignore.Exact.{wildcard_bytes_exact}
use repo_hyperindex.Watcher.Ignore.Sound.{Matches, wildcard_bytes-star}

accepted : wildcard_matches (text "*.l?g") (text "a.b.log") ≡ true
unfolding wildcard_matches as_bytes
accepted = refl

ignored : is_ignored (new (text "ignored\\**" ∷ [])) (text "ignored/example.txt") ≡ true
unfolding is_ignored new wildcard_matches repo_hyperindex.Base.Text.split
    repo_hyperindex.Base.Text.starts_with repo_hyperindex.Base.Text.ends_with as_bytes
ignored = refl

kept : is_ignored (new (text "*.log" ∷ [])) (text "src/app.ts") ≡ false
unfolding is_ignored new wildcard_matches repo_hyperindex.Base.Text.split
    repo_hyperindex.Base.Text.starts_with repo_hyperindex.Base.Text.ends_with as_bytes
kept = refl

wildcard_bytes-star_example :
    Matches (text "*") (text "*a") × (wildcard_bytes (text "*") (text "*a") ≡ some false)
wildcard_bytes-star_example = wildcard_bytes-star b'a' []

wildcard_bytes_exact_example :
    wildcard_bytes (text "*ab?") (text "aabab.") ≡ some (glob (text "*ab?") (text "aabab."))
wildcard_bytes_exact_example = wildcard_bytes_exact (text "*ab?") (text "aabab.") refl

backtracks : glob (text "*ab?") (text "aabab.") ≡ true
unfolding glob
backtracks = refl

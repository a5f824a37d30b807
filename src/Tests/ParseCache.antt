-- ===== src/Tests/ParseCache.antt =====
-- crates/hyperindex-parser/src/parse_cache.rs after three upserts, two of them of one path.
use repo_hyperindex.Base.{ℕ, ◌≡◌, refl, Option, some, none, List, [], ◌∷◌}
use repo_hyperindex.Base.Order.{beq}
use repo_hyperindex.Base.Text.{text_ord, Text, text}
use repo_hyperindex.Parser.ParseCache.{
  ParseCacheKey, key_ord, from_contents, new, upsert, get_key, latest_for_path,
}
use repo_hyperindex.Parser.ParseCache.Latest.{upsert_all, last_such, upsert_exact}

-- a digest and a parsed file that are their own texts
abbrev key_of : Text → Text → ParseCacheKey
key_of path contents = from_contents (λ c. c) path contents

abbrev same_key : ParseCacheKey → ParseCacheKey
same_key key = key

abbrev three : List ParseCacheKey
three =
    key_of (text "a.ts") (text "1")
    ∷ key_of (text "b.ts") (text "1")
    ∷ key_of (text "a.ts") (text "2")
    ∷ []

latest_of_three :
    latest_for_path same_key (upsert_all same_key (new same_key) three) (text "a.ts")
    ≡ some (key_of (text "a.ts") (text "2"))
unfolding upsert_all upsert repo_hyperindex.Base.Dict.get
latest_of_three = refl

upsert_exact_example :
    (get_key same_key (upsert_all same_key (new same_key) three) (key_of (text "a.ts") (text "1"))
      ≡ last_such same_key (λ a. beq (same_key a) (key_of (text "a.ts") (text "1"))) none three)
    × (latest_for_path same_key (upsert_all same_key (new same_key) three) (text "a.ts")
        ≡ last_such same_key (λ a. beq (same_key a).path (text "a.ts")) none three)
upsert_exact_example = upsert_exact same_key three (key_of (text "a.ts") (text "1")) (text "a.ts")

-- ===== src/Tests/Git.antt =====
-- crates/hyperindex-git-state/src/status.rs at a few lines of git's output.
use mathlib.Core.Option
use repo_hyperindex.Base.{
  ◌≡◌, refl, Bool, true, false, Option, some, none, List, [], ◌∷◌, ◌||◌, All, arith, map, is_some,
}
use repo_hyperindex.Base.Text.{text_ord, Text, text}
use repo_hyperindex.Git.{rename_ord}
use repo_hyperindex.Git.Status.{ParsedWorkingTreeStatus, lines, parse_porcelain_v1, into_summary}
use repo_hyperindex.Git.Status.Parsed.{SameLines}
use repo_hyperindex.Git.Status.Roles.{
  is_plain, AreNamed, names_untracked, names_ignored, names_renamed, names_deleted, names_dirty,
}
use repo_hyperindex.Git.Status.Order.{parse_porcelain-same, parse_porcelain_read}

abbrev output : Text
output =
    text " M src/app.ts\n?? scratch.txt\n D old.txt\nR  src/old.ts -> src/new.ts\n!! dist/out.js\n"

abbrev read_output : Option ParsedWorkingTreeStatus
read_output = some (record {
  dirty_tracked_files = text "src/app.ts" ∷ [];
  untracked_files = text "scratch.txt" ∷ [];
  deleted_files = text "old.txt" ∷ [];
  renamed_files = record { from = text "src/old.ts"; to = text "src/new.ts" } ∷ [];
  ignored_files = text "dist/out.js" ∷ [];
})

read_groups : parse_porcelain_v1 output ≡ read_output
unfolding parse_porcelain_v1 repo_hyperindex.Base.Sort.sort_by
read_groups = refl

abbrev digest_of : Text → Option Text
digest_of raw =
    Option.map (λ status. (into_summary status (some (text "c1"))).digest) (parse_porcelain_v1 raw)

digest_of_changes :
    digest_of (text "?? \"b.ts\"\r\n\n?? b.ts\nRM o.ts -> n.ts\nM  a.ts")
    ≡ some (text "gitwt-f2a3b7b1376e777f")
unfolding parse_porcelain_v1 into_summary repo_hyperindex.Base.Sort.sort_by
digest_of_changes = refl

-- a code that ends inside a character
no_code : parse_porcelain_v1 (8364 ∷ text " a") ≡ none
unfolding parse_porcelain_v1
no_code = refl

or_swap : (a b : Bool) → (a || (b || false)) ≡ (b || (a || false))
or_swap a b = ground arith

output-plain : All (λ line. is_plain line ≡ true) (lines output)
unfolding lines
output-plain = (refl, (refl, (refl, (refl, (refl, tt)))))

parse_porcelain_read_example :
    (status : ParsedWorkingTreeStatus) × (parse_porcelain_v1 output ≡ some status)
    × AreNamed status.untracked_files names_untracked output
    × AreNamed status.ignored_files names_ignored output
    × AreNamed status.renamed_files names_renamed output
    × AreNamed status.deleted_files names_deleted output
    × AreNamed status.dirty_tracked_files names_dirty output
parse_porcelain_read_example = parse_porcelain_read output output-plain

swapped : SameLines (text "?? b.txt\n M a.txt\n") (text " M a.txt\n?? b.txt\n")
unfolding lines
swapped line = or_swap _ _

parse_porcelain-same_example :
    parse_porcelain_v1 (text "?? b.txt\n M a.txt\n")
    ≡ parse_porcelain_v1 (text " M a.txt\n?? b.txt\n")
parse_porcelain-same_example =
    parse_porcelain-same (text "?? b.txt\n M a.txt\n") (text " M a.txt\n?? b.txt\n") swapped

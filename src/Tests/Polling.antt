-- ===== src/Tests/Polling.antt =====
-- crates/hyperindex-watcher/src/watcher.rs at two polls in which one file changes and one is
-- renamed, and at a small file tree.
use repo_hyperindex.Base.{
  ℕ, ◌+◌, ◌<◌, ◌^◌, ◌≡◌, ◌≢◌, ◌↔◌, refl, Bool, true, false, Option, some, none, List, [], ◌∷◌,
  arith, any, length, All,
}
use repo_hyperindex.Base.Text.{text_ord, Text, text}
use repo_hyperindex.Base.Dict.{get, contains_key, empty, insert}
use repo_hyperindex.Base.Ascending.{IsOrdered}
use repo_hyperindex.Errors.{Result, ok, err, is_ok, from_ok, ok-from_ok}
use repo_hyperindex.Watcher.Ignore as Ignore
use repo_hyperindex.Watcher.Ignore.{IgnoreMatcher}
use repo_hyperindex.Watcher.Stream as Stream
use repo_hyperindex.Watcher.Stream.{RawWatchEvent, raw_modified, raw_renamed}
use repo_hyperindex.Watcher.Stream.Bounds.{new-IsWell}
use repo_hyperindex.Watcher.Stream.Taken.{Consecutive}
use repo_hyperindex.Watcher.Polling.{
  FileFingerprint, Poll, diff_snapshots, created_in, removed_in, sorted_files, plain_event,
  rename_event,
}
use repo_hyperindex.Watcher.Polling.Renames.{paths_with, is_rename}
use repo_hyperindex.Watcher.Polling.Events.{
  touches, diff_snapshots-touches, diff_snapshots-is_rename,
}
use repo_hyperindex.Watcher.Tree.{
  Listing, listed, no_entries, entry, directory, file, special, closed_file, collect_snapshot,
}
use repo_hyperindex.Watcher.Tree.Visible.{has_listed, is_listed, collect_snapshot_exact}
use repo_hyperindex.Watcher.Service.{
  PollingWatcher, WatcherService, WatchRun, WatchBackend, Round, is_over, watch_once,
}
use repo_hyperindex.Watcher.Service.Followed.{poll_and_follow, poll_and_follow_exact}
use repo_hyperindex.Watcher.Service.Numbers.{watch_once_returns, watch_once_exact}

abbrev old_a : FileFingerprint
old_a = record { size = 1; content_hash = 7 }

abbrev new_a : FileFingerprint
new_a = record { size = 1; content_hash = 8 }

abbrev moved : FileFingerprint
moved = record { size = 2; content_hash = 5 }

abbrev before : Poll
before = record { entries = (text "a", old_a) ∷ (text "b", moved) ∷ [] }

abbrev after : Poll
after = record { entries = (text "a", new_a) ∷ (text "c", moved) ∷ [] }

before-IsOrdered : IsOrdered before
before-IsOrdered = ((refl, tt), (tt, tt))

after-IsOrdered : IsOrdered after
after-IsOrdered = ((refl, tt), (tt, tt))

changes :
    diff_snapshots before after
    ≡ plain_event raw_modified (text "a") ∷ rename_event (text "c") (text "b") ∷ []
unfolding diff_snapshots repo_hyperindex.Base.Sort.sort_by get insert
changes = refl

diff_snapshots-touches_example :
    (any (touches (text "b")) (diff_snapshots before after) ≡ true)
    ↔ (get before (text "b") ≢ get after (text "b"))
diff_snapshots-touches_example =
    diff_snapshots-touches before after before-IsOrdered after-IsOrdered (text "b")

diff_snapshots-is_rename_example :
    (any (is_rename (text "c") (text "b")) (diff_snapshots before after) ≡ true) ↔ (
      (f : FileFingerprint) × (paths_with f (sorted_files (created_in before after))
        ≡ text "c" ∷ [])
      × (paths_with f (sorted_files (removed_in before after)) ≡ text "b" ∷ []))
diff_snapshots-is_rename_example = diff_snapshots-is_rename before after (text "c") (text "b")

abbrev nothing_ignored : IgnoreMatcher
nothing_ignored = record { patterns = [] }

-- `src/x` is kept, `y~` is a temporary file.
abbrev tree : Listing
tree = listed (
    entry (text "y~") (closed_file (text "denied")) (
      entry (text "src") (directory (listed (entry (text "x") (file (1 ∷ 2 ∷ [])) no_entries)))
        (entry (text "link") special no_entries)))

collect_snapshot_exact_example :
    (is_ok (collect_snapshot (text "/r") nothing_ignored tree) ≡ is_listed nothing_ignored [] tree)
    × ((s : Poll) (p : Text)
        → collect_snapshot (text "/r") nothing_ignored tree ≡ ok s
        → contains_key s p ≡ has_listed nothing_ignored [] tree p)
collect_snapshot_exact_example = collect_snapshot_exact (text "/r") nothing_ignored tree

finds_x : has_listed nothing_ignored [] tree (text "src/x") ≡ true
unfolding has_listed Ignore.should_skip_dir repo_hyperindex.Base.Text.split
    repo_hyperindex.Base.Text.starts_with repo_hyperindex.Base.Text.ends_with
finds_x = refl

abbrev watcher : PollingWatcher
watcher = record {
  repo_root = text "/r";
  ignore_matcher = nothing_ignored;
  previous_snapshot = before;
}

abbrev followed : PollingWatcher × Poll
followed = from_ok (watcher, before) (poll_and_follow watcher before (tree ∷ []))

polls_succeed : is_ok (poll_and_follow watcher before (tree ∷ [])) ≡ true
unfolding repo_hyperindex.Watcher.Service.poll collect_snapshot repo_hyperindex.Base.Sort.sort_by
    Ignore.should_skip_dir repo_hyperindex.Base.Text.split repo_hyperindex.Base.Text.starts_with
    repo_hyperindex.Base.Text.ends_with
polls_succeed = refl

poll_and_follow_exact_example :
    get followed.1 (text "src/x") ≡ get followed.0.previous_snapshot (text "src/x")
poll_and_follow_exact_example =
    poll_and_follow_exact watcher followed.0 before followed.1 (tree ∷ []) before-IsOrdered
      (λ k. refl)
      (ok-from_ok (watcher, before) (poll_and_follow watcher before (tree ∷ [])) polls_succeed)
      (text "src/x")

-- A backend whose polls answer with the events that the world brings.
abbrev given : WatchBackend ℕ (List RawWatchEvent)
given = record { backend_name = text "given"; poll = λ b raw. ok (b, raw) }

abbrev service : WatcherService ℕ
service = record { backend = 0; stream = Stream.new 5 10; poll_interval = 10 }

abbrev first_round : Round (List RawWatchEvent)
first_round = record { now = 1; drained_at = 2; world = plain_event raw_modified (text "a") ∷ [] }

abbrev last_round : Round (List RawWatchEvent)
last_round = record { now = 20; drained_at = 21; world = plain_event raw_modified (text "b") ∷ [] }

abbrev rounds : List (Round (List RawWatchEvent))
rounds = first_round ∷ last_round ∷ []

watch_once_returns_example :
    ((r : Result (WatcherService ℕ × WatchRun)) × ((after : List (Round (List RawWatchEvent)))
        → watch_once given 1 15 service (first_round ∷ last_round ∷ after) ≡ some r))
    × ((outcome : WatcherService ℕ × WatchRun)
        → watch_once given 1 15 service (first_round ∷ []) ≢ some (ok outcome))
watch_once_returns_example =
    watch_once_returns given 1 15 service (first_round ∷ []) last_round (refl, tt) refl

abbrev outcome : WatcherService ℕ × WatchRun
outcome = elim (watch_once given 1 15 service rounds) [
  | none ↦ (service, record { backend = []; dropped_events = 0; events = [] })
  | some (err e) ↦ (service, record { backend = []; dropped_events = 0; events = [] })
  | some (ok o) ↦ o
]

runs : watch_once given 1 15 service rounds ≡ some (ok (outcome.0, outcome.1))
unfolding watch_once
runs = refl

two_events : length outcome.1.events ≡ 2
unfolding watch_once Stream.drain_ready Stream.flush_all Stream.number_events
    repo_hyperindex.Base.Sort.sort_by Stream.take_events Stream.push_raw_batch Stream.push_raw_event
    Stream.settle get Stream.take_up_rename Stream.new Stream.insert_pending insert
    repo_hyperindex.Base.Dict.remove
two_events = refl

sequence_fits : 1 + length outcome.1.events < 2 ^ 64
sequence_fits = omega (arith, two_events)

watch_once_exact_example :
    (get outcome.0.stream.pending (text "a") ≡ none)
    × Consecutive 1 outcome.1.events
    × (outcome.0.stream.next_sequence ≡ 1 + length outcome.1.events)
unfolding Stream.new watch_once
watch_once_exact_example =
    watch_once_exact given 1 15 service outcome.0 outcome.1 rounds (text "a") (new-IsWell 5 10) runs
      sequence_fits

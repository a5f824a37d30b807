-- ===== src/Watcher/Service/Followed.antt =====
-- crates/hyperindex-watcher/src/watcher.rs: what a client that follows the polls knows.
use repo_hyperindex.Base.{◌≡◌, refl, sym, ap, subst, ◌∙◌, List, [], ◌∷◌}
use repo_hyperindex.Base.Text.{text_ord, Text}
use repo_hyperindex.Base.Dict.{get}
use repo_hyperindex.Base.Ascending.{IsOrdered}
use repo_hyperindex.Errors.{Result, ok, ok_inj, >>=-eq-ok, ◌>>=◌}
use repo_hyperindex.Watcher.Stream.{RawWatchEvent}
use repo_hyperindex.Watcher.Polling.{Poll, diff_snapshots}
use repo_hyperindex.Watcher.Polling.Replay.{follow, diff_snapshots_followed}
use repo_hyperindex.Watcher.Tree.{Listing, collect_snapshot}
use repo_hyperindex.Watcher.Tree.Visible.{collect_snapshot-IsOrdered}
use repo_hyperindex.Watcher.Service.{PollingWatcher, poll}

-- A watcher that polls the trees one after another, beside a client that only sees the events and
-- looks up the paths that they name.
abbrev pub poll_and_follow : PollingWatcher → Poll → List Listing → Result (PollingWatcher × Poll)
poll_and_follow w seen [] = ok (w, seen)
poll_and_follow w seen (tree ∷ trees) = do
  (w', events) ← poll w tree
  poll_and_follow w' (follow w'.previous_snapshot seen events) trees

poll-ok :
    (w w' : PollingWatcher) (tree : Listing) (events : List RawWatchEvent)
    → poll w tree ≡ ok (w', events)
    → (collect_snapshot w.repo_root w.ignore_matcher tree ≡ ok w'.previous_snapshot)
      × (events ≡ diff_snapshots w.previous_snapshot w'.previous_snapshot)
unfolding poll
poll-ok w w' tree events h =
    let (snapshot, collected, rest) =
      >>=-eq-ok (collect_snapshot w.repo_root w.ignore_matcher tree)
        (λ snapshot.
          ok (
            record w { previous_snapshot = snapshot },
            diff_snapshots w.previous_snapshot snapshot,
          ))
        h in
    let same = ok_inj rest in
    (
      collected ∙ ap (λ (p : PollingWatcher × List RawWatchEvent). ok p.0.previous_snapshot) same,
      subst
          (λ (p : PollingWatcher × List RawWatchEvent).
            p.1 ≡ diff_snapshots w.previous_snapshot p.0.previous_snapshot)
          same refl,
    )

-- While every poll succeeds, a client that starts with the watcher's files and follows the events
-- of each poll knows, after any number of polls, the files that the watcher saw last.
pub poll_and_follow_exact :
    (w w' : PollingWatcher) (seen seen' : Poll) (trees : List Listing)
    → IsOrdered w.previous_snapshot
    → ((k : Text) → get seen k ≡ get w.previous_snapshot k)
    → poll_and_follow w seen trees ≡ ok (w', seen')
    → (k : Text) → get seen' k ≡ get w'.previous_snapshot k
poll_and_follow_exact w w' seen seen' [] ordered same h k =
    subst (λ (p : PollingWatcher × Poll). get p.1 k ≡ get p.0.previous_snapshot k) (ok_inj h)
      (same k)
poll_and_follow_exact w w' seen seen' (tree ∷ trees) ordered same h k =
    let ((next, events), polled, rest) =
      >>=-eq-ok (poll w tree)
        (λ (p : PollingWatcher × List RawWatchEvent).
          poll_and_follow p.0 (follow p.0.previous_snapshot seen p.1) trees)
        h in
    let (collected, are) = poll-ok w next tree events polled in
    let ordered' =
      collect_snapshot-IsOrdered w.repo_root w.ignore_matcher tree next.previous_snapshot
        collected in
    poll_and_follow_exact next w' (follow next.previous_snapshot seen events) seen' trees ordered'
      (λ j.
        subst (λ es. get (follow next.previous_snapshot seen es) j ≡ get next.previous_snapshot j)
          (sym are)
          (diff_snapshots_followed w.previous_snapshot next.previous_snapshot seen ordered ordered'
            same j))
      rest k

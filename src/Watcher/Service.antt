-- ===== src/Watcher/Service.antt =====
-- crates/hyperindex-watcher/src/watcher.rs: the polling watcher and the service that feeds its
-- events to the stream. The clock is data: each round of `watch_once` comes with the two instants
-- that it reads and the file tree that it finds; the pause between rounds is left out.
pub mod Followed
pub mod Numbers
use repo_hyperindex.Base.{
  ℕ, ◌+◌, ◌-◌, ◌==◌, max, Bool, true, false, not, ◌||◌, Option, none, some, List, [], ◌∷◌, ◌++◌,
  if◌then◌else◌, leb,
}
use repo_hyperindex.Base.Text.{Text, text}
use repo_hyperindex.Errors.{Result, ok, err, not_implemented, ◌>>=◌}
use repo_hyperindex.Watcher.Ignore as Ignore
use repo_hyperindex.Watcher.Ignore.{IgnoreMatcher}
use repo_hyperindex.Watcher.Stream as Stream
use repo_hyperindex.Watcher.Stream.{
  RawWatchEvent, NormalizedEvent, WatchEventStream, push_raw_batch, drain_ready, flush_all,
}
use repo_hyperindex.Watcher.Polling.{Poll, diff_snapshots}
use repo_hyperindex.Watcher.Tree.{Listing, collect_snapshot}

pub record PollingWatcher : Type 0 where
  pub repo_root : Text
  pub ignore_matcher : IgnoreMatcher
  pub previous_snapshot : Poll

-- `repo_root` is in canonical form.
unfoldable pub new : Text → List Text → Listing → Result PollingWatcher
new repo_root ignore_patterns tree = do
  snapshot ← collect_snapshot repo_root (Ignore.new ignore_patterns) tree
  ok (record {
    repo_root = repo_root;
    ignore_matcher = Ignore.new ignore_patterns;
    previous_snapshot = snapshot;
  })

unfoldable pub poll : PollingWatcher → Listing → Result (PollingWatcher × List RawWatchEvent)
poll w tree = do
  current_snapshot ← collect_snapshot w.repo_root w.ignore_matcher tree
  let events = diff_snapshots w.previous_snapshot current_snapshot
  ok (record w { previous_snapshot = current_snapshot }, events)

pub data ConfigWatchBackend : Type 0 where
  poll_backend notify_backend stub_backend : ConfigWatchBackend

pub record WatchConfig : Type 0 where
  pub backend : ConfigWatchBackend
  pub poll_interval_ms : ℕ
  pub debounce_ms : ℕ
  pub batch_max_events : ℕ

pub record WatcherService {ℓ} (B : Type ℓ) : Type ℓ where
  pub backend : B
  pub stream : WatchEventStream
  pub poll_interval : ℕ

abbrev with_backend : WatchConfig → PollingWatcher → WatcherService PollingWatcher
with_backend config backend = record {
  backend = backend;
  stream = Stream.new config.debounce_ms config.batch_max_events;
  poll_interval = max config.poll_interval_ms 10;
}

abbrev polling_as :
    ConfigWatchBackend
    → Text
    → WatchConfig
    → List Text
    → Listing
    → Result (WatcherService PollingWatcher)
polling_as notify_backend repo_root config ignore_patterns tree =
    err (not_implemented (text "watcher.notify_backend"))
polling_as _ repo_root config ignore_patterns tree = do
  backend ← new repo_root ignore_patterns tree
  ok (with_backend config backend)

unfoldable pub polling :
    Text → WatchConfig → List Text → Listing → Result (WatcherService PollingWatcher)
unfolding new
polling repo_root config = polling_as config.backend repo_root config

pub record WatchRun : Type 0 where
  pub backend : Text
  pub dropped_events : ℕ
  pub events : List NormalizedEvent

-- A round: the instant at its start, the one after its events are drained, and what a poll finds.
pub record Round {ℓ} (W : Type ℓ) : Type ℓ where
  pub now : ℕ
  pub drained_at : ℕ
  pub world : W

-- `WatchBackend`: its name and its `poll`
pub record WatchBackend {ℓ κ} (B : Type ℓ) (W : Type κ) : Type (ℓ ⊔ κ) where
  pub backend_name : Text
  pub poll : B → W → Result (B × List RawWatchEvent)

abbrev pub polling_backend : WatchBackend PollingWatcher Listing
polling_backend = record { backend_name = text "poll"; poll = poll }

module _ {ℓ κ} {B : Type ℓ} {W : Type κ} (watch : WatchBackend B W) where
  -- The rest of a round, once its poll has answered.
  abbrev pub drain_round :
      WatcherService B → Round W → B → List RawWatchEvent → WatcherService B × List NormalizedEvent
  drain_round service round backend raw_events =
      let (stream, events) =
        drain_ready (push_raw_batch service.stream raw_events round.now) round.now in
      (record service { backend = backend; stream = stream }, events)

  -- `now >= deadline`, or nothing remains.
  abbrev pub is_over : ℕ → Round W → Bool
  is_over deadline round = leb deadline round.now || deadline - round.drained_at == 0

  -- The loop of `watch_once`; `none` is that the rounds run out before the deadline.
  unfoldable pub watch_loop :
      ℕ
      → WatcherService B
      → List NormalizedEvent
      → List (Round W)
      → Option (Result (WatcherService B × List NormalizedEvent))
  watch_loop deadline service events [] = none
  watch_loop deadline service events (round ∷ rounds) =
      elim (watch.poll service.backend round.world) [
        | err error ↦ some (err error)
        | ok (backend, raw_events) ↦
            let (service', drained) = drain_round service round backend raw_events in
            let rest = watch_loop deadline service' (events ++ drained) rounds in
            if is_over deadline round then some (ok (service', events ++ drained)) else rest
      ]

  abbrev pub finish : WatcherService B → List NormalizedEvent → WatcherService B × WatchRun
  finish service events =
      let (stream, flushed) = flush_all service.stream in
      (
        record service { stream = stream },
        record {
          backend = watch.backend_name;
          dropped_events = stream.dropped_events;
          events = events ++ flushed;
        },
      )

  unfoldable pub watch_once :
      ℕ → ℕ → WatcherService B → List (Round W) → Option (Result (WatcherService B × WatchRun))
  unfolding watch_loop
  watch_once started timeout service rounds =
      elim (watch_loop (started + timeout) service [] rounds) [
        | none ↦ none
        | some (err error) ↦ some (err error)
        | some (ok (service', events)) ↦ some (ok (finish service' events))
      ]

-- ===== src/Watcher/Stream/Flush.antt =====
-- crates/hyperindex-watcher/src/normalize.rs: which events a flush hands out, and what stays.
use repo_hyperindex.Base.{
  ℕ, ◌+◌, ◌^◌, ◌<◌, ◌≡◌, refl, false, ◌&&◌, none, some, List, [], ◌∷◌, map, arith, if◌then◌else◌,
  length, any, filter,
}
use repo_hyperindex.Base.Order.{beq, beq_iff, nat_ord}
use repo_hyperindex.Base.Sort.{sort_by, sort_by-IsSorted, any-sort_by, by_key}
use repo_hyperindex.Base.Text.{text_ord, Text}
use repo_hyperindex.Base.Dict.{get, lookup, contains_key, keys}
use repo_hyperindex.Base.Distinct.{contains, Distinct}
use repo_hyperindex.Base.Ascending.{IsAscending-Distinct}
use repo_hyperindex.Watcher.Stream.{
  PendingNormalizedEvent, PendingEvent, NormalizedEvent, WatchEventStream, event_order, take_events,
  flush_keys, is_ready, ready_keys, drain_ready,
}
use repo_hyperindex.Watcher.Stream.Bounds.{IsWell}
use repo_hyperindex.Watcher.Stream.Handed.{events_at, flush_keys-events_at}
use repo_hyperindex.Watcher.Stream.Taken.{
  event_order-IsWeak, get-take_events, any-take_events, Consecutive, length-number_events,
  Consecutive-number_events, any-number_events, IsByPath, IsByPath-number_events,
}

abbrev flushed : WatchEventStream → List Text → List PendingNormalizedEvent
flushed s ks = (take_events s.pending (sort_by (by_key (λ k. k)) ks)).1

-- In a well-formed stream (`IsWell`), a flush of some keys hands out an event for each of them that is pending, in the order of the
-- paths and numbered on from the counter, and leaves the other keys pending as they were. (The
-- counter is assumed not to reach 2^64.)
pub flush_keys_exact :
    (s : WatchEventStream) (ks : List Text) (path : Text)
    → IsWell s
    → s.next_sequence + length (flush_keys s ks).1 < 2 ^ 64
    → (get (flush_keys s ks).0.pending path
        ≡ (if contains ks path then none else get s.pending path))
      × (any (λ (e : NormalizedEvent). beq e.path path) (flush_keys s ks).1
          ≡ (contains ks path && contains_key s.pending path))
      × IsByPath (flush_keys s ks).1
      × Consecutive s.next_sequence (flush_keys s ks).1
      × ((flush_keys s ks).0.next_sequence ≡ s.next_sequence + length (flush_keys s ks).1)
unfolding flush_keys
flush_keys_exact s ks path w fits =
    let sorted_keys = sort_by (by_key (λ (k : Text). k)) ks in
    let events = sort_by event_order (flushed s ks) in
    let (numbers, next) =
      Consecutive-number_events s.next_sequence events
        (omega (arith, fits, length-number_events s.next_sequence events)) in
    (
      ground (
        arith,
        get-take_events s.pending sorted_keys path,
        any-sort_by (by_key (λ (x : Text). x)) (λ x. beq x path) ks,
      ),
      ground (
        arith,
        any-number_events s.next_sequence events path,
        any-sort_by event_order (λ e. beq e.path path) (flushed s ks),
        any-take_events s.pending sorted_keys path w.keyed,
        any-sort_by (by_key (λ (x : Text). x)) (λ x. beq x path) ks,
      ),
      IsByPath-number_events s.next_sequence events
          (sort_by-IsSorted event_order event_order-IsWeak (flushed s ks)),
      numbers,
      omega (arith, next, length-number_events s.next_sequence events),
    )

unlisted :
    (s : WatchEventStream) (now : ℕ) (m : List (Text × PendingEvent)) (k : Text)
    → contains (map (λ e. e.0) m) k ≡ false
    → contains (map (λ (e : Text × PendingEvent). e.0) (filter (λ e. is_ready s now e.1) m)) k
      ≡ false
unlisted s now [] k h = refl
unlisted s now ((i, p) ∷ m) k h = ground (arith, unlisted s now m k)

contains-ready :
    (s : WatchEventStream) (now : ℕ) (m : List (Text × PendingEvent)) (k : Text)
    → Distinct (map (λ e. e.0) m)
    → contains (map (λ (e : Text × PendingEvent). e.0) (filter (λ e. is_ready s now e.1) m)) k
      ≡ elim (lookup k m) [ none ↦ false | some p ↦ is_ready s now p ]
unfolding lookup
contains-ready s now [] k d = refl
contains-ready s now ((i, p) ∷ m) k d =
    ground (arith, contains-ready s now m k d.1, unlisted s now m k, beq_iff i k)

-- In a well-formed stream (`IsWell`) whose counter does not reach 2^64, a path that has been quiet for
-- the debounce window has exactly one event handed out, the pending one with its kind and its
-- previous path, and is no longer pending; every other pending path stays as it was and has no
-- event. The events handed out are in the order of their paths and numbered without a gap from the
-- counter, which ends past them.
pub drain_ready_exact :
    (s : WatchEventStream) (now : ℕ) (path : Text)
    → IsWell s
    → s.next_sequence + length (drain_ready s now).1 < 2 ^ 64
    → (get (drain_ready s now).0.pending path ≡ elim (get s.pending path) [
      | none ↦ none
      | some p ↦ if is_ready s now p then none else some p
    ])
      × (events_at path (drain_ready s now).1 ≡ elim (get s.pending path) [
        | none ↦ []
        | some p ↦ if is_ready s now p then p.event ∷ [] else []
      ])
      × IsByPath (drain_ready s now).1
      × Consecutive s.next_sequence (drain_ready s now).1
      × ((drain_ready s now).0.next_sequence ≡ s.next_sequence + length (drain_ready s now).1)
unfolding drain_ready
drain_ready_exact s now path w fits =
    let exact = flush_keys_exact s (ready_keys s now) path w fits in
    let ready : contains (ready_keys s now) path
        ≡ elim (get s.pending path) [ none ↦ false | some p ↦ is_ready s now p ] =
      unfold ready_keys get in
      contains-ready s now s.pending.entries path
        (IsAscending-Distinct (keys s.pending) w.ordered) in
    (
      ground (arith, exact.0, ready),
      ground (arith, flush_keys-events_at s (ready_keys s now) path w, ready),
      exact.2,
      exact.3,
      exact.4,
    )

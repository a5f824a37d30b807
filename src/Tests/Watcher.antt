-- ===== src/Tests/Watcher.antt =====
-- crates/hyperindex-watcher/src/normalize.rs at a stream with two pending paths.

use repo_hyperindex.Base.{
  ℕ, ◌+◌, ◌<◌, ◌^◌, ◌%◌, ◌≡◌, ◌↔◌, refl, Option, some, none, List, [], ◌∷◌, arith, false, true,
  length, any, if◌then◌else◌, ◌&&◌, leb,
}
use repo_hyperindex.Base.Text.{text_ord, Text, text}
use repo_hyperindex.Base.Dict.{get, contains_key, len}
use repo_hyperindex.Watcher.Stream.{
  RawWatchEvent, raw_created, raw_modified, raw_removed, created, modified, removed,
  NormalizedEvent, PendingNormalizedEvent, PendingEvent, WatchEventStream, new, merge_events,
  settle, push_raw_batch, push_raw_event, take_up_rename, insert_pending, raw_kind_to_normalized,
  flush_keys, drain_ready, is_ready,
}
use repo_hyperindex.Watcher.Stream.Bounds.{IsWell, new-IsWell, push_raw_batch-IsWell}
use repo_hyperindex.Watcher.Stream.Taken.{IsByPath, Consecutive}
use repo_hyperindex.Watcher.Stream.Handed.{events_at}
use repo_hyperindex.Watcher.Stream.Flush.{drain_ready_exact}

abbrev raw : List RawWatchEvent
raw =
    record { kind = raw_created; path = text "b"; previous_path = none }
    ∷ record { kind = raw_modified; path = text "a"; previous_path = none }
    ∷ []

abbrev watching : WatchEventStream
watching = push_raw_batch (new 100 2) raw 5

push_raw_batch-IsWell_example : IsWell watching
push_raw_batch-IsWell_example = push_raw_batch-IsWell (new 100 2) raw 5 (new-IsWell 100 2)

watching-IsWell : IsWell watching
watching-IsWell = push_raw_batch-IsWell (new 100 2) raw 5 (new-IsWell 100 2)

abbrev new_b : PendingNormalizedEvent
new_b = record { kind = created; path = text "b"; previous_path = none }

abbrev gone_b : PendingNormalizedEvent
gone_b = record { kind = removed; path = text "b"; previous_path = none }

abbrev changed_c : PendingNormalizedEvent
changed_c = record { kind = modified; path = text "c"; previous_path = none }

pending_b : get watching.pending (text "b") ≡ some (record { event = new_b; last_update = 5 })
unfolding push_raw_batch push_raw_event take_up_rename insert_pending raw_kind_to_normalized settle
    new get repo_hyperindex.Base.Dict.insert
pending_b = refl

free_c : get watching.pending (text "c") ≡ none
unfolding push_raw_batch push_raw_event take_up_rename insert_pending raw_kind_to_normalized settle
    new get repo_hyperindex.Base.Dict.insert
free_c = refl

abbrev only_b : List Text
only_b = text "b" ∷ []

room_b : watching.next_sequence + length (flush_keys watching only_b).1 < 2 ^ 64
unfolding push_raw_batch push_raw_event take_up_rename insert_pending raw_kind_to_normalized settle
    new get flush_keys repo_hyperindex.Base.Dict.insert repo_hyperindex.Watcher.Stream.number_events
    repo_hyperindex.Base.Sort.sort_by repo_hyperindex.Watcher.Stream.take_events
room_b = omega arith

room_at_200 : watching.next_sequence + length (drain_ready watching 200).1 < 2 ^ 64
unfolding push_raw_batch push_raw_event take_up_rename insert_pending raw_kind_to_normalized settle
    new get drain_ready repo_hyperindex.Base.Dict.insert
    repo_hyperindex.Watcher.Stream.number_events repo_hyperindex.Base.Sort.sort_by
    repo_hyperindex.Watcher.Stream.take_events repo_hyperindex.Base.Dict.remove
room_at_200 = omega arith

drain_ready_exact_example :
    (get (drain_ready watching 200).0.pending (text "b") ≡ elim (get watching.pending (text "b")) [
      | none ↦ none
      | some p ↦ if is_ready watching 200 p then none else some p
    ])
    × (events_at (text "b") (drain_ready watching 200).1 ≡ elim (get watching.pending (text "b")) [
      | none ↦ []
      | some p ↦ if is_ready watching 200 p then p.event ∷ [] else []
    ])
    × IsByPath (drain_ready watching 200).1
    × Consecutive watching.next_sequence (drain_ready watching 200).1
    × ((drain_ready watching 200).0.next_sequence
        ≡ watching.next_sequence + length (drain_ready watching 200).1)
drain_ready_exact_example = drain_ready_exact watching 200 (text "b") watching-IsWell room_at_200

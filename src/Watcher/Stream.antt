-- ===== src/Watcher/Stream.antt =====
-- crates/hyperindex-watcher/src/normalize.rs, with `NormalizedEvent` of
-- crates/hyperindex-protocol/src/watch.rs: the stream that coalesces raw events. An `Instant` is a
-- number of milliseconds, and `duration_since` stops at 0; the `u64` counters wrap.
pub mod Merge
pub mod Bounds
pub mod Taken
pub mod Handed
pub mod Flush
use repo_hyperindex.Base.{
  ℕ, zero, suc, ◌+◌, ◌-◌, ◌%◌, ◌^◌, Bool, true, false, not, ◌&&◌, Option, none, some, List, [], ◌∷◌,
  ◌++◌, map, Ordering, if◌then◌else◌, leb, length, filter, or_else,
}
use repo_hyperindex.Base.Order.{Ord, beq, nat_ord}
use Prim.Native.Nat.Ordering.{lt, eq, gt}
use repo_hyperindex.Base.Text.{text_ord, Text}
use repo_hyperindex.Base.Sort.{sort_by, by_key, both}
use repo_hyperindex.Base.Dict.{Dict, empty, get, insert, remove, contains_key, keys, len}

pub data RawWatchEventKind : Type 0 where
  raw_created raw_modified raw_removed raw_renamed : RawWatchEventKind

pub record RawWatchEvent : Type 0 where
  pub kind : RawWatchEventKind
  pub path : Text
  pub previous_path : Option Text

pub data NormalizedEventKind : Type 0 where
  created modified removed renamed other : NormalizedEventKind

pub record NormalizedEvent : Type 0 where
  pub sequence : ℕ
  pub kind : NormalizedEventKind
  pub path : Text
  pub previous_path : Option Text

pub record PendingNormalizedEvent : Type 0 where
  pub kind : NormalizedEventKind
  pub path : Text
  pub previous_path : Option Text

pub record PendingEvent : Type 0 where
  pub event : PendingNormalizedEvent
  pub last_update : ℕ

pub record WatchEventStream : Type 0 where
  pub debounce_window : ℕ
  pub batch_max_events : ℕ
  pub next_sequence : ℕ
  pub dropped_events : ℕ
  pub pending : Dict Text PendingEvent

unfoldable pub new : ℕ → ℕ → WatchEventStream
new debounce_ms batch_max_events = record {
  debounce_window = debounce_ms;
  batch_max_events = batch_max_events;
  next_sequence = 1;
  dropped_events = 0;
  pending = empty;
}

unfoldable pub raw_kind_to_normalized : RawWatchEventKind → NormalizedEventKind
raw_kind_to_normalized raw_created = created
raw_kind_to_normalized raw_modified = modified
raw_kind_to_normalized raw_removed = removed
raw_kind_to_normalized raw_renamed = renamed

abbrev merged_rename :
    NormalizedEventKind → PendingNormalizedEvent → PendingNormalizedEvent → PendingNormalizedEvent
merged_rename created existing incoming = record {
  kind = created;
  path = incoming.path;
  previous_path = none;
}
merged_rename renamed existing incoming = record {
  kind = renamed;
  path = incoming.path;
  previous_path = or_else existing.previous_path incoming.previous_path;
}
merged_rename _ existing incoming = record {
  kind = renamed;
  path = incoming.path;
  previous_path = some existing.path;
}

unfoldable pub merge_rename :
    PendingNormalizedEvent → PendingNormalizedEvent → PendingNormalizedEvent
merge_rename existing incoming = merged_rename existing.kind existing incoming

abbrev merged :
    NormalizedEventKind
    → NormalizedEventKind
    → PendingNormalizedEvent
    → PendingNormalizedEvent
    → Option PendingNormalizedEvent
merged created modified existing incoming = some existing
merged created removed existing incoming = none
merged modified modified existing incoming = some existing
merged modified removed existing incoming = some incoming
merged removed created existing incoming =
    some (record { kind = modified; path = incoming.path; previous_path = none })
merged removed modified existing incoming =
    some (record { kind = modified; path = incoming.path; previous_path = none })
merged renamed modified existing incoming = some existing
merged renamed removed existing incoming = some incoming
merged _ _ existing incoming = some incoming

unfoldable pub merge_events :
    PendingNormalizedEvent → PendingNormalizedEvent → Option PendingNormalizedEvent
merge_events existing incoming = merged existing.kind incoming.kind existing incoming

unfoldable pub insert_pending : WatchEventStream → PendingNormalizedEvent → ℕ → WatchEventStream
insert_pending s event now =
    if leb s.batch_max_events (len s.pending) && not (contains_key s.pending event.path)
    then record s { dropped_events = (s.dropped_events + 1) % 2 ^ 64 }
    else record s {
      pending = insert s.pending event.path (record { event = event; last_update = now });
    }

abbrev pub is_renamed : NormalizedEventKind → Bool
is_renamed renamed = true
is_renamed created = false
is_renamed modified = false
is_renamed removed = false
is_renamed other = false

-- The first half of `push_raw_event`: a rename takes up what is pending under the old path.
unfoldable pub take_up_rename :
    WatchEventStream → PendingNormalizedEvent → WatchEventStream × PendingNormalizedEvent
take_up_rename s normalized =
    elim (if is_renamed normalized.kind then normalized.previous_path else none) [
      | none ↦ (s, normalized)
      | some previous_path ↦ elim (get s.pending previous_path) [
        | none ↦ (s, normalized)
        | some previous ↦ (
          record s { pending = remove s.pending previous_path },
          merge_rename previous.event normalized,
        )
      ]
    ]

-- The second half: the event meets what is pending under its own path.
unfoldable pub settle : WatchEventStream → PendingNormalizedEvent → ℕ → WatchEventStream
settle s normalized now = elim (get s.pending normalized.path) [
  | none ↦ insert_pending s normalized now
  | some existing ↦
      let s' : WatchEventStream = record s { pending = remove s.pending normalized.path } in
      elim (merge_events existing.event normalized) [
        | none ↦ s'
        | some event ↦ insert_pending s' event now
      ]
]

unfoldable pub push_raw_event : WatchEventStream → RawWatchEvent → ℕ → WatchEventStream
unfolding raw_kind_to_normalized
push_raw_event s event now =
    let (s', normalized) = take_up_rename s (record {
      kind = raw_kind_to_normalized event.kind;
      path = event.path;
      previous_path = event.previous_path;
    }) in
    settle s' normalized now

unfoldable pub push_raw_batch : WatchEventStream → List RawWatchEvent → ℕ → WatchEventStream
push_raw_batch s [] now = s
push_raw_batch s (event ∷ events) now = push_raw_batch (push_raw_event s event now) events now

unfoldable pub kind_rank : NormalizedEventKind → ℕ
kind_rank created = 0
kind_rank modified = 1
kind_rank removed = 2
kind_rank renamed = 3
kind_rank other = 4

-- `Ord` on options: `None` comes first.
abbrev pub cmp_option : Option Text → Option Text → Ordering
cmp_option none none = eq
cmp_option none (some b) = lt
cmp_option (some a) none = gt
cmp_option (some a) (some b) = text_ord.cmp a b

abbrev pub event_order : PendingNormalizedEvent → PendingNormalizedEvent → Ordering
event_order =
    both (by_key (λ e. e.path))
      (both (λ a b. cmp_option a.previous_path b.previous_path) (by_key (λ e. kind_rank e.kind)))

-- The loop of `flush_keys` that takes the events out.
unfoldable pub take_events :
    Dict Text PendingEvent → List Text → Dict Text PendingEvent × List PendingNormalizedEvent
take_events pending [] = (pending, [])
take_events pending (key ∷ rest) = elim (get pending key) [
  | none ↦ take_events pending rest
  | some p ↦
      let (pending', events) = take_events (remove pending key) rest in (pending', p.event ∷ events)
]

-- The loop that numbers them.
unfoldable pub number_events : ℕ → List PendingNormalizedEvent → ℕ × List NormalizedEvent
number_events next_sequence [] = (next_sequence, [])
number_events next_sequence (event ∷ events) =
    let (next, rest) = number_events ((next_sequence + 1) % 2 ^ 64) events in
    (
      next,
      record {
        sequence = next_sequence;
        kind = event.kind;
        path = event.path;
        previous_path = event.previous_path;
      }
          ∷ rest,
    )

unfoldable pub flush_keys : WatchEventStream → List Text → WatchEventStream × List NormalizedEvent
flush_keys s keys =
    let (pending, flushed) = take_events s.pending (sort_by (by_key (λ k. k)) keys) in
    let (next, events) = number_events s.next_sequence (sort_by event_order flushed) in
    (record s { pending = pending; next_sequence = next }, events)

abbrev pub is_ready : WatchEventStream → ℕ → PendingEvent → Bool
is_ready s now p = leb s.debounce_window (now - p.last_update)

unfoldable pub ready_keys : WatchEventStream → ℕ → List Text
ready_keys s now =
    map (λ (e : Text × PendingEvent). e.0) (filter (λ e. is_ready s now e.1) s.pending.entries)

unfoldable pub drain_ready : WatchEventStream → ℕ → WatchEventStream × List NormalizedEvent
unfolding ready_keys flush_keys
drain_ready s now = flush_keys s (ready_keys s now)

unfoldable pub flush_all : WatchEventStream → WatchEventStream × List NormalizedEvent
unfolding flush_keys
flush_all s = flush_keys s (keys s.pending)

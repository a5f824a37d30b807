-- ===== src/Watcher/Stream/Merge.antt =====
-- crates/hyperindex-watcher/src/normalize.rs: what one more event does to the pending ones.
use mathlib.Core.Option
use repo_hyperindex.Base.{
  ℕ, ◌+◌, ◌%◌, ◌^◌, ◌<◌, ◌≡◌, ◌↔◌, refl, ap, Bool, true, false, none, some, arith, leb,
  if◌then◌else◌, is_some, Option-cases, inl, inr,
}
use repo_hyperindex.Base.Order.{beq, beq_iff}
use repo_hyperindex.Base.Text.{text_ord, Text}
use repo_hyperindex.Base.Dict.{get, remove, get-insert, get-remove, len}
use repo_hyperindex.Base.Size.{len-remove-lt}
use repo_hyperindex.Watcher.Stream.{
  NormalizedEventKind, created, modified, removed, renamed, other, PendingNormalizedEvent,
  PendingEvent, WatchEventStream, merged, merge_events, insert_pending, settle,
}
use repo_hyperindex.Watcher.Stream.Bounds.{IsWell}

abbrev pub is_created : NormalizedEventKind → Bool
is_created created = true
is_created modified = false
is_created removed = false
is_created renamed = false
is_created other = false

abbrev pub is_removed : NormalizedEventKind → Bool
is_removed created = false
is_removed modified = false
is_removed removed = true
is_removed renamed = false
is_removed other = false

merged_exact :
    (k k' : NormalizedEventKind) (existing incoming : PendingNormalizedEvent)
    → existing.path ≡ incoming.path
    → existing.kind ≡ k
    → incoming.kind ≡ k'
    → ((merged k k' existing incoming ≡ none) ↔ ((is_created k ≡ true) × (is_removed k' ≡ true)))
      × ((m : PendingNormalizedEvent)
          → merged k k' existing incoming ≡ some m
          → (m.path ≡ incoming.path) × (is_removed m.kind ≡ is_removed k'))
merged_exact k k' existing incoming same h h' = ground arith

-- What two events for a path merge to, if they do not cancel, is for that path, and it is a removal
-- exactly if the later event is one.
pub merge_events-path :
    (existing incoming m : PendingNormalizedEvent)
    → existing.path ≡ incoming.path
    → merge_events existing incoming ≡ some m
    → (m.path ≡ incoming.path) × (is_removed m.kind ≡ is_removed incoming.kind)
unfolding merge_events
merge_events-path existing incoming m same =
    (merged_exact existing.kind incoming.kind existing incoming same refl refl).1 m

-- Two events for a path cancel exactly if the earlier one creates the file and the later removes it.
pub merge_events_exact :
    (existing incoming : PendingNormalizedEvent)
    → existing.path ≡ incoming.path
    → (merge_events existing incoming ≡ none)
      ↔ ((is_created existing.kind ≡ true) × (is_removed incoming.kind ≡ true))
unfolding merge_events
merge_events_exact existing incoming same =
    (merged_exact existing.kind incoming.kind existing incoming same refl refl).0

insert_pending-room :
    (s : WatchEventStream) (e : PendingNormalizedEvent) (now : ℕ) (k : Text)
    → len s.pending < s.batch_max_events
    → get (insert_pending s e now).pending k
      ≡ (if beq e.path k then some (record { event = e; last_update = now }) else get s.pending k)
unfolding insert_pending
insert_pending-room s e now k h =
    ground (arith, get-insert s.pending e.path k (record { event = e; last_update = now }))

insert_pending-kept :
    (s : WatchEventStream) (e : PendingNormalizedEvent) (now : ℕ)
    → len s.pending < s.batch_max_events
    → (insert_pending s e now).dropped_events ≡ s.dropped_events
unfolding insert_pending
insert_pending-kept s e now h = ground arith

-- In a stream that is well-formed (`IsWell`), an event for a path that is pending already is never
-- dropped: it is merged into the pending one, or cancels it, and the other paths stay as they were.
pub settle_pending :
    (s : WatchEventStream) (e : PendingNormalizedEvent) (now : ℕ) (x : PendingEvent) (k : Text)
    → IsWell s
    → get s.pending e.path ≡ some x
    → ((settle s e now).dropped_events ≡ s.dropped_events)
      × (get (settle s e now).pending k ≡ (
          if beq e.path k
          then Option.map (λ m. record { event = m; last_update = now }) (merge_events x.event e)
          else get s.pending k))
unfolding settle
settle_pending s e now x k w taken = elim (Option-cases (merge_events x.event e)) [
  | inl gone ↦
      rw (taken, gone, settle)
        (refl, ground (arith, get-remove s.pending e.path k, beq_iff e.path k))
  | inr (m, kept) ↦
      let s' : WatchEventStream = record s { pending = remove s.pending e.path } in
      let (path, _) = merge_events-path x.event e m (w.keyed e.path x taken) kept in
      let room : len s'.pending < s.batch_max_events =
        ground (arith, len-remove-lt s.pending e.path (ap is_some taken), w.bounded) in
      rw (taken, kept, settle)
        (
          insert_pending-kept s' m now room,
          ground (
            arith,
            insert_pending-room s' m now k room,
            get-remove s.pending e.path k,
            beq_iff e.path k,
            beq_iff m.path k,
            path,
          ),
        )
]

-- An event for a path that is not pending is recorded as it is if there is room, and otherwise
-- counted as dropped; the other paths stay as they were either way.
pub settle_free :
    (s : WatchEventStream) (e : PendingNormalizedEvent) (now : ℕ) (k : Text)
    → get s.pending e.path ≡ none
    → (get (settle s e now).pending k ≡ (
        if beq e.path k
        then (if leb s.batch_max_events (len s.pending)
            then none
            else some (record { event = e; last_update = now }))
        else get s.pending k))
      × ((settle s e now).dropped_events ≡ (
          if leb s.batch_max_events (len s.pending)
          then (s.dropped_events + 1) % 2 ^ 64
          else s.dropped_events))
unfolding settle insert_pending
settle_free s e now k free =
    rw (free, settle)
      (
        ground (
          arith,
          free,
          beq_iff e.path k,
          get-insert s.pending e.path k (record { event = e; last_update = now }),
        ),
        ground (arith, free),
      )

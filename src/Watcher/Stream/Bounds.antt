-- ===== src/Watcher/Stream/Bounds.antt =====
-- crates/hyperindex-watcher/src/normalize.rs: what the pending events of a stream keep to.
use repo_hyperindex.Base.{
  ℕ, ◌≤◌, ◌≡◌, refl, ◌∙◌, not, ◌&&◌, none, some, List, [], ◌∷◌, arith, leb, if◌then◌else◌,
  Bool-cases, Option-cases, inl, inr,
}
use repo_hyperindex.Base.Order.{beq_iff}
use repo_hyperindex.Base.Sort.{sort_by, by_key}
use repo_hyperindex.Base.Text.{text_ord, Text}
use repo_hyperindex.Base.Dict.{get, remove, get-insert, get-remove, get-empty, contains_key, len}
use repo_hyperindex.Base.Ascending.{IsOrdered, insert-IsOrdered, remove-IsOrdered}
use repo_hyperindex.Base.Size.{len-insert, len-remove-le}
use repo_hyperindex.Watcher.Stream.{
  RawWatchEvent, PendingNormalizedEvent, PendingEvent, WatchEventStream, new, merge_events,
  insert_pending, take_up_rename, is_renamed, settle, push_raw_event, push_raw_batch, take_events,
  flush_keys,
}

-- The keys are in order, each is the path of its event, and there are at most as many as the batch
-- limit allows.
pub record IsWell (s : WatchEventStream) : Type 0 where
  pub ordered : IsOrdered s.pending
  pub keyed : (k : Text) (p : PendingEvent) → get s.pending k ≡ some p → p.event.path ≡ k
  pub bounded : len s.pending ≤ s.batch_max_events

pub new-IsWell : (debounce_ms batch_max_events : ℕ) → IsWell (new debounce_ms batch_max_events)
unfolding new
new-IsWell d b = record {
  ordered = tt;
  keyed = λ k p e. absurd (ground (arith, get-empty {V = PendingEvent} k));
  bounded = omega arith;
}

insert_pending-IsWell :
    (s : WatchEventStream) (e : PendingNormalizedEvent) (now : ℕ)
    → IsWell s
    → IsWell (insert_pending s e now)
unfolding insert_pending
insert_pending-IsWell s e now w =
    let p : PendingEvent = record { event = e; last_update = now } in
    elim (Bool-cases
      (leb s.batch_max_events (len s.pending) && not (contains_key s.pending e.path))) [
        | inl full ↦ rw full (record { ordered = w.ordered; keyed = w.keyed; bounded = w.bounded })
        | inr room ↦ rw room (record {
          ordered = insert-IsOrdered s.pending e.path p w.ordered;
          keyed = λ k q h.
              ground (arith, get-insert s.pending e.path k p, beq_iff e.path k, w.keyed k q);
          bounded = ground (arith, len-insert s.pending e.path p w.ordered, w.bounded);
        })
      ]

remove-IsWell :
    (s : WatchEventStream) (path : Text)
    → IsWell s
    → IsWell (record s { pending = remove s.pending path })
remove-IsWell s path w = record {
  ordered = remove-IsOrdered s.pending path w.ordered;
  keyed = λ k q h. ground (arith, get-remove s.pending path k, w.keyed k q);
  bounded = omega (arith, len-remove-le s.pending path, w.bounded);
}

settle-IsWell :
    (s : WatchEventStream) (e : PendingNormalizedEvent) (now : ℕ)
    → IsWell s
    → IsWell (settle s e now)
unfolding settle
settle-IsWell s e now w = elim (Option-cases (get s.pending e.path)) [
  | inl free ↦ rw (free, settle) (insert_pending-IsWell s e now w)
  | inr (x, taken) ↦
      let s' : WatchEventStream = record s { pending = remove s.pending e.path } in
      let w' = remove-IsWell s e.path w in
      elim (Option-cases (merge_events x.event e)) [
        | inl gone ↦ rw (taken, gone, settle) w'
        | inr (m, kept) ↦ rw (taken, kept, settle) (insert_pending-IsWell s' m now w')
      ]
]

take_up_rename-IsWell :
    (s : WatchEventStream) (e : PendingNormalizedEvent) → IsWell s → IsWell (take_up_rename s e).0
unfolding take_up_rename
take_up_rename-IsWell s e w =
    elim (Option-cases (if is_renamed e.kind then e.previous_path else none)) [
      | inl plain ↦ rw (plain, take_up_rename) w
      | inr (previous, from) ↦ elim (Option-cases (get s.pending previous)) [
        | inl free ↦ rw (from, free, take_up_rename) w
        | inr (x, taken) ↦ rw (from, taken, take_up_rename) (remove-IsWell s previous w)
      ]
    ]

pub push_raw_event-IsWell :
    (s : WatchEventStream) (event : RawWatchEvent) (now : ℕ)
    → IsWell s
    → IsWell (push_raw_event s event now)
unfolding push_raw_event
push_raw_event-IsWell s event now w =
    settle-IsWell (take_up_rename s _).0 (take_up_rename s _).1 now (take_up_rename-IsWell s _ w)

-- A batch of events, whatever it holds, leaves the pending events within the batch limit, each under
-- its own path, in the order of the paths, if they were so before.
pub push_raw_batch-IsWell :
    (s : WatchEventStream) (events : List RawWatchEvent) (now : ℕ)
    → IsWell s
    → IsWell (push_raw_batch s events now)
unfolding push_raw_batch
push_raw_batch-IsWell s [] now w = w
push_raw_batch-IsWell s (event ∷ events) now w =
    push_raw_batch-IsWell (push_raw_event s event now) events now
      (push_raw_event-IsWell s event now w)

take_events-IsWell :
    (s : WatchEventStream) (ks : List Text)
    → IsWell s
    → IsWell (record s { pending = (take_events s.pending ks).0 })
unfolding take_events
take_events-IsWell s [] w = w
take_events-IsWell s (k ∷ ks) w = elim (Option-cases (get s.pending k)) [
  | inl free ↦ rw (free, take_events) (take_events-IsWell s ks w)
  | inr (x, taken) ↦
      rw (taken, take_events)
        (take_events-IsWell (record s { pending = remove s.pending k }) ks (remove-IsWell s k w))
]

pub flush_keys-IsWell :
    (s : WatchEventStream) (ks : List Text) → IsWell s → IsWell (flush_keys s ks).0
unfolding flush_keys
flush_keys-IsWell s ks w =
    let w' = take_events-IsWell s (sort_by (by_key (λ (k : Text). k)) ks) w in
    record { ordered = w'.ordered; keyed = w'.keyed; bounded = w'.bounded }

settle-next :
    (s : WatchEventStream) (e : PendingNormalizedEvent) (now : ℕ)
    → (settle s e now).next_sequence ≡ s.next_sequence
unfolding settle insert_pending
settle-next s e now = elim (Option-cases (get s.pending e.path)) [
  | inl free ↦ rw (free, settle) (ground arith)
  | inr (x, taken) ↦ elim (Option-cases (merge_events x.event e)) [
    | inl gone ↦ rw (taken, gone, settle) refl
    | inr (m, merged) ↦ rw (taken, merged, settle) (ground arith)
  ]
]

take_up_rename-next :
    (s : WatchEventStream) (e : PendingNormalizedEvent)
    → (take_up_rename s e).0.next_sequence ≡ s.next_sequence
unfolding take_up_rename
take_up_rename-next s e = ground arith

-- Only a flush moves the counter.
pub push_raw_batch-next :
    (s : WatchEventStream) (events : List RawWatchEvent) (now : ℕ)
    → (push_raw_batch s events now).next_sequence ≡ s.next_sequence
unfolding push_raw_batch push_raw_event
push_raw_batch-next s [] now = refl
push_raw_batch-next s (event ∷ events) now =
    push_raw_batch-next (push_raw_event s event now) events now
    ∙ settle-next (take_up_rename s _).0 (take_up_rename s _).1 now
    ∙ take_up_rename-next s _

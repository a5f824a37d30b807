-- ===== src/Watcher/Stream/Handed.antt =====
-- crates/hyperindex-watcher/src/normalize.rs: a flush hands out the pending event of a path as it is,
-- and once.
use repo_hyperindex.Base.{
  ℕ, suc, ◌+◌, ◌%◌, ◌^◌, ◌≤◌, ◌≡◌, ◌∙◌, refl, ap, Bool, true, false, Option, none, some, List, [],
  ◌∷◌, arith, length, filter, map, Option-cases, Bool-cases, inl, inr, Ordering,
}
use repo_hyperindex.Base.Order.{beq, beq_iff}
use repo_hyperindex.Base.Sort.{sort_by, insert_by, by_key, any-sort_by}
use repo_hyperindex.Base.Text.{text_ord, Text}
use repo_hyperindex.Base.Dict.{Dict, get, remove, get-remove}
use repo_hyperindex.Base.Distinct.{contains}
use repo_hyperindex.Watcher.Stream.{
  PendingNormalizedEvent, PendingEvent, NormalizedEvent, WatchEventStream, event_order, take_events,
  number_events, flush_keys,
}
use repo_hyperindex.Watcher.Stream.Bounds.{IsWell}

-- An event without its number.
abbrev pub unnumbered : NormalizedEvent → PendingNormalizedEvent
unnumbered e = record { kind = e.kind; path = e.path; previous_path = e.previous_path }

-- The events of a path.
abbrev pub events_at : Text → List NormalizedEvent → List PendingNormalizedEvent
events_at path events = map unnumbered (filter (λ e. beq e.path path) events)

abbrev at_path : Text → PendingNormalizedEvent → Bool
at_path path e = beq e.path path

events_at-number_events :
    (n : ℕ) (es : List PendingNormalizedEvent) (path : Text)
    → events_at path (number_events n es).1 ≡ filter (at_path path) es
unfolding number_events
events_at-number_events n [] path = refl
events_at-number_events n (e ∷ es) path = elim (Bool-cases (beq e.path path)) [
  | inl here ↦ rw here (ap (λ xs. e ∷ xs) (events_at-number_events ((n + 1) % 2 ^ 64) es path))
  | inr there ↦ rw there (events_at-number_events ((n + 1) % 2 ^ 64) es path)
]

no_more {ℓ} : {A : Type ℓ} → (xs : List A) → suc (length xs) ≤ 1 → xs ≡ []
no_more [] h = refl
no_more (x ∷ xs) h = absurd (omega (arith, h))

module _ {ℓ} {A : Type ℓ} (cmp : A → A → Ordering) (p : A → Bool) where
  filter-insert_by_other :
      (x : A) (xs : List A) → p x ≡ false → filter p (insert_by cmp x xs) ≡ filter p xs
  unfolding insert_by
  filter-insert_by_other x [] other = rw other refl
  filter-insert_by_other x (y ∷ ys) other = ground (arith, filter-insert_by_other x ys)

  filter-insert_by_first :
      (x : A) (xs : List A) → p x ≡ true → filter p xs ≡ [] → filter p (insert_by cmp x xs) ≡ x ∷ []
  unfolding insert_by
  filter-insert_by_first x [] here none_yet = rw here refl
  filter-insert_by_first x (y ∷ ys) here none_yet = ground (arith, filter-insert_by_first x ys)

  -- If at most one element passes a test, sorting does not change which.
  filter-sort_by :
      (xs : List A) → length (filter p xs) ≤ 1 → filter p (sort_by cmp xs) ≡ filter p xs
  unfolding sort_by
  filter-sort_by [] few = refl
  filter-sort_by (x ∷ xs) few = elim (Bool-cases (p x)) [
    | inl here ↦
        let empty = no_more (filter p xs) (rw here at few) in
        let still = filter-sort_by xs (rw empty (omega arith)) in
        rw (here, empty) (filter-insert_by_first x (sort_by cmp xs) here (still ∙ empty))
    | inr other ↦
        rw other
          (filter-insert_by_other x (sort_by cmp xs) other ∙ filter-sort_by xs (rw other at few))
  ]

-- The event that is pending for a path, if it is asked for.
abbrev pub asked : Bool → Option PendingEvent → List PendingNormalizedEvent
asked false p = []
asked true none = []
asked true (some p) = p.event ∷ []

filter-take_events :
    (pending : Dict Text PendingEvent) (ks : List Text) (path : Text)
    → ((k : Text) (p : PendingEvent) → get pending k ≡ some p → p.event.path ≡ k)
    → filter (at_path path) (take_events pending ks).1 ≡ asked (contains ks path) (get pending path)
unfolding take_events
filter-take_events pending [] path keyed = refl
filter-take_events pending (key ∷ ks) path keyed = elim (Option-cases (get pending key)) [
  | inl free ↦
      rw (free, take_events)
        (ground (arith, filter-take_events pending ks path keyed, beq_iff key path, free))
  | inr (p, found) ↦
      let rest =
        filter-take_events (remove pending key) ks path
          (λ k q h. ground (arith, keyed k q, get-remove pending key k)) in
      rw (found, take_events)
        (ground (
          arith,
          rest,
          keyed key p found,
          get-remove pending key path,
          beq_iff key path,
          beq_iff p.event.path path,
          found,
        ))
]

asked_once : (b : Bool) (p : Option PendingEvent) → length (asked b p) ≤ 1
asked_once false p = omega arith
asked_once true none = omega arith
asked_once true (some p) = omega arith

pub flush_keys-events_at :
    (s : WatchEventStream) (ks : List Text) (path : Text)
    → IsWell s
    → events_at path (flush_keys s ks).1 ≡ asked (contains ks path) (get s.pending path)
unfolding flush_keys
flush_keys-events_at s ks path w =
    let sorted_keys = sort_by (by_key (λ (k : Text). k)) ks in
    let flushed = (take_events s.pending sorted_keys).1 in
    let taken = filter-take_events s.pending sorted_keys path w.keyed in
    events_at-number_events s.next_sequence (sort_by event_order flushed) path
    ∙ filter-sort_by event_order (at_path path) flushed
        (rw taken (asked_once (contains sorted_keys path) (get s.pending path)))
    ∙ taken
    ∙ ap (λ b. asked b (get s.pending path))
        (any-sort_by (by_key (λ (x : Text). x)) (λ x. beq x path) ks)

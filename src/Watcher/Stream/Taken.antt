-- ===== src/Watcher/Stream/Taken.antt =====
-- crates/hyperindex-watcher/src/normalize.rs: the two loops of `flush_keys`.
use repo_hyperindex.Base.{
  ℕ, suc, ◌+◌, ◌%◌, ◌^◌, ◌<◌, ◌≡◌, refl, ap, true, ◌&&◌, ◌||◌, Option, none, some, List, [], ◌∷◌,
  arith, if◌then◌else◌, length, any, All, Option-cases, inl, inr,
}
use repo_hyperindex.Base.Order.{beq, beq_iff, not_gt, reverse, nat_ord}
use repo_hyperindex.Base.Sort.{IsSorted, by_key, by_key-IsWeak, both-IsWeak, IsWeak}
use repo_hyperindex.Base.Text.{text_ord, Text}
use repo_hyperindex.Base.Dict.{Dict, get, remove, get-remove, contains_key}
use repo_hyperindex.Base.Distinct.{contains}
use repo_hyperindex.Watcher.Stream.{
  PendingNormalizedEvent, PendingEvent, NormalizedEvent, kind_rank, cmp_option, event_order,
  take_events, number_events,
}

cmp_option-IsWeak : IsWeak cmp_option
cmp_option-IsWeak = record { swap = go_swap; chain = go_chain }
  where
    go_swap : (a b : Option Text) → cmp_option b a ≡ reverse (cmp_option a b)
    go_swap none none = refl
    go_swap none (some b) = refl
    go_swap (some a) none = refl
    go_swap (some a) (some b) = (by_key-IsWeak (λ (t : Text). t)).swap a b

    go_chain :
        (a b c : Option Text)
        → not_gt (cmp_option a b) ≡ true
        → not_gt (cmp_option b c) ≡ true
        → not_gt (cmp_option a c) ≡ true
    go_chain none b none h k = refl
    go_chain none b (some c) h k = refl
    go_chain (some a) none c h k = cc
    go_chain (some a) (some b) none h k = cc
    go_chain (some a) (some b) (some c) h k = (by_key-IsWeak (λ (t : Text). t)).chain a b c h k

pub event_order-IsWeak : IsWeak event_order
event_order-IsWeak = both-IsWeak (by_key (λ e. e.path)) _ (by_key-IsWeak (λ e. e.path)) (
    both-IsWeak (λ a b. cmp_option a.previous_path b.previous_path) (by_key (λ e. kind_rank e.kind))
      (record {
        swap = λ a b. cmp_option-IsWeak.swap a.previous_path b.previous_path;
        chain = λ a b c. cmp_option-IsWeak.chain a.previous_path b.previous_path c.previous_path;
      })
      (by_key-IsWeak (λ e. kind_rank e.kind)))

-- What is left after the events of some keys are taken out.
pub get-take_events :
    (pending : Dict Text PendingEvent) (ks : List Text) (k : Text)
    → get (take_events pending ks).0 k ≡ (if contains ks k then none else get pending k)
unfolding take_events
get-take_events pending [] k = refl
get-take_events pending (key ∷ ks) k = ground (
  arith,
  get-take_events pending ks k,
  get-take_events (remove pending key) ks k,
  get-remove pending key k,
  beq_iff key k,
)

-- The events that are taken out: one for each path that is pending and asked for.
pub any-take_events :
    (pending : Dict Text PendingEvent) (ks : List Text) (path : Text)
    → ((k : Text) (p : PendingEvent) → get pending k ≡ some p → p.event.path ≡ k)
    → any (λ e. beq e.path path) (take_events pending ks).1
      ≡ (contains ks path && contains_key pending path)
unfolding take_events
any-take_events pending [] path keyed = refl
any-take_events pending (key ∷ ks) path keyed = elim (Option-cases (get pending key)) [
  | inl free ↦
      rw (free, take_events)
        (ground (arith, any-take_events pending ks path keyed, beq_iff key path, free))
  | inr (p, found) ↦
      let rest =
        any-take_events (remove pending key) ks path
          (λ k q h. ground (arith, keyed k q, get-remove pending key k)) in
      rw (found, take_events)
        (ground (
          arith,
          rest,
          keyed key p found,
          get-remove pending key path,
          beq_iff key path,
          beq_iff p.event.path path,
          found,
        ))
]

-- The sequence numbers of a batch go up by one from `n`.
abbrev pub Consecutive : ℕ → List NormalizedEvent → Type 0
Consecutive n [] = Unit
Consecutive n (e ∷ es) = (e.sequence ≡ n) × Consecutive (n + 1) es

pub length-number_events :
    (n : ℕ) (es : List PendingNormalizedEvent) → length (number_events n es).1 ≡ length es
unfolding number_events
length-number_events n [] = refl
length-number_events n (e ∷ es) = ap suc (length-number_events ((n + 1) % 2 ^ 64) es)

pub Consecutive-number_events :
    (n : ℕ) (es : List PendingNormalizedEvent)
    → n + length es < 2 ^ 64
    → Consecutive n (number_events n es).1 × ((number_events n es).0 ≡ n + length es)
unfolding number_events
Consecutive-number_events n [] h = (tt, omega arith)
Consecutive-number_events n (e ∷ es) h =
    let next : (n + 1) % 2 ^ 64 ≡ n + 1 = omega arith in
    let (rest, last) = Consecutive-number_events (n + 1) es (omega arith) in
    ((refl, rw next rest), rw next (omega (arith, last)))

pub any-number_events :
    (n : ℕ) (es : List PendingNormalizedEvent) (path : Text)
    → any (λ (e : NormalizedEvent). beq e.path path) (number_events n es).1
      ≡ any (λ (e : PendingNormalizedEvent). beq e.path path) es
unfolding number_events
any-number_events n [] path = refl
any-number_events n (e ∷ es) path =
    ap (λ b. beq e.path path || b) (any-number_events ((n + 1) % 2 ^ 64) es path)

-- The paths of a batch are in order.
abbrev pub IsByPath : List NormalizedEvent → Type 0
IsByPath = IsSorted (by_key (λ (e : NormalizedEvent). e.path))

above-number_events :
    (n : ℕ) (path : Text) (es : List PendingNormalizedEvent)
    → All (λ (e : PendingNormalizedEvent). not_gt (text_ord.cmp path e.path) ≡ true) es
    → All (λ (e : NormalizedEvent). not_gt (text_ord.cmp path e.path) ≡ true) (number_events n es).1
unfolding number_events
above-number_events n path [] h = tt
above-number_events n path (e ∷ es) h = (h.0, above-number_events ((n + 1) % 2 ^ 64) path es h.1)

by_path_of_order :
    (x : PendingNormalizedEvent) (es : List PendingNormalizedEvent)
    → All (λ e. not_gt (event_order x e) ≡ true) es
    → All (λ (e : PendingNormalizedEvent). not_gt (text_ord.cmp x.path e.path) ≡ true) es
by_path_of_order x [] h = tt
by_path_of_order x (e ∷ es) h = (path_first x e h.0, by_path_of_order x es h.1)
  where
    path_first :
        (x e : PendingNormalizedEvent)
        → not_gt (event_order x e) ≡ true
        → not_gt (text_ord.cmp x.path e.path) ≡ true
    path_first x e h = ground arith

pub IsByPath-number_events :
    (n : ℕ) (es : List PendingNormalizedEvent)
    → IsSorted event_order es
    → IsByPath (number_events n es).1
unfolding number_events
IsByPath-number_events n [] h = tt
IsByPath-number_events n (e ∷ es) h = (
  above-number_events ((n + 1) % 2 ^ 64) e.path es (by_path_of_order e es h.0),
  IsByPath-number_events ((n + 1) % 2 ^ 64) es h.1,
)

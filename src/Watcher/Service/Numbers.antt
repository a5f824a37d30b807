-- ===== src/Watcher/Service/Numbers.antt =====
-- crates/hyperindex-watcher/src/watcher.rs: when `watch_once` returns, and what it hands out.
use repo_hyperindex.Base.{
  ℕ, ◌+◌, ◌^◌, ◌<◌, ◌≡◌, refl, sym, ap, subst, ◌∙◌, ◌≢◌, ◌||◌, Bool, leb, All, true, false, Option,
  none, some, List, [], ◌∷◌, ◌++◌, append_assoc, arith, length, length-append, Bool-cases,
  Option-cases, inl, inr,
}
use repo_hyperindex.Base.Order.{beq}
use repo_hyperindex.Base.Sort.{sort_by, by_key, any-sort_by}
use repo_hyperindex.Base.Text.{text_ord, Text}
use repo_hyperindex.Base.Dict.{get, keys, keys-get}
use repo_hyperindex.Errors.{HyperindexError, from_ok, Result, ok, err, Result-cases}
use repo_hyperindex.Watcher.Stream.{
  RawWatchEvent, NormalizedEvent, WatchEventStream, push_raw_batch, drain_ready, flush_all,
  flush_keys, ready_keys,
}
use repo_hyperindex.Watcher.Stream.Bounds.{
  IsWell, push_raw_batch-IsWell, flush_keys-IsWell, push_raw_batch-next,
}
use repo_hyperindex.Watcher.Stream.Taken.{Consecutive, get-take_events}
use repo_hyperindex.Watcher.Stream.Flush.{flush_keys_exact}
use repo_hyperindex.Watcher.Service.{
  WatcherService, WatchBackend, WatchRun, Round, drain_round, is_over, watch_loop, finish,
  watch_once,
}

Consecutive-append :
    (n : ℕ) (front back : List NormalizedEvent)
    → Consecutive n front
    → Consecutive (n + length front) back
    → Consecutive n (front ++ back)
Consecutive-append n [] back h k = subst (λ m. Consecutive m back) (omega arith) k
Consecutive-append n (e ∷ front) back h k = (
  h.0,
  Consecutive-append (n + 1) front back h.1 (subst (λ m. Consecutive m back) (omega arith) k),
)

-- What a stretch of the service's work does to the stream: it stays well-formed, and unless the
-- counter reaches 2^64 the events handed out are numbered on from it.
record Hands (s : WatchEventStream) (events : List NormalizedEvent) (s' : WatchEventStream)
    : Type 0 where
  well : IsWell s'
  numbered :
      s.next_sequence + length events < 2 ^ 64
      → Consecutive s.next_sequence events × (s'.next_sequence ≡ s.next_sequence + length events)

Hands-then :
    (s s' s'' : WatchEventStream) (front back : List NormalizedEvent)
    → Hands s front s'
    → Hands s' back s''
    → Hands s (front ++ back) s''
Hands-then s s' s'' front back h k = record {
  well = k.well;
  numbered = λ fits.
      let (here, next) = h.numbered (omega (arith, fits, length-append front back)) in
      let (there, last) = k.numbered (omega (arith, fits, next, length-append front back)) in
      (
        Consecutive-append s.next_sequence front back here
            (subst (λ m. Consecutive m back) next there),
        omega (arith, next, last, length-append front back),
      );
}

Hands-flush :
    (s : WatchEventStream) (ks : List Text)
    → IsWell s
    → Hands s (flush_keys s ks).1 (flush_keys s ks).0
Hands-flush s ks w = record {
  well = flush_keys-IsWell s ks w;
  numbered = λ fits. let exact = flush_keys_exact s ks [] w fits in (exact.3, exact.4);
}

Hands-drain :
    (s : WatchEventStream) (raw : List RawWatchEvent) (now : ℕ)
    → IsWell s
    → Hands s
        (drain_ready (push_raw_batch s raw now) now).1
        (drain_ready (push_raw_batch s raw now) now).0
unfolding drain_ready
Hands-drain s raw now w =
    let pushed = push_raw_batch s raw now in
    let h = Hands-flush pushed (ready_keys pushed now) (push_raw_batch-IsWell s raw now w) in
    record {
      well = h.well;
      numbered =
          subst
            (λ n.
              n + length (flush_keys pushed (ready_keys pushed now)).1 < 2 ^ 64
              → Consecutive n (flush_keys pushed (ready_keys pushed now)).1
                × ((flush_keys pushed (ready_keys pushed now)).0.next_sequence
                    ≡ n + length (flush_keys pushed (ready_keys pushed now)).1))
            (push_raw_batch-next s raw now) h.numbered;
    }

not_ok {ℓ} :
    {A : Type ℓ} (error : HyperindexError) (a : A) (o : Option (Result A))
    → o ≡ some (err error)
    → o ≡ some (ok a)
    → ⊥
not_ok error a o h k = cc

some_ok_inj {ℓ} : {A : Type ℓ} {a b : A} → some (ok a) ≡ some (ok b) → a ≡ b
some_ok_inj {a} h = ap (λ o. elim o [ none ↦ a | some r ↦ from_ok a r ]) h

module _ {ℓ κ} {B : Type ℓ} {W : Type κ} (watch : WatchBackend B W) where
  watch_loop-Hands :
      (deadline : ℕ) (service service' : WatcherService B) (events events' : List NormalizedEvent)
      (rounds : List (Round W))
      → IsWell service.stream
      → watch_loop watch deadline service events rounds ≡ some (ok (service', events'))
      → (more : List NormalizedEvent) × (events' ≡ events ++ more)
        × Hands service.stream more service'.stream
  unfolding watch_loop
  watch_loop-Hands deadline service service' events events' [] w h = cc
  watch_loop-Hands deadline service service' events events' (round ∷ rounds) w h =
      elim (Result-cases (watch.poll service.backend round.world)) [
        | inl (error, fails) ↦
            absurd (not_ok error (service', events') _ (rw (fails, watch_loop) refl) h)
        | inr ((backend, raw_events), answers) ↦
            let (next, drained) = drain_round watch service round backend raw_events in
            let hands = Hands-drain service.stream raw_events round.now w in
            elim (Bool-cases (is_over watch deadline round)) [
              | inl over ↦
                  let done : (next, events ++ drained) ≡ (service', events') =
                    some_ok_inj (rw (answers, over, watch_loop) at h) in
                  (
                    drained,
                    sym (ap (λ d. d.1) done),
                    subst (λ (s : WatcherService B). Hands service.stream drained s.stream)
                        (ap (λ d. d.0) done) hands,
                  )
              | inr goes_on ↦
                  let (more, is, later) =
                    watch_loop-Hands deadline next service' (events ++ drained) events' rounds
                      hands.well (rw (answers, goes_on, watch_loop) at h) in
                  (
                    drained ++ more,
                    is ∙ append_assoc events drained more,
                    Hands-then service.stream next.stream service'.stream drained more hands later,
                  )
            ]
      ]

  -- The round starts, or has its events drained, at or after an instant.
  abbrev pub reaches : ℕ → Round W → Bool
  reaches deadline round = leb deadline round.now || leb deadline round.drained_at

  is_over-by :
      (deadline : ℕ) (round : Round W) → is_over watch deadline round ≡ reaches deadline round
  is_over-by deadline round = ground arith

  watch_loop-until :
      (deadline : ℕ) (service : WatcherService B) (events : List NormalizedEvent)
      (before : List (Round W)) (last : Round W)
      → All (λ round. reaches deadline round ≡ false) before
      → reaches deadline last ≡ true
      → (r : Result (WatcherService B × List NormalizedEvent)) × ((after : List (Round W))
          → watch_loop watch deadline service events (before ++ last ∷ after) ≡ some r)
  unfolding watch_loop
  watch_loop-until deadline service events [] last h over =
      elim (Result-cases (watch.poll service.backend last.world)) [
        | inl (error, fails) ↦ (err error, λ after. rw (fails, watch_loop) refl)
        | inr ((backend, raw_events), answers) ↦
            let (next, drained) = drain_round watch service last backend raw_events in
            (
              ok (next, events ++ drained),
              λ after. rw (answers, is_over-by deadline last ∙ over, watch_loop) refl,
            )
      ]
  watch_loop-until deadline service events (round ∷ before) last h over =
      elim (Result-cases (watch.poll service.backend round.world)) [
        | inl (error, fails) ↦ (err error, λ after. rw (fails, watch_loop) refl)
        | inr ((backend, raw_events), answers) ↦
            let (next, drained) = drain_round watch service round backend raw_events in
            let (r, returns) =
              watch_loop-until deadline next (events ++ drained) before last h.1 over in
            (r, λ after. rw (answers, is_over-by deadline round ∙ h.0, watch_loop) (returns after))
      ]

  watch_loop-early :
      (deadline : ℕ) (service : WatcherService B) (events : List NormalizedEvent)
      (before : List (Round W)) (outcome : WatcherService B × List NormalizedEvent)
      → All (λ round. reaches deadline round ≡ false) before
      → watch_loop watch deadline service events before ≢ some (ok outcome)
  unfolding watch_loop
  watch_loop-early deadline service events [] outcome h returns = cc
  watch_loop-early deadline service events (round ∷ before) outcome h returns =
      elim (Result-cases (watch.poll service.backend round.world)) [
        | inl (error, fails) ↦ not_ok error outcome _ (rw (fails, watch_loop) refl) returns
        | inr ((backend, raw_events), answers) ↦
            let (next, drained) = drain_round watch service round backend raw_events in
            watch_loop-early deadline next (events ++ drained) before outcome h.1
              (rw (answers, is_over-by deadline round ∙ h.0, watch_loop) at returns)
      ]

  finish-Hands :
      (s : WatchEventStream) (service : WatcherService B) (events : List NormalizedEvent)
      → Hands s events service.stream
      → Hands s (finish watch service events).1.events (finish watch service events).0.stream
  unfolding flush_all
  finish-Hands s service events h =
      Hands-then s service.stream (flush_all service.stream).0 events (flush_all service.stream).1 h
        (Hands-flush service.stream (keys service.stream.pending) h.well)

  finish-pending :
      (service : WatcherService B) (events : List NormalizedEvent) (k : Text)
      → get (finish watch service events).0.stream.pending k ≡ none
  unfolding flush_all flush_keys
  finish-pending service events k = ground (
    arith,
    get-take_events service.stream.pending
        (sort_by (by_key (λ (x : Text). x)) (keys service.stream.pending)) k,
    any-sort_by (by_key (λ (x : Text). x)) (λ x. beq x k) (keys service.stream.pending),
    keys-get service.stream.pending k,
  )

  watch_once-finish :
      (started timeout : ℕ) (service : WatcherService B) (rounds : List (Round W))
      (outcome : WatcherService B × WatchRun)
      → watch_once watch started timeout service rounds ≡ some (ok outcome)
      → (last : WatcherService B) × (events : List NormalizedEvent) × (watch_loop watch
            (started + timeout)
            service
            []
            rounds
          ≡ some (ok (last, events)))
        × (finish watch last events ≡ outcome)
  unfolding watch_once
  watch_once-finish started timeout service rounds outcome h =
      elim (Option-cases (watch_loop watch (started + timeout) service [] rounds)) [
        | inl never ↦ ground (arith, never, h)
        | inr (r, returns) ↦ elim (Result-cases r) [
          | inl (error, fails) ↦
              absurd (not_ok error outcome _ (rw (returns, fails, watch_once) refl) h)
          | inr ((last, events), passes) ↦ (
            last,
            events,
            returns ∙ ap some passes,
            some_ok_inj (rw (returns, passes, watch_once) at h),
          )
        ]
      ]

  -- `watch_once` returns in the first round that starts, or has its events drained, at or after the
  -- deadline, if not with the error of an earlier poll: its result is the same whatever rounds would
  -- follow, and the rounds before that one alone never make it succeed. (The rounds, so the instants,
  -- are arbitrary, and so is the backend.)
  pub watch_once_returns :
      (started timeout : ℕ) (service : WatcherService B) (before : List (Round W)) (last : Round W)
      → All (λ round. reaches (started + timeout) round ≡ false) before
      → reaches (started + timeout) last ≡ true
      → ((r : Result (WatcherService B × WatchRun)) × ((after : List (Round W))
            → watch_once watch started timeout service (before ++ last ∷ after) ≡ some r))
        × ((outcome : WatcherService B × WatchRun)
            → watch_once watch started timeout service before ≢ some (ok outcome))
  unfolding watch_once
  watch_once_returns started timeout service before last h over =
      let (r, returns) = watch_loop-until (started + timeout) service [] before last h over in
      (
        elim (Result-cases r) [
          | inl (error, fails) ↦ (err error, λ after. rw (returns after, fails, watch_once) refl)
          | inr ((service', events), passes) ↦ (
            ok (finish watch service' events),
            λ after. rw (returns after, passes, watch_once) refl,
          )
        ],
        λ outcome early.
            let (served, events, loops, _) =
              watch_once-finish started timeout service before outcome early in
            watch_loop-early (started + timeout) service [] before (served, events) h loops,
      )

  -- A run of `watch_once` that succeeds, from a well-formed stream (`IsWell`), leaves nothing
  -- pending, and the events it hands out over all its rounds are numbered without a gap from the
  -- counter, which ends past them; unless the counter reaches 2^64.
  pub watch_once_exact :
      (started timeout : ℕ) (service service' : WatcherService B) (run : WatchRun)
      (rounds : List (Round W)) (k : Text)
      → IsWell service.stream
      → watch_once watch started timeout service rounds ≡ some (ok (service', run))
      → service.stream.next_sequence + length run.events < 2 ^ 64
      → (get service'.stream.pending k ≡ none)
        × Consecutive service.stream.next_sequence run.events
        × (service'.stream.next_sequence ≡ service.stream.next_sequence + length run.events)
  watch_once_exact started timeout service service' run rounds k w h fits =
      let (last, events, loops, ends) =
        watch_once-finish started timeout service rounds (service', run) h in
      let (more, is, hands) =
        watch_loop-Hands (started + timeout) service last [] events rounds w loops in
      let whole =
        finish-Hands service.stream last events
          (subst (λ es. Hands service.stream es last.stream) (sym is) hands) in
      let whole' : Hands service.stream run.events service'.stream =
        subst (λ (o : WatcherService B × WatchRun). Hands service.stream o.1.events o.0.stream) ends
          whole in
      let (numbers, next) = whole'.numbered fits in
      (
        subst (λ (o : WatcherService B × WatchRun). get o.0.stream.pending k ≡ none) ends
            (finish-pending last events k),
        numbers,
        next,
      )

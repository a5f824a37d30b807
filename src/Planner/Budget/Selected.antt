-- ===== src/Planner/Budget/Selected.antt =====
-- crates/hyperindex-planner/src/route_registry.rs: what select_budgeted_routes lets run.
use repo_hyperindex.Base.{
  ℕ, ◌+◌, ◌^◌, ◌≤◌, ◌<◌, ◌≡◌, ◌∙◌, sym, refl, ap, Bool, true, false, not, ◌&&◌, ◌||◌, ◌⊎◌, inl, inr,
  Option, none, some, List, [], ◌∷◌, ◌++◌, append-nil, append_assoc, arith, ltb, any, All, length,
  is_some, any-append,
}
use repo_hyperindex.Planner.{PlannerRouteKind}
use repo_hyperindex.Planner.Budget.{
  PlannerBudgetPolicy, budget_for_route, Selecting, is_empty, select_step, select_loop, start,
  deferred_run, finished, select_budgeted_routes,
}

is_empty-snoc :
    (routes : List PlannerRouteKind) (route : PlannerRouteKind)
    → is_empty (routes ++ route ∷ []) ≡ false
is_empty-snoc [] route = refl
is_empty-snoc (r ∷ routes) route = refl

module _ (policy : PlannerBudgetPolicy) where
  -- A route may run at all.
  abbrev pub usable : PlannerRouteKind → Bool
  usable route =
      ltb 0 (budget_for_route policy route).timeout_ms
      && ltb 0 (budget_for_route policy route).max_candidates

  unfoldable pub timeouts : List PlannerRouteKind → ℕ
  timeouts [] = 0
  timeouts (route ∷ routes) = (budget_for_route policy route).timeout_ms + timeouts routes

  timeouts-snoc :
      (routes : List PlannerRouteKind) (route : PlannerRouteKind)
      → timeouts (routes ++ route ∷ [])
        ≡ timeouts routes + (budget_for_route policy route).timeout_ms
  unfolding timeouts
  timeouts-snoc [] route = ground arith
  timeouts-snoc (r ∷ routes) route = omega (arith, timeouts-snoc routes route)

  timeouts-empty : (routes : List PlannerRouteKind) → is_empty routes ≡ true → timeouts routes ≡ 0
  unfolding timeouts
  timeouts-empty [] h = refl
  timeouts-empty (r ∷ routes) h = absurd (ground arith)

  abbrev IsWithin : Selecting → Type 0
  IsWithin st =
      (st.reserved_timeout_ms ≡ timeouts st.selection.executable_routes)
      × (timeouts st.selection.executable_routes ≤ policy.total_timeout_ms)
      × (any (λ r. not (usable r)) st.selection.executable_routes ≡ false)

  select_step-IsWithin :
      (st : Selecting) (route : PlannerRouteKind)
      → policy.total_timeout_ms + 1 < 2 ^ 64
      → IsWithin st
      → IsWithin (select_step policy route st)
  select_step-IsWithin st route small (sum, fits, runs) = ground (
    arith,
    timeouts-snoc st.selection.executable_routes route,
    timeouts-empty st.selection.executable_routes,
    any-append (λ r. not (usable r)) st.selection.executable_routes (route ∷ []),
  )

  abbrev has_run : Selecting → Bool
  has_run st = not (is_empty st.selection.executable_routes) || is_some st.deferred_first_route

  select_step-has_run :
      (st : Selecting) (route : PlannerRouteKind)
      → has_run (select_step policy route st) ≡ (has_run st || usable route)
  select_step-has_run st route = ground (arith, is_empty-snoc st.selection.executable_routes route)

  select_loop-has_run :
      (st : Selecting) (routes : List PlannerRouteKind)
      → has_run (select_loop policy st routes) ≡ (has_run st || any usable routes)
  unfolding select_loop
  select_loop-has_run st [] = ground arith
  select_loop-has_run st (route ∷ routes) = ground (
    arith,
    select_loop-has_run (select_step policy route st) routes,
    select_step-has_run st route,
  )

  select_loop-IsWithin :
      (st : Selecting) (routes : List PlannerRouteKind)
      → policy.total_timeout_ms + 1 < 2 ^ 64
      → IsWithin st
      → IsWithin (select_loop policy st routes)
  unfolding select_loop
  select_loop-IsWithin st [] small h = h
  select_loop-IsWithin st (route ∷ routes) small h =
      select_loop-IsWithin (select_step policy route st) routes small
        (select_step-IsWithin st route small h)

  -- Nothing was turned away, so the routes taken are those at the start and all that came.
  select_step-all :
      (st : Selecting) (route : PlannerRouteKind)
      → (select_step policy route st).selection.budget_exhausted ≡ false
      → (st.selection.budget_exhausted ≡ false)
        × ((select_step policy route st).selection.executable_routes
            ≡ st.selection.executable_routes ++ route ∷ [])
  select_step-all st route h = (ground arith, ground arith)

  select_loop-all :
      (st : Selecting) (routes : List PlannerRouteKind)
      → (select_loop policy st routes).selection.budget_exhausted ≡ false
      → (st.selection.budget_exhausted ≡ false)
        × ((select_loop policy st routes).selection.executable_routes
            ≡ st.selection.executable_routes ++ routes)
  unfolding select_loop
  select_loop-all st [] h = (h, sym (append-nil st.selection.executable_routes))
  select_loop-all st (route ∷ routes) h =
      let (spare, taken) = select_loop-all (select_step policy route st) routes h in
      let (before, added) = select_step-all st route spare in
      (
        before,
        taken
            ∙ ap (λ rs. rs ++ routes) added
            ∙ append_assoc st.selection.executable_routes (route ∷ []) routes,
      )

  deferred_run-empty :
      (taken : List PlannerRouteKind) (first : Option PlannerRouteKind)
      → is_empty (deferred_run taken first) ≡ (is_empty taken && not (is_some first))
  deferred_run-empty [] none = refl
  deferred_run-empty [] (some r) = refl
  deferred_run-empty (r ∷ rs) first = refl

  -- Some route runs exactly if some selected route has a timeout and a number of candidates other
  -- than 0; and if the selection does not report an exhausted budget, every selected route runs, in
  -- the order of selection.
  pub select_budgeted_routes_complete :
      (routes : List PlannerRouteKind)
      → (is_empty (select_budgeted_routes policy routes).executable_routes
          ≡ not (any usable routes))
        × ((select_budgeted_routes policy routes).budget_exhausted ≡ false
            → (select_budgeted_routes policy routes).executable_routes ≡ routes)
  unfolding select_budgeted_routes select_loop
  select_budgeted_routes_complete [] = (refl, λ spare. refl)
  select_budgeted_routes_complete (route ∷ routes) =
      let last = select_loop policy start (route ∷ routes) in
      (
        ground (
          arith,
          deferred_run-empty last.selection.executable_routes last.deferred_first_route,
          select_loop-has_run start (route ∷ routes),
        ),
        λ spare.
            ap (λ taken. deferred_run taken last.deferred_first_route)
              (select_loop-all start (route ∷ routes) spare).1,
      )

  deferred_run-fits :
      (taken : List PlannerRouteKind) (first : Option PlannerRouteKind)
      → timeouts taken ≤ policy.total_timeout_ms
      → (timeouts (deferred_run taken first) ≤ policy.total_timeout_ms)
        ⊎ (length (deferred_run taken first) ≡ 1)
  deferred_run-fits [] none h = inl h
  deferred_run-fits [] (some r) h = inr refl
  deferred_run-fits (r ∷ rs) first h = inl h

  -- If the total timeout is below the greatest 64-bit number, the timeouts of the routes that run
  -- add up to at most it, unless a single route runs.
  pub select_budgeted_routes-fits :
      (routes : List PlannerRouteKind)
      → policy.total_timeout_ms + 1 < 2 ^ 64
      → (timeouts (select_budgeted_routes policy routes).executable_routes
          ≤ policy.total_timeout_ms)
        ⊎ (length (select_budgeted_routes policy routes).executable_routes ≡ 1)
  unfolding select_budgeted_routes timeouts
  select_budgeted_routes-fits routes small =
      let last = select_loop policy start routes in
      let (_, fits, _) = select_loop-IsWithin start routes small (refl, ground arith, refl) in
      deferred_run-fits last.selection.executable_routes last.deferred_first_route fits

  -- A route that may run, but for longer than the total timeout.
  abbrev pub oversized : PlannerRouteKind → Bool
  oversized route =
      usable route && ltb policy.total_timeout_ms (budget_for_route policy route).timeout_ms

  abbrev start_with : Option PlannerRouteKind → Bool → Selecting
  start_with first exhausted = record start {
    selection = record start.selection { budget_exhausted = exhausted };
    deferred_first_route = first;
  }

  select_step-oversized :
      (first : Option PlannerRouteKind) (exhausted : Bool) (route : PlannerRouteKind)
      → oversized route ≡ true
      → select_step policy route (start_with first exhausted) ≡ start_with (some route) true
  select_step-oversized first exhausted route h = ground arith

  select_loop-oversized :
      (first : Option PlannerRouteKind) (exhausted : Bool) (routes : List PlannerRouteKind)
      (last : PlannerRouteKind)
      → All (λ r. oversized r ≡ true) (routes ++ last ∷ [])
      → select_loop policy (start_with first exhausted) (routes ++ last ∷ [])
        ≡ start_with (some last) true
  unfolding select_loop
  select_loop-oversized first exhausted [] last h = select_step-oversized first exhausted last h.0
  select_loop-oversized first exhausted (route ∷ routes) last h =
      ap (λ st. select_loop policy st (routes ++ last ∷ []))
        (select_step-oversized first exhausted route h.0)
      ∙ select_loop-oversized (some route) true routes last h.1

  -- If every selected route may run, but each for longer than the total timeout, the last of them
  -- runs, and the others are in none of the three lists of the selection.
  pub select_budgeted_routes-last :
      (routes : List PlannerRouteKind) (last : PlannerRouteKind)
      → All (λ r. oversized r ≡ true) (routes ++ last ∷ [])
      → select_budgeted_routes policy (routes ++ last ∷ []) ≡ record {
        executable_routes = last ∷ [];
        exhausted_routes = [];
        zero_budget_routes = [];
        budget_exhausted = true;
      }
  unfolding select_budgeted_routes
  select_budgeted_routes-last routes last h =
      ap finished (select_loop-oversized none false routes last h)

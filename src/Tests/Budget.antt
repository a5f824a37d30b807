-- ===== src/Tests/Budget.antt =====
-- crates/hyperindex-planner/src/route_registry.rs: select_budgeted_routes at small budgets.
use repo_hyperindex.Base.{
  ℕ, ◌≡◌, ◌≤◌, ◌⊎◌, refl, true, false, not, [], ◌∷◌, any, length, arith, All, ◌<◌, ◌+◌, ◌^◌,
}
use repo_hyperindex.Planner.{PlannerRouteKind, exact, symbol, semantic, impact}
use repo_hyperindex.Planner.Budget.{
  PlannerRouteBudget, PlannerBudgetPolicy, budget_for_route, is_empty, select_budgeted_routes,
}
use repo_hyperindex.Planner.Budget.Selected.{
  usable, timeouts, oversized, select_budgeted_routes_complete, select_budgeted_routes-fits,
  select_budgeted_routes-last,
}

abbrev budget_of : PlannerRouteKind → ℕ → PlannerRouteBudget
budget_of route timeout_ms = record {
  route_kind = route;
  max_candidates = 10;
  max_groups = 5;
  timeout_ms = timeout_ms;
}

abbrev policy_of : ℕ → PlannerBudgetPolicy
policy_of total = record {
  total_timeout_ms = total;
  max_groups = 5;
  route_budgets =
      budget_of exact 100 ∷ budget_of symbol 200 ∷ budget_of semantic 900 ∷ budget_of impact 0 ∷ [];
}

selects :
    select_budgeted_routes (policy_of 1000) (exact ∷ impact ∷ semantic ∷ symbol ∷ []) ≡ record {
      executable_routes = exact ∷ semantic ∷ [];
      exhausted_routes = symbol ∷ [];
      zero_budget_routes = impact ∷ [];
      budget_exhausted = true;
    }
unfolding select_budgeted_routes
selects = refl

select_budgeted_routes_complete_example :
    (is_empty (select_budgeted_routes (policy_of 1000) (exact ∷ symbol ∷ [])).executable_routes
      ≡ not (any (λ r. usable (policy_of 1000) r) (exact ∷ symbol ∷ [])))
    × ((select_budgeted_routes (policy_of 1000) (exact ∷ symbol ∷ [])).budget_exhausted ≡ false
        → (select_budgeted_routes (policy_of 1000) (exact ∷ symbol ∷ [])).executable_routes
          ≡ exact ∷ symbol ∷ [])
select_budgeted_routes_complete_example =
    select_budgeted_routes_complete (policy_of 1000) (exact ∷ symbol ∷ [])

small : 1000 + 1 < 2 ^ 64
small = ground arith

select_budgeted_routes-fits_example :
    (timeouts
        (policy_of 1000)
        (select_budgeted_routes (policy_of 1000) (exact ∷ semantic ∷ symbol ∷ [])).executable_routes
      ≤ 1000)
    ⊎ (length
          (select_budgeted_routes
            (policy_of 1000)
            (exact ∷ semantic ∷ symbol ∷ [])).executable_routes
        ≡ 1)
select_budgeted_routes-fits_example =
    select_budgeted_routes-fits (policy_of 1000) (exact ∷ semantic ∷ symbol ∷ []) small

three-oversized : All (λ r. oversized (policy_of 50) r ≡ true) (exact ∷ symbol ∷ semantic ∷ [])
unfolding budget_for_route
three-oversized = (refl, (refl, (refl, tt)))

select_budgeted_routes-last_example :
    select_budgeted_routes (policy_of 50) (exact ∷ symbol ∷ semantic ∷ []) ≡ record {
      executable_routes = semantic ∷ [];
      exhausted_routes = [];
      zero_budget_routes = [];
      budget_exhausted = true;
    }
select_budgeted_routes-last_example =
    select_budgeted_routes-last (policy_of 50) (exact ∷ symbol ∷ []) semantic three-oversized

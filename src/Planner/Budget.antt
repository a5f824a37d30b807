-- ===== src/Planner/Budget.antt =====
-- crates/hyperindex-planner/src/common.rs and route_registry.rs: which of the selected routes the
-- time budget of a query lets run.
pub mod Selected
use repo_hyperindex.Base.{
  ℕ, ◌+◌, ◌^◌, ◌-◌, min, Bool, true, false, not, ◌&&◌, ◌||◌, Option, none, some, List, [], ◌∷◌,
  ◌++◌, if◌then◌else◌, ltb, ◌==◌,
}
use repo_hyperindex.Base.Order.{beq}
use repo_hyperindex.Planner.{PlannerRouteKind, route_ord}

pub record PlannerRouteBudget : Type 0 where
  pub route_kind : PlannerRouteKind
  pub max_candidates : ℕ
  pub max_groups : ℕ
  pub timeout_ms : ℕ

pub record PlannerBudgetPolicy : Type 0 where
  pub total_timeout_ms : ℕ
  pub max_groups : ℕ
  pub route_budgets : List PlannerRouteBudget

unfoldable find_budget : List PlannerRouteBudget → PlannerRouteKind → Option PlannerRouteBudget
find_budget [] route_kind = none
find_budget (budget ∷ budgets) route_kind =
    let rest = find_budget budgets route_kind in
    if beq budget.route_kind route_kind then some budget else rest

unfoldable pub budget_for_route : PlannerBudgetPolicy → PlannerRouteKind → PlannerRouteBudget
unfolding find_budget
budget_for_route policy route_kind = elim (find_budget policy.route_budgets route_kind) [
  | some budget ↦ budget
  | none ↦ record {
    route_kind = route_kind;
    max_candidates = 10;
    max_groups = policy.max_groups;
    timeout_ms = policy.total_timeout_ms;
  }
]

pub record BudgetSelection : Type 0 where
  pub executable_routes : List PlannerRouteKind
  pub exhausted_routes : List PlannerRouteKind
  pub zero_budget_routes : List PlannerRouteKind
  pub budget_exhausted : Bool

-- The variables of the loop of `select_budgeted_routes`.
pub record Selecting : Type 0 where
  pub selection : BudgetSelection
  pub reserved_timeout_ms : ℕ
  pub deferred_first_route : Option PlannerRouteKind

abbrev pub is_empty : List PlannerRouteKind → Bool
is_empty [] = true
is_empty (route ∷ routes) = false

-- `u64::saturating_add`
abbrev pub saturating_add : ℕ → ℕ → ℕ
saturating_add a b = min (a + b) (2 ^ 64 - 1)

abbrev pub zero_budget : PlannerRouteKind → Selecting → Selecting
zero_budget route st = record st {
  selection = record st.selection {
    zero_budget_routes = st.selection.zero_budget_routes ++ route ∷ [];
    budget_exhausted = true;
  };
}

abbrev pub exhausted : PlannerRouteKind → Selecting → Selecting
exhausted route st = record st {
  selection = record st.selection {
    exhausted_routes = st.selection.exhausted_routes ++ route ∷ [];
    budget_exhausted = true;
  };
}

abbrev pub deferred : PlannerRouteKind → Selecting → Selecting
deferred route st = record st {
  selection = record st.selection { budget_exhausted = true };
  deferred_first_route = some route;
}

abbrev pub reserved : PlannerRouteKind → ℕ → Selecting → Selecting
reserved route timeout_ms st = record st {
  selection = record st.selection {
    executable_routes = st.selection.executable_routes ++ route ∷ [];
  };
  reserved_timeout_ms = saturating_add st.reserved_timeout_ms timeout_ms;
}

abbrev pub select_within : ℕ → PlannerRouteBudget → PlannerRouteKind → Selecting → Selecting
select_within total budget route st =
    if budget.timeout_ms == 0 || budget.max_candidates == 0
    then zero_budget route st
    else if not (is_empty st.selection.executable_routes)
        && ltb total (saturating_add st.reserved_timeout_ms budget.timeout_ms)
    then exhausted route st
    else if is_empty st.selection.executable_routes && ltb total budget.timeout_ms
    then deferred route st
    else reserved route budget.timeout_ms st

abbrev pub select_step : PlannerBudgetPolicy → PlannerRouteKind → Selecting → Selecting
select_step policy route st =
    select_within policy.total_timeout_ms (budget_for_route policy route) route st

unfoldable pub select_loop : PlannerBudgetPolicy → Selecting → List PlannerRouteKind → Selecting
unfolding budget_for_route
select_loop policy st [] = st
select_loop policy st (route ∷ routes) = select_loop policy (select_step policy route st) routes

abbrev pub start : Selecting
start = record {
  selection = record {
    executable_routes = [];
    exhausted_routes = [];
    zero_budget_routes = [];
    budget_exhausted = false;
  };
  reserved_timeout_ms = 0;
  deferred_first_route = none;
}

abbrev pub deferred_run : List PlannerRouteKind → Option PlannerRouteKind → List PlannerRouteKind
deferred_run (route ∷ routes) first = route ∷ routes
deferred_run [] none = []
deferred_run [] (some first) = first ∷ []

abbrev pub finished : Selecting → BudgetSelection
finished st = record st.selection {
  executable_routes = deferred_run st.selection.executable_routes st.deferred_first_route;
}

unfoldable pub select_budgeted_routes :
    PlannerBudgetPolicy → List PlannerRouteKind → BudgetSelection
unfolding select_loop
select_budgeted_routes policy selected_routes = finished (select_loop policy start selected_routes)

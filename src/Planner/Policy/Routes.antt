-- ===== src/Planner/Policy/Routes.antt =====
-- crates/hyperindex-planner/src/route_policy.rs: the routes that a policy selects.
use repo_hyperindex.Base.{
  ◌≡◌, ◌↔◌, ◌≢◌, ◌⊎◌, refl, Bool, true, false, not, ◌&&◌, none, some, List, [], ◌∷◌, if◌then◌else◌,
  ltb, length, find, is_some, ◌==◌, arith, ◌≤◌, inl, inr, Bool-cases, Option-cases, All, All-append,
  All-imp,
}
use repo_hyperindex.Base.Order.{beq, beq_refl, nat_ord}
use repo_hyperindex.Base.Distinct.{contains, Distinct, Distinct-snoc}
use repo_hyperindex.Base.Text.{Text}
use repo_hyperindex.Planner.{PlannerRouteKind, symbol, semantic, impact, route_ord}
use repo_hyperindex.Planner.Policy.{
  PlannerQueryIr, PlannerRoutePolicy, PlannerRoutePolicyKind, single_route, staged_fallback,
  multi_route_candidates, seed_then_impact, plan_route_policy, single_route_policy, with_kind,
  route_if_present, push_if_present, first_route, seedless_routes, has_override, is_impact_analysis,
  impact_has_direct_seed,
}

-- What a choice of routes keeps to, every policy's routes keep to: the routes are chosen by `push`,
-- by `find`, as the first planned one or as all of them.
module _ (ir : PlannerQueryIr) (P : List PlannerRouteKind → Type 0) (nothing : P [])
    (push : (routes : List PlannerRouteKind) (k : PlannerRouteKind)
      → P routes
      → P (push_if_present ir routes k))
    (first : P (first_route ir.planned_routes)) (present : P (route_if_present ir impact))
    (whole : P ir.planned_routes) where
  if_routes : (b : Bool) (p q : List PlannerRouteKind) → P p → P q → P (if b then p else q)
  if_routes true p q h k = h
  if_routes false p q h k = k

  seedless : P (seedless_routes ir)
  seedless =
      let one = push [] semantic nothing in
      let two = if_routes (is_some ir.symbol_query) _ _ (push _ symbol one) one in
      if_routes (length _ == 0) _ _ (push _ impact two) two

  if_policy :
      (b : Bool) (p q : PlannerRoutePolicy)
      → P p.selected_routes
      → P q.selected_routes
      → P (if b then p else q).selected_routes
  if_policy true p q h k = h
  if_policy false p q h k = k

  selected : P (plan_route_policy ir).selected_routes
  unfolding plan_route_policy single_route_policy with_kind
  selected = if_policy (has_override ir) _ _ first (
      if_policy (is_impact_analysis ir.primary_style) _ _
        (if_policy (impact_has_direct_seed ir) _ _ present (
          if_policy (is_some ir.symbol_query) _ _
            (push _ impact (push _ semantic (push [] symbol nothing))) seedless))
        (if_policy (ltb 1 (length ir.candidate_styles)) _ _ whole whole))

-- Every route of `routes` is planned.
abbrev pub AllPlanned : List PlannerRouteKind → List PlannerRouteKind → Type 0
AllPlanned planned routes = All (λ r. contains planned r ≡ true) routes

push-AllPlanned :
    (ir : PlannerQueryIr) (routes : List PlannerRouteKind) (k : PlannerRouteKind)
    → AllPlanned ir.planned_routes routes
    → AllPlanned ir.planned_routes (push_if_present ir routes k)
unfolding push_if_present
push-AllPlanned ir routes k p =
    elim (Bool-cases (contains ir.planned_routes k && not (contains routes k))) [
      | inl h ↦
          let planned : contains ir.planned_routes k ≡ true = ground (arith, h) in
          rw h
            (All-append (λ r. contains ir.planned_routes r ≡ true) routes (k ∷ []) p (planned, tt))
      | inr h ↦ rw h p
    ]

present-AllPlanned :
    (planned : List PlannerRouteKind) (k : PlannerRouteKind)
    → AllPlanned planned (elim (find (λ p. beq p k) planned) [ none ↦ [] | some p ↦ p ∷ [] ])
present-AllPlanned planned k = elim (Option-cases (find (λ p. beq p k) planned)) [
  | inl e ↦ rw e tt
  | inr (p, e) ↦ rw e (found planned k p e, tt)
]
  where
    found :
        (planned : List PlannerRouteKind) (k p : PlannerRouteKind)
        → find (λ p. beq p k) planned ≡ some p
        → contains planned p ≡ true
    found [] k p e = cc
    found (q ∷ planned) k p e = ground (arith, found planned k p, beq_refl p)

first-AllPlanned : (planned : List PlannerRouteKind) → AllPlanned planned (first_route planned)
first-AllPlanned [] = tt
first-AllPlanned (p ∷ planned) = (ground (arith, beq_refl p), tt)

planned-AllPlanned : (planned : List PlannerRouteKind) → AllPlanned planned planned
planned-AllPlanned [] = tt
planned-AllPlanned (p ∷ planned) =
    (ground (arith, beq_refl p), All-imp (λ r h. ground arith) planned (planned-AllPlanned planned))

-- Whatever the query, each route that the policy selects is a planned one.
pub plan_route_policy-planned :
    (ir : PlannerQueryIr) → AllPlanned ir.planned_routes (plan_route_policy ir).selected_routes
unfolding route_if_present
plan_route_policy-planned ir =
    selected ir (AllPlanned ir.planned_routes) tt (push-AllPlanned ir)
      (first-AllPlanned ir.planned_routes) (present-AllPlanned ir.planned_routes impact)
      (planned-AllPlanned ir.planned_routes)

push-Distinct :
    (ir : PlannerQueryIr) (routes : List PlannerRouteKind) (k : PlannerRouteKind)
    → Distinct routes
    → Distinct (push_if_present ir routes k)
unfolding push_if_present
push-Distinct ir routes k d = ground (arith, Distinct-snoc routes k d)

at_most_one : (routes : List PlannerRouteKind) → length routes ≤ 1 → Distinct routes
at_most_one [] h = tt
at_most_one (r ∷ []) h = (refl, tt)
at_most_one (r ∷ s ∷ routes) h = absurd (omega (arith, h))

first_length : (routes : List PlannerRouteKind) → length (first_route routes) ≤ 1
first_length [] = omega arith
first_length (r ∷ routes) = omega arith

present_length : (ir : PlannerQueryIr) (k : PlannerRouteKind) → length (route_if_present ir k) ≤ 1
unfolding route_if_present
present_length ir k = elim (Option-cases (find (λ p. beq p k) ir.planned_routes)) [
  | inl e ↦ rw (e, route_if_present) (omega arith)
  | inr (x, e) ↦ rw (e, route_if_present) (omega arith)
]

-- If no route is planned twice, none is selected twice.
pub plan_route_policy-Distinct :
    (ir : PlannerQueryIr)
    → Distinct ir.planned_routes
    → Distinct (plan_route_policy ir).selected_routes
plan_route_policy-Distinct ir d =
    selected ir Distinct tt (push-Distinct ir) (at_most_one _ (first_length ir.planned_routes))
      (at_most_one _ (present_length ir impact)) d

-- The kind of a policy says whether it has at most one route.
abbrev IsNamed : PlannerRoutePolicy → Type 0
IsNamed policy = (policy.kind ≡ single_route) ↔ (length policy.selected_routes ≤ 1)

with_kind-IsNamed :
    (preferred : PlannerRoutePolicyKind) (routes : List PlannerRouteKind) (low : Bool) (note : Text)
    → (preferred ≢ single_route) ⊎ (length routes ≤ 1)
    → IsNamed (with_kind preferred routes low note)
unfolding with_kind
with_kind-IsNamed preferred routes low note h = ground arith

if-IsNamed :
    (b : Bool) (p q : PlannerRoutePolicy) → IsNamed p → IsNamed q → IsNamed (if b then p else q)
if-IsNamed true p q h k = h
if-IsNamed false p q h k = k

-- The policy is a single-route one exactly if it selects at most one route.
pub plan_route_policy-single :
    (ir : PlannerQueryIr)
    → ((plan_route_policy ir).kind ≡ single_route)
      ↔ (length (plan_route_policy ir).selected_routes ≤ 1)
unfolding plan_route_policy single_route_policy
plan_route_policy-single ir =
    if-IsNamed (has_override ir) _ _
      (with_kind-IsNamed single_route _ false _ (inr (first_length ir.planned_routes)))
      (if-IsNamed (is_impact_analysis ir.primary_style) _ _
        (if-IsNamed (impact_has_direct_seed ir) _ _
          (with_kind-IsNamed single_route _ false _ (inr (present_length ir impact)))
          (if-IsNamed (is_some ir.symbol_query) _ _
            (with_kind-IsNamed seed_then_impact _ false _ (inl (λ e. cc)))
            (with_kind-IsNamed multi_route_candidates _ true _ (inl (λ e. cc)))))
        (if-IsNamed (ltb 1 (length ir.candidate_styles)) _ _
          (with_kind-IsNamed multi_route_candidates _ _ _ (inl (λ e. cc)))
          (with_kind-IsNamed staged_fallback _ _ _ (inl (λ e. cc)))))

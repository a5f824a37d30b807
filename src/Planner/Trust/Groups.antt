-- ===== src/Planner/Trust/Groups.antt =====
-- crates/hyperindex-planner/src/trust_payloads.rs: decorate_group, with warnings and explanations.
use repo_hyperindex.Base.{
  ℕ, ◌-◌, ◌%◌, ◌^◌, Bool, true, false, not, ◌&&◌, Option, none, some, List, [], ◌∷◌, ◌++◌, map,
  if◌then◌else◌, leb, ltb, length,
}
use repo_hyperindex.Base.Text.{text_ord, Text, text, join, decimal}
use repo_hyperindex.Planner.{PlannerRouteKind, exact, symbol, semantic, impact}
use repo_hyperindex.Planner.Grouping.{
  PlannerTrustTier, high, medium, low, needs_review, PlannerResultGroup,
}
use repo_hyperindex.Planner.Policy.{
  PlannerRoutePolicyKind, single_route, staged_fallback, multi_route_candidates, seed_then_impact,
}
use repo_hyperindex.Planner.Trust.{
  PlannerRoutePlan, EvidenceProfile, profile_from, from_group, compute_tier,
}

-- `{:?}` of a route and of a route policy
abbrev route_debug : PlannerRouteKind → Text
route_debug exact = text "Exact"
route_debug symbol = text "Symbol"
route_debug semantic = text "Semantic"
route_debug impact = text "Impact"

abbrev policy_debug : PlannerRoutePolicyKind → Text
policy_debug single_route = text "SingleRoute"
policy_debug staged_fallback = text "StagedFallback"
policy_debug multi_route_candidates = text "MultiRouteCandidates"
policy_debug seed_then_impact = text "SeedThenImpact"

abbrev when : Bool → Text → List Text
when b t = if b then t ∷ [] else []

abbrev evidence_kinds : EvidenceProfile → List Text
evidence_kinds profile =
    when profile.has_exact (text "ExactMatch")
    ++ (when profile.has_symbol (text "SymbolHit")
        ++ (when profile.has_semantic (text "SemanticHit")
            ++ (when profile.has_impact (text "ImpactHit")
                ++ when profile.has_context_seed (text "ContextSeed"))))

abbrev is_empty : List Text → Bool
is_empty [] = true
is_empty (t ∷ ts) = false

unfoldable pub build_explanation_details :
    PlannerResultGroup → EvidenceProfile → PlannerRoutePlan → List Text
build_explanation_details group profile route_plan =
    (text "matched by route(s): " ++ join (text ", ") (map route_debug group.routes))
    ∷ (when (not (is_empty (evidence_kinds profile)))
          (text "evidence kinds: " ++ join (text ", ") (evidence_kinds profile))
        ++ (elim group.score [
          | none ↦ []
          | some score ↦ (text "fused score: " ++ decimal score) ∷ []
        ]
            ++ (text "route policy: " ++ policy_debug route_plan.route_policy) ∷ []))

unfoldable pub explanation_template_id : PlannerTrustTier → ℕ → Text
explanation_template_id high n =
    if leb 2 n
    then text "planner.explain.multi_route_agreement"
    else text "planner.explain.single_route_direct"
explanation_template_id medium n =
    if leb 2 n
    then text "planner.explain.multi_route_agreement"
    else text "planner.explain.single_route_structural"
explanation_template_id low n = text "planner.explain.fallback_derived"
explanation_template_id needs_review n = text "planner.explain.low_signal"

abbrev gap_warning : Option ℕ → Option ℕ → List Text
gap_warning none next_score = []
gap_warning (some my_score) none = []
gap_warning (some my_score) (some next) =
    when (ltb 0 my_score && ltb 0 next && leb (my_score - next) 3) (
      text "score gap to next group is "
      ++ (decimal (my_score - next) ++ text "; results may be ambiguous"))

abbrev warnings_for : PlannerResultGroup → PlannerRoutePlan → Option ℕ → List Text
warnings_for group route_plan next_score =
    gap_warning group.score next_score
    ++ (when route_plan.low_signal (
          text
            "query was low-signal; add a quoted literal, symbol, or file context to improve confidence")
        ++ (when route_plan.partial_results
              (text "some selected routes were not consulted; results may be incomplete")
            ++ when route_plan.budget_exhausted
                (text "route budget was exhausted before all routes could be consulted")))

unfoldable pub decorate_group :
    PlannerResultGroup → PlannerRoutePlan → Option ℕ → PlannerResultGroup
unfolding profile_from compute_tier build_explanation_details explanation_template_id
decorate_group group route_plan next_score =
    let profile = from_group group in
    let route_count = length group.routes in
    let d = compute_tier profile route_count route_plan.low_signal in
    record group {
      trust = record {
        tier = d.tier;
        deterministic = d.deterministic;
        evidence_count = length group.evidence % 2 ^ 32;
        route_agreement_count = route_count % 2 ^ 32;
        template_id = d.template_id;
        reasons = d.reasons;
        warnings = warnings_for group route_plan next_score;
      };
      explanation = record group.explanation {
        details = build_explanation_details group profile route_plan;
        template_id = explanation_template_id d.tier route_count;
      };
    }

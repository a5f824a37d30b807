-- ===== src/Tests/Planner.antt =====
-- crates/hyperindex-planner at three candidates, two of them for one symbol.
use mathlib.Core.List.{Perm}
use repo_hyperindex.Base.{
  take, ℕ, ◌≡◌, ◌≤◌, Option, some, none, List, [], ◌∷◌, count, flat_map, length, All,
}
use repo_hyperindex.Base.Order.{beq}
use repo_hyperindex.Base.Sort.{IsSorted}
use repo_hyperindex.Base.Text.{text_ord, Text, text}
use repo_hyperindex.Planner.{
  PlannerRouteKind, symbol, semantic, impact, route_ord, file_anchor, symbol_hit,
  PlannerEvidenceItem, NormalizedPlannerCandidate,
}
use repo_hyperindex.Planner.Fusion.{FusedCandidate, symbol_key, key_eq, fuse, deterministic_cmp}
use repo_hyperindex.Planner.Fusion.Scores.{IsScored, fuse-IsRanked}
use repo_hyperindex.Planner.Fusion.Evidence.{fuse_evidence}
use repo_hyperindex.Planner.Fusion.Keys.{fuse_once}
use repo_hyperindex.Planner.Grouping.{PlannerResultGroup, group}
use repo_hyperindex.Planner.Grouping.Ranked.{AreBestFirst, has_id, has_key}
use repo_hyperindex.Planner.Grouping.Answer.{group_answer}
use repo_hyperindex.Planner.Policy.{PlannerQueryIr, auto_mode, impact_analysis, plan_route_policy}
use repo_hyperindex.Planner.Policy.Routes.{AllPlanned, plan_route_policy-planned}

abbrev evidence_of : PlannerRouteKind → Text → PlannerEvidenceItem
evidence_of route label = record {
  evidence_kind = symbol_hit;
  route_kind = route;
  label = label;
  path = none;
  span = none;
  symbol_id = none;
  impact_entity = none;
  snippet = none;
  score = none;
  notes = [];
}

abbrev candidate_of : Text → PlannerRouteKind → ℕ → Option Text → Text → NormalizedPlannerCandidate
candidate_of id route score symbol_id path = record {
  candidate_id = id;
  route_kind = route;
  engine_type = route;
  label = id;
  anchor = file_anchor path;
  rank = some 1;
  engine_score = some score;
  normalized_score = none;
  primary_path = some path;
  primary_symbol_id = symbol_id;
  primary_span = none;
  language = none;
  extension = none;
  symbol_kind = none;
  package_name = none;
  package_root = none;
  workspace_root = none;
  evidence = evidence_of route id ∷ [];
  engine_diagnostics = [];
  notes = [];
}

abbrev three : List NormalizedPlannerCandidate
three =
    candidate_of (text "a") symbol 550 (some (text "Foo")) (text "foo.ts")
    ∷ candidate_of (text "b") semantic 700000 (some (text "Foo")) (text "foo.ts")
    ∷ candidate_of (text "c") impact 100 none (text "bar.ts")
    ∷ []

abbrev fused_three : List FusedCandidate
fused_three = (fuse_evidence three).0

fused : fuse three ≡ some fused_three
fused = (fuse_evidence three).1

fuse_evidence_example :
    (fused : List FusedCandidate) × (fuse three ≡ some fused)
    × Perm
        (flat_map (λ (c : FusedCandidate). c.merged_evidence) fused)
        (flat_map (λ (c : NormalizedPlannerCandidate). c.evidence) three)
fuse_evidence_example = fuse_evidence three

fuse_once_example :
    count (λ (c : FusedCandidate). key_eq c.dedup_key (symbol_key (text "Foo"))) fused_three ≤ 1
fuse_once_example = fuse_once three fused_three (symbol_key (text "Foo")) fused

fuse-IsRanked_example : IsSorted deterministic_cmp fused_three × All IsScored fused_three
fuse-IsRanked_example = fuse-IsRanked three fused_three fused

group_answer_example :
    (groups : List PlannerResultGroup) × (group fused_three 1 ≡ some (take 1 groups))
    × (group fused_three (length fused_three) ≡ some groups)
    × AreBestFirst groups
    × (count (λ (g : PlannerResultGroup). beq g.group_id (text "group:symbol:Foo")) groups ≤ 1)
    × (has_id (text "group:symbol:Foo") groups ≡ has_key (text "group:symbol:Foo") fused_three)
    × Perm
        (flat_map (λ (g : PlannerResultGroup). g.evidence) groups)
        (flat_map (λ (c : FusedCandidate). c.merged_evidence) fused_three)
group_answer_example = group_answer fused_three 1 (text "group:symbol:Foo")

abbrev impact_query : PlannerQueryIr
impact_query = record {
  repo_id = text "r";
  snapshot_id = text "s";
  surface_query = text "what breaks";
  normalized_query = text "what breaks";
  selected_mode = auto_mode;
  primary_style = impact_analysis;
  candidate_styles = impact_analysis ∷ [];
  planned_routes = impact ∷ semantic ∷ [];
  intent_signals = [];
  limit = 10;
  selected_context = none;
  target_context = none;
  exact_query = none;
  symbol_query = none;
  semantic_query = none;
  impact_query = none;
}

plan_route_policy-planned_example :
    AllPlanned impact_query.planned_routes (plan_route_policy impact_query).selected_routes
plan_route_policy-planned_example = plan_route_policy-planned impact_query

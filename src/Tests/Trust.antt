-- ===== src/Tests/Trust.antt =====
-- crates/hyperindex-planner/src/trust_payloads.rs at two groups with close scores.
use repo_hyperindex.Base.{ℕ, ◌≡◌, ◌↔◌, refl, true, false, map, some, none, [], ◌∷◌, is_some}
use repo_hyperindex.Base.Text.{Text, text}
use repo_hyperindex.Planner.{
  PlannerRouteKind, exact, symbol, file_anchor, symbol_hit, exact_match, PlannerEvidenceKind,
  PlannerEvidenceItem,
}
use repo_hyperindex.Planner.Grouping.{PlannerResultGroup, high, medium, needs_review}
use repo_hyperindex.Planner.Policy.{multi_route_candidates}
use repo_hyperindex.Planner.Trust.{PlannerRoutePlan}
use repo_hyperindex.Planner.Trust.Ambiguity.{decorate}
use repo_hyperindex.Planner.Trust.Decorated.{AreDecorated, decorate-AreDecorated}
use repo_hyperindex.Planner.Trust.Close.{IsClose, decorate-IsClose}

abbrev evidence_of : PlannerRouteKind → PlannerEvidenceKind → PlannerEvidenceItem
evidence_of route kind = record {
  evidence_kind = kind;
  route_kind = route;
  label = text "hit";
  path = none;
  span = none;
  symbol_id = none;
  impact_entity = none;
  snippet = none;
  score = none;
  notes = [];
}

abbrev group_of : Text → ℕ → PlannerRouteKind → PlannerEvidenceKind → PlannerResultGroup
group_of path score route kind = record {
  group_id = path;
  label = path;
  anchor = some (file_anchor path);
  routes = route ∷ [];
  trust = record {
    tier = needs_review;
    deterministic = false;
    evidence_count = 0;
    route_agreement_count = 0;
    template_id = [];
    reasons = [];
    warnings = [];
  };
  explanation = record { template_id = []; summary = path; details = [] };
  evidence = evidence_of route kind ∷ [];
  score = some score;
}

abbrev first_group : PlannerResultGroup
first_group = group_of (text "a.ts") 90 exact exact_match

abbrev second_group : PlannerResultGroup
second_group = group_of (text "b.ts") 88 symbol symbol_hit

abbrev plan : PlannerRoutePlan
plan = record {
  route_policy = multi_route_candidates;
  low_signal = false;
  partial_results = false;
  budget_exhausted = false;
}

tiers_of_two :
    map
      (λ (g : PlannerResultGroup). g.trust.tier)
      (decorate (first_group ∷ second_group ∷ []) plan).0
    ≡ high ∷ medium ∷ []
unfolding decorate
tiers_of_two = refl

decorate-AreDecorated_example :
    AreDecorated plan
      (first_group ∷ second_group ∷ [])
      (decorate (first_group ∷ second_group ∷ []) plan).0
decorate-AreDecorated_example = decorate-AreDecorated plan (first_group ∷ second_group ∷ [])

decorate-IsClose_example :
    (is_some (decorate (first_group ∷ second_group ∷ []) plan).1 ≡ true)
    ↔ IsClose first_group second_group
decorate-IsClose_example = decorate-IsClose first_group second_group [] plan

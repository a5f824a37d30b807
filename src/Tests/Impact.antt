-- ===== src/Tests/Impact.antt =====
-- crates/hyperindex-impact/src/impact_engine.rs at a symbol that another symbol references and that
-- a test imports.
use repo_hyperindex.Base.{
  ℕ, ◌+◌, ◌≤◌, ◌<◌, ◌^◌, max, ◌≡◌, refl, Bool, true, false, Option, some, none, List, [], ◌∷◌,
  arith, count, length, map, All,
}
use repo_hyperindex.Base.Order.{beq}
use repo_hyperindex.Base.Text.{text_ord, Text, text}
use repo_hyperindex.Base.Dict.{Dict, empty}
use repo_hyperindex.Base.Sort.{IsSorted}
use repo_hyperindex.Impact.{
  rename, ImpactReasonEdgeKind, declared_in_file, references, referenced_by_file, test_reference,
  ImpactTargetRef, symbol_target, ImpactHit, ImpactAnalyzeParams, ImpactAnalyzeResponse,
  references_symbol, path_heuristic, ImpactEnrichmentPlan, symbol_resolved, ImpactEngineInputs,
}
use repo_hyperindex.Impact.Keys.{entity_key}
use repo_hyperindex.Impact.Hits.Groups.{hits_of}
use repo_hyperindex.Impact.Engine.{analyze_inputs}
use repo_hyperindex.Impact.Traversal.{scenario_policy, seed_frame, seed_entity}
use repo_hyperindex.Impact.Steps.{expand_node}
use repo_hyperindex.Impact.Traversal.Budget.{analyze_inputs-InBudget}
use repo_hyperindex.Impact.Engine.Response.{
  IsExplainedHit, IsRanked, analyze_inputs_explained, analyze_inputs_counted,
}
use repo_hyperindex.Impact.Engine.Sorted.{by_certainty, analyze_inputs-IsSorted}

abbrev one {ℓ} : {A : Type ℓ} → Text → A → Dict Text A
one key value = record { entries = (key, value) ∷ [] }

abbrev enrichment : ImpactEnrichmentPlan
enrichment = record {
  symbol_display_name_by_symbol = one (text "s1") (text "load");
  canonical_symbol_by_symbol = empty;
  reverse_references_by_symbol = one (text "s1") (
      record {
        occurrence_id = text "o1";
        path = text "src/b.ts";
        owner_symbol_id = some (text "s2");
      }
      ∷ []);
  reverse_imports_by_symbol = empty;
  reverse_exports_by_symbol = empty;
  reverse_dependents_by_file = empty;
  symbol_to_file = record {
    entries = (text "s1", text "src/a.ts") ∷ (text "s2", text "src/b.ts") ∷ [];
  };
  file_to_symbols = empty;
  package_by_file = empty;
  package_by_symbol = empty;
  tests_by_file = empty;
  tests_by_symbol = one (text "s1") (
      record {
        test_path = text "src/a.test.ts";
        evidence = references_symbol;
        detail = text "imports load";
        owner_symbol_id = none;
      }
      ∷ record {
        test_path = text "src/near.test.ts";
        evidence = path_heuristic;
        detail = text "same folder";
        owner_symbol_id = none;
      }
      ∷ []);
}

abbrev target : ImpactTargetRef
target = symbol_target (text "load") none none

abbrev params : ImpactAnalyzeParams
params = record {
  repo_id = text "r";
  snapshot_id = text "s";
  target = target;
  change_hint = rename;
  limit = 10;
  include_transitive = true;
  include_reason_paths = true;
  max_transitive_depth = none;
  max_nodes_visited = none;
  max_edges_traversed = some 5;
  max_candidates_considered = none;
}

abbrev plan : ImpactEngineInputs
plan = record {
  seed = record {
    requested_target = target;
    resolved_target = symbol_resolved (record {
      symbol_id = text "s1";
      canonical_symbol_id = text "s1";
      display_name = text "load";
      path = text "src/a.ts";
    });
    change_hint = rename;
    include_transitive = true;
  };
  enrichment = enrichment;
  reason_paths = record { included = true; path_count = 0 };
  test_bonus_by_path = empty;
}

abbrev reasons : List ImpactReasonEdgeKind
reasons =
    map (λ step. step.reason)
      (expand_node plan (seed_frame plan (seed_entity plan)) (scenario_policy rename params))

-- A rename keeps the test that references the symbol, not the one that is only near it.
four_steps : reasons ≡ declared_in_file ∷ references ∷ referenced_by_file ∷ test_reference ∷ []
unfolding expand_node repo_hyperindex.Base.Dict.get scenario_policy
four_steps = refl

analyze_inputs-InBudget_example :
    (r : ImpactAnalyzeResponse) × (analyze_inputs params plan 3 ≡ some r)
    × (r.stats.nodes_visited ≤ (scenario_policy rename params).max_nodes_visited)
    × (r.stats.edges_traversed ≤ (scenario_policy rename params).max_edges_traversed)
    × (r.stats.candidates_considered
        ≤ max 1 (scenario_policy rename params).max_candidates_considered)
    × (r.stats.depth_reached ≤ (scenario_policy rename params).max_depth)
analyze_inputs-InBudget_example = analyze_inputs-InBudget params plan 3

analyze_inputs_explained_example :
    (r : ImpactAnalyzeResponse) × (analyze_inputs params plan 3 ≡ some r)
    × All (IsExplainedHit plan) (hits_of r.groups)
analyze_inputs_explained_example = analyze_inputs_explained params plan 3

limit_fits : params.limit < 2 ^ 32
limit_fits = omega arith

analyze_inputs_counted_example :
    (r : ImpactAnalyzeResponse) × (analyze_inputs params plan 3 ≡ some r)
    × (length (hits_of r.groups) ≤ 10)
    × IsRanked 1 (hits_of r.groups)
    × (count
          (λ (hit : ImpactHit). beq (entity_key hit.entity) (text "symbol:s2"))
          (hits_of r.groups)
        ≤ 1)
    × (r.summary.direct_count + r.summary.transitive_count ≡ length (hits_of r.groups))
    × (r.summary.certainty_counts.certain + r.summary.certainty_counts.likely
          + r.summary.certainty_counts.possible
        ≡ length (hits_of r.groups))
analyze_inputs_counted_example = analyze_inputs_counted params plan 3 (text "symbol:s2") limit_fits

analyze_inputs-IsSorted_example :
    (r : ImpactAnalyzeResponse) × (analyze_inputs params plan 3 ≡ some r)
    × IsSorted by_certainty (hits_of r.groups)
analyze_inputs-IsSorted_example = analyze_inputs-IsSorted params plan 3

abbrev answered : List ImpactHit
answered = elim (analyze_inputs params plan 3) [ none ↦ [] | some r ↦ hits_of r.groups ]

-- ===== src/Impact/Engine.antt =====
-- crates/hyperindex-impact/src/impact_engine.rs: the response that is made of the candidates of the
-- traversal. The elapsed time is an argument.
pub mod Sorted
pub mod Response
use Prim.Native.Nat.Ordering.{lt, eq, gt}
use repo_hyperindex.Base.{
  ℕ, zero, suc, ◌+◌, ◌-◌, ◌*◌, ◌%◌, ◌^◌, min, max, Bool, true, false, not, ◌&&◌, ◌||◌, Option, none,
  some, List, [], ◌∷◌, ◌++◌, if◌then◌else◌, leb, ◌==◌, length, map, filter, take, any,
}
use repo_hyperindex.Base.Order.{beq, nat_ord}
use repo_hyperindex.Base.Text.{text_ord, Text, text, decimal}
use repo_hyperindex.Base.Sort.{sort_by}
use repo_hyperindex.Base.Dict.{Dict, empty, get, insert, values}
use repo_hyperindex.Planner.{ImpactEntityRef, file_entity}
use repo_hyperindex.Impact.{
  ImpactChangeScenario, modify_behavior, signature_change, rename, delete, ImpactCertaintyTier,
  certain, likely, possible, seed, warning, ImpactEvidenceEdge, ImpactHit, ImpactCertaintyCounts,
  ImpactSummary, ImpactTraversalStats, ImpactDiagnostic, ImpactAnalyzeParams, ImpactAnalyzeResponse,
  ResolvedImpactTarget, symbol_resolved, file_resolved, ImpactModelSeed, ImpactEnrichmentPlan,
  ReasonPathSummary, TestRankingCandidate, ImpactEngineInputs, TraversalNode, symbol_node,
  file_node, TraversalFrame, TraversalStep, CandidateHit, ScenarioPolicy,
}
use repo_hyperindex.Impact.Keys.{
  certainty_rank, entity_key, traversal_node_key, frame_order, compare_steps, identity_order,
  compare_candidate_hits, is_eq, is_lt,
}
use repo_hyperindex.Impact.Steps.{expand_node}
use repo_hyperindex.Impact.Entities.{symbol_entity_of}
use repo_hyperindex.Impact.Hits.{candidate_hit, add_candidate, group_hits}
use repo_hyperindex.Impact.Explain.{reason_path_from_edges, seed_reason_paths}
use repo_hyperindex.Impact.Traversal.{Traversal, rounds, scenario_policy, start, traverse}

unfoldable pub cutoff_message : Text → ScenarioPolicy → Text
cutoff_message cutoff policy =
    let policy_end : Text = text " under the current scenario policy" in
    if beq cutoff (text "nodes_visited")
    then text "impact traversal stopped after visiting "
      ++ (decimal policy.max_nodes_visited ++ (text " nodes" ++ policy_end))
    else if beq cutoff (text "edges_traversed")
    then text "impact traversal stopped after traversing "
      ++ (decimal policy.max_edges_traversed ++ (text " edges" ++ policy_end))
    else if beq cutoff (text "candidates_considered")
    then text "impact traversal stopped after considering "
      ++ (decimal policy.max_candidates_considered ++ (text " candidates" ++ policy_end))
    else text "impact traversal stopped at a configured cutoff"

abbrev cutoff_diagnostic : ScenarioPolicy → Text → ImpactDiagnostic
cutoff_diagnostic policy cutoff = record {
  severity = warning;
  code = text "impact_cutoff_" ++ cutoff;
  message = cutoff_message cutoff policy;
}

-- `hits.clear()` or `hits.truncate(limit)`
abbrev pub truncated : ℕ → List CandidateHit → List CandidateHit
truncated limit hits = if limit == 0 then [] else take limit hits

abbrev pub ranked_from : ℕ → Bool → List CandidateHit → List ImpactHit
ranked_from index included [] = []
ranked_from index included (hit ∷ hits) =
    record {
      rank = (index + 1) % 2 ^ 32;
      score = hit.score;
      entity = hit.entity;
      certainty = hit.certainty;
      primary_reason = hit.primary_reason;
      depth = hit.depth;
      direct = hit.direct;
      explanation = some hit.explanation;
      reason_paths = if included then hit.reason_paths else [];
    }
    ∷ ranked_from (index + 1) included hits

abbrev pub has_tier : ImpactCertaintyTier → CandidateHit → Bool
has_tier tier hit = beq (certainty_rank hit.certainty) (certainty_rank tier)

abbrev counted : (CandidateHit → Bool) → List CandidateHit → ℕ
counted p hits = length (filter p hits) % 2 ^ 32

abbrev pub summary_of : List CandidateHit → ImpactSummary
summary_of hits = record {
  direct_count = counted (λ hit. hit.direct) hits;
  transitive_count = counted (λ hit. not hit.direct) hits;
  certainty_counts = record {
    certain = counted (has_tier certain) hits;
    likely = counted (has_tier likely) hits;
    possible = counted (has_tier possible) hits;
  };
}

abbrev pub ranked_candidates : ℕ → Traversal → List CandidateHit
ranked_candidates limit t = truncated limit (sort_by compare_candidate_hits (values t.candidates))

-- What `analyze_inputs` makes of the state in which its loop ends.
unfoldable pub response :
    ImpactAnalyzeParams
    → ImpactEngineInputs
    → ScenarioPolicy
    → ℕ
    → Traversal
    → ImpactAnalyzeResponse
unfolding cutoff_message
response params plan policy elapsed_ms t =
    let hits = ranked_candidates params.limit t in
    record {
      repo_id = params.repo_id;
      snapshot_id = params.snapshot_id;
      target = params.target;
      change_hint = params.change_hint;
      summary = summary_of hits;
      stats = record t.stats { elapsed_ms = elapsed_ms };
      groups = group_hits (ranked_from 0 plan.reason_paths.included hits);
      diagnostics = map (cutoff_diagnostic policy) t.stats.cutoffs_triggered;
    }

unfoldable pub analyze_inputs :
    ImpactAnalyzeParams → ImpactEngineInputs → ℕ → Option ImpactAnalyzeResponse
unfolding scenario_policy traverse
analyze_inputs params plan elapsed_ms =
    let policy = scenario_policy plan.seed.change_hint params in
    elim (traverse plan policy (rounds plan policy) (start plan policy)) [
      | none ↦ none
      | some t ↦ some (response params plan policy elapsed_ms t)
    ]

abbrev bonus_from : ℕ → Dict Text ℕ → List TestRankingCandidate → Dict Text ℕ
bonus_from index bonus [] = bonus
bonus_from index bonus (candidate ∷ candidates) =
    bonus_from (index + 1) (insert bonus candidate.path (20 - index % 2 ^ 32)) candidates

-- `test_bonus_by_path`
unfoldable pub test_bonus : List TestRankingCandidate → Dict Text ℕ
test_bonus candidates = bonus_from 0 empty candidates

unfoldable pub analyze_precomputed :
    ImpactAnalyzeParams
    → ImpactModelSeed
    → ImpactEnrichmentPlan
    → ReasonPathSummary
    → List TestRankingCandidate
    → ℕ
    → Option ImpactAnalyzeResponse
unfolding test_bonus analyze_inputs
analyze_precomputed params model_seed enrichment reason_paths test_candidates elapsed_ms =
    analyze_inputs params
      (record {
        seed = model_seed;
        enrichment = enrichment;
        reason_paths = reason_paths;
        test_bonus_by_path = test_bonus test_candidates;
      })
      elapsed_ms

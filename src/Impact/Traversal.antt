-- ===== src/Impact/Traversal.antt =====
-- crates/hyperindex-impact/src/impact_engine.rs: the traversal from the selected target, within a
-- scenario's policy. The counters are `u32` and are tested against a `u32` limit before each
-- addition, so they do not wrap.
pub mod Budget
pub mod Rule
pub mod Chains
use Prim.Native.Nat.Ordering.{lt, eq, gt}
use repo_hyperindex.Base.{
  ℕ, zero, suc, ◌+◌, ◌-◌, ◌*◌, ◌%◌, ◌^◌, min, max, Bool, true, false, not, ◌&&◌, ◌||◌, Option, none,
  some, List, [], ◌∷◌, ◌++◌, if◌then◌else◌, leb, ◌==◌, length, map, filter, take, any,
}
use repo_hyperindex.Base.Order.{beq, nat_ord}
use repo_hyperindex.Base.Text.{text_ord, Text, text, decimal}
use repo_hyperindex.Base.Sort.{sort_by}
use repo_hyperindex.Base.Dict.{Dict, empty, get, insert, values}
use repo_hyperindex.Planner.{ImpactEntityRef, file_entity}
use repo_hyperindex.Impact.{
  ImpactChangeScenario, modify_behavior, signature_change, rename, delete, ImpactCertaintyTier,
  certain, likely, possible, seed, warning, ImpactEvidenceEdge, ImpactHit, ImpactCertaintyCounts,
  ImpactSummary, ImpactTraversalStats, ImpactDiagnostic, ImpactAnalyzeParams, ImpactAnalyzeResponse,
  ResolvedImpactTarget, symbol_resolved, file_resolved, ImpactModelSeed, ImpactEnrichmentPlan,
  ReasonPathSummary, TestRankingCandidate, ImpactEngineInputs, TraversalNode, symbol_node,
  file_node, TraversalFrame, TraversalStep, CandidateHit, ScenarioPolicy,
}
use repo_hyperindex.Impact.Keys.{
  certainty_rank, entity_key, traversal_node_key, frame_order, compare_steps, identity_order,
  compare_candidate_hits, is_eq, is_lt,
}
use repo_hyperindex.Impact.Steps.{expand_node}
use repo_hyperindex.Impact.Entities.{symbol_entity_of}
use repo_hyperindex.Impact.Hits.{candidate_hit, add_candidate, group_hits}
use repo_hyperindex.Impact.Explain.{reason_path_from_edges, seed_reason_paths}

abbrev base_policy : ImpactChangeScenario → ScenarioPolicy
base_policy modify_behavior = record {
  include_consumer_files = false;
  include_heuristic_tests = true;
  max_depth = 3;
  max_nodes_visited = 96;
  max_edges_traversed = 256;
  max_candidates_considered = 192;
}
base_policy signature_change = record {
  include_consumer_files = true;
  include_heuristic_tests = true;
  max_depth = 4;
  max_nodes_visited = 160;
  max_edges_traversed = 512;
  max_candidates_considered = 320;
}
base_policy rename = record {
  include_consumer_files = true;
  include_heuristic_tests = false;
  max_depth = 3;
  max_nodes_visited = 128;
  max_edges_traversed = 384;
  max_candidates_considered = 256;
}
base_policy delete = record {
  include_consumer_files = true;
  include_heuristic_tests = true;
  max_depth = 4;
  max_nodes_visited = 192;
  max_edges_traversed = 640;
  max_candidates_considered = 384;
}

abbrev at_most : Option ℕ → ℕ → ℕ
at_most none n = n
at_most (some value) n = min n value

unfoldable pub scenario_policy : ImpactChangeScenario → ImpactAnalyzeParams → ScenarioPolicy
scenario_policy change_hint params =
    let policy = base_policy change_hint in
    record policy {
      max_depth =
          at_most params.max_transitive_depth
            (if params.include_transitive then policy.max_depth else min policy.max_depth 1);
      max_nodes_visited = at_most params.max_nodes_visited policy.max_nodes_visited;
      max_edges_traversed = at_most params.max_edges_traversed policy.max_edges_traversed;
      max_candidates_considered =
          at_most params.max_candidates_considered policy.max_candidates_considered;
    }

abbrev pub seed_entity : ImpactEngineInputs → ImpactEntityRef
seed_entity plan = elim plan.seed.resolved_target [
  | symbol_resolved target ↦ symbol_entity_of plan target.canonical_symbol_id
  | file_resolved target ↦ file_entity target.path
]

abbrev pub seed_frame : ImpactEngineInputs → ImpactEntityRef → TraversalFrame
seed_frame plan entity = record {
  node = elim plan.seed.resolved_target [
    | symbol_resolved target ↦ symbol_node target.canonical_symbol_id
    | file_resolved target ↦ file_node target.path
  ];
  entity = entity;
  certainty = certain;
  depth = 0;
  score = 1000;
  path_edges = [];
}

abbrev pub combine_certainty : ImpactCertaintyTier → ImpactCertaintyTier → ImpactCertaintyTier
combine_certainty current next =
    if leb (certainty_rank next) (certainty_rank current) then current else next

abbrev pub apply_depth_penalty : ℕ → ℕ → ℕ
apply_depth_penalty score depth = score - (depth - 1) * 40 % 2 ^ 32

abbrev pub extend_reason_path :
    List ImpactEvidenceEdge → ImpactEntityRef → TraversalStep → List ImpactEvidenceEdge
extend_reason_path prior_edges from step =
    prior_edges
    ++ record { edge_kind = step.reason; from = from; to = step.entity; metadata = step.metadata }
      ∷ []

abbrev pub record_cutoff : ImpactTraversalStats → Text → ImpactTraversalStats
record_cutoff stats cutoff =
    if any (λ c. beq c cutoff) stats.cutoffs_triggered
    then stats
    else record stats { cutoffs_triggered = stats.cutoffs_triggered ++ cutoff ∷ [] }

-- `dedup_by`: a step that is the same as the last one kept is dropped.
unfoldable pub dedup_after : TraversalStep → List TraversalStep → List TraversalStep
dedup_after kept [] = []
dedup_after kept (step ∷ steps) = elim (is_eq (identity_order step kept)) [
  | true ↦ dedup_after kept steps
  | false ↦ step ∷ dedup_after step steps
]

unfoldable pub dedup_steps : List TraversalStep → List TraversalStep
unfolding dedup_after
dedup_steps [] = []
dedup_steps (step ∷ steps) = step ∷ dedup_after step steps

-- The variables of `analyze_inputs` that its loop changes.
pub record Traversal : Type 0 where
  pub candidates : Dict Text CandidateHit
  pub stats : ImpactTraversalStats
  pub queue : List TraversalFrame
  pub best_frames : Dict Text TraversalFrame

module _ (plan : ImpactEngineInputs) (policy : ScenarioPolicy) where
  -- The frame that a step leads to, at whatever node.
  abbrev pub next_frame : TraversalFrame → TraversalStep → TraversalNode → TraversalFrame
  next_frame frame step next_node = record {
    node = next_node;
    entity = step.entity;
    certainty = combine_certainty frame.certainty step.certainty;
    depth = frame.depth + 1;
    score = apply_depth_penalty step.score (frame.depth + 1);
    path_edges = extend_reason_path frame.path_edges frame.entity step;
  }

  abbrev pub step_candidate : TraversalFrame → TraversalStep → CandidateHit
  step_candidate frame step =
      candidate_hit plan step.entity (combine_certainty frame.certainty step.certainty) step.reason
        (frame.depth + 1) (leb (frame.depth + 1) 1)
        (apply_depth_penalty step.score (frame.depth + 1))
        (reason_path_from_edges (extend_reason_path frame.path_edges frame.entity step) ∷ [])

  abbrev count_step : ImpactTraversalStats → ℕ → ImpactTraversalStats
  count_step stats next_depth = record stats {
    edges_traversed = stats.edges_traversed + 1;
    candidates_considered = stats.candidates_considered + 1;
    depth_reached = max stats.depth_reached next_depth;
  }

  abbrev should_enqueue : Traversal → TraversalFrame → Bool
  should_enqueue t next = elim (get t.best_frames (traversal_node_key next.node)) [
    | none ↦ true
    | some existing ↦ is_lt (frame_order next existing)
  ]

  abbrev enqueue : Traversal → TraversalFrame → Traversal
  enqueue t next =
      if should_enqueue t next
      then record t {
        best_frames = insert t.best_frames (traversal_node_key next.node) next;
        queue = t.queue ++ next ∷ [];
      }
      else t

  abbrev counted_step : Traversal → TraversalFrame → TraversalStep → Traversal
  counted_step t frame step = record t {
    stats = count_step t.stats (frame.depth + 1);
    candidates =
        if beq (entity_key step.entity) (entity_key (seed_entity plan))
        then t.candidates
        else add_candidate t.candidates (step_candidate frame step);
  }

  -- The rest of the body of the loop over a frame's steps, once the limits are tested.
  unfoldable pub take_step : Traversal → TraversalFrame → TraversalStep → Traversal
  take_step t frame step = elim step.next_node [
    | none ↦ counted_step t frame step
    | some next_node ↦ enqueue (counted_step t frame step) (next_frame frame step next_node)
  ]

  abbrev cut : Traversal → Text → Traversal
  cut t cutoff = record t { stats = record_cutoff t.stats cutoff }

  -- The loop over a frame's steps, and whether a limit ended it.
  unfoldable pub take_steps : Traversal → TraversalFrame → List TraversalStep → Traversal × Bool
  unfolding take_step
  take_steps t frame [] = (t, false)
  take_steps t frame (step ∷ steps) =
      let rest = take_steps (take_step t frame step) frame steps in
      if leb policy.max_edges_traversed t.stats.edges_traversed
      then (cut t (text "edges_traversed"), true)
      else if leb policy.max_candidates_considered t.stats.candidates_considered
      then (cut t (text "candidates_considered"), true)
      else rest

  abbrev pub sorted_steps : TraversalFrame → List TraversalStep
  sorted_steps frame = dedup_steps (sort_by compare_steps (expand_node plan frame policy))

  abbrev count_node : Traversal → TraversalFrame → Traversal
  count_node t frame = record t {
    stats = record t.stats {
      nodes_visited = t.stats.nodes_visited + 1;
      depth_reached = max t.stats.depth_reached frame.depth;
    };
  }

  -- The body of the loop, after `frame` left the queue; `true` is a `break`.
  unfoldable pub visit : Traversal → TraversalFrame → Traversal × Bool
  unfolding take_steps dedup_steps
  visit t frame = elim (get t.best_frames (traversal_node_key frame.node)) [
    | none ↦ (t, false)
    | some best_frame ↦
        if not (is_eq (frame_order frame best_frame))
        then (t, false)
        else if leb policy.max_nodes_visited t.stats.nodes_visited
        then (cut t (text "nodes_visited"), true)
        else if leb policy.max_depth frame.depth
        then (count_node t frame, false)
        else take_steps (count_node t frame) frame (sorted_steps frame)
  ]

  -- The `while` loop; `none` is out of fuel.
  unfoldable pub traverse : ℕ → Traversal → Option Traversal
  unfolding visit
  traverse zero t = none
  traverse (suc fuel) t = elim t.queue [
    | [] ↦ some t
    | frame ∷ rest ↦
        let (t', stop) = visit (record t { queue = rest }) frame in
        elim stop [ true ↦ some t' | false ↦ traverse fuel t' ]
  ]

  abbrev pub start : Traversal
  start =
      let entity = seed_entity plan in
      let frame = seed_frame plan entity in
      record {
        candidates =
            add_candidate empty
              (candidate_hit plan entity certain seed 0 true 1000 (seed_reason_paths entity));
        stats = record {
          nodes_visited = 0;
          edges_traversed = 0;
          depth_reached = 0;
          candidates_considered = 1;
          elapsed_ms = 0;
          cutoffs_triggered = [];
        };
        queue = frame ∷ [];
        best_frames = insert empty (traversal_node_key frame.node) frame;
      }

  -- Each round takes a frame off the queue, and each frame but the first comes from an edge.
  abbrev pub rounds : ℕ
  rounds = policy.max_edges_traversed + 2

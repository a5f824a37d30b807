-- ===== src/Impact/Traversal/Budget.antt =====
-- crates/hyperindex-impact/src/impact_engine.rs: the traversal ends, within the limits of its policy.
use repo_hyperindex.Base.{
  ℕ, zero, suc, ◌+◌, ◌-◌, ◌≤◌, ◌<◌, max, ◌≡◌, refl, ap, subst, sym, some, List, [], ◌∷◌, ◌++◌,
  arith, leb, length, length-append, any, All, All-append, Bool-cases, Option-cases, List-cases,
  ◌⊎◌, inl, inr,
}
use repo_hyperindex.Base.Order.{beq}
use repo_hyperindex.Base.Text.{text_ord, Text, text}
use repo_hyperindex.Base.Dict.{get}
use repo_hyperindex.Impact.{
  ImpactEngineInputs, TraversalFrame, TraversalStep, ScenarioPolicy, ImpactAnalyzeParams,
  ImpactAnalyzeResponse,
}
use repo_hyperindex.Impact.Keys.{traversal_node_key, frame_order, is_eq}
use repo_hyperindex.Impact.Engine.{response, analyze_inputs}
use repo_hyperindex.Impact.Traversal.{
  Traversal, next_frame, count_step, counted_step, should_enqueue, enqueue, take_step, take_steps,
  visit, traverse, start, rounds, cut, sorted_steps, count_node, scenario_policy,
}

module _ (plan : ImpactEngineInputs) (policy : ScenarioPolicy) where
  -- The counters and the depths of a state of the traversal are within the policy. (The selected
  -- target counts as a candidate, whatever the limit.)
  pub record InBudget (t : Traversal) : Type 0 where
    pub nodes : t.stats.nodes_visited ≤ policy.max_nodes_visited
    pub edges : t.stats.edges_traversed ≤ policy.max_edges_traversed
    pub candidates : t.stats.candidates_considered ≤ max 1 policy.max_candidates_considered
    pub reached : t.stats.depth_reached ≤ policy.max_depth
    pub queued : All (λ (f : TraversalFrame). f.depth ≤ policy.max_depth) t.queue

  abbrev room : Traversal → ℕ
  room t = policy.max_edges_traversed - t.stats.edges_traversed + length t.queue

  take_step-stats :
      (t : Traversal) (frame : TraversalFrame) (step : TraversalStep)
      → (take_step plan policy t frame step).stats
        ≡ count_step plan policy t.stats (frame.depth + 1)
  unfolding take_step
  take_step-stats t frame step = ground arith

  enqueue-queue :
      (t : Traversal) (next : TraversalFrame)
      → ((enqueue plan policy t next).queue ≡ t.queue)
        ⊎ ((enqueue plan policy t next).queue ≡ t.queue ++ next ∷ [])
  enqueue-queue t next = elim (Bool-cases (should_enqueue plan policy t next)) [
    | inl goes ↦ inr (rw goes refl)
    | inr stays ↦ inl (rw stays refl)
  ]

  take_step-queue :
      (t : Traversal) (frame : TraversalFrame) (step : TraversalStep)
      → ((take_step plan policy t frame step).queue ≡ t.queue)
        ⊎ ((next : TraversalFrame) × (next.depth ≡ frame.depth + 1)
            × ((take_step plan policy t frame step).queue ≡ t.queue ++ next ∷ []))
  unfolding take_step
  take_step-queue t frame step = elim (Option-cases step.next_node) [
    | inl ends ↦ inl (rw (ends, take_step) refl)
    | inr (node, leads) ↦
        let next = next_frame plan policy frame step node in
        elim (enqueue-queue (counted_step plan policy t frame step) next) [
          | inl same ↦ inl (rw (leads, take_step) same)
          | inr grows ↦ inr (next, refl, rw (leads, take_step) grows)
        ]
  ]

  take_step-InBudget :
      (t : Traversal) (frame : TraversalFrame) (step : TraversalStep)
      → frame.depth < policy.max_depth
      → t.stats.edges_traversed < policy.max_edges_traversed
      → t.stats.candidates_considered < policy.max_candidates_considered
      → InBudget t
      → InBudget (take_step plan policy t frame step)
        × (room (take_step plan policy t frame step) ≤ room t)
  take_step-InBudget t frame step deeper edge_left candidate_left w =
      let stats = take_step-stats t frame step in
      let edges = ap (λ s. s.edges_traversed) stats in
      let depth = ap (λ s. s.depth_reached) stats in
      let considered = ap (λ s. s.candidates_considered) stats in
      let nodes = ap (λ s. s.nodes_visited) stats in
      let old = w.reached in
      elim (take_step-queue t frame step) [
        | inl same ↦ (
          record {
            nodes = omega (arith, nodes, w.nodes);
            edges = omega (arith, edges, edge_left);
            candidates = omega (arith, considered, candidate_left);
            reached = omega (arith, depth, old, deeper);
            queued =
                subst (All (λ (f : TraversalFrame). f.depth ≤ policy.max_depth)) (sym same)
                  w.queued;
          },
          omega (arith, edges, ap length same, edge_left),
        )
        | inr (next, at, grows) ↦ (
          record {
            nodes = omega (arith, nodes, w.nodes);
            edges = omega (arith, edges, edge_left);
            candidates = omega (arith, considered, candidate_left);
            reached = omega (arith, depth, old, deeper);
            queued = subst (All (λ (f : TraversalFrame). f.depth ≤ policy.max_depth)) (sym grows) (
                All-append (λ (f : TraversalFrame). f.depth ≤ policy.max_depth) t.queue (next ∷ [])
                  w.queued (omega (arith, at, deeper), tt));
          },
          omega (arith, edges, ap length grows, length-append t.queue (next ∷ []), edge_left),
        )
      ]

  cut-InBudget :
      (t : Traversal) (cutoff : Text)
      → InBudget t
      → InBudget (cut plan policy t cutoff) × (room (cut plan policy t cutoff) ≤ room t)
  cut-InBudget t cutoff w = elim (Bool-cases (any (λ c. beq c cutoff) t.stats.cutoffs_triggered)) [
    | inl old ↦ rw old (w, omega arith)
    | inr new ↦ rw new (
      record {
        nodes = w.nodes;
        edges = w.edges;
        candidates = w.candidates;
        reached = w.reached;
        queued = w.queued;
      },
      omega arith,
    )
  ]

  take_steps-InBudget :
      (t : Traversal) (frame : TraversalFrame) (steps : List TraversalStep)
      → frame.depth < policy.max_depth
      → InBudget t
      → InBudget (take_steps plan policy t frame steps).0
        × (room (take_steps plan policy t frame steps).0 ≤ room t)
  unfolding take_steps
  take_steps-InBudget t frame [] deeper w = (w, omega arith)
  take_steps-InBudget t frame (step ∷ steps) deeper w =
      elim (Bool-cases (leb policy.max_edges_traversed t.stats.edges_traversed)) [
        | inl spent ↦ rw (spent, take_steps) (cut-InBudget t (text "edges_traversed") w)
        | inr edge_left ↦
            elim (Bool-cases (leb policy.max_candidates_considered t.stats.candidates_considered)) [
              | inl spent ↦
                  rw (edge_left, spent, take_steps)
                    (cut-InBudget t (text "candidates_considered") w)
              | inr candidate_left ↦
                  let (w', less) =
                    take_step-InBudget t frame step deeper (ground (arith, edge_left))
                      (ground (arith, candidate_left)) w in
                  let (w'', less') =
                    take_steps-InBudget (take_step plan policy t frame step) frame steps deeper
                      w' in
                  rw (edge_left, candidate_left, take_steps) (w'', omega (arith, less, less'))
            ]
      ]

  count_node-InBudget :
      (t : Traversal) (frame : TraversalFrame)
      → frame.depth ≤ policy.max_depth
      → t.stats.nodes_visited < policy.max_nodes_visited
      → InBudget t
      → InBudget (count_node plan policy t frame)
  count_node-InBudget t frame at node_left w = record {
    nodes = omega (arith, node_left);
    edges = w.edges;
    candidates = w.candidates;
    reached = omega (arith, w.reached, at);
    queued = w.queued;
  }

  visit-InBudget :
      (t : Traversal) (frame : TraversalFrame)
      → frame.depth ≤ policy.max_depth
      → InBudget t
      → InBudget (visit plan policy t frame).0 × (room (visit plan policy t frame).0 ≤ room t)
  unfolding visit
  visit-InBudget t frame at w =
      elim (Option-cases (get t.best_frames (traversal_node_key frame.node))) [
        | inl unknown ↦ rw (unknown, visit) (w, omega arith)
        | inr (best, known) ↦ elim (Bool-cases (is_eq (frame_order frame best))) [
          | inr stale ↦ rw (known, stale, visit) (w, omega arith)
          | inl current ↦ elim (Bool-cases (leb policy.max_nodes_visited t.stats.nodes_visited)) [
            | inl spent ↦
                rw (known, current, spent, visit) (cut-InBudget t (text "nodes_visited") w)
            | inr node_left ↦
                let w' = count_node-InBudget t frame at (ground (arith, node_left)) w in
                elim (Bool-cases (leb policy.max_depth frame.depth)) [
                  | inl deepest ↦ rw (known, current, node_left, deepest, visit) (w', omega arith)
                  | inr deeper ↦
                      rw (known, current, node_left, deeper, visit)
                        (take_steps-InBudget (count_node plan policy t frame) frame
                          (sorted_steps plan policy frame) (ground (arith, deeper)) w')
                ]
          ]
        ]
      ]

  traverse-InBudget :
      (fuel : ℕ) (t : Traversal)
      → room t < fuel
      → InBudget t
      → (t' : Traversal) × (traverse plan policy fuel t ≡ some t') × InBudget t'
  unfolding traverse
  traverse-InBudget zero t h w = absurd (omega (arith, h))
  traverse-InBudget (suc fuel) t h w = elim (List-cases t.queue) [
    | inl empty ↦ (t, simp (empty, traverse), w)
    | inr (frame, rest, e) ↦
        let popped : Traversal = record t { queue = rest } in
        let queued = subst (All (λ (f : TraversalFrame). f.depth ≤ policy.max_depth)) e w.queued in
        let (w', less) = visit-InBudget popped frame queued.0 (record {
          nodes = w.nodes;
          edges = w.edges;
          candidates = w.candidates;
          reached = w.reached;
          queued = queued.1;
        }) in
        elim (Bool-cases (visit plan policy popped frame).1) [
          | inl stops ↦ ((visit plan policy popped frame).0, rw (e, stops, traverse) refl, w')
          | inr goes_on ↦
              let (t', ends, w'') =
                traverse-InBudget fuel (visit plan policy popped frame).0
                  (omega (arith, h, less, ap length e)) w' in
              (t', rw (e, goes_on, traverse) ends, w'')
        ]
  ]

  start-InBudget : InBudget (start plan policy)
  start-InBudget = record {
    nodes = omega arith;
    edges = omega arith;
    candidates = omega arith;
    reached = omega arith;
    queued = (omega arith, tt);
  }

pub traverse-ends :
    (plan : ImpactEngineInputs) (policy : ScenarioPolicy)
    → (t : Traversal) × (traverse plan policy (rounds plan policy) (start plan policy) ≡ some t)
      × InBudget plan policy t
traverse-ends plan policy =
    traverse-InBudget plan policy (rounds plan policy) (start plan policy) (omega arith)
      (start-InBudget plan policy)

-- The traversal of an analysis always ends: the analysis answers, and its counts are within the
-- scenario's policy, and the depth too. (The selected target counts as a candidate, whatever the
-- limit.)
pub analyze_inputs-InBudget :
    (params : ImpactAnalyzeParams) (plan : ImpactEngineInputs) (elapsed_ms : ℕ)
    → (r : ImpactAnalyzeResponse) × (analyze_inputs params plan elapsed_ms ≡ some r)
      × (r.stats.nodes_visited ≤ (scenario_policy plan.seed.change_hint params).max_nodes_visited)
      × (r.stats.edges_traversed
          ≤ (scenario_policy plan.seed.change_hint params).max_edges_traversed)
      × (r.stats.candidates_considered
          ≤ max 1 (scenario_policy plan.seed.change_hint params).max_candidates_considered)
      × (r.stats.depth_reached ≤ (scenario_policy plan.seed.change_hint params).max_depth)
unfolding analyze_inputs response
analyze_inputs-InBudget params plan elapsed_ms =
    let policy = scenario_policy plan.seed.change_hint params in
    let (t, ends, w) = traverse-ends plan policy in
    (
      response params plan policy elapsed_ms t,
      rw (ends, analyze_inputs) refl,
      w.nodes,
      w.edges,
      w.candidates,
      w.reached,
    )

-- ===== src/Impact/Traversal/Rule.antt =====
-- crates/hyperindex-impact/src/impact_engine.rs: the rule for what the loops of the traversal keep.
use repo_hyperindex.Base.{
  ℕ, zero, suc, ◌≡◌, ◌∙◌, ap, subst, sym, none, some, List, [], ◌∷◌, leb, Bool-cases, Option-cases,
  List-cases, inl, inr,
}
use repo_hyperindex.Base.Text.{text_ord, text}
use repo_hyperindex.Base.Dict.{get}
use repo_hyperindex.Impact.{
  ImpactEngineInputs, ImpactTraversalStats, TraversalFrame, TraversalStep, ScenarioPolicy,
}
use repo_hyperindex.Impact.Keys.{traversal_node_key, frame_order, is_eq}
use repo_hyperindex.Impact.Traversal.{
  Traversal, take_step, take_steps, visit, traverse, record_cutoff, sorted_steps, count_node,
}

some_inj {ℓ} : {A : Type ℓ} {a b : A} → some a ≡ some b → a ≡ b
some_inj {a} h = ap (λ o. elim o [ none ↦ a | some x ↦ x ]) h

emptied :
    (plan : ImpactEngineInputs) (policy : ScenarioPolicy) (fuel : ℕ) (t : Traversal)
    → t.queue ≡ []
    → traverse plan policy (suc fuel) t ≡ some t
unfolding traverse
emptied plan policy fuel t e = simp (e, traverse)

module _ {ℓ κ} (plan : ImpactEngineInputs) (policy : ScenarioPolicy) (P : Traversal → Type ℓ)
    (F : TraversalFrame → Type κ)
    (counts : (t : Traversal) (stats : ImpactTraversalStats) → P t → P (record t { stats = stats }))
    (pops : (t : Traversal) (frame : TraversalFrame) (rest : List TraversalFrame)
      → t.queue ≡ frame ∷ rest
      → P t
      → F frame × P (record t { queue = rest }))
    (takes : (t : Traversal) (frame : TraversalFrame) (step : TraversalStep)
      → F frame
      → P t
      → P (take_step plan policy t frame step)) where
  take_steps_keeps :
      (t : Traversal) (frame : TraversalFrame) (steps : List TraversalStep)
      → F frame
      → P t
      → P (take_steps plan policy t frame steps).0
  unfolding take_steps
  take_steps_keeps t frame [] f p = p
  take_steps_keeps t frame (step ∷ steps) f p =
      elim (Bool-cases (leb policy.max_edges_traversed t.stats.edges_traversed)) [
        | inl spent ↦
            rw (spent, take_steps) (counts t (record_cutoff t.stats (text "edges_traversed")) p)
        | inr edge_left ↦
            elim (Bool-cases (leb policy.max_candidates_considered t.stats.candidates_considered)) [
              | inl spent ↦
                  rw (edge_left, spent, take_steps)
                    (counts t (record_cutoff t.stats (text "candidates_considered")) p)
              | inr candidate_left ↦
                  rw (edge_left, candidate_left, take_steps)
                    (take_steps_keeps (take_step plan policy t frame step) frame steps f
                      (takes t frame step f p))
            ]
      ]

  visit_keeps :
      (t : Traversal) (frame : TraversalFrame) → F frame → P t → P (visit plan policy t frame).0
  unfolding visit
  visit_keeps t frame f p =
      elim (Option-cases (get t.best_frames (traversal_node_key frame.node))) [
        | inl unknown ↦ rw (unknown, visit) p
        | inr (best, known) ↦ elim (Bool-cases (is_eq (frame_order frame best))) [
          | inr stale ↦ rw (known, stale, visit) p
          | inl current ↦ elim (Bool-cases (leb policy.max_nodes_visited t.stats.nodes_visited)) [
            | inl spent ↦
                rw (known, current, spent, visit)
                  (counts t (record_cutoff t.stats (text "nodes_visited")) p)
            | inr node_left ↦ elim (Bool-cases (leb policy.max_depth frame.depth)) [
              | inl deepest ↦
                  rw (known, current, node_left, deepest, visit)
                    (counts t (count_node plan policy t frame).stats p)
              | inr deeper ↦
                  rw (known, current, node_left, deeper, visit)
                    (take_steps_keeps (count_node plan policy t frame) frame
                      (sorted_steps plan policy frame) f
                      (counts t (count_node plan policy t frame).stats p))
            ]
          ]
        ]
      ]

  -- What a change of the counters, a frame's leaving the queue and a step keep, the traversal keeps.
  pub traverse_keeps :
      (fuel : ℕ) (t t' : Traversal) → P t → traverse plan policy fuel t ≡ some t' → P t'
  unfolding traverse
  traverse_keeps zero t t' p h = cc
  traverse_keeps (suc fuel) t t' p h = elim (List-cases t.queue) [
    | inl empty ↦ subst P (some_inj (sym (emptied plan policy fuel t empty) ∙ h)) p
    | inr (frame, rest, e) ↦
        let (f, popped) = pops t frame rest e p in
        let p' = visit_keeps (record t { queue = rest }) frame f popped in
        elim (Bool-cases (visit plan policy (record t { queue = rest }) frame).1) [
          | inl stops ↦ subst P (some_inj (rw (e, stops, traverse) at h)) p'
          | inr goes_on ↦
              traverse_keeps fuel (visit plan policy (record t { queue = rest }) frame).0 t' p'
                (rw (e, goes_on, traverse) at h)
        ]
  ]

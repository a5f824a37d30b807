-- ===== src/Impact/Traversal/Chains.antt =====
-- crates/hyperindex-impact/src/impact_engine.rs: the reason paths of the candidates.
use repo_hyperindex.Base.{
  ℕ, ◌≡◌, ◌⊎◌, ◌∙◌, refl, ap, sym, subst, true, false, some, List, [], ◌∷◌, ◌++◌, arith, leb,
  length, length-append, All, All-append, Bool-cases, Option-cases, inl, inr,
}
use repo_hyperindex.Base.Order.{beq, beq_refl}
use repo_hyperindex.Base.Text.{text_ord, Text}
use repo_hyperindex.Base.Dict.{Dict, empty, get, get-insert}
use repo_hyperindex.Base.Ascending.{IsOrdered, insert-IsOrdered}
use repo_hyperindex.Base.Entries.{Entries, insert-Entries, get-Entries}
use repo_hyperindex.Planner.{ImpactEntityRef}
use repo_hyperindex.Impact.{
  certain, seed, ImpactEvidenceEdge, ImpactReasonPath, ImpactEngineInputs, TraversalNode,
  TraversalFrame, TraversalStep, CandidateHit, ScenarioPolicy,
}
use repo_hyperindex.Impact.Keys.{entity_key}
use repo_hyperindex.Impact.Hits.{
  candidate_hit, merged_candidate, add_candidate, is_better, no_paths,
}
use repo_hyperindex.Impact.Explain.{explanation_for_hit, reason_path_from_edges, seed_reason_paths}
use repo_hyperindex.Impact.Traversal.{
  Traversal, next_frame, step_candidate, counted_step, should_enqueue, enqueue, take_step, traverse,
  start, seed_entity, extend_reason_path,
}
use repo_hyperindex.Impact.Traversal.Rule.{traverse_keeps}

-- Edges that lead from one entity to another, each from where the one before it ends.
abbrev pub IsChain : ImpactEntityRef → List ImpactEvidenceEdge → ImpactEntityRef → Type 0
IsChain a [] b = a ≡ b
IsChain a (e ∷ es) b = (e.from ≡ a) × IsChain e.to es b

IsChain-snoc :
    (a b : ImpactEntityRef) (es : List ImpactEvidenceEdge) (e : ImpactEvidenceEdge)
    → IsChain a es b
    → e.from ≡ b
    → IsChain a (es ++ e ∷ []) e.to
IsChain-snoc a b [] e h from = (from ∙ sym h, refl)
IsChain-snoc a b (d ∷ es) e h from = (h.0, IsChain-snoc d.to b es e h.1 from)

merged_kept :
    (candidate entry : CandidateHit)
    → is_better candidate entry ≡ false
    → no_paths entry.reason_paths ≡ false
    → merged_candidate candidate entry ≡ entry
merged_kept candidate entry worse explained = rw (worse, explained) refl

merged_self : (c : CandidateHit) → no_paths c.reason_paths ≡ false → merged_candidate c c ≡ c
merged_self c explained = elim (Bool-cases (is_better c c)) [
  | inl better ↦ rw better refl
  | inr worse ↦ merged_kept c c worse explained
]

module _ (plan : ImpactEngineInputs) (policy : ScenarioPolicy) where
  -- A frame's edges lead from the target to its entity, and there are as many as it is deep.
  abbrev IsReached : TraversalFrame → Type 0
  IsReached f = IsChain (seed_entity plan) f.path_edges f.entity × (length f.path_edges ≡ f.depth)

  -- The one reason path of a candidate leads from the selected target to it, in as many edges as
  -- its depth says, unless it is the target itself, and its explanation is by that path.
  abbrev pub IsExplained : CandidateHit → Type 0
  IsExplained c =
      (p : ImpactReasonPath) × (c.reason_paths ≡ p ∷ [])
      × (c.explanation.primary_path ≡ p)
      × IsChain (seed_entity plan) p.edges c.entity
      × ((length p.edges ≡ c.depth) ⊎ ((c.entity ≡ seed_entity plan) × (c.depth ≡ 0)))
      × (c.direct ≡ leb c.depth 1)

  abbrev pub IsFiled : Text → CandidateHit → Type 0
  IsFiled key c = (entity_key c.entity ≡ key) × IsExplained c

  merged-IsFiled :
      (key : Text) (candidate entry : CandidateHit)
      → IsFiled key candidate
      → IsFiled key entry
      → IsFiled key (merged_candidate candidate entry)
  merged-IsFiled key candidate entry h k = elim (Bool-cases (is_better candidate entry)) [
    | inl better ↦ rw better h
    | inr worse ↦
        let keeps = merged_kept candidate entry worse (ap no_paths k.1.1) in
        subst (IsFiled key) (sym keeps) k
  ]

  add_candidate-Filed :
      (candidates : Dict Text CandidateHit) (candidate : CandidateHit)
      → IsExplained candidate
      → Entries IsFiled candidates
      → Entries IsFiled (add_candidate candidates candidate)
  unfolding add_candidate
  add_candidate-Filed candidates candidate h filed =
      let key = entity_key candidate.entity in
      insert-Entries IsFiled candidates key _
        (elim (Option-cases (get candidates key)) [
          | inl fresh ↦ rw fresh (merged-IsFiled key candidate candidate (refl, h) (refl, h))
          | inr (entry, there) ↦ rw there (
              merged-IsFiled key candidate entry (refl, h)
                (get-Entries IsFiled candidates key entry filed there))
        ])
        filed

  add_candidate-IsOrdered :
      (candidates : Dict Text CandidateHit) (candidate : CandidateHit)
      → IsOrdered candidates
      → IsOrdered (add_candidate candidates candidate)
  unfolding add_candidate
  add_candidate-IsOrdered candidates candidate ordered =
      insert-IsOrdered candidates (entity_key candidate.entity) _ ordered

  step_candidate-IsExplained :
      (frame : TraversalFrame) (step : TraversalStep)
      → IsReached frame
      → IsExplained (step_candidate plan policy frame step)
  unfolding candidate_hit explanation_for_hit
  step_candidate-IsExplained frame step (chain, deep) =
      let edges = extend_reason_path frame.path_edges frame.entity step in
      (
        reason_path_from_edges edges,
        refl,
        refl,
        IsChain-snoc (seed_entity plan) frame.entity frame.path_edges _ chain refl,
        inl (omega (arith, length-append frame.path_edges (_ ∷ []), deep)),
        refl,
      )

  next_frame-IsReached :
      (frame : TraversalFrame) (step : TraversalStep) (node : TraversalNode)
      → IsReached frame
      → IsReached (next_frame plan policy frame step node)
  next_frame-IsReached frame step node (chain, deep) = (
    IsChain-snoc (seed_entity plan) frame.entity frame.path_edges _ chain refl,
    omega (arith, length-append frame.path_edges (_ ∷ []), deep),
  )

  -- What the traversal keeps: what is queued is reached, every candidate is filed under its entity
  -- and explained, and the selected target's own candidate stays.
  pub record IsSound (t : Traversal) : Type 0 where
    pub queued : All IsReached t.queue
    pub filed : Entries IsFiled t.candidates
    pub ordered : IsOrdered t.candidates
    pub target :
        (c : CandidateHit) × (get t.candidates (entity_key (seed_entity plan)) ≡ some c)
        × (c.entity ≡ seed_entity plan)
        × (c.depth ≡ 0)

  add_candidate-other :
      (candidates : Dict Text CandidateHit) (candidate : CandidateHit) (key : Text)
      → beq (entity_key candidate.entity) key ≡ false
      → get (add_candidate candidates candidate) key ≡ get candidates key
  unfolding add_candidate
  add_candidate-other candidates candidate key other =
      get-insert candidates (entity_key candidate.entity) key _ ∙ rw other refl

  counted_step-IsSound :
      (t : Traversal) (frame : TraversalFrame) (step : TraversalStep)
      → IsReached frame
      → IsSound t
      → IsSound (counted_step plan policy t frame step)
  counted_step-IsSound t frame step h w =
      elim (Bool-cases (beq (entity_key step.entity) (entity_key (seed_entity plan)))) [
        | inl itself ↦
            rw itself (record {
              queued = w.queued;
              filed = w.filed;
              ordered = w.ordered;
              target = w.target;
            })
        | inr other ↦
            let candidate = step_candidate plan policy frame step in
            let (c, there, is, depth) = w.target in
            rw other (record {
              queued = w.queued;
              filed =
                  add_candidate-Filed t.candidates candidate
                    (step_candidate-IsExplained frame step h) w.filed;
              ordered = add_candidate-IsOrdered t.candidates candidate w.ordered;
              target = (
                c,
                add_candidate-other t.candidates candidate (entity_key (seed_entity plan))
                      (unfold candidate_hit in other)
                    ∙ there,
                is,
                depth,
              );
            })
      ]

  enqueue-IsSound :
      (t : Traversal) (next : TraversalFrame)
      → IsReached next
      → IsSound t
      → IsSound (enqueue plan policy t next)
  enqueue-IsSound t next h w = elim (Bool-cases (should_enqueue plan policy t next)) [
    | inr stays ↦ rw stays w
    | inl goes ↦ rw goes (record {
      queued = All-append IsReached t.queue (next ∷ []) w.queued (h, tt);
      filed = w.filed;
      ordered = w.ordered;
      target = w.target;
    })
  ]

  take_step-IsSound :
      (t : Traversal) (frame : TraversalFrame) (step : TraversalStep)
      → IsReached frame
      → IsSound t
      → IsSound (take_step plan policy t frame step)
  unfolding take_step
  take_step-IsSound t frame step h w =
      let w' = counted_step-IsSound t frame step h w in
      elim (Option-cases step.next_node) [
        | inl ends ↦ rw (ends, take_step) w'
        | inr (node, leads) ↦
            rw (leads, take_step)
              (enqueue-IsSound (counted_step plan policy t frame step)
                (next_frame plan policy frame step node) (next_frame-IsReached frame step node h)
                w')
      ]

  target_hit : CandidateHit
  target_hit =
      candidate_hit plan (seed_entity plan) certain seed 0 true 1000
        (seed_reason_paths (seed_entity plan))

  target_hit-IsExplained : IsExplained target_hit
  unfolding target_hit candidate_hit explanation_for_hit
  target_hit-IsExplained = (_, refl, refl, (refl, refl), inr (refl, refl), refl)

  target_hit-filed :
      get (add_candidate empty target_hit) (entity_key (seed_entity plan)) ≡ some target_hit
  unfolding target_hit candidate_hit add_candidate get
  target_hit-filed =
      get-insert empty (entity_key (seed_entity plan)) (entity_key (seed_entity plan)) _
      ∙ rw (beq_refl (entity_key (seed_entity plan))) (ap some (merged_self target_hit refl))

  start-IsSound : IsSound (start plan policy)
  unfolding target_hit candidate_hit
  start-IsSound = record {
    queued = ((refl, refl), tt);
    filed = add_candidate-Filed empty target_hit target_hit-IsExplained tt;
    ordered = add_candidate-IsOrdered empty target_hit tt;
    target = (target_hit, target_hit-filed, refl, refl);
  }

  -- Whenever the traversal ends, every candidate is explained by a reason path that leads to it.
  pub traverse-IsSound :
      (fuel : ℕ) (t : Traversal)
      → traverse plan policy fuel (start plan policy) ≡ some t
      → IsSound t
  traverse-IsSound fuel t h =
      traverse_keeps plan policy IsSound IsReached
        (λ s stats w. record {
          queued = w.queued;
          filed = w.filed;
          ordered = w.ordered;
          target = w.target;
        })
        (λ s frame rest e w.
          let queued = subst (All IsReached) e w.queued in
          (
            queued.0,
            record { queued = queued.1; filed = w.filed; ordered = w.ordered; target = w.target },
          ))
        take_step-IsSound fuel (start plan policy) t start-IsSound h

-- ===== src/Impact/Engine/Sorted.antt =====
-- crates/hyperindex-impact/src/impact_engine.rs: the order of a response's hits.
use repo_hyperindex.Base.{
  ℕ, ◌+◌, ◌-◌, ◌^◌, ◌≡◌, refl, sym, subst, Bool, true, some, List, [], ◌∷◌, arith, ◌==◌, All,
  Bool-cases, inl, inr, Ordering,
}
use repo_hyperindex.Base.Order.{not_gt, nat_ord}
use repo_hyperindex.Base.Text.{text_ord}
use repo_hyperindex.Base.Sort.{
  sort_by-IsSorted, IsSorted, IsSorted-take, IsWeak, by_key, by_key-IsWeak, both-IsWeak,
}
use repo_hyperindex.Base.Dict.{values}
use repo_hyperindex.Impact.{
  ImpactHit, ImpactAnalyzeParams, ImpactAnalyzeResponse, ImpactEngineInputs, CandidateHit,
  entity_kind,
}
use repo_hyperindex.Impact.Keys.{
  certainty_rank, relationship_rank, entity_kind_rank, entity_key, compare_candidate_hits,
}
use repo_hyperindex.Impact.Hits.Groups.{hits_of, group_hits_exact}
use repo_hyperindex.Impact.Engine.{
  truncated, ranked_from, ranked_candidates, response, analyze_inputs,
}
use repo_hyperindex.Impact.Traversal.{scenario_policy}
use repo_hyperindex.Impact.Traversal.Budget.{traverse-ends}

compare_candidate_hits-IsWeak : IsWeak compare_candidate_hits
compare_candidate_hits-IsWeak =
    both-IsWeak _ _
      (both-IsWeak _ _ (by_key-IsWeak (λ h. certainty_rank h.certainty)) (
        both-IsWeak _ _ (by_key-IsWeak (λ h. h.shortest_reason_path)) (
          both-IsWeak _ _ (by_key-IsWeak (λ h. relationship_rank h.primary_reason)) (
            both-IsWeak _ _ (by_key-IsWeak (λ h. h.depth)) (
              both-IsWeak _ _ (by_key-IsWeak (λ h. h.test_relevance)) (
                both-IsWeak _ _ (by_key-IsWeak (λ h. h.path_relevance)) (
                  both-IsWeak _ _ (by_key-IsWeak (λ h. 2 ^ 32 - 1 - h.score))
                    (by_key-IsWeak (λ h. entity_kind_rank (entity_kind h.entity))))))))))
      (by_key-IsWeak (λ h. entity_key h.entity))

truncated-IsSorted :
    (limit : ℕ) (hits : List CandidateHit)
    → IsSorted compare_candidate_hits hits
    → IsSorted compare_candidate_hits (truncated limit hits)
truncated-IsSorted limit hits h = elim (Bool-cases (limit == 0)) [
  | inl cleared ↦ rw cleared tt
  | inr kept ↦ rw kept (IsSorted-take compare_candidate_hits limit hits h)
]

abbrev pub by_certainty : ImpactHit → ImpactHit → Ordering
by_certainty = by_key (λ hit. certainty_rank hit.certainty)

ranked_from-Above :
    (hit : CandidateHit) (n : ℕ) (included : Bool) (hits : List CandidateHit)
    → All (λ h. not_gt (compare_candidate_hits hit h) ≡ true) hits
    → All
        (λ (h : ImpactHit).
          not_gt (
            by_key ⦃o = nat_ord⦄
              (λ (c : ℕ). c)
              (certainty_rank hit.certainty)
              (certainty_rank h.certainty))
          ≡ true)
        (ranked_from n included hits)
ranked_from-Above hit n included [] h = tt
ranked_from-Above hit n included (x ∷ hits) h =
    (ground (arith, h.0), ranked_from-Above hit (n + 1) included hits h.1)

ranked_from-IsSorted :
    (n : ℕ) (included : Bool) (hits : List CandidateHit)
    → IsSorted compare_candidate_hits hits
    → IsSorted by_certainty (ranked_from n included hits)
ranked_from-IsSorted n included [] h = tt
ranked_from-IsSorted n included (hit ∷ hits) h = (
  ranked_from-Above hit (n + 1) included hits h.0,
  ranked_from-IsSorted (n + 1) included hits h.1,
)

-- The hits of an answer come in the order of their certainty: no hit stands after one that is less
-- certain.
pub analyze_inputs-IsSorted :
    (params : ImpactAnalyzeParams) (plan : ImpactEngineInputs) (elapsed_ms : ℕ)
    → (r : ImpactAnalyzeResponse) × (analyze_inputs params plan elapsed_ms ≡ some r)
      × IsSorted by_certainty (hits_of r.groups)
unfolding analyze_inputs response
analyze_inputs-IsSorted params plan elapsed_ms =
    let policy = scenario_policy plan.seed.change_hint params in
    let (t, ends, _) = traverse-ends plan policy in
    let hits = ranked_candidates params.limit t in
    (
      response params plan policy elapsed_ms t,
      rw (ends, analyze_inputs) refl,
      subst (IsSorted by_certainty)
          (sym (group_hits_exact (ranked_from 0 plan.reason_paths.included hits)).0)
          (ranked_from-IsSorted 0 plan.reason_paths.included hits (
            truncated-IsSorted params.limit _ (
              sort_by-IsSorted compare_candidate_hits compare_candidate_hits-IsWeak
                (values t.candidates)))),
    )

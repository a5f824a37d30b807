-- ===== src/Impact/Engine/Response.antt =====
-- crates/hyperindex-impact/src/impact_engine.rs: the hits of a response.
use repo_hyperindex.Base.{
  ℕ, suc, ◌+◌, ◌^◌, ◌≤◌, ◌<◌, ◌≡◌, ◌⊎◌, ◌∙◌, refl, ap, sym, subst, Bool, not, some, List, [], ◌∷◌,
  map, arith, if◌then◌else◌, leb, ◌==◌, length, length-take-le, filter, count, count-take-le, All,
  All-imp, All-map, All-take, Bool-cases, inl, inr,
}
use repo_hyperindex.Base.Order.{Ord, beq, beq_iff, nat_ord}
use repo_hyperindex.Base.Text.{text_ord, Text}
use repo_hyperindex.Base.Sort.{sort_by, All-sort_by, count-sort_by}
use repo_hyperindex.Base.Dict.{values}
use repo_hyperindex.Base.Ascending.{Above, IsAscending}
use repo_hyperindex.Impact.{
  certain, likely, possible, ImpactHitExplanation, ImpactHit, ImpactAnalyzeParams,
  ImpactAnalyzeResponse, ImpactEngineInputs, CandidateHit, ScenarioPolicy,
}
use repo_hyperindex.Impact.Keys.{entity_key, compare_candidate_hits}
use repo_hyperindex.Impact.Hits.{group_hits}
use repo_hyperindex.Impact.Hits.Groups.{hits_of, group_hits_exact}
use repo_hyperindex.Impact.Engine.{
  truncated, ranked_from, ranked_candidates, has_tier, response, analyze_inputs,
}
use repo_hyperindex.Impact.Traversal.{Traversal, rounds, seed_entity, scenario_policy}
use repo_hyperindex.Impact.Traversal.Budget.{traverse-ends}
use repo_hyperindex.Impact.Traversal.Chains.{
  IsChain, IsExplained, IsFiled, IsSound, traverse-IsSound,
}

-- Of keys in ascending order, none stands twice.
module _ {ℓ κ} {K : Type ℓ} {V : Type κ} ⦃o : Ord K⦄ where
  count-Above :
      (k : K) (m : List (K × V)) → Above k (map (λ e. e.0) m) → count (λ e. beq e.0 k) m ≡ 0
  count-Above k [] a = refl
  count-Above k ((i, v) ∷ m) a = ground (arith, count-Above k m a.1, beq_iff i k, o.cmp_self k)

  count-key-le :
      (k : K) (m : List (K × V)) → IsAscending (map (λ e. e.0) m) → count (λ e. beq e.0 k) m ≤ 1
  count-key-le k [] h = omega arith
  count-key-le k ((i, v) ∷ m) h = elim (Bool-cases (beq i k)) [
    | inl same ↦ rw same (
        omega (
          arith,
          count-Above k m (subst (λ j. Above j (map (λ e. e.0) m)) ((beq_iff i k).0 same) h.0),
        ))
    | inr other ↦ rw other (count-key-le k m h.1)
  ]

length-split {ℓ} :
    {A : Type ℓ} (p : A → Bool) (xs : List A)
    → length (filter p xs) + length (filter (λ x. not (p x)) xs) ≡ length xs
length-split p [] = omega arith
length-split p (x ∷ xs) = ground (arith, length-split p xs)

length-tiers :
    (hits : List CandidateHit)
    → length (filter (has_tier certain) hits)
        + length (filter (has_tier likely) hits)
        + length (filter (has_tier possible) hits)
      ≡ length hits
length-tiers [] = omega arith
length-tiers (hit ∷ hits) = ground (arith, length-tiers hits)

truncated-length : (limit : ℕ) (hits : List CandidateHit) → length (truncated limit hits) ≤ limit
truncated-length limit hits = ground (arith, length-take-le limit hits)

truncated-All {ℓ} :
    (P : CandidateHit → Type ℓ) (limit : ℕ) (hits : List CandidateHit)
    → All P hits
    → All P (truncated limit hits)
truncated-All P limit hits h = elim (Bool-cases (limit == 0)) [
  | inl cleared ↦ rw cleared tt
  | inr kept ↦ rw kept (All-take P limit hits h)
]

truncated-count :
    (p : CandidateHit → Bool) (limit : ℕ) (hits : List CandidateHit)
    → count p (truncated limit hits) ≤ count p hits
truncated-count p limit hits = elim (Bool-cases (limit == 0)) [
  | inl cleared ↦ rw cleared (omega arith)
  | inr kept ↦ rw kept (count-take-le p limit hits)
]

-- The ranks count on from a number.
abbrev pub IsRanked : ℕ → List ImpactHit → Type 0
IsRanked n [] = Unit
IsRanked n (hit ∷ hits) = (hit.rank ≡ n) × IsRanked (n + 1) hits

ranked_from-length :
    (n : ℕ) (included : Bool) (hits : List CandidateHit)
    → length (ranked_from n included hits) ≡ length hits
ranked_from-length n included [] = refl
ranked_from-length n included (hit ∷ hits) = ap suc (ranked_from-length (n + 1) included hits)

ranked_from-IsRanked :
    (n : ℕ) (included : Bool) (hits : List CandidateHit)
    → n + length hits < 2 ^ 32
    → IsRanked (n + 1) (ranked_from n included hits)
ranked_from-IsRanked n included [] h = tt
ranked_from-IsRanked n included (hit ∷ hits) h =
    (omega (arith, h), ranked_from-IsRanked (n + 1) included hits (omega (arith, h)))

ranked_from-count :
    (n : ℕ) (included : Bool) (hits : List CandidateHit) (key : Text)
    → count (λ (hit : ImpactHit). beq (entity_key hit.entity) key) (ranked_from n included hits)
      ≡ count (λ (hit : CandidateHit). beq (entity_key hit.entity) key) hits
ranked_from-count n included [] key = refl
ranked_from-count n included (hit ∷ hits) key =
    ground (arith, ranked_from-count (n + 1) included hits key)

module _ (plan : ImpactEngineInputs) where
  -- The hit's explanation is by a path of edges that lead from the selected target to it, one edge
  -- for each level of its depth, unless it is the target itself; and it is direct at most one deep.
  abbrev pub IsExplainedHit : ImpactHit → Type 0
  IsExplainedHit hit =
      (explanation : ImpactHitExplanation) × (hit.explanation ≡ some explanation)
      × IsChain (seed_entity plan) explanation.primary_path.edges hit.entity
      × ((length explanation.primary_path.edges ≡ hit.depth)
          ⊎ ((hit.entity ≡ seed_entity plan) × (hit.depth ≡ 0)))
      × (hit.direct ≡ leb hit.depth 1)
      × (hit.reason_paths
          ≡ (if plan.reason_paths.included then explanation.primary_path ∷ [] else []))

  ranked_from-IsExplainedHit :
      (policy : ScenarioPolicy) (n : ℕ) (hits : List CandidateHit)
      → All (IsExplained plan policy) hits
      → All IsExplainedHit (ranked_from n plan.reason_paths.included hits)
  ranked_from-IsExplainedHit policy n [] h = tt
  ranked_from-IsExplainedHit policy n (hit ∷ hits) ((p, only, by, chain, deep, direct), h) = (
    (
      hit.explanation,
      refl,
      subst (λ q. IsChain (seed_entity plan) q.edges hit.entity) (sym by) chain,
      subst
          (λ q. (length q.edges ≡ hit.depth) ⊎ ((hit.entity ≡ seed_entity plan) × (hit.depth ≡ 0)))
          (sym by) deep,
      direct,
      ground (arith, only, by),
    ),
    ranked_from-IsExplainedHit policy (n + 1) hits h,
  )

  candidates-IsExplained :
      (policy : ScenarioPolicy) (limit : ℕ) (t : Traversal)
      → IsSound plan policy t
      → All (IsExplained plan policy) (ranked_candidates limit t)
  candidates-IsExplained policy limit t w =
      truncated-All (IsExplained plan policy) limit
        (sort_by compare_candidate_hits (values t.candidates))
        (All-sort_by compare_candidate_hits (IsExplained plan policy) (values t.candidates) (
          All-map (λ e. e.1) (IsExplained plan policy) t.candidates.entries
            (All-imp (λ e h. h.1) t.candidates.entries w.filed)))

filed-count :
    (plan : ImpactEngineInputs) (policy : ScenarioPolicy) (m : List (Text × CandidateHit))
    (key : Text)
    → All (λ e. IsFiled plan policy e.0 e.1) m
    → count (λ (hit : CandidateHit). beq (entity_key hit.entity) key) (map (λ e. e.1) m)
      ≡ count (λ e. beq e.0 key) m
filed-count plan policy [] key h = refl
filed-count plan policy ((k, c) ∷ m) key h =
    ground (arith, filed-count plan policy m key h.1, h.0.0)

candidates-count :
    (plan : ImpactEngineInputs) (policy : ScenarioPolicy) (limit : ℕ) (t : Traversal) (key : Text)
    → IsSound plan policy t
    → count (λ (hit : CandidateHit). beq (entity_key hit.entity) key) (ranked_candidates limit t)
      ≤ 1
candidates-count plan policy limit t key w =
    let at = λ (hit : CandidateHit). beq (entity_key hit.entity) key in
    omega (
      arith,
      truncated-count at limit (sort_by compare_candidate_hits (values t.candidates)),
      count-sort_by compare_candidate_hits at (values t.candidates),
      filed-count plan policy t.candidates.entries key w.filed,
      count-key-le key t.candidates.entries w.ordered,
    )

-- An analysis answers, and each hit of its groups is explained by a
-- path of evidence edges that starts at the selected target, goes on from edge to edge, and ends at
-- the hit, with as many edges as the hit is deep (but for the target itself); a hit is direct
-- exactly if it is at most one deep; and the paths are given only on request.
pub analyze_inputs_explained :
    (params : ImpactAnalyzeParams) (plan : ImpactEngineInputs) (elapsed_ms : ℕ)
    → (r : ImpactAnalyzeResponse) × (analyze_inputs params plan elapsed_ms ≡ some r)
      × All (IsExplainedHit plan) (hits_of r.groups)
unfolding analyze_inputs response
analyze_inputs_explained params plan elapsed_ms =
    let policy = scenario_policy plan.seed.change_hint params in
    let (t, ends, _) = traverse-ends plan policy in
    let w = traverse-IsSound plan policy (rounds plan policy) t ends in
    let hits = ranked_candidates params.limit t in
    (
      response params plan policy elapsed_ms t,
      rw (ends, analyze_inputs) refl,
      subst (All (IsExplainedHit plan))
          (sym (group_hits_exact (ranked_from 0 plan.reason_paths.included hits)).0)
          (ranked_from-IsExplainedHit plan policy 0 hits
            (candidates-IsExplained plan policy params.limit t w)),
    )

-- An analysis whose limit fits a `u32` answers with at most that many hits, ranked from 1 without a
-- gap, no two for the same entity; and its summary adds up: every hit is direct or transitive, and
-- every hit is certain, likely or possible.
pub analyze_inputs_counted :
    (params : ImpactAnalyzeParams) (plan : ImpactEngineInputs) (elapsed_ms : ℕ) (key : Text)
    → params.limit < 2 ^ 32
    → (r : ImpactAnalyzeResponse) × (analyze_inputs params plan elapsed_ms ≡ some r)
      × (length (hits_of r.groups) ≤ params.limit)
      × IsRanked 1 (hits_of r.groups)
      × (count (λ (hit : ImpactHit). beq (entity_key hit.entity) key) (hits_of r.groups) ≤ 1)
      × (r.summary.direct_count + r.summary.transitive_count ≡ length (hits_of r.groups))
      × (r.summary.certainty_counts.certain + r.summary.certainty_counts.likely
            + r.summary.certainty_counts.possible
          ≡ length (hits_of r.groups))
unfolding analyze_inputs response
analyze_inputs_counted params plan elapsed_ms key fits =
    let policy = scenario_policy plan.seed.change_hint params in
    let (t, ends, _) = traverse-ends plan policy in
    let w = traverse-IsSound plan policy (rounds plan policy) t ends in
    let hits = ranked_candidates params.limit t in
    let included = plan.reason_paths.included in
    let few =
      truncated-length params.limit (sort_by compare_candidate_hits (values t.candidates)) in
    let same = (group_hits_exact (ranked_from 0 included hits)).0 in
    let all_ranked = ranked_from-length 0 included hits in
    let grouped : length (hits_of (group_hits (ranked_from 0 included hits))) ≡ length hits =
      ap length same ∙ all_ranked in
    (
      response params plan policy elapsed_ms t,
      rw (ends, analyze_inputs) refl,
      omega (arith, grouped, few),
      subst (IsRanked 1) (sym same)
          (ranked_from-IsRanked 0 included hits (omega (arith, few, fits))),
      rw same (
          omega (
            arith,
            ranked_from-count 0 included hits key,
            candidates-count plan policy params.limit t key w,
          )),
      omega (arith, grouped, few, fits, length-split (λ (hit : CandidateHit). hit.direct) hits),
      omega (arith, grouped, few, fits, length-tiers hits),
    )

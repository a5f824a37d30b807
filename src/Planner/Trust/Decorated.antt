-- ===== src/Planner/Trust/Decorated.antt =====
-- crates/hyperindex-planner/src/trust_payloads.rs: what decoration changes in the groups of an
-- answer.
use repo_hyperindex.Base.{
  ℕ, ◌+◌, ◌≡◌, ◌∙◌, refl, Bool, ◌||◌, Option, List, [], ◌∷◌, arith, ◌==◌, length, get_elem?, any,
}
use repo_hyperindex.Base.Text.{text_ord}
use repo_hyperindex.Planner.{
  PlannerEvidenceKind, exact_match, symbol_hit, semantic_hit, impact_hit, context_seed,
  filter_match, PlannerEvidenceItem,
}
use repo_hyperindex.Planner.Grouping.{PlannerResultGroup}
use repo_hyperindex.Planner.Trust.{
  PlannerRoutePlan, EvidenceProfile, noted, profile_from, no_evidence,
}
use repo_hyperindex.Planner.Trust.Groups.{decorate_group}
use repo_hyperindex.Planner.Trust.Ambiguity.{all_scores, decorate_from, decorate}
use repo_hyperindex.Planner.Trust.Tiers.{tier_by_grade, compute_tier_exact}

abbrev kind_index : PlannerEvidenceKind → ℕ
kind_index exact_match = 0
kind_index symbol_hit = 1
kind_index semantic_hit = 2
kind_index impact_hit = 3
kind_index context_seed = 4
kind_index filter_match = 5

abbrev pub has_kind : PlannerEvidenceKind → List PlannerEvidenceItem → Bool
has_kind kind evidence = any (λ e. kind_index e.evidence_kind == kind_index kind) evidence

-- Which kinds of evidence there are.
abbrev pub profile_of : List PlannerEvidenceItem → EvidenceProfile
profile_of evidence = record {
  has_exact = has_kind exact_match evidence;
  has_symbol = has_kind symbol_hit evidence;
  has_semantic = has_kind semantic_hit evidence;
  has_impact = has_kind impact_hit evidence;
  has_context_seed = has_kind context_seed evidence;
}

abbrev joined : EvidenceProfile → EvidenceProfile → EvidenceProfile
joined a b = record {
  has_exact = a.has_exact || b.has_exact;
  has_symbol = a.has_symbol || b.has_symbol;
  has_semantic = a.has_semantic || b.has_semantic;
  has_impact = a.has_impact || b.has_impact;
  has_context_seed = a.has_context_seed || b.has_context_seed;
}

profile_from-joined :
    (profile : EvidenceProfile) (evidence : List PlannerEvidenceItem)
    → profile_from profile evidence ≡ joined profile (profile_of evidence)
unfolding profile_from
profile_from-joined profile [] = ground arith
profile_from-joined profile (e ∷ evidence) =
    profile_from-joined (noted profile e.evidence_kind) evidence ∙ ground arith

profile_from_exact :
    (evidence : List PlannerEvidenceItem) → profile_from no_evidence evidence ≡ profile_of evidence
profile_from_exact evidence = profile_from-joined no_evidence evidence

module _ (route_plan : PlannerRoutePlan) where
  -- A group before and after decoration: only its trust and its explanation may change.
  abbrev pub IsDecorated : PlannerResultGroup → PlannerResultGroup → Type 0
  IsDecorated group decorated =
      (decorated.group_id ≡ group.group_id)
      × (decorated.label ≡ group.label)
      × (decorated.anchor ≡ group.anchor)
      × (decorated.routes ≡ group.routes)
      × (decorated.evidence ≡ group.evidence)
      × (decorated.score ≡ group.score)
      × (decorated.trust.tier
          ≡ tier_by_grade (profile_of group.evidence) (length group.routes) route_plan.low_signal)
      × (decorated.trust.deterministic
          ≡ (has_kind exact_match group.evidence || has_kind context_seed group.evidence))

  abbrev pub AreDecorated : List PlannerResultGroup → List PlannerResultGroup → Type 0
  AreDecorated [] [] = Unit
  AreDecorated [] (d ∷ ds) = ⊥
  AreDecorated (g ∷ gs) [] = ⊥
  AreDecorated (g ∷ gs) (d ∷ ds) = IsDecorated g d × AreDecorated gs ds

  decorate_group-IsDecorated :
      (group : PlannerResultGroup) (next_score : Option ℕ)
      → IsDecorated group (decorate_group group route_plan next_score)
  unfolding decorate_group
  decorate_group-IsDecorated group next_score =
      let (tier, deterministic) =
        compute_tier_exact (profile_of group.evidence) (length group.routes)
          route_plan.low_signal in
      (
        refl,
        refl,
        refl,
        refl,
        refl,
        refl,
        rw (profile_from_exact group.evidence) tier,
        rw (profile_from_exact group.evidence) deterministic,
      )

  decorate_from-AreDecorated :
      (scores : List ℕ) (index : ℕ) (groups : List PlannerResultGroup)
      → AreDecorated groups (decorate_from route_plan scores index groups)
  decorate_from-AreDecorated scores index [] = tt
  decorate_from-AreDecorated scores index (group ∷ groups) = (
    decorate_group-IsDecorated group (get_elem? scores (index + 1)),
    decorate_from-AreDecorated scores (index + 1) groups,
  )

  -- Decoration keeps the groups of an answer one by one and in order, with their anchors, routes,
  -- evidence and scores, and gives each the tier that its own evidence and routes call for by the rule
  -- of `tier_by_grade`, whether or not the answer is ambiguous: high with exact or context evidence or
  -- three routes, else medium with two routes or a symbol hit of a query that is not low-signal, else
  -- low with any symbol, semantic or impact hit, else needs_review; and it is deterministic exactly
  -- with exact or context evidence.
  pub decorate-AreDecorated :
      (groups : List PlannerResultGroup) → AreDecorated groups (decorate groups route_plan).0
  unfolding decorate
  decorate-AreDecorated groups = decorate_from-AreDecorated (all_scores groups) 0 groups

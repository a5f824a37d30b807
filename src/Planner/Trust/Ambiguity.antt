-- ===== src/Planner/Trust/Ambiguity.antt =====
-- crates/hyperindex-planner/src/trust_payloads.rs: the decoration of an answer, and the ambiguity of
-- its best two groups.
use repo_hyperindex.Base.{
  ℕ, ◌+◌, ◌-◌, Bool, true, false, not, ◌||◌, Option, none, some, List, [], ◌∷◌, ◌++◌, if◌then◌else◌,
  ltb, ◌==◌, get_elem?, all,
}
use repo_hyperindex.Base.Order.{beq}
use repo_hyperindex.Base.Text.{text_ord, Text, text, decimal}
use repo_hyperindex.Planner.{
  PlannerAnchor, symbol_anchor, span_anchor, impact_anchor, file_anchor, package_anchor,
  workspace_anchor,
}
use repo_hyperindex.Planner.Grouping.{
  PlannerTrustTier, high, medium, low, needs_review, PlannerResultGroup,
}
use repo_hyperindex.Planner.Policy.{
  PlannerContextRef, symbol_context, span_context, file_context, impact_context,
}
use repo_hyperindex.Planner.Trust.{PlannerRoutePlan, PlannerAmbiguity, multiple_anchors_remain}
use repo_hyperindex.Planner.Trust.Groups.{decorate_group}

-- `filter_map(|g| g.score)`: the scores that there are.
unfoldable pub all_scores : List PlannerResultGroup → List ℕ
all_scores [] = []
all_scores (group ∷ groups) = elim group.score [
  | none ↦ all_scores groups
  | some score ↦ score ∷ all_scores groups
]

abbrev pub decorate_from :
    PlannerRoutePlan → List ℕ → ℕ → List PlannerResultGroup → List PlannerResultGroup
decorate_from route_plan scores index [] = []
decorate_from route_plan scores index (group ∷ groups) =
    decorate_group group route_plan (get_elem? scores (index + 1))
    ∷ decorate_from route_plan scores (index + 1) groups

abbrev pub anchors_eq : PlannerAnchor → PlannerAnchor → Bool
anchors_eq (symbol_anchor a p s) (symbol_anchor b q t) = beq a b
anchors_eq (file_anchor a) (file_anchor b) = beq a b
anchors_eq _ _ = false

abbrev pub are_different_anchors : PlannerResultGroup → PlannerResultGroup → Bool
are_different_anchors a b = elim a.anchor [
  | none ↦ true
  | some aa ↦ elim b.anchor [ none ↦ true | some bb ↦ not (anchors_eq aa bb) ]
]

abbrev pub anchor_to_context : PlannerAnchor → Option PlannerContextRef
anchor_to_context (symbol_anchor symbol_id path span) =
    some (symbol_context symbol_id path span none)
anchor_to_context (file_anchor path) = some (file_context path)
anchor_to_context (span_anchor path span) = some (span_context path span)
anchor_to_context (impact_anchor entity) = some (impact_context entity)
anchor_to_context (package_anchor package_name package_root) = none
anchor_to_context (workspace_anchor workspace_root) = none

abbrev context_of : PlannerResultGroup → List PlannerContextRef
context_of group = elim group.anchor [
  | none ↦ []
  | some anchor ↦ elim (anchor_to_context anchor) [ none ↦ [] | some context ↦ context ∷ [] ]
]

abbrev pub ambiguity_at : PlannerResultGroup → PlannerResultGroup → ℕ → ℕ → Option PlannerAmbiguity
ambiguity_at first second first_score second_score =
    if first_score == 0 || second_score == 0
    then none
    else if ltb 3 (first_score - second_score)
    then none
    else if not (are_different_anchors first second)
    then none
    else some (record {
      reason = multiple_anchors_remain;
      details =
          (text "top 2 result groups have a score gap of "
            ++ (decimal (first_score - second_score)
                ++ text "; consider refining the query to disambiguate"))
          ∷ [];
      candidate_contexts = context_of first ++ context_of second;
    })

unfoldable pub score_gap_ambiguity : List PlannerResultGroup → Option PlannerAmbiguity
score_gap_ambiguity [] = none
score_gap_ambiguity (first ∷ []) = none
score_gap_ambiguity (first ∷ second ∷ groups) = elim first.score [
  | none ↦ none
  | some first_score ↦ elim second.score [
    | none ↦ none
    | some second_score ↦ ambiguity_at first second first_score second_score
  ]
]

unfoldable pub decorate :
    List PlannerResultGroup → PlannerRoutePlan → List PlannerResultGroup × Option PlannerAmbiguity
unfolding all_scores decorate_group score_gap_ambiguity
decorate groups route_plan =
    let decorated = decorate_from route_plan (all_scores groups) 0 groups in
    (decorated, score_gap_ambiguity decorated)

abbrev is_low_confidence : PlannerTrustTier → Bool
is_low_confidence low = true
is_low_confidence needs_review = true
is_low_confidence high = false
is_low_confidence medium = false

abbrev pub all_groups_low_confidence : List PlannerResultGroup → Bool
all_groups_low_confidence [] = false
all_groups_low_confidence (group ∷ groups) =
    all (λ g. is_low_confidence g.trust.tier) (group ∷ groups)

record TierCounts : Type 0 where
  high_count : ℕ
  medium_count : ℕ
  low_count : ℕ
  needs_review_count : ℕ

abbrev count_tier : TierCounts → PlannerTrustTier → TierCounts
count_tier counts high = record counts { high_count = counts.high_count + 1 }
count_tier counts medium = record counts { medium_count = counts.medium_count + 1 }
count_tier counts low = record counts { low_count = counts.low_count + 1 }
count_tier counts needs_review = record counts {
  needs_review_count = counts.needs_review_count + 1;
}

abbrev count_tiers : TierCounts → List PlannerResultGroup → TierCounts
count_tiers counts [] = counts
count_tiers counts (group ∷ groups) = count_tiers (count_tier counts group.trust.tier) groups

abbrev pub trust_tier_summary : List PlannerResultGroup → Text
trust_tier_summary groups =
    let counts =
      count_tiers
        (record { high_count = 0; medium_count = 0; low_count = 0; needs_review_count = 0 })
        groups in
    text "High="
    ++ (decimal counts.high_count
        ++ (text " Medium="
            ++ (decimal counts.medium_count
                ++ (text " Low="
                    ++ (decimal counts.low_count
                        ++ (text " NeedsReview=" ++ decimal counts.needs_review_count))))))

-- ===== src/Planner/Trust/Close.antt =====
-- crates/hyperindex-planner/src/trust_payloads.rs: when an answer is called ambiguous.
use repo_hyperindex.Base.{
  ℕ, ◌+◌, ◌≤◌, ◌<◌, ◌≡◌, ◌↔◌, refl, Bool, true, false, Option, none, some, List, ◌∷◌, arith,
  get_elem?, is_some,
}
use repo_hyperindex.Base.Text.{text_ord}
use repo_hyperindex.Planner.Grouping.{PlannerResultGroup}
use repo_hyperindex.Planner.Trust.{PlannerRoutePlan}
use repo_hyperindex.Planner.Trust.Groups.{decorate_group}
use repo_hyperindex.Planner.Trust.Ambiguity.{
  all_scores, decorate_from, are_different_anchors, ambiguity_at, score_gap_ambiguity, decorate,
}
use repo_hyperindex.Planner.Trust.Anchors.{HaveOneAnchor, different_exact}

-- The best two groups have scores other than 0, at most 3 apart, and not one anchor.
abbrev pub IsClose : PlannerResultGroup → PlannerResultGroup → Type 0
IsClose first second =
    (s : ℕ) × (t : ℕ) × (first.score ≡ some s)
    × (second.score ≡ some t)
    × (0 < s)
    × (0 < t)
    × (s ≤ t + 3)
    × (¬ HaveOneAnchor first second)

ambiguity_at_exact :
    (first second : PlannerResultGroup) (s t : ℕ)
    → (is_some (ambiguity_at first second s t) ≡ true)
      ↔ ((0 < s) × (0 < t) × (s ≤ t + 3) × (are_different_anchors first second ≡ true))
ambiguity_at_exact first second s t = ground arith

abbrev ambiguity_by : PlannerResultGroup → PlannerResultGroup → Option ℕ → Option ℕ → Bool
ambiguity_by first second none t = false
ambiguity_by first second (some s) none = false
ambiguity_by first second (some s) (some t) = is_some (ambiguity_at first second s t)

ambiguity_by_exact :
    (first second : PlannerResultGroup) (a b : Option ℕ)
    → (ambiguity_by first second a b ≡ true) ↔ (
        (s : ℕ) × (t : ℕ) × (a ≡ some s)
        × (b ≡ some t)
        × (0 < s)
        × (0 < t)
        × (s ≤ t + 3)
        × (are_different_anchors first second ≡ true))
ambiguity_by_exact first second none b =
    (λ found. absurd (ground arith), λ (s, t, scored, _, _, _, _, _). absurd (ground arith))
ambiguity_by_exact first second (some s) none =
    (λ found. absurd (ground arith), λ (s', t, _, scored, _, _, _, _). absurd (ground arith))
ambiguity_by_exact first second (some s) (some t) = (
  λ found.
      let (above, above', gap, different) = (ambiguity_at_exact first second s t).0 found in
      (s, t, refl, refl, above, above', gap, different),
  λ (s', t', scored, scored', above, above', gap, different).
      (ambiguity_at_exact first second s t).1 (ground arith, ground arith, ground arith, different),
)

score_gap-by :
    (first second : PlannerResultGroup) (groups : List PlannerResultGroup)
    → is_some (score_gap_ambiguity (first ∷ second ∷ groups))
      ≡ ambiguity_by first second first.score second.score
unfolding score_gap_ambiguity
score_gap-by first second groups = ground arith

score_gap-IsClose :
    (first second : PlannerResultGroup) (groups : List PlannerResultGroup)
    → (is_some (score_gap_ambiguity (first ∷ second ∷ groups)) ≡ true) ↔ IsClose first second
score_gap-IsClose first second groups =
    let by = ambiguity_by_exact first second first.score second.score in
    let anchors = different_exact first second in
    rw (score_gap-by first second groups) (
      λ found.
          let (s, t, e, f, above, above', gap, different) = by.0 found in
          (s, t, e, f, above, above', gap, anchors.0 different),
      λ (s, t, e, f, above, above', gap, apart).
          by.1 (s, t, e, f, above, above', gap, anchors.1 apart),
    )

-- An answer is called ambiguous exactly if its best two groups have scores above 0 that are at most
-- 3 apart, and are neither anchored at one symbol nor at one file. (Groups without an anchor, or
-- with equal anchors of another kind, count as apart.)
pub decorate-IsClose :
    (first second : PlannerResultGroup) (groups : List PlannerResultGroup)
    (route_plan : PlannerRoutePlan)
    → (is_some (decorate (first ∷ second ∷ groups) route_plan).1 ≡ true) ↔ IsClose first second
unfolding decorate decorate_group
decorate-IsClose first second groups route_plan =
    let scores = all_scores (first ∷ second ∷ groups) in
    score_gap-IsClose (decorate_group first route_plan (get_elem? scores 1))
      (decorate_group second route_plan (get_elem? scores 2))
      (decorate_from route_plan scores 2 groups)

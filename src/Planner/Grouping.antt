-- ===== src/Planner/Grouping.antt =====
-- crates/hyperindex-planner/src/result_grouping.rs: fused candidates become the groups of the
-- answer, with the payloads of crates/hyperindex-protocol/src/planner.rs. `members[0]` on an empty
-- vector panics: that is the `none` of `build_group` and `group`.
pub mod Entries
pub mod Ranked
pub mod Answer
use repo_hyperindex.Base.{
  ℕ, zero, suc, ◌+◌, max, Bool, true, false, Option, none, some, List, [], ◌∷◌, ◌++◌, map, Ordering,
  compare, if◌then◌else◌, length, flat_map, take, ◌==◌,
}
use repo_hyperindex.Base.Sort.{sort_by, by_key, both}
use repo_hyperindex.Base.Dict.{Dict, empty, get, insert}
use repo_hyperindex.Base.Text.{text_ord, Text, text, decimal}
use repo_hyperindex.Planner.{◌>>=◌, PlannerRouteKind, PlannerAnchor, PlannerEvidenceItem}
use repo_hyperindex.Planner.Fusion.{FusedCandidate, push_routes}

pub data PlannerTrustTier : Type 0 where
  high medium low needs_review : PlannerTrustTier

pub record PlannerTrustPayload : Type 0 where
  pub tier : PlannerTrustTier
  pub deterministic : Bool
  pub evidence_count : ℕ
  pub route_agreement_count : ℕ
  pub template_id : Text
  pub reasons : List Text
  pub warnings : List Text

pub record PlannerExplanationPayload : Type 0 where
  pub template_id : Text
  pub summary : Text
  pub details : List Text

pub record PlannerResultGroup : Type 0 where
  pub group_id : Text
  pub label : Text
  pub anchor : Option PlannerAnchor
  pub routes : List PlannerRouteKind
  pub trust : PlannerTrustPayload
  pub explanation : PlannerExplanationPayload
  pub evidence : List PlannerEvidenceItem
  pub score : Option ℕ

unfoldable pub grouping_key : FusedCandidate → Text
grouping_key candidate = elim candidate.primary.primary_symbol_id [
  | some symbol_id ↦ text "group:symbol:" ++ symbol_id
  | none ↦ elim candidate.primary.primary_path [
    | some path ↦ text "group:file:" ++ path
    | none ↦ text "group:standalone:" ++ candidate.primary.candidate_id
  ]
]

unfoldable pub default_trust : ℕ → ℕ → PlannerTrustPayload
default_trust evidence_count route_agreement_count = record {
  tier = needs_review;
  deterministic = false;
  evidence_count = evidence_count;
  route_agreement_count = route_agreement_count;
  template_id = text "planner.trust.structural_default";
  reasons = text "trust decoration is deferred; structural default applied" ∷ [];
  warnings = [];
}

-- The two loops over the members' routes: those of `build_group` and of `routes_len_for_trust`.
abbrev pub member_routes : List PlannerRouteKind → List FusedCandidate → List PlannerRouteKind
member_routes routes [] = routes
member_routes routes (member ∷ members) =
    member_routes (push_routes routes member.contributing_routes) members

unfoldable pub routes_len_for_trust : List FusedCandidate → ℕ
routes_len_for_trust members = length (member_routes [] members)

abbrev pub max_score : List FusedCandidate → ℕ
max_score [] = 0
max_score (member ∷ members) = max member.fused_score (max_score members)

unfoldable pub member_order : FusedCandidate → FusedCandidate → Ordering
member_order =
    both (λ a b. compare b.fused_score a.fused_score) (by_key (λ c. c.primary.candidate_id))

abbrev pub summary : ℕ → ℕ → Text
summary member_count routes =
    if member_count == 1
    then text "1 candidate from " ++ decimal routes ++ text " route(s)"
    else decimal member_count ++ text " candidates from " ++ decimal routes ++ text " route(s)"

-- The part of `build_group` after the sort.
unfoldable pub group_sorted : Text → List FusedCandidate → Option PlannerResultGroup
unfolding routes_len_for_trust default_trust
group_sorted group_id [] = none
group_sorted group_id (best ∷ more) =
    let members = best ∷ more in
    let routes = member_routes [] members in
    let evidence = flat_map (λ (m : FusedCandidate). m.merged_evidence) members in
    some (record {
      group_id = group_id;
      label = best.label;
      anchor = some best.anchor;
      routes = routes;
      trust = default_trust (length evidence) (routes_len_for_trust members);
      explanation = record {
        template_id = text "planner.group.fused";
        summary = summary (length members) (length routes);
        details = [];
      };
      evidence = evidence;
      score = some (max_score members);
    })

unfoldable pub build_group : Text → List FusedCandidate → Option PlannerResultGroup
unfolding group_sorted member_order
build_group group_id members = group_sorted group_id (sort_by member_order members)

-- `group_map.entry(group_key).or_default().push(candidate)`
abbrev pub pushed : Option (List FusedCandidate) → FusedCandidate → List FusedCandidate
pushed none candidate = candidate ∷ []
pushed (some members) candidate = members ++ candidate ∷ []

unfoldable pub push_member :
    Dict Text (List FusedCandidate) → FusedCandidate → Dict Text (List FusedCandidate)
unfolding grouping_key
push_member group_map candidate =
    insert group_map (grouping_key candidate)
      (pushed (get group_map (grouping_key candidate)) candidate)

unfoldable pub push_members :
    Dict Text (List FusedCandidate) → List FusedCandidate → Dict Text (List FusedCandidate)
push_members group_map [] = group_map
push_members group_map (candidate ∷ candidates) =
    push_members (push_member group_map candidate) candidates

abbrev pub build_groups : List (Text × List FusedCandidate) → Option (List PlannerResultGroup)
build_groups [] = some []
build_groups ((group_id, members) ∷ rest) = do
  first ← build_group group_id members
  more ← build_groups rest
  some (first ∷ more)

abbrev pub score_or_zero : PlannerResultGroup → ℕ
score_or_zero g = elim g.score [ none ↦ 0 | some score ↦ score ]

unfoldable pub group_order : PlannerResultGroup → PlannerResultGroup → Ordering
group_order = both (λ a b. compare (score_or_zero b) (score_or_zero a)) (by_key (λ g. g.group_id))

-- The early return on no candidates is the value that the rest gives too.
unfoldable pub group : List FusedCandidate → ℕ → Option (List PlannerResultGroup)
unfolding push_members group_order
group fused_candidates limit = do
  groups ← build_groups (push_members empty fused_candidates).entries
  some (take limit (sort_by group_order groups))

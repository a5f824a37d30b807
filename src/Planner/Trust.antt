-- ===== src/Planner/Trust.antt =====
-- crates/hyperindex-planner/src/trust_payloads.rs: the evidence of a result group and the tier of
-- trust that it deserves. Of `PlannerRoutePlan` the fields that are read here.
pub mod Groups
pub mod Ambiguity
pub mod Tiers
pub mod Decorated
pub mod Anchors
pub mod Close
use repo_hyperindex.Base.{
  ℕ, zero, suc, ◌+◌, ◌-◌, ◌%◌, ◌^◌, Bool, true, false, not, ◌&&◌, ◌||◌, Option, none, some, List,
  [], ◌∷◌, ◌++◌, map, if◌then◌else◌, leb, ltb, ◌==◌, length, get_elem?, any, all, take, find_map,
}
use repo_hyperindex.Base.Order.{beq}
use repo_hyperindex.Base.Text.{text_ord, Text, text, join, decimal}
use repo_hyperindex.Planner.{
  PlannerRouteKind, exact, symbol, semantic, impact, PlannerAnchor, symbol_anchor, span_anchor,
  impact_anchor, file_anchor, package_anchor, workspace_anchor, PlannerEvidenceKind, exact_match,
  symbol_hit, semantic_hit, impact_hit, context_seed, filter_match, PlannerEvidenceItem,
}
use repo_hyperindex.Planner.Grouping.{
  PlannerTrustTier, high, medium, low, needs_review, PlannerTrustPayload, PlannerExplanationPayload,
  PlannerResultGroup,
}
use repo_hyperindex.Planner.Policy.{
  PlannerContextRef, symbol_context, span_context, file_context, impact_context,
  PlannerRoutePolicyKind, single_route, staged_fallback, multi_route_candidates, seed_then_impact,
}

pub record PlannerRoutePlan : Type 0 where
  pub route_policy : PlannerRoutePolicyKind
  pub low_signal : Bool
  pub partial_results : Bool
  pub budget_exhausted : Bool

pub data PlannerAmbiguityReason : Type 0 where
  multiple_candidate_seeds mixed_route_signals multiple_anchors_remain : PlannerAmbiguityReason

pub record PlannerAmbiguity : Type 0 where
  pub reason : PlannerAmbiguityReason
  pub details : List Text
  pub candidate_contexts : List PlannerContextRef

pub record EvidenceProfile : Type 0 where
  pub has_exact : Bool
  pub has_symbol : Bool
  pub has_semantic : Bool
  pub has_impact : Bool
  pub has_context_seed : Bool

abbrev pub noted : EvidenceProfile → PlannerEvidenceKind → EvidenceProfile
noted profile exact_match = record profile { has_exact = true }
noted profile symbol_hit = record profile { has_symbol = true }
noted profile semantic_hit = record profile { has_semantic = true }
noted profile impact_hit = record profile { has_impact = true }
noted profile context_seed = record profile { has_context_seed = true }
noted profile filter_match = profile

unfoldable pub profile_from : EvidenceProfile → List PlannerEvidenceItem → EvidenceProfile
profile_from profile [] = profile
profile_from profile (evidence ∷ rest) = profile_from (noted profile evidence.evidence_kind) rest

abbrev pub no_evidence : EvidenceProfile
no_evidence = record {
  has_exact = false;
  has_symbol = false;
  has_semantic = false;
  has_impact = false;
  has_context_seed = false;
}

-- `EvidenceProfile::from_group`
abbrev pub from_group : PlannerResultGroup → EvidenceProfile
from_group group = profile_from no_evidence group.evidence

pub record TierDecision : Type 0 where
  pub tier : PlannerTrustTier
  pub deterministic : Bool
  pub template_id : Text
  pub reasons : List Text

abbrev decision : PlannerTrustTier → Bool → Text → Text → TierDecision
decision tier deterministic template reason = record {
  tier = tier;
  deterministic = deterministic;
  template_id = text "planner.trust." ++ template;
  reasons = reason ∷ [];
}

abbrev routes_matched : ℕ → Text
routes_matched route_count = decimal route_count ++ text " independent routes matched this result"

abbrev semantic_only : Bool → TierDecision
semantic_only has_impact = record {
  tier = low;
  deterministic = false;
  template_id = text "planner.trust.fallback_derived";
  reasons =
      text "only semantic similarity matched; no structural confirmation"
      ∷ (if has_impact
          then text "impact evidence present but lacks structural anchor" ∷ []
          else []);
}

unfoldable pub compute_tier : EvidenceProfile → ℕ → Bool → TierDecision
compute_tier profile route_count low_signal =
    if profile.has_exact && profile.has_symbol
    then decision high true (text "corroborated")
        (text "exact and symbol routes both matched this result")
    else if leb 3 route_count
    then decision high (profile.has_exact || profile.has_context_seed) (text "corroborated")
        (routes_matched route_count)
    else if profile.has_exact
    then decision high true (text "direct") (text "exact match provides deterministic evidence")
    else if profile.has_context_seed
    then decision high true (text "direct") (text "context seed provides deterministic evidence")
    else if leb 2 route_count
    then decision medium false (text "corroborated") (routes_matched route_count)
    else if profile.has_symbol && not low_signal
    then decision medium false (text "direct") (text "symbol route matched structurally")
    else if profile.has_symbol && low_signal
    then decision low false (text "low_signal")
        (text "symbol route matched but query was low-signal")
    else if profile.has_semantic && not profile.has_symbol && not profile.has_exact
    then semantic_only profile.has_impact
    else if profile.has_impact
        && not profile.has_symbol
        && not profile.has_exact
        && not profile.has_semantic
    then decision low false (text "fallback_derived")
        (text "only impact analysis matched; no structural or semantic confirmation")
    else decision needs_review false (text "low_signal")
        (text "insufficient evidence to confidently assess this result")

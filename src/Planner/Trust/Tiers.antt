-- ===== src/Planner/Trust/Tiers.antt =====
-- crates/hyperindex-planner/src/trust_payloads.rs: when a group gets which tier.
use repo_hyperindex.Base.{ℕ, ◌≡◌, Bool, not, ◌&&◌, ◌||◌, arith, if◌then◌else◌, leb}
use repo_hyperindex.Planner.Grouping.{PlannerTrustTier, high, medium, low, needs_review}
use repo_hyperindex.Planner.Trust.{EvidenceProfile, compute_tier}

-- Independent of the order of the tests: grades of evidence.
abbrev pub is_strong : EvidenceProfile → ℕ → Bool
is_strong profile routes = profile.has_exact || profile.has_context_seed || leb 3 routes

abbrev pub is_fair : EvidenceProfile → ℕ → Bool → Bool
is_fair profile routes low_signal = leb 2 routes || (profile.has_symbol && not low_signal)

abbrev pub is_weak : EvidenceProfile → Bool
is_weak profile = profile.has_symbol || profile.has_semantic || profile.has_impact

abbrev pub tier_by_grade : EvidenceProfile → ℕ → Bool → PlannerTrustTier
tier_by_grade profile routes low_signal =
    if is_strong profile routes
    then high
    else if is_fair profile routes low_signal
    then medium
    else if is_weak profile
    then low
    else needs_review

-- A group is trusted highly exactly if it has exact or context evidence or three routes agree, else
-- moderately exactly if two routes agree or a symbol route matched a query that is not low-signal,
-- else little exactly if a symbol, semantic or impact route matched, and is left for review
-- otherwise; it is called deterministic exactly if it has exact or context evidence.
pub compute_tier_exact :
    (profile : EvidenceProfile) (routes : ℕ) (low_signal : Bool)
    → ((compute_tier profile routes low_signal).tier ≡ tier_by_grade profile routes low_signal)
      × ((compute_tier profile routes low_signal).deterministic
          ≡ (profile.has_exact || profile.has_context_seed))
unfolding compute_tier
compute_tier_exact profile routes low_signal = (ground arith, ground arith)

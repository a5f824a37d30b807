-- ===== src/Planner/Fusion/Scores.antt =====
-- crates/hyperindex-planner/src/score_fusion.rs: the scores, and the order of the fused candidates.
use repo_hyperindex.Base.{
  ℕ, ◌+◌, ◌-◌, ◌*◌, ◌/◌, ◌≤◌, ◌≡◌, refl, min, max, Option, none, some, List, [], ◌∷◌, map, compare,
  arith, All, All-append, length, length-append, subst, inl, inr, Bool-cases,
}
use repo_hyperindex.Base.Text.{text_ord}
use repo_hyperindex.Base.Order.{nat_ord}
use repo_hyperindex.Base.Sort.{
  sort_by, IsSorted, sort_by-IsSorted, All-sort_by, by_key, by_key-IsWeak, flip-IsWeak, both-IsWeak,
  IsWeak,
}
use repo_hyperindex.Base.Distinct.{Distinct, Distinct-snoc}
use repo_hyperindex.Planner.{
  ◌>>=◌, >>=-eq-some, OnSome, PlannerRouteKind, exact, symbol, semantic, impact, route_ord,
  NormalizedPlannerCandidate,
}
use repo_hyperindex.Planner.Fusion.{
  DedupKey, FusedCandidate, max_raw_for, normalize_score, saturating_mul, Group, place, group_loop,
  dedup_key_for, push_route, push_routes, member_order, fuse_sorted, build_fused, build_all,
  deterministic_cmp, best_route_priority, rank_or_max, fuse, should_merge,
}

scaled_exact :
    (engine : PlannerRouteKind) (raw : ℕ)
    → min (saturating_mul raw 100 / max (max_raw_for engine) 1) 100
      ≡ min (raw * 100 / max_raw_for engine) 100
unfolding max_raw_for
scaled_exact exact raw = omega arith
scaled_exact symbol raw = omega arith
scaled_exact semantic raw = omega arith
scaled_exact impact raw = omega arith

-- The score of a candidate with a raw score is the raw score as a percentage of its engine's maximum,
-- cut off at 100: that the multiplication saturates at 2^32 - 1 never shows.
pub normalize_score_exact :
    (candidate : NormalizedPlannerCandidate) (raw : ℕ)
    → candidate.engine_score ≡ some raw
    → normalize_score candidate ≡ min (raw * 100 / max_raw_for candidate.engine_type) 100
unfolding normalize_score
normalize_score_exact candidate raw h =
    rw (h, normalize_score) (scaled_exact candidate.engine_type raw)

normalize_score_le : (candidate : NormalizedPlannerCandidate) → normalize_score candidate ≤ 100
unfolding normalize_score
normalize_score_le candidate = ground (arith)

-- A fused candidate's routes and score.
pub record IsScored (c : FusedCandidate) : Type 0 where
  pub routes : Distinct c.contributing_routes
  pub some_route : 1 ≤ length c.contributing_routes
  pub low : c.fused_score ≤ 100 + (length c.contributing_routes - 1) * 2
  pub capped : c.fused_score ≤ 106

push_route-Distinct :
    (rs : List PlannerRouteKind) (r : PlannerRouteKind) → Distinct rs → Distinct (push_route rs r)
push_route-Distinct rs r d = ground (arith, Distinct-snoc rs r d)

push_routes-Distinct :
    (rs more : List PlannerRouteKind) → Distinct rs → Distinct (push_routes rs more)
push_routes-Distinct rs [] d = d
push_routes-Distinct rs (r ∷ more) d =
    push_routes-Distinct (push_route rs r) more (push_route-Distinct rs r d)

push_route-length :
    (rs : List PlannerRouteKind) (r : PlannerRouteKind) → length rs ≤ length (push_route rs r)
push_route-length rs r = ground (arith, length-append rs (r ∷ []))

push_routes-length : (rs more : List PlannerRouteKind) → length rs ≤ length (push_routes rs more)
push_routes-length rs [] = omega arith
push_routes-length rs (r ∷ more) =
    omega (arith, push_routes-length (push_route rs r) more, push_route-length rs r)

abbrev IsLow : NormalizedPlannerCandidate × ℕ → Type 0
IsLow m = m.1 ≤ 100

abbrev IsLowGroup : Group → Type 0
IsLowGroup g = All IsLow g.1

fuse_sorted-IsScored :
    (key : DedupKey) (members : List (NormalizedPlannerCandidate × ℕ))
    → All IsLow members
    → OnSome IsScored (fuse_sorted key members)
unfolding fuse_sorted
fuse_sorted-IsScored key [] low = tt
fuse_sorted-IsScored key (m ∷ members) low =
    let more = map (λ (m : NormalizedPlannerCandidate × ℕ). m.0.route_kind) members in
    let longer = push_routes-length (m.0.route_kind ∷ []) more in
    record {
      routes = push_routes-Distinct (m.0.route_kind ∷ []) more (refl, tt);
      some_route = longer;
      low = omega (arith, low.0, longer);
      capped = omega (arith, low.0, longer);
    }

build_all-IsScored :
    (groups : List Group) → All IsLowGroup groups → OnSome (All IsScored) (build_all groups)
unfolding build_fused
build_all-IsScored [] low = tt
build_all-IsScored ((key, members) ∷ groups) low =
    both_scored (build_fused key members) (build_all groups)
      (fuse_sorted-IsScored key (sort_by member_order members)
        (All-sort_by member_order IsLow members low.0))
      (build_all-IsScored groups low.1)
  where
    both_scored :
        (first : Option FusedCandidate) (rest : Option (List FusedCandidate))
        → OnSome IsScored first
        → OnSome (All IsScored) rest
        → OnSome (All IsScored) (first >>= λ c. rest >>= λ cs. some (c ∷ cs))
    both_scored none rest h k = tt
    both_scored (some c) none h k = tt
    both_scored (some c) (some cs) h k = (h, k)

place-low :
    (groups : List Group) (key : DedupKey) (m : NormalizedPlannerCandidate × ℕ)
    → IsLow m
    → All IsLowGroup groups
    → All IsLowGroup (place groups key m)
unfolding place
place-low [] key m h low = ((h, tt), tt)
place-low ((k, ms) ∷ groups) key m h low = elim (Bool-cases (should_merge k ms key m.0)) [
  | inl e ↦ rw e (All-append IsLow ms (m ∷ []) low.0 (h, tt), low.1)
  | inr e ↦ rw e (low.0, place-low groups key m h low.1)
]

group_loop-low :
    (groups : List Group) (candidates : List NormalizedPlannerCandidate)
    → All IsLowGroup groups
    → All IsLowGroup (group_loop groups (map (λ c. (c, normalize_score c)) candidates))
unfolding group_loop
group_loop-low groups [] low = low
group_loop-low groups (c ∷ cs) low =
    group_loop-low (place groups (dedup_key_for c) (c, normalize_score c)) cs
      (place-low groups (dedup_key_for c) (c, normalize_score c) (normalize_score_le c) low)

deterministic_cmp-IsWeak : IsWeak deterministic_cmp
unfolding deterministic_cmp
deterministic_cmp-IsWeak =
    both-IsWeak (λ a b. compare b.fused_score a.fused_score) _
      (flip-IsWeak (by_key (λ (c : FusedCandidate). c.fused_score))
        (by_key-IsWeak (λ c. c.fused_score)))
      (both-IsWeak (λ a b. compare (best_route_priority b) (best_route_priority a)) _
        (flip-IsWeak (by_key best_route_priority) (by_key-IsWeak best_route_priority))
        (both-IsWeak (by_key rank_or_max) (by_key (λ c. c.primary.candidate_id))
          (by_key-IsWeak rank_or_max) (by_key-IsWeak (λ c. c.primary.candidate_id))))

-- Every fused candidate has each of its routes once, at least one, and a score of at most 100 and two
-- more for each further route, never above 106; the candidates are in the ranking's order.
pub fuse-IsRanked :
    (candidates : List NormalizedPlannerCandidate) (fused : List FusedCandidate)
    → fuse candidates ≡ some fused
    → IsSorted deterministic_cmp fused × All IsScored fused
unfolding fuse
fuse-IsRanked candidates fused h =
    let scored = map (λ (c : NormalizedPlannerCandidate). (c, normalize_score c)) candidates in
    let (cs, built, sorted) = >>=-eq-some (build_all (group_loop [] scored)) _ h in
    let all_scored : All IsScored cs =
      subst (OnSome (All IsScored)) built
        (build_all-IsScored (group_loop [] scored) (group_loop-low [] candidates tt)) in
    subst (OnSome (λ fs. IsSorted deterministic_cmp fs × All IsScored fs)) sorted (
      sort_by-IsSorted deterministic_cmp deterministic_cmp-IsWeak cs,
      All-sort_by deterministic_cmp IsScored cs all_scored,
    )

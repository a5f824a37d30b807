-- ===== src/Planner/Fusion.antt =====
-- crates/hyperindex-planner/src/score_fusion.rs: candidates of several routes become one ranked list.
-- `u32` arithmetic saturates where the source says so. `members[0]` on an empty vector panics: that
-- is the `none` of `build_fused` and `fuse`.
pub mod Scores
pub mod Evidence
pub mod Keys
use repo_hyperindex.Base.{
  ℕ, zero, suc, ◌+◌, ◌-◌, ◌*◌, ◌/◌, ◌^◌, min, max, Bool, true, false, ◌&&◌, ◌||◌, Option, none,
  some, List, [], ◌∷◌, ◌++◌, map, Ordering, compare, if◌then◌else◌, ltb, any, length, flat_map,
  ◌==◌,
}
use repo_hyperindex.Base.Order.{Ord, nat_ord, beq, then_with}
use repo_hyperindex.Base.Sort.{sort_by, by_key, both}
use repo_hyperindex.Base.Distinct.{contains}
use repo_hyperindex.Base.Text.{text_ord, Text}
use repo_hyperindex.Parser.LineIndex.{SourceSpan}
use repo_hyperindex.Planner.{
  ◌>>=◌, PlannerRouteKind, exact, symbol, semantic, impact, route_ord, PlannerAnchor,
  PlannerEvidenceItem, NormalizedPlannerCandidate,
}

pub data DedupKey : Type 0 where
  symbol_key : (id : Text) → DedupKey
  path_span : (path : Text) (byte_start byte_end : ℕ) → DedupKey
  path_key : (path : Text) → DedupKey
  unique : (id : Text) → DedupKey

pub record FusedCandidate : Type 0 where
  pub dedup_key : DedupKey
  pub fused_score : ℕ
  pub contributing_routes : List PlannerRouteKind
  pub primary : NormalizedPlannerCandidate
  pub merged_evidence : List PlannerEvidenceItem
  pub anchor : PlannerAnchor
  pub label : Text

-- `u32::saturating_mul`
abbrev pub saturating_mul : ℕ → ℕ → ℕ
saturating_mul a b = min (a * b) (2 ^ 32 - 1)

unfoldable pub max_raw_for : PlannerRouteKind → ℕ
max_raw_for exact = 1100
max_raw_for symbol = 1100
max_raw_for semantic = 1000000
max_raw_for impact = 1000

unfoldable pub normalize_score : NormalizedPlannerCandidate → ℕ
unfolding max_raw_for
normalize_score candidate = elim candidate.engine_score [
  | none ↦ 0
  | some raw ↦ min (saturating_mul raw 100 / max (max_raw_for candidate.engine_type) 1) 100
]

unfoldable pub dedup_key_for : NormalizedPlannerCandidate → DedupKey
dedup_key_for candidate = elim candidate.primary_symbol_id [
  | some symbol_id ↦ symbol_key symbol_id
  | none ↦ elim candidate.primary_path [
    | some path ↦ elim candidate.primary_span [
      | some span ↦ path_span path span.bytes.start span.bytes.end
      | none ↦ path_key path
    ]
    | none ↦ unique candidate.candidate_id
  ]
]

unfoldable pub spans_overlap : SourceSpan → SourceSpan → Bool
spans_overlap a b = ltb a.bytes.start b.bytes.end && ltb b.bytes.start a.bytes.end

-- The derived `==` of `DedupKey`.
abbrev pub key_eq : DedupKey → DedupKey → Bool
key_eq (symbol_key a) (symbol_key b) = beq a b
key_eq (path_span p s e) (path_span q t f) = beq p q && s == t && e == f
key_eq (path_key p) (path_key q) = beq p q
key_eq (unique a) (unique b) = beq a b
key_eq _ _ = false

abbrev pub same_symbol : DedupKey → DedupKey → Bool
same_symbol (symbol_key a) (symbol_key b) = beq a b
same_symbol _ _ = false

abbrev pub is_symbol : DedupKey → Text → Bool
is_symbol (symbol_key a) b = beq a b
is_symbol (path_span p s e) b = false
is_symbol (path_key p) b = false
is_symbol (unique i) b = false

abbrev pub same_path : DedupKey → DedupKey → Bool
same_path (path_key a) (path_key b) = beq a b
same_path _ _ = false

abbrev pub overlaps_at : Text → SourceSpan → NormalizedPlannerCandidate × ℕ → Bool
overlaps_at path span member = elim member.0.primary_path [
  | none ↦ false
  | some e_path ↦ elim member.0.primary_span [
    | none ↦ false
    | some e_span ↦ beq path e_path && spans_overlap span e_span
  ]
]

abbrev pub overlaps_one : List (NormalizedPlannerCandidate × ℕ) → NormalizedPlannerCandidate → Bool
overlaps_one existing_members candidate = elim candidate.primary_path [
  | none ↦ false
  | some path ↦ elim candidate.primary_span [
    | none ↦ false
    | some span ↦ any (overlaps_at path span) existing_members
  ]
]

unfoldable pub should_merge :
    DedupKey → List (NormalizedPlannerCandidate × ℕ) → DedupKey → NormalizedPlannerCandidate → Bool
should_merge existing_key existing_members candidate_key candidate =
    same_symbol existing_key candidate_key
    || elim candidate.primary_symbol_id [ none ↦ false | some id ↦ is_symbol existing_key id ]
    || overlaps_one existing_members candidate
    || same_path existing_key candidate_key
    || key_eq existing_key candidate_key

abbrev pub Group : Type 0
Group = DedupKey × List (NormalizedPlannerCandidate × ℕ)

-- The body of the loop over the candidates: the first group that takes the candidate, or a new one.
unfoldable pub place : List Group → DedupKey → NormalizedPlannerCandidate × ℕ → List Group
place [] key member = (key, member ∷ []) ∷ []
place ((existing_key, existing_members) ∷ groups) key member =
    let rest = place groups key member in
    if should_merge existing_key existing_members key member.0
    then (existing_key, existing_members ++ member ∷ []) ∷ groups
    else (existing_key, existing_members) ∷ rest

unfoldable pub group_loop : List Group → List (NormalizedPlannerCandidate × ℕ) → List Group
unfolding place
group_loop groups [] = groups
group_loop groups (member ∷ members) =
    group_loop (place groups (dedup_key_for member.0) member) members

unfoldable pub route_priority : PlannerRouteKind → ℕ
route_priority exact = 4
route_priority symbol = 3
route_priority semantic = 2
route_priority impact = 1

-- `if !routes.contains(route) { routes.push(route) }`
abbrev pub push_route : List PlannerRouteKind → PlannerRouteKind → List PlannerRouteKind
push_route routes route = if contains routes route then routes else routes ++ route ∷ []

abbrev pub push_routes : List PlannerRouteKind → List PlannerRouteKind → List PlannerRouteKind
push_routes routes [] = routes
push_routes routes (route ∷ more) = push_routes (push_route routes route) more

abbrev pub member_order : NormalizedPlannerCandidate × ℕ → NormalizedPlannerCandidate × ℕ → Ordering
member_order =
    both (λ (a b : NormalizedPlannerCandidate × ℕ). compare b.1 a.1)
      (λ a b. compare (route_priority b.0.engine_type) (route_priority a.0.engine_type))

-- The part of `build_fused` after the sort.
unfoldable pub fuse_sorted :
    DedupKey → List (NormalizedPlannerCandidate × ℕ) → Option FusedCandidate
fuse_sorted key [] = none
fuse_sorted key ((primary, best_score) ∷ members) =
    let all_members = (primary, best_score) ∷ members in
    let routes =
      push_routes [] (map (λ (m : NormalizedPlannerCandidate × ℕ). m.0.route_kind) all_members) in
    some (record {
      dedup_key = key;
      fused_score = best_score + min ((length routes - 1) * 2) 6;
      contributing_routes = routes;
      primary = primary;
      merged_evidence = flat_map (λ (m : NormalizedPlannerCandidate × ℕ). m.0.evidence) all_members;
      anchor = primary.anchor;
      label = primary.label;
    })

unfoldable pub build_fused :
    DedupKey → List (NormalizedPlannerCandidate × ℕ) → Option FusedCandidate
unfolding fuse_sorted
build_fused key members = fuse_sorted key (sort_by member_order members)

abbrev pub build_all : List Group → Option (List FusedCandidate)
build_all [] = some []
build_all ((key, members) ∷ groups) = do
  first ← build_fused key members
  rest ← build_all groups
  some (first ∷ rest)

abbrev pub max_priority : List PlannerRouteKind → ℕ
max_priority [] = 0
max_priority (route ∷ routes) = max (route_priority route) (max_priority routes)

unfoldable pub best_route_priority : FusedCandidate → ℕ
best_route_priority candidate = max_priority candidate.contributing_routes

abbrev pub rank_or_max : FusedCandidate → ℕ
rank_or_max c = elim c.primary.rank [ none ↦ 2 ^ 32 - 1 | some rank ↦ rank ]

unfoldable pub deterministic_cmp : FusedCandidate → FusedCandidate → Ordering
deterministic_cmp =
    both (λ a b. compare b.fused_score a.fused_score)
      (both (λ a b. compare (best_route_priority b) (best_route_priority a))
        (both (by_key ⦃o = nat_ord⦄ rank_or_max) (by_key (λ c. c.primary.candidate_id))))

-- An empty list of candidates leaves the loop with no groups, so the early return is the same value.
unfoldable pub fuse : List NormalizedPlannerCandidate → Option (List FusedCandidate)
unfolding group_loop
fuse candidates = do
  fused ← build_all (group_loop [] (map (λ c. (c, normalize_score c)) candidates))
  some (sort_by deterministic_cmp fused)

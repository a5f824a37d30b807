-- ===== src/Impact/Hits.antt =====
-- crates/hyperindex-impact/src/impact_engine.rs: the candidates that the traversal collects, their
-- explanations, and the groups that they are answered in.
pub mod Groups
use Prim.Native.Nat.Ordering.{lt, eq, gt}
use repo_hyperindex.Base.{
  ℕ, zero, suc, ◌+◌, ◌-◌, ◌*◌, ◌%◌, ◌^◌, min, Bool, true, false, not, ◌&&◌, ◌||◌, Option, none,
  some, List, [], ◌∷◌, ◌++◌, if◌then◌else◌, length, map,
}
use repo_hyperindex.Base.Order.{beq, nat_ord, then_with}
use repo_hyperindex.Base.Text.{text_ord, Text, text, split, join}
use repo_hyperindex.Base.Dict.{Dict, empty, get, insert}
use repo_hyperindex.Planner.{
  ImpactEntityRef, symbol_entity, file_entity, package_entity, test_entity,
}
use repo_hyperindex.Impact.{
  ImpactChangeScenario, modify_behavior, signature_change, rename, delete, ImpactCertaintyTier,
  ImpactedEntityKind, ImpactReasonEdgeKind, seed, contains, defines, references, imports, exports,
  declared_in_file, referenced_by_file, imported_by_file, package_member, test_reference,
  test_affinity, entity_kind, Metadata, ImpactEvidenceEdge, ImpactReasonPath, ImpactHitExplanation,
  ImpactHit, ImpactResultGroup, ResolvedImpactTarget, symbol_resolved, file_resolved,
  ImpactEngineInputs, CandidateHit,
}
use repo_hyperindex.Impact.Explain.{
  explanation_for_hit, first, last, reason_path_from_edges, seed_reason_paths,
}
use repo_hyperindex.Impact.Keys.{
  certainty_rank, entity_kind_rank, entity_key, entity_label, reason_edge_label,
  candidate_key_order, compare_reason_path_sets, is_eq, is_lt,
}

abbrev is_seed : ImpactReasonEdgeKind → Bool
is_seed seed = true
is_seed _ = false

abbrev path_len : ImpactReasonPath → ℕ
path_len path = elim (first path.edges) [
  | none ↦ 0
  | some edge ↦
      if is_seed edge.edge_kind
      then (length path.edges - 1) % 2 ^ 32
      else length path.edges % 2 ^ 32
]

abbrev least : List ℕ → Option ℕ
least [] = none
least (n ∷ ns) = elim (least ns) [ none ↦ some n | some m ↦ some (min n m) ]

unfoldable pub shortest_reason_path_len : List ImpactReasonPath → ℕ → ℕ
shortest_reason_path_len reason_paths depth = elim (least (map path_len reason_paths)) [
  | none ↦ depth
  | some n ↦ n
]

abbrev pub target_anchor_path : ResolvedImpactTarget → Option Text
target_anchor_path (symbol_resolved target) = some target.path
target_anchor_path (file_resolved target) = some target.path

abbrev pub entity_anchor_path : ImpactEntityRef → Option Text
entity_anchor_path (symbol_entity symbol_id path display_name) = some path
entity_anchor_path (file_entity path) = some path
entity_anchor_path (package_entity package_name package_root) = some package_root
entity_anchor_path (test_entity path display_name symbol_id) = some path

abbrev pub shared_prefix : List Text → List Text → ℕ
shared_prefix [] right = 0
shared_prefix (l ∷ left) [] = 0
shared_prefix (l ∷ left) (r ∷ right) =
    let rest = shared_prefix left right in if beq l r then suc rest else 0

unfoldable pub lexical_path_distance : Text → Text → ℕ
lexical_path_distance left right =
    let left_parts = split b'/' left in
    let right_parts = split b'/' right in
    (length left_parts + length right_parts - shared_prefix left_parts right_parts * 2) % 2 ^ 32

abbrev anchor_distance : Option Text → Option Text → ℕ
anchor_distance none entity_anchor = 2 ^ 32 - 1
anchor_distance (some target_anchor) none = 2 ^ 32 - 1
anchor_distance (some target_anchor) (some entity_anchor) =
    lexical_path_distance target_anchor entity_anchor

abbrev pub path_relevance : ImpactEngineInputs → ImpactEntityRef → ℕ
path_relevance plan entity =
    anchor_distance (target_anchor_path plan.seed.resolved_target) (entity_anchor_path entity)

abbrev pub is_test_entity : ImpactEntityRef → Bool
is_test_entity (test_entity path display_name symbol_id) = true
is_test_entity (symbol_entity symbol_id path display_name) = false
is_test_entity (file_entity path) = false
is_test_entity (package_entity package_name package_root) = false

abbrev primary_edge : List ImpactReasonPath → Option ImpactEvidenceEdge
primary_edge [] = none
primary_edge (path ∷ paths) = last path.edges

abbrev evidence_rank : Option Text → ℕ
evidence_rank none = 1
evidence_rank (some evidence) =
    if beq evidence (text "referencessymbol")
    then 0
    else if beq evidence (text "importsfile")
    then 1
    else 2

abbrev test_reason_rank : ImpactReasonEdgeKind → List ImpactReasonPath → ℕ
test_reason_rank test_reference reason_paths = elim (primary_edge reason_paths) [
  | none ↦ 1
  | some edge ↦ evidence_rank (get edge.metadata (text "evidence"))
]
test_reason_rank test_affinity reason_paths = 3
test_reason_rank _ reason_paths = 4

unfoldable pub test_relevance_rank :
    ImpactEntityRef → ImpactReasonEdgeKind → List ImpactReasonPath → ℕ
test_relevance_rank entity primary_reason reason_paths =
    if is_test_entity entity then test_reason_rank primary_reason reason_paths else 0

unfoldable pub candidate_hit :
    ImpactEngineInputs
    → ImpactEntityRef
    → ImpactCertaintyTier
    → ImpactReasonEdgeKind
    → ℕ
    → Bool
    → ℕ
    → List ImpactReasonPath
    → CandidateHit
candidate_hit plan entity certainty primary_reason depth direct score reason_paths = record {
  entity = entity;
  certainty = certainty;
  primary_reason = primary_reason;
  depth = depth;
  direct = direct;
  score = score;
  shortest_reason_path = shortest_reason_path_len reason_paths depth;
  path_relevance = path_relevance plan entity;
  test_relevance = test_relevance_rank entity primary_reason reason_paths;
  explanation = explanation_for_hit plan.seed.change_hint entity reason_paths;
  reason_paths = reason_paths;
}

abbrev pub is_better : CandidateHit → CandidateHit → Bool
is_better candidate entry =
    is_lt (candidate_key_order candidate entry)
    || (is_eq (candidate_key_order candidate entry)
        && is_lt (compare_reason_path_sets candidate.reason_paths entry.reason_paths))

abbrev pub no_paths : List ImpactReasonPath → Bool
no_paths [] = true
no_paths (path ∷ paths) = false

-- What `add_candidate` makes of the entry that is there.
abbrev pub merged_candidate : CandidateHit → CandidateHit → CandidateHit
merged_candidate candidate entry =
    if is_better candidate entry
    then candidate
    else if no_paths entry.reason_paths && not (no_paths candidate.reason_paths)
    then record entry { reason_paths = candidate.reason_paths; explanation = candidate.explanation }
    else entry

unfoldable pub add_candidate : Dict Text CandidateHit → CandidateHit → Dict Text CandidateHit
add_candidate candidates candidate =
    let key = entity_key candidate.entity in
    let entry : CandidateHit = elim (get candidates key) [
      | none ↦ candidate
      | some entry ↦ entry
    ] in
    insert candidates key (merged_candidate candidate entry)

-- `group.direct == hit.direct && …`
abbrev pub same_bool : Bool → Bool → Bool
same_bool true b = b
same_bool false b = not b

abbrev pub joins_group : ImpactResultGroup → ImpactHit → Bool
joins_group group hit =
    same_bool group.direct hit.direct
    && beq (certainty_rank group.certainty) (certainty_rank hit.certainty)
    && beq (entity_kind_rank group.entity_kind) (entity_kind_rank (entity_kind hit.entity))

abbrev pub new_group : ImpactHit → ImpactResultGroup
new_group hit = record {
  direct = hit.direct;
  certainty = hit.certainty;
  entity_kind = entity_kind hit.entity;
  hit_count = 1;
  hits = hit ∷ [];
}

abbrev pub push_hit : ImpactResultGroup → ImpactHit → ImpactResultGroup
push_hit group hit = record group {
  hit_count = (group.hit_count + 1) % 2 ^ 32;
  hits = group.hits ++ hit ∷ [];
}

-- The loop of `group_hits`: the groups before the last one, the last one, and the hits to come.
unfoldable pub group_loop :
    List ImpactResultGroup → ImpactResultGroup → List ImpactHit → List ImpactResultGroup
group_loop groups group [] = groups ++ group ∷ []
group_loop groups group (hit ∷ hits) = elim (joins_group group hit) [
  | true ↦ group_loop groups (push_hit group hit) hits
  | false ↦ group_loop (groups ++ group ∷ []) (new_group hit) hits
]

unfoldable pub group_hits : List ImpactHit → List ImpactResultGroup
unfolding group_loop
group_hits [] = []
group_hits (hit ∷ hits) = group_loop [] (new_group hit) hits

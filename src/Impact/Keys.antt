-- ===== src/Impact/Keys.antt =====
-- crates/hyperindex-impact/src/impact_engine.rs: ranks, keys and labels, and the orders on frames,
-- steps and candidates that are made of them.
use Prim.Native.Nat.Ordering.{lt, eq, gt}
use repo_hyperindex.Base.{
  ℕ, ◌-◌, ◌^◌, Bool, true, false, Option, none, some, List, [], ◌∷◌, ◌++◌, map, Ordering, length,
}
use repo_hyperindex.Base.Order.{nat_ord}
use repo_hyperindex.Base.Text.{text_ord, Text, text, join, decimal}
use repo_hyperindex.Base.Sort.{by_key, both}
use repo_hyperindex.Planner.{
  ImpactEntityRef, symbol_entity, file_entity, package_entity, test_entity,
}
use repo_hyperindex.Impact.{
  ImpactCertaintyTier, certain, likely, possible, ImpactedEntityKind, symbol_kind, file_kind,
  package_kind, test_kind, ImpactReasonEdgeKind, seed, contains, defines, references, imports,
  exports, declared_in_file, referenced_by_file, imported_by_file, package_member, test_reference,
  test_affinity, entity_kind, Metadata, ImpactEvidenceEdge, ImpactReasonPath, TraversalNode,
  symbol_node, file_node, TraversalFrame, TraversalStep, CandidateHit,
}

abbrev pub certainty_rank : ImpactCertaintyTier → ℕ
certainty_rank certain = 0
certainty_rank likely = 1
certainty_rank possible = 2

abbrev pub relationship_rank : ImpactReasonEdgeKind → ℕ
relationship_rank seed = 0
relationship_rank references = 1
relationship_rank imports = 2
relationship_rank exports = 3
relationship_rank declared_in_file = 4
relationship_rank contains = 5
relationship_rank imported_by_file = 6
relationship_rank referenced_by_file = 7
relationship_rank test_reference = 8
relationship_rank package_member = 9
relationship_rank test_affinity = 10
relationship_rank defines = 11

abbrev pub entity_kind_rank : ImpactedEntityKind → ℕ
entity_kind_rank symbol_kind = 0
entity_kind_rank file_kind = 1
entity_kind_rank test_kind = 2
entity_kind_rank package_kind = 3

unfoldable pub metadata_key : Metadata → Text
metadata_key metadata =
    join (text ";") (map (λ (e : Text × Text). e.0 ++ (text "=" ++ e.1)) metadata.entries)

abbrev text_or_empty : Option Text → Text
text_or_empty none = []
text_or_empty (some t) = t

abbrev pub entity_key : ImpactEntityRef → Text
entity_key (symbol_entity symbol_id path display_name) = text "symbol:" ++ symbol_id
entity_key (file_entity path) = text "file:" ++ path
entity_key (package_entity package_name package_root) =
    text "package:" ++ (package_root ++ (text ":" ++ package_name))
entity_key (test_entity path display_name symbol_id) =
    text "test:" ++ (path ++ (text ":" ++ text_or_empty symbol_id))

abbrev pub traversal_node_key : TraversalNode → Text
traversal_node_key (symbol_node symbol_id) = text "symbol:" ++ symbol_id
traversal_node_key (file_node path) = text "file:" ++ path

abbrev pub next_node_key : Option TraversalNode → Text
next_node_key none = []
next_node_key (some node) = traversal_node_key node

abbrev pub entity_label : ImpactEntityRef → Text
entity_label (symbol_entity symbol_id path display_name) = display_name
entity_label (file_entity path) = path
entity_label (package_entity package_name package_root) = package_name
entity_label (test_entity path display_name symbol_id) = display_name

abbrev pub reason_edge_label : ImpactReasonEdgeKind → Text
reason_edge_label seed = text "seed"
reason_edge_label contains = text "contains"
reason_edge_label defines = text "defines"
reason_edge_label references = text "references"
reason_edge_label imports = text "imports"
reason_edge_label exports = text "exports"
reason_edge_label declared_in_file = text "declared in"
reason_edge_label referenced_by_file = text "referenced by file"
reason_edge_label imported_by_file = text "imported by file"
reason_edge_label package_member = text "belongs to package"
reason_edge_label test_reference = text "covered by test"
reason_edge_label test_affinity = text "affine to test"

abbrev edge_key : ImpactEvidenceEdge → Text
edge_key edge =
    decimal (relationship_rank edge.edge_kind)
    ++ (text ":"
        ++ (entity_key edge.from
            ++ (text ":" ++ (entity_key edge.to ++ (text ":" ++ metadata_key edge.metadata)))))

unfoldable pub edges_key : List ImpactEvidenceEdge → Text
unfolding metadata_key
edges_key edges = join (text "|") (map edge_key edges)

abbrev pub reason_path_key : ImpactReasonPath → Text
reason_path_key path = edges_key path.edges

-- The tuples that the source compares, as orders by one component after another.
abbrev pub frame_order : TraversalFrame → TraversalFrame → Ordering
frame_order = both (by_key (λ f. certainty_rank f.certainty)) (
    both (by_key (λ f. f.depth))
      (both (by_key (λ f. 2 ^ 32 - 1 - f.score)) (by_key (λ f. edges_key f.path_edges))))

abbrev pub candidate_key_order : CandidateHit → CandidateHit → Ordering
candidate_key_order = both (by_key (λ h. certainty_rank h.certainty)) (
    both (by_key (λ h. h.shortest_reason_path)) (
      both (by_key (λ h. relationship_rank h.primary_reason)) (
        both (by_key (λ h. h.depth)) (
          both (by_key (λ h. h.test_relevance)) (
            both (by_key (λ h. h.path_relevance)) (
              both (by_key (λ h. 2 ^ 32 - 1 - h.score))
                (by_key (λ h. entity_kind_rank (entity_kind h.entity)))))))))

abbrev pub compare_candidate_hits : CandidateHit → CandidateHit → Ordering
compare_candidate_hits = both candidate_key_order (by_key (λ h. entity_key h.entity))

abbrev pub compare_reason_paths : ImpactReasonPath → ImpactReasonPath → Ordering
compare_reason_paths = both (by_key (λ p. length p.edges)) (by_key reason_path_key)

abbrev pub compare_reason_path_sets : List ImpactReasonPath → List ImpactReasonPath → Ordering
compare_reason_path_sets (left ∷ _) (right ∷ _) = compare_reason_paths left right
compare_reason_path_sets (left ∷ _) [] = lt
compare_reason_path_sets [] (right ∷ _) = gt
compare_reason_path_sets [] [] = eq

abbrev pub step_key_order : TraversalStep → TraversalStep → Ordering
step_key_order = both (by_key (λ s. certainty_rank s.certainty)) (
    both (by_key (λ s. relationship_rank s.reason)) (
      both (by_key (λ s. entity_kind_rank (entity_kind s.entity)))
        (both (by_key (λ s. next_node_key s.next_node)) (by_key (λ s. metadata_key s.metadata)))))

abbrev pub compare_steps : TraversalStep → TraversalStep → Ordering
compare_steps = both step_key_order (by_key (λ s. entity_key s.entity))

-- `step_identity(left) == step_identity(right)`
abbrev pub identity_order : TraversalStep → TraversalStep → Ordering
identity_order = both (by_key (λ s. entity_key s.entity)) (
    both (by_key (λ s. relationship_rank s.reason))
      (both (by_key (λ s. next_node_key s.next_node)) (by_key (λ s. metadata_key s.metadata))))

abbrev pub is_eq : Ordering → Bool
is_eq eq = true
is_eq lt = false
is_eq gt = false

abbrev pub is_lt : Ordering → Bool
is_lt lt = true
is_lt eq = false
is_lt gt = false

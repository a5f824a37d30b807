-- ===== src/Impact.antt =====
-- The data of crates/hyperindex-protocol/src/impact.rs, and of impact_enrichment.rs,
-- impact_model.rs, reason_paths.rs and test_ranking.rs of crates/hyperindex-impact/src, that the
-- impact engine works on. Of `ImpactEnrichmentPlan` the audit and the metadata, which the engine
-- does not read, are left out. A `SymbolId` is its text.
pub mod Keys
pub mod Entities
pub mod Steps
pub mod Explain
pub mod Hits
pub mod Traversal
pub mod Engine
use repo_hyperindex.Base.{ℕ, Bool, Option, List}
use repo_hyperindex.Base.Text.{text_ord, Text}
use repo_hyperindex.Base.Dict.{Dict}
use repo_hyperindex.Planner.{
  ImpactEntityRef, symbol_entity, file_entity, package_entity, test_entity,
}

pub data ImpactChangeScenario : Type 0 where
  modify_behavior signature_change rename delete : ImpactChangeScenario

pub data ImpactCertaintyTier : Type 0 where
  certain likely possible : ImpactCertaintyTier

pub data ImpactedEntityKind : Type 0 where
  symbol_kind file_kind package_kind test_kind : ImpactedEntityKind

pub data ImpactReasonEdgeKind : Type 0 where
  seed contains defines references imports exports : ImpactReasonEdgeKind
  declared_in_file referenced_by_file imported_by_file package_member : ImpactReasonEdgeKind
  test_reference test_affinity : ImpactReasonEdgeKind

pub data ImpactDiagnosticSeverity : Type 0 where
  info warning : ImpactDiagnosticSeverity

pub data ImpactTargetRef : Type 0 where
  symbol_target : (value : Text) (symbol_id path : Option Text) → ImpactTargetRef
  file_target : (path : Text) → ImpactTargetRef

abbrev pub entity_kind : ImpactEntityRef → ImpactedEntityKind
entity_kind (symbol_entity symbol_id path display_name) = symbol_kind
entity_kind (file_entity path) = file_kind
entity_kind (package_entity package_name package_root) = package_kind
entity_kind (test_entity path display_name symbol_id) = test_kind

abbrev pub Metadata : Type 0
Metadata = Dict Text Text

pub record ImpactEvidenceEdge : Type 0 where
  pub edge_kind : ImpactReasonEdgeKind
  pub from : ImpactEntityRef
  pub to : ImpactEntityRef
  pub metadata : Metadata

pub record ImpactReasonPath : Type 0 where
  pub summary : Text
  pub edges : List ImpactEvidenceEdge

pub record ImpactHitExplanation : Type 0 where
  pub why : Text
  pub change_effect : Text
  pub primary_path : ImpactReasonPath

pub record ImpactHit : Type 0 where
  pub rank : ℕ
  pub score : ℕ
  pub entity : ImpactEntityRef
  pub certainty : ImpactCertaintyTier
  pub primary_reason : ImpactReasonEdgeKind
  pub depth : ℕ
  pub direct : Bool
  pub explanation : Option ImpactHitExplanation
  pub reason_paths : List ImpactReasonPath

pub record ImpactResultGroup : Type 0 where
  pub direct : Bool
  pub certainty : ImpactCertaintyTier
  pub entity_kind : ImpactedEntityKind
  pub hit_count : ℕ
  pub hits : List ImpactHit

pub record ImpactCertaintyCounts : Type 0 where
  pub certain : ℕ
  pub likely : ℕ
  pub possible : ℕ

pub record ImpactSummary : Type 0 where
  pub direct_count : ℕ
  pub transitive_count : ℕ
  pub certainty_counts : ImpactCertaintyCounts

pub record ImpactTraversalStats : Type 0 where
  pub nodes_visited : ℕ
  pub edges_traversed : ℕ
  pub depth_reached : ℕ
  pub candidates_considered : ℕ
  pub elapsed_ms : ℕ
  pub cutoffs_triggered : List Text

pub record ImpactDiagnostic : Type 0 where
  pub severity : ImpactDiagnosticSeverity
  pub code : Text
  pub message : Text

pub record ImpactAnalyzeParams : Type 0 where
  pub repo_id : Text
  pub snapshot_id : Text
  pub target : ImpactTargetRef
  pub change_hint : ImpactChangeScenario
  pub limit : ℕ
  pub include_transitive : Bool
  pub include_reason_paths : Bool
  pub max_transitive_depth : Option ℕ
  pub max_nodes_visited : Option ℕ
  pub max_edges_traversed : Option ℕ
  pub max_candidates_considered : Option ℕ

-- `manifest`, which the engine leaves empty, is left out.
pub record ImpactAnalyzeResponse : Type 0 where
  pub repo_id : Text
  pub snapshot_id : Text
  pub target : ImpactTargetRef
  pub change_hint : ImpactChangeScenario
  pub summary : ImpactSummary
  pub stats : ImpactTraversalStats
  pub groups : List ImpactResultGroup
  pub diagnostics : List ImpactDiagnostic

pub record ImpactPackageMembership : Type 0 where
  pub package_name : Text
  pub package_root : Text

pub record ImpactReverseReference : Type 0 where
  pub occurrence_id : Text
  pub path : Text
  pub owner_symbol_id : Option Text

pub data ImpactTestAssociationEvidence : Type 0 where
  imports_file references_symbol path_heuristic : ImpactTestAssociationEvidence

pub record ImpactTestAssociation : Type 0 where
  pub test_path : Text
  pub evidence : ImpactTestAssociationEvidence
  pub detail : Text
  pub owner_symbol_id : Option Text

pub record ImpactEnrichmentPlan : Type 0 where
  pub symbol_display_name_by_symbol : Dict Text Text
  pub canonical_symbol_by_symbol : Dict Text Text
  pub reverse_references_by_symbol : Dict Text (List ImpactReverseReference)
  pub reverse_imports_by_symbol : Dict Text (List Text)
  pub reverse_exports_by_symbol : Dict Text (List Text)
  pub reverse_dependents_by_file : Dict Text (List Text)
  pub symbol_to_file : Dict Text Text
  pub file_to_symbols : Dict Text (List Text)
  pub package_by_file : Dict Text ImpactPackageMembership
  pub package_by_symbol : Dict Text ImpactPackageMembership
  pub tests_by_file : Dict Text (List ImpactTestAssociation)
  pub tests_by_symbol : Dict Text (List ImpactTestAssociation)

pub record ResolvedImpactSymbolTarget : Type 0 where
  pub symbol_id : Text
  pub canonical_symbol_id : Text
  pub display_name : Text
  pub path : Text

pub record ResolvedImpactFileTarget : Type 0 where
  pub path : Text
  pub owned_symbol_ids : List Text

pub data ResolvedImpactTarget : Type 0 where
  symbol_resolved : ResolvedImpactSymbolTarget → ResolvedImpactTarget
  file_resolved : ResolvedImpactFileTarget → ResolvedImpactTarget

pub record ImpactModelSeed : Type 0 where
  pub requested_target : ImpactTargetRef
  pub resolved_target : ResolvedImpactTarget
  pub change_hint : ImpactChangeScenario
  pub include_transitive : Bool

pub record ReasonPathSummary : Type 0 where
  pub included : Bool
  pub path_count : ℕ

pub record TestRankingCandidate : Type 0 where
  pub path : Text
  pub reason : Text

pub record ImpactEngineInputs : Type 0 where
  pub seed : ImpactModelSeed
  pub enrichment : ImpactEnrichmentPlan
  pub reason_paths : ReasonPathSummary
  pub test_bonus_by_path : Dict Text ℕ

pub data TraversalNode : Type 0 where
  symbol_node file_node : Text → TraversalNode

pub record TraversalFrame : Type 0 where
  pub node : TraversalNode
  pub entity : ImpactEntityRef
  pub certainty : ImpactCertaintyTier
  pub depth : ℕ
  pub score : ℕ
  pub path_edges : List ImpactEvidenceEdge

pub record TraversalStep : Type 0 where
  pub entity : ImpactEntityRef
  pub next_node : Option TraversalNode
  pub certainty : ImpactCertaintyTier
  pub reason : ImpactReasonEdgeKind
  pub score : ℕ
  pub metadata : Metadata

pub record CandidateHit : Type 0 where
  pub entity : ImpactEntityRef
  pub certainty : ImpactCertaintyTier
  pub primary_reason : ImpactReasonEdgeKind
  pub depth : ℕ
  pub direct : Bool
  pub score : ℕ
  pub shortest_reason_path : ℕ
  pub path_relevance : ℕ
  pub test_relevance : ℕ
  pub explanation : ImpactHitExplanation
  pub reason_paths : List ImpactReasonPath

pub record ScenarioPolicy : Type 0 where
  pub include_consumer_files : Bool
  pub include_heuristic_tests : Bool
  pub max_depth : ℕ
  pub max_nodes_visited : ℕ
  pub max_edges_traversed : ℕ
  pub max_candidates_considered : ℕ

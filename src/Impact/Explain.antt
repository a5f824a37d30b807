-- ===== src/Impact/Explain.antt =====
-- crates/hyperindex-impact/src/impact_engine.rs: reason paths and the words that explain a hit.
use repo_hyperindex.Base.{Option, none, some, List, [], ◌∷◌, ◌++◌, map}
use repo_hyperindex.Base.Order.{nat_ord}
use repo_hyperindex.Base.Text.{text_ord, Text, text, join}
use repo_hyperindex.Base.Dict.{empty, get}
use repo_hyperindex.Planner.{ImpactEntityRef}
use repo_hyperindex.Impact.{
  ImpactChangeScenario, modify_behavior, signature_change, rename, delete, ImpactReasonEdgeKind,
  seed, contains, defines, references, imports, exports, declared_in_file, referenced_by_file,
  imported_by_file, package_member, test_reference, test_affinity, ImpactEvidenceEdge,
  ImpactReasonPath, ImpactHitExplanation,
}
use repo_hyperindex.Impact.Keys.{entity_label, reason_edge_label}

abbrev pub first {ℓ} : {A : Type ℓ} → List A → Option A
first [] = none
first (x ∷ xs) = some x

abbrev pub last {ℓ} : {A : Type ℓ} → List A → Option A
last [] = none
last (x ∷ []) = some x
last (x ∷ y ∷ ys) = last (y ∷ ys)

abbrev why_detail : ImpactReasonEdgeKind → ImpactEvidenceEdge → Text
why_detail seed edge = text "it is the selected impact target"
why_detail contains edge = entity_label edge.from ++ text " contains it"
why_detail defines edge = entity_label edge.from ++ text " defines it"
why_detail references edge = text "it explicitly references " ++ entity_label edge.from
why_detail imports edge = text "it imports " ++ entity_label edge.from
why_detail exports edge = text "it re-exports " ++ entity_label edge.from
why_detail declared_in_file edge = entity_label edge.from ++ text " is declared in it"
why_detail referenced_by_file edge =
    text "it contains an explicit reference to " ++ entity_label edge.from
why_detail imported_by_file edge = text "it imports or depends on " ++ entity_label edge.from
why_detail package_member edge = entity_label edge.from ++ text " belongs to that package"
why_detail test_reference edge = elim (get edge.metadata (text "detail")) [
  | some detail ↦ text "the test has explicit evidence: " ++ detail
  | none ↦ text "the test explicitly imports or references " ++ entity_label edge.from
]
why_detail test_affinity edge = elim (get edge.metadata (text "detail")) [
  | some detail ↦ text "the test is conservatively associated by " ++ detail
  | none ↦ text "the test is conservatively associated with " ++ entity_label edge.from
]

unfoldable pub render_why : ImpactEntityRef → ImpactReasonPath → Text
render_why entity path = elim (last path.edges) [
  | none ↦ entity_label entity ++ text " is the selected impact target."
  | some edge ↦
      entity_label entity
      ++ (text " is in the blast radius because " ++ (why_detail edge.edge_kind edge ++ text "."))
]

abbrev change_effect : ImpactChangeScenario → ImpactReasonEdgeKind → Text
change_effect modify_behavior package_member =
    text "modify_behavior keeps package spillover conservative and below explicit consumer evidence"
change_effect modify_behavior test_affinity =
    text "modify_behavior keeps heuristic tests as conservative fallout rather than direct proof"
change_effect modify_behavior referenced_by_file =
    text
      "modify_behavior treats downstream files as likely only when the graph shows deterministic adjacency"
change_effect modify_behavior imported_by_file =
    text
      "modify_behavior treats downstream files as likely only when the graph shows deterministic adjacency"
change_effect modify_behavior _ =
    text
      "modify_behavior follows explicit references, imports, exports, ownership, and direct test evidence first"
change_effect signature_change referenced_by_file =
    text
      "signature_change promotes direct consumer files because call sites or imports may need edits"
change_effect signature_change imported_by_file =
    text
      "signature_change promotes direct consumer files because call sites or imports may need edits"
change_effect signature_change test_affinity =
    text
      "signature_change can elevate deterministic test affinity when explicit file-level adjacency exists"
change_effect signature_change _ =
    text "signature_change prioritizes explicit consumers that can break at use sites or imports"
change_effect rename test_affinity =
    text "rename excludes heuristic-only tests from ranked results in this phase"
change_effect rename _ =
    text
      "rename propagates through explicit references, imports, exports, and ownership without heuristic-only test expansion"
change_effect delete package_member =
    text "delete allows broader conservative fallout after explicit consumers have been ranked"
change_effect delete test_affinity =
    text "delete allows broader conservative fallout after explicit consumers have been ranked"
change_effect delete _ =
    text
      "delete keeps explicit consumers certain and then expands conservatively through deterministic adjacency"

unfoldable pub render_change_effect : ImpactChangeScenario → ImpactReasonPath → Text
render_change_effect change_hint path = elim (last path.edges) [
  | none ↦ change_effect change_hint seed
  | some edge ↦ change_effect change_hint edge.edge_kind
]

abbrev target_summary : ImpactEntityRef → Text
target_summary entity = entity_label entity ++ text " is the selected impact target"

unfoldable pub explanation_for_hit :
    ImpactChangeScenario → ImpactEntityRef → List ImpactReasonPath → ImpactHitExplanation
unfolding render_why render_change_effect
explanation_for_hit change_hint entity reason_paths =
    let primary_path : ImpactReasonPath = elim (first reason_paths) [
      | some path ↦ path
      | none ↦ record { summary = target_summary entity; edges = [] }
    ] in
    record {
      why = render_why entity primary_path;
      change_effect = render_change_effect change_hint primary_path;
      primary_path = primary_path;
    }

abbrev edge_part : ImpactEvidenceEdge → Text
edge_part edge = reason_edge_label edge.edge_kind ++ (text " " ++ entity_label edge.to)

unfoldable pub summarize_reason_path : List ImpactEvidenceEdge → Text
summarize_reason_path [] = text "selected impact target"
summarize_reason_path (edge ∷ edges) =
    join (text " -> ") (entity_label edge.from ∷ map edge_part (edge ∷ edges))

abbrev pub reason_path_from_edges : List ImpactEvidenceEdge → ImpactReasonPath
reason_path_from_edges edges = record { summary = summarize_reason_path edges; edges = edges }

abbrev pub seed_reason_paths : ImpactEntityRef → List ImpactReasonPath
seed_reason_paths entity =
    record {
      summary = target_summary entity;
      edges = record { edge_kind = seed; from = entity; to = entity; metadata = empty } ∷ [];
    }
    ∷ []

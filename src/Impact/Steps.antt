-- ===== src/Impact/Steps.antt =====
-- crates/hyperindex-impact/src/impact_engine.rs: the steps that lead on from a symbol or a file.
use repo_hyperindex.Base.{
  ℕ, ◌+◌, ◌%◌, ◌^◌, Bool, true, false, not, ◌&&◌, ◌||◌, Option, none, some, List, [], ◌∷◌, ◌++◌,
  if◌then◌else◌, filter, flat_map, is_none,
}
use repo_hyperindex.Base.Order.{beq}
use repo_hyperindex.Base.Text.{text_ord, Text, text}
use repo_hyperindex.Base.Dict.{empty, get, insert}
use repo_hyperindex.Planner.{ImpactEntityRef, file_entity}
use repo_hyperindex.Impact.{
  ImpactChangeScenario, ImpactCertaintyTier, certain, likely, ImpactReasonEdgeKind, contains,
  references, imports, exports, declared_in_file, referenced_by_file, imported_by_file,
  package_member, test_reference, test_affinity, Metadata, ImpactPackageMembership,
  ImpactReverseReference, ImpactTestAssociationEvidence, imports_file, references_symbol,
  path_heuristic, ImpactTestAssociation, ImpactEngineInputs, TraversalNode, symbol_node, file_node,
  TraversalFrame, TraversalStep, ScenarioPolicy,
}
use repo_hyperindex.Impact.Keys.{entity_key, entity_label}
use repo_hyperindex.Impact.Entities.{
  canonical_symbol_id, file_certainty_for_file_consumers, file_certainty_for_symbol_consumers,
  flattened, heuristic_test_certainty, is_test_path, package_entity_of, symbol_entity_of,
  test_entity_of, test_seed_bonus, when_some,
}

abbrev is_heuristic : ImpactTestAssociationEvidence → Bool
is_heuristic path_heuristic = true
is_heuristic imports_file = false
is_heuristic references_symbol = false

-- `format!("{:?}", evidence).to_ascii_lowercase()`
abbrev pub evidence_label : ImpactTestAssociationEvidence → Text
evidence_label imports_file = text "importsfile"
evidence_label references_symbol = text "referencessymbol"
evidence_label path_heuristic = text "pathheuristic"

abbrev test_evidence :
    ImpactChangeScenario
    → ImpactTestAssociationEvidence
    → ImpactCertaintyTier × ImpactReasonEdgeKind × ℕ
test_evidence change_hint imports_file = (certain, test_reference, 880)
test_evidence change_hint references_symbol = (certain, test_reference, 890)
test_evidence change_hint path_heuristic =
    (heuristic_test_certainty change_hint, test_affinity, 420)

abbrev pub metadata_of : Text → Text → Metadata
metadata_of key value = insert empty key value

module _ (plan : ImpactEngineInputs) where
  abbrev test_metadata : ImpactTestAssociation → Metadata
  test_metadata association =
      let base =
        insert
          (insert (metadata_of (text "evidence") (evidence_label association.evidence))
            (text "detail") association.detail)
          (text "test_path") association.test_path in
      elim association.owner_symbol_id [
        | none ↦ base
        | some symbol_id ↦ insert base (text "owner_symbol_id") symbol_id
      ]

  unfoldable pub test_step : ImpactTestAssociation → ScenarioPolicy → Option TraversalStep
  test_step association policy =
      let (certainty, primary_reason, score) =
        test_evidence plan.seed.change_hint association.evidence in
      if is_heuristic association.evidence && not policy.include_heuristic_tests
      then none
      else some (record {
        entity = test_entity_of plan association.test_path association.owner_symbol_id;
        next_node = none;
        certainty = certainty;
        reason = primary_reason;
        score = (score + test_seed_bonus plan association.test_path) % 2 ^ 32;
        metadata = test_metadata association;
      })

  abbrev test_steps : List ImpactTestAssociation → ScenarioPolicy → List TraversalStep
  test_steps associations policy =
      flat_map (λ association. when_some (test_step association policy) (λ step. step ∷ []))
        associations

  abbrev package_steps : Option ImpactPackageMembership → List TraversalStep
  package_steps found = when_some found (λ membership.
      record {
        entity = package_entity_of plan membership;
        next_node = none;
        certainty = likely;
        reason = package_member;
        score = 620;
        metadata = metadata_of (text "package_root") membership.package_root;
      }
      ∷ [])

  abbrev reference_metadata : ImpactReverseReference → Metadata
  reference_metadata reference =
      insert (metadata_of (text "occurrence_id") reference.occurrence_id) (text "path")
        reference.path

  -- The body of the loop over the references to a symbol.
  abbrev reference_steps : Text → ScenarioPolicy → ImpactReverseReference → List TraversalStep
  reference_steps symbol_id policy reference =
      when_some reference.owner_symbol_id (λ owner_symbol_id.
        let owner_canonical = canonical_symbol_id plan owner_symbol_id in
        if beq owner_canonical symbol_id
        then []
        else record {
          entity = symbol_entity_of plan owner_canonical;
          next_node = some (symbol_node owner_canonical);
          certainty = certain;
          reason = references;
          score = 950;
          metadata = reference_metadata reference;
        }
          ∷ [])
      ++ (if policy.include_consumer_files || is_none reference.owner_symbol_id
          then record {
            entity = file_entity reference.path;
            next_node =
                if is_test_path reference.path then none else some (file_node reference.path);
            certainty = file_certainty_for_symbol_consumers plan.seed.change_hint;
            reason = referenced_by_file;
            score = 760;
            metadata = reference_metadata reference;
          }
            ∷ []
          else [])

  abbrev importer_steps : ScenarioPolicy → Text → List TraversalStep
  importer_steps policy importer_symbol_id =
      let importer_canonical = canonical_symbol_id plan importer_symbol_id in
      record {
        entity = symbol_entity_of plan importer_canonical;
        next_node = some (symbol_node importer_canonical);
        certainty = certain;
        reason = imports;
        score = 930;
        metadata = empty;
      }
      ∷ (if policy.include_consumer_files
          then when_some (get plan.enrichment.symbol_to_file importer_canonical) (λ path.
            record {
              entity = file_entity path;
              next_node = some (file_node path);
              certainty = file_certainty_for_symbol_consumers plan.seed.change_hint;
              reason = imported_by_file;
              score = 770;
              metadata = metadata_of (text "path") path;
            }
            ∷ [])
          else [])

  abbrev exporter_steps : Text → List TraversalStep
  exporter_steps exporter_symbol_id =
      let exporter_canonical = canonical_symbol_id plan exporter_symbol_id in
      record {
        entity = symbol_entity_of plan exporter_canonical;
        next_node = some (symbol_node exporter_canonical);
        certainty = certain;
        reason = exports;
        score = 920;
        metadata = empty;
      }
      ∷ []

  abbrev declaring_steps : Text → List TraversalStep
  declaring_steps symbol_id = when_some (get plan.enrichment.symbol_to_file symbol_id) (λ path.
      record {
        entity = file_entity path;
        next_node = some (file_node path);
        certainty = certain;
        reason = declared_in_file;
        score = 900;
        metadata = empty;
      }
      ∷ [])

  abbrev scoped : Text → TraversalStep → TraversalStep
  scoped display_name step = record step {
    metadata = insert step.metadata (text "scope") display_name;
  }

  unfoldable pub add_test_steps_for_symbol : Text → Text → ScenarioPolicy → List TraversalStep
  unfolding test_step
  add_test_steps_for_symbol symbol_id display_name policy =
      test_steps (flattened (get plan.enrichment.tests_by_symbol symbol_id)) policy
      ++ when_some (get plan.enrichment.symbol_to_file symbol_id) (λ path.
        flat_map (λ step. scoped display_name step ∷ [])
          (test_steps (flattened (get plan.enrichment.tests_by_file path)) policy))

  unfoldable pub add_test_steps_for_file : Text → ScenarioPolicy → List TraversalStep
  unfolding test_step
  add_test_steps_for_file path policy =
      test_steps (flattened (get plan.enrichment.tests_by_file path)) policy

  abbrev pub filter_self_steps : List TraversalStep → ImpactEntityRef → List TraversalStep
  filter_self_steps steps current =
      filter (λ step. not (beq (entity_key step.entity) (entity_key current))) steps

  unfoldable pub expand_symbol_node : TraversalFrame → Text → ScenarioPolicy → List TraversalStep
  unfolding is_test_path add_test_steps_for_symbol
  expand_symbol_node frame symbol_id policy =
      let canonical = canonical_symbol_id plan symbol_id in
      let display_name = entity_label (symbol_entity_of plan canonical) in
      filter_self_steps
        (declaring_steps canonical
          ++ (package_steps (get plan.enrichment.package_by_symbol canonical)
              ++ (flat_map (reference_steps canonical policy)
                    (flattened (get plan.enrichment.reverse_references_by_symbol canonical))
                  ++ (flat_map (importer_steps policy)
                        (flattened (get plan.enrichment.reverse_imports_by_symbol canonical))
                      ++ (flat_map exporter_steps
                            (flattened (get plan.enrichment.reverse_exports_by_symbol canonical))
                          ++ add_test_steps_for_symbol canonical display_name policy)))))
        frame.entity

  abbrev owned_steps : Text → List TraversalStep
  owned_steps symbol_id =
      let canonical = canonical_symbol_id plan symbol_id in
      record {
        entity = symbol_entity_of plan canonical;
        next_node = some (symbol_node canonical);
        certainty = certain;
        reason = contains;
        score = 900;
        metadata = empty;
      }
      ∷ []

  abbrev dependent_steps : Text → List TraversalStep
  dependent_steps dependent_path =
      if is_test_path dependent_path
      then record {
        entity = test_entity_of plan dependent_path none;
        next_node = none;
        certainty = certain;
        reason = test_reference;
        score = (880 + test_seed_bonus plan dependent_path) % 2 ^ 32;
        metadata = metadata_of (text "path") dependent_path;
      }
        ∷ []
      else record {
        entity = file_entity dependent_path;
        next_node = some (file_node dependent_path);
        certainty = file_certainty_for_file_consumers plan.seed.change_hint;
        reason = imported_by_file;
        score = 860;
        metadata = metadata_of (text "path") dependent_path;
      }
        ∷ []

  unfoldable pub expand_file_node : TraversalFrame → Text → ScenarioPolicy → List TraversalStep
  unfolding is_test_path add_test_steps_for_file
  expand_file_node frame path policy =
      filter_self_steps
        (flat_map owned_steps (flattened (get plan.enrichment.file_to_symbols path))
          ++ (package_steps (get plan.enrichment.package_by_file path)
              ++ (flat_map dependent_steps
                    (flattened (get plan.enrichment.reverse_dependents_by_file path))
                  ++ add_test_steps_for_file path policy)))
        frame.entity

  abbrev expand_at : TraversalNode → TraversalFrame → ScenarioPolicy → List TraversalStep
  expand_at (symbol_node symbol_id) frame policy = expand_symbol_node frame symbol_id policy
  expand_at (file_node path) frame policy = expand_file_node frame path policy

  unfoldable pub expand_node : TraversalFrame → ScenarioPolicy → List TraversalStep
  unfolding expand_symbol_node expand_file_node
  expand_node frame policy = expand_at frame.node frame policy

-- ===== src/Impact/Entities.antt =====
-- crates/hyperindex-impact/src/impact_engine.rs: the entities that steps lead to, test paths, and
-- certainties by scenario.
use repo_hyperindex.Base.{ℕ, Bool, ◌||◌, Option, none, some, List, [], ◌∷◌, ◌++◌, if◌then◌else◌}
use repo_hyperindex.Base.Order.{beq}
use repo_hyperindex.Base.Text.{text_ord, Text, text, split, ends_with, has_text, to_ascii_lowercase}
use repo_hyperindex.Base.Dict.{get}
use repo_hyperindex.Planner.{ImpactEntityRef, symbol_entity, package_entity, test_entity}
use repo_hyperindex.Impact.{
  ImpactChangeScenario, modify_behavior, signature_change, rename, delete, ImpactCertaintyTier,
  certain, likely, possible, ImpactPackageMembership, ImpactEngineInputs,
}

-- `unwrap_or`, and `into_iter().flatten()` over a missing or present list
abbrev pub unwrap_or {ℓ} : {A : Type ℓ} → A → Option A → A
unwrap_or d none = d
unwrap_or d (some a) = a

abbrev pub flattened {ℓ} : {A : Type ℓ} → Option (List A) → List A
flattened none = []
flattened (some xs) = xs

abbrev pub when_some {ℓ κ} : {A : Type ℓ} {B : Type κ} → Option A → (A → List B) → List B
when_some none f = []
when_some (some a) f = f a

unfoldable pub is_test_path : Text → Bool
is_test_path path =
    let lowercase = to_ascii_lowercase path in
    has_text (text "/__tests__/") lowercase
    || has_text (text "/tests/") lowercase
    || ends_with (text ".test.ts") lowercase
    || ends_with (text ".test.tsx") lowercase
    || ends_with (text ".test.js") lowercase
    || ends_with (text ".test.jsx") lowercase
    || ends_with (text ".spec.ts") lowercase
    || ends_with (text ".spec.tsx") lowercase
    || ends_with (text ".spec.js") lowercase
    || ends_with (text ".spec.jsx") lowercase

-- `Path::file_name` on Unix: the last component that is not empty or `.`, unless it is `..`.
abbrev last_component : List Text → Option Text → Option Text
last_component [] last = last
last_component (piece ∷ pieces) last =
    last_component pieces (if beq piece [] || beq piece (text ".") then last else some piece)

abbrev pub file_name : Text → Option Text
file_name path = elim (last_component (split b'/' path) none) [
  | none ↦ none
  | some piece ↦ if beq piece (text "..") then none else some piece
]

abbrev pub heuristic_test_certainty : ImpactChangeScenario → ImpactCertaintyTier
heuristic_test_certainty signature_change = likely
heuristic_test_certainty modify_behavior = possible
heuristic_test_certainty rename = possible
heuristic_test_certainty delete = possible

abbrev pub file_certainty_for_symbol_consumers : ImpactChangeScenario → ImpactCertaintyTier
file_certainty_for_symbol_consumers modify_behavior = likely
file_certainty_for_symbol_consumers signature_change = certain
file_certainty_for_symbol_consumers rename = certain
file_certainty_for_symbol_consumers delete = certain

abbrev pub file_certainty_for_file_consumers : ImpactChangeScenario → ImpactCertaintyTier
file_certainty_for_file_consumers modify_behavior = likely
file_certainty_for_file_consumers signature_change = certain
file_certainty_for_file_consumers rename = certain
file_certainty_for_file_consumers delete = certain

module _ (plan : ImpactEngineInputs) where
  abbrev pub canonical_symbol_id : Text → Text
  canonical_symbol_id symbol_id =
      unwrap_or symbol_id (get plan.enrichment.canonical_symbol_by_symbol symbol_id)

  -- `symbol_entity`
  abbrev pub symbol_entity_of : Text → ImpactEntityRef
  symbol_entity_of symbol_id =
      symbol_entity symbol_id (unwrap_or [] (get plan.enrichment.symbol_to_file symbol_id))
        (unwrap_or symbol_id (get plan.enrichment.symbol_display_name_by_symbol symbol_id))

  -- `package_entity`
  abbrev pub package_entity_of : ImpactPackageMembership → ImpactEntityRef
  package_entity_of membership = package_entity membership.package_name membership.package_root

  abbrev display_name_of : Option Text → Option Text
  display_name_of none = none
  display_name_of (some symbol_id) = get plan.enrichment.symbol_display_name_by_symbol symbol_id

  -- `test_entity`
  abbrev pub test_entity_of : Text → Option Text → ImpactEntityRef
  test_entity_of path symbol_id =
      test_entity path
        (elim (display_name_of symbol_id) [
          | some name ↦ name ++ text " test"
          | none ↦ unwrap_or path (file_name path)
        ])
        symbol_id

  abbrev pub test_seed_bonus : Text → ℕ
  test_seed_bonus path = unwrap_or 0 (get plan.test_bonus_by_path path)

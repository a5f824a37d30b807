-- ===== src/Planner/Policy.antt =====
-- crates/hyperindex-planner/src/route_policy.rs: which routes a query takes, with the query's
-- intermediate form (`PlannerQueryIr`) of crates/hyperindex-protocol/src/planner.rs. Its last three
-- fields (filters, route hints, budgets) are never read here and are left out.
pub mod Routes
use repo_hyperindex.Base.{
  ℕ, Bool, true, false, not, ◌&&◌, ◌||◌, Option, none, some, List, [], ◌∷◌, ◌++◌, if◌then◌else◌,
  leb, ltb, length, any, find, is_some, is_none, ◌==◌,
}
use repo_hyperindex.Base.Order.{beq}
use repo_hyperindex.Base.Distinct.{contains}
use repo_hyperindex.Base.Text.{Text, text, join}
use repo_hyperindex.Parser.LineIndex.{SourceSpan}
use repo_hyperindex.Planner.{
  PlannerRouteKind, exact, symbol, semantic, impact, route_ord, ImpactEntityRef,
}

pub data PlannerMode : Type 0 where
  auto_mode exact_mode symbol_mode semantic_mode impact_mode : PlannerMode

pub data PlannerQueryStyle : Type 0 where
  exact_lookup symbol_lookup semantic_lookup impact_analysis : PlannerQueryStyle

pub data PlannerIntentSignal : Type 0 where
  regex_like quoted_literal path_like glob_like identifier_like : PlannerIntentSignal
  qualified_symbol_like natural_language_question multi_token_query : PlannerIntentSignal
  impact_phrase selected_symbol_context selected_file_context : PlannerIntentSignal
  selected_span_context selected_package_context selected_workspace_context : PlannerIntentSignal
  selected_impact_context target_context_provided filter_scope_provided : PlannerIntentSignal
  explicit_mode_override : PlannerIntentSignal

pub data PlannerContextRef : Type 0 where
  symbol_context :
      (symbol_id path : Text) (span : Option SourceSpan) (display_name : Option Text)
      → PlannerContextRef
  span_context : (path : Text) (span : SourceSpan) → PlannerContextRef
  file_context : (path : Text) → PlannerContextRef
  package_context : (package_name package_root : Text) → PlannerContextRef
  workspace_context : (workspace_root : Text) → PlannerContextRef
  impact_context : (entity : ImpactEntityRef) → PlannerContextRef

pub data PlannerExactMatchStyle : Type 0 where
  literal_match regex_match path_match glob_match : PlannerExactMatchStyle

pub record PlannerExactQueryIntent : Type 0 where
  pub normalized_term : Text
  pub match_style : PlannerExactMatchStyle

pub record PlannerSymbolQueryIntent : Type 0 where
  pub normalized_symbol : Text
  pub segments : List Text

pub record PlannerSemanticQueryIntent : Type 0 where
  pub normalized_text : Text
  pub tokens : List Text

pub record PlannerImpactQueryIntent : Type 0 where
  pub normalized_text : Text
  pub action_terms : List Text
  pub subject_terms : List Text

pub record PlannerQueryIr : Type 0 where
  pub repo_id : Text
  pub snapshot_id : Text
  pub surface_query : Text
  pub normalized_query : Text
  pub selected_mode : PlannerMode
  pub primary_style : PlannerQueryStyle
  pub candidate_styles : List PlannerQueryStyle
  pub planned_routes : List PlannerRouteKind
  pub intent_signals : List PlannerIntentSignal
  pub limit : ℕ
  pub selected_context : Option PlannerContextRef
  pub target_context : Option PlannerContextRef
  pub exact_query : Option PlannerExactQueryIntent
  pub symbol_query : Option PlannerSymbolQueryIntent
  pub semantic_query : Option PlannerSemanticQueryIntent
  pub impact_query : Option PlannerImpactQueryIntent

pub data PlannerRoutePolicyKind : Type 0 where
  single_route staged_fallback multi_route_candidates seed_then_impact : PlannerRoutePolicyKind

pub record PlannerRoutePolicy : Type 0 where
  pub kind : PlannerRoutePolicyKind
  pub selected_routes : List PlannerRouteKind
  pub low_signal : Bool
  pub notes : List Text

-- `str::contains` of a character, and `rsplit_once('.').is_some()`
abbrev pub looks_like_path : Text → Bool
looks_like_path value =
    any (λ c. c == 0x2F) value || any (λ c. c == 0x5C) value || any (λ c. c == 0x2E) value

abbrev pub is_override : PlannerIntentSignal → Bool
is_override explicit_mode_override = true
is_override _ = false

-- `has_signal` at the one signal that it is called with.
unfoldable pub has_override : PlannerQueryIr → Bool
has_override ir = any is_override ir.intent_signals

unfoldable pub route_if_present : PlannerQueryIr → PlannerRouteKind → List PlannerRouteKind
route_if_present ir route_kind = elim (find (λ planned. beq planned route_kind) ir.planned_routes) [
  | none ↦ []
  | some planned ↦ planned ∷ []
]

unfoldable pub push_if_present :
    PlannerQueryIr → List PlannerRouteKind → PlannerRouteKind → List PlannerRouteKind
push_if_present ir routes route_kind =
    if contains ir.planned_routes route_kind && not (contains routes route_kind)
    then routes ++ route_kind ∷ []
    else routes

unfoldable pub with_kind :
    PlannerRoutePolicyKind → List PlannerRouteKind → Bool → Text → PlannerRoutePolicy
with_kind preferred_kind routes low_signal note = record {
  kind = if leb (length routes) 1 then single_route else preferred_kind;
  selected_routes = routes;
  low_signal = low_signal;
  notes = note ∷ [];
}

unfoldable pub single_route_policy : List PlannerRouteKind → Text → Bool → PlannerRoutePolicy
single_route_policy routes note low_signal = with_kind single_route routes low_signal note

abbrev pub is_direct : PlannerContextRef → Bool
is_direct (symbol_context i p s d) = true
is_direct (span_context p s) = true
is_direct (file_context p) = true
is_direct (package_context n r) = false
is_direct (workspace_context r) = false
is_direct (impact_context e) = true

unfoldable pub has_direct_context_seed : Option PlannerContextRef → Bool
has_direct_context_seed none = false
has_direct_context_seed (some context) = is_direct context

abbrev pub is_path_match : PlannerExactMatchStyle → Bool
is_path_match path_match = true
is_path_match literal_match = false
is_path_match regex_match = false
is_path_match glob_match = false

unfoldable pub impact_has_direct_seed : PlannerQueryIr → Bool
unfolding has_direct_context_seed
impact_has_direct_seed ir =
    has_direct_context_seed ir.selected_context
    || has_direct_context_seed ir.target_context
    || elim ir.exact_query [ none ↦ false | some query ↦ is_path_match query.match_style ]
    || elim ir.impact_query [
      | none ↦ false
      | some query ↦ looks_like_path (join (text " ") query.subject_terms)
    ]

abbrev pub is_semantic_lookup : PlannerQueryStyle → Bool
is_semantic_lookup semantic_lookup = true
is_semantic_lookup exact_lookup = false
is_semantic_lookup symbol_lookup = false
is_semantic_lookup impact_analysis = false

abbrev pub is_impact_analysis : PlannerQueryStyle → Bool
is_impact_analysis impact_analysis = true
is_impact_analysis exact_lookup = false
is_impact_analysis symbol_lookup = false
is_impact_analysis semantic_lookup = false

unfoldable pub is_low_signal_query : PlannerQueryIr → Bool
is_low_signal_query ir =
    is_semantic_lookup ir.primary_style
    && is_none ir.selected_context
    && is_none ir.target_context
    && is_none ir.exact_query
    && is_none ir.symbol_query
    && is_none ir.impact_query
    && elim ir.semantic_query [ none ↦ true | some query ↦ leb (length query.tokens) 3 ]

abbrev pub first_route : List PlannerRouteKind → List PlannerRouteKind
first_route [] = []
first_route (route ∷ routes) = route ∷ []

abbrev pub seed_routes : PlannerQueryIr → List PlannerRouteKind
seed_routes ir =
    push_if_present ir (push_if_present ir (push_if_present ir [] symbol) semantic) impact

-- The routes of an impact query that has no seed: the two pushes that a symbol query guards are
-- reached without one only.
abbrev pub seedless_routes : PlannerQueryIr → List PlannerRouteKind
seedless_routes ir =
    let routes = push_if_present ir [] semantic in
    let routes' = if is_some ir.symbol_query then push_if_present ir routes symbol else routes in
    if length routes' == 0 then push_if_present ir routes' impact else routes'

unfoldable pub plan_route_policy : PlannerQueryIr → PlannerRoutePolicy
plan_route_policy ir =
    if has_override ir
    then single_route_policy (first_route ir.planned_routes)
        (text "explicit mode override bypassed auto routing") false
    else if is_impact_analysis ir.primary_style
    then (if impact_has_direct_seed ir
        then single_route_policy (route_if_present ir impact)
            (text
              "impact analysis can run directly from selected symbol/file context or a concrete file seed")
            false
        else if is_some ir.symbol_query
        then with_kind seed_then_impact (seed_routes ir) false (
            text
              "impact analysis needs deterministic seed resolution before the impact engine is consulted")
        else with_kind multi_route_candidates (seedless_routes ir) true (
            text
              "impact-like wording lacked a deterministic symbol or file seed, so the planner stayed on candidate-retrieval routes"))
    else if ltb 1 (length ir.candidate_styles)
    then with_kind multi_route_candidates ir.planned_routes (is_low_signal_query ir)
        (text "mixed route signals kept multiple route candidates live")
    else with_kind staged_fallback ir.planned_routes (is_low_signal_query ir)
        (text "one dominant route stayed primary while lower-priority fallbacks remained available")

-- ===== src/Planner.antt =====
-- The data of crates/hyperindex-protocol/src/planner.rs and of
-- crates/hyperindex-planner/src/route_adapters.rs that the planner's stages pass on, with
-- `LanguageId` and `SymbolKind` of crates/hyperindex-protocol/src/symbols.rs and
-- `ImpactEntityRef` of impact.rs there. A `SymbolId` is its text.
pub mod Fusion
pub mod Grouping
pub mod Policy
pub mod Trust
pub mod Budget
use repo_hyperindex.Base.{
  ℕ, zero, suc, compare, ◌≡◌, refl, sym, ap, ◌∙◌, some, none, Bool, true, false, Option, List,
  arith,
}
use repo_hyperindex.Base.Order.{Ord, nat_ord}
use repo_hyperindex.Base.Text.{Text}
use repo_hyperindex.Parser.LineIndex.{SourceSpan}

pub data PlannerRouteKind : Type 0 where
  exact symbol semantic impact : PlannerRouteKind

abbrev route_index : PlannerRouteKind → ℕ
route_index exact = 0
route_index symbol = 1
route_index semantic = 2
route_index impact = 3

abbrev route_of_index : ℕ → PlannerRouteKind
route_of_index zero = exact
route_of_index (suc zero) = symbol
route_of_index (suc (suc zero)) = semantic
route_of_index _ = impact

route_back : (k : PlannerRouteKind) → route_of_index (route_index k) ≡ k
route_back exact = refl
route_back symbol = refl
route_back semantic = refl
route_back impact = refl

pub route_eq : (a b : PlannerRouteKind) → route_index a ≡ route_index b → a ≡ b
route_eq a b h = sym (route_back a) ∙ ap route_of_index h ∙ route_back b

-- Only the equality of routes is used (`contains`, `==`).
instance abbrev pub route_ord : Ord PlannerRouteKind
route_ord = record {
  cmp = λ a b. compare (route_index a) (route_index b);
  cmp_self = λ a. nat_ord.cmp_self (route_index a);
  cmp_eq = λ a b h. route_eq a b (nat_ord.cmp_eq (route_index a) (route_index b) h);
  cmp_gt = λ a b. nat_ord.cmp_gt (route_index a) (route_index b);
  cmp_lt = λ a b. nat_ord.cmp_lt (route_index a) (route_index b);
  cmp_chain = λ a b c. nat_ord.cmp_chain (route_index a) (route_index b) (route_index c);
}

pub data LanguageId : Type 0 where
  typescript tsx javascript jsx mts cts : LanguageId

pub data SymbolKind : Type 0 where
  file module_ namespace class interface type_alias enum enum_member function method : SymbolKind
  constructor_ property field variable constant parameter import_binding : SymbolKind

pub data ImpactEntityRef : Type 0 where
  symbol_entity : (symbol_id path display_name : Text) → ImpactEntityRef
  file_entity : (path : Text) → ImpactEntityRef
  package_entity : (package_name package_root : Text) → ImpactEntityRef
  test_entity : (path display_name : Text) (symbol_id : Option Text) → ImpactEntityRef

pub data PlannerAnchor : Type 0 where
  symbol_anchor : (symbol_id path : Text) (span : Option SourceSpan) → PlannerAnchor
  span_anchor : (path : Text) (span : SourceSpan) → PlannerAnchor
  impact_anchor : (entity : ImpactEntityRef) → PlannerAnchor
  file_anchor : (path : Text) → PlannerAnchor
  package_anchor : (package_name package_root : Text) → PlannerAnchor
  workspace_anchor : (workspace_root : Text) → PlannerAnchor

pub data PlannerEvidenceKind : Type 0 where
  exact_match symbol_hit semantic_hit impact_hit context_seed filter_match : PlannerEvidenceKind

pub record PlannerEvidenceItem : Type 0 where
  pub evidence_kind : PlannerEvidenceKind
  pub route_kind : PlannerRouteKind
  pub label : Text
  pub path : Option Text
  pub span : Option SourceSpan
  pub symbol_id : Option Text
  pub impact_entity : Option ImpactEntityRef
  pub snippet : Option Text
  pub score : Option ℕ
  pub notes : List Text

pub record NormalizedPlannerCandidate : Type 0 where
  pub candidate_id : Text
  pub route_kind : PlannerRouteKind
  pub engine_type : PlannerRouteKind
  pub label : Text
  pub anchor : PlannerAnchor
  pub rank : Option ℕ
  pub engine_score : Option ℕ
  pub normalized_score : Option ℕ
  pub primary_path : Option Text
  pub primary_symbol_id : Option Text
  pub primary_span : Option SourceSpan
  pub language : Option LanguageId
  pub extension : Option Text
  pub symbol_kind : Option SymbolKind
  pub package_name : Option Text
  pub package_root : Option Text
  pub workspace_root : Option Text
  pub evidence : List PlannerEvidenceItem
  pub engine_diagnostics : List Text
  pub notes : List Text

-- Chains of steps that panic on `none`.
infixl 5 ◌>>=◌
abbrev pub ◌>>=◌ {ℓ κ} : {A : Type ℓ} {B : Type κ} → Option A → (A → Option B) → Option B
none >>= f = none
some a >>= f = f a

pub >>=-eq-some {ℓ κ} :
    {A : Type ℓ} {B : Type κ} (m : Option A) (f : A → Option B) {b : B}
    → (m >>= f) ≡ some b
    → (a : A) × (m ≡ some a) × (f a ≡ some b)
>>=-eq-some none f h = cc
>>=-eq-some (some a) f h = (a, refl, h)

abbrev pub OnSome {ℓ κ} : {A : Type ℓ} → (A → Type κ) → Option A → Type κ
OnSome P none = Unit
OnSome P (some a) = P a

-- ===== src/Planner/Trust/Anchors.antt =====
-- crates/hyperindex-planner/src/trust_payloads.rs: when the anchors of two groups count as different.
use repo_hyperindex.Base.{
  ◌≡◌, ◌↔◌, ◌∙◌, ◌⊎◌, inl, inr, refl, ap, sym, Bool-cases, Bool, true, false, not, Option, none,
  some, arith,
}
use repo_hyperindex.Base.Order.{beq_iff}
use repo_hyperindex.Base.Text.{text_ord, Text}
use repo_hyperindex.Planner.{PlannerAnchor, symbol_anchor, file_anchor}
use repo_hyperindex.Planner.Grouping.{PlannerResultGroup}
use repo_hyperindex.Planner.Trust.Ambiguity.{are_different_anchors, anchors_eq}

-- The symbol, or the file, that an anchor names.
abbrev pub symbol_of : Option PlannerAnchor → Option Text
symbol_of (some (symbol_anchor symbol_id path span)) = some symbol_id
symbol_of _ = none

abbrev pub file_of : Option PlannerAnchor → Option Text
file_of (some (file_anchor path)) = some path
file_of _ = none

-- Both groups are anchored at one symbol, or both at one file.
abbrev pub HaveOneAnchor : PlannerResultGroup → PlannerResultGroup → Type 0
HaveOneAnchor a b =
    ((id : Text) × (symbol_of a.anchor ≡ some id) × (symbol_of b.anchor ≡ some id))
    ⊎ ((path : Text) × (file_of a.anchor ≡ some path) × (file_of b.anchor ≡ some path))

have_one_anchor :
    (x y : PlannerAnchor)
    → anchors_eq x y ≡ true
    → ((id : Text) × (symbol_of (some x) ≡ some id) × (symbol_of (some y) ≡ some id))
      ⊎ ((path : Text) × (file_of (some x) ≡ some path) × (file_of (some y) ≡ some path))
have_one_anchor (symbol_anchor a p s) (symbol_anchor b q t) h =
    inl (a, refl, ap some (sym ((beq_iff a b).0 h)))
have_one_anchor (file_anchor a) (file_anchor b) h = inr (a, refl, ap some (sym ((beq_iff a b).0 h)))
have_one_anchor _ _ h = absurd (ground arith)

abbrev differ : Option PlannerAnchor → Option PlannerAnchor → Bool
differ none b = true
differ (some x) none = true
differ (some x) (some y) = not (anchors_eq x y)

different-by :
    (first second : PlannerResultGroup)
    → are_different_anchors first second ≡ differ first.anchor second.anchor
different-by first second = ground arith

one_symbol :
    (a b : Option PlannerAnchor) (id : Text)
    → symbol_of a ≡ some id
    → symbol_of b ≡ some id
    → differ a b ≡ false
one_symbol (some (symbol_anchor x p s)) (some (symbol_anchor y q t)) id e f =
    ground (arith, beq_iff x y)
one_symbol _ _ id e f = absurd (ground arith)

one_file :
    (a b : Option PlannerAnchor) (path : Text)
    → file_of a ≡ some path
    → file_of b ≡ some path
    → differ a b ≡ false
one_file (some (file_anchor x)) (some (file_anchor y)) path e f = ground (arith, beq_iff x y)
one_file _ _ path e f = absurd (ground arith)

differ_one :
    (a b : Option PlannerAnchor)
    → differ a b ≡ false
    → ((id : Text) × (symbol_of a ≡ some id) × (symbol_of b ≡ some id))
      ⊎ ((path : Text) × (file_of a ≡ some path) × (file_of b ≡ some path))
differ_one none b h = absurd (ground arith)
differ_one (some x) none h = absurd (ground arith)
differ_one (some x) (some y) h = have_one_anchor x y (ground arith)

pub different_exact :
    (first second : PlannerResultGroup)
    → (are_different_anchors first second ≡ true) ↔ (¬ HaveOneAnchor first second)
different_exact first second = (
  λ different one. elim one [
    | inl (id, e, f) ↦
        ground (
          arith,
          different,
          different-by first second,
          one_symbol first.anchor second.anchor id e f,
        )
    | inr (path, e, f) ↦
        ground (
          arith,
          different,
          different-by first second,
          one_file first.anchor second.anchor path e f,
        )
  ],
  λ apart. elim (Bool-cases (are_different_anchors first second)) [
    | inl different ↦ different
    | inr same ↦
        absurd
          (apart (differ_one first.anchor second.anchor (sym (different-by first second) ∙ same)))
  ],
)

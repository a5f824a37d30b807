-- ===== src/Parser/LineIndex/Search.antt =====
-- crates/hyperindex-parser/src/line_index.rs: what the search finds in an ascending list of starts.
use repo_hyperindex.Base.{
  ℕ, zero, suc, ◌≤◌, ◌<◌, ◌≡◌, refl, Option, none, some, List, [], ◌∷◌, arith, get_elem?,
  if◌then◌else◌, leb,
}
use repo_hyperindex.Base.Order.{nat_ord}
use repo_hyperindex.Base.Ascending.{IsAscending, Above}
use repo_hyperindex.Parser.LineIndex.{Place, found, missing, binary_search, line_of, get_or}

-- How many elements are at most `v`.
abbrev pub rank : List ℕ → ℕ → ℕ
rank [] v = 0
rank (x ∷ xs) v = if leb x v then suc (rank xs v) else rank xs v

pub rank_below : (xs : List ℕ) (x v : ℕ) → Above x xs → v ≤ x → rank xs v ≡ 0
rank_below [] x v a h = refl
rank_below (y ∷ xs) x v a h = ground (arith, rank_below xs x v a.1)

abbrev Finds : List ℕ → ℕ → Place → Type 0
Finds xs v (found i) = suc i ≡ rank xs v
Finds xs v (missing i) = i ≡ rank xs v

Finds-binary_search : (xs : List ℕ) (v : ℕ) → IsAscending xs → Finds xs v (binary_search xs v)
unfolding binary_search
Finds-binary_search [] v h = refl
Finds-binary_search (x ∷ xs) v h =
    ground (arith, Finds-binary_search xs v h.1, rank_below xs x v h.0)

-- The line of a value is one less than its rank.
pub line_of-binary_search :
    (xs : List ℕ) (v : ℕ)
    → IsAscending xs
    → 0 < rank xs v
    → suc (line_of (binary_search xs v)) ≡ rank xs v
line_of-binary_search xs v h p = ground (arith, Finds-binary_search xs v h)

abbrev pub IsPast : ℕ → Option ℕ → Type 0
IsPast v none = Unit
IsPast v (some t) = v < t

-- The last element that is at most `v`, and the one after it.
pub record Brackets (xs : List ℕ) (v i : ℕ) : Type 0 where
  pub here : get_elem? xs i ≡ some (get_or xs i 0)
  pub below : get_or xs i 0 ≤ v
  pub above : IsPast v (get_elem? xs (suc i))

pub Brackets-rank : (xs : List ℕ) (v i : ℕ) → IsAscending xs → suc i ≡ rank xs v → Brackets xs v i
Brackets-rank [] v i h e = absurd (omega arith)
Brackets-rank (x ∷ []) v zero h e = record { here = refl; below = ground arith; above = tt }
Brackets-rank (x ∷ []) v (suc i) h e = absurd (ground arith)
Brackets-rank (x ∷ y ∷ xs) v zero h e = record {
  here = refl;
  below = ground (arith, rank_below xs y v);
  above = ground (arith, rank_below xs y v);
}
Brackets-rank (x ∷ y ∷ xs) v (suc i) h e =
    let b = Brackets-rank (y ∷ xs) v i h.1 (ground (arith, rank_below (y ∷ xs) x v h.0)) in
    record { here = b.here; below = b.below; above = b.above }

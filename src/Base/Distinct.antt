-- ===== src/Base/Distinct.antt =====
-- `Vec::contains`, lists without repetition, and `BTreeSet` as an ordered map to nothing.
use mathlib.Core.Path.{◌≡◌, refl}
use mathlib.Core.Bool.{Bool, true, false, ◌||◌, ◌&&◌, not}
use mathlib.Core.List.{List, [], ◌∷◌, ◌++◌}
use native.Mathlib.Omega.{arith}
use repo_hyperindex.Base.Tests.{is_some}
use repo_hyperindex.Base.Lists.{any, any-append}
use repo_hyperindex.Base.Order.{Ord, beq}
use repo_hyperindex.Base.Dict.{Dict, get, insert, get-insert}

abbrev pub BTreeSet {ℓ} : Type ℓ → Type ℓ
BTreeSet K = Dict K (Unit {0})

module _ {ℓ} {K : Type ℓ} ⦃o : Ord K⦄ where
  abbrev pub contains : List K → K → Bool
  contains xs k = any (λ x. beq x k) xs

  pub contains-snoc :
      (xs : List K) (y k : K) → contains (xs ++ y ∷ []) k ≡ (contains xs k || beq y k)
  contains-snoc xs y k = ground (arith, any-append (λ x. beq x k) xs (y ∷ []))

  -- No element stands twice.
  abbrev pub Distinct : List K → Type 0
  Distinct [] = Unit
  Distinct (x ∷ xs) = (contains xs x ≡ false) × Distinct xs

  abbrev pub distinct : List K → Bool
  distinct [] = true
  distinct (x ∷ xs) = not (contains xs x) && distinct xs

  pub Distinct-of : (xs : List K) → distinct xs ≡ true → Distinct xs
  Distinct-of [] h = tt
  Distinct-of (x ∷ xs) h = ground (arith, Distinct-of xs)

  pub distinct_of : (xs : List K) → Distinct xs → distinct xs ≡ true
  distinct_of [] h = refl
  distinct_of (x ∷ xs) h = ground (arith, distinct_of xs)

  pub Distinct-snoc :
      (xs : List K) (y : K) → Distinct xs → contains xs y ≡ false → Distinct (xs ++ y ∷ [])
  Distinct-snoc [] y h e = (refl, tt)
  Distinct-snoc (x ∷ xs) y h e = ground (
    arith,
    Distinct-snoc xs y h.1,
    any-append (λ z. beq z x) xs (y ∷ []),
    o.cmp_eq y x,
    o.cmp_self x,
  )

  -- `BTreeSet::extend`, `collect`
  unfoldable pub extend : BTreeSet K → List K → BTreeSet K
  extend s [] = s
  extend s (x ∷ xs) = extend (insert s x tt) xs

  pub contains-extend :
      (s : BTreeSet K) (xs : List K) (k : K)
      → is_some (get (extend s xs) k) ≡ (is_some (get s k) || contains xs k)
  unfolding extend
  contains-extend s [] k = ground arith
  contains-extend s (x ∷ xs) k =
      ground (arith, contains-extend (insert s x tt) xs k, get-insert s x k tt)

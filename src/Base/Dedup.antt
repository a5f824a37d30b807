-- ===== src/Base/Dedup.antt =====
-- `Vec::sort` and `Vec::dedup`, which together turn a list into the ascending list of its members.
use mathlib.Core.Path.{◌≡◌, refl, ◌∙◌, sym, ap}
use mathlib.Core.Bool.{Bool, ◌||◌}
use mathlib.Core.List.{List, [], ◌∷◌}
use native.Mathlib.Omega.{arith}
use repo_hyperindex.Base.Tests.{if◌then◌else◌}
use repo_hyperindex.Base.Lists.{any}
use repo_hyperindex.Base.Order.{Ord, beq, beq_iff}
use repo_hyperindex.Base.Sort.{
  sort_by, IsSorted, by_key, by_key-IsWeak, sort_by-IsSorted, any-sort_by,
}
use repo_hyperindex.Base.Distinct.{contains}
use repo_hyperindex.Base.Ascending.{IsAscending, Above, Above-chain, ascending_ext}

module _ {ℓ} {K : Type ℓ} ⦃o : Ord K⦄ where
  -- `Vec::dedup`: of equal neighbours the first stays.
  unfoldable dedup_after : K → List K → List K
  dedup_after x [] = []
  dedup_after x (y ∷ ys) =
      let rest = dedup_after (if beq x y then x else y) ys in if beq x y then rest else y ∷ rest

  unfoldable pub dedup : List K → List K
  unfolding dedup_after
  dedup [] = []
  dedup (x ∷ xs) = x ∷ dedup_after x xs

  -- `sort` and then `dedup`
  unfoldable pub sorted_set : List K → List K
  unfolding dedup
  sorted_set xs = dedup (sort_by o.cmp xs)

  any-dedup_after :
      (p : K → Bool) (x : K) (xs : List K) → (p x || any p (dedup_after x xs)) ≡ (p x || any p xs)
  unfolding dedup_after
  any-dedup_after p x [] = refl
  any-dedup_after p x (y ∷ ys) =
      ground (arith, beq_iff x y, any-dedup_after p x ys, any-dedup_after p y ys)

  any-dedup : (p : K → Bool) (xs : List K) → any p (dedup xs) ≡ any p xs
  unfolding dedup
  any-dedup p [] = refl
  any-dedup p (x ∷ xs) = any-dedup_after p x xs

  pub any-sorted_set : (p : K → Bool) (xs : List K) → any p (sorted_set xs) ≡ any p xs
  unfolding sorted_set
  any-sorted_set p xs = any-dedup p (sort_by o.cmp xs) ∙ any-sort_by o.cmp p xs

  dedup_after-Above : (x : K) (xs : List K) → IsSorted o.cmp (x ∷ xs) → Above x (dedup_after x xs)
  unfolding dedup_after
  dedup_after-Above x [] h = tt
  dedup_after-Above x (y ∷ ys) h = ground (
    arith,
    dedup_after-Above x ys (h.0.1, h.1.1),
    Above-chain x y (dedup_after y ys),
    dedup_after-Above y ys h.1,
  )

  dedup_after-IsAscending :
      (x : K) (xs : List K) → IsSorted o.cmp (x ∷ xs) → IsAscending (dedup_after x xs)
  unfolding dedup_after
  dedup_after-IsAscending x [] h = tt
  dedup_after-IsAscending x (y ∷ ys) h = ground (
    arith,
    dedup_after-IsAscending x ys (h.0.1, h.1.1),
    dedup_after-IsAscending y ys h.1,
    dedup_after-Above y ys h.1,
  )

  dedup-IsAscending : (xs : List K) → IsSorted o.cmp xs → IsAscending (dedup xs)
  unfolding dedup
  dedup-IsAscending [] h = tt
  dedup-IsAscending (x ∷ xs) h = (dedup_after-Above x xs h, dedup_after-IsAscending x xs h)

  pub sorted_set-IsAscending : (xs : List K) → IsAscending (sorted_set xs)
  unfolding sorted_set
  sorted_set-IsAscending xs =
      dedup-IsAscending (sort_by o.cmp xs)
        (sort_by-IsSorted (by_key (λ x. x)) (by_key-IsWeak (λ x. x)) xs)

  -- Lists with the same members agree on every test.
  pub any-same :
      (p : K → Bool) (xs ys : List K)
      → ((k : K) → contains xs k ≡ contains ys k)
      → any p xs ≡ any p ys
  any-same p xs ys same =
      let sets =
        ascending_ext (sorted_set xs) (sorted_set ys) (sorted_set-IsAscending xs)
          (sorted_set-IsAscending ys)
          (λ k.
            any-sorted_set (λ x. beq x k) xs ∙ same k ∙ sym (any-sorted_set (λ x. beq x k) ys)) in
      sym (any-sorted_set p xs) ∙ ap (λ zs. any p zs) sets ∙ any-sorted_set p ys

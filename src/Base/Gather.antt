-- ===== src/Base/Gather.antt =====
-- What `flat_map` over a list becomes when the list is rearranged.
use mathlib.Core.Path.{◌≡◌, refl, sym}
use mathlib.Core.List.{List, [], ◌∷◌, ◌++◌, Perm, append_assoc}
use mathlib.Core.List
use mathlib.Core.List.Perm
use mathlib.Core.Logic.{inl, inr}
use Prim.Native.Nat.{Ordering}
use repo_hyperindex.Base.Tests.{Bool-cases}
use repo_hyperindex.Base.Lists.{flat_map}
use repo_hyperindex.Base.Order.{not_gt}
use repo_hyperindex.Base.Sort.{insert_by, sort_by}

module _ {ℓ} {A : Type ℓ} where
  -- Two blocks at the front change places.
  pub swap_blocks : (xs ys zs : List A) → Perm (xs ++ (ys ++ zs)) (ys ++ (xs ++ zs))
  swap_blocks xs ys zs =
      rw (sym (append_assoc xs ys zs), sym (append_assoc ys xs zs))
        (Perm.append_right zs (List.perm_append_comm xs ys))

module _ {ℓ κ} {A : Type ℓ} {B : Type κ} (f : A → List B) where
  pub flat_map-append : (xs ys : List A) → flat_map f (xs ++ ys) ≡ flat_map f xs ++ flat_map f ys
  flat_map-append [] ys = refl
  flat_map-append (x ∷ xs) ys =
      rw (flat_map-append xs ys) (sym (append_assoc (f x) (flat_map f xs) (flat_map f ys)))

  module _ (cmp : A → A → Ordering) where
    flat_map-insert_by :
        (x : A) (xs : List A) → Perm (flat_map f (insert_by cmp x xs)) (f x ++ flat_map f xs)
    unfolding insert_by
    flat_map-insert_by x [] = Perm.refl _
    flat_map-insert_by x (y ∷ ys) = elim (Bool-cases (not_gt (cmp x y))) [
      | inl e ↦ rw e (Perm.refl _)
      | inr e ↦ rw e (
          Perm.trans (Perm.append_left (f y) (flat_map-insert_by x ys))
            (swap_blocks (f y) (f x) (flat_map f ys)))
    ]

    -- A sort keeps what the elements hold.
    pub flat_map-sort_by : (xs : List A) → Perm (flat_map f (sort_by cmp xs)) (flat_map f xs)
    unfolding sort_by
    flat_map-sort_by [] = Perm.refl []
    flat_map-sort_by (x ∷ xs) =
        Perm.trans (flat_map-insert_by x (sort_by cmp xs))
          (Perm.append_left (f x) (flat_map-sort_by xs))

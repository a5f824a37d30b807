-- ===== src/Base/Ascending.antt =====
-- The keys of a `BTreeMap` come in strictly ascending order, and a list in that order is determined
-- by its members.
use Prim.Native.Nat.Ordering.{lt}
use mathlib.Core.Path.{◌≡◌, refl, ap₂}
use mathlib.Core.Bool.{Bool, false}
use mathlib.Core.List.{List, [], ◌∷◌, map}
use native.Mathlib.Omega.{arith}
use repo_hyperindex.Base.Lists.{All, All-imp, filter}
use repo_hyperindex.Base.Order.{Ord, beq_iff, beq_refl}
use repo_hyperindex.Base.Dict.{Dict, insert_entry, without, insert, remove, keys}
use repo_hyperindex.Base.Distinct.{BTreeSet, contains, Distinct, extend}

module _ {ℓ} {K : Type ℓ} ⦃o : Ord K⦄ where
  abbrev pub Above : K → List K → Type 0
  Above k xs = All (λ x. o.cmp k x ≡ lt) xs

  abbrev pub IsAscending : List K → Type 0
  IsAscending [] = Unit
  IsAscending (x ∷ xs) = Above x xs × IsAscending xs

  pub Above-chain : (j k : K) (xs : List K) → o.cmp j k ≡ lt → Above k xs → Above j xs
  Above-chain j k xs h a = All-imp (λ x e. o.cmp_chain j k x h e) xs a

  pub Above-contains : (k : K) (xs : List K) → Above k xs → contains xs k ≡ false
  Above-contains k [] a = refl
  Above-contains k (x ∷ xs) a = ground (arith, Above-contains k xs a.1, o.cmp_lt k x)

  pub IsAscending-Distinct : (xs : List K) → IsAscending xs → Distinct xs
  IsAscending-Distinct [] h = tt
  IsAscending-Distinct (x ∷ xs) h = (Above-contains x xs h.0, IsAscending-Distinct xs h.1)

  pub Above-filter : (k : K) (p : K → Bool) (xs : List K) → Above k xs → Above k (filter p xs)
  Above-filter k p [] a = tt
  Above-filter k p (x ∷ xs) a = ground (arith, Above-filter k p xs a.1)

  pub IsAscending-filter : (p : K → Bool) (xs : List K) → IsAscending xs → IsAscending (filter p xs)
  IsAscending-filter p [] h = tt
  IsAscending-filter p (x ∷ xs) h =
      ground (arith, IsAscending-filter p xs h.1, Above-filter x p xs h.0)

  ascending_heads :
      (x y : K) (xs ys : List K)
      → IsAscending (x ∷ xs)
      → IsAscending (y ∷ ys)
      → contains (x ∷ xs) x ≡ contains (y ∷ ys) x
      → contains (x ∷ xs) y ≡ contains (y ∷ ys) y
      → x ≡ y
  ascending_heads x y xs ys h k e f = ground (
    arith,
    o.cmp_eq x y,
    o.cmp_gt x y,
    o.cmp_lt x y,
    o.cmp_self x,
    o.cmp_self y,
    Above-contains x ys,
    Above-contains y xs,
    Above-chain x y ys,
    Above-chain y x xs,
  )

  -- Two ascending lists with the same members are the same.
  pub ascending_ext :
      (xs ys : List K)
      → IsAscending xs
      → IsAscending ys
      → ((k : K) → contains xs k ≡ contains ys k)
      → xs ≡ ys
  ascending_ext [] [] h k e = refl
  ascending_ext [] (y ∷ ys) h k e = absurd (ground (arith, e y, beq_refl y))
  ascending_ext (x ∷ xs) [] h k e = absurd (ground (arith, e x, beq_refl x))
  ascending_ext (x ∷ xs) (y ∷ ys) h k e =
      let heads = ascending_heads x y xs ys h k (e x) (e y) in
      ap₂ (λ z zs. z ∷ zs) heads
        (ascending_ext xs ys h.1 k.1 (λ z.
          ground
            (arith, e z, heads, beq_iff x z, Above-contains x xs h.0, Above-contains y ys k.0)))

module _ {ℓ κ} {K : Type ℓ} {V : Type κ} ⦃o : Ord K⦄ where
  abbrev keys_of : List (K × V) → List K
  keys_of m = map (λ e. e.0) m

  Above-insert_entry :
      (j k : K) (v : V) (m : List (K × V))
      → o.cmp j k ≡ lt
      → Above j (keys_of m)
      → Above j (keys_of (insert_entry k v m))
  unfolding insert_entry
  Above-insert_entry j k v [] h a = (h, tt)
  Above-insert_entry j k v ((i, w) ∷ m) h a = ground (arith, Above-insert_entry j k v m h a.1)

  insert_entry-IsAscending :
      (k : K) (v : V) (m : List (K × V))
      → IsAscending (keys_of m)
      → IsAscending (keys_of (insert_entry k v m))
  unfolding insert_entry
  insert_entry-IsAscending k v [] h = (tt, tt)
  insert_entry-IsAscending k v ((i, w) ∷ m) h = ground (
    arith,
    insert_entry-IsAscending k v m h.1,
    Above-insert_entry i k v m,
    Above-chain k i (keys_of m),
    o.cmp_eq k i,
    o.cmp_gt k i,
  )

  Above-without :
      (j k : K) (m : List (K × V)) → Above j (keys_of m) → Above j (keys_of (without k m))
  unfolding without
  Above-without j k [] a = tt
  Above-without j k ((i, w) ∷ m) a = ground (arith, Above-without j k m a.1)

  without-IsAscending :
      (k : K) (m : List (K × V)) → IsAscending (keys_of m) → IsAscending (keys_of (without k m))
  unfolding without
  without-IsAscending k [] h = tt
  without-IsAscending k ((i, w) ∷ m) h =
      ground (arith, without-IsAscending k m h.1, Above-without i k m h.0)

  -- The keys of a map that is built from the empty one.
  abbrev pub IsOrdered : Dict K V → Type 0
  IsOrdered d = IsAscending (keys d)

  pub insert-IsOrdered : (d : Dict K V) (k : K) (v : V) → IsOrdered d → IsOrdered (insert d k v)
  unfolding insert
  insert-IsOrdered d k v h = insert_entry-IsAscending k v d.entries h

  pub remove-IsOrdered : (d : Dict K V) (k : K) → IsOrdered d → IsOrdered (remove d k)
  unfolding remove
  remove-IsOrdered d k h = without-IsAscending k d.entries h

module _ {ℓ} {K : Type ℓ} ⦃o : Ord K⦄ where
  pub extend-IsOrdered : (s : BTreeSet K) (xs : List K) → IsOrdered s → IsOrdered (extend s xs)
  unfolding extend
  extend-IsOrdered s [] h = h
  extend-IsOrdered s (x ∷ xs) h = extend-IsOrdered (insert s x tt) xs (insert-IsOrdered s x tt h)

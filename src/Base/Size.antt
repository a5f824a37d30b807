-- ===== src/Base/Size.antt =====
-- How many entries a `BTreeMap` has after an insertion or a removal.
use mathlib.Core.Path.{◌≡◌, refl}
use mathlib.Core.Bool.{true}
use mathlib.Core.List.{List, [], ◌∷◌, map}
use mathlib.Core.Option.{none}
use native.Mathlib.Omega.{arith}
use Prim.Native.Nat.{suc, ◌≤◌}
use repo_hyperindex.Base.Tests.{if◌then◌else◌, is_some}
use repo_hyperindex.Base.Lists.{length}
use repo_hyperindex.Base.Order.{Ord}
use repo_hyperindex.Base.Dict.{
  Dict, get, lookup, insert_entry, without, insert, remove, len, contains_key,
}
use repo_hyperindex.Base.Ascending.{IsOrdered, IsAscending, Above, Above-chain}

module _ {ℓ κ} {K : Type ℓ} {V : Type κ} ⦃o : Ord K⦄ where
  lookup-Above : (k : K) (m : List (K × V)) → Above k (map (λ e. e.0) m) → lookup k m ≡ none
  unfolding lookup
  lookup-Above k [] a = refl
  lookup-Above k ((i, w) ∷ m) a = ground (arith, lookup-Above k m a.1, o.cmp_eq i k, o.cmp_self k)

  length-insert_entry :
      (k : K) (v : V) (m : List (K × V))
      → IsAscending (map (λ e. e.0) m)
      → length (insert_entry k v m) ≡ (if is_some (lookup k m) then length m else suc (length m))
  unfolding lookup insert_entry
  length-insert_entry k v [] h = refl
  length-insert_entry k v ((i, w) ∷ m) h = ground (
    arith,
    length-insert_entry k v m h.1,
    lookup-Above k m,
    Above-chain k i (map (λ e. e.0) m),
    o.cmp_eq k i,
    o.cmp_self k,
    o.cmp_eq i k,
  )

  length-without-le : (k : K) (m : List (K × V)) → length (without k m) ≤ length m
  unfolding without
  length-without-le k [] = ground arith
  length-without-le k ((i, w) ∷ m) = ground (arith, length-without-le k m)

  length-without-lt :
      (k : K) (m : List (K × V))
      → is_some (lookup k m) ≡ true
      → suc (length (without k m)) ≤ length m
  unfolding lookup without
  length-without-lt k [] h = absurd (ground arith)
  length-without-lt k ((i, w) ∷ m) h = ground (arith, length-without-lt k m, length-without-le k m)

  pub len-insert :
      (d : Dict K V) (k : K) (v : V)
      → IsOrdered d
      → len (insert d k v) ≡ (if contains_key d k then len d else suc (len d))
  unfolding insert get
  len-insert d k v h = length-insert_entry k v d.entries h

  pub len-remove-le : (d : Dict K V) (k : K) → len (remove d k) ≤ len d
  unfolding remove
  len-remove-le d k = length-without-le k d.entries

  pub len-remove-lt :
      (d : Dict K V) (k : K) → contains_key d k ≡ true → suc (len (remove d k)) ≤ len d
  unfolding remove get
  len-remove-lt d k h = length-without-lt k d.entries h

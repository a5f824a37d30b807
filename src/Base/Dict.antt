-- ===== src/Base/Dict.antt =====
-- `BTreeMap` and `BTreeSet`: an association list kept in the order of its keys. A map law is stated
-- for every key, in `if` form.
use Prim.Native.Nat.Ordering.{lt, eq, gt}
use mathlib.Core.Path.{◌≡◌, refl}
use mathlib.Core.Bool.{Bool}
use mathlib.Core.List.{List, [], ◌∷◌, map}
use mathlib.Core.Option.{Option, none, some}
use native.Mathlib.Omega.{arith}
use Prim.Native.Nat.{ℕ}
use repo_hyperindex.Base.Tests.{if◌then◌else◌, is_some}
use repo_hyperindex.Base.Lists.{length, any}
use repo_hyperindex.Base.Order.{Ord, beq}

pub record Dict {ℓ κ} (K : Type ℓ) (V : Type κ) : Type (ℓ ⊔ κ) where
  pub entries : List (K × V)

abbrev pub empty {ℓ κ} : {K : Type ℓ} {V : Type κ} → Dict K V
empty = record { entries = [] }

module _ {ℓ κ} {K : Type ℓ} {V : Type κ} ⦃o : Ord K⦄ where
  unfoldable pub lookup : K → List (K × V) → Option V
  lookup k [] = none
  lookup k ((i, v) ∷ m) = let rest = lookup k m in if beq i k then some v else rest

  unfoldable pub insert_entry : K → V → List (K × V) → List (K × V)
  insert_entry k v [] = (k, v) ∷ []
  insert_entry k v ((i, w) ∷ m) =
      let rest = insert_entry k v m in
      elim (o.cmp k i) [ lt ↦ (k, v) ∷ (i, w) ∷ m | eq ↦ (k, v) ∷ m | gt ↦ (i, w) ∷ rest ]

  unfoldable pub without : K → List (K × V) → List (K × V)
  without k [] = []
  without k ((i, w) ∷ m) = let rest = without k m in if beq i k then rest else (i, w) ∷ rest

  -- `get`, `insert`, `remove`, `contains_key`, `len`
  unfoldable pub get : Dict K V → K → Option V
  unfolding lookup
  get d k = lookup k d.entries

  unfoldable pub insert : Dict K V → K → V → Dict K V
  unfolding insert_entry
  insert d k v = record { entries = insert_entry k v d.entries }

  unfoldable pub remove : Dict K V → K → Dict K V
  unfolding without
  remove d k = record { entries = without k d.entries }

  abbrev pub contains_key : Dict K V → K → Bool
  contains_key d k = is_some (get d k)

  abbrev pub len : Dict K V → ℕ
  len d = length d.entries

  abbrev pub keys : Dict K V → List K
  keys d = map (λ e. e.0) d.entries

  abbrev pub values : Dict K V → List V
  values d = map (λ e. e.1) d.entries

  -- `entry(k).or_insert(v)`
  abbrev pub or_insert : Dict K V → K → V → Dict K V
  or_insert d k v = elim (get d k) [ none ↦ insert d k v | some _ ↦ d ]

  lookup-insert_entry :
      (k j : K) (v : V) (m : List (K × V))
      → lookup j (insert_entry k v m) ≡ (if beq k j then some v else lookup j m)
  unfolding lookup insert_entry
  lookup-insert_entry k j v [] = refl
  lookup-insert_entry k j v ((i, w) ∷ m) =
      ground
        (arith, lookup-insert_entry k j v m, o.cmp_eq k i, o.cmp_self i, o.cmp_eq k j, o.cmp_eq i j)

  lookup-without :
      (k j : K) (m : List (K × V)) → lookup j (without k m) ≡ (if beq k j then none else lookup j m)
  unfolding lookup without
  lookup-without k j [] = ground arith
  lookup-without k j ((i, w) ∷ m) = ground (
    arith,
    lookup-without k j m,
    o.cmp_eq i k,
    o.cmp_eq i j,
    o.cmp_eq k j,
    o.cmp_self i,
    o.cmp_self j,
  )

  pub get-insert :
      (d : Dict K V) (k j : K) (v : V)
      → get (insert d k v) j ≡ (if beq k j then some v else get d j)
  unfolding get insert
  get-insert d k j v = lookup-insert_entry k j v d.entries

  pub get-remove :
      (d : Dict K V) (k j : K) → get (remove d k) j ≡ (if beq k j then none else get d j)
  unfolding get remove
  get-remove d k j = lookup-without k j d.entries

  lookup-any :
      (k : K) (m : List (K × V)) → any (λ i. beq i k) (map (λ e. e.0) m) ≡ is_some (lookup k m)
  unfolding lookup
  lookup-any k [] = refl
  lookup-any k ((i, w) ∷ m) = ground (arith, lookup-any k m)

  -- A key is listed exactly when it has a value.
  pub keys-get : (d : Dict K V) (k : K) → any (λ i. beq i k) (keys d) ≡ is_some (get d k)
  unfolding get
  keys-get d k = lookup-any k d.entries

pub get-empty {ℓ κ} : {K : Type ℓ} {V : Type κ} ⦃o : Ord K⦄ (k : K) → get (empty {V = V}) k ≡ none
unfolding get
get-empty k = refl

pub ruleset dict_laws = (get-empty, get-insert, get-remove)

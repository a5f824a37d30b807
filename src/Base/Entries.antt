-- ===== src/Base/Entries.antt =====
-- What holds of every entry of a `BTreeMap`.
use mathlib.Core.Path.{◌≡◌}
use mathlib.Core.List.{List, [], ◌∷◌}
use mathlib.Core.Logic.{inl, inr}
use mathlib.Core.Option.{some}
use native.Mathlib.Omega.{arith}
use repo_hyperindex.Base.Tests.{Bool-cases}
use repo_hyperindex.Base.Lists.{All}
use repo_hyperindex.Base.Order.{Ord, beq, beq_iff}
use repo_hyperindex.Base.Dict.{Dict, get, lookup, insert, insert_entry}

module _ {ℓ κ μ} {K : Type ℓ} {V : Type κ} ⦃o : Ord K⦄ (P : K → V → Type μ) where
  abbrev pub Entries : Dict K V → Type μ
  Entries d = All (λ e. P e.0 e.1) d.entries

  insert_entry-Entries :
      (k : K) (v : V) (m : List (K × V))
      → P k v
      → All (λ e. P e.0 e.1) m
      → All (λ e. P e.0 e.1) (insert_entry k v m)
  unfolding insert_entry
  insert_entry-Entries k v [] p h = (p, tt)
  insert_entry-Entries k v ((i, w) ∷ m) p h = ground (arith, insert_entry-Entries k v m p h.1)

  lookup-Entries :
      (k : K) (v : V) (m : List (K × V)) → All (λ e. P e.0 e.1) m → lookup k m ≡ some v → P k v
  unfolding lookup
  lookup-Entries k v [] h e = cc
  lookup-Entries k v ((i, w) ∷ m) h e = elim (Bool-cases (beq i k)) [
    | inl same ↦ ground (arith, beq_iff i k, same, h.0, e)
    | inr other ↦ lookup-Entries k v m h.1 (ground (arith, e))
  ]

  pub insert-Entries : (d : Dict K V) (k : K) (v : V) → P k v → Entries d → Entries (insert d k v)
  unfolding insert
  insert-Entries d k v p h = insert_entry-Entries k v d.entries p h

  pub get-Entries : (d : Dict K V) (k : K) (v : V) → Entries d → get d k ≡ some v → P k v
  unfolding get
  get-Entries d k v h e = lookup-Entries k v d.entries h e

-- ===== src/Watcher/Polling/Split.antt =====
-- crates/hyperindex-watcher/src/watcher.rs: the created, removed and modified files of two polls.
use repo_hyperindex.Base.{
  ◌≡◌, refl, Bool, true, false, Option, none, some, List, [], ◌∷◌, map, arith, any, filter, All,
}
use repo_hyperindex.Base.Order.{Ord, beq, beq_iff}
use repo_hyperindex.Base.Text.{text_ord}
use repo_hyperindex.Base.Dict.{Dict, get, lookup}
use repo_hyperindex.Base.Ascending.{Above, IsAscending, IsOrdered}

module _ {ℓ κ} {K : Type ℓ} {V : Type κ} ⦃o : Ord K⦄ where
  abbrev pub test_at : (K → V → Bool) → K → Option V → Bool
  test_at p k none = false
  test_at p k (some v) = p k v

  lookup-Above : (k : K) (m : List (K × V)) → Above k (map (λ e. e.0) m) → lookup k m ≡ none
  unfolding lookup
  lookup-Above k [] a = refl
  lookup-Above k ((i, v) ∷ m) a = ground (arith, lookup-Above k m a.1, beq_iff i k, o.cmp_self k)

  any-filter_at :
      (p : K → V → Bool) (k : K) (m : List (K × V))
      → IsAscending (map (λ e. e.0) m)
      → any (λ e. beq e.0 k) (filter (λ e. p e.0 e.1) m) ≡ test_at p k (lookup k m)
  unfolding lookup
  any-filter_at p k [] h = refl
  any-filter_at p k ((i, v) ∷ m) h =
      ground (arith, any-filter_at p k m h.1, lookup-Above i m h.0, beq_iff i k)

  -- A filter of a map's entries has a key exactly if the key's value passes.
  pub any-filter-get :
      (p : K → V → Bool) (k : K) (d : Dict K V)
      → IsOrdered d
      → any (λ e. beq e.0 k) (filter (λ e. p e.0 e.1) d.entries) ≡ test_at p k (get d k)
  unfolding get
  any-filter-get p k d h = any-filter_at p k d.entries h

  lookup-later :
      (i : K) (v : V) (m es : List (K × V))
      → Above i (map (λ e. e.0) es)
      → All (λ e. lookup e.0 m ≡ some e.1) es
      → All (λ e. lookup e.0 ((i, v) ∷ m) ≡ some e.1) es
  unfolding lookup
  lookup-later i v m [] a h = tt
  lookup-later i v m (e ∷ es) a h =
      (ground (arith, a.0, h.0, beq_iff i e.0, o.cmp_self i), lookup-later i v m es a.1 h.1)

  lookup-own :
      (m : List (K × V)) → IsAscending (map (λ e. e.0) m) → All (λ e. lookup e.0 m ≡ some e.1) m
  unfolding lookup
  lookup-own [] h = tt
  lookup-own ((i, v) ∷ m) h =
      (ground (arith, o.cmp_self i), lookup-later i v m m h.0 (lookup-own m h.1))

  -- Each entry of a map is the value of its key.
  pub entries-get : (d : Dict K V) → IsOrdered d → All (λ e. get d e.0 ≡ some e.1) d.entries
  unfolding get
  entries-get d h = lookup-own d.entries h

  any-lookup :
      (t : K × V → Bool) (k : K) (v : V) (m : List (K × V))
      → lookup k m ≡ some v
      → t (k, v) ≡ true
      → any t m ≡ true
  unfolding lookup
  any-lookup t k v [] h e = cc
  any-lookup t k v ((i, w) ∷ m) h e = ground (arith, any-lookup t k v m, beq_iff i k)

  -- A test that a key's value passes is passed by some entry.
  pub any-get :
      (t : K × V → Bool) (k : K) (v : V) (d : Dict K V)
      → get d k ≡ some v
      → t (k, v) ≡ true
      → any t d.entries ≡ true
  unfolding get
  any-get t k v d h e = any-lookup t k v d.entries h e

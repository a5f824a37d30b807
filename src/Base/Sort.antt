-- ===== src/Base/Sort.antt =====
-- `slice::sort_by`: a stable sort by a comparator, here by insertion; the stable sorted arrangement
-- of a list is unique, so the algorithm is not observable.
use mathlib.Core.Path.{◌≡◌, refl}
use mathlib.Core.Bool.{Bool, true, ◌||◌}
use mathlib.Core.List.{List, [], ◌∷◌, Perm}
use mathlib.Core.List.Perm
use mathlib.Core.Logic.{inl, inr}
use native.Mathlib.Omega.{arith}
use Prim.Native.Nat.{ℕ, Ordering, zero, suc}
use repo_hyperindex.Base.Tests.{if◌then◌else◌, Bool-cases}
use repo_hyperindex.Base.Lists.{All, All-imp, All-take, take, length, any, count}
use repo_hyperindex.Base.Order.{Ord, not_gt, reverse, then_with}

module _ {ℓ} {A : Type ℓ} (cmp : A → A → Ordering) where
  unfoldable pub insert_by : A → List A → List A
  insert_by x [] = x ∷ []
  insert_by x (y ∷ ys) =
      let rest = insert_by x ys in if not_gt (cmp x y) then x ∷ y ∷ ys else y ∷ rest

  unfoldable pub sort_by : List A → List A
  unfolding insert_by
  sort_by [] = []
  sort_by (x ∷ xs) = insert_by x (sort_by xs)

  -- Each element is at most every later one.
  abbrev pub IsSorted : List A → Type 0
  IsSorted [] = Unit
  IsSorted (x ∷ xs) = All (λ y. not_gt (cmp x y) ≡ true) xs × IsSorted xs

  -- A sort keeps what holds of every element.
  All-insert_by {κ} :
      (P : A → Type κ) (x : A) (xs : List A) → P x → All P xs → All P (insert_by x xs)
  unfolding insert_by
  All-insert_by P x [] p h = (p, tt)
  All-insert_by P x (y ∷ ys) p h = ground (arith, All-insert_by P x ys)

  pub All-sort_by {κ} : (P : A → Type κ) (xs : List A) → All P xs → All P (sort_by xs)
  unfolding sort_by
  All-sort_by P [] h = tt
  All-sort_by P (x ∷ xs) h = All-insert_by P x (sort_by xs) h.0 (All-sort_by P xs h.1)

  insert_by-perm : (x : A) (xs : List A) → Perm (insert_by x xs) (x ∷ xs)
  unfolding insert_by
  insert_by-perm x [] = Perm.refl (x ∷ [])
  insert_by-perm x (y ∷ ys) = elim (Bool-cases (not_gt (cmp x y))) [
    | inl e ↦ rw e (Perm.refl (x ∷ y ∷ ys))
    | inr e ↦ rw e (Perm.trans (Perm.cons y (insert_by-perm x ys)) (Perm.swap x y ys))
  ]

  -- A sort rearranges.
  pub sort_by-perm : (xs : List A) → Perm (sort_by xs) xs
  unfolding sort_by
  sort_by-perm [] = Perm.refl []
  sort_by-perm (x ∷ xs) = Perm.trans (insert_by-perm x (sort_by xs)) (Perm.cons x (sort_by-perm xs))

  any-insert_by : (p : A → Bool) (x : A) (xs : List A) → any p (insert_by x xs) ≡ (p x || any p xs)
  unfolding insert_by
  any-insert_by p x [] = refl
  any-insert_by p x (y ∷ ys) = ground (arith, any-insert_by p x ys)

  pub any-sort_by : (p : A → Bool) (xs : List A) → any p (sort_by xs) ≡ any p xs
  unfolding sort_by
  any-sort_by p [] = refl
  any-sort_by p (x ∷ xs) = ground (arith, any-insert_by p x (sort_by xs), any-sort_by p xs)

  count-insert_by :
      (p : A → Bool) (x : A) (xs : List A) → count p (insert_by x xs) ≡ count p (x ∷ xs)
  unfolding insert_by
  count-insert_by p x [] = refl
  count-insert_by p x (y ∷ ys) = ground (arith, count-insert_by p x ys)

  pub count-sort_by : (p : A → Bool) (xs : List A) → count p (sort_by xs) ≡ count p xs
  unfolding sort_by
  count-sort_by p [] = refl
  count-sort_by p (x ∷ xs) = ground (arith, count-insert_by p x (sort_by xs), count-sort_by p xs)

  length-insert_by : (x : A) (xs : List A) → length (insert_by x xs) ≡ suc (length xs)
  unfolding insert_by
  length-insert_by x [] = refl
  length-insert_by x (y ∷ ys) = ground (arith, length-insert_by x ys)

  pub length-sort_by : (xs : List A) → length (sort_by xs) ≡ length xs
  unfolding sort_by
  length-sort_by [] = refl
  length-sort_by (x ∷ xs) = ground (arith, length-insert_by x (sort_by xs), length-sort_by xs)

  pub IsSorted-take : (n : ℕ) (xs : List A) → IsSorted xs → IsSorted (take n xs)
  IsSorted-take zero xs h = tt
  IsSorted-take (suc n) [] h = tt
  IsSorted-take (suc n) (x ∷ xs) h = (All-take _ n xs h.0, IsSorted-take n xs h.1)

-- What a comparator must satisfy for a sort by it to mean anything: a total preorder.
pub record IsWeak {ℓ} {A : Type ℓ} (cmp : A → A → Ordering) : Type ℓ where
  pub swap : (a b : A) → cmp b a ≡ reverse (cmp a b)
  pub chain :
      (a b c : A) → not_gt (cmp a b) ≡ true → not_gt (cmp b c) ≡ true → not_gt (cmp a c) ≡ true

module _ {ℓ} {A : Type ℓ} (cmp : A → A → Ordering) (w : IsWeak cmp) where
  insert_by-IsSorted : (x : A) (xs : List A) → IsSorted cmp xs → IsSorted cmp (insert_by cmp x xs)
  unfolding insert_by
  insert_by-IsSorted x [] h = (tt, tt)
  insert_by-IsSorted x (y ∷ ys) h = elim (Bool-cases (not_gt (cmp x y))) [
    | inl e ↦ rw e ((e, All-imp (λ z k. w.chain x y z e k) ys h.0), h)
    | inr e ↦ rw e (
      All-insert_by cmp (λ z. not_gt (cmp y z) ≡ true) x ys (ground (arith, w.swap x y)) h.0,
      insert_by-IsSorted x ys h.1,
    )
  ]

  -- The result of a sort is sorted.
  pub sort_by-IsSorted : (xs : List A) → IsSorted cmp (sort_by cmp xs)
  unfolding sort_by
  sort_by-IsSorted [] = tt
  sort_by-IsSorted (x ∷ xs) = insert_by-IsSorted x (sort_by cmp xs) (sort_by-IsSorted xs)

  -- A list that is sorted already stays as it is.
  pub sort_by_fixed : (xs : List A) → IsSorted cmp xs → sort_by cmp xs ≡ xs
  unfolding sort_by insert_by
  sort_by_fixed [] h = refl
  sort_by_fixed (x ∷ []) h = refl
  sort_by_fixed (x ∷ y ∷ ys) h = rw (sort_by_fixed (y ∷ ys) h.1, insert_by, h.0.0)

-- Comparators built from keys, as the closures of the source are.
module _ {ℓ κ} {A : Type ℓ} {K : Type κ} ⦃o : Ord K⦄ where
  abbrev pub by_key : (A → K) → A → A → Ordering
  by_key f a b = o.cmp (f a) (f b)

  pub by_key-IsWeak : (f : A → K) → IsWeak (by_key f)
  by_key-IsWeak f = record {
    swap = λ a b.
        ground (
          arith,
          o.cmp_eq (f a) (f b),
          o.cmp_self (f a),
          o.cmp_gt (f a) (f b),
          o.cmp_lt (f a) (f b),
        );
    chain = λ a b c. ground (
      arith,
      o.cmp_eq (f a) (f b),
      o.cmp_eq (f b) (f c),
      o.cmp_self (f a),
      o.cmp_chain (f a) (f b) (f c),
    );
  }

module _ {ℓ} {A : Type ℓ} where
  pub flip-IsWeak : (c : A → A → Ordering) → IsWeak c → IsWeak (λ a b. c b a)
  flip-IsWeak c w = record { swap = λ a b. w.swap b a; chain = λ x y z p q. w.chain z y x q p }

  abbrev pub both : (A → A → Ordering) → (A → A → Ordering) → A → A → Ordering
  both c d a b = then_with (c a b) (d a b)

  pub both-IsWeak : (c d : A → A → Ordering) → IsWeak c → IsWeak d → IsWeak (both c d)
  both-IsWeak c d w v = record {
    swap = λ a b. ground (arith, w.swap a b, v.swap a b);
    chain = λ x y z p q. ground (
      arith,
      w.swap x y,
      w.swap y z,
      w.swap x z,
      w.chain x y z,
      w.chain y z x,
      w.chain z x y,
      v.chain x y z,
    );
  }

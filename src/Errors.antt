-- ===== src/Errors.antt =====
-- crates/hyperindex-core/src/errors.rs: the error type, and `Result` with the `?` operator as bind.
use repo_hyperindex.Base.{◌≡◌, ◌⊎◌, inl, inr, refl, ap, subst, Bool, true, false, List, [], ◌∷◌}
use repo_hyperindex.Base.Text.{Text}

pub data HyperindexError : Type 0 where
  not_implemented : Text → HyperindexError
  invalid_config : Text → HyperindexError
  message : Text → HyperindexError

-- `HyperindexResult<T>`
pub data Result {ℓ} (A : Type ℓ) : Type ℓ where
  ok : A → Result A
  err : HyperindexError → Result A

-- `?`: the first error is the outcome.
module _ {ℓ κ} {A : Type ℓ} {B : Type κ} where
  infixl 5 ◌>>=◌
  abbrev pub ◌>>=◌ : Result A → (A → Result B) → Result B
  err e >>= next = err e
  ok value >>= next = next value

  -- A chain that succeeds has a first step that does.
  pub >>=-eq-ok :
      (first : Result A) (next : A → Result B) {b : B}
      → (first >>= next) ≡ ok b
      → (value : A) × (first ≡ ok value) × (next value ≡ ok b)
  >>=-eq-ok (err e) next h = cc
  >>=-eq-ok (ok value) next h = (value, refl, h)

infixl 5 ◌>>◌
abbrev pub ◌>>◌ {κ} : {B : Type κ} → Result (Unit {0}) → Result B → Result B
err e >> rest = err e
ok done >> rest = rest

abbrev pub from_ok {ℓ} : {A : Type ℓ} → A → Result A → A
from_ok d (ok a) = a
from_ok d (err e) = d

pub ok_inj {ℓ} : {A : Type ℓ} {a b : A} → ok a ≡ ok b → a ≡ b
ok_inj {a} e = ap (from_ok a) e

-- `map` over an iterator, collected into a `Result`: the first error ends it.
module _ {ℓ κ} {A : Type ℓ} {B : Type κ} where
  abbrev pub traverse : (A → Result B) → List A → Result (List B)
  traverse f [] = ok []
  traverse f (x ∷ xs) = do y ← f x; ys ← traverse f xs; ok (y ∷ ys)

-- A loop over an iterator whose body may return early with an error.
module _ {ℓ κ} {S : Type ℓ} {A : Type κ} where
  abbrev pub try_fold : (S → A → Result S) → S → List A → Result S
  try_fold f s [] = ok s
  try_fold f s (x ∷ xs) = f s x >>= λ s'. try_fold f s' xs

  -- What each round keeps, the loop keeps.
  pub try_fold_inv {μ} :
      (P : S → Type μ) (f : S → A → Result S)
      → ((s : S) (x : A) (s' : S) → P s → f s x ≡ ok s' → P s')
      → (s : S) (xs : List A) {t : S} → P s
      → try_fold f s xs ≡ ok t
      → P t
  try_fold_inv P f step s [] p e = subst P (ok_inj e) p
  try_fold_inv P f step s (x ∷ xs) p e =
      let (s', e', k) = >>=-eq-ok (f s x) (λ s'. try_fold f s' xs) e in
      try_fold_inv P f step s' xs (step s x s' p e') k

abbrev pub is_ok {ℓ} : {A : Type ℓ} → Result A → Bool
is_ok (ok a) = true
is_ok (err e) = false

pub ok-from_ok {ℓ} : {A : Type ℓ} (d : A) (r : Result A) → is_ok r ≡ true → r ≡ ok (from_ok d r)
ok-from_ok d (ok a) h = refl
ok-from_ok d (err e) h = cc

pub Result-cases {ℓ} :
    {A : Type ℓ} (r : Result A) → ((e : HyperindexError) × (r ≡ err e)) ⊎ ((a : A) × (r ≡ ok a))
Result-cases (ok a) = inr (a, refl)
Result-cases (err e) = inl (e, refl)
